-- ===== src/ResourceState/Types.antt =====
-- graphics/vulkan/resource_state.h: usages, states, ranges, transitions and barriers; and the
-- constants of the Vulkan headers, which are a parameter.
use graphics_engine.Common.{ℕ, ◌≡◌, max_u64, Bool, ◌==◌, ◌&&◌}

-- The constants that the tracker takes from the Vulkan headers, with the documented facts that it
-- relies on: `VK_WHOLE_SIZE` is the largest device size.
pub record Vulkan : Type 0 where
  pub null_handle : ℕ
  pub whole_size : ℕ
  pub queue_family_ignored : ℕ
  pub stage_none : ℕ
  pub stage_color_attachment_output : ℕ
  pub stage_transfer : ℕ
  pub stage_fragment_shader : ℕ
  pub access_color_attachment_read : ℕ
  pub access_color_attachment_write : ℕ
  pub access_depth_stencil_attachment_write : ℕ
  pub access_shader_storage_write : ℕ
  pub access_transfer_read : ℕ
  pub access_transfer_write : ℕ
  pub access_host_write : ℕ
  pub access_memory_write : ℕ
  pub access_shader_sampled_read : ℕ
  pub whole_size_max : whole_size ≡ max_u64

pub data ResourceUsage : Type 0 where
  undefined present color_attachment_write color_attachment_read_write : ResourceUsage
  transfer_read transfer_write shader_sampled_read : ResourceUsage

pub record BufferState : Type 0 where
  pub stage_mask : ℕ
  pub access_mask : ℕ
  pub queue_family_index : ℕ

pub record BufferTransition : Type 0 where
  pub buffer : ℕ
  pub offset : ℕ
  pub size : ℕ
  pub usage : ResourceUsage
  pub queue_family_index : ℕ

pub record BufferRange : Type 0 where
  pub buffer : ℕ
  pub offset : ℕ
  pub size : ℕ
  pub state : BufferState

-- `VkBufferMemoryBarrier2`, less its type tag and its extension chain.
pub record BufferBarrier : Type 0 where
  pub source_stage_mask : ℕ
  pub source_access_mask : ℕ
  pub destination_stage_mask : ℕ
  pub destination_access_mask : ℕ
  pub source_queue_family_index : ℕ
  pub destination_queue_family_index : ℕ
  pub buffer : ℕ
  pub offset : ℕ
  pub size : ℕ

abbrev pub state_equals : BufferState → BufferState → Bool
state_equals a b =
    a.stage_mask == b.stage_mask
    && a.access_mask == b.access_mask
    && a.queue_family_index == b.queue_family_index
