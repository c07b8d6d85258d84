-- ===== src/ResourceState/Buffers.antt =====
-- graphics/vulkan/resource_state.cpp: the buffer methods of `VulkanResourceStateTracker`. The
-- tracked ranges go in and come out; each method makes its tests before it writes, so a throw
-- leaves them as they were.
pub mod Transition
pub mod Forget
use Prim.Native.Nat.{min, bit_and, bit_or}
use graphics_engine.Common.{
  ℕ, zero, suc, ◌+◌, ◌-◌, Bool, true, false, not, ◌&&◌, ◌||◌, Option, none, some, List, [], ◌∷◌,
  ◌++◌, Result, ok, err, ◌>>=◌, ◌>>◌, throw_if, invalid_argument, ◌==◌, ltb, if◌then◌else◌, max_u64,
}
use graphics_engine.ResourceState.Types.{
  Vulkan, ResourceUsage, undefined, present, color_attachment_write, color_attachment_read_write,
  transfer_read, transfer_write, shader_sampled_read, BufferState, BufferTransition, BufferRange,
  BufferBarrier,
}
use graphics_engine.ResourceState.Ranges.{
  range_end, end_of, find_range, has_buffer_range_overlap, find_buffer_range_source,
  replace_buffer_range,
}

unfoldable pub is_undefined : ResourceUsage → Bool
is_undefined undefined = true
is_undefined present = false
is_undefined color_attachment_write = false
is_undefined color_attachment_read_write = false
is_undefined transfer_read = false
is_undefined transfer_write = false
is_undefined shader_sampled_read = false

module _ (vk : Vulkan) where
  open vk use {
    stage_none, stage_color_attachment_output, stage_transfer, stage_fragment_shader,
    access_color_attachment_read, access_color_attachment_write,
    access_depth_stencil_attachment_write, access_shader_storage_write, access_transfer_read,
    access_transfer_write, access_host_write, access_memory_write, access_shader_sampled_read,
    queue_family_ignored, null_handle, whole_size,
  }

  -- `WRITE_ACCESS_MASK`.
  abbrev pub write_access_mask : ℕ
  write_access_mask =
      bit_or
        (bit_or
          (bit_or
            (bit_or (bit_or access_color_attachment_write access_depth_stencil_attachment_write)
              access_shader_storage_write)
            access_transfer_write)
          access_host_write)
        access_memory_write

  unfoldable pub has_write_access : ℕ → Bool
  has_write_access access_mask = not (bit_and access_mask write_access_mask == 0)

  unfoldable pub requires_barrier : BufferState → BufferState → Bool
  requires_barrier source destination =
      has_write_access source.access_mask
      || has_write_access destination.access_mask
      || not (source.queue_family_index == destination.queue_family_index)

  unfoldable pub merge_read_states : BufferState → BufferState → BufferState
  merge_read_states source destination = record {
    stage_mask = bit_or source.stage_mask destination.stage_mask;
    access_mask = bit_or source.access_mask destination.access_mask;
    queue_family_index = destination.queue_family_index;
  }

  unfoldable pub make_buffer_state : ResourceUsage → ℕ → BufferState
  make_buffer_state undefined family = record {
    stage_mask = stage_none;
    access_mask = 0;
    queue_family_index = family;
  }
  make_buffer_state present family = record {
    stage_mask = stage_none;
    access_mask = 0;
    queue_family_index = family;
  }
  make_buffer_state color_attachment_read_write family = record {
    stage_mask = stage_color_attachment_output;
    access_mask = bit_or access_color_attachment_read access_color_attachment_write;
    queue_family_index = family;
  }
  make_buffer_state color_attachment_write family = record {
    stage_mask = stage_color_attachment_output;
    access_mask = access_color_attachment_write;
    queue_family_index = family;
  }
  make_buffer_state transfer_read family = record {
    stage_mask = stage_transfer;
    access_mask = access_transfer_read;
    queue_family_index = family;
  }
  make_buffer_state transfer_write family = record {
    stage_mask = stage_transfer;
    access_mask = access_transfer_write;
    queue_family_index = family;
  }
  make_buffer_state shader_sampled_read family = record {
    stage_mask = stage_fragment_shader;
    access_mask = access_shader_sampled_read;
    queue_family_index = family;
  }

  pub validate_initial_queue_family : BufferState → Result (Unit {0})
  validate_initial_queue_family state =
      throw_if (not (state.queue_family_index == queue_family_ignored)) invalid_argument

  unfoldable pub resolve_queue_family : BufferState → BufferState → Result BufferState
  resolve_queue_family source destination =
      if source.queue_family_index == queue_family_ignored
      then (if destination.queue_family_index == queue_family_ignored
          then ok destination
          else err invalid_argument)
      else ok (
          if destination.queue_family_index == queue_family_ignored
          then record destination { queue_family_index = source.queue_family_index }
          else destination)

  pub make_buffer_barrier : ℕ → ℕ → ℕ → BufferState → BufferState → BufferBarrier
  make_buffer_barrier buffer offset size source destination = record {
    source_stage_mask = source.stage_mask;
    source_access_mask = source.access_mask;
    destination_stage_mask = destination.stage_mask;
    destination_access_mask = destination.access_mask;
    source_queue_family_index = source.queue_family_index;
    destination_queue_family_index = destination.queue_family_index;
    buffer = buffer;
    offset = offset;
    size = size;
  }

  unfoldable pub import_buffer :
      List BufferRange → ℕ → ℕ → ℕ → BufferState → Result (List BufferRange)
  import_buffer ranges buffer offset size state = do
    throw_if (buffer == null_handle) invalid_argument
    ok (replace_buffer_range vk ranges buffer offset size state)

  pub forget_buffer : List BufferRange → ℕ → List BufferRange
  forget_buffer [] buffer = []
  forget_buffer (r ∷ rs) buffer =
      let rest = forget_buffer rs buffer in if r.buffer == buffer then rest else r ∷ rest

  pub get_buffer_state : List BufferRange → ℕ → ℕ → ℕ → Result (Option BufferState)
  get_buffer_state ranges buffer offset size =
      find_buffer_range_source vk ranges buffer offset size false

  -- The entry for a range that was not tracked at all.
  abbrev pub new_range : BufferTransition → BufferState → BufferRange
  new_range t state = record { buffer = t.buffer; offset = t.offset; size = t.size; state = state }

  pub start_tracking :
      List BufferRange → BufferTransition → Result (List BufferRange × Option BufferBarrier)
  start_tracking ranges t = do
    throw_if (has_buffer_range_overlap vk ranges t.buffer t.offset t.size) invalid_argument
    let destination = make_buffer_state t.usage t.queue_family_index
    validate_initial_queue_family destination
    ok (ranges ++ new_range t destination ∷ [], none)

  unfoldable pub continue_tracking :
      List BufferRange
      → BufferTransition
      → BufferState
      → Result (List BufferRange × Option BufferBarrier)
  continue_tracking ranges t source = do
    destination ← resolve_queue_family source (make_buffer_state t.usage t.queue_family_index)
    if not (requires_barrier source destination)
        then ok (
          replace_buffer_range vk ranges t.buffer t.offset t.size
              (merge_read_states source destination),
          none,
        )
        else ok (
          replace_buffer_range vk ranges t.buffer t.offset t.size destination,
          some (make_buffer_barrier t.buffer t.offset t.size source destination),
        )

  unfoldable pub transition_buffer :
      List BufferRange → BufferTransition → Result (List BufferRange × Option BufferBarrier)
  unfolding start_tracking continue_tracking is_undefined
  transition_buffer ranges t = do
    throw_if (t.buffer == null_handle) invalid_argument
    throw_if (is_undefined t.usage) invalid_argument
    source ← find_buffer_range_source vk ranges t.buffer t.offset t.size true
    elim source [ none ↦ start_tracking ranges t | some state ↦ continue_tracking ranges t state ]
