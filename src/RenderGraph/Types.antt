-- ===== src/RenderGraph/Types.antt =====
-- renderer/render_graph.h: the declarations of a render graph, and the formats, flags and
-- descriptors of graphics/image.h, graphics/buffer.h and graphics/graphics_pipeline.h that they use.
-- The clear values of an attachment are floats, of which only their validity is kept; a draw command
-- is a number, since the graph only asks whether there are any.
use Prim.Native.Nat.{bit_and}
use graphics_engine.Common.{ℕ, Bool, not, ◌&&◌, Option, List, Result, ◌==◌}

pub data PixelFormat : Type 0 where
  undefined rgba8_unorm bgra8_unorm rgba8_srgb bgra8_srgb rgba16_float d32_float : PixelFormat
  d24_unorm_s8_uint : PixelFormat

pub data ImageFormat : Type 0 where
  r8_unorm rg8_unorm rgba8_unorm bgra8_unorm d32_float : ImageFormat

pub data SampleCount : Type 0 where
  x1 x2 x4 x8 : SampleCount

pub data ResourceUsage : Type 0 where
  undefined color_attachment_write depth_stencil_write sampled_read vertex_read : ResourceUsage
  index_read uniform_read transfer_source transfer_destination present : ResourceUsage

pub data AttachmentLoad : Type 0 where
  load clear discard : AttachmentLoad

pub data AttachmentStore : Type 0 where
  store discard : AttachmentStore

pub data ResourceKind : Type 0 where
  image_kind buffer_kind swapchain_kind : ResourceKind

pub record ImageExtent : Type 0 where
  pub width : ℕ
  pub height : ℕ
  pub depth : ℕ

-- Flags are bit sets.
pub record ImageDescriptor : Type 0 where
  pub extent : ImageExtent
  pub mip_levels : ℕ
  pub array_layers : ℕ
  pub format : ImageFormat
  pub usage : ℕ
  pub access : ℕ

pub record BufferDescriptor : Type 0 where
  pub size_bytes : ℕ
  pub usage : ℕ
  pub access : ℕ

-- `ImageHandle` and `BufferHandle`.
pub record Handle : Type 0 where
  pub owner_id : ℕ
  pub value : ℕ
  pub generation : ℕ

abbrev pub handle_eq : Handle → Handle → Bool
handle_eq a b = a.owner_id == b.owner_id && (a.value == b.value && a.generation == b.generation)

pub record ImageDescription : Type 0 where
  pub extent : ImageExtent
  pub format : PixelFormat
  pub samples : SampleCount
  pub usage : ℕ

pub record SwapchainTarget : Type 0 where
  pub identity : ℕ
  pub description : ImageDescription
  pub valid : Bool

pub record GraphId : Type 0 where
  pub graph : ℕ
  pub index : ℕ

abbrev pub graph_id_eq : GraphId → GraphId → Bool
graph_id_eq a b = a.graph == b.graph && a.index == b.index

pub record ResourceUse : Type 0 where
  pub resource : GraphId
  pub usage : ResourceUsage

pub record Attachment : Type 0 where
  pub resource : GraphId
  pub load : AttachmentLoad
  pub store : AttachmentStore
  pub has_valid_clear : Bool
  pub clear_stencil : ℕ

pub record GraphicsPass : Type 0 where
  pub reads : List ResourceUse
  pub writes : List ResourceUse
  pub color_attachments : List Attachment
  pub depth_attachment : Option Attachment
  pub draw_commands : List ℕ

-- `graphics` is the number of the facade that owns the resource, none where the pointer is null, and
-- `swapchain` the number of the target that the weak pointer was made from.
pub record ImportedResource : Type 0 where
  pub id : GraphId
  pub kind : ResourceKind
  pub graphics : Option ℕ
  pub image : Handle
  pub buffer : Handle
  pub swapchain : ℕ
  pub image_description : ImageDescription
  pub buffer_description : BufferDescriptor
  pub initial_usage : ResourceUsage
  pub final_usage : ResourceUsage

pub record GraphDependency : Type 0 where
  pub before : GraphId
  pub after : GraphId

pub record FrameIdentity : Type 0 where
  pub application_frame_index : ℕ
  pub simulation_index : ℕ
  pub frame_slot_index : ℕ
  pub generation : ℕ

abbrev pub frame_eq : FrameIdentity → FrameIdentity → Bool
frame_eq a b =
    a.application_frame_index == b.application_frame_index
    && (a.simulation_index == b.simulation_index
        && (a.frame_slot_index == b.frame_slot_index && a.generation == b.generation))

-- What the graph asks of objects that others own, at the time of a call: the descriptors that a
-- graphics facade has for its handles, and the target that a weak pointer still locks.
pub record Outside : Type 0 where
  pub get_image_descriptor : ℕ → Handle → Result ImageDescriptor
  pub get_buffer_descriptor : ℕ → Handle → Result BufferDescriptor
  pub lock : ℕ → Option SwapchainTarget

-- The bits of `EImageUsage`, `EImageAccess`, `EBufferUsage` and `EBufferAccess`.
abbrev pub image_transfer_source : ℕ
image_transfer_source = 1

abbrev pub image_transfer_destination : ℕ
image_transfer_destination = 2

abbrev pub image_sampled : ℕ
image_sampled = 4

abbrev pub image_color_attachment : ℕ
image_color_attachment = 8

abbrev pub image_depth_stencil_attachment : ℕ
image_depth_stencil_attachment = 16

abbrev pub image_gpu_read : ℕ
image_gpu_read = 1

abbrev pub image_gpu_write : ℕ
image_gpu_write = 2

abbrev pub buffer_transfer_source : ℕ
buffer_transfer_source = 1

abbrev pub buffer_transfer_destination : ℕ
buffer_transfer_destination = 2

abbrev pub buffer_vertex : ℕ
buffer_vertex = 4

abbrev pub buffer_index : ℕ
buffer_index = 8

abbrev pub buffer_uniform : ℕ
buffer_uniform = 16

abbrev pub buffer_gpu_read : ℕ
buffer_gpu_read = 4

abbrev pub buffer_gpu_write : ℕ
buffer_gpu_write = 8

-- `(flags & bit) != 0`.
unfoldable pub has_flag : ℕ → ℕ → Bool
has_flag flags bit = not (bit_and flags bit == 0)
