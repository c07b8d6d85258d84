-- ===== src/RenderGraph/Validation.antt =====
-- renderer/render_graph.cpp: what a resource has to be to stand in a graph and to be used by a pass.
use graphics_engine.Common.{
  ltb, ◌==◌, if◌then◌else◌, unknown, invalid_argument, Result, err, ok, throw_if, ◌>>=◌, ◌>>◌, ℕ,
  Bool, true, false, not, ◌&&◌, ◌||◌, Option, none, some,
}
use graphics_engine.RenderGraph.Types.{
  PixelFormat, undefined, d32_float, d24_unorm_s8_uint, ImageFormat, x1, ResourceUsage,
  color_attachment_write, depth_stencil_write, sampled_read, vertex_read, index_read, uniform_read,
  transfer_source, transfer_destination, present, ResourceKind, image_kind, buffer_kind,
  swapchain_kind, ImageDescriptor, ImageDescription, SwapchainTarget, ImportedResource, Outside,
  image_transfer_source, image_transfer_destination, image_sampled, image_color_attachment,
  image_depth_stencil_attachment, image_gpu_read, image_gpu_write, buffer_transfer_source,
  buffer_transfer_destination, buffer_vertex, buffer_index, buffer_uniform, buffer_gpu_read,
  buffer_gpu_write, has_flag,
}

-- `Require(condition, ...)`.
abbrev pub require : Bool → Result (Unit {0})
require condition = throw_if (not condition) invalid_argument

unfoldable pub is_read : ResourceUsage → Bool
is_read sampled_read = true
is_read vertex_read = true
is_read index_read = true
is_read uniform_read = true
is_read transfer_source = true
is_read _ = false

unfoldable pub is_write : ResourceUsage → Bool
is_write color_attachment_write = true
is_write depth_stencil_write = true
is_write _ = false

unfoldable pub is_depth : PixelFormat → Bool
is_depth d32_float = true
is_depth d24_unorm_s8_uint = true
is_depth _ = false

abbrev pub is_known_format : PixelFormat → Bool
is_known_format undefined = false
is_known_format _ = true

-- All bits of a `std::uint32_t` but those of the five usages.
abbrev pub unknown_image_usages : ℕ
unknown_image_usages = 4294967264

-- Every sample count of the type is valid.
unfoldable pub validate_image : ImageDescription → Result (Unit {0})
unfolding has_flag is_depth
validate_image image = do
  require (ltb 0 image.extent.width && (ltb 0 image.extent.height && image.extent.depth == 1))
  require (is_known_format image.format)
  require (not (image.usage == 0) && not (has_flag image.usage unknown_image_usages))
  require (
      not (
        has_flag image.usage (
          if is_depth image.format
          then image_color_attachment
          else image_depth_stencil_attachment)))

unfoldable pub pixel_format : ImageFormat → Result PixelFormat
pixel_format ImageFormat.rgba8_unorm = ok PixelFormat.rgba8_unorm
pixel_format ImageFormat.bgra8_unorm = ok PixelFormat.bgra8_unorm
pixel_format ImageFormat.d32_float = ok PixelFormat.d32_float
pixel_format _ = err invalid_argument

unfoldable pub describe_image : ImageDescriptor → Result ImageDescription
unfolding pixel_format
describe_image image = do
  require (image.mip_levels == 1)
  format ← pixel_format image.format
  ok (record { extent = image.extent; format = format; samples = x1; usage = image.usage })

-- The capability that a use of a buffer wants.
abbrev pub buffer_capability : ResourceUsage → Result ℕ
buffer_capability vertex_read = ok buffer_vertex
buffer_capability index_read = ok buffer_index
buffer_capability uniform_read = ok buffer_uniform
buffer_capability transfer_source = ok buffer_transfer_source
buffer_capability transfer_destination = ok buffer_transfer_destination
buffer_capability _ = err invalid_argument

abbrev pub image_capability : ResourceUsage → Result ℕ
image_capability color_attachment_write = ok image_color_attachment
image_capability depth_stencil_write = ok image_depth_stencil_attachment
image_capability sampled_read = ok image_sampled
image_capability transfer_source = ok image_transfer_source
image_capability transfer_destination = ok image_transfer_destination
image_capability _ = err invalid_argument

-- Where the resource has a graphics facade, its image must be accessible as asked.
abbrev pub require_access : Outside → ImportedResource → ℕ → Option ℕ → Result (Unit {0})
require_access outside resource access none = ok tt
require_access outside resource access (some graphics) = do
  image ← outside.get_image_descriptor graphics resource.image
  require (has_flag image.access access)

unfoldable pub validate_buffer_usage : ImportedResource → ResourceUsage → Result (Unit {0})
unfolding has_flag is_read
validate_buffer_usage resource usage = do
  required ← buffer_capability usage
  require (has_flag resource.buffer_description.usage required)
  require (
      has_flag resource.buffer_description.access
        (if is_read usage then buffer_gpu_read else buffer_gpu_write))

unfoldable pub validate_image_usage : Outside → ImportedResource → ResourceUsage → Result (Unit {0})
unfolding has_flag is_read
validate_image_usage outside resource usage = do
  required ← image_capability usage
  require (has_flag resource.image_description.usage required)
  require_access outside resource (if is_read usage then image_gpu_read else image_gpu_write)
      resource.graphics

abbrev pub validate_kind :
    ResourceKind → Outside → ImportedResource → ResourceUsage → Result (Unit {0})
validate_kind buffer_kind outside resource usage = validate_buffer_usage resource usage
validate_kind _ outside resource usage = validate_image_usage outside resource usage

abbrev pub is_swapchain : ResourceKind → Bool
is_swapchain swapchain_kind = true
is_swapchain _ = false

abbrev pub is_buffer : ResourceKind → Bool
is_buffer buffer_kind = true
is_buffer _ = false

unfoldable pub validate_usage :
    Outside → ImportedResource → ResourceUsage → Bool → Result (Unit {0})
unfolding validate_buffer_usage validate_image_usage
validate_usage outside resource ResourceUsage.undefined allow_undefined = require allow_undefined
validate_usage outside resource present allow_undefined = require (is_swapchain resource.kind)
validate_usage outside resource usage allow_undefined =
    validate_kind resource.kind outside resource usage

abbrev pub is_present : ResourceUsage → Bool
is_present present = true
is_present _ = false

abbrev pub is_undefined : ResourceUsage → Bool
is_undefined ResourceUsage.undefined = true
is_undefined _ = false

abbrev pub is_live : Option SwapchainTarget → Bool
is_live none = false
is_live (some target) = target.valid

-- The facade of a resource that is no swapchain image is never null.
abbrev pub on_facade {ℓ} : {A : Type ℓ} → (ℕ → Result A) → Option ℕ → Result (Unit {0})
on_facade lookup none = err unknown
on_facade lookup (some graphics) = lookup graphics >>= λ _. ok tt

abbrev pub validate_source : ResourceKind → Outside → ImportedResource → Result (Unit {0})
validate_source swapchain_kind outside resource = do
  require (is_live (outside.lock resource.swapchain))
  require (is_present resource.final_usage)
  require (is_undefined resource.initial_usage || is_present resource.initial_usage)
validate_source image_kind outside resource =
    on_facade (λ graphics. outside.get_image_descriptor graphics resource.image) resource.graphics
validate_source buffer_kind outside resource =
    on_facade (λ graphics. outside.get_buffer_descriptor graphics resource.buffer) resource.graphics

unfoldable pub validate_import : Outside → ImportedResource → Result (Unit {0})
unfolding validate_image validate_usage
validate_import outside resource = do
  validate_source resource.kind outside resource
  if is_buffer resource.kind then ok tt else validate_image resource.image_description
  validate_usage outside resource resource.initial_usage true
  validate_usage outside resource resource.final_usage false
