-- ===== src/RenderGraph/Builder.antt =====
-- renderer/render_graph.cpp: `SwapchainGraphTarget`, and the methods of `RenderGraphBuilder` that
-- declare resources, passes and dependencies.
use graphics_engine.Common.{
  ltb, ◌==◌, max_u64, length, any, invalid_argument, Result, err, ok, ◌>>=◌, ◌>>◌, ℕ, ◌+◌, Bool,
  true, false, not, ◌&&◌, Option, none, some, List, [], ◌∷◌, ◌++◌,
}
use graphics_engine.RenderGraph.Types.{
  PixelFormat, SampleCount, x1, ResourceUsage, present, ResourceKind, image_kind, buffer_kind,
  swapchain_kind, BufferDescriptor, Handle, handle_eq, ImageDescription, SwapchainTarget, GraphId,
  GraphicsPass, ImportedResource, GraphDependency, FrameIdentity, Outside,
}
use graphics_engine.RenderGraph.Validation.{
  require, is_depth, validate_image, describe_image, validate_import,
}

-- The constructor of `SwapchainGraphTarget`; every sample count but `x1` is refused.
abbrev pub is_single : SampleCount → Bool
is_single x1 = true
is_single _ = false

unfoldable pub new_target : ℕ → ImageDescription → Result SwapchainTarget
unfolding validate_image is_depth
new_target identity description = do
  require (not (identity == 0))
  validate_image description
  require (not (is_depth description.format) && is_single description.samples)
  ok (record { identity = identity; description = description; valid = true })

unfoldable pub invalidate : SwapchainTarget → SwapchainTarget
invalidate target = record target { valid = false }

pub record Builder : Type 0 where
  pub frame : FrameIdentity
  pub identity : ℕ
  pub resources : List ImportedResource
  pub passes : List GraphicsPass
  pub dependencies : List GraphDependency

-- The counter that all builders share goes in and comes out.
unfoldable pub acquire_graph_identity : ℕ → Result (ℕ × ℕ)
acquire_graph_identity next = do require (not (next == max_u64)); ok (next, next + 1)

unfoldable pub new_builder : FrameIdentity → ℕ → Result (Builder × ℕ)
unfolding acquire_graph_identity
new_builder frame counter = acquire_graph_identity counter >>= λ (identity, next).
    require (not (frame.generation == 0))
    >> ok (
      record { frame = frame; identity = identity; resources = []; passes = []; dependencies = [] },
      next,
    )

-- Two targets that are both alive may not have one identity.
abbrev pub same_target : Option SwapchainTarget → Option SwapchainTarget → Bool
same_target (some left) (some right) = left.identity == right.identity
same_target _ _ = false

abbrev pub same_graphics : Option ℕ → Option ℕ → Bool
same_graphics none none = true
same_graphics (some a) (some b) = a == b
same_graphics _ _ = false

-- The test of a new resource against one that is in the graph.
abbrev pub duplicates_kind :
    ResourceKind → ResourceKind → Outside → ImportedResource → ImportedResource → Bool
duplicates_kind swapchain_kind swapchain_kind outside existing resource =
    same_target (outside.lock existing.swapchain) (outside.lock resource.swapchain)
duplicates_kind image_kind image_kind outside existing resource =
    same_graphics existing.graphics resource.graphics && handle_eq existing.image resource.image
duplicates_kind buffer_kind buffer_kind outside existing resource =
    same_graphics existing.graphics resource.graphics && handle_eq existing.buffer resource.buffer
duplicates_kind _ _ outside existing resource = false

unfoldable pub duplicates : Outside → ImportedResource → ImportedResource → Bool
duplicates outside resource existing =
    duplicates_kind existing.kind resource.kind outside existing resource

unfoldable pub add_resource : Outside → ImportedResource → Builder → Result (GraphId × Builder)
unfolding duplicates validate_import
add_resource outside resource b =
    let id : GraphId = record { graph = b.identity; index = length b.resources } in
    let identified : ImportedResource = record resource { id = id } in
    require (not (any (duplicates outside resource) b.resources))
    >> (validate_import outside identified
        >> ok (id, record b { resources = b.resources ++ identified ∷ [] }))

abbrev pub no_id : GraphId
no_id = record { graph = 0; index = 0 }

abbrev pub no_handle : Handle
no_handle = record { owner_id = 0; value = 0; generation = 0 }

abbrev pub no_buffer : BufferDescriptor
no_buffer = record { size_bytes = 0; usage = 0; access = 0 }

abbrev pub no_image : ImageDescription
no_image = record {
  extent = record { width = 0; height = 0; depth = 1 };
  format = PixelFormat.undefined;
  samples = x1;
  usage = 0;
}

unfoldable pub import_image :
    Outside → ℕ → Handle → ResourceUsage → ResourceUsage → Builder → Result (GraphId × Builder)
unfolding describe_image add_resource
import_image outside graphics image initial_usage final_usage b = do
  descriptor ← outside.get_image_descriptor graphics image
  description ← describe_image descriptor
  add_resource outside
      (record {
        id = no_id;
        kind = image_kind;
        graphics = some graphics;
        image = image;
        buffer = no_handle;
        swapchain = 0;
        image_description = description;
        buffer_description = no_buffer;
        initial_usage = initial_usage;
        final_usage = final_usage;
      })
      b

unfoldable pub import_buffer :
    Outside → ℕ → Handle → ResourceUsage → ResourceUsage → Builder → Result (GraphId × Builder)
unfolding add_resource
import_buffer outside graphics buffer initial_usage final_usage b = do
  descriptor ← outside.get_buffer_descriptor graphics buffer
  add_resource outside
      (record {
        id = no_id;
        kind = buffer_kind;
        graphics = some graphics;
        image = no_handle;
        buffer = buffer;
        swapchain = 0;
        image_description = no_image;
        buffer_description = descriptor;
        initial_usage = initial_usage;
        final_usage = final_usage;
      })
      b

-- A shared pointer that is not null locks.
abbrev pub description_of : Option SwapchainTarget → Result ImageDescription
description_of none = err invalid_argument
description_of (some target) = ok target.description

unfoldable pub import_swapchain : Outside → ℕ → ResourceUsage → Builder → Result (GraphId × Builder)
unfolding add_resource
import_swapchain outside target initial_usage b = do
  description ← description_of (outside.lock target)
  add_resource outside
      (record {
        id = no_id;
        kind = swapchain_kind;
        graphics = none;
        image = no_handle;
        buffer = no_handle;
        swapchain = target;
        image_description = description;
        buffer_description = no_buffer;
        initial_usage = initial_usage;
        final_usage = present;
      })
      b

unfoldable pub add_graphics_pass : GraphicsPass → Builder → GraphId × Builder
add_graphics_pass pass b = (
  record { graph = b.identity; index = length b.passes },
  record b { passes = b.passes ++ pass ∷ [] },
)

unfoldable pub resolve_resource : Builder → GraphId → Result ℕ
resolve_resource b id = do
  require (id.graph == b.identity && ltb id.index (length b.resources))
  ok id.index

unfoldable pub resolve_pass : Builder → GraphId → Result ℕ
resolve_pass b id = do
  require (id.graph == b.identity && ltb id.index (length b.passes))
  ok id.index

unfoldable pub add_dependency : GraphId → GraphId → Builder → Result Builder
unfolding resolve_pass
add_dependency before after b = do
  first ← resolve_pass b before
  second ← resolve_pass b after
  require (not (first == second))
  ok (record b { dependencies = b.dependencies ++ record { before = before; after = after } ∷ [] })
