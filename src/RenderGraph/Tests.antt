-- ===== src/RenderGraph/Tests.antt =====
-- Tests of the render graph, and the theorems at a graph of two passes: the first clears and stores
-- an image, and the second samples it.
use graphics_engine.Common.{
  insert, sort_by, unique_after, unique_by, invalid_argument, not_found, err, ok, ℕ, ◌<◌, ◌≡◌, refl,
  true, none, some, List, [], ◌∷◌, arith,
}
use graphics_engine.RenderGraph.Types.{
  PixelFormat, ImageFormat, x1, ResourceUsage, color_attachment_write, sampled_read, clear, store,
  image_kind, Handle, GraphId, GraphicsPass, ImportedResource, FrameIdentity, Outside,
}
use graphics_engine.RenderGraph.Builder.{Builder, no_handle, no_buffer, import_image}
use graphics_engine.RenderGraph.Order.{order_passes}
use graphics_engine.RenderGraph.Order.Complete.{order_passes_complete}
use graphics_engine.RenderGraph.Order.Contents.{RunsDefined, order_passes-RunsDefined}
use graphics_engine.RenderGraph.Compile.{CompiledGraph, compile}
use graphics_engine.RenderGraph.Compile.Scheduled.{
  place, IsScheduled, compile-IsScheduled, compile-orders_hazards,
}

abbrev image_0 : Handle
image_0 = record { owner_id = 1; value = 1; generation = 1 }

abbrev outside : Outside
outside = record {
  get_image_descriptor = λ graphics image. ok (record {
    extent = record { width = 4; height = 4; depth = 1 };
    mip_levels = 1;
    array_layers = 1;
    format = ImageFormat.rgba8_unorm;
    usage = 12;
    access = 3;
  });
  get_buffer_descriptor = λ graphics buffer. err not_found;
  lock = λ target. none;
}

abbrev frame : FrameIdentity
frame = record {
  application_frame_index = 0;
  simulation_index = 0;
  frame_slot_index = 0;
  generation = 1;
}

abbrev id_0 : GraphId
id_0 = record { graph = 7; index = 0 }

abbrev resource_0 : ImportedResource
resource_0 = record {
  id = id_0;
  kind = image_kind;
  graphics = some 1;
  image = image_0;
  buffer = no_handle;
  swapchain = 0;
  image_description = record {
    extent = record { width = 4; height = 4; depth = 1 };
    format = PixelFormat.rgba8_unorm;
    samples = x1;
    usage = 12;
  };
  buffer_description = no_buffer;
  initial_usage = ResourceUsage.undefined;
  final_usage = sampled_read;
}

abbrev empty_builder : Builder
empty_builder = record {
  frame = frame;
  identity = 7;
  resources = [];
  passes = [];
  dependencies = [];
}

import_image_adds :
    import_image outside 1 image_0 ResourceUsage.undefined sampled_read empty_builder
    ≡ ok (id_0, record empty_builder { resources = resource_0 ∷ [] })
unfolding import_image
import_image_adds = refl

abbrev clears : GraphicsPass
clears = record {
  reads = [];
  writes = record { resource = id_0; usage = color_attachment_write } ∷ [];
  color_attachments =
      record {
        resource = id_0;
        load = clear;
        store = store;
        has_valid_clear = true;
        clear_stencil = 0;
      }
      ∷ [];
  depth_attachment = none;
  draw_commands = 1 ∷ [];
}

abbrev samples_it : GraphicsPass
samples_it = record {
  reads = record { resource = id_0; usage = sampled_read } ∷ [];
  writes = [];
  color_attachments = [];
  depth_attachment = none;
  draw_commands = [];
}

abbrev two_passes : Builder
two_passes = record empty_builder { resources = resource_0 ∷ []; passes = clears ∷ samples_it ∷ [] }

abbrev compiled : CompiledGraph
compiled = record {
  frame = frame;
  resources = resource_0 ∷ [];
  passes =
      record { id = record { graph = 7; index = 0 }; description = clears }
      ∷ record { id = record { graph = 7; index = 1 }; description = samples_it }
      ∷ [];
  dependencies =
      record { before = record { graph = 7; index = 0 }; after = record { graph = 7; index = 1 } }
      ∷ [];
}

compiles : compile outside two_passes ≡ ok compiled
unfolding compile sort_by unique_by insert unique_after
compiles = refl

compile-IsScheduled_example : IsScheduled two_passes compiled
compile-IsScheduled_example = compile-IsScheduled outside two_passes compiled compiles

compile-orders_hazards_example : place compiled 0 < place compiled 1
compile-orders_hazards_example =
    compile-orders_hazards outside two_passes compiled compiles 0 0 1 (omega arith) (omega arith)
      refl

abbrev defined_image : ImportedResource
defined_image = record resource_0 { initial_usage = sampled_read }

abbrev defined_passes : Builder
defined_passes = record two_passes { resources = defined_image ∷ [] }

order_passes_complete_example :
    (order : List ℕ) × (order_passes defined_passes ((0, 1) ∷ []) ≡ ok order)
order_passes_complete_example =
    order_passes_complete defined_passes ((0, 1) ∷ []) (omega arith) refl (λ n. n)
      (λ a c e. ground (arith, e))

orders : order_passes two_passes ((0, 1) ∷ []) ≡ ok (0 ∷ 1 ∷ [])
unfolding order_passes insert
orders = refl

-- The order without the edge is refused: the second pass would read before the first one wrote.
reads_first :
    order_passes (record two_passes { passes = samples_it ∷ clears ∷ [] }) [] ≡ err invalid_argument
unfolding order_passes insert
reads_first = refl

cycle : order_passes defined_passes ((0, 1) ∷ (1, 0) ∷ []) ≡ err invalid_argument
unfolding order_passes insert
cycle = refl

order_passes-RunsDefined_example : RunsDefined two_passes [] (0 ∷ 1 ∷ [])
order_passes-RunsDefined_example =
    order_passes-RunsDefined two_passes ((0, 1) ∷ []) (0 ∷ 1 ∷ []) orders
