-- ===== src/RenderGraph/Compile.antt =====
-- renderer/render_graph.cpp: `CompiledGraph`, and `Compile` as the composition of its parts.
pub mod Edges
pub mod Scheduled
use graphics_engine.Common.{
  ltb, length, get_or, Result, ok, ◌>>=◌, ◌>>◌, ℕ, ◌&&◌, List, [], ◌∷◌, map,
}
use graphics_engine.RenderGraph.Types.{
  GraphId, graph_id_eq, GraphicsPass, ImportedResource, GraphDependency, FrameIdentity, frame_eq,
  Outside,
}
use graphics_engine.RenderGraph.Validation.{require, validate_import}
use graphics_engine.RenderGraph.Builder.{Builder, resolve_pass}
use graphics_engine.RenderGraph.Hazards.{Hazards, unknown_resource, declare_passes}
use graphics_engine.RenderGraph.Order.{sort_edges, no_pass, order_passes}

pub record CompiledPass : Type 0 where
  pub id : GraphId
  pub description : GraphicsPass

pub record CompiledGraph : Type 0 where
  pub frame : FrameIdentity
  pub resources : List ImportedResource
  pub passes : List CompiledPass
  pub dependencies : List GraphDependency

unfoldable pub validate_all : Outside → List ImportedResource → Result (Unit {0})
unfolding validate_import
validate_all outside [] = ok tt
validate_all outside (r ∷ rs) = validate_import outside r >> validate_all outside rs

unfoldable pub validate_resources : Outside → CompiledGraph → FrameIdentity → Result (Unit {0})
unfolding validate_all
validate_resources outside c frame = do
  require (frame_eq frame c.frame)
  validate_all outside c.resources

unfoldable pub get_resource : CompiledGraph → GraphId → Result ImportedResource
get_resource c id = do
  require (
      ltb id.index (length c.resources)
      && graph_id_eq (get_or c.resources id.index unknown_resource).id id)
  ok (get_or c.resources id.index unknown_resource)

module _ (b : Builder) where
  unfoldable pub resolve_dependencies : List GraphDependency → Result (List (ℕ × ℕ))
  unfolding resolve_pass
  resolve_dependencies [] = ok []
  resolve_dependencies (d ∷ ds) = do
    before ← resolve_pass b d.before
    after ← resolve_pass b d.after
    rest ← resolve_dependencies ds
    ok ((before, after) ∷ rest)

  abbrev pub pass_id : ℕ → GraphId
  pass_id index = record { graph = b.identity; index = index }

  abbrev pub compiled_edge : ℕ × ℕ → GraphDependency
  compiled_edge (before, after) = record { before = pass_id before; after = pass_id after }

  abbrev pub compiled_pass : ℕ → CompiledPass
  compiled_pass index = record { id = pass_id index; description = get_or b.passes index no_pass }

  abbrev pub no_hazards : List (ℕ × ℕ) → Hazards
  no_hazards edges = record { writers = λ _. length b.passes; readers = λ _. []; edges = edges }

  abbrev pub empty_graph : CompiledGraph
  empty_graph = record { frame = b.frame; resources = b.resources; passes = []; dependencies = [] }

-- The edges of the graph, sorted: the explicit dependencies and the hazards.
unfoldable pub edges_of : Outside → Builder → Result (List (ℕ × ℕ))
unfolding resolve_dependencies declare_passes sort_edges
edges_of outside b = do
  explicit ← resolve_dependencies b b.dependencies
  h ← declare_passes outside b 0 b.passes (no_hazards b explicit)
  ok (sort_edges h.edges)

unfoldable pub compile : Outside → Builder → Result CompiledGraph
unfolding validate_resources edges_of order_passes
compile outside b = do
  validate_resources outside (empty_graph b) b.frame
  edges ← edges_of outside b
  order ← order_passes b edges
  ok (record {
    frame = b.frame;
    resources = b.resources;
    passes = map (compiled_pass b) order;
    dependencies = map (compiled_edge b) edges;
  })
