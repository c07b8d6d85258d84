-- ===== src/RenderGraph/Order.antt =====
-- renderer/render_graph.cpp: the second half of `Compile`, which sorts the edges and takes the passes
-- out of a priority queue, the lowest index first, while it follows which resources are initialised.
-- The queue is an ascending list.
pub mod Counts
pub mod Releases
pub mod Topological
pub mod Complete
pub mod Contents
use graphics_engine.Common.{
  ltb, ◌==◌, if◌then◌else◌, length, get_or, insert, sort_by, unique_by, Result, ok, ◌>>=◌, ◌>>◌, ℕ,
  zero, suc, ◌+◌, ◌-◌, Bool, true, false, not, ◌&&◌, ◌||◌, none, List, [], ◌∷◌, ◌++◌,
}
use graphics_engine.RenderGraph.Types.{
  AttachmentLoad, load, clear, AttachmentStore, store, ResourceUse, Attachment, GraphicsPass,
}
use graphics_engine.RenderGraph.Validation.{require, is_undefined}
use graphics_engine.RenderGraph.Builder.{Builder, resolve_resource}
use graphics_engine.RenderGraph.Hazards.{update, resource_at, attachments_of}

abbrev pub edge_eq : ℕ × ℕ → ℕ × ℕ → Bool
edge_eq (a, b) (c, d) = a == c && b == d

abbrev pub edge_less : ℕ × ℕ → ℕ × ℕ → Bool
edge_less (a, b) (c, d) = ltb a c || a == c && ltb b d

unfoldable pub sort_edges : List (ℕ × ℕ) → List (ℕ × ℕ)
sort_edges edges = unique_by edge_eq (sort_by edge_less edges)

-- `outgoing[index]`: the ends of the edges that leave a pass, in their order.
unfoldable pub outgoing : List (ℕ × ℕ) → ℕ → List ℕ
outgoing [] index = []
outgoing ((before, after) ∷ edges) index =
    let rest = outgoing edges index in if before == index then after ∷ rest else rest

-- `incoming` after the loop over the edges.
unfoldable pub incoming_of : List (ℕ × ℕ) → ℕ → ℕ
incoming_of [] index = 0
incoming_of ((before, after) ∷ edges) index =
    (if after == index then 1 else 0) + incoming_of edges index

-- The passes that no edge enters, in ascending order.
unfoldable pub initially_ready : (ℕ → ℕ) → ℕ → ℕ → List ℕ
initially_ready incoming index zero = []
initially_ready incoming index (suc left) =
    let rest = initially_ready incoming (suc index) left in
    if incoming index == 0 then index ∷ rest else rest

-- Each edge out of the pass is taken away: a pass that none enters any more is pushed.
unfoldable pub release : List ℕ → (ℕ → ℕ) × List ℕ → (ℕ → ℕ) × List ℕ
release [] s = s
release (next ∷ others) (incoming, ready) =
    let left = incoming next - 1 in
    release others (update incoming next left, if left == 0 then insert ltb next ready else ready)

abbrev pub no_pass : GraphicsPass
no_pass = record {
  reads = [];
  writes = [];
  color_attachments = [];
  depth_attachment = none;
  draw_commands = [];
}

-- What an attachment holds after the pass, from whether it held defined contents before.
abbrev pub is_defined_after : AttachmentLoad → AttachmentStore → Bool → Bool
is_defined_after clear store held = true
is_defined_after load store held = held
is_defined_after _ _ held = false

abbrev pub attachments : GraphicsPass → List Attachment
attachments pass = pass.color_attachments ++ attachments_of pass.depth_attachment

module _ (b : Builder) where
  abbrev pub Contents : Type 0
  Contents = ℕ → Bool

  unfoldable pub check_reads : Contents → List ResourceUse → Result (Unit {0})
  unfolding resolve_resource
  check_reads initialized [] = ok tt
  check_reads initialized (read ∷ reads) =
      (resolve_resource b read.resource >>= λ resource. require (initialized resource))
      >> check_reads initialized reads

  -- `initialized` is read only for an attachment that is loaded.
  abbrev pub check_load : Contents → Attachment → AttachmentLoad → Result (Unit {0})
  check_load initialized a load =
      resolve_resource b a.resource >>= λ resource. require (initialized resource)
  check_load initialized a _ = ok tt

  unfoldable pub check_loads : Contents → List Attachment → Result (Unit {0})
  unfolding resolve_resource
  check_loads initialized [] = ok tt
  check_loads initialized (a ∷ others) =
      check_load initialized a a.load >> check_loads initialized others

  unfoldable pub apply_store : Attachment → Contents → Result Contents
  unfolding resolve_resource
  apply_store a initialized = do
    resource ← resolve_resource b a.resource
    ok (update initialized resource (is_defined_after a.load a.store (initialized resource)))

  unfoldable pub apply_stores : List Attachment → Contents → Result Contents
  unfolding apply_store
  apply_stores [] initialized = ok initialized
  apply_stores (a ∷ others) initialized = apply_store a initialized >>= apply_stores others

  -- The checks of a pass against the contents before it, and the contents after it.
  unfoldable pub run_contents : GraphicsPass → Contents → Result Contents
  unfolding check_reads check_loads apply_stores
  run_contents pass initialized = do
    check_reads initialized pass.reads
    check_loads initialized (attachments pass)
    apply_stores (attachments pass) initialized

  pub record Progress : Type 0 where
    pub ready : List ℕ
    pub incoming : ℕ → ℕ
    pub initialized : Contents
    pub passes : List ℕ

  -- One round of the loop, for the pass that was taken from the queue.
  unfoldable pub take : List (ℕ × ℕ) → ℕ → List ℕ → Progress → Result Progress
  unfolding run_contents release outgoing
  take edges index rest p = do
    contents ← run_contents (get_or b.passes index no_pass) p.initialized
    ok (
        let released = release (outgoing edges index) (p.incoming, rest) in
        record {
          ready = released.1;
          incoming = released.0;
          initialized = contents;
          passes = p.passes ++ index ∷ [];
        })

  -- A unit of fuel for each round, and one to see that the queue is empty.
  unfoldable pub take_all : ℕ → List (ℕ × ℕ) → Progress → List ℕ → Result Progress
  unfolding take
  take_all zero edges p ready = ok p
  take_all (suc fuel) edges p [] = ok p
  take_all (suc fuel) edges p (index ∷ rest) =
      take edges index rest p >>= λ p. take_all fuel edges p p.ready

  abbrev pub initial_contents : Contents
  initial_contents resource = not (is_undefined (resource_at b resource).initial_usage)

  unfoldable pub start : List (ℕ × ℕ) → Progress
  unfolding incoming_of initially_ready
  start edges = record {
    ready = initially_ready (incoming_of edges) 0 (length b.passes);
    incoming = incoming_of edges;
    initialized = initial_contents;
    passes = [];
  }

  unfoldable pub require_initialized : ℕ → ℕ → Contents → Result (Unit {0})
  require_initialized resource zero initialized = ok tt
  require_initialized resource (suc left) initialized =
      require (initialized resource) >> require_initialized (suc resource) left initialized

  unfoldable pub order_passes : List (ℕ × ℕ) → Result (List ℕ)
  unfolding take_all start require_initialized
  order_passes edges = do
    p ← take_all (suc (length b.passes)) edges (start edges) (start edges).ready
    require (length p.passes == length b.passes)
    require_initialized 0 (length b.resources) p.initialized
    ok p.passes
