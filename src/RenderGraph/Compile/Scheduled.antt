-- ===== src/RenderGraph/Compile/Scheduled.antt =====
-- renderer/render_graph.cpp: what a graph that `Compile` returns promises about its passes.
use graphics_engine.Common.{
  ltb, ◌==◌, ==_iff, Bool-cases, length, get_or, any, ok, >>=-eq-ok, ok-injective, ℕ, ◌<◌, ◌≡◌,
  refl, sym, ap, subst, ◌∙◌, inl, inr, Bool, true, ◌&&◌, List, [], ◌∷◌, map, arith,
}
use graphics_engine.RenderGraph.Types.{GraphId, GraphDependency, Outside}
use graphics_engine.RenderGraph.Builder.{Builder, resolve_pass}
use graphics_engine.RenderGraph.Hazards.{Hazards, declare_passes}
use graphics_engine.RenderGraph.Hazards.Ordered.{Goes}
use graphics_engine.RenderGraph.Hazards.Declared.{
  has_hazard, from_edges, declare_passes-Goes, declare_passes-Ordered,
}
use graphics_engine.RenderGraph.Order.{edge_eq, sort_edges, no_pass, order_passes}
use graphics_engine.RenderGraph.Order.Counts.{one_if, occurrences, position}
use graphics_engine.RenderGraph.Order.Releases.{has_edge}
use graphics_engine.RenderGraph.Order.Topological.{IsSchedule, order_passes-IsSchedule}
use graphics_engine.RenderGraph.Compile.{
  CompiledPass, CompiledGraph, validate_resources, resolve_dependencies, compiled_edge,
  compiled_pass, empty_graph, edges_of, compile,
}
use graphics_engine.RenderGraph.Compile.Edges.{has_edge-sort_edges, Goes-has_edge, edges_of-parts}

abbrev pub has_dependency : ℕ → ℕ → List GraphDependency → Bool
has_dependency before after dependencies =
    any (λ d. d.before.index == before && d.after.index == after) dependencies

-- The indices of the compiled passes, in their order.
abbrev pub indices : List CompiledPass → List ℕ
indices [] = []
indices (p ∷ ps) = p.id.index ∷ indices ps

-- Where a compiled graph runs a pass.
abbrev pub place : CompiledGraph → ℕ → ℕ
place c pass = position pass (indices c.passes)

Goes-edge :
    (rank : ℕ → ℕ) (a c : ℕ) (edges : List (ℕ × ℕ))
    → Goes rank edges
    → has_edge a c edges ≡ true
    → rank a < rank c
Goes-edge rank a c [] g h = cc
Goes-edge rank a c ((before, after) ∷ edges) g h =
    elim (Bool-cases (edge_eq (a, c) (before, after))) [
      | inl y ↦
          let e1 : a ≡ before = (==_iff a before).0 (ground arith) in
          let e2 : c ≡ after = (==_iff c after).0 (ground arith) in
          let h1 : rank a ≡ rank before = ap rank e1 in
          let h2 : rank c ≡ rank after = ap rank e2 in omega (arith, g.0)
      | inr n ↦ Goes-edge rank a c edges g.1 (rw n at h)
    ]

has_dependency-cons :
    (x y before after : ℕ) (d : GraphDependency) (ds : List GraphDependency) (edges : List (ℕ × ℕ))
    → d.before.index ≡ before
    → d.after.index ≡ after
    → has_dependency x y ds ≡ has_edge x y edges
    → has_dependency x y (d ∷ ds) ≡ has_edge x y ((before, after) ∷ edges)
has_dependency-cons x y before after d ds edges e1 e2 h =
    ground (arith, ==_iff d.before.index x, ==_iff x before, ==_iff d.after.index y, ==_iff y after)

module _ (b : Builder) where
  indices-compiled : (order : List ℕ) → indices (map (compiled_pass b) order) ≡ order
  indices-compiled [] = refl
  indices-compiled (i ∷ order) = ap (λ l. i ∷ l) (indices-compiled order)

  has_dependency-compiled :
      (x y : ℕ) (edges : List (ℕ × ℕ))
      → has_dependency x y (map (compiled_edge b) edges) ≡ has_edge x y edges
  has_dependency-compiled x y [] = refl
  has_dependency-compiled x y ((before, after) ∷ edges) = ground (
    arith,
    has_dependency-compiled x y edges,
    ==_iff before x,
    ==_iff x before,
    ==_iff after y,
    ==_iff y after,
  )

  resolve_pass-index : (id : GraphId) (i : ℕ) → resolve_pass b id ≡ ok i → id.index ≡ i
  unfolding resolve_pass
  resolve_pass-index id i e = ground arith

  has_dependency-resolved :
      (x y : ℕ) (ds : List GraphDependency) (edges : List (ℕ × ℕ))
      → resolve_dependencies b ds ≡ ok edges
      → has_dependency x y ds ≡ has_edge x y edges
  unfolding resolve_dependencies
  has_dependency-resolved x y [] edges e = ap (has_edge x y) (ok-injective e)
  has_dependency-resolved x y (d ∷ ds) edges e =
      let (before, first, more) = >>=-eq-ok (resolve_pass b d.before) _ e in
      let (after, second, rest) = >>=-eq-ok (resolve_pass b d.after) _ more in
      let (others, tail, same) = >>=-eq-ok (resolve_dependencies b ds) _ rest in
      let made = ok-injective same in
      subst (λ l. has_dependency x y (d ∷ ds) ≡ has_edge x y l) made
        (has_dependency-cons x y before after d ds others (resolve_pass-index d.before before first)
          (resolve_pass-index d.after after second) (has_dependency-resolved x y ds others tail))

  record Parts (outside : Outside) (c : CompiledGraph) : Type 0 where
    edges : List (ℕ × ℕ)
    explicit : List (ℕ × ℕ)
    h : Hazards
    order : List ℕ
    resolved : resolve_dependencies b b.dependencies ≡ ok explicit
    declared : declare_passes outside b 0 b.passes (from_edges b explicit) ≡ ok h
    sorted : edges ≡ sort_edges h.edges
    found_order : IsSchedule b edges order
    passes_are : c.passes ≡ map (compiled_pass b) order
    dependencies_are : c.dependencies ≡ map (compiled_edge b) edges

  compile-Parts :
      (outside : Outside) (c : CompiledGraph) → compile outside b ≡ ok c → Parts outside c
  unfolding compile
  compile-Parts outside c e =
      let (u, valid, more) = >>=-eq-ok (validate_resources outside (empty_graph b) b.frame) _ e in
      let (edges, found, rest) = >>=-eq-ok (edges_of outside b) _ more in
      let (order, ordered, same) = >>=-eq-ok (order_passes b edges) _ rest in
      let (explicit, h, first, second, eq, range) = edges_of-parts outside b edges found in
      let made = ok-injective same in
      record {
        edges = edges;
        explicit = explicit;
        h = h;
        order = order;
        resolved = first;
        declared = second;
        sorted = eq;
        found_order = order_passes-IsSchedule b edges range order ordered;
        passes_are = sym (ap (λ c. c.passes) made);
        dependencies_are = sym (ap (λ c. c.dependencies) made);
      }

  module _ (outside : Outside) (c : CompiledGraph) (parts : Parts outside c) where
    order-indices : indices c.passes ≡ parts.order
    order-indices = ap indices parts.passes_are ∙ indices-compiled parts.order

    edge-place : (x y : ℕ) → has_edge x y parts.edges ≡ true → place c x < place c y
    edge-place x y e =
        subst (λ l. position x l < position y l) (sym order-indices)
          (parts.found_order.respects x y e)

    hazards-Goes : Goes (place c) parts.h.edges
    hazards-Goes = Goes-has_edge (place c) parts.h.edges λ x y e. edge-place x y (
        subst (λ l. has_edge x y l ≡ true) (sym parts.sorted)
          (has_edge-sort_edges x y parts.h.edges ∙ e))

-- What a compiled graph promises about the order of its passes.
pub record IsScheduled (b : Builder) (c : CompiledGraph) : Type 0 where
  pub each_once : (j : ℕ) → occurrences j (indices c.passes) ≡ one_if (ltb j (length b.passes))
  pub as_declared : c.passes ≡ map (compiled_pass b) (indices c.passes)
  pub explicit_in_order :
      (x y : ℕ) → has_dependency x y b.dependencies ≡ true → place c x < place c y
  pub reported_in_order :
      (x y : ℕ) → has_dependency x y c.dependencies ≡ true → place c x < place c y

-- A graph that compiles runs every declared pass exactly once and as it was declared, and runs it
-- after every pass that it depends on, by an explicit dependency of the builder or by one of those
-- that the compiled graph reports.
pub compile-IsScheduled :
    (outside : Outside) (b : Builder) (c : CompiledGraph)
    → compile outside b ≡ ok c
    → IsScheduled b c
compile-IsScheduled outside b c e =
    let parts = compile-Parts b outside c e in
    let same = order-indices b outside c parts in
    record {
      each_once = λ j. ap (occurrences j) same ∙ parts.found_order.once j;
      as_declared = parts.passes_are ∙ ap (map (compiled_pass b)) (sym same);
      explicit_in_order = λ x y d.
          Goes-edge (place c) x y parts.explicit
            (declare_passes-Goes (place c) outside b parts.explicit parts.h parts.declared
              (hazards-Goes b outside c parts))
            (sym (has_dependency-resolved b x y b.dependencies parts.explicit parts.resolved) ∙ d);
      reported_in_order = λ x y d. edge-place b outside c parts x y (
          sym (has_dependency-compiled b x y parts.edges)
          ∙ (ap (has_dependency x y) (sym parts.dependencies_are) ∙ d));
    }

-- In a graph that compiles, of two passes one of which writes a resource that the other reads or
-- writes, the one that was declared first runs first.
pub compile-orders_hazards :
    (outside : Outside) (b : Builder) (c : CompiledGraph)
    → compile outside b ≡ ok c
    → (r i j : ℕ) → i < j
    → j < length b.passes
    → has_hazard r (get_or b.passes i no_pass) (get_or b.passes j no_pass) ≡ true
    → place c i < place c j
compile-orders_hazards outside b c e =
    let parts = compile-Parts b outside c e in
    declare_passes-Ordered (place c) outside b parts.explicit parts.h no_pass parts.declared
      (hazards-Goes b outside c parts)
