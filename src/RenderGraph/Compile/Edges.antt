-- ===== src/RenderGraph/Compile/Edges.antt =====
-- renderer/render_graph.cpp: the edges that `Compile` collects join passes of the graph, and sorting
-- them keeps them.
use graphics_engine.Common.{
  ltb, leb, ◌==◌, ==_iff, Bool-cases, length, any, all, sort_by, any-sort_by, any-unique_by, ok,
  >>=-eq-ok, ok-injective, ℕ, suc, ◌+◌, ◌≤◌, ◌<◌, ◌≡◌, refl, sym, subst, ◌∙◌, inl, inr, Bool, true,
  false, ◌||◌, List, [], ◌∷◌, ◌++◌, arith,
}
use graphics_engine.RenderGraph.Types.{ResourceUse, GraphicsPass, GraphDependency, Outside}
use graphics_engine.RenderGraph.Builder.{Builder, resolve_pass}
use graphics_engine.RenderGraph.Hazards.{
  Hazards, edges_to, add_writer, record_use, register_use, register_uses, validate_outputs,
  declare_pass, declare_passes,
}
use graphics_engine.RenderGraph.Hazards.Ordered.{Goes}
use graphics_engine.RenderGraph.Hazards.Declared.{register_use-record_use}
use graphics_engine.RenderGraph.Order.{edge_eq, edge_less, sort_edges}
use graphics_engine.RenderGraph.Order.Releases.{InRange, has_edge}
use graphics_engine.RenderGraph.Compile.{resolve_dependencies, no_hazards, edges_of}

pub has_edge-sort_edges :
    (a c : ℕ) (edges : List (ℕ × ℕ)) → has_edge a c (sort_edges edges) ≡ has_edge a c edges
unfolding sort_edges
has_edge-sort_edges a c edges =
    any-unique_by edge_eq (edge_eq (a, c))
      (λ (a1, c1) (a2, c2) h. ground (arith, ==_iff a1 a2, ==_iff c1 c2)) (sort_by edge_less edges)
    ∙ any-sort_by edge_less (edge_eq (a, c)) edges

abbrev out_of_range : ℕ → ℕ × ℕ → Bool
out_of_range n (before, after) = leb n before || leb n after

InRange-any : (n : ℕ) (edges : List (ℕ × ℕ)) → any (out_of_range n) edges ≡ false → InRange n edges
InRange-any n [] h = tt
InRange-any n ((before, after) ∷ edges) h =
    (ground arith, (ground arith, InRange-any n edges (ground arith)))

any-InRange : (n : ℕ) (edges : List (ℕ × ℕ)) → InRange n edges → any (out_of_range n) edges ≡ false
any-InRange n [] r = refl
any-InRange n ((before, after) ∷ edges) r = ground (arith, any-InRange n edges r.1.1)

pub InRange-sort_edges :
    (n : ℕ) (edges : List (ℕ × ℕ)) → InRange n edges → InRange n (sort_edges edges)
unfolding sort_edges
InRange-sort_edges n edges r = InRange-any n (sort_edges edges) (
    any-unique_by edge_eq (out_of_range n)
      (λ (a1, c1) (a2, c2) h. ground (arith, ==_iff a1 a2, ==_iff c1 c2)) (sort_by edge_less edges)
    ∙ (any-sort_by edge_less (out_of_range n) edges ∙ any-InRange n edges r))

pub Goes-has_edge :
    (rank : ℕ → ℕ) (edges : List (ℕ × ℕ))
    → ((a c : ℕ) → has_edge a c edges ≡ true → rank a < rank c)
    → Goes rank edges
Goes-has_edge rank [] h = tt
Goes-has_edge rank ((before, after) ∷ edges) h = (
  h before after (ground (arith, ==_iff before before, ==_iff after after)),
  Goes-has_edge rank edges (λ a c e. h a c (ground arith)),
)

InRange-append : (n : ℕ) (xs ys : List (ℕ × ℕ)) → InRange n xs → InRange n ys → InRange n (xs ++ ys)
InRange-append n [] ys r s = s
InRange-append n ((before, after) ∷ xs) ys r s = (r.0, (r.1.0, InRange-append n xs ys r.1.1 s))

abbrev all_below : ℕ → List ℕ → Bool
all_below n readers = all (λ i. ltb i n) readers

InRange-edges_to :
    (n index : ℕ) (readers : List ℕ)
    → index < n
    → all_below n readers ≡ true
    → InRange n (edges_to index readers)
InRange-edges_to n index [] l h = tt
InRange-edges_to n index (reader ∷ readers) l h =
    (ground arith, (l, InRange-edges_to n index readers l (ground arith)))

all_below-end :
    (n index : ℕ) (readers : List ℕ)
    → index < n
    → all_below n readers ≡ true
    → all_below n (readers ++ index ∷ []) ≡ true
all_below-end n index [] l h = ground arith
all_below-end n index (reader ∷ readers) l h = ground (arith, all_below-end n index readers l)

-- The passes that stand in the tables are passes of the graph.
record Sound (n : ℕ) (h : Hazards) : Type 0 where
  edges_in : InRange n h.edges
  writers_in : (r : ℕ) → h.writers r ≤ n
  readers_in : (r : ℕ) → all_below n (h.readers r) ≡ true

InRange-add_writer :
    (n writer index : ℕ) (edges : List (ℕ × ℕ))
    → index < n
    → writer ≤ n
    → InRange n edges
    → InRange n (add_writer n writer index edges)
InRange-add_writer n writer index edges l w r = elim (Bool-cases (writer == n)) [
  | inl y ↦ rw y r
  | inr other ↦
      rw other
        (InRange-append n edges ((writer, index) ∷ []) r (ground (arith, ==_iff writer n), (l, tt)))
]

record_use-Sound :
    (n index resource : ℕ) (is_writing : Bool) (h : Hazards)
    → index < n
    → Sound n h
    → Sound n (record_use n index resource is_writing h)
unfolding record_use
record_use-Sound n index resource true h l s = record {
  edges_in =
      InRange-append n _ (edges_to index (h.readers resource))
        (InRange-add_writer n (h.writers resource) index h.edges l (s.writers_in resource)
          s.edges_in)
        (InRange-edges_to n index (h.readers resource) l (s.readers_in resource));
  writers_in = λ r. ground (arith, s.writers_in r);
  readers_in = λ r. ground (arith, s.readers_in r);
}
record_use-Sound n index resource false h l s = record {
  edges_in =
      InRange-add_writer n (h.writers resource) index h.edges l (s.writers_in resource) s.edges_in;
  writers_in = s.writers_in;
  readers_in = λ r.
      ground (
        arith,
        s.readers_in r,
        all_below-end n index (h.readers resource) l (s.readers_in resource),
      );
}

module _ (outside : Outside) (b : Builder) where
  abbrev count : ℕ
  count = length b.passes

  register_uses-Sound :
      (index : ℕ) (is_writing : Bool) (us : List ResourceUse) (s t : (ℕ → Bool) × Hazards)
      → index < count
      → register_uses outside b index is_writing us s ≡ ok t
      → Sound count s.1
      → Sound count t.1
  unfolding register_uses
  register_uses-Sound index is_writing [] s t l e k =
      subst (λ t. Sound count t.1) (ok-injective e) k
  register_uses-Sound index is_writing (u ∷ us) s t l e k =
      let (m, first, more) = >>=-eq-ok (register_use outside b index is_writing u s) _ e in
      register_uses-Sound index is_writing us m t l more (
        subst (Sound count)
          (sym (register_use-record_use (λ _. 0) outside b index is_writing u s m first))
          (record_use-Sound count index u.resource.index is_writing s.1 l k))

  declare_pass-Sound :
      (index : ℕ) (pass : GraphicsPass) (h h' : Hazards)
      → index < count
      → declare_pass outside b index pass h ≡ ok h'
      → Sound count h
      → Sound count h'
  unfolding declare_pass
  declare_pass-Sound index pass h h' l e k =
      let (s, reads, more) =
        >>=-eq-ok (register_uses outside b index false pass.reads (λ _. false, h)) _ e in
      let (t, writes, last) = >>=-eq-ok (register_uses outside b index true pass.writes s) _ more in
      let (u, outputs, same) = >>=-eq-ok (validate_outputs outside b pass) _ last in
      subst (Sound count) (ok-injective same) (
        register_uses-Sound index true pass.writes s t l writes
          (register_uses-Sound index false pass.reads (λ _. false, h) s l reads k))

  declare_passes-Sound :
      (passes : List GraphicsPass) (index : ℕ) (h h' : Hazards)
      → index + length passes ≡ count
      → declare_passes outside b index passes h ≡ ok h'
      → Sound count h
      → Sound count h'
  unfolding declare_passes
  declare_passes-Sound [] index h h' n e k = subst (Sound count) (ok-injective e) k
  declare_passes-Sound (pass ∷ passes) index h h' n e k =
      let (m, first, more) = >>=-eq-ok (declare_pass outside b index pass h) _ e in
      declare_passes-Sound passes (suc index) m h' (omega arith) more
        (declare_pass-Sound index pass h m (omega arith) first k)

  resolve_dependencies-InRange :
      (ds : List GraphDependency) (edges : List (ℕ × ℕ))
      → resolve_dependencies b ds ≡ ok edges
      → InRange count edges
  unfolding resolve_dependencies resolve_pass
  resolve_dependencies-InRange [] edges e = subst (InRange count) (ok-injective e) tt
  resolve_dependencies-InRange (d ∷ ds) edges e =
      let (before, first, more) = >>=-eq-ok (resolve_pass b d.before) _ e in
      let (after, second, rest) = >>=-eq-ok (resolve_pass b d.after) _ more in
      let (others, tail, same) = >>=-eq-ok (resolve_dependencies b ds) _ rest in
      subst (InRange count) (ok-injective same) (
        ground (arith, first),
        (ground (arith, second), resolve_dependencies-InRange ds others tail),
      )

  -- The edges of a graph, as they are sorted from those that were collected.
  pub edges_of-parts :
      (edges : List (ℕ × ℕ))
      → edges_of outside b ≡ ok edges
      → (explicit : List (ℕ × ℕ)) × (h : Hazards) × (resolve_dependencies b b.dependencies
          ≡ ok explicit)
        × (declare_passes outside b 0 b.passes (no_hazards b explicit) ≡ ok h)
        × (edges ≡ sort_edges h.edges)
        × InRange count edges
  unfolding edges_of
  edges_of-parts edges e =
      let (explicit, first, more) = >>=-eq-ok (resolve_dependencies b b.dependencies) _ e in
      let (h, second, same) =
        >>=-eq-ok (declare_passes outside b 0 b.passes (no_hazards b explicit)) _ more in
      let eq = sym (ok-injective same) in
      let sound =
        declare_passes-Sound b.passes 0 (no_hazards b explicit) h (omega arith) second (record {
          edges_in = resolve_dependencies-InRange b.dependencies explicit first;
          writers_in = λ r. omega arith;
          readers_in = λ r. refl;
        }) in
      (
        explicit,
        h,
        first,
        second,
        eq,
        subst (InRange count) (sym eq) (InRange-sort_edges count h.edges sound.edges_in),
      )
