-- ===== src/RenderGraph/Order/Topological.antt =====
-- renderer/render_graph.cpp: the loop of `Compile` takes the passes in an order of their edges, and
-- takes all of them if and only if there is such an order.
use graphics_engine.Common.{
  ltb, leb, ◌==◌, ==_iff, Bool-cases, length, get_or, length-append, elem, invalid_argument, ok,
  throw_if, >>=-eq-ok, ok-injective, ℕ, zero, suc, ◌+◌, ◌≤◌, ◌<◌, ◌≡◌, refl, sym, subst, ◌∙◌, inl,
  inr, true, false, not, ◌&&◌, List, [], ◌∷◌, ◌++◌, arith,
}
use graphics_engine.RenderGraph.Builder.{Builder}
use graphics_engine.RenderGraph.Order.{
  outgoing, incoming_of, initially_ready, release, no_pass, run_contents, Progress, take, take_all,
  start, require_initialized, order_passes,
}
use graphics_engine.RenderGraph.Order.Counts.{
  one_if, occurrences, position, occurrences-append, elem-occurrences, position-append, position-lt,
  elem-of_position, total-occurrences, total-le, total-full, total-ones,
}
use graphics_engine.RenderGraph.Order.Releases.{
  InRange, has_edge, pending, pending-start, elem-snoc, pending-snoc, pending-zero, pending-witness,
  outgoing-InRange, has_edge-InRange, release-incoming, release-ready,
}

-- The loop with `n` passes, `taken` so far.
pub record Inv (n : ℕ) (edges : List (ℕ × ℕ)) (ready : List ℕ) (incoming : ℕ → ℕ) (taken : List ℕ)
    : Type 0 where
  pub counted : (j : ℕ) → incoming j ≡ pending edges taken j
  pub placed :
      (j : ℕ) → occurrences j taken + occurrences j ready ≡ one_if (ltb j n && incoming j == 0)
  pub ordered :
      (a c : ℕ)
      → has_edge a c edges ≡ true
      → elem c taken ≡ true
      → position a taken < position c taken

module _ (n : ℕ) (edges : List (ℕ × ℕ)) (range : InRange n edges) where
  module _ (x : ℕ) (rest : List ℕ) (incoming : ℕ → ℕ) (taken : List ℕ)
      (inv : Inv n edges (x ∷ rest) incoming taken) where
    abbrev outs : List ℕ
    outs = outgoing edges x

    abbrev released : (ℕ → ℕ) × List ℕ
    released = release outs (incoming, rest)

    fresh : elem x taken ≡ false
    fresh = ground (arith, inv.placed x, elem-occurrences x taken, ==_iff x x)

    no_more_incoming : incoming x ≡ 0
    no_more_incoming = ground (arith, inv.placed x, ==_iff x x)

    enough : (j : ℕ) → occurrences j outs ≤ incoming j
    enough j = omega (arith, inv.counted j, pending-snoc edges taken x j fresh)

    step-counted : (j : ℕ) → released.0 j ≡ pending edges (taken ++ x ∷ []) j
    step-counted j = omega (
      arith,
      inv.counted j,
      pending-snoc edges taken x j fresh,
      release-incoming outs incoming rest j,
    )

    step-placed :
        (j : ℕ)
        → occurrences j (taken ++ x ∷ []) + occurrences j released.1
          ≡ one_if (ltb j n && released.0 j == 0)
    step-placed j = ground (
      arith,
      inv.placed j,
      enough j,
      release-ready outs incoming rest j enough,
      release-incoming outs incoming rest j,
      occurrences-append j taken (x ∷ []),
      outgoing-InRange n edges x j range,
    )

    step-ordered :
        (a c : ℕ)
        → has_edge a c edges ≡ true
        → elem c (taken ++ x ∷ []) ≡ true
        → position a (taken ++ x ∷ []) < position c (taken ++ x ∷ [])
    step-ordered a c e m = elim (Bool-cases (elem c taken)) [
      | inl y ↦
          let old = inv.ordered a c e y in
          ground (
            arith,
            old,
            elem-of_position a c taken,
            position-append a taken (x ∷ []),
            position-append c taken (x ∷ []),
          )
      | inr no_c ↦
          let same : x ≡ c = (==_iff x c).0 (ground (arith, elem-snoc c x taken)) in
          let done : elem a taken ≡ true =
            pending-zero edges taken a c e
              (sym (inv.counted c) ∙ subst (λ k. incoming k ≡ 0) same no_more_incoming) in
          ground (
            arith,
            position-lt a taken done,
            position-append a taken (x ∷ []),
            position-append c taken (x ∷ []),
          )
    ]

    step-Inv : Inv n edges released.1 released.0 (taken ++ x ∷ [])
    step-Inv = record { counted = step-counted; placed = step-placed; ordered = step-ordered }

  pub Inv-length :
      {ready : List ℕ} {incoming : ℕ → ℕ} (taken : List ℕ)
      → Inv n edges ready incoming taken
      → length (taken ++ ready) ≤ n
  Inv-length {ready} {incoming} taken inv =
      let all_at = λ (j : ℕ). occurrences-append j taken ready in
      let most =
        total-le n (λ j. occurrences j (taken ++ ready))
          (λ j l. ground (arith, all_at j, inv.placed j)) in
      let sum =
        total-occurrences n (taken ++ ready) (λ j l. ground (arith, all_at j, inv.placed j)) in
      omega arith

module _ (b : Builder) (edges : List (ℕ × ℕ)) where
  abbrev pub Good : Progress b → Type 0
  Good p = Inv (length b.passes) edges p.ready p.incoming p.passes

  start-ready :
      (incoming : ℕ → ℕ) (j index left : ℕ)
      → occurrences j (initially_ready incoming index left)
        ≡ one_if (leb index j && (ltb j (index + left) && incoming j == 0))
  unfolding initially_ready
  start-ready incoming j index zero = ground arith
  start-ready incoming j index (suc left) =
      let same : index ≡ j → incoming index ≡ incoming j = λ e. rw e in
      ground (arith, start-ready incoming j (suc index) left, ==_iff index j, same)

  pub start-Good : Good (start b edges)
  unfolding start
  start-Good = record {
    counted = pending-start edges;
    placed = λ j. ground (arith, start-ready (incoming_of edges) j 0 (length b.passes));
    ordered = λ a c e m. cc;
  }

  module _ (range : InRange (length b.passes) edges) where
    pub take-Good :
        (index : ℕ) (rest : List ℕ) (p q : Progress b)
        → p.ready ≡ index ∷ rest
        → Good p
        → take b edges index rest p ≡ ok q
        → Good q × (length q.passes ≡ suc (length p.passes))
    unfolding take
    take-Good index rest p q e g h =
        let (contents, r, made) =
          >>=-eq-ok (run_contents b (get_or b.passes index (no_pass)) p.initialized) _ h in
        let inv : Inv (length b.passes) edges (index ∷ rest) p.incoming p.passes =
          subst (λ l. Inv (length b.passes) edges l p.incoming p.passes) e g in
        subst (λ q. Good q × (length q.passes ≡ suc (length p.passes))) (ok-injective made)
          (
            step-Inv (length b.passes) edges range index rest p.incoming p.passes inv,
            omega (arith, length-append p.passes (index ∷ [])),
          )

    -- The loop ends by its test.
    pub take_all-Good :
        (fuel : ℕ) (p q : Progress b) (ready : List ℕ)
        → p.ready ≡ ready
        → length b.passes < fuel + length p.passes
        → Good p
        → take_all b fuel edges p ready ≡ ok q
        → Good q × (q.ready ≡ [])
    unfolding take_all
    take_all-Good zero p q ready e l g h = absurd (
        omega (
          arith,
          Inv-length (length b.passes) edges range p.passes g,
          length-append p.passes p.ready,
        ))
    take_all-Good (suc fuel) p q [] e l g h =
        subst (λ q. Good q × (q.ready ≡ [])) (ok-injective h) (g, e)
    take_all-Good (suc fuel) p q (index ∷ rest) e l g h =
        let (p', s, more) = >>=-eq-ok (take b edges index rest p) _ h in
        let (g', grown) = take-Good index rest p p' e g s in
        take_all-Good fuel p' q p'.ready refl (omega arith) g' more

    -- Without a cycle, no pass is left when the queue is empty.
    module _ (rank : ℕ → ℕ) (ranked : (a c : ℕ) → has_edge a c edges ≡ true → rank a < rank c) where
      descend :
          (p : Progress b)
          → Good p
          → p.ready ≡ []
          → (k j : ℕ) → rank j < k
          → j < length b.passes
          → elem j p.passes ≡ true
      descend p g e zero j r l = absurd (omega arith)
      descend p g e (suc k) j r l =
          let none_ready : occurrences j p.ready ≡ 0 = rw e in
          elim (Bool-cases (p.incoming j == 0)) [
            | inl y ↦ ground (arith, g.placed j, elem-occurrences j p.passes)
            | inr n ↦
                let (a, edge, absent) =
                  pending-witness edges p.passes j (ground (arith, g.counted j)) in
                let (a_in, j_in) = has_edge-InRange (length b.passes) edges a j range edge in
                let there = descend p g e k a (omega (arith, ranked a j edge)) a_in in cc
          ]

      pub all_taken : (p : Progress b) → Good p → p.ready ≡ [] → length p.passes ≡ length b.passes
      all_taken p g e =
          let sum =
            total-occurrences (length b.passes) p.passes (λ j l. ground (arith, g.placed j)) in
          let ones =
            total-ones (length b.passes) (λ j. occurrences j p.passes)
              (λ j l.
                let there = descend p g e (suc (rank j)) j (omega arith) l in
                ground (arith, g.placed j, elem-occurrences j p.passes)) in
          omega arith

  -- The order of the passes, when it was found.
  pub record IsSchedule (order : List ℕ) : Type 0 where
    pub once : (j : ℕ) → occurrences j order ≡ one_if (ltb j (length b.passes))
    pub respects :
        (before after : ℕ)
        → has_edge before after edges ≡ true
        → position before order < position after order

  module _ (range : InRange (length b.passes) edges) where
    Good-IsSchedule :
        (p : Progress b)
        → Good p
        → p.ready ≡ []
        → length p.passes ≡ length b.passes
        → IsSchedule p.passes
    Good-IsSchedule p g e full =
        let most : (j : ℕ) → occurrences j p.passes ≤ one_if (ltb j (length b.passes)) =
          λ j. ground (arith, g.placed j) in
        let sum = total-occurrences (length b.passes) p.passes (λ j l. ground (arith, most j)) in
        let each =
          total-full (length b.passes) (λ j. occurrences j p.passes) (λ j l. ground (arith, most j))
            (omega arith) in
        record {
          once = λ j. ground (arith, most j, each j);
          respects = λ a c edge.
              let (a_in, c_in) = has_edge-InRange (length b.passes) edges a c range edge in
              g.ordered a c edge (ground (arith, elem-occurrences c p.passes, each c c_in));
        }

    -- An order that is returned has every pass once, and respects every edge.
    pub order_passes-IsSchedule :
        (order : List ℕ) → order_passes b edges ≡ ok order → IsSchedule order
    unfolding order_passes
    order_passes-IsSchedule order h =
        let (p, taken, rest) =
          >>=-eq-ok (take_all b (suc (length b.passes)) edges (start b edges) (start b edges).ready)
            _ h in
        let (g, e) =
          take_all-Good range (suc (length b.passes)) (start b edges) p (start b edges).ready refl
            (omega arith) start-Good taken in
        let full : length p.passes ≡ length b.passes =
          ground (arith, rest, ==_iff (length p.passes) (length b.passes)) in
        let (t1, t2, rest2) =
          >>=-eq-ok (throw_if (not (length p.passes == length b.passes)) invalid_argument) _ rest in
        let (u1, u2, rest3) =
          >>=-eq-ok (require_initialized b 0 (length b.resources) p.initialized) _ rest2 in
        subst IsSchedule (ok-injective rest3) (Good-IsSchedule p g e full)
