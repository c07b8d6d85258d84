-- ===== src/RenderGraph/Hazards/Ordered.antt =====
-- renderer/render_graph.cpp: whatever order respects the edges of a graph puts two passes with a
-- hazard on one resource in the order of their declaration.
use graphics_engine.Common.{
  ◌==◌, if◌then◌else◌, ==_iff, Bool-cases, any, elem, ℕ, suc, ◌≤◌, ◌<◌, ◌≡◌, subst, ◌≢◌, ◌⊎◌, inl,
  inr, Bool, true, false, not, ◌&&◌, ◌||◌, List, [], ◌∷◌, ◌++◌, arith,
}
use graphics_engine.RenderGraph.Types.{ResourceUse}
use graphics_engine.RenderGraph.Types.{ResourceUse}
use graphics_engine.RenderGraph.Hazards.{Hazards, edges_to, add_writer, record_use}

-- Does a pass name the resource among these uses?
abbrev pub mentions : ℕ → List ResourceUse → Bool
mentions r uses = any (λ u. u.resource.index == r) uses

-- Every edge goes up.
abbrev pub Goes : (ℕ → ℕ) → List (ℕ × ℕ) → Type 0
Goes rank [] = Unit {0}
Goes rank ((before, after) ∷ edges) = (rank before < rank after) × Goes rank edges

pub Goes-append :
    (rank : ℕ → ℕ) (xs ys : List (ℕ × ℕ)) → Goes rank (xs ++ ys) → Goes rank xs × Goes rank ys
Goes-append rank [] ys g = (tt, g)
Goes-append rank ((before, after) ∷ xs) ys g =
    let (l, r) = Goes-append rank xs ys g.1 in ((g.0, l), r)

Goes-edges_to :
    (rank : ℕ → ℕ) (index i : ℕ) (readers : List ℕ)
    → Goes rank (edges_to index readers)
    → elem i readers ≡ true
    → rank i < rank index
Goes-edges_to rank index i [] g h = cc
Goes-edges_to rank index i (reader ∷ readers) g h = elim (Bool-cases (reader == i)) [
  | inl y ↦
      let same : reader ≡ i = (==_iff reader i).0 y in subst (λ k. rank k < rank index) same g.0
  | inr n ↦ Goes-edges_to rank index i readers g.1 (rw n at h)
]

elem-end : (a x : ℕ) (xs : List ℕ) → elem a (xs ++ x ∷ []) ≡ (elem a xs || x == a)
elem-end a x [] = ground arith
elem-end a x (y ∷ ys) = ground (arith, elem-end a x ys)

-- What is known of a resource while passes up to `last` are declared: `wrote` and `read` tell which
-- of them used it. The last writer stands behind all that used the resource before it, but for those
-- that are still listed as readers, and every hazard is in order.
pub record Known (last none_yet : ℕ) (rank : ℕ → ℕ) (wrote read : ℕ → Bool) (writer : ℕ)
    (readers : List ℕ) : Type 0 where
  pub writers_first : (i : ℕ) → wrote i ≡ true → (writer ≢ none_yet) × (rank i ≤ rank writer)
  pub readers_kept :
      (i : ℕ)
      → read i ≡ true
      → (elem i readers ≡ true) ⊎ ((writer ≢ none_yet) × (rank i ≤ rank writer))
  pub seen : (i : ℕ) → (wrote i || read i) ≡ true → i ≤ last
  pub hazards :
      (i j : ℕ)
      → i < j
      → (wrote i && (wrote j || read j) || read i && wrote j) ≡ true
      → rank i < rank j

abbrev pub mark : ℕ → (ℕ → Bool) → ℕ → Bool
mark index used i = index == i || used i

module _ (index none_yet : ℕ) (rank : ℕ → ℕ) (wrote read : ℕ → Bool) (writer : ℕ) (readers : List ℕ)
    (known : Known index none_yet rank wrote read writer readers)
    (behind : writer ≢ none_yet → rank writer < rank index) where
  behind_wrote : (i : ℕ) → wrote i ≡ true → rank i < rank index
  behind_wrote i h =
      let (some_writer, le) = known.writers_first i h in omega (arith, behind some_writer)

  Known-read : Known index none_yet rank wrote (mark index read) writer (readers ++ index ∷ [])
  Known-read = record {
    writers_first = known.writers_first;
    readers_kept = λ i h. elim (Bool-cases (index == i)) [
      | inl y ↦ inl (ground (arith, elem-end i index readers))
      | inr n ↦ elim (known.readers_kept i (rw n at h)) [
        | inl kept ↦ inl (ground (arith, elem-end i index readers))
        | inr over ↦ inr over
      ]
    ];
    seen = λ i h. ground (arith, known.seen i);
    hazards = λ i j l h.
        let same : index ≡ j → rank index ≡ rank j = λ e. rw e in
        ground (arith, known.hazards i j l, known.seen j, behind_wrote i, same, ==_iff index j);
  }

  module _ (in_range : index ≢ none_yet)
      (cleared : (i : ℕ) → elem i readers ≡ true → rank i < rank index) where
    behind_read : (i : ℕ) → read i ≡ true → rank i < rank index
    behind_read i h = elim (known.readers_kept i h) [
      | inl kept ↦ cleared i kept
      | inr (some_writer, le) ↦ omega (arith, behind some_writer)
    ]

    Known-write : Known index none_yet rank (mark index wrote) read index []
    Known-write = record {
      writers_first = λ i h. (
        in_range,
        let same : index ≡ i → rank index ≡ rank i = λ e. rw e in
            ground (arith, behind_wrote i, same, ==_iff index i),
      );
      readers_kept = λ i h. inr (in_range, omega (arith, behind_read i h));
      seen = λ i h. ground (arith, known.seen i);
      hazards = λ i j l h.
          let same : index ≡ j → rank index ≡ rank j = λ e. rw e in
          ground (
            arith,
            known.hazards i j l,
            known.seen j,
            behind_wrote i,
            behind_read i,
            same,
            ==_iff index j,
          );
    }

abbrev pub mark_at : Bool → ℕ → ℕ → (ℕ → ℕ → Bool) → ℕ → ℕ → Bool
mark_at true resource index used r = if resource == r then mark index (used r) else used r
mark_at false resource index used r = used r

-- What is marked after some uses: all that was, and the uses.
abbrev pub mark_uses : Bool → ℕ → List ResourceUse → (ℕ → ℕ → Bool) → ℕ → ℕ → Bool
mark_uses applies index [] used = used
mark_uses applies index (u ∷ us) used =
    mark_uses applies index us (mark_at applies u.resource.index index used)

module _ (none_yet : ℕ) (rank : ℕ → ℕ) where
  abbrev pub State : ℕ → (ℕ → ℕ → Bool) → (ℕ → ℕ → Bool) → Hazards → Type 0
  State last wrote read h =
      (r : ℕ) → Known last none_yet rank (wrote r) (read r) (h.writers r) (h.readers r)

  Goes-add_writer :
      (writer index : ℕ) (edges : List (ℕ × ℕ))
      → Goes rank (add_writer none_yet writer index edges)
      → Goes rank edges × (writer ≢ none_yet → rank writer < rank index)
  Goes-add_writer writer index edges g = elim (Bool-cases (writer == none_yet)) [
    | inl y ↦ (rw y at g, λ e. absurd (e ((==_iff writer none_yet).0 y)))
    | inr n ↦
        let (old, new) = Goes-append rank edges ((writer, index) ∷ []) (rw n at g) in
        (old, λ e. new.0)
  ]

  pub Goes-record_use :
      (resource index : ℕ) (is_writing : Bool) (h : Hazards)
      → Goes rank (record_use none_yet index resource is_writing h).edges
      → Goes rank h.edges
  unfolding record_use
  Goes-record_use resource index true h g =
      (Goes-add_writer (h.writers resource) index h.edges
        (Goes-append rank (add_writer none_yet (h.writers resource) index h.edges)
          (edges_to index (h.readers resource)) g).0).0
  Goes-record_use resource index false h g =
      (Goes-add_writer (h.writers resource) index h.edges g).0

  module _ (wrote read : ℕ → ℕ → Bool) (resource index : ℕ) (h : Hazards)
      (in_range : index ≢ none_yet) (s : State index wrote read h) where
    pub State-record_use :
        (is_writing : Bool)
        → Goes rank (record_use none_yet index resource is_writing h).edges
        → State index
            (mark_at is_writing resource index wrote)
            (mark_at (not is_writing) resource index read)
            (record_use none_yet index resource is_writing h)
    unfolding record_use
    State-record_use true g r =
        let (edges, cleared) =
          Goes-append rank (add_writer none_yet (h.writers resource) index h.edges)
            (edges_to index (h.readers resource)) g in
        let (old, behind) = Goes-add_writer (h.writers resource) index h.edges edges in
        elim (Bool-cases (resource == r)) [
          | inl y ↦
              let same : resource ≡ r = (==_iff resource r).0 y in
              rw y (
                Known-write index none_yet rank (wrote r) (read r) (h.writers r) (h.readers r) (s r)
                  (subst (λ k. h.writers k ≢ none_yet → rank (h.writers k) < rank index) same
                    behind)
                  in_range
                  (λ i e.
                    Goes-edges_to rank index i (h.readers r)
                      (subst (λ k. Goes rank (edges_to index (h.readers k))) same cleared) e))
          | inr n ↦ rw n (s r)
        ]
    State-record_use false g r =
        let (old, behind) = Goes-add_writer (h.writers resource) index h.edges g in
        elim (Bool-cases (resource == r)) [
          | inl y ↦
              let same : resource ≡ r = (==_iff resource r).0 y in
              rw y (
                rw same (
                  Known-read index none_yet rank (wrote r) (read r) (h.writers r) (h.readers r)
                    (s r)
                    (subst (λ k. h.writers k ≢ none_yet → rank (h.writers k) < rank index) same
                      behind)))
          | inr n ↦ rw n (s r)
        ]

  -- A pass that comes later sees what the passes before it left.
  pub State-weaken :
      (last : ℕ) (wrote read : ℕ → ℕ → Bool) (h : Hazards)
      → State last wrote read h
      → State (suc last) wrote read h
  State-weaken last wrote read h s r =
      let known = s r in
      record {
        writers_first = known.writers_first;
        readers_kept = known.readers_kept;
        seen = λ i e. omega (arith, known.seen i e);
        hazards = known.hazards;
      }
