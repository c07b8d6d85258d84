-- ===== src/Access/Operations/Conflicts.antt =====
-- ecs/internal/access_coordinator.cpp: what the loop of `Schedule` over the earlier operations finds.
use graphics_engine.Common.{
  ◌==◌, ==_iff, Bool-cases, length, any, elem, ℕ, zero, suc, ◌+◌, ◌-◌, ◌≤◌, ◌<◌, ◌≡◌, refl, sym, ap,
  ◌∙◌, ◌↔◌, inl, inr, Bool, true, false, not, ◌&&◌, ◌||◌, List, [], ◌∷◌, ◌++◌, arith,
}
use graphics_engine.Access.Types.{Footprint}
use graphics_engine.Access.Operations.{
  AccessConflict, Operation, holds_access, operation_at, accesses_conflict, conflicts_of,
  conflicts_with, repeat_for, find_conflicts,
}

abbrev pub is_nil : List AccessConflict → Bool
is_nil [] = true
is_nil (c ∷ cs) = false

is_nil-append : (cs ds : List AccessConflict) → is_nil (cs ++ ds) ≡ (is_nil cs && is_nil ds)
is_nil-append [] ds = refl
is_nil-append (c ∷ cs) ds = refl

conflicts_of-any :
    (owner index : ℕ) (l : Footprint) (rs : List Footprint)
    → is_nil (conflicts_of owner index l rs) ≡ not (any (accesses_conflict l) rs)
unfolding conflicts_of
conflicts_of-any owner index l [] = refl
conflicts_of-any owner index l (r ∷ rs) = elim (Bool-cases (accesses_conflict l r)) [
  | inl y ↦ rw y refl
  | inr n ↦ rw n (conflicts_of-any owner index l rs)
]

pub conflicts_with-any :
    (owner index : ℕ) (ls rs : List Footprint)
    → is_nil (conflicts_with owner index ls rs) ≡ not (any (λ f. any (accesses_conflict f) rs) ls)
unfolding conflicts_with
conflicts_with-any owner index [] rs = refl
conflicts_with-any owner index (l ∷ ls) rs = ground (
  arith,
  is_nil-append (conflicts_of owner index l rs) (conflicts_with owner index ls rs),
  conflicts_of-any owner index l rs,
  conflicts_with-any owner index ls rs,
)

pub elem-append : (k : ℕ) (xs ys : List ℕ) → elem k (xs ++ ys) ≡ (elem k xs || elem k ys)
elem-append k [] ys = refl
elem-append k (x ∷ xs) ys = ground (arith, elem-append k xs ys)

elem-repeat_for :
    (k index : ℕ) (cs : List AccessConflict)
    → elem k (repeat_for index cs) ≡ (index == k && not (is_nil cs))
elem-repeat_for k index [] = ground arith
elem-repeat_for k index (c ∷ cs) = ground (arith, elem-repeat_for k index cs)

module _ (owner : ℕ) (fs : List Footprint) where
  abbrev pub conflicts_here : Operation → Bool
  conflicts_here o = any (λ f. any (accesses_conflict f) fs) o.footprints

  elem-find_conflicts-cons :
      (index k : ℕ) (o : Operation) (os : List Operation)
      → elem k (find_conflicts owner index (o ∷ os) fs).predecessors ≡ (
          (holds_access o && (index == k && conflicts_here o))
          || elem k (find_conflicts owner (suc index) os fs).predecessors)
  unfolding find_conflicts
  elem-find_conflicts-cons index k o os = elim (Bool-cases (holds_access o)) [
    | inl y ↦
        let here = conflicts_with owner index o.footprints fs in
        let rest = find_conflicts owner (suc index) os fs in
        rw y (
          ground (
            arith,
            elem-append k (repeat_for index here) rest.predecessors,
            elem-repeat_for k index here,
            conflicts_with-any owner index o.footprints fs,
          ))
    | inr n ↦ rw n refl
  ]

  pub elem-find_conflicts-within :
      (index k : ℕ) (os : List Operation)
      → elem k (find_conflicts owner index os fs).predecessors ≡ true
      → (index ≤ k) × (k < index + length os)
  unfolding find_conflicts
  elem-find_conflicts-within index k [] h = cc
  elem-find_conflicts-within index k (o ∷ os) h =
      let rec = elem-find_conflicts-within (suc index) k os in
      let e = elem-find_conflicts-cons index k o os in
      elim (Bool-cases (elem k (find_conflicts owner (suc index) os fs).predecessors)) [
        | inl y ↦ let (a, b) = rec y in (omega arith, omega arith)
        | inr n ↦
            let same : index ≡ k = (==_iff index k).0 (ground arith) in (omega arith, omega arith)
      ]

  pub elem-find_conflicts-at :
      (index k : ℕ) (os : List Operation)
      → k < length os
      → elem (index + k) (find_conflicts owner index os fs).predecessors
        ≡ (holds_access (operation_at os k) && conflicts_here (operation_at os k))
  elem-find_conflicts-at index k [] l = elim l [ ]
  elem-find_conflicts-at index zero (o ∷ os) l =
      let e = elem-find_conflicts-cons index (index + 0) o os in
      let w = elem-find_conflicts-within (suc index) (index + 0) os in
      let z = ==_iff index (index + 0) in ground (arith, z, e, w)
  elem-find_conflicts-at index (suc k) (o ∷ os) l =
      let e = elem-find_conflicts-cons index (index + suc k) o os in
      let rec = elem-find_conflicts-at (suc index) k os (omega arith) in
      let shift : elem (index + suc k) (find_conflicts owner (suc index) os fs).predecessors
          ≡ elem (suc index + k) (find_conflicts owner (suc index) os fs).predecessors =
        ap (λ j. elem j (find_conflicts owner (suc index) os fs).predecessors) (omega arith) in
      let z = ==_iff index (index + suc k) in ground (arith, z, e, rec, shift)

  -- The predecessors that the loop finds for a new operation are the earlier operations, and no others,
  -- that hold access and have a footprint that conflicts with one of its own.
  pub elem-find_conflicts :
      (index k : ℕ) (os : List Operation)
      → (elem k (find_conflicts owner index os fs).predecessors ≡ true) ↔ (
          (j : ℕ) × (j < length os)
          × (k ≡ index + j)
          × (holds_access (operation_at os j) ≡ true)
          × (conflicts_here (operation_at os j) ≡ true))
  elem-find_conflicts index k os = (
    (λ m.
        let (low, high) = elem-find_conflicts-within index k os m in
        let same : k ≡ index + (k - index) = omega arith in
        let l : k - index < length os = omega arith in
        let both =
          sym (elem-find_conflicts-at index (k - index) os l)
          ∙ (ap (λ i. elem i (find_conflicts owner index os fs).predecessors) (sym same) ∙ m) in
        (k - index, l, same, ground arith, ground arith)),
    (λ (j, l, same, held, met).
        ap (λ i. elem i (find_conflicts owner index os fs).predecessors) same
        ∙ (elem-find_conflicts-at index j os l ∙ rw (held, met) refl)),
  )
