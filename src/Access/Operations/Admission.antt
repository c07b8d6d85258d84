-- ===== src/Access/Operations/Admission.antt =====
-- ecs/internal/access_coordinator.cpp: an admitted operation is ordered after the ones it conflicts
-- with.
use graphics_engine.Common.{
  ℕ, zero, suc, ◌<◌, ◌≡◌, refl, sym, ◌∙◌, ap, subst, ◌⊎◌, inl, inr, true, false, List, [], ◌∷◌,
  ◌++◌, length, length-append, arith, elem, elem-sort_unique, Bool-cases, leb,
}
use graphics_engine.Access.Types.{Footprint}
use graphics_engine.Access.Operations.{
  waiting, Operation, holds_access, operation_at, find_conflicts,
}
use graphics_engine.Access.Operations.Rules.{
  DependenciesCompleted, Ordered, operations_conflict, was_started,
}
use graphics_engine.Access.Operations.Conflicts.{
  elem-append, elem-find_conflicts-at, elem-find_conflicts-within,
}
use graphics_engine.Access.Coordinator.{new_operation}

-- What admission promises of the operation that it appends.
abbrev pub Admissible : List Operation → Operation → Type 0
Admissible os o =
    (o.status ≡ waiting)
    × ((k : ℕ) → elem k o.dependencies ≡ true → k < length os)
    × ((i : ℕ)
        → i < length os
        → operations_conflict (operation_at os i) o ≡ true
        → (elem i o.dependencies ≡ true) ⊎ (holds_access (operation_at os i) ≡ false))

pub new_operation-Admissible :
    (owner : ℕ) (os : List Operation) (footprints : List Footprint) (dependencies : List ℕ)
    → ((k : ℕ) → elem k dependencies ≡ true → k < length os)
    → Admissible os (new_operation footprints dependencies (find_conflicts owner 0 os footprints))
new_operation-Admissible owner os footprints dependencies given =
    let found = find_conflicts owner 0 os footprints in
    let listed : List ℕ = dependencies ++ found.predecessors in
    (
      refl,
      (λ k h.
          let h' = sym (elem-sort_unique k listed) ∙ h in
          elim (Bool-cases (elem k dependencies)) [
            | inl y ↦ given k y
            | inr n ↦
                let e = elem-append k dependencies found.predecessors in
                let m : elem k found.predecessors ≡ true = ground arith in
                let w = elem-find_conflicts-within owner footprints 0 k os m in omega (arith, w.1)
          ]),
      (λ i l c. elim (Bool-cases (holds_access (operation_at os i))) [
        | inr n ↦ inr n
        | inl y ↦
            let m = elem-find_conflicts-at owner footprints 0 i os l in
            let e = elem-append i dependencies found.predecessors in
            inl (elem-sort_unique i listed ∙ ground arith)
      ]),
    )

pub operation_at-append :
    (os : List Operation) (o : Operation) (i : ℕ)
    → i < length os
    → operation_at (os ++ o ∷ []) i ≡ operation_at os i
operation_at-append [] o i l = elim l [ ]
operation_at-append (x ∷ os) o zero l = refl
operation_at-append (x ∷ os) o (suc i) l = operation_at-append os o i (omega arith)

pub operation_at-append_last :
    (os : List Operation) (o : Operation) → operation_at (os ++ o ∷ []) (length os) ≡ o
operation_at-append_last [] o = refl
operation_at-append_last (x ∷ os) o = operation_at-append_last os o

module _ (os : List Operation) (o : Operation) (a : Admissible os o) (w : Ordered os) where
  DependenciesCompleted-append :
      (j : ℕ)
      → j < length os
      → DependenciesCompleted os (operation_at os j)
      → DependenciesCompleted (os ++ o ∷ []) (operation_at os j)
  DependenciesCompleted-append j l d k m =
      let below : k < j = (w.0 j l).0 k m in
      ap (λ x. x.status) (operation_at-append os o k (omega arith)) ∙ d k m

  abbrev Own : ℕ → Operation → Type 0
  Own j x =
      ((i : ℕ) → elem i x.dependencies ≡ true → i < j)
      × (was_started x.status ≡ true → DependenciesCompleted (os ++ o ∷ []) x)

  Own-append : (j : ℕ) → j < length (os ++ o ∷ []) → Own j (operation_at (os ++ o ∷ []) j)
  Own-append j l =
      let e = length-append os (o ∷ []) in
      elim (Bool-cases (leb (suc j) (length os))) [
        | inl y ↦
            let l' : j < length os = ground arith in
            subst (Own j) (sym (operation_at-append os o j l'))
              ((w.0 j l').0, λ s. DependenciesCompleted-append j l' ((w.0 j l').1 s))
        | inr n ↦
            let same : length os ≡ j = ground arith in
            subst (λ k. Own k (operation_at (os ++ o ∷ []) k)) same
              (subst (Own (length os)) (sym (operation_at-append_last os o))
                (a.1, λ s. cc (s, ap was_started a.0)))
      ]

  abbrev Pair : ℕ → Operation → Operation → Type 0
  Pair i x y =
      operations_conflict x y ≡ true → (elem i y.dependencies ≡ true) ⊎ (holds_access x ≡ false)

  Pair-append :
      (i j : ℕ)
      → i < j
      → j < length (os ++ o ∷ [])
      → Pair i (operation_at (os ++ o ∷ []) i) (operation_at (os ++ o ∷ []) j)
  Pair-append i j below l =
      let e = length-append os (o ∷ []) in
      let i' : i < length os = omega arith in
      subst (λ x. Pair i x (operation_at (os ++ o ∷ []) j)) (sym (operation_at-append os o i i'))
        (elim (Bool-cases (leb (suc j) (length os))) [
          | inl y ↦
              let l' : j < length os = ground arith in
              subst (Pair i (operation_at os i)) (sym (operation_at-append os o j l'))
                (w.1 i j below l')
          | inr n ↦
              let same : length os ≡ j = ground arith in
              subst (λ k. Pair i (operation_at os i) (operation_at (os ++ o ∷ []) k)) same
                (subst (Pair i (operation_at os i)) (sym (operation_at-append_last os o))
                  (a.2 i i'))
        ])

  pub Ordered-append : Ordered (os ++ o ∷ [])
  Ordered-append = (Own-append, Pair-append)
