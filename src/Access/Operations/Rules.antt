-- ===== src/Access/Operations/Rules.antt =====
-- ecs/internal/access_coordinator.cpp: what an operation's record may turn into, and what stays true
-- of the operations of a coordinator.
use graphics_engine.Common.{
  ℕ, ◌<◌, ◌≡◌, refl, sym, ◌∙◌, subst, ap, ◌≢◌, ◌⊎◌, inl, inr, Bool, true, false, List, any, length,
  set, length-set, get_or-set_self, get_or-set_ne, arith, elem, ==_iff, ◌==◌, Bool-cases,
}
use graphics_engine.Access.Operations.{
  OperationStatus, waiting, queued, running, completed, failed, cancelled, Operation, is_terminal,
  holds_access, operation_at, accesses_conflict, default_operation,
}

-- The operation's function was handed over or its run was refused.
abbrev pub was_started : OperationStatus → Bool
was_started waiting = false
was_started queued = true
was_started running = true
was_started completed = true
was_started failed = true
was_started cancelled = false

abbrev pub DependenciesCompleted : List Operation → Operation → Type 0
DependenciesCompleted os o =
    (k : ℕ) → elem k o.dependencies ≡ true → (operation_at os k).status ≡ completed

-- Two operations conflict if two of their footprints do.
abbrev pub operations_conflict : Operation → Operation → Bool
operations_conflict l r = any (λ f. any (accesses_conflict f) r.footprints) l.footprints

abbrev pub Moves : List Operation → Operation → Operation → Type 0
Moves os old new =
    (new.footprints ≡ old.footprints)
    × (new.dependencies ≡ old.dependencies)
    × (is_terminal old.status ≡ true → new.status ≡ old.status)
    × (holds_access old ≡ false → holds_access new ≡ false)
    × (was_started new.status ≡ true
        → (was_started old.status ≡ true) ⊎ DependenciesCompleted os old)

-- An operation depends on earlier ones only; once it is started those are completed; and an earlier
-- operation that conflicts with it is one of them, or holds no access any more.
abbrev pub Ordered : List Operation → Type 0
Ordered os =
    ((j : ℕ)
      → j < length os
      → ((i : ℕ) → elem i (operation_at os j).dependencies ≡ true → i < j)
        × (was_started (operation_at os j).status ≡ true
            → DependenciesCompleted os (operation_at os j)))
    × ((i j : ℕ)
        → i < j
        → j < length os
        → operations_conflict (operation_at os i) (operation_at os j) ≡ true
        → (elem i (operation_at os j).dependencies ≡ true)
          ⊎ (holds_access (operation_at os i) ≡ false))

-- Every operation of the first list made a legal move to the one of the second.
abbrev pub Evolves : List Operation → List Operation → Type 0
Evolves os ps =
    (length ps ≡ length os)
    × ((i : ℕ) → i < length os → Moves os (operation_at os i) (operation_at ps i))

Moves-refl : (os : List Operation) (o : Operation) → Moves os o o
Moves-refl os o = (refl, refl, (λ t. refl), (λ h. h), (λ s. inl s))

pub Evolves-refl : (os : List Operation) → Evolves os os
Evolves-refl os = (refl, λ i l. Moves-refl os (operation_at os i))

pub Evolves-set :
    (os : List Operation) (i : ℕ) (o : Operation)
    → i < length os
    → Moves os (operation_at os i) o
    → Evolves os (set os i o)
Evolves-set os i o l m = (
  length-set os i o,
  λ j l'. elim (Bool-cases (i == j)) [
    | inl y ↦
        let same : i ≡ j = (==_iff i j).0 y in
        subst (λ k. Moves os (operation_at os k) (operation_at (set os i o) k)) same
          (subst (Moves os (operation_at os i)) (sym (get_or-set_self os i o default_operation l))
            m)
    | inr n ↦
        let apart : i ≢ j = λ e. ground arith in
        subst (Moves os (operation_at os j)) (sym (get_or-set_ne os i j o default_operation apart))
          (Moves-refl os (operation_at os j))
  ],
)

module _ (os ps : List Operation) (e : Evolves os ps) where
  completed_stays :
      (k : ℕ)
      → k < length os
      → (operation_at os k).status ≡ completed
      → (operation_at ps k).status ≡ completed
  completed_stays k l c = (e.1 k l).2 (ap is_terminal c) ∙ c

  DependenciesCompleted-Evolves :
      (j : ℕ)
      → j < length os
      → ((i : ℕ) → elem i (operation_at os j).dependencies ≡ true → i < j)
      → DependenciesCompleted os (operation_at os j)
      → DependenciesCompleted ps (operation_at ps j)
  DependenciesCompleted-Evolves j l earlier d k m =
      let m' : elem k (operation_at os j).dependencies ≡ true = ap (elem k) (sym (e.1 j l).1) ∙ m in
      let below : k < j = earlier k m' in completed_stays k (omega arith) (d k m')

  -- Legal moves keep the operations ordered.
  pub Ordered-Evolves : Ordered os → Ordered ps
  Ordered-Evolves (own, pairs) = (
    (λ j l.
        let l' : j < length os = omega (arith, e.0) in
        let (earlier, ready) = own j l' in
        let m = e.1 j l' in
        (
          (λ i h. earlier i (ap (elem i) (sym m.1) ∙ h)),
          (λ s. elim (m.4 s) [
            | inl s' ↦ DependenciesCompleted-Evolves j l' earlier (ready s')
            | inr d ↦ DependenciesCompleted-Evolves j l' earlier d
          ]),
        )),
    (λ i j below l c.
        let l' : j < length os = omega (arith, e.0) in
        let mi = e.1 i (omega arith) in
        let mj = e.1 j l' in
        let c' : operations_conflict (operation_at os i) (operation_at os j) ≡ true =
          rw (sym mi.0, sym mj.0) c in
        elim (pairs i j below l' c') [ inl h ↦ inl (ap (elem i) mj.1 ∙ h) | inr h ↦ inr (mi.3 h) ]),
  )

-- Of two operations that conflict, the later one is not started before the earlier one is over.
pub Ordered-terminal :
    (os : List Operation) (i j : ℕ)
    → Ordered os
    → i < j
    → j < length os
    → operations_conflict (operation_at os i) (operation_at os j) ≡ true
    → was_started (operation_at os j).status ≡ true
    → is_terminal (operation_at os i).status ≡ true
Ordered-terminal os i j (own, pairs) below l c s = elim (pairs i j below l c) [
  | inl h ↦ ap is_terminal ((own j l).1 s i h)
  | inr h ↦ ground arith
]
