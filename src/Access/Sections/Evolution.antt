-- ===== src/Access/Sections/Evolution.antt =====
-- ecs/internal/access_coordinator.cpp: every critical section moves operations legally or appends one.
use graphics_engine.Common.{
  ℕ, zero, suc, ◌+◌, ◌<◌, ◌≡◌, refl, ◌≢◌, inl, inr, Bool, true, false, ◌&&◌, ◌||◌, Option, some,
  List, [], ◌∷◌, length, arith, elem, ok, Bool-cases, Result-cases, Option-cases, >>=-eq-ok, ◌==◌,
  ==_iff, ◌>>=◌,
}
use graphics_engine.Access.Types.{DataDomainKey, Footprint}
use graphics_engine.Access.Scopes.{normalize_footprints}
use graphics_engine.Access.Operations.{
  OperationKey, running, failed, cancelled, Operation, is_queued, is_waiting, is_terminal,
  holds_access, operation_at, with_status, find_conflicts, find_retired,
}
use graphics_engine.Access.Operations.Rules.{Evolves, Evolves-refl, Evolves-set}
use graphics_engine.Access.Operations.Scans.{Evolves-cancel_pending}
use graphics_engine.Access.Operations.Admission.{Admissible, new_operation-Admissible}
use graphics_engine.Access.Coordinator.{
  Coordinator, resolve, resolve_all, register_domain, new_operation, schedule, submit_failed,
  begin_run, outcome_of, end_run, begin_retire, admit, append_operation, end_retire, complete_seal,
  cancel, cancel_at, seal, stop,
}
use graphics_engine.Access.Sections.{or_same, first}

pub resolve-ok :
    (c : Coordinator) (k : OperationKey) {i : ℕ} → resolve c k ≡ ok i → i < length c.operations
unfolding resolve
resolve-ok c k {i = i} h = ground arith

resolve_all-ok :
    (c : Coordinator) (ks : List OperationKey) {is : List ℕ}
    → resolve_all c ks ≡ ok is
    → (k : ℕ) → elem k is ≡ true
    → k < length c.operations
unfolding resolve_all
resolve_all-ok c [] {is = is} h k m = ground arith
resolve_all-ok c (x ∷ ks) {is = is} h k m =
    let (i, e, h') = >>=-eq-ok (resolve c x) (λ i. resolve_all c ks >>= λ rest. ok (i ∷ rest)) h in
    let (rest, e', h'') = >>=-eq-ok (resolve_all c ks) (λ rest. ok (i ∷ rest)) h' in
    let l = resolve-ok c x e in
    let rec = resolve_all-ok c ks e' k in
    elim (Bool-cases (i == k)) [
      | inl y ↦ let z = (==_iff i k).0 y in omega arith
      | inr n ↦ rec (ground arith)
    ]

admit-ok :
    (footprints : List Footprint) (keys : List OperationKey) (c : Coordinator) {k : OperationKey}
    {d : Coordinator}
    → admit footprints keys c ≡ ok (k, d)
    → (o : Operation) × Admissible c.operations o × (d ≡ append_operation o c)
unfolding admit
admit-ok footprints keys c {d = d} h = elim (Result-cases (resolve_all c keys)) [
  | inl (e, q) ↦ absurd (ground arith)
  | inr (dependencies, q) ↦
      let o =
        new_operation footprints dependencies (find_conflicts c.owner 0 c.operations footprints) in
      (
        o,
        new_operation-Admissible c.owner c.operations footprints dependencies
            (resolve_all-ok c keys q),
        ground arith,
      )
]

-- A schedule that succeeds appends one operation.
pub schedule-ok :
    (footprints : List Footprint) (has_function : Bool) (keys : List OperationKey) (c : Coordinator)
    {k : OperationKey} {d : Coordinator}
    → schedule footprints has_function keys c ≡ ok (k, d)
    → (o : Operation) × Admissible c.operations o × (d ≡ append_operation o c)
unfolding schedule
schedule-ok footprints has_function keys c {k = k} {d = d} h =
    elim (Result-cases (normalize_footprints footprints)) [
      | inl (e, q) ↦ absurd (ground arith)
      | inr (normal, q) ↦ admit-ok normal keys c {k = k} {d = d} (ground arith)
    ]

pub in_range :
    (os : List Operation) (i : ℕ) → is_queued (operation_at os i).status ≡ true → i < length os
in_range [] i h = cc
in_range (o ∷ os) zero h = omega arith
in_range (o ∷ os) (suc i) h = omega (arith, in_range os i h)

pub find_retired-lt :
    (i : ℕ) (os : List Operation) {j : ℕ}
    → find_retired i os ≡ some j
    → (k : ℕ) × (j ≡ i + k)
      × (k < length os)
      × (is_terminal (operation_at os k).status ≡ true)
      × ((operation_at os k).has_function ≡ true)
unfolding find_retired
find_retired-lt i [] h = cc
find_retired-lt i (o ∷ os) {j = j} h = elim (Bool-cases (is_terminal o.status && o.has_function)) [
  | inl y ↦ (0, ground arith, omega arith, ground arith, ground arith)
  | inr n ↦
      let (k, e, l, t, f) = find_retired-lt (suc i) os (rw n at h) in
      (suc k, omega arith, omega arith, t, f)
]

pub submit_failed-Evolves :
    (i fault : ℕ) (c : Coordinator) → Evolves c.operations (submit_failed i fault c).operations
unfolding submit_failed
submit_failed-Evolves i fault c =
    let o = operation_at c.operations i in
    elim (Bool-cases (is_queued o.status)) [
      | inl y ↦ rw y (
          Evolves-set c.operations i (record o { status = failed; failure = some fault })
            (in_range c.operations i y)
            (refl, refl, (λ t. ground arith), (λ f. ground arith), (λ s. inl (ground arith))))
      | inr n ↦ rw n (Evolves-refl c.operations)
    ]

pub begin_run-Evolves :
    (i : ℕ) (c : Coordinator) → Evolves c.operations (begin_run i c).0.operations
unfolding begin_run
begin_run-Evolves i c =
    let o = operation_at c.operations i in
    elim (Bool-cases (is_queued o.status)) [
      | inl y ↦ rw y (
          Evolves-set c.operations i (record o { status = running; has_function = false })
            (in_range c.operations i y)
            (refl, refl, (λ t. ground arith), (λ f. ground arith), (λ s. inl (ground arith))))
      | inr n ↦ rw n (Evolves-refl c.operations)
    ]

pub end_run-Evolves :
    (i : ℕ) (fault : Option ℕ) (c : Coordinator)
    → i < length c.operations
    → (operation_at c.operations i).status ≡ running
    → Evolves c.operations (end_run i fault c).operations
unfolding end_run
end_run-Evolves i fault c l r =
    let o = operation_at c.operations i in
    Evolves-set c.operations i (record o { status = outcome_of fault; failure = fault }) l
      (refl, refl, (λ t. ground arith), (λ f. ground arith), (λ s. inl (ground arith)))

pub begin_retire-Evolves : (c : Coordinator) → Evolves c.operations (begin_retire c).operations
unfolding begin_retire
begin_retire-Evolves c = elim (Option-cases (find_retired 0 c.operations)) [
  | inl n ↦ rw n (Evolves-refl c.operations)
  | inr (j, y) ↦
      let (k, e, l, t, f) = find_retired-lt 0 c.operations y in
      let same : k ≡ j = omega arith in
      let o = operation_at c.operations j in
      rw y (
        Evolves-set c.operations j (record o { has_function = false; is_retiring = true })
          (omega arith)
          (refl, refl, (λ t. refl), (λ h. absurd (held o (rw same at f) h)), (λ s. inl s)))
]
  where
    held : (o : Operation) → o.has_function ≡ true → holds_access o ≢ false
    held o f h = ground arith

pub end_retire-Evolves :
    (i : ℕ) (c : Coordinator)
    → i < length c.operations
    → Evolves c.operations (end_retire i c).operations
unfolding end_retire
end_retire-Evolves i c l =
    let o = operation_at c.operations i in
    Evolves-set c.operations i (record o { is_retiring = false }) l
      (refl, refl, (λ t. refl), (λ f. ground arith), (λ s. inl s))

pub complete_seal-operations : (c : Coordinator) → (complete_seal c).0.operations ≡ c.operations
unfolding complete_seal
complete_seal-operations c = ground arith

cancel_at-Evolves :
    (i : ℕ) (c : Coordinator)
    → i < length c.operations
    → Evolves c.operations (cancel_at i c).0.operations
cancel_at-Evolves i c l =
    let o = operation_at c.operations i in
    elim (Bool-cases (is_waiting o.status || is_queued o.status)) [
      | inl y ↦ rw y (
          Evolves-set c.operations i (with_status cancelled o) l
            (refl, refl, (λ t. ground arith), (λ f. ground arith), (λ s. cc)))
      | inr n ↦ rw n (Evolves-refl c.operations)
    ]

pub cancel-Evolves :
    (k : OperationKey) (c : Coordinator)
    → Evolves c.operations (or_same c (first (cancel k c))).operations
unfolding cancel
cancel-Evolves k c = elim (Result-cases (resolve c k)) [
  | inl (e, q) ↦ rw q (Evolves-refl c.operations)
  | inr (i, q) ↦ rw q (cancel_at-Evolves i c (resolve-ok c k q))
]

pub register_domain-operations :
    (key : DataDomainKey) (lifetime : Option ℕ) (c : Coordinator)
    → (or_same c (register_domain key lifetime c)).operations ≡ c.operations
unfolding register_domain
register_domain-operations key lifetime c = ground arith

pub seal-operations :
    (callback : Option ℕ) (c : Coordinator)
    → (or_same c (seal callback c)).operations ≡ c.operations
unfolding seal
seal-operations callback c = ground arith

pub stop-Evolves :
    (is_worker : Bool) (c : Coordinator)
    → Evolves c.operations (or_same c (stop is_worker c)).operations
unfolding stop
stop-Evolves true c = Evolves-refl c.operations
stop-Evolves false c = Evolves-cancel_pending c.operations
