-- ===== src/Access/Coordinator/Serial.antt =====
-- ecs/internal/access_coordinator.cpp: whatever the order in which the threads' critical sections
-- come, operations that conflict run one after the other, in the order of their admission.
use graphics_engine.Common.{
  ℕ, ◌<◌, ◌≡◌, sym, subst, Bool, true, List, [], ◌∷◌, ◌++◌, length, arith, Result-cases, inl, inr,
}
use graphics_engine.Access.Types.{Footprint}
use graphics_engine.Access.Operations.{
  OperationKey, OperationStatus, Operation, is_terminal, operation_at,
}
use graphics_engine.Access.Operations.Rules.{
  was_started, Ordered, Ordered-Evolves, Ordered-terminal, operations_conflict, Evolves,
}
use graphics_engine.Access.Operations.Scans.{scan-keeps}
use graphics_engine.Access.Operations.Admission.{Admissible, Ordered-append}
use graphics_engine.Access.Coordinator.{Coordinator, new_coordinator, schedule, progress}
use graphics_engine.Access.Sections.{
  Section, registers, schedules, progresses, refuses, begins_run, ends_run, begins_retire,
  ends_retire, completes_seal, cancels, seals, stops, releases, or_same, second, after, Enabled,
  History, run,
}
use graphics_engine.Access.Sections.Evolution.{
  schedule-ok, submit_failed-Evolves, begin_run-Evolves, end_run-Evolves, begin_retire-Evolves,
  end_retire-Evolves, complete_seal-operations, cancel-Evolves, register_domain-operations,
  seal-operations, stop-Evolves,
}

module _ {ℓ} (P : List Operation → Type ℓ)
    (closed : (os ps : List Operation) → Evolves os ps → P os → P ps)
    (appended : (os : List Operation) (o : Operation)
      → Admissible os o
      → P os
      → P (os ++ o ∷ [])) where
  progress-keeps : (c : Coordinator) → P c.operations → P (progress c).0.operations
  unfolding progress
  progress-keeps c p = scan-keeps P closed (length c.operations) 0 c.operations (omega arith) p

  schedule-keeps :
      (footprints : List Footprint) (has_function : Bool) (keys : List OperationKey)
      (c : Coordinator)
      → P c.operations
      → P (or_same c (second (schedule footprints has_function keys c))).operations
  schedule-keeps footprints has_function keys c p =
      elim (Result-cases (schedule footprints has_function keys c)) [
        | inl (e, q) ↦ rw q p
        | inr ((k, d), q) ↦
            let (o, a, made) = schedule-ok footprints has_function keys c {k = k} {d = d} q in
            rw q (subst (λ d. P d.operations) (sym made) (appended c.operations o a p))
      ]

  -- What legal moves and admissions keep is kept by every critical section.
  pub after-keeps :
      (s : Section) (c : Coordinator) → Enabled s c → P c.operations → P (after s c).operations
  unfolding after
  after-keeps (registers key lifetime) c e p =
      subst P (sym (register_domain-operations key lifetime c)) p
  after-keeps (schedules footprints has_function keys) c e p =
      schedule-keeps footprints has_function keys c p
  after-keeps progresses c e p = progress-keeps c p
  after-keeps (refuses i fault) c e p = closed _ _ (submit_failed-Evolves i fault c) p
  after-keeps (begins_run i) c e p = closed _ _ (begin_run-Evolves i c) p
  after-keeps (ends_run i fault) c e p = closed _ _ (end_run-Evolves i fault c e.0 e.1) p
  after-keeps begins_retire c e p = closed _ _ (begin_retire-Evolves c) p
  after-keeps (ends_retire i) c e p = closed _ _ (end_retire-Evolves i c e.0) p
  after-keeps completes_seal c e p = subst P (sym (complete_seal-operations c)) p
  after-keeps (cancels k) c e p = closed _ _ (cancel-Evolves k c) p
  after-keeps (seals callback) c e p = subst P (sym (seal-operations callback c)) p
  after-keeps (stops is_worker) c e p = closed _ _ (stop-Evolves is_worker c) p
  after-keeps releases c e p = p

  pub run-keeps :
      (ss : List Section) (c : Coordinator)
      → History c ss
      → P c.operations
      → P (run ss c).operations
  unfolding run
  run-keeps [] c h p = p
  run-keeps (s ∷ ss) c h p = run-keeps ss (after s c) h.1 (after-keeps s c h.0 p)

Ordered-new : Ordered []
Ordered-new = (λ j l. elim l [ ], λ i j b l. elim l [ ])

-- After any history of a new coordinator each operation depends on earlier ones only, was started
-- only once those were completed, and depends on each earlier operation that conflicts with it,
-- unless that one holds no access any more.
pub run-Ordered :
    (owner : ℕ) (ss : List Section)
    → History (new_coordinator owner) ss
    → Ordered (run ss (new_coordinator owner)).operations
run-Ordered owner ss h =
    run-keeps Ordered (λ os ps e w. Ordered-Evolves os ps e w) (λ os o a w. Ordered-append os o a w)
      ss (new_coordinator owner) h Ordered-new

-- After any history of a new coordinator: of two operations with conflicting footprints, if the later
-- one was queued, started or finished, then the earlier one is over.
pub run_serial :
    (owner i j : ℕ) (ss : List Section)
    → History (new_coordinator owner) ss
    → i < j
    → j < length (run ss (new_coordinator owner)).operations
    → operations_conflict
        (operation_at (run ss (new_coordinator owner)).operations i)
        (operation_at (run ss (new_coordinator owner)).operations j)
      ≡ true
    → was_started (operation_at (run ss (new_coordinator owner)).operations j).status ≡ true
    → is_terminal (operation_at (run ss (new_coordinator owner)).operations i).status ≡ true
run_serial owner i j ss h below l c s =
    Ordered-terminal (run ss (new_coordinator owner)).operations i j (run-Ordered owner ss h) below
      l c s

-- A number of operations and the outcome of one of them.
abbrev pub Settled : ℕ → OperationStatus → List Operation → Type 0
Settled i s os =
    (i < length os)
    × (is_terminal (operation_at os i).status ≡ true)
    × ((operation_at os i).status ≡ s)
