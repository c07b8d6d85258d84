-- ===== src/Access/Coordinator/Sealed.antt =====
-- ecs/internal/access_coordinator.cpp: a seal completes once, when nothing holds access, and for good.
use graphics_engine.Common.{
  Bool-cases, Option-cases, Result-cases, ℕ, ◌≡◌, refl, sym, subst, ◌⊎◌, inl, inr, true, false, not,
  ◌||◌, Option, none, List, [], ◌∷◌, arith,
}
use graphics_engine.Access.Types.{DataDomainKey}
use graphics_engine.Access.Operations.{find_retired}
use graphics_engine.Access.Coordinator.{
  Coordinator, new_coordinator, resolve, register_domain, schedule, progress, submit_failed,
  begin_run, end_run, begin_retire, end_retire, is_drained, complete_seal, cancel, seal, stop,
}
use graphics_engine.Access.Coordinator.Final.{
  any-Released, Released-any, CanComplete, IsFinal, complete_seal-final, run-IsFinal,
}
use graphics_engine.Access.Sections.{
  Section, registers, schedules, progresses, refuses, begins_run, ends_run, begins_retire,
  ends_retire, completes_seal, cancels, seals, stops, releases, or_same, after, History, run,
}
use graphics_engine.Access.Sections.Evolution.{schedule-ok}

-- A sealed coordinator is closed.
abbrev IsSealClosed : Coordinator → Type 0
IsSealClosed c = c.is_sealed ≡ true → c.is_closed ≡ true

register_domain-IsSealClosed :
    (key : DataDomainKey) (lifetime : Option ℕ) (c : Coordinator)
    → IsSealClosed c
    → IsSealClosed (or_same c (register_domain key lifetime c))
unfolding register_domain
register_domain-IsSealClosed key lifetime c f = ground arith

after-IsSealClosed : (s : Section) (c : Coordinator) → IsSealClosed c → IsSealClosed (after s c)
unfolding after progress submit_failed begin_run end_run begin_retire end_retire complete_seal
    cancel seal stop
after-IsSealClosed (registers key lifetime) c f = register_domain-IsSealClosed key lifetime c f
after-IsSealClosed (schedules footprints has_function keys) c f =
    elim (Result-cases (schedule footprints has_function keys c)) [
      | inl (e, q) ↦ rw q f
      | inr ((k, d), q) ↦
          let (o, a, made) = schedule-ok footprints has_function keys c {k = k} {d = d} q in
          rw q (subst IsSealClosed (sym made) f)
    ]
after-IsSealClosed progresses c f = f
after-IsSealClosed (refuses i fault) c f = ground arith
after-IsSealClosed (begins_run i) c f = ground arith
after-IsSealClosed (ends_run i fault) c f = f
after-IsSealClosed begins_retire c f = elim (Option-cases (find_retired 0 c.operations)) [
  | inl n ↦ rw n f
  | inr (j, y) ↦ rw y f
]
after-IsSealClosed (ends_retire i) c f = f
after-IsSealClosed completes_seal c f = ground arith
after-IsSealClosed (cancels k) c f = elim (Result-cases (resolve c k)) [
  | inl (e, q) ↦ rw q f
  | inr (i, q) ↦ rw q (ground arith)
]
after-IsSealClosed (seals callback) c f = ground arith
after-IsSealClosed (stops is_worker) c f = ground arith
after-IsSealClosed releases c f = f

run-IsSealClosed : (ss : List Section) (c : Coordinator) → IsSealClosed c → IsSealClosed (run ss c)
unfolding run
run-IsSealClosed [] c f = f
run-IsSealClosed (s ∷ ss) c f = run-IsSealClosed ss (after s c) (after-IsSealClosed s c f)

complete_seal-IsFinal :
    (c : Coordinator)
    → IsSealClosed c
    → CanComplete c
    → ((complete_seal c).1 ≡ c.on_drained) × IsFinal (complete_seal c).0
unfolding complete_seal
complete_seal-IsFinal c closed can =
    let none_holds = Released-any c.operations can.released in
    let s = can.sealed in
    let p = can.pending in
    let runs = can.none_runs in
    let retires = can.none_retires in
    let passes : (not c.is_sealed || c.is_seal_completed || not (is_drained c)) ≡ false =
      ground arith in
    rw passes (
      refl,
      record {
        closed = closed s;
        completed = refl;
        no_domains = refl;
        none_runs = runs;
        none_retires = retires;
        released = can.released;
      },
    )

CanComplete-cases :
    (c : Coordinator) → CanComplete c ⊎ ((¬ CanComplete c) × (complete_seal c ≡ (c, none)))
unfolding complete_seal
CanComplete-cases c =
    elim (Bool-cases (not c.is_sealed || c.is_seal_completed || not (is_drained c))) [
      | inr n ↦ inl (record {
        sealed = ground arith;
        pending = ground arith;
        none_runs = ground arith;
        none_retires = ground arith;
        released = any-Released c.operations (ground arith);
      })
      | inl y ↦ inr (
        (λ can.
            let none_holds = Released-any c.operations can.released in
            let s = can.sealed in
            let p = can.pending in
            let runs = can.none_runs in let retires = can.none_retires in ground arith),
        rw y refl,
      )
    ]

-- Either the seal can be completed: then its callback runs, and at the end of what comes later the
-- coordinator is final, and completing it again runs nothing. Or it cannot, and nothing happens.
abbrev pub CompletesOnce : Coordinator → List Section → Type 0
CompletesOnce c later =
    (CanComplete c
      × ((complete_seal c).1 ≡ c.on_drained)
      × IsFinal (run later (complete_seal c).0)
      × (complete_seal (run later (complete_seal c).0) ≡ (run later (complete_seal c).0, none)))
    ⊎ ((¬ CanComplete c) × (complete_seal c ≡ (c, none)))

-- In every history of a new coordinator: where it is sealed and not completed, and nothing runs,
-- retires or holds access, completing the seal runs the callback of the seal, and whatever comes
-- after, it stays closed and completed with no domain and no operation that holds access, and no
-- callback runs again. Otherwise completing it changes nothing and runs nothing.
pub complete_seal_once :
    (owner : ℕ) (before later : List Section)
    → History (complete_seal (run before (new_coordinator owner))).0 later
    → CompletesOnce (run before (new_coordinator owner)) later
complete_seal_once owner before later h =
    let c = run before (new_coordinator owner) in
    let closed = run-IsSealClosed before (new_coordinator owner) (λ s. cc) in
    elim (CanComplete-cases c) [
      | inr no_change ↦ inr no_change
      | inl can ↦
          let (callback, done) = complete_seal-IsFinal c closed can in
          let end = run later (complete_seal c).0 in
          let final : IsFinal end = run-IsFinal later (complete_seal c).0 h done in
          inl (can, callback, final, complete_seal-final end final)
    ]
