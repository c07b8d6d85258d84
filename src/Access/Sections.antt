-- ===== src/Access/Sections.antt =====
-- ecs/internal/access_coordinator.cpp: the critical sections of the coordinator's methods as the steps
-- of a history, in which the sections of different threads come in any order.
pub mod Evolution
use graphics_engine.Common.{ℕ, ◌<◌, ◌≡◌, Bool, true, Option, List, [], ◌∷◌, length, Result, ok, err}
use graphics_engine.Access.Types.{DataDomainKey, Footprint}
use graphics_engine.Access.Operations.{OperationKey, running, operation_at}
use graphics_engine.Access.Coordinator.{
  Coordinator, register_domain, schedule, progress, submit_failed, begin_run, end_run, begin_retire,
  end_retire, complete_seal, cancel, seal, stop, release_lifetime,
}

-- One critical section, of any thread.
pub data Section : Type 0 where
  registers : DataDomainKey → Option ℕ → Section
  schedules : List Footprint → Bool → List OperationKey → Section
  progresses : Section
  refuses : ℕ → ℕ → Section
  begins_run : ℕ → Section
  ends_run : ℕ → Option ℕ → Section
  begins_retire : Section
  ends_retire : ℕ → Section
  completes_seal : Section
  cancels : OperationKey → Section
  seals : Option ℕ → Section
  stops : Bool → Section
  releases : Section

abbrev pub or_same : Coordinator → Result Coordinator → Coordinator
or_same c (ok d) = d
or_same c (err e) = c

abbrev pub second : {A : Type 0} → Result (A × Coordinator) → Result Coordinator
second (ok (a, d)) = ok d
second (err e) = err e

abbrev pub first : Result (Coordinator × Bool) → Result Coordinator
first (ok (d, a)) = ok d
first (err e) = err e

-- A method that throws leaves the state as it was.
unfoldable pub after : Section → Coordinator → Coordinator
after (registers key lifetime) c = or_same c (register_domain key lifetime c)
after (schedules footprints has_function keys) c =
    or_same c (second (schedule footprints has_function keys c))
after progresses c = (progress c).0
after (refuses i fault) c = submit_failed i fault c
after (begins_run i) c = (begin_run i c).0
after (ends_run i fault) c = end_run i fault c
after begins_retire c = begin_retire c
after (ends_retire i) c = end_retire i c
after completes_seal c = (complete_seal c).0
after (cancels k) c = or_same c (first (cancel k c))
after (seals callback) c = or_same c (seal callback c)
after (stops is_worker) c = or_same c (stop is_worker c)
after releases c = record c { domains = release_lifetime c.domains }

-- A run ends only after it began, and a function is destroyed only after it was taken; nothing else
-- is asked of the threads.
abbrev pub Enabled : Section → Coordinator → Type 0
Enabled (ends_run i fault) c =
    (i < length c.operations) × ((operation_at c.operations i).status ≡ running)
Enabled (ends_retire i) c =
    (i < length c.operations) × ((operation_at c.operations i).is_retiring ≡ true)
Enabled _ c = Unit {0}

abbrev pub History : Coordinator → List Section → Type 0
History c [] = Unit {0}
History c (s ∷ ss) = Enabled s c × History (after s c) ss

unfoldable pub run : List Section → Coordinator → Coordinator
run [] c = c
run (s ∷ ss) c = run ss (after s c)
