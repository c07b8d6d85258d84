-- ===== src/EngineState/Steps.antt =====
-- engine/engine.cpp: the histories of an engine's state, and what holds in all of them.
use graphics_engine.Common.{
  ◌==◌, if◌then◌else◌, max_u64, ==_iff, Bool-cases, ℕ, ◌≤◌, ◌<◌, ◌≡◌, refl, sym, inl, inr, Bool,
  true, false, not, arith,
}
use graphics_engine.EngineState.{
  stopped, StateManager, new_manager, is_idle, validate_start, validate_next_generation,
  advance_generation, mark_running, enter_stopping, StopClaim, refused, waits, owned, claim_current,
  begin_stop, complete_stop, rollback_start, StartFault, no_fault, before_advance, after_advance,
  start_advanced, start_validated, start_from, start,
}

-- A section of `Start`, `Stop` or a task of a run. Tasks of a run are there until its stop completes,
-- so that one fails only while the engine runs or stops; a stop is completed by its owner.
pub data Step : StateManager → StateManager → Type 0 where
  starts : {x : StateManager} → (fault : StartFault) → Step x (start fault x).0
  begins_stop : {x : StateManager} → (observed : ℕ) → Step x (begin_stop observed x).1
  fails : {x : StateManager} → is_idle x.state ≡ false → Step x (enter_stopping x)
  completes_stop : {x : StateManager} → x.stop_in_progress ≡ true → Step x (complete_stop x)

pub data Steps : StateManager → StateManager → Type 0 where
  ends : {x : StateManager} → Steps x x
  goes : {x y z : StateManager} → Step x y → Steps y z → Steps x z

pub record IsSound (x : StateManager) : Type 0 where
  pub completed_bound : x.completed_stop_generation ≤ x.generation
  pub owner_runs : x.stop_in_progress ≡ true → is_idle x.state ≡ false
  pub owner_current : x.stop_in_progress ≡ true → x.active_stop_generation ≡ x.generation
  pub still_open : is_idle x.state ≡ false → x.completed_stop_generation < x.generation

pub new_manager-IsSound : IsSound new_manager
unfolding new_manager
new_manager-IsSound = record {
  completed_bound = omega arith;
  owner_runs = λ h. cc;
  owner_current = λ h. cc;
  still_open = λ h. cc;
}

-- What a start makes of the state of an idle engine.
pub data Started (x : StateManager) : StateManager → Type 0 where
  refuses : Started x x
  rolls_back : is_idle x.state ≡ true → Started x (rollback_start x)
  rolls_back_late : is_idle x.state ≡ true → Started x (rollback_start (advance_generation x))
  runs : is_idle x.state ≡ true → Started x (mark_running (advance_generation x))

start_advanced-Started :
    (fault : StartFault) (x : StateManager)
    → is_idle x.state ≡ true
    → Started x (start_advanced fault x).0
unfolding start_advanced
start_advanced-Started no_fault x y = runs y
start_advanced-Started before_advance x y = rolls_back y
start_advanced-Started after_advance x y = rolls_back_late y

pub start-Started : (fault : StartFault) (x : StateManager) → Started x (start fault x).0
unfolding start start_from start_validated start_advanced validate_start validate_next_generation
start-Started fault x = elim (Bool-cases (is_idle x.state)) [
  | inr n ↦ rw n refuses
  | inl y ↦ rw y (elim (Bool-cases (x.generation == max_u64)) [
    | inl full ↦ rw full (rolls_back y)
    | inr room ↦ rw room (start_advanced-Started fault x y)
  ])
]

-- What a call of `BeginStop` makes of it.
pub data Asked (observed : ℕ) (x : StateManager) : StopClaim × StateManager → Type 0 where
  idles : is_idle x.state ≡ true → Asked observed x (refused, record x { state = stopped })
  queues : x.stop_in_progress ≡ true → Asked observed x (waits, x)
  is_stale : Asked observed x (refused, x)
  claims :
      is_idle x.state ≡ false
      → x.stop_in_progress ≡ false
      → x.generation ≡ observed
      → Asked observed x (
        owned,
        enter_stopping (record x { stop_in_progress = true; active_stop_generation = observed }),
      )

if_split {ℓ ℓ'} :
    {A : Type ℓ} (P : A → Type ℓ') (b : Bool) (x y : A)
    → (b ≡ true → P x)
    → (b ≡ false → P y)
    → P (if b then x else y)
if_split P true x y f g = f refl
if_split P false x y f g = g refl

pub begin_stop-Asked : (observed : ℕ) (x : StateManager) → Asked observed x (begin_stop observed x)
unfolding begin_stop claim_current
begin_stop-Asked observed x = if_split (Asked observed x) (is_idle x.state) _ _ idles (λ n.
    if_split (Asked observed x) x.stop_in_progress _ _ queues (λ m.
      if_split (Asked observed x) (not (x.generation == observed)) _ _ (λ k. is_stale)
        (λ k. claims n m ((==_iff x.generation observed).0 (ground arith)))))

Started-IsSound : (x y : StateManager) → Started x y → IsSound x → IsSound y
unfolding rollback_start advance_generation mark_running
Started-IsSound x _ refuses s = s
Started-IsSound x _ (rolls_back y) s = record {
  completed_bound = omega arith;
  owner_runs = λ h. cc;
  owner_current = λ h. cc;
  still_open = λ h. cc;
}
Started-IsSound x _ (rolls_back_late y) s = record {
  completed_bound = omega arith;
  owner_runs = λ h. cc;
  owner_current = λ h. cc;
  still_open = λ h. cc;
}
Started-IsSound x _ (runs y) s =
    let idle : x.stop_in_progress ≡ true → ⊥ = λ h. let live = s.owner_runs h in cc in
    let old = s.completed_bound in
    record {
      completed_bound = omega arith;
      owner_runs = λ h. refl;
      owner_current = λ h. absurd (idle h);
      still_open = λ h. omega arith;
    }

pub Asked-IsSound :
    (observed : ℕ) (x : StateManager) (r : StopClaim × StateManager)
    → Asked observed x r
    → IsSound x
    → IsSound r.1
unfolding enter_stopping
Asked-IsSound observed x _ (idles y) s =
    let idle : x.stop_in_progress ≡ true → ⊥ = λ h. let live = s.owner_runs h in cc in
    record {
      completed_bound = s.completed_bound;
      owner_runs = λ h. absurd (idle h);
      owner_current = λ h. absurd (idle h);
      still_open = λ h. cc;
    }
Asked-IsSound observed x _ (queues y) s = s
Asked-IsSound observed x _ is_stale s = s
Asked-IsSound observed x _ (claims n m e) s = record {
  completed_bound = s.completed_bound;
  owner_runs = λ h. refl;
  owner_current = λ h. sym e;
  still_open = λ h. s.still_open n;
}

pub Step-IsSound : (x y : StateManager) → Step x y → IsSound x → IsSound y
unfolding enter_stopping complete_stop
Step-IsSound x _ (starts fault) s = Started-IsSound x (start fault x).0 (start-Started fault x) s
Step-IsSound x _ (begins_stop observed) s =
    Asked-IsSound observed x (begin_stop observed x) (begin_stop-Asked observed x) s
Step-IsSound x _ (fails live) s = record {
  completed_bound = s.completed_bound;
  owner_runs = λ h. refl;
  owner_current = s.owner_current;
  still_open = λ h. s.still_open live;
}
Step-IsSound x _ (completes_stop h) s =
    let current = s.owner_current h in
    record {
      completed_bound = omega arith;
      owner_runs = λ h. cc;
      owner_current = λ h. cc;
      still_open = λ h. cc;
    }

pub Steps-IsSound : (x y : StateManager) → Steps x y → IsSound x → IsSound y
Steps-IsSound x _ ends s = s
Steps-IsSound x y (goes {y = m} a rest) s = Steps-IsSound m y rest (Step-IsSound x m a s)
