-- ===== src/EngineState.antt =====
-- engine/runtime/engine_state_manager.h and .cpp, and the sections of engine/engine.cpp that call it.
-- All methods run under the engine's mutex; a wait on the condition is a result of its own.
pub mod Ownership
pub mod Steps
mod Tests
use graphics_engine.Common.{
  leb, ◌==◌, if◌then◌else◌, max_u64, invalid_state, out_of_memory, Result, err, ok, throw_if, ◌>>=◌,
  ◌>>◌, ℕ, ◌+◌, Bool, true, false, not, ◌||◌,
}

pub data EngineState : Type 0 where
  created running stopping stopped : EngineState

pub record StateManager : Type 0 where
  pub state : EngineState
  pub stop_in_progress : Bool
  pub generation : ℕ
  pub generation_snapshot : ℕ
  pub active_stop_generation : ℕ
  pub completed_stop_generation : ℕ

unfoldable pub new_manager : StateManager
new_manager = record {
  state = created;
  stop_in_progress = false;
  generation = 0;
  generation_snapshot = 0;
  active_stop_generation = 0;
  completed_stop_generation = 0;
}

abbrev pub is_idle : EngineState → Bool
is_idle created = true
is_idle stopped = true
is_idle _ = false

abbrev pub is_running : EngineState → Bool
is_running running = true
is_running _ = false

unfoldable pub validate_start : StateManager → Result (Unit {0})
validate_start x = do throw_if (not (is_idle x.state)) invalid_state; ok tt

unfoldable pub validate_next_generation : StateManager → Result (Unit {0})
validate_next_generation x = do throw_if (x.generation == max_u64) invalid_state; ok tt

unfoldable pub advance_generation : StateManager → StateManager
advance_generation x = record x {
  generation = x.generation + 1;
  generation_snapshot = x.generation + 1;
}

unfoldable pub mark_running : StateManager → StateManager
mark_running x = record x { state = running }

unfoldable pub enter_stopping : StateManager → StateManager
enter_stopping x = record x { state = stopping }

unfoldable pub require_running : StateManager → Result (Unit {0})
require_running x = do throw_if (not (is_running x.state)) invalid_state; ok tt

-- What a caller of `BeginStop` gets: nothing to do, a wait, or the cleanup.
pub data StopClaim : Type 0 where
  refused waits owned : StopClaim

unfoldable pub claim_current : ℕ → StateManager → StopClaim × StateManager
unfolding enter_stopping
claim_current observed x = if not (x.generation == observed) then (refused, x) else (
  owned,
  enter_stopping (record x { stop_in_progress = true; active_stop_generation = observed }),
)

unfoldable pub begin_stop : ℕ → StateManager → StopClaim × StateManager
unfolding claim_current
begin_stop observed x =
    if is_idle x.state
    then (refused, record x { state = stopped })
    else if x.stop_in_progress
    then (waits, x)
    else claim_current observed x

-- The condition that ends the wait of a caller.
unfoldable pub is_wait_over : ℕ → StateManager → Bool
is_wait_over observed x = not x.stop_in_progress || leb observed x.completed_stop_generation

unfoldable pub complete_stop : StateManager → StateManager
complete_stop x = record x {
  state = stopped;
  stop_in_progress = false;
  completed_stop_generation = x.active_stop_generation;
}

unfoldable pub rollback_start : StateManager → StateManager
rollback_start x = record x {
  state = stopped;
  stop_in_progress = false;
  active_stop_generation = x.generation;
  completed_stop_generation = x.generation;
}

-- Where in `Engine::Start` an allocation may fail; its error is taken as `out_of_memory`.
pub data StartFault : Type 0 where
  no_fault before_advance after_advance : StartFault

unfoldable pub start_advanced : StartFault → StateManager → StateManager × Result (Unit {0})
unfolding advance_generation mark_running rollback_start
start_advanced no_fault x = (mark_running (advance_generation x), ok tt)
start_advanced before_advance x = (rollback_start x, err out_of_memory)
start_advanced after_advance x = (rollback_start (advance_generation x), err out_of_memory)

unfoldable pub start_validated :
    Result (Unit {0}) → StartFault → StateManager → StateManager × Result (Unit {0})
unfolding start_advanced rollback_start
start_validated (err thrown) fault x = (rollback_start x, err thrown)
start_validated (ok done) fault x = start_advanced fault x

unfoldable pub start_from :
    Result (Unit {0}) → StartFault → StateManager → StateManager × Result (Unit {0})
unfolding start_validated validate_next_generation
start_from (err thrown) fault x = (x, err thrown)
start_from (ok done) fault x = start_validated (validate_next_generation x) fault x

-- `Engine::Start`, as far as its state manager goes.
unfoldable pub start : StartFault → StateManager → StateManager × Result (Unit {0})
unfolding start_from validate_start
start fault x = start_from (validate_start x) fault x
