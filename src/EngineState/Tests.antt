-- ===== src/EngineState/Tests.antt =====
-- Concrete runs of the engine's state.
use graphics_engine.Common.{◌≡◌, refl, ◌⊎◌, true}
use graphics_engine.EngineState.{
  StateManager, new_manager, validate_start, validate_next_generation, advance_generation,
  mark_running, enter_stopping, refused, owned, claim_current, begin_stop, is_wait_over,
  complete_stop, no_fault, start_advanced, start_validated, start_from, start,
}
use graphics_engine.EngineState.Steps.{starts, completes_stop, ends, goes}
use graphics_engine.EngineState.Ownership.{stop_owned_once}

abbrev runs_first : StateManager
runs_first = (start no_fault new_manager).0

abbrev stops : StateManager
stops = (begin_stop 1 runs_first).1

abbrev runs_again : StateManager
runs_again = (start no_fault (complete_stop stops)).0

-- A late call for the first run does not stop the second one.
stale_stop : (begin_stop 1 runs_again).0 ≡ refused
unfolding start start_from start_validated start_advanced begin_stop claim_current complete_stop
    new_manager validate_start validate_next_generation advance_generation mark_running
    enter_stopping
stale_stop = refl

stop_owned_once_example :
    ((begin_stop 1 runs_again).0 ≡ owned → ⊥)
    × (((runs_again.stop_in_progress ≡ true) × (runs_again.generation ≡ 1))
        ⊎ (is_wait_over 1 runs_again ≡ true))
unfolding start start_from start_validated start_advanced begin_stop claim_current complete_stop
    new_manager validate_start validate_next_generation advance_generation mark_running
    enter_stopping
stop_owned_once_example =
    stop_owned_once 1 runs_first stops runs_again (goes (starts no_fault) ends) refl
      (goes (completes_stop refl) (goes (starts no_fault) ends))
