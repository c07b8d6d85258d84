-- ===== src/MainExecutor/Tests.antt =====
-- Concrete runs of the main executor's queue.
use graphics_engine.Common.{
  length, get_or, ℕ, ◌-◌, ◌≤◌, ◌≡◌, refl, true, Option, none, some, List, [], ◌∷◌,
}
use graphics_engine.MainExecutor.{
  FrameOrigin, Command, frame_burst_limit, Executor, new_executor, post, no_command, remove_at,
  next_burst, dispatch,
}
use graphics_engine.MainExecutor.Selection.{IsNext, dispatch-IsNext}
use graphics_engine.MainExecutor.Fairness.{
  Event, posted, dispatches, after_event, commands_of, dispatched_commands,
  dispatched_commands-bound,
}

abbrev framed_at : ℕ → Option FrameOrigin
framed_at frame = some (record { run_generation = 1; frame_sequence = frame })

abbrev command_at : Option FrameOrigin → ℕ → Command
command_at origin ticket = record { origin = origin; ticket = ticket }

abbrev busy_queue : List Command
busy_queue = command_at (framed_at 5) 0 ∷ command_at none 1 ∷ command_at (framed_at 4) 2 ∷ []

busy : ℕ → Executor
unfolding new_executor
busy burst = record new_executor {
  is_running = true;
  run = 1;
  queue = busy_queue;
  frame_burst = burst;
  next_ticket = 3;
}

abbrev ticket_of : Option (Command × Executor) → ℕ
ticket_of none = 99
ticket_of (some (c, x)) = c.ticket

-- The older frame's command is taken, though it was posted later.
takes_oldest : ticket_of (dispatch (busy 7)) ≡ 2
unfolding dispatch busy
takes_oldest = refl

takes_unframed : ticket_of (dispatch (busy 8)) ≡ 1
unfolding dispatch busy
takes_unframed = refl

abbrev after : Option (Command × Executor) → Executor
after none = busy 0
after (some (c, x)) = x

dispatch-IsNext_example :
    (place : ℕ) × IsNext busy_queue 7 place
    × (command_at (framed_at 4) 2 ≡ get_or busy_queue place no_command)
    × ((after (dispatch (busy 7))).queue ≡ remove_at place busy_queue)
    × ((after (dispatch (busy 7))).frame_burst ≡ next_burst (framed_at 4) 7)
unfolding dispatch busy
dispatch-IsNext_example =
    dispatch-IsNext (busy 7) (after (dispatch (busy 7))) (command_at (framed_at 4) 2) refl

-- A command of frame 3 is posted to a queue with one place left in the burst.
abbrev history : List Event
history = posted true 1 (framed_at 3) ∷ dispatches ∷ []

dispatched_commands-bound_example :
    length (dispatched_commands history (busy 7)) ≤ frame_burst_limit - 7
unfolding dispatched_commands commands_of after_event post dispatch busy
dispatched_commands-bound_example = dispatched_commands-bound history (busy 7) refl refl
