-- ===== src/MainExecutor.antt =====
-- application/runtime/main_executor.h and .cpp: the queue of commands that other threads post to the
-- main thread. Each critical section of a method is a function on the state. A command is a ticket, by
-- which the state of its shared completion is found; what it does, and whether it throws, is outside.
pub mod Scanning
pub mod Selection
pub mod Fairness
mod Tests
use graphics_engine.Common.{
  ltb, leb, ◌==◌, if◌then◌else◌, max_u64, length, get_or, invalid_argument, invalid_state, Result,
  ok, throw_if, ◌>>=◌, ◌>>◌, ℕ, zero, suc, ◌+◌, ◌-◌, min, Bool, true, false, not, ◌&&◌, ◌||◌,
  Option, none, some, List, [], ◌∷◌, ◌++◌,
}

pub record FrameOrigin : Type 0 where
  pub run_generation : ℕ
  pub frame_sequence : ℕ

pub data CommandState : Type 0 where
  queued running completed failed skipped : CommandState

unfoldable pub is_over : CommandState → Bool
is_over completed = true
is_over failed = true
is_over skipped = true
is_over _ = false

pub record Command : Type 0 where
  pub origin : Option FrameOrigin
  pub ticket : ℕ

abbrev pub frame_burst_limit : ℕ
frame_burst_limit = 8

-- The times of the diagnostics are left out.
pub record Executor : Type 0 where
  pub queue : List Command
  pub has_wakeup : Bool
  pub run : ℕ
  pub stopping : ℕ
  pub frame_burst : ℕ
  pub is_running : Bool
  pub is_draining : Bool
  pub peak_depth : ℕ
  pub dispatched : ℕ
  pub last_origin : Option FrameOrigin
  pub completions : ℕ → CommandState
  pub next_ticket : ℕ

unfoldable pub new_executor : Executor
new_executor = record {
  queue = [];
  has_wakeup = false;
  run = 0;
  stopping = 0;
  frame_burst = 0;
  is_running = false;
  is_draining = false;
  peak_depth = 0;
  dispatched = 0;
  last_origin = none;
  completions = λ ticket. queued;
  next_ticket = 0;
}

unfoldable pub start_run : Bool → Bool → Executor → Result Executor
start_run is_consumer wakeup x = do
  throw_if (not is_consumer) invalid_state
  throw_if (x.is_running || (x.is_draining || (not (x.stopping == 0) || x.run == max_u64)))
      invalid_state
  ok (record x {
    has_wakeup = wakeup;
    run = x.run + 1;
    is_running = true;
    frame_burst = 0;
    peak_depth = 0;
    dispatched = 0;
    last_origin = none;
  })

-- `Finish`, on the completion of a command.
unfoldable pub finish_command : ℕ → CommandState → Executor → Executor
finish_command ticket state x = record x {
  completions = λ t. if ticket == t then state else x.completions t;
}

-- The first critical section of `Stop`: the commands that it skips, and the state.
unfoldable pub begin_stop : Executor → List Command × Executor
begin_stop x = (
  x.queue,
  record x { stopping = x.stopping + 1; is_running = false; queue = []; has_wakeup = false },
)

unfoldable pub skip_all : List Command → Executor → Executor
unfolding finish_command
skip_all [] x = x
skip_all (c ∷ cs) x = skip_all cs (finish_command c.ticket skipped x)

unfoldable pub end_stop : Executor → Executor
end_stop x = record x { stopping = x.stopping - 1 }

abbrev pub larger : ℕ → ℕ → ℕ
larger a b = if ltb a b then b else a

-- `Post`: the ticket of the command, which was queued, or skipped where its run is over.
unfoldable pub post : Bool → ℕ → Option FrameOrigin → Executor → Result (ℕ × Executor)
unfolding finish_command
post has_body run origin x = do
  throw_if (not has_body) invalid_argument
  throw_if (x.run == 0) invalid_state
  ok (
    x.next_ticket,
    let ticketed : Executor = record x { next_ticket = x.next_ticket + 1 } in
        let longer = x.queue ++ record { origin = origin; ticket = x.next_ticket } ∷ [] in
        if x.is_running && run == x.run
        then record (finish_command x.next_ticket queued ticketed) {
          queue = longer;
          peak_depth = larger x.peak_depth (length longer);
        }
        else finish_command x.next_ticket skipped ticketed,
  )

unfoldable pub begin_drain : Bool → Executor → Result Executor
begin_drain is_consumer x = do
  throw_if (not is_consumer) invalid_state
  throw_if x.is_draining invalid_state
  ok (record x { is_draining = true })

unfoldable pub end_drain : Executor → Executor
end_drain x = record x { is_draining = false }

-- The two iterators of the loop of `Drain` over the queue, as places.
pub record Choice : Type 0 where
  pub selected : Option (ℕ × FrameOrigin)
  pub unframed : Option ℕ

abbrev pub is_older : FrameOrigin → FrameOrigin → Bool
is_older a b =
    ltb a.run_generation b.run_generation
    || a.run_generation == b.run_generation && ltb a.frame_sequence b.frame_sequence

abbrev pub precedes : FrameOrigin → Option (ℕ × FrameOrigin) → Bool
precedes origin none = true
precedes origin (some (place, best)) = is_older origin best

abbrev pub first_of : Option ℕ → ℕ → Option ℕ
first_of none place = some place
first_of (some first) place = some first

unfoldable pub consider : ℕ → Option FrameOrigin → Choice → Choice
consider place none c = record c { unframed = first_of c.unframed place }
consider place (some origin) c =
    if precedes origin c.selected then record c { selected = some (place, origin) } else c

unfoldable pub scan_queue : ℕ → List Command → Choice → Choice
unfolding consider
scan_queue place [] c = c
scan_queue place (command ∷ commands) c =
    scan_queue (suc place) commands (consider place command.origin c)

unfoldable pub choose_place : ℕ → Option (ℕ × FrameOrigin) → Option ℕ → Option ℕ
choose_place burst none unframed = unframed
choose_place burst (some (place, origin)) none = some place
choose_place burst (some (place, origin)) (some first) =
    some (if leb frame_burst_limit burst then first else place)

abbrev pub no_choice : Choice
no_choice = record { selected = none; unframed = none }

abbrev pub no_command : Command
no_command = record { origin = none; ticket = 0 }

unfoldable pub remove_at : ℕ → List Command → List Command
remove_at place [] = []
remove_at zero (c ∷ cs) = cs
remove_at (suc place) (c ∷ cs) = c ∷ remove_at place cs

abbrev pub next_burst : Option FrameOrigin → ℕ → ℕ
next_burst none burst = 0
next_burst (some origin) burst = min frame_burst_limit (burst + 1)

abbrev pub dispatch_at : Option ℕ → Executor → Option (Command × Executor)
dispatch_at none x = none
dispatch_at (some place) x =
    let c = get_or x.queue place no_command in
    some (
      c,
      record x {
        queue = remove_at place x.queue;
        frame_burst = next_burst c.origin x.frame_burst;
        dispatched = x.dispatched + 1;
        last_origin = c.origin;
        completions = λ t. if c.ticket == t then running else x.completions t;
      },
    )

-- The critical section of a round of `Drain`: the command that it takes, if there is one.
unfoldable pub dispatch : Executor → Option (Command × Executor)
unfolding scan_queue choose_place remove_at
dispatch x =
    let choice = scan_queue 0 x.queue no_choice in
    let taken = dispatch_at (choose_place x.frame_burst choice.selected choice.unframed) x in
    if x.is_running then taken else none
