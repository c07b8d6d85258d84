-- ===== src/Frame/Slot.antt =====
-- engine/controller/frame_scheduler.cpp: the methods of `FrameExecutionSlot`. Each one makes all its
-- tests before its first write, so a throw is an error value and leaves the slot as it was.
pub mod Laws
pub mod Graph
use graphics_engine.Common.{
  ℕ, suc, ◌+◌, Bool, true, false, not, ◌&&◌, ◌||◌, Option, none, some, List, [], ◌∷◌, ℤ, pos, sub_ℕ,
  Result, ok, err, ◌>>=◌, ◌>>◌, throw_if, invalid_argument, invalid_state, ◌==◌, if◌then◌else◌,
  max_u64, u64,
}
use graphics_engine.Frame.Types.{
  FrameState, free, acquired, waiting_update, updating, waiting_draw, finalize, submitted,
  gpu_in_flight, complete, state_eq, invalid_index, FrameHandle, is_valid, FrameSignal, no_signal,
  World, is_external, has_signaled, Slot,
}

unfoldable pub configure : Slot → ℕ → ℕ → Slot
configure s owner_id slot_index = record s { owner_id = owner_id; slot_index = slot_index }

abbrev pub is_free : Slot → Bool
is_free s = state_eq s.state free

abbrev pub elapsed : Option ℕ → ℕ → ℤ
elapsed none now = pos 0
elapsed (some previous) now = sub_ℕ now previous

-- The slot after `Acquire`, at the time `now`.
abbrev pub acquired_slot : Slot → ℕ → ℕ → Option ℕ → ℕ → Slot
acquired_slot s app sim previous now = record s {
  generation = u64 (s.generation + 1);
  application_frame_index = app;
  simulation_index = sim;
  state = acquired;
  update_signal = record {
    is_set = true;
    generation = u64 (s.generation + 1);
    application_frame_index = app;
    simulation_index = sim;
  };
  draw_signal = no_signal;
  simulation_started_at = some now;
  delta_time = elapsed previous now;
}

-- The handle that `Acquire` returns: of the fields as they now stand.
abbrev pub handle_of : Slot → FrameHandle
handle_of s = record {
  owner_id = s.owner_id;
  application_frame_index = s.application_frame_index;
  simulation_index = s.simulation_index;
  frame_slot_index = s.slot_index;
  generation = s.generation;
}

unfoldable pub acquire : Slot → ℕ → ℕ → Option ℕ → ℕ → Result (Slot × FrameHandle)
acquire s app sim previous now = do
  throw_if (not (is_free s)) invalid_state
  throw_if (s.generation == max_u64) invalid_state
  let s' = acquired_slot s app sim previous now
  ok (s', handle_of s')

unfoldable pub validate : Slot → FrameHandle → Result (Unit {0})
validate s h = do
  throw_if (not (is_valid h)) invalid_argument
  throw_if (not (h.owner_id == s.owner_id)) invalid_argument
  throw_if (not (h.frame_slot_index == s.slot_index)) invalid_argument
  throw_if
      (not (s.application_frame_index == h.application_frame_index)
        || not (s.simulation_index == h.simulation_index)
        || not (s.generation == h.generation))
      invalid_state

unfoldable pub transition : Slot → FrameHandle → FrameState → FrameState → Result Slot
transition s h expected next = do
  validate s h
  throw_if (not (state_eq s.state expected)) invalid_state
  ok (record s { state = next })

-- `FrameArena::Reset`: destroys from the back, and answers the objects in the order of destruction.
unfoldable pub reset_arena : List ℕ → List ℕ × List ℕ
reset_arena [] = ([], [])
reset_arena (x ∷ xs) = let rest = reset_arena xs in (rest.0, x ∷ rest.1)

unfoldable pub reset_frame_data : Slot → Slot
unfolding reset_arena
reset_frame_data s = record s {
  gpu_completion = none;
  destructors = (reset_arena s.destructors).0;
  application_frame_index = invalid_index;
  simulation_index = invalid_index;
  update_signal = no_signal;
  draw_signal = no_signal;
  simulation_started_at = none;
  delta_time = pos 0;
  state = free;
}

-- `Emplace<T>`: an object whose destructor is trivial leaves no record; a constructor that throws
-- leaves the arena as it was.
unfoldable pub emplace : Slot → FrameHandle → ℕ → Bool → Result Slot
emplace s h object is_trivial = do
  validate s h
  ok (if is_trivial then s else record s { destructors = object ∷ s.destructors })

unfoldable pub signal_draw : Slot → FrameHandle → Result Slot
signal_draw s h = do
  validate s h
  throw_if (not s.update_signal.is_set || not (s.update_signal.generation == h.generation))
      invalid_state
  throw_if s.draw_signal.is_set invalid_state
  ok (record s {
    draw_signal = record {
      is_set = true;
      generation = s.generation;
      application_frame_index = s.application_frame_index;
      simulation_index = s.simulation_index;
    };
  })

unfoldable pub arm : Slot → FrameHandle → Result Slot
unfolding transition
arm s h = transition s h acquired waiting_update

unfoldable pub begin_update : Slot → FrameHandle → Result Slot
unfolding transition
begin_update s h = transition s h waiting_update updating

unfoldable pub end_update : Slot → FrameHandle → Result Slot
unfolding transition
end_update s h = transition s h updating waiting_draw

unfoldable pub begin_finalize : Slot → FrameHandle → Result Slot
unfolding transition
begin_finalize s h = do
  validate s h
  throw_if (not s.draw_signal.is_set || not (s.draw_signal.generation == h.generation))
      invalid_state
  transition s h waiting_draw finalize

unfoldable pub complete_frame : Slot → FrameHandle → Result Slot
unfolding transition
complete_frame s h = transition s h finalize complete

unfoldable pub mark_submitted : World → Slot → FrameHandle → Option ℕ → Result Slot
unfolding transition
mark_submitted world s h completion = do
  throw_if (not (is_external world completion)) invalid_argument
  s' ← transition s h finalize submitted
  ok (record s' { gpu_completion = completion })

unfoldable pub get_gpu_completion : Slot → FrameHandle → Result (Option ℕ)
get_gpu_completion s h = do validate s h; ok s.gpu_completion

unfoldable pub begin_gpu : Slot → FrameHandle → Result Slot
unfolding transition
begin_gpu s h = transition s h submitted gpu_in_flight

unfoldable pub complete_gpu : World → Slot → FrameHandle → Result Slot
unfolding transition
complete_gpu world s h = do
  validate s h
  throw_if (not (has_signaled world s.gpu_completion)) invalid_state
  transition s h gpu_in_flight complete

unfoldable pub recycle : Slot → FrameHandle → Result Slot
unfolding reset_frame_data
recycle s h = do
  validate s h
  throw_if (not (state_eq s.state complete)) invalid_state
  ok (reset_frame_data s)

unfoldable pub abort : Slot → FrameHandle → Result Slot
unfolding reset_frame_data
abort s h = do
  validate s h
  throw_if (state_eq s.state free || state_eq s.state submitted || state_eq s.state gpu_in_flight)
      invalid_state
  ok (reset_frame_data s)

unfoldable pub should_release_draw_checkpoint_on_abort : Slot → FrameHandle → ℕ → Result Bool
should_release_draw_checkpoint_on_abort s h next = do
  validate s h
  ok (not s.draw_signal.is_set && u64 (s.application_frame_index + 1) == next)

unfoldable pub get_state : Slot → FrameHandle → Result FrameState
get_state s h = do validate s h; ok s.state

unfoldable pub get_delta_time : Slot → FrameHandle → Result ℤ
get_delta_time s h = do validate s h; ok s.delta_time

-- `*m_simulationStartedAt`, kept optional.
unfoldable pub get_simulation_started_at : Slot → FrameHandle → Result (Option ℕ)
get_simulation_started_at s h = do validate s h; ok s.simulation_started_at

-- The calls that change a slot through a frame's handle.
pub data SlotCall : Type 0 where
  draws arms begins_update ends_update begins_finalize completes : SlotCall
  submits : Option ℕ → SlotCall
  begins_gpu completes_gpu recycles aborts : SlotCall
  emplaces : ℕ → Bool → SlotCall

unfoldable pub call : World → Slot → FrameHandle → SlotCall → Result Slot
unfolding signal_draw arm begin_update end_update begin_finalize complete_frame mark_submitted
    begin_gpu complete_gpu recycle abort emplace
call world s h draws = signal_draw s h
call world s h arms = arm s h
call world s h begins_update = begin_update s h
call world s h ends_update = end_update s h
call world s h begins_finalize = begin_finalize s h
call world s h completes = complete_frame s h
call world s h (submits completion) = mark_submitted world s h completion
call world s h begins_gpu = begin_gpu s h
call world s h completes_gpu = complete_gpu world s h
call world s h recycles = recycle s h
call world s h aborts = abort s h
call world s h (emplaces object is_trivial) = emplace s h object is_trivial
