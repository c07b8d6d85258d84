-- ===== src/Frame/Tests.antt =====
-- engine/controller/frame_scheduler.cpp: runs of the scheduler with two slots.
use graphics_engine.Common.{
  ◌+◌, invalid_state, ◌<◌, ◌≡◌, refl, ◌≢◌, inr, ok, err, arith, Error, List, [], ◌∷◌, some, true,
  max_u64,
}
use graphics_engine.Frame.Types.{
  free, acquired, waiting_update, gpu_in_flight, FrameHandle, timeout, World, Slot, has_signaled,
}
use graphics_engine.Frame.Slot.{
  arms, aborts, call, acquire, configure, validate, transition, arm, abort, reset_frame_data,
  get_simulation_started_at, reset_arena, should_release_draw_checkpoint_on_abort,
}
use graphics_engine.Frame.Slot.Laws.{SlotInv, Matches, call-Matches}
use graphics_engine.Frame.Scheduler.{
  Scheduler, draw, create, new_scheduler, configured_slots, acquire_owner_id, slot_at, get_slot,
  on_slot, next_slot, hand_out, after_acquire, try_acquire_frame, release_from, release_checkpoint,
  abort_frame, Call, acquires, use_frame, run,
}
use graphics_engine.Frame.Scheduler.Invariant.{Inv}
use graphics_engine.Frame.Scheduler.Acquires.{CanAcquire, try_acquire_frame-Inv}
use graphics_engine.Frame.Scheduler.Aborts.{abort_frame-err}
use graphics_engine.Frame.Scheduler.History.{create-Inv, run-Inv}
use graphics_engine.Frame.Scheduler.Stale.{frame_over}
use graphics_engine.Frame.Scheduler.Progress.{
  next_call, Advances, next_call-Advances, try_acquire_frame-some, try_acquire_frame-CanAcquire,
}

abbrev two_slots : Scheduler
two_slots = new_scheduler 1 2

-- No future has been signaled.
abbrev idle : World
idle f = timeout

abbrev frame : FrameHandle
frame = record {
  owner_id = 1;
  application_frame_index = 0;
  simulation_index = 0;
  frame_slot_index = 0;
  generation = 1;
}

abbrev later : List (World × Call)
later = (idle, acquires 7) ∷ []

abbrev busy : Scheduler
busy = (try_acquire_frame two_slots 5).0

create-two_slots : create 1 2 ≡ (2, ok two_slots)
unfolding create acquire_owner_id
create-two_slots = refl

create-Inv_example : Inv two_slots
create-Inv_example = create-Inv 1 2 create-two_slots (omega arith)

two_slots-Inv : Inv two_slots
two_slots-Inv = create-Inv 1 2 create-two_slots (omega arith)

busy-Inv : Inv busy
busy-Inv = try_acquire_frame-Inv two_slots 5 two_slots-Inv

acquire_example : (try_acquire_frame two_slots 5).1 ≡ ok (some frame)
unfolding try_acquire_frame hand_out after_acquire new_scheduler configured_slots configure acquire
    get_simulation_started_at validate reset_arena
acquire_example = refl

abort_example : (use_frame idle busy frame aborts).1 ≡ ok tt
unfolding try_acquire_frame hand_out after_acquire new_scheduler configured_slots configure acquire
    get_simulation_started_at validate use_frame abort_frame release_checkpoint release_from
    get_slot on_slot call abort reset_frame_data should_release_draw_checkpoint_on_abort
abort_example = refl

run-Inv_example : Inv (run busy later)
run-Inv_example = run-Inv busy later busy-Inv

frame_over_example :
    let t = run (use_frame idle busy frame aborts).0 later in
    (e : Error) × (use_frame idle t frame arms ≡ (t, err e))
frame_over_example =
    frame_over idle busy frame aborts busy-Inv (omega arith) (inr refl) abort_example later idle
      arms

try_acquire_frame-some_example :
    let t = (try_acquire_frame two_slots 5).0 in
    let x = slot_at t frame.frame_slot_index in
    Matches x frame
    × (x.state ≡ acquired)
    × (frame.application_frame_index ≡ two_slots.next_application_frame_index)
    × (frame.frame_slot_index ≡ next_slot two_slots)
    × (frame.generation ≡ (slot_at two_slots (next_slot two_slots)).generation + 1)
    × (t.next_application_frame_index ≡ two_slots.next_application_frame_index + 1)
    × (t.next_checkpoint ≡ draw)
try_acquire_frame-some_example =
    try_acquire_frame-some two_slots 5 frame two_slots-Inv acquire_example

two_slots-CanAcquire : CanAcquire two_slots
unfolding new_scheduler configured_slots configure
two_slots-CanAcquire = record {
  checkpoint = refl;
  frames = omega arith;
  simulations = omega arith;
  idle = refl;
}

two_slots_fresh : (slot_at two_slots (next_slot two_slots)).generation < max_u64
unfolding new_scheduler configured_slots configure
two_slots_fresh = omega arith

try_acquire_frame-CanAcquire_example :
    (h : FrameHandle) × ((try_acquire_frame two_slots 5).1 ≡ ok (some h))
try_acquire_frame-CanAcquire_example =
    try_acquire_frame-CanAcquire two_slots 5 two_slots-Inv two_slots-CanAcquire two_slots_fresh

busy_arms_early : (abort_frame idle two_slots frame).1 ≡ err invalid_state
unfolding new_scheduler configured_slots configure abort_frame release_checkpoint release_from
    get_slot on_slot call abort validate
busy_arms_early = refl

abort_frame-err_example : (abort_frame idle two_slots frame).0 ≡ two_slots
abort_frame-err_example =
    abort_frame-err idle two_slots frame invalid_state two_slots-Inv busy_arms_early

abbrev busy_slot : Slot
busy_slot = slot_at busy 0

busy_slot-Matches : Matches busy_slot frame
busy_slot-Matches = (try_acquire_frame-some two_slots 5 frame two_slots-Inv acquire_example).0

busy_slot-acquired : busy_slot.state ≡ acquired
unfolding try_acquire_frame hand_out after_acquire new_scheduler configured_slots configure acquire
    get_simulation_started_at validate reset_arena
busy_slot-acquired = refl

busy_slot-busy : busy_slot.state ≢ free
busy_slot-busy e = cc (e, busy_slot-acquired)

busy_slot-grounded :
    busy_slot.state ≡ gpu_in_flight → has_signaled idle busy_slot.gpu_completion ≡ true
busy_slot-grounded e = cc (e, busy_slot-acquired)

busy_first : 0 < busy.max_active_frames
unfolding try_acquire_frame hand_out after_acquire new_scheduler configured_slots configure acquire
    get_simulation_started_at validate reset_arena
busy_first = omega arith

busy_slot-SlotInv : SlotInv busy_slot
busy_slot-SlotInv = (busy-Inv.slot_ok 0 busy_first).inv

next_call-Advances_example : Advances busy_slot (call idle busy_slot frame (next_call busy_slot))
next_call-Advances_example =
    next_call-Advances idle busy_slot frame busy_slot-Matches busy_slot-SlotInv busy_slot-busy
      busy_slot-grounded

abbrev armed_slot : Slot
armed_slot = record busy_slot { state = waiting_update }

arm_example : call idle busy_slot frame arms ≡ ok armed_slot
unfolding call arm transition validate try_acquire_frame hand_out after_acquire new_scheduler
    configured_slots configure acquire get_simulation_started_at
arm_example = refl

call-Matches_example : Matches busy_slot frame
call-Matches_example = call-Matches idle busy_slot frame arms arm_example
