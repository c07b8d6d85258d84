-- ===== src/Frame/Scheduler.antt =====
-- engine/controller/frame_scheduler.cpp: the methods of `FrameScheduler`. Each runs under the mutex,
-- so a history is a sequence of calls; the model of a call returns the scheduler that it leaves
-- behind, after a throw too.
pub mod Invariant
pub mod Steps
pub mod Aborts
pub mod Acquires
pub mod History
pub mod Stale
pub mod Progress
use graphics_engine.Common.{
  ℕ, zero, suc, ◌+◌, ◌%◌, Bool, true, false, not, ◌&&◌, Option, none, some, List, [], ◌∷◌, get_or,
  set, Result, ok, err, ◌>>=◌, ◌>>◌, throw_if, invalid_argument, invalid_state, ◌==◌, leb,
  if◌then◌else◌, max_u64, u64, ℤ,
}
use graphics_engine.Frame.Types.{
  FrameState, invalid_index, FrameHandle, is_valid, World, Slot, default_slot,
}
use graphics_engine.Frame.Slot.{
  configure, is_free, acquire, should_release_draw_checkpoint_on_abort, get_state, get_delta_time,
  get_gpu_completion, get_simulation_started_at, SlotCall, draws, aborts, call,
}

pub data Checkpoint : Type 0 where
  update draw : Checkpoint

abbrev pub is_update : Checkpoint → Bool
is_update update = true
is_update draw = false

pub record Scheduler : Type 0 where
  pub owner_id : ℕ
  pub max_active_frames : ℕ
  pub slots : List Slot
  pub next_checkpoint : Checkpoint
  pub next_application_frame_index : ℕ
  pub next_simulation_index : ℕ
  pub previous_simulation_started_at : Option ℕ

-- The identity counter is atomic: a successful exchange answers the counter and moves it on.
unfoldable pub acquire_owner_id : ℕ → Result (ℕ × ℕ)
acquire_owner_id next = do throw_if (next == max_u64) invalid_state; ok (next, u64 (next + 1))

unfoldable pub configured_slots : ℕ → ℕ → ℕ → List Slot
configured_slots owner_id slot_index zero = []
configured_slots owner_id slot_index (suc rest) =
    configure default_slot owner_id slot_index ∷ configured_slots owner_id (slot_index + 1) rest

-- The members after the constructor has configured the slots.
unfoldable pub new_scheduler : ℕ → ℕ → Scheduler
new_scheduler owner_id max_active_frames = record {
  owner_id = owner_id;
  max_active_frames = max_active_frames;
  slots = configured_slots owner_id 0 max_active_frames;
  next_checkpoint = update;
  next_application_frame_index = 0;
  next_simulation_index = 0;
  previous_simulation_started_at = none;
}

-- The constructor, and the identity counter that it leaves, which has moved on where it is the number
-- of slots that is refused.
unfoldable pub create : ℕ → ℕ → ℕ × Result Scheduler
unfolding acquire_owner_id
create next max_active_frames = elim (acquire_owner_id next) [
  | err e ↦ (next, err e)
  | ok (owner_id, next') ↦ (
    next',
    if max_active_frames == 0
        then err invalid_argument
        else ok (new_scheduler owner_id max_active_frames),
  )
]

-- `m_slots[index]`; the index is always in range when the scheduler is well formed.
abbrev pub slot_at : Scheduler → ℕ → Slot
slot_at s i = get_or s.slots i default_slot

unfoldable pub get_slot : Scheduler → FrameHandle → Result Slot
get_slot s h = do
  throw_if (not (is_valid h)) invalid_argument
  throw_if (not (h.owner_id == s.owner_id)) invalid_argument
  throw_if (leb s.max_active_frames h.frame_slot_index) invalid_argument
  ok (slot_at s h.frame_slot_index)

abbrev put_slot : Scheduler → ℕ → Slot → Scheduler
put_slot s i slot = record s { slots = set s.slots i slot }

-- A call that finds the frame's slot and changes that alone.
unfoldable pub on_slot : World → Scheduler → FrameHandle → SlotCall → Scheduler × Result (Unit {0})
on_slot world s h c = elim (get_slot s h) [
  | err e ↦ (s, err e)
  | ok slot ↦ elim (call world slot h c) [
    | err e ↦ (s, err e)
    | ok slot' ↦ (put_slot s h.frame_slot_index slot', ok tt)
  ]
]

unfoldable pub after_acquire :
    Scheduler → Slot → FrameHandle → Scheduler × Result (Option FrameHandle)
after_acquire s slot h = elim (get_simulation_started_at slot h) [
  | err e ↦ (s, err e)
  | ok started ↦ (
    record s {
      previous_simulation_started_at = started;
      next_application_frame_index = u64 (s.next_application_frame_index + 1);
      next_simulation_index = u64 (s.next_simulation_index + 1);
      next_checkpoint = draw;
    },
    ok (some h),
  )
]

-- `m_nextApplicationFrameIndex % m_maxActiveFrames`.
abbrev pub next_slot : Scheduler → ℕ
next_slot s = s.next_application_frame_index % s.max_active_frames

unfoldable pub hand_out : Scheduler → ℕ → Scheduler × Result (Option FrameHandle)
unfolding after_acquire
hand_out s now =
    elim (acquire (slot_at s (next_slot s)) s.next_application_frame_index s.next_simulation_index
      s.previous_simulation_started_at now) [
        | err e ↦ (s, err e)
        | ok (slot, h) ↦ after_acquire (put_slot s (next_slot s) slot) slot h
      ]

-- `TryAcquireFrame`, at the time `now`.
unfoldable pub try_acquire_frame : Scheduler → ℕ → Scheduler × Result (Option FrameHandle)
unfolding hand_out
try_acquire_frame s now =
    if not (is_update s.next_checkpoint)
    then (s, err invalid_state)
    else (if s.next_application_frame_index == invalid_index
        then (s, err invalid_state)
        else (if s.next_simulation_index == invalid_index
            then (s, err invalid_state)
            else (if not (is_free (slot_at s (next_slot s)))
                then (s, ok none)
                else hand_out s now)))

pub open_update : Scheduler × Result (Unit {0}) → Scheduler × Result (Unit {0})
open_update (s, err e) = (s, err e)
open_update (s, ok _) = (record s { next_checkpoint = update }, ok tt)

pub signal_draw_frame : World → Scheduler → FrameHandle → Scheduler × Result (Unit {0})
unfolding on_slot open_update
signal_draw_frame world s h =
    if is_update s.next_checkpoint
    then (s, err invalid_state)
    else open_update (on_slot world s h draws)

-- The test of `AbortFrame`, on the slot that it found.
unfoldable pub release_from : Scheduler → FrameHandle → Slot → Result Scheduler
release_from s h slot = if is_update s.next_checkpoint then ok s else do
  release ← should_release_draw_checkpoint_on_abort slot h s.next_application_frame_index
  ok (if release then record s { next_checkpoint = update } else s)

unfoldable pub release_checkpoint : Scheduler → FrameHandle → Result Scheduler
release_checkpoint s h = do slot ← get_slot s h; release_from s h slot

-- The checkpoint is released before the slot's own `Abort`, which may still throw.
unfoldable pub abort_frame : World → Scheduler → FrameHandle → Scheduler × Result (Unit {0})
unfolding release_checkpoint on_slot
abort_frame world s h = elim (release_checkpoint s h) [
  | err e ↦ (s, err e)
  | ok s' ↦ on_slot world s' h aborts
]

pub get_frame_state : Scheduler → FrameHandle → Result FrameState
unfolding get_slot
get_frame_state s h = do slot ← get_slot s h; get_state slot h

pub get_frame_delta_time : Scheduler → FrameHandle → Result ℤ
unfolding get_slot
get_frame_delta_time s h = do slot ← get_slot s h; get_delta_time slot h

pub get_frame_gpu_completion : Scheduler → FrameHandle → Result (Option ℕ)
unfolding get_slot
get_frame_gpu_completion s h = do slot ← get_slot s h; get_gpu_completion slot h

-- The calls of the scheduler's users: a frame is acquired, or a handle is used.
pub data Call : Type 0 where
  acquires : ℕ → Call
  uses : FrameHandle → SlotCall → Call

pub forget {ℓ} : {A : Type ℓ} → Scheduler × Result A → Scheduler × Result (Unit {0})
forget (s, err e) = (s, err e)
forget (s, ok a) = (s, ok tt)

unfoldable pub use_frame :
    World → Scheduler → FrameHandle → SlotCall → Scheduler × Result (Unit {0})
unfolding signal_draw_frame abort_frame on_slot
use_frame world s h draws = signal_draw_frame world s h
use_frame world s h aborts = abort_frame world s h
use_frame world s h c = on_slot world s h c

pub step : Scheduler → World × Call → Scheduler × Result (Unit {0})
unfolding forget
step s (world, acquires now) = forget (try_acquire_frame s now)
step s (world, uses h c) = use_frame world s h c

pub run : Scheduler → List (World × Call) → Scheduler
run s [] = s
run s (c ∷ cs) = run (step s c).0 cs
