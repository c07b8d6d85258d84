-- ===== src/Frame/Slot/Laws.antt =====
-- What holds of an execution slot between two calls, and who may call it.
use graphics_engine.Common.{
  some, Bool, not, ◌&&◌, ◌==◌, u64, ◌<◌, ◌≤◌, ◌≡◌, ◌≢◌, ◌+◌, ◌↔◌, refl, true, false, ok, arith,
  max_u64, ℕ, Option,
}
use graphics_engine.Frame.Types.{
  complete, submitted, gpu_in_flight, free, acquired, FrameHandle, World, Slot, invalid_index,
  state_code, is_valid,
}
use graphics_engine.Frame.Slot.{
  get_simulation_started_at, should_release_draw_checkpoint_on_abort, reset_frame_data, SlotCall,
  call, draws, aborts, recycles, validate, acquire, handle_of,
}

pub record SlotInv (s : Slot) : Type 0 where
  pub idle :
      s.state ≡ free
      → (s.application_frame_index ≡ invalid_index)
        × (s.update_signal.is_set ≡ false)
        × (s.draw_signal.is_set ≡ false)
  pub busy :
      s.state ≢ free
      → (s.application_frame_index < invalid_index)
        × (0 < s.generation)
        × (s.update_signal.is_set ≡ true)
        × (s.update_signal.generation ≡ s.generation)
  pub drawn : s.draw_signal.is_set ≡ true → s.draw_signal.generation ≡ s.generation
  pub finalized : 4 < state_code s.state → s.draw_signal.is_set ≡ true
  pub in_range : s.generation ≤ max_u64

pub call-SlotInv :
    (w : World) (s : Slot) (h : FrameHandle) (c : SlotCall) {s' : Slot}
    → call w s h c ≡ ok s'
    → SlotInv s
    → SlotInv s'
unfolding call
call-SlotInv w s h draws {s' = s'} e v = ground arith
call-SlotInv w s h _ {s' = s'} e v = ground arith

-- Validation passes exactly for the handle that the slot's present fields spell.
abbrev pub Matches : Slot → FrameHandle → Type 0
Matches s h =
    (is_valid h ≡ true)
    × (h.owner_id ≡ s.owner_id)
    × (h.frame_slot_index ≡ s.slot_index)
    × (h.application_frame_index ≡ s.application_frame_index)
    × (h.simulation_index ≡ s.simulation_index)
    × (h.generation ≡ s.generation)

pub Matches-validate : (s : Slot) (h : FrameHandle) → Matches s h → validate s h ≡ ok tt
unfolding validate
Matches-validate s h m = ground arith

pub validate-Matches :
    (s : Slot) (h : FrameHandle) {u : Unit {0}} → validate s h ≡ ok u → Matches s h
unfolding validate
validate-Matches s h e = ground arith

-- A call on a slot that succeeds was made through a handle that matches the slot: a valid one with
-- its owner, index, frame, simulation and generation.
pub call-Matches :
    (w : World) (s : Slot) (h : FrameHandle) (c : SlotCall) {s' : Slot}
    → call w s h c ≡ ok s'
    → Matches s h
unfolding call
call-Matches w s h draws {s' = s'} e = ground (arith, validate-Matches s h {u = tt})
call-Matches w s h _ {s' = s'} e = ground (arith, validate-Matches s h {u = tt})

-- What a call leaves alone, and what it may do to the signals.
pub record Kept (s s' : Slot) : Type 0 where
  pub owner : s'.owner_id ≡ s.owner_id
  pub index : s'.slot_index ≡ s.slot_index
  pub generation : s'.generation ≡ s.generation
  pub frame : s'.state ≢ free → s'.application_frame_index ≡ s.application_frame_index
  pub was_busy : s'.state ≢ free → s.state ≢ free

pub call-Kept :
    (w : World) (s : Slot) (h : FrameHandle) (c : SlotCall) {s' : Slot}
    → call w s h c ≡ ok s'
    → SlotInv s
    → Kept s s'
unfolding call
call-Kept w s h draws {s' = s'} e v = ground arith
call-Kept w s h _ {s' = s'} e v = ground arith

-- Every call but `SignalDraw` and `Abort` leaves a waiting draw checkpoint as it is.
pub call_undrawn :
    (w : World) (s : Slot) (h : FrameHandle) (c : SlotCall) {s' : Slot}
    → call w s h c ≡ ok s'
    → c ≢ draws
    → c ≢ aborts
    → SlotInv s
    → ((s'.state ≢ free) × (s'.draw_signal.is_set ≡ false))
      ↔ ((s.state ≢ free) × (s.draw_signal.is_set ≡ false))
unfolding call
call_undrawn w s h draws {s' = s'} e n m v = absurd (n refl)
call_undrawn w s h aborts {s' = s'} e n m v = absurd (m refl)
call_undrawn w s h _ {s' = s'} e n m v = ground arith

pub draws_lem :
    (w : World) (s : Slot) (h : FrameHandle) {s' : Slot}
    → call w s h draws ≡ ok s'
    → SlotInv s
    → (s.state ≢ free)
      × (s.draw_signal.is_set ≡ false)
      × (s'.draw_signal.is_set ≡ true)
      × (s'.state ≡ s.state)
unfolding call
draws_lem w s h {s' = s'} e v = ground arith

-- `Acquire` of a free slot.
pub acquire-SlotInv :
    (s : Slot) (app sim : ℕ) (previous : Option ℕ) (now : ℕ) {s' : Slot} {h : FrameHandle}
    → acquire s app sim previous now ≡ ok (s', h)
    → app < invalid_index
    → SlotInv s
    → SlotInv s'
unfolding acquire
acquire-SlotInv s app sim previous now {s' = s'} {h = h} e l v = ground arith

pub record Acquired (s s' : Slot) (h : FrameHandle) (app : ℕ) : Type 0 where
  pub owner : s'.owner_id ≡ s.owner_id
  pub index : s'.slot_index ≡ s.slot_index
  pub generation : s'.generation ≡ s.generation + 1
  pub frame : s'.application_frame_index ≡ app
  pub busy : s'.state ≡ acquired
  pub undrawn : s'.draw_signal.is_set ≡ false
  pub handle : h ≡ handle_of s'

pub acquire_lem :
    (s : Slot) (app sim : ℕ) (previous : Option ℕ) (now : ℕ) {s' : Slot} {h : FrameHandle}
    → acquire s app sim previous now ≡ ok (s', h)
    → s.generation ≤ max_u64
    → Acquired s s' h app
unfolding acquire
acquire_lem s app sim previous now {s' = s'} {h = h} e l = ground arith

pub should_release-ok :
    (s : Slot) (h : FrameHandle) (next : ℕ) {b : Bool}
    → should_release_draw_checkpoint_on_abort s h next ≡ ok b
    → Matches s h × (b ≡ (not s.draw_signal.is_set && u64 (s.application_frame_index + 1) == next))
unfolding should_release_draw_checkpoint_on_abort
should_release-ok s h next {b = b} e = ground (arith, validate-Matches s h {u = tt})

-- A frame that still waits for its draw signal can be aborted.
pub waiting_abort :
    (w : World) (s : Slot) (h : FrameHandle)
    → Matches s h
    → SlotInv s
    → s.state ≢ free
    → s.draw_signal.is_set ≡ false
    → (s' : Slot) × (call w s h aborts ≡ ok s') × (s'.state ≡ free)
unfolding call
waiting_abort w s h m v b d =
    (reset_frame_data s, ground (arith, Matches-validate s h), ground arith)

-- What an abort leaves: a free slot, and only from a state in which nothing runs on the GPU.
pub aborts_lem :
    (w : World) (s : Slot) (h : FrameHandle) {s' : Slot}
    → call w s h aborts ≡ ok s'
    → (s'.state ≡ free) × (s.state ≢ free) × (s.state ≢ submitted) × (s.state ≢ gpu_in_flight)
unfolding call
aborts_lem w s h {s' = s'} e = ground arith

-- The handle that `Acquire` returns is accepted at once, and the slot answers the time it was given.
pub acquire_started :
    (s : Slot) (app sim : ℕ) (previous : Option ℕ) (now : ℕ) {s' : Slot} {h : FrameHandle}
    → acquire s app sim previous now ≡ ok (s', h)
    → s.generation ≤ max_u64
    → 0 < s.owner_id
    → get_simulation_started_at s' h ≡ ok (some now)
unfolding acquire get_simulation_started_at
acquire_started s app sim previous now {s' = s'} {h = h} e l p =
    ground (arith, Matches-validate s' h)

pub recycles_lem :
    (w : World) (s : Slot) (h : FrameHandle) {s' : Slot}
    → call w s h recycles ≡ ok s'
    → (s'.state ≡ free) × (s.state ≡ complete)
unfolding call
recycles_lem w s h {s' = s'} e = ground arith
