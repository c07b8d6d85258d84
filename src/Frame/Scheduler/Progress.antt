-- ===== src/Frame/Scheduler/Progress.antt =====
-- What the application gets: frames in order, one draw signal for each, and no frame that is stuck.
use graphics_engine.Common.{
  Error, ℕ, ◌+◌, ◌<◌, ◌≡◌, refl, ◌≢◌, ok, err, arith, Result, Option, some, true, if◌then◌else◌,
  max_u64, get_or-set_self, get_or, set,
}
use graphics_engine.Frame.Types.{
  FrameState, free, acquired, waiting_update, updating, waiting_draw, finalize, submitted,
  gpu_in_flight, complete, FrameHandle, World, Slot, default_slot, has_signaled,
}
use graphics_engine.Frame.Slot.{
  SlotCall, call, draws, arms, begins_update, ends_update, begins_finalize, completes, begins_gpu,
  completes_gpu, recycles, acquire,
}
use graphics_engine.Frame.Slot.Laws.{SlotInv, Matches, Matches-validate}
use graphics_engine.Frame.Scheduler.{
  Scheduler, draw, slot_at, next_slot, try_acquire_frame, hand_out,
}
use graphics_engine.Frame.Scheduler.Invariant.{Inv}
use graphics_engine.Frame.Scheduler.Acquires.{
  CanAcquire, try_acquire_frame-cases, next_slot-lt, hand_out-cases,
}

-- The call that moves a frame on.
abbrev pub next_call : Slot → SlotCall
next_call s = if s.draw_signal.is_set then by_state s.state else draws
  where
    by_state : FrameState → SlotCall
    by_state free = draws
    by_state acquired = arms
    by_state waiting_update = begins_update
    by_state updating = ends_update
    by_state waiting_draw = begins_finalize
    by_state finalize = completes
    by_state submitted = begins_gpu
    by_state gpu_in_flight = completes_gpu
    by_state complete = recycles

-- How many such calls a frame is away from a free slot, at most.
abbrev work : Slot → ℕ
work s = if s.draw_signal.is_set then left s.state else left s.state + 1
  where
    left : FrameState → ℕ
    left free = 0
    left complete = 2
    left gpu_in_flight = 3
    left submitted = 4
    left finalize = 5
    left waiting_draw = 6
    left updating = 7
    left waiting_update = 8
    left acquired = 9

abbrev pub Advances : Slot → Result Slot → Type 0
Advances s (ok s') = work s' < work s
Advances s (err e) = ⊥

-- A frame that matches its handle is never stuck: from every busy state the call named by
-- `next_call` succeeds and leaves less work, if a frame in flight has had its future signaled.
pub next_call-Advances :
    (w : World) (s : Slot) (h : FrameHandle)
    → Matches s h
    → SlotInv s
    → s.state ≢ free
    → (s.state ≡ gpu_in_flight → has_signaled w s.gpu_completion ≡ true)
    → Advances s (call w s h (next_call s))
unfolding call
next_call-Advances w s h m v b g = ground (arith, Matches-validate s h m)

-- A frame that is handed out is the next one, in its own slot under a generation of its own; its
-- handle is accepted, the slot is `ACQUIRED`, and the application now owes a draw signal.
pub try_acquire_frame-some :
    (s : Scheduler) (now : ℕ) (h : FrameHandle)
    → Inv s
    → (try_acquire_frame s now).1 ≡ ok (some h)
    → let t = (try_acquire_frame s now).0 in
      let x = slot_at t h.frame_slot_index in
      Matches x h
      × (x.state ≡ acquired)
      × (h.application_frame_index ≡ s.next_application_frame_index)
      × (h.frame_slot_index ≡ next_slot s)
      × (h.generation ≡ (slot_at s (next_slot s)).generation + 1)
      × (t.next_application_frame_index ≡ s.next_application_frame_index + 1)
      × (t.next_checkpoint ≡ draw)
try_acquire_frame-some s now h v =
    try_acquire_frame-cases
      (λ r.
        r.1 ≡ ok (some h)
        → let x = slot_at r.0 h.frame_slot_index in
          Matches x h
          × (x.state ≡ acquired)
          × (h.application_frame_index ≡ s.next_application_frame_index)
          × (h.frame_slot_index ≡ next_slot s)
          × (h.generation ≡ (slot_at s (next_slot s)).generation + 1)
          × (r.0.next_application_frame_index ≡ s.next_application_frame_index + 1)
          × (r.0.next_checkpoint ≡ draw))
      s now v (λ r n e. absurd (n h e))
      λ slot h' can a i e.
        let l = next_slot-lt s v in
        let o = v.slot_ok _ l in
        let at : h.frame_slot_index ≡ next_slot s = ground (arith, a, o) in
        let here : get_or (set s.slots (next_slot s) slot) h.frame_slot_index default_slot ≡ slot =
          rw at
            (get_or-set_self s.slots (next_slot s) slot default_slot (omega (arith, v.counted))) in
        rw here (ground (arith, a, o, v.owned))

acquire-ok :
    (x : Slot) (app sim : ℕ) (previous : Option ℕ) (now : ℕ) {e : Error}
    → x.state ≡ free
    → x.generation < max_u64
    → acquire x app sim previous now ≢ err e
unfolding acquire
acquire-ok x app sim previous now f g = ground arith

hand_out-some :
    (s : Scheduler) (now : ℕ)
    → Inv s
    → CanAcquire s
    → (slot_at s (next_slot s)).generation < max_u64
    → (h : FrameHandle) × ((hand_out s now).1 ≡ ok (some h))
hand_out-some s now v can g =
    hand_out-cases (λ r. (h : FrameHandle) × (r.1 ≡ ok (some h))) s now v can
      (λ e q. absurd (acquire-ok _ _ _ _ now can.idle g q)) (λ slot h a i. (h, refl))

-- A frame is handed out whenever the application may update, the next slot is free, and no counter
-- has run out.
pub try_acquire_frame-CanAcquire :
    (s : Scheduler) (now : ℕ)
    → Inv s
    → CanAcquire s
    → (slot_at s (next_slot s)).generation < max_u64
    → (h : FrameHandle) × ((try_acquire_frame s now).1 ≡ ok (some h))
unfolding try_acquire_frame
try_acquire_frame-CanAcquire s now v can g =
    let (h, e) = hand_out-some s now v can g in (h, ground (arith, can))
