-- ===== src/Frame/Scheduler/Steps.antt =====
-- Every call of the scheduler, from a well-formed state, ends in a well-formed state.
use graphics_engine.Common.{
  ℕ, ◌<◌, ◌≡◌, refl, ◌≢◌, false, ok, err, arith, Result, Result-cases, Bool-cases, inl, inr, Error,
}
use graphics_engine.Frame.Types.{free, FrameHandle, World, Slot, default_slot}
use graphics_engine.Frame.Slot.{SlotCall, call, draws, aborts}
use graphics_engine.Frame.Slot.Laws.{call-SlotInv, call-Kept, call_undrawn, draws_lem}
use graphics_engine.Frame.Scheduler.{
  Scheduler, update, slot_at, put_slot, on_slot, get_slot, signal_draw_frame, open_update,
  is_update,
}
use graphics_engine.Frame.Scheduler.Invariant.{
  Inv, book, SlotOk, call-SlotOk, put-Inv, get_or-set_all,
}

pub get_slot-ok :
    (s : Scheduler) (h : FrameHandle) {slot : Slot}
    → get_slot s h ≡ ok slot
    → (h.frame_slot_index < s.max_active_frames) × (slot ≡ slot_at s h.frame_slot_index)
unfolding get_slot
get_slot-ok s h e = (ground arith, ground arith)

pub on_slot-cases {ℓ} :
    (P : Scheduler × Result (Unit {0}) → Type ℓ) (w : World) (s : Scheduler) (h : FrameHandle)
    (c : SlotCall)
    → ((e : Error) → P (s, err e))
    → ((slot : Slot)
        → h.frame_slot_index < s.max_active_frames
        → call w (slot_at s h.frame_slot_index) h c ≡ ok slot
        → P (put_slot s h.frame_slot_index slot, ok tt))
    → P (on_slot w s h c)
unfolding on_slot
on_slot-cases P w s h c fails works = elim (Result-cases (get_slot s h)) [
  | inl (e, q) ↦ rw (q, on_slot) (fails e)
  | inr (slot, q) ↦
      let at = get_slot-ok s h q in
      rw (q, on_slot)
        (rw (at.1) (elim (Result-cases (call w (slot_at s h.frame_slot_index) h c)) [
          | inl (e, r) ↦ rw r (fails e)
          | inr (slot', r) ↦ rw r (works slot' at.0 r)
        ]))
]

abbrev pub Waiting : Slot → Type 0
Waiting x = (x.state ≢ free) × (x.draw_signal.is_set ≡ false)

module _ (w : World) (s : Scheduler) (h : FrameHandle) (c : SlotCall) (v : Inv s) where
  -- The frame that awaits its draw signal still does after a call that neither draws nor aborts.
  still-Waiting :
      (slot : Slot)
      → h.frame_slot_index < s.max_active_frames
      → call w (slot_at s h.frame_slot_index) h c ≡ ok slot
      → c ≢ draws
      → c ≢ aborts
      → (j : ℕ) → Waiting (slot_at s j)
      → Waiting (slot_at (put_slot s h.frame_slot_index slot) j)
  still-Waiting slot l e n m j waits =
      get_or-set_all (λ k x. j ≡ k → Waiting x) s.slots h.frame_slot_index slot default_slot
        (rw v.counted l) (λ q. (call_undrawn w _ h c e n m (v.slot_ok _ l).inv).1 (rw q at waits)) j
        (λ _ _. waits) refl

  pub on_slot-Inv : c ≢ draws → c ≢ aborts → Inv (on_slot w s h c).0
  on_slot-Inv n m =
      on_slot-cases (λ r. Inv r.0) w s h c (λ e. v)
        λ slot l e.
          put-Inv s v h.frame_slot_index l slot s.next_checkpoint _ refl
            (call-SlotOk w (book s) _ _ h c e n m (v.slot_ok _ l)) (λ j lj ne. v.slot_ok j lj)
            λ q.
              let (j, lj, waits, undrawn) = v.awaits q in
              let (a, b) = still-Waiting slot l e n m j (waits, undrawn) in (j, lj, a, b)

module _ (s : Scheduler) (v : Inv s) (i : ℕ) (l : i < s.max_active_frames)
    (last : Waiting (slot_at s i)) where
  -- Only one frame awaits its draw signal.
  pub only-Waiting : (j : ℕ) → j < s.max_active_frames → j ≢ i → Waiting (slot_at s j) → ⊥
  only-Waiting j lj ne waits = ne (grind (arith, v.slot_ok i l, v.slot_ok j lj))

  -- So once it has it, the others are right for the checkpoint `UPDATE` too.
  pub others-SlotOk :
      (j : ℕ)
      → j < s.max_active_frames
      → j ≢ i
      → SlotOk (record (book s) { next_checkpoint = update }) j (slot_at s j)
  others-SlotOk j lj ne =
      let o = v.slot_ok j lj in
      record {
        inv = o.inv;
        owner = o.owner;
        index = o.index;
        older = o.older;
        home = o.home;
        undrawn = λ b d. absurd (only-Waiting j lj ne (b, d));
      }

drawn-SlotOk :
    (w : World) (s : Scheduler) (h : FrameHandle) (slot : Slot)
    → (l : h.frame_slot_index < s.max_active_frames)
    → call w (slot_at s h.frame_slot_index) h draws ≡ ok slot
    → (v : Inv s) → SlotOk (record (book s) { next_checkpoint = update }) h.frame_slot_index slot
drawn-SlotOk w s h slot l e v =
    let o = v.slot_ok _ l in
    let k = call-Kept w _ h draws e o.inv in
    record {
      inv = call-SlotInv w _ h draws e o.inv;
      owner = ground (arith, k);
      index = ground (arith, k);
      older = ground (arith, k);
      home = ground (arith, k);
      undrawn = ground (arith, draws_lem w _ h e o.inv);
    }

pub signal_draw_frame-Inv :
    (w : World) (s : Scheduler) (h : FrameHandle) → Inv s → Inv (signal_draw_frame w s h).0
unfolding signal_draw_frame open_update
signal_draw_frame-Inv w s h v = elim (Bool-cases (is_update s.next_checkpoint)) [
  | inl e ↦ rw e v
  | inr e ↦ rw e (
      on_slot-cases (λ r. Inv (open_update r).0) w s h draws (λ _. v)
        λ slot l q.
          let o = v.slot_ok _ l in
          let d = draws_lem w _ h q o.inv in
          put-Inv s v h.frame_slot_index l slot update _ refl (drawn-SlotOk w s h slot l q v)
            (others-SlotOk s v h.frame_slot_index l (d.0, d.1)) (λ z. cc))
]
