-- ===== src/Frame/Scheduler/Aborts.antt =====
-- `AbortFrame`: what it leaves when it succeeds, and that it changes nothing when it throws.
use graphics_engine.Common.{
  get_or-set_ne, ap, ◌∙◌, Bool-cases, ℕ, ◌<◌, ◌≡◌, refl, ◌⊎◌, inl, inr, ok, err, arith, Result,
  Result-cases, >>=-eq-ok, Error,
}
use graphics_engine.Frame.Types.{FrameHandle, World, Slot, default_slot}
use graphics_engine.Frame.Slot.{should_release_draw_checkpoint_on_abort, call, aborts}
use graphics_engine.Frame.Slot.Laws.{
  call-SlotInv, call-Kept, Matches, should_release-ok, waiting_abort, aborts_lem,
}
use graphics_engine.Frame.Scheduler.{
  Checkpoint, release_from, is_update, Scheduler, update, draw, slot_at, put_slot, on_slot,
  get_slot, abort_frame, release_checkpoint,
}
use graphics_engine.Frame.Scheduler.Invariant.{Book, Inv, book, SlotOk, put-Inv}
use graphics_engine.Frame.Scheduler.Steps.{Waiting, get_slot-ok, on_slot-cases, others-SlotOk}

awaits_pos : (s : Scheduler) → Inv s → s.next_checkpoint ≡ draw → 0 < s.next_application_frame_index
awaits_pos s v e = let (j, lj, b, d) = v.awaits e in omega (arith, (v.slot_ok j lj).undrawn b d)

release_from_cases :
    (s : Scheduler) (h : FrameHandle) (slot : Slot) {s' : Scheduler}
    → release_from s h slot ≡ ok s'
    → Inv s
    → SlotOk (book s) h.frame_slot_index slot
    → ((s' ≡ s) × (Waiting slot → ⊥))
      ⊎ ((s' ≡ record s { next_checkpoint = update }) × Matches slot h × Waiting slot)
unfolding release_from
release_from_cases s h slot {s' = s'} e v o = elim (Bool-cases (is_update s.next_checkpoint)) [
  | inl u ↦ inl (ground arith, ground arith)
  | inr d ↦
      let (b, q, r) =
        >>=-eq-ok (should_release_draw_checkpoint_on_abort slot h s.next_application_frame_index) _
          (rw d at e) in
      ground (arith, should_release-ok slot h s.next_application_frame_index q, awaits_pos s v)
]

-- The checkpoint is released exactly for the frame that awaits its draw signal.
release_cases :
    (s : Scheduler) (h : FrameHandle) {s' : Scheduler}
    → release_checkpoint s h ≡ ok s'
    → Inv s
    → (h.frame_slot_index < s.max_active_frames)
      × (get_slot s h ≡ ok (slot_at s h.frame_slot_index))
      × (((s' ≡ s) × (Waiting (slot_at s h.frame_slot_index) → ⊥))
          ⊎ ((s' ≡ record s { next_checkpoint = update })
              × Matches (slot_at s h.frame_slot_index) h
              × Waiting (slot_at s h.frame_slot_index)))
unfolding release_checkpoint
release_cases s h {s' = s'} e v =
    let (slot, q, r) = >>=-eq-ok (get_slot s h) _ e in
    let at = get_slot-ok s h q in
    let r' : release_from s h (slot_at s h.frame_slot_index) ≡ ok s' = rw at.1 at r in
    (
      at.0,
      q ∙ ap ok at.1,
      release_from_cases s h (slot_at s h.frame_slot_index) r' v (v.slot_ok _ at.0),
    )

freed-SlotOk :
    (w : World) (b : Book) (cp : Checkpoint) (i : ℕ) (slot : Slot) (h : FrameHandle) (slot' : Slot)
    → call w slot h aborts ≡ ok slot'
    → SlotOk b i slot
    → SlotOk (record b { next_checkpoint = cp }) i slot'
freed-SlotOk w b cp i slot h slot' e o =
    let k = call-Kept w slot h aborts e o.inv in
    let f = aborts_lem w slot h e in
    record {
      inv = call-SlotInv w slot h aborts e o.inv;
      owner = ground (arith, k);
      index = ground (arith, k);
      older = λ n. absurd (n f.0);
      home = λ n. absurd (n f.0);
      undrawn = λ n. absurd (n f.0);
    }

-- A waiting frame elsewhere keeps waiting when a slot that does not wait is written.
elsewhere :
    (s : Scheduler) (i : ℕ) (slot : Slot)
    → (Waiting (slot_at s i) → ⊥)
    → (j : ℕ) → Waiting (slot_at s j)
    → Waiting (slot_at (put_slot s i slot) j)
elsewhere s i slot m j waits =
    rw (get_or-set_ne s.slots i j slot default_slot (λ e. m (rw e waits))) waits

-- The checkpoint plays no part in finding a slot.
get_slot-open :
    (s : Scheduler) (h : FrameHandle)
    → get_slot (record s { next_checkpoint = update }) h ≡ get_slot s h
unfolding get_slot
get_slot-open s h = refl

found_on_slot :
    (w : World) (s : Scheduler) (h : FrameHandle) (slot : Slot)
    → h.frame_slot_index < s.max_active_frames
    → get_slot s h ≡ ok (slot_at s h.frame_slot_index)
    → call w (slot_at s h.frame_slot_index) h aborts ≡ ok slot
    → on_slot w (record s { next_checkpoint = update }) h aborts
      ≡ (put_slot (record s { next_checkpoint = update }) h.frame_slot_index slot, ok tt)
unfolding on_slot
found_on_slot w s h slot l at c = rw (get_slot-open s h ∙ at, on_slot) (rw c)

-- `AbortFrame` throws and changes nothing, or frees the slot; it opens the update checkpoint if and
-- only if the frame still owed its draw signal.
pub abort_frame-cases {ℓ} :
    (P : Scheduler × Result (Unit {0}) → Type ℓ) (w : World) (s : Scheduler) (h : FrameHandle)
    → Inv s
    → ((e : Error) → P (s, err e))
    → ((slot : Slot) (s' : Scheduler)
        → h.frame_slot_index < s.max_active_frames
        → call w (slot_at s h.frame_slot_index) h aborts ≡ ok slot
        → ((s' ≡ s) × (Waiting (slot_at s h.frame_slot_index) → ⊥))
          ⊎ ((s' ≡ record s { next_checkpoint = update }) × Waiting (slot_at s h.frame_slot_index))
        → P (put_slot s' h.frame_slot_index slot, ok tt))
    → P (abort_frame w s h)
unfolding abort_frame
abort_frame-cases P w s h v fails works = elim (Result-cases (release_checkpoint s h)) [
  | inl (e, q) ↦ rw (q, abort_frame) (fails e)
  | inr (s', q) ↦
      let (l, at, c) = release_cases s h q v in
      rw (q, abort_frame)
        (elim c [
          | inl (e, m) ↦
              rw e
                (on_slot-cases P w s h aborts fails (λ slot l' c. works slot s l c (inl (refl, m))))
          | inr (e, m, b) ↦
              let (slot, c, f) =
                waiting_abort w (slot_at s h.frame_slot_index) h m (v.slot_ok _ l).inv b.0 b.1 in
              rw e (rw (found_on_slot w s h slot l at c) (works slot _ l c (inr (refl, b))))
        ])
]

pub abort_frame-Inv :
    (w : World) (s : Scheduler) (h : FrameHandle) → Inv s → Inv (abort_frame w s h).0
abort_frame-Inv w s h v =
    abort_frame-cases (λ r. Inv r.0) w s h v (λ e. v)
      λ slot s' l c k.
        let o = v.slot_ok _ l in
        elim k [
          | inl (e, m) ↦ rw e (
              put-Inv s v h.frame_slot_index l slot s.next_checkpoint _ refl
                (freed-SlotOk w (book s) s.next_checkpoint h.frame_slot_index _ h slot c o)
                (λ j lj ne. v.slot_ok j lj)
                (λ q.
                  let (j, lj, b, d) = v.awaits q in
                  let (b', d') = elsewhere s h.frame_slot_index slot m j (b, d) in (j, lj, b', d')))
          | inr (e, m) ↦ rw e (
              put-Inv s v h.frame_slot_index l slot update _ refl
                (freed-SlotOk w (book s) update h.frame_slot_index _ h slot c o)
                (others-SlotOk s v h.frame_slot_index l m) (λ q. cc))
        ]

-- An abort that throws leaves the scheduler as it was, though the source may write the checkpoint
-- before the slot's own test.
pub abort_frame-err :
    (w : World) (s : Scheduler) (h : FrameHandle) (e : Error)
    → Inv s
    → (abort_frame w s h).1 ≡ err e
    → (abort_frame w s h).0 ≡ s
abort_frame-err w s h e v =
    abort_frame-cases (λ r. r.1 ≡ err e → r.0 ≡ s) w s h v (λ _ _. refl) (λ slot s' l c k q. cc)
