-- ===== src/Frame/Scheduler/Acquires.antt =====
-- `TryAcquireFrame`, and the invariant over every history.
use graphics_engine.Common.{
  length, ℕ, ◌+◌, ◌<◌, ◌≡◌, refl, ◌≢◌, inl, inr, ok, err, arith, Result, Result-cases, get_or, set,
  Error, Bool-cases, length-set, get_or-set_self, ◌∙◌, Option, some, ◌==◌,
}
use graphics_engine.Frame.Types.{free, FrameHandle, Slot, invalid_index, default_slot}
use graphics_engine.Frame.Slot.{acquire, is_free, get_simulation_started_at}
use graphics_engine.Frame.Slot.Laws.{
  SlotInv, acquire_lem, acquire-SlotInv, Acquired, acquire_started,
}
use graphics_engine.Frame.Scheduler.{
  Scheduler, update, draw, slot_at, put_slot, next_slot, try_acquire_frame, hand_out, after_acquire,
  is_update,
}
use graphics_engine.Frame.Scheduler.Invariant.{Inv, Book, book, SlotOk, get_or-set_all}
use graphics_engine.Frame.Scheduler.Steps.{Waiting}

-- What stands when a frame is handed out.
pub record CanAcquire (s : Scheduler) : Type 0 where
  pub checkpoint : s.next_checkpoint ≡ update
  pub frames : s.next_application_frame_index < invalid_index
  pub simulations : s.next_simulation_index < invalid_index
  pub idle : (slot_at s (next_slot s)).state ≡ free

abbrev pub handed_out : Scheduler → Slot → ℕ → Scheduler
handed_out s slot now = record (put_slot s (next_slot s) slot) {
  previous_simulation_started_at = some now;
  next_application_frame_index = s.next_application_frame_index + 1;
  next_simulation_index = s.next_simulation_index + 1;
  next_checkpoint = draw;
}

pub next_slot-lt : (s : Scheduler) → Inv s → next_slot s < s.max_active_frames
next_slot-lt s v = grind (arith, v.some_slots)

after_acquire_lem :
    (s : Scheduler) (slot : Slot) (h : FrameHandle) (now : ℕ)
    → s.next_application_frame_index < invalid_index
    → s.next_simulation_index < invalid_index
    → get_simulation_started_at slot h ≡ ok (some now)
    → after_acquire (put_slot s (next_slot s) slot) slot h ≡ (handed_out s slot now, ok (some h))
unfolding after_acquire
after_acquire_lem s slot h now f m e = ground arith

abbrev pub acquire_next : Scheduler → ℕ → Result (Slot × FrameHandle)
acquire_next s now =
    acquire (slot_at s (next_slot s)) s.next_application_frame_index s.next_simulation_index
      s.previous_simulation_started_at now

pub hand_out-cases {ℓ} :
    (P : Scheduler × Result (Option FrameHandle) → Type ℓ) (s : Scheduler) (now : ℕ)
    → Inv s
    → CanAcquire s
    → ((e : Error) → acquire_next s now ≡ err e → P (s, err e))
    → ((slot : Slot) (h : FrameHandle)
        → Acquired (slot_at s (next_slot s)) slot h s.next_application_frame_index
        → SlotInv slot
        → P (handed_out s slot now, ok (some h)))
    → P (hand_out s now)
unfolding hand_out
hand_out-cases P s now v can fails works =
    let o = (v.slot_ok _ (next_slot-lt s v)) in
    elim (Result-cases (acquire_next s now)) [
      | inl (e, q) ↦ rw (q, hand_out) (fails e q)
      | inr (p, q) ↦
          let a =
            acquire_lem (slot_at s (next_slot s)) _ _ _ now {s' = p.0} {h = p.1} q o.inv.in_range in
          let started =
            acquire_started _ _ _ _ now {s' = p.0} {h = p.1} q o.inv.in_range
              (rw o.owner v.owned) in
          let i = acquire-SlotInv _ _ _ _ now {s' = p.0} {h = p.1} q can.frames o.inv in
          rw (q, hand_out)
            (rw (after_acquire_lem s p.0 p.1 now can.frames can.simulations started)
              (works p.0 p.1 a i))
    ]

-- `TryAcquireFrame` changes nothing, or hands out the next frame in the next slot.
pub try_acquire_frame-cases {ℓ} :
    (P : Scheduler × Result (Option FrameHandle) → Type ℓ) (s : Scheduler) (now : ℕ)
    → Inv s
    → ((r : Result (Option FrameHandle)) → ((h : FrameHandle) → r ≢ ok (some h)) → P (s, r))
    → ((slot : Slot) (h : FrameHandle)
        → CanAcquire s
        → Acquired (slot_at s (next_slot s)) slot h s.next_application_frame_index
        → SlotInv slot
        → P (handed_out s slot now, ok (some h)))
    → P (try_acquire_frame s now)
unfolding try_acquire_frame
try_acquire_frame-cases P s now v same works = elim (Bool-cases (is_update s.next_checkpoint)) [
  | inr e ↦ rw e (same _ (λ h q. cc))
  | inl e ↦ rw e (elim (Bool-cases (s.next_application_frame_index == invalid_index)) [
    | inl f ↦ rw f (same _ (λ h q. cc))
    | inr f ↦ rw f (elim (Bool-cases (s.next_simulation_index == invalid_index)) [
      | inl g ↦ rw g (same _ (λ h q. cc))
      | inr g ↦ rw g (elim (Bool-cases (is_free (slot_at s (next_slot s)))) [
        | inr b ↦ rw b (same _ (λ h q. cc))
        | inl b ↦ rw b (
            let can : CanAcquire s = record {
              checkpoint = ground arith;
              frames = ground (arith, v.frames);
              simulations = ground (arith, v.simulations);
              idle = ground arith;
            } in
            hand_out-cases P s now v can (λ x q. same _ (λ h q. cc)) (λ slot h. works slot h can))
      ])
    ])
  ])
]

abbrev next_book : Scheduler → Book
next_book s = record (book s) {
  next_checkpoint = draw;
  next_application_frame_index = s.next_application_frame_index + 1;
}

module _ (s : Scheduler) (v : Inv s) (can : CanAcquire s) where
  new-SlotOk :
      (slot : Slot) (h : FrameHandle)
      → Acquired (slot_at s (next_slot s)) slot h s.next_application_frame_index
      → SlotInv slot
      → SlotOk (next_book s) (next_slot s) slot
  new-SlotOk slot h a i =
      let o = v.slot_ok _ (next_slot-lt s v) in
      record {
        inv = i;
        owner = a.owner ∙ o.owner;
        index = a.index ∙ o.index;
        older = λ _. omega (arith, a.frame);
        home = λ _. rw a.frame;
        undrawn = λ _ _. (refl, rw a.frame);
      }

  old-SlotOk : (j : ℕ) → j < s.max_active_frames → SlotOk (next_book s) j (slot_at s j)
  old-SlotOk j lj =
      let o = v.slot_ok j lj in
      record {
        inv = o.inv;
        owner = o.owner;
        index = o.index;
        older = λ n. omega (arith, o.older n);
        home = o.home;
        undrawn = λ n d. absurd (no_draw (o.undrawn n d).0);
      }
    where
      no_draw : s.next_checkpoint ≡ draw → ⊥
      no_draw q = cc (can.checkpoint)

  handed_out-Inv :
      (slot : Slot) (h : FrameHandle) (now : ℕ)
      → Acquired (slot_at s (next_slot s)) slot h s.next_application_frame_index
      → SlotInv slot
      → Inv (handed_out s slot now)
  handed_out-Inv slot h now a i =
      let l = next_slot-lt s v in
      let lc : next_slot s < length s.slots = omega (arith, v.counted) in
      let w : Waiting slot = (λ q. cc (a.busy, q), a.undrawn) in
      let here : Waiting (get_or (set s.slots (next_slot s) slot) (next_slot s) default_slot) =
        rw (get_or-set_self s.slots (next_slot s) slot default_slot lc) w in
      record {
        owned = v.owned;
        some_slots = v.some_slots;
        counted = length-set s.slots (next_slot s) slot ∙ v.counted;
        frames = omega (arith, can.frames);
        simulations = omega (arith, can.simulations);
        slot_ok = λ j lj.
            get_or-set_all (SlotOk (next_book s)) s.slots (next_slot s) slot default_slot lc
              (new-SlotOk slot h a i) j (λ ne. old-SlotOk j lj);
        awaits = λ _. (next_slot s, l, here.0, here.1);
      }

pub try_acquire_frame-Inv : (s : Scheduler) (now : ℕ) → Inv s → Inv (try_acquire_frame s now).0
try_acquire_frame-Inv s now v =
    try_acquire_frame-cases (λ r. Inv r.0) s now v (λ _ _. v)
      λ slot h can a i. handed_out-Inv s v can slot h now a i
