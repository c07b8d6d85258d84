-- ===== src/Frame/Scheduler/History.antt =====
-- Whole histories of calls: the invariant from the constructor on, and handles whose frame is over.
use graphics_engine.Common.{
  ℕ, zero, suc, ◌+◌, ◌<◌, ◌≤◌, ◌≡◌, refl, ap, ◌∙◌, inl, inr, ok, err, arith, Result, List, [], ◌∷◌,
  length, get_or, Bool-cases,
}
use graphics_engine.Frame.Types.{free, FrameHandle, World, Slot, default_slot}
use graphics_engine.Frame.Slot.{SlotCall, call, draws, aborts, configure}
use graphics_engine.Frame.Slot.Laws.{SlotInv, call-Kept}
use graphics_engine.Frame.Scheduler.{
  Scheduler, Call, acquires, uses, slot_at, put_slot, on_slot, open_update, is_update,
  signal_draw_frame, try_acquire_frame, use_frame, forget, step, run, new_scheduler, create,
  configured_slots,
}
use graphics_engine.Frame.Scheduler.Invariant.{Inv, get_or-set_all}
use graphics_engine.Frame.Scheduler.Steps.{on_slot-cases, on_slot-Inv, signal_draw_frame-Inv}
use graphics_engine.Frame.Scheduler.Aborts.{abort_frame-cases, abort_frame-Inv}
use graphics_engine.Frame.Scheduler.Acquires.{
  next_slot-lt, try_acquire_frame-cases, try_acquire_frame-Inv,
}

configured_slots-length : (o i n : ℕ) → length (configured_slots o i n) ≡ n
unfolding configured_slots
configured_slots-length o i zero = refl
configured_slots-length o i (suc n) = ap suc (configured_slots-length o (i + 1) n)

configured_slots-get_or :
    (o i n k : ℕ) (d : Slot)
    → k < n
    → get_or (configured_slots o i n) k d ≡ configure default_slot o (i + k)
unfolding configured_slots
configured_slots-get_or o i zero k d l = elim l [ ]
configured_slots-get_or o i (suc n) zero d l = ap (configure default_slot o) (omega arith)
configured_slots-get_or o i (suc n) (suc k) d l =
    configured_slots-get_or o (i + 1) n k d (omega arith)
    ∙ ap (configure default_slot o) (omega arith)

new_scheduler-Inv : (owner max : ℕ) → 0 < owner → 0 < max → Inv (new_scheduler owner max)
unfolding new_scheduler
new_scheduler-Inv owner max o m = record {
  owned = o;
  some_slots = m;
  counted = configured_slots-length owner 0 max;
  frames = omega arith;
  simulations = omega arith;
  slot_ok = λ i l. rw (configured_slots-get_or owner 0 max i default_slot l) (record {
    inv = unfold configure in ground arith;
    owner = unfold configure in refl;
    index = unfold configure in omega arith;
    older = λ n. absurd (n (unfold configure in refl));
    home = λ n. absurd (n (unfold configure in refl));
    undrawn = λ n. absurd (n (unfold configure in refl));
  });
  awaits = λ e. cc;
}

-- A constructor that succeeds, with an identity counter above zero, gives a well-formed scheduler.
pub create-Inv :
    (next max : ℕ) {s : Scheduler} {next' : ℕ} → create next max ≡ (next', ok s) → 0 < next → Inv s
unfolding create
create-Inv next max {s = s} {next' = n} e p =
    let made : (s ≡ new_scheduler next max) × (0 < max) = (ground arith, ground arith) in
    rw (made.0) (new_scheduler-Inv next max p made.1)

pub use_frame-Inv :
    (w : World) (s : Scheduler) (h : FrameHandle) (c : SlotCall) → Inv s → Inv (use_frame w s h c).0
unfolding use_frame
use_frame-Inv w s h draws v = signal_draw_frame-Inv w s h v
use_frame-Inv w s h aborts v = abort_frame-Inv w s h v
use_frame-Inv w s h c v = on_slot-Inv w s h _ v (λ q. cc) (λ q. cc)

forget-same {ℓ} : {A : Type ℓ} (r : Scheduler × Result A) → (forget r).0 ≡ r.0
unfolding forget
forget-same (s, err e) = refl
forget-same (s, ok a) = refl

pub step-Inv : (s : Scheduler) (c : World × Call) → Inv s → Inv (step s c).0
unfolding step
step-Inv s (w, acquires now) v =
    rw (forget-same (try_acquire_frame s now)) (try_acquire_frame-Inv s now v)
step-Inv s (w, uses h c) v = use_frame-Inv w s h c v

-- Any history of calls, by any handles and with any answers of the outside world, keeps a
-- well-formed scheduler well formed.
pub run-Inv : (s : Scheduler) (cs : List (World × Call)) → Inv s → Inv (run s cs)
unfolding run
run-Inv s [] v = v
run-Inv s (c ∷ cs) v = run-Inv (step s c).0 cs (step-Inv s c v)

-- How a slot may change over a call: its generation never falls, and within a generation a slot
-- that is free stays free.
pub record Later (x y : Slot) : Type 0 where
  pub grows : x.generation ≤ y.generation
  pub stays_free : y.generation ≡ x.generation → x.state ≡ free → y.state ≡ free

Later-refl : (x : Slot) → Later x x
Later-refl x = record { grows = omega arith; stays_free = λ e f. f }

call-Later :
    (w : World) (x : Slot) (h : FrameHandle) (c : SlotCall) {y : Slot}
    → call w x h c ≡ ok y
    → SlotInv x
    → Later x y
call-Later w x h c {y = y} e v = ground (arith, call-Kept w x h c e v)

put-Later :
    (s : Scheduler) (i : ℕ) (slot : Slot)
    → Inv s
    → i < s.max_active_frames
    → Later (slot_at s i) slot
    → (j : ℕ) → Later (slot_at s j) (slot_at (put_slot s i slot) j)
put-Later s i slot v l o j =
    get_or-set_all (λ k x. Later (slot_at s k) x) s.slots i slot default_slot
      (omega (arith, v.counted)) o j (λ ne. Later-refl (slot_at s j))

module _ (s : Scheduler) (v : Inv s) (j : ℕ) where
  on_slot-Later :
      (w : World) (h : FrameHandle) (c : SlotCall)
      → Later (slot_at s j) (slot_at (on_slot w s h c).0 j)
  on_slot-Later w h c =
      on_slot-cases (λ r. Later (slot_at s j) (slot_at r.0 j)) w s h c (λ e. Later-refl _)
        λ slot l e. put-Later s _ slot v l (call-Later w _ h c e (v.slot_ok _ l).inv) j

  use_frame-Later :
      (w : World) (h : FrameHandle) (c : SlotCall)
      → Later (slot_at s j) (slot_at (use_frame w s h c).0 j)
  unfolding use_frame signal_draw_frame open_update
  use_frame-Later w h draws = elim (Bool-cases (is_update s.next_checkpoint)) [
    | inl e ↦ rw e (Later-refl _)
    | inr e ↦ rw e (
        on_slot-cases (λ r. Later (slot_at s j) (slot_at (open_update r).0 j)) w s h draws
          (λ e. Later-refl _)
          λ slot l e. put-Later s _ slot v l (call-Later w _ h draws e (v.slot_ok _ l).inv) j)
  ]
  use_frame-Later w h aborts =
      abort_frame-cases (λ r. Later (slot_at s j) (slot_at r.0 j)) w s h v (λ e. Later-refl _)
        λ slot s' l e k.
          let put = put-Later s _ slot v l (call-Later w _ h aborts e (v.slot_ok _ l).inv) j in
          elim k [ inl (q, m) ↦ rw q put | inr (q, m) ↦ rw q put ]
  use_frame-Later w h c = on_slot-Later w h _

  pub step-Later : (c : World × Call) → Later (slot_at s j) (slot_at (step s c).0 j)
  unfolding step
  step-Later (w, acquires now) = rw (forget-same (try_acquire_frame s now)) (
      try_acquire_frame-cases (λ r. Later (slot_at s j) (slot_at r.0 j)) s now v
        (λ _ _. Later-refl _)
        λ slot h can a i.
          put-Later s _ slot v (next_slot-lt s v)
            (record {
              grows = omega (arith, a.generation);
              stays_free = λ e. absurd (omega (arith, a.generation));
            })
            j)
  step-Later (w, uses h c) = use_frame-Later w h c
