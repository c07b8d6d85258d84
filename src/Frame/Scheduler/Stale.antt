-- ===== src/Frame/Scheduler/Stale.antt =====
-- A handle whose frame was recycled or aborted is dead for good.
use graphics_engine.Common.{
  ◌<◌, ◌≡◌, refl, ◌⊎◌, inl, inr, ok, err, arith, Result, Error, List, [], ◌∷◌, Bool-cases,
  invalid_state, get_or-set_self,
}
use graphics_engine.Frame.Types.{free, FrameHandle, World, Slot, invalid_index, default_slot}
use graphics_engine.Frame.Slot.{SlotCall, call, draws, aborts, recycles}
use graphics_engine.Frame.Slot.Laws.{
  SlotInv, Matches, call-Kept, call-Matches, aborts_lem, recycles_lem,
}
use graphics_engine.Frame.Scheduler.{
  Scheduler, Call, slot_at, put_slot, on_slot, open_update, is_update, signal_draw_frame, use_frame,
  step, run,
}
use graphics_engine.Frame.Scheduler.Invariant.{Inv}
use graphics_engine.Frame.Scheduler.Steps.{on_slot-cases}
use graphics_engine.Frame.Scheduler.Aborts.{abort_frame-cases}
use graphics_engine.Frame.Scheduler.History.{step-Inv, use_frame-Inv, run-Inv, step-Later}

-- The slot has gone on to a later generation, or is free again after this one.
abbrev IsStale : FrameHandle → Slot → Type 0
IsStale h x = (h.generation < x.generation) ⊎ ((h.generation ≡ x.generation) × (x.state ≡ free))

abbrev StaleIn : Scheduler → FrameHandle → Type 0
StaleIn s h = IsStale h (slot_at s h.frame_slot_index)

run-IsStale :
    (s : Scheduler) (h : FrameHandle) (cs : List (World × Call))
    → Inv s
    → StaleIn s h
    → StaleIn (run s cs) h
unfolding run
run-IsStale s h [] v d = d
run-IsStale s h (c ∷ cs) v d =
    run-IsStale (step s c).0 h cs (step-Inv s c v)
      (ground (arith, step-Later s v h.frame_slot_index c))

not-Matches :
    (x : Slot) (h : FrameHandle)
    → SlotInv x
    → h.application_frame_index < invalid_index
    → IsStale h x
    → Matches x h
    → ⊥
not-Matches x h v l d m = ground (arith, v)

abbrev Rejects : Scheduler → Scheduler × Result (Unit {0}) → Type 0
Rejects s r = (e : Error) × (r ≡ (s, err e))

module _ (w : World) (s : Scheduler) (h : FrameHandle) (v : Inv s)
    (issued : h.application_frame_index < invalid_index) (d : StaleIn s h) where
  on_slot-Rejects : (c : SlotCall) → Rejects s (on_slot w s h c)
  on_slot-Rejects c =
      on_slot-cases (Rejects s) w s h c (λ e. (e, refl))
        λ slot l e. absurd (not-Matches _ h (v.slot_ok _ l).inv issued d (call-Matches w _ h c e))

  use_frame-Rejects : (c : SlotCall) → Rejects s (use_frame w s h c)
  unfolding use_frame signal_draw_frame open_update
  use_frame-Rejects draws = elim (Bool-cases (is_update s.next_checkpoint)) [
    | inl e ↦ rw e (invalid_state, refl)
    | inr e ↦ let (x, q) = on_slot-Rejects draws in rw e (rw q (x, refl))
  ]
  use_frame-Rejects aborts =
      abort_frame-cases (Rejects s) w s h v (λ e. (e, refl))
        λ slot s' l e k.
          absurd (not-Matches _ h (v.slot_ok _ l).inv issued d (call-Matches w _ h aborts e))
  use_frame-Rejects c = on_slot-Rejects _

freed-StaleIn :
    (w : World) (s t : Scheduler) (h : FrameHandle) (c : SlotCall) (slot : Slot)
    → Inv s
    → (l : h.frame_slot_index < s.max_active_frames)
    → call w (slot_at s h.frame_slot_index) h c ≡ ok slot
    → slot.state ≡ free
    → t.slots ≡ s.slots
    → StaleIn (put_slot t h.frame_slot_index slot) h
freed-StaleIn w s t h c slot v l e f q = rw q (
    rw (get_or-set_self s.slots h.frame_slot_index slot default_slot (omega (arith, v.counted)))
      (ground (arith, call-Kept w _ h c e (v.slot_ok _ l).inv, call-Matches w _ h c e)))

ends-StaleIn :
    (w : World) (s : Scheduler) (h : FrameHandle) (c : SlotCall)
    → Inv s
    → (c ≡ recycles) ⊎ (c ≡ aborts)
    → (use_frame w s h c).1 ≡ ok tt
    → StaleIn (use_frame w s h c).0 h
unfolding use_frame
ends-StaleIn w s h c v (inl q) = rw q (
    on_slot-cases (λ r. r.1 ≡ ok tt → StaleIn r.0 h) w s h recycles (λ e z. cc)
      λ slot l e z. freed-StaleIn w s s h recycles slot v l e (recycles_lem w _ h e).0 refl)
ends-StaleIn w s h c v (inr q) = rw q (
    abort_frame-cases (λ r. r.1 ≡ ok tt → StaleIn r.0 h) w s h v (λ e z. cc)
      λ slot s' l e k z.
        freed-StaleIn w s s' h aborts slot v l e (aborts_lem w _ h e).0 (ground arith))

-- Once a frame was recycled or aborted through its handle, every later call that would change a frame
-- through that handle, in any history of calls, throws and leaves the scheduler as it was. The handle is one that was issued:
-- its frame index is not the index that marks "none".
pub frame_over :
    (w : World) (s : Scheduler) (h : FrameHandle) (c : SlotCall)
    → Inv s
    → h.application_frame_index < invalid_index
    → (c ≡ recycles) ⊎ (c ≡ aborts)
    → (use_frame w s h c).1 ≡ ok tt
    → (cs : List (World × Call)) (w' : World) (c' : SlotCall)
    → let t = run (use_frame w s h c).0 cs in (e : Error) × (use_frame w' t h c' ≡ (t, err e))
frame_over w s h c v issued k e cs w' c' =
    let v' = use_frame-Inv w s h c v in
    use_frame-Rejects w' _ h (run-Inv _ cs v') issued
      (run-IsStale _ h cs v' (ends-StaleIn w s h c v k e)) c'
