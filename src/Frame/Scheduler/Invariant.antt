-- ===== src/Frame/Scheduler/Invariant.antt =====
-- What holds of a frame scheduler between two calls.
use native.Mathlib.Decide.{ℕ_discrete}
use graphics_engine.Common.{
  ℕ, ◌+◌, ◌%◌, ◌<◌, ◌≤◌, ◌≡◌, sym, ◌≢◌, false, ok, arith, ◌∙◌, length, get_or, set, length-set,
  get_or-set_self, get_or-set_ne, List,
}
use graphics_engine.Frame.Types.{free, FrameHandle, World, Slot, invalid_index, default_slot}
use graphics_engine.Frame.Slot.{SlotCall, call, draws, aborts}
use graphics_engine.Frame.Slot.Laws.{SlotInv, call-SlotInv, call-Kept, call_undrawn}
use graphics_engine.Frame.Scheduler.{Scheduler, Checkpoint, draw, slot_at, put_slot}

-- The scheduler's own fields that a slot's invariant speaks of.
pub record Book : Type 0 where
  pub owner_id : ℕ
  pub max_active_frames : ℕ
  pub next_checkpoint : Checkpoint
  pub next_application_frame_index : ℕ

abbrev pub book : Scheduler → Book
book s = record {
  owner_id = s.owner_id;
  max_active_frames = s.max_active_frames;
  next_checkpoint = s.next_checkpoint;
  next_application_frame_index = s.next_application_frame_index;
}

-- Slot `i` of a scheduler: its identity, the frame in it if any, and that only the frame acquired
-- last can lack its draw signal, and only while the application owes one.
pub record SlotOk (s : Book) (i : ℕ) (slot : Slot) : Type 0 where
  pub inv : SlotInv slot
  pub owner : slot.owner_id ≡ s.owner_id
  pub index : slot.slot_index ≡ i
  pub older : slot.state ≢ free → slot.application_frame_index < s.next_application_frame_index
  pub home : slot.state ≢ free → slot.application_frame_index % s.max_active_frames ≡ i
  pub undrawn :
      slot.state ≢ free
      → slot.draw_signal.is_set ≡ false
      → (s.next_checkpoint ≡ draw)
        × (slot.application_frame_index + 1 ≡ s.next_application_frame_index)

pub record Inv (s : Scheduler) : Type 0 where
  pub owned : 0 < s.owner_id
  pub some_slots : 0 < s.max_active_frames
  pub counted : length s.slots ≡ s.max_active_frames
  pub frames : s.next_application_frame_index ≤ invalid_index
  pub simulations : s.next_simulation_index ≤ invalid_index
  pub slot_ok : (i : ℕ) → i < s.max_active_frames → SlotOk (book s) i (slot_at s i)
  pub awaits :
      s.next_checkpoint ≡ draw
      → (i : ℕ) × (i < s.max_active_frames)
        × ((slot_at s i).state ≢ free)
        × ((slot_at s i).draw_signal.is_set ≡ false)

-- A write to one place keeps a property that holds at every place.
pub get_or-set_all {ℓ κ} :
    {A : Type ℓ} (P : ℕ → A → Type κ) (xs : List A) (i : ℕ) (v d : A)
    → i < length xs
    → P i v
    → (j : ℕ) → (j ≢ i → P j (get_or xs j d))
    → P j (get_or (set xs i v) j d)
get_or-set_all P xs i v d l p j q = elim (ℕ_discrete j i) [
  | yes e ↦ rw (e, get_or-set_self xs i v d l) p
  | no n ↦ rw (get_or-set_ne xs i j v d (λ e. n (sym e))) (q n)
]

pub call-SlotOk :
    (w : World) (s : Book) (i : ℕ) (slot : Slot) (h : FrameHandle) (c : SlotCall) {slot' : Slot}
    → call w slot h c ≡ ok slot'
    → c ≢ draws
    → c ≢ aborts
    → SlotOk s i slot
    → SlotOk s i slot'
call-SlotOk w s i slot h c {slot' = slot'} e n m o = record {
  inv = call-SlotInv w slot h c e o.inv;
  owner = ground (arith, call-Kept w slot h c e o.inv);
  index = ground (arith, call-Kept w slot h c e o.inv);
  older = ground (arith, call-Kept w slot h c e o.inv);
  home = ground (arith, call-Kept w slot h c e o.inv);
  undrawn = ground (arith, call-Kept w slot h c e o.inv, call_undrawn w slot h c e n m o.inv);
}

module _ (s : Scheduler) (v : Inv s) (i : ℕ) (l : i < s.max_active_frames) (slot : Slot) where
  -- A slot is written and the checkpoint set; the other slots must be right for the new checkpoint.
  pub put-Inv :
      (cp : Checkpoint) (t : Scheduler)
      → t ≡ record (put_slot s i slot) { next_checkpoint = cp }
      → SlotOk (record (book s) { next_checkpoint = cp }) i slot
      → ((j : ℕ)
          → j < s.max_active_frames
          → j ≢ i
          → SlotOk (record (book s) { next_checkpoint = cp }) j (slot_at s j))
      → (cp ≡ draw
          → (j : ℕ) × (j < s.max_active_frames)
            × ((slot_at t j).state ≢ free)
            × ((slot_at t j).draw_signal.is_set ≡ false))
      → Inv t
  put-Inv cp t e o q a = rw e (record {
    owned = v.owned;
    some_slots = v.some_slots;
    counted = length-set s.slots i slot ∙ v.counted;
    frames = v.frames;
    simulations = v.simulations;
    slot_ok = λ j lj.
        get_or-set_all (SlotOk (record (book s) { next_checkpoint = cp })) s.slots i slot
          default_slot (rw v.counted l) o j (q j lj);
    awaits = rw e at a;
  })
