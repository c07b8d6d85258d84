-- ===== src/ResourceState/Ranges/Disjoint.antt =====
-- A replacement keeps the tracked ranges valid and disjoint.
use graphics_engine.Common.{ℕ, ◌≤◌, ◌≡◌, ◌≢◌, ◌⊎◌, List, [], ◌∷◌, ◌++◌, arith}
use graphics_engine.ResourceState.Types.{Vulkan, BufferState, BufferRange}
use graphics_engine.ResourceState.Ranges.{range_end, end_of, trim, trim_all, replace_buffer_range}
use graphics_engine.ResourceState.Ranges.Lookup.{
  IsRange, range_end-bounds, range_end-before, range_end-after, All, All-append, All-map, Valid,
}

module _ (vk : Vulkan) where
  -- Two ranges share no byte.
  abbrev pub Apart : BufferRange → BufferRange → Type 0
  Apart x y = (x.buffer ≢ y.buffer) ⊎ (end_of vk x ≤ y.offset) ⊎ (end_of vk y ≤ x.offset)

  abbrev pub Disjoint : List BufferRange → Type 0
  Disjoint [] = Unit
  Disjoint (r ∷ rs) = All vk (Apart r) rs × Disjoint rs

  -- What the tracker keeps true of its buffer ranges.
  pub record Tracked (ranges : List BufferRange) : Type 0 where
    pub valid : All vk (Valid vk) ranges
    pub disjoint : Disjoint ranges

  -- A piece of a range that stays clear of the replaced one.
  record Piece (new r x : BufferRange) : Type 0 where
    valid : Valid vk x
    same : x.buffer ≡ r.buffer
    from : r.offset ≤ x.offset
    to : end_of vk x ≤ end_of vk r
    clear : Apart x new

  Piece-trim :
      (new r : BufferRange)
      → Valid vk new
      → Valid vk r
      → All vk (Piece new r) (trim vk new.buffer new.offset new.size r)
  unfolding trim
  Piece-trim new r v w = ground (
    arith,
    vk.whole_size_max,
    range_end-bounds vk new.offset new.size v,
    range_end-bounds vk r.offset r.size w,
    range_end-before vk r.offset new.offset,
    range_end-after vk (range_end vk new.offset new.size) (end_of vk r),
  )

  Apart-pieces : (new r s x y : BufferRange) → Apart r s → Piece new r x → Piece new s y → Apart x y
  Apart-pieces new r s x y a p q = ground arith

  pub Disjoint-append :
      (xs ys : List BufferRange)
      → Disjoint xs
      → Disjoint ys
      → All vk (λ x. All vk (Apart x) ys) xs
      → Disjoint (xs ++ ys)
  Disjoint-append [] ys a b c = b
  Disjoint-append (x ∷ xs) ys a b c =
      (All-append vk (Apart x) xs ys a.0 c.0, Disjoint-append xs ys a.1 b c.1)

  Disjoint-trim :
      (new r : BufferRange)
      → Valid vk new
      → Valid vk r
      → Disjoint (trim vk new.buffer new.offset new.size r)
  unfolding trim
  Disjoint-trim new r v w =
      ground
        (arith, range_end-bounds vk new.offset new.size v, range_end-before vk r.offset new.offset)

  module _ (new : BufferRange) (v : Valid vk new) where
    abbrev trimmed : List BufferRange → List BufferRange
    trimmed = trim_all vk new.buffer new.offset new.size

    -- A range apart from all of a list is apart from all that is kept of it.
    Apart-trimmed :
        (r x : BufferRange) (rs : List BufferRange)
        → Piece new r x
        → All vk (Valid vk) rs
        → All vk (Apart r) rs
        → All vk (Apart x) (trimmed rs)
    unfolding trim_all
    Apart-trimmed r x [] p a d = tt
    Apart-trimmed r x (s ∷ rs) p a d =
        All-append vk (Apart x) (trim vk new.buffer new.offset new.size s) _
          (All-map vk (Piece new s) (Apart x) _ (λ y q. Apart-pieces new r s x y d.0 p q)
            (Piece-trim new s v a.0))
          (Apart-trimmed r x rs p a.1 d.1)

    Tracked-trimmed :
        (rs : List BufferRange)
        → All vk (Valid vk) rs
        → Disjoint rs
        → All vk (Valid vk) (trimmed rs)
          × Disjoint (trimmed rs)
          × All vk (λ x. Apart x new) (trimmed rs)
    unfolding trim_all
    Tracked-trimmed [] a d = (tt, tt, tt)
    Tracked-trimmed (r ∷ rs) a d =
        let (a', d', c') = Tracked-trimmed rs a.1 d.1 in
        let pieces = Piece-trim new r v a.0 in
        let head : List BufferRange = trim vk new.buffer new.offset new.size r in
        (
          All-append vk (Valid vk) head _
              (All-map vk (Piece new r) (Valid vk) head (λ x p. p.valid) pieces) a',
          Disjoint-append head _ (Disjoint-trim new r v a.0) d'
              (All-map vk (Piece new r) _ head (λ x p. Apart-trimmed r x rs p a.1 d.0) pieces),
          All-append vk (λ x. Apart x new) head _
              (All-map vk (Piece new r) _ head (λ x p. p.clear) pieces) c',
        )

  -- Replacing a valid range keeps the tracked ranges valid and disjoint.
  pub Tracked-replace_buffer_range :
      (ranges : List BufferRange) (buffer offset size : ℕ) (state : BufferState)
      → IsRange vk offset size
      → Tracked ranges
      → Tracked (replace_buffer_range vk ranges buffer offset size state)
  unfolding replace_buffer_range
  Tracked-replace_buffer_range ranges buffer offset size state v t =
      let new : BufferRange = record {
        buffer = buffer;
        offset = offset;
        size = size;
        state = state;
      } in
      let (a, d, c) = Tracked-trimmed new v ranges t.valid t.disjoint in
      record {
        valid = All-append vk (Valid vk) _ _ a (v, tt);
        disjoint =
            Disjoint-append _ _ d (tt, tt) (All-map vk (λ x. Apart x new) _ _ (λ x p. (p, tt)) c);
      }
