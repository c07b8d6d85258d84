-- ===== src/ResourceState/Ranges/Lookup.antt =====
-- `ReplaceBufferRange` against its pointwise meaning.
use graphics_engine.Common.{
  ℕ, ◌+◌, ◌-◌, ◌<◌, ◌≤◌, ◌≡◌, refl, ◌∙◌, ◌≢◌, ◌⊎◌, Bool, ◌&&◌, Option, none, some, List, [], ◌∷◌,
  ◌++◌, ◌==◌, ltb, leb, if◌then◌else◌, max_u64, arith,
}
use graphics_engine.ResourceState.Types.{Vulkan, BufferState, BufferRange}
use graphics_engine.ResourceState.Ranges.{
  range_end, end_of, find_range, trim, trim_all, replace_buffer_range,
}

module _ (vk : Vulkan) where
  -- A range that Vulkan allows: it is not empty and ends within the device sizes.
  abbrev pub IsRange : ℕ → ℕ → Type 0
  IsRange offset size =
      ((size ≡ vk.whole_size) × (offset < max_u64))
      ⊎ ((size ≢ vk.whole_size) × (0 < size) × (offset + size ≤ max_u64))

  pub range_end-bounds :
      (o s : ℕ) → IsRange o s → (o < range_end vk o s) × (range_end vk o s ≤ max_u64)
  unfolding range_end
  range_end-bounds o s v = ground arith

  -- The two pieces that a range is cut into end where they should.
  pub range_end-before : (o to : ℕ) → o < to → to < max_u64 → range_end vk o (to - o) ≡ to
  unfolding range_end
  range_end-before o to a b = ground (arith, vk.whole_size_max)

  abbrev after_size : ℕ → ℕ → ℕ
  after_size from to = if to == max_u64 then vk.whole_size else to - from

  pub range_end-after :
      (from to : ℕ) → from < to → to ≤ max_u64 → range_end vk from (after_size from to) ≡ to
  unfolding range_end
  range_end-after from to a b = ground (arith, vk.whole_size_max)

  -- The state that the tracker holds for one byte of a buffer.
  abbrev pub state_of : Option BufferRange → Option BufferState
  state_of none = none
  state_of (some r) = some r.state

  abbrev pub state_at : List BufferRange → ℕ → ℕ → Option BufferState
  state_at ranges buffer at = state_of (find_range vk ranges buffer at)

  abbrev pub or_else {ℓ} : {A : Type ℓ} → Option A → Option A → Option A
  or_else none y = y
  or_else (some x) y = some x

  pub find_range-append :
      (xs ys : List BufferRange) (b p : ℕ)
      → find_range vk (xs ++ ys) b p ≡ or_else (find_range vk xs b p) (find_range vk ys b p)
  unfolding find_range
  find_range-append [] ys b p = refl
  find_range-append (x ∷ xs) ys b p = ground (arith, find_range-append xs ys b p)

  state_at-append :
      (xs ys : List BufferRange) (b p : ℕ)
      → state_at (xs ++ ys) b p ≡ or_else (state_at xs b p) (state_at ys b p)
  state_at-append xs ys b p = ground (arith, find_range-append xs ys b p)

  -- Whether a byte lies in a range.
  abbrev pub in_range : ℕ → ℕ → ℕ → ℕ → ℕ → Bool
  in_range buffer offset size b p = buffer == b && leb offset p && ltb p (range_end vk offset size)

  state_at-trim :
      (buffer offset size : ℕ) (r : BufferRange) (b p : ℕ)
      → IsRange offset size
      → IsRange r.offset r.size
      → state_at (trim vk buffer offset size r) b p
        ≡ (if in_range buffer offset size b p then none else state_at (r ∷ []) b p)
  unfolding trim find_range
  state_at-trim buffer offset size r b p v w = ground (
    arith,
    range_end-bounds offset size v,
    range_end-bounds r.offset r.size w,
    range_end-before r.offset offset,
    range_end-after (range_end vk offset size) (end_of vk r),
  )

  abbrev pub All {κ} : (BufferRange → Type κ) → List BufferRange → Type κ
  All P [] = Unit
  All P (r ∷ rs) = P r × All P rs

  pub All-append {κ} :
      (P : BufferRange → Type κ) (xs ys : List BufferRange) → All P xs → All P ys → All P (xs ++ ys)
  All-append P [] ys a b = b
  All-append P (x ∷ xs) ys a b = (a.0, All-append P xs ys a.1 b)

  pub All-map {κ μ} :
      (P : BufferRange → Type κ) (Q : BufferRange → Type μ) (xs : List BufferRange)
      → ((r : BufferRange) → P r → Q r)
      → All P xs
      → All Q xs
  All-map P Q [] f a = tt
  All-map P Q (x ∷ xs) f a = (f x a.0, All-map P Q xs f a.1)

  abbrev pub Valid : BufferRange → Type 0
  Valid r = IsRange r.offset r.size

  state_at-trim_all :
      (buffer offset size : ℕ) (rs : List BufferRange) (b p : ℕ)
      → IsRange offset size
      → All Valid rs
      → state_at (trim_all vk buffer offset size rs) b p
        ≡ (if in_range buffer offset size b p then none else state_at rs b p)
  unfolding trim_all find_range
  state_at-trim_all buffer offset size [] b p v a = ground arith
  state_at-trim_all buffer offset size (r ∷ rs) b p v a =
      state_at-append (trim vk buffer offset size r) (trim_all vk buffer offset size rs) b p
      ∙ rw
          (
            state_at-trim buffer offset size r b p v a.0,
            state_at-trim_all buffer offset size rs b p v a.1,
          )
          (ground arith)

  -- After a replacement of a valid range, among valid ranges, each byte of the replaced range has the
  -- new state, and every other byte of every buffer has the state that it had.
  pub state_at-replace_buffer_range :
      (ranges : List BufferRange) (buffer offset size : ℕ) (state : BufferState) (b p : ℕ)
      → IsRange offset size
      → All Valid ranges
      → state_at (replace_buffer_range vk ranges buffer offset size state) b p
        ≡ (if in_range buffer offset size b p then some state else state_at ranges b p)
  unfolding replace_buffer_range find_range
  state_at-replace_buffer_range ranges buffer offset size state b p v a =
      state_at-append (trim_all vk buffer offset size ranges) _ b p
      ∙ rw (state_at-trim_all buffer offset size ranges b p v a) (ground arith)
