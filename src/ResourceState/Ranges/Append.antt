-- ===== src/ResourceState/Ranges/Append.antt =====
-- A range that overlaps nothing tracked, and what tracking it adds.
use graphics_engine.Common.{
  ℕ, ◌<◌, ◌≤◌, ◌≡◌, refl, false, none, some, List, [], ◌∷◌, ◌++◌, arith, if◌then◌else◌,
}
use graphics_engine.ResourceState.Types.{Vulkan, BufferRange}
use graphics_engine.ResourceState.Ranges.{covers, end_of, find_range, has_buffer_range_overlap}
use graphics_engine.ResourceState.Ranges.Lookup.{
  All, All-append, All-map, Valid, state_at, in_range,
}
use graphics_engine.ResourceState.Ranges.Disjoint.{Apart, Disjoint-append, Tracked}

module _ (vk : Vulkan) where
  pub no_overlap-Apart :
      (rs : List BufferRange) (new : BufferRange)
      → has_buffer_range_overlap vk rs new.buffer new.offset new.size ≡ false
      → All vk (λ r. Apart vk r new) rs
  unfolding has_buffer_range_overlap
  no_overlap-Apart [] new e = tt
  no_overlap-Apart (r ∷ rs) new e = (ground arith, no_overlap-Apart rs new (ground arith))

  pub Apart-untracked :
      (rs : List BufferRange) (new : BufferRange) (p : ℕ)
      → All vk (λ r. Apart vk r new) rs
      → new.offset ≤ p
      → p < end_of vk new
      → find_range vk rs new.buffer p ≡ none
  unfolding find_range
  Apart-untracked [] new p a l u = refl
  Apart-untracked (r ∷ rs) new p a l u = ground (arith, Apart-untracked rs new p a.1 l u)

  pub Tracked-append :
      (rs : List BufferRange) (new : BufferRange)
      → Tracked vk rs
      → Valid vk new
      → All vk (λ r. Apart vk r new) rs
      → Tracked vk (rs ++ new ∷ [])
  Tracked-append rs new t v clear = record {
    valid = All-append vk (Valid vk) rs (new ∷ []) t.valid (v, tt);
    disjoint =
        Disjoint-append vk rs (new ∷ []) t.disjoint (tt, tt)
          (All-map vk (λ r. Apart vk r new) _ rs (λ r a. (a, tt)) clear);
  }

  pub state_at-append-Apart :
      (rs : List BufferRange) (new : BufferRange) (b p : ℕ)
      → All vk (λ r. Apart vk r new) rs
      → state_at vk (rs ++ new ∷ []) b p ≡ (
          if in_range vk new.buffer new.offset new.size b p
          then some new.state
          else state_at vk rs b p)
  unfolding find_range
  state_at-append-Apart [] new b p a = ground arith
  state_at-append-Apart (r ∷ rs) new b p a = ground (arith, state_at-append-Apart rs new b p a.1)

  -- The two clauses of the search, for modules that keep it shut.
  pub find_range-nil : (b p : ℕ) → find_range vk [] b p ≡ none
  unfolding find_range
  find_range-nil b p = refl

  pub find_range-cons :
      (r : BufferRange) (rs : List BufferRange) (b p : ℕ)
      → find_range vk (r ∷ rs) b p ≡ (if covers vk r b p then some r else find_range vk rs b p)
  unfolding find_range
  find_range-cons r rs b p = refl
