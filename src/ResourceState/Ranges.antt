-- ===== src/ResourceState/Ranges.antt =====
-- graphics/vulkan/resource_state.cpp: the helpers on a vector of tracked buffer ranges.
pub mod Lookup
pub mod Disjoint
pub mod Source
pub mod Append
use Prim.Native.Nat.{min}
use graphics_engine.Common.{
  ℕ, zero, suc, ◌+◌, ◌-◌, Bool, true, false, ◌&&◌, Option, none, some, List, [], ◌∷◌, ◌++◌, Result,
  ok, err, invalid_argument, ◌==◌, ltb, leb, if◌then◌else◌, max_u64, u64, any,
}
use graphics_engine.ResourceState.Types.{Vulkan, BufferState, BufferRange, state_equals}

module _ (vk : Vulkan) where
  unfoldable pub range_end : ℕ → ℕ → ℕ
  range_end offset size = if size == vk.whole_size then max_u64 else u64 (offset + size)

  abbrev pub end_of : BufferRange → ℕ
  end_of r = range_end r.offset r.size

  abbrev pub ranges_overlap : ℕ → ℕ → ℕ → ℕ → Bool
  ranges_overlap left_offset left_size right_offset right_size =
      ltb left_offset (range_end right_offset right_size)
      && ltb right_offset (range_end left_offset left_size)

  pub has_buffer_range_overlap : List BufferRange → ℕ → ℕ → ℕ → Bool
  has_buffer_range_overlap ranges buffer offset size =
      any (λ r. r.buffer == buffer && ranges_overlap r.offset r.size offset size) ranges

  -- The range test of the two covering loops: the range is of the buffer and holds the offset.
  abbrev pub covers : BufferRange → ℕ → ℕ → Bool
  covers r buffer at = r.buffer == buffer && leb r.offset at && ltb at (end_of r)

  -- The inner `for` with its `break`: the first range that covers the offset.
  unfoldable pub find_range : List BufferRange → ℕ → ℕ → Option BufferRange
  find_range [] buffer at = none
  find_range (r ∷ rs) buffer at = if covers r buffer at then some r else find_range rs buffer at

  -- How the source found so far meets the state of the next range.
  abbrev pub agree : Bool → Option BufferState → BufferState → Result (Option BufferState)
  agree throw_on_mixed none state = ok (some state)
  agree throw_on_mixed (some source) state =
      if state_equals source state
      then ok (some source)
      else (if throw_on_mixed then err invalid_argument else ok none)

  -- The `while` of `FindBufferRangeSource`; each round moves `covered` on, so that as many rounds
  -- as there are bytes to cover are enough.
  unfoldable pub source_loop :
      ℕ → List BufferRange → ℕ → Bool → ℕ → ℕ → Option BufferState → Result (Option BufferState)
  source_loop zero ranges buffer mixed stop covered source = ok source
  source_loop (suc fuel) ranges buffer mixed stop covered source = elim (ltb covered stop) [
    | false ↦ ok source
    | true ↦ elim (find_range ranges buffer covered) [
      | none ↦ ok none
      | some r ↦ elim (agree mixed source r.state) [
        | err e ↦ err e
        | ok none ↦ ok none
        | ok (some state) ↦
            source_loop fuel ranges buffer mixed stop (min (end_of r) stop) (some state)
      ]
    ]
  ]

  unfoldable pub find_buffer_range_source :
      List BufferRange → ℕ → ℕ → ℕ → Bool → Result (Option BufferState)
  find_buffer_range_source ranges buffer offset size throw_on_mixed =
      source_loop (range_end offset size - offset) ranges buffer throw_on_mixed
        (range_end offset size) offset none

  -- What the loop of `ReplaceBufferRange` keeps of one range.
  pub trim : ℕ → ℕ → ℕ → BufferRange → List BufferRange
  trim buffer offset size r =
      if r.buffer == buffer && ranges_overlap r.offset r.size offset size
      then before ++ after
      else r ∷ []
    where
      before : List BufferRange
      before = if ltb r.offset offset then record r { size = offset - r.offset } ∷ [] else []

      after : List BufferRange
      after =
          if ltb (range_end offset size) (end_of r)
          then record r {
            offset = range_end offset size;
            size = if end_of r == max_u64 then vk.whole_size else end_of r - range_end offset size;
          }
            ∷ []
          else []

  pub trim_all : ℕ → ℕ → ℕ → List BufferRange → List BufferRange
  trim_all buffer offset size [] = []
  trim_all buffer offset size (r ∷ rs) = trim buffer offset size r ++ trim_all buffer offset size rs

  pub replace_buffer_range : List BufferRange → ℕ → ℕ → ℕ → BufferState → List BufferRange
  unfolding trim_all
  replace_buffer_range ranges buffer offset size state =
      trim_all buffer offset size ranges
      ++ record { buffer = buffer; offset = offset; size = size; state = state } ∷ []
