-- ===== src/ResourceState/Segments.antt =====
-- graphics/vulkan/resource_state.cpp: `TransitionBufferRanges`, which takes a range in many states.
pub mod Covering
pub mod Applying
use Prim.Native.Nat.{min}
use graphics_engine.Common.{
  ℕ, zero, suc, ◌-◌, Bool, true, false, not, ◌&&◌, Option, none, some, List, [], ◌∷◌, ◌++◌, Result,
  ok, err, ◌>>=◌, ◌>>◌, throw_if, invalid_argument, ◌==◌, ltb, if◌then◌else◌, max_u64,
}
use graphics_engine.ResourceState.Types.{
  Vulkan, BufferState, BufferTransition, BufferRange, BufferBarrier,
}
use graphics_engine.ResourceState.Ranges.{
  range_end, end_of, find_range, has_buffer_range_overlap, replace_buffer_range,
}
use graphics_engine.ResourceState.Buffers.{
  is_undefined, new_range, make_buffer_state, resolve_queue_family, requires_barrier,
  merge_read_states, make_buffer_barrier, validate_initial_queue_family,
}

-- What the covering loop ends with: nothing of the range was tracked, or its segments in order.
pub data Cover : Type 0 where
  untracked : Cover
  segments : List BufferRange → Cover

module _ (vk : Vulkan) where
  abbrev pub segment_of : BufferTransition → ℕ → ℕ → BufferState → BufferRange
  segment_of t from to state = record {
    buffer = t.buffer;
    offset = from;
    size = if to == max_u64 then vk.whole_size else to - from;
    state = state;
  }

  unfoldable pub prepend : BufferRange → Cover → Cover
  prepend s untracked = segments (s ∷ [])
  prepend s (segments rest) = segments (s ∷ rest)

  -- The `while` that fills `sources`; `is_first` says that it is still empty. Each round moves the
  -- covered offset on, so that as many rounds as there are bytes to cover are enough.
  unfoldable pub cover_loop : ℕ → List BufferRange → BufferTransition → ℕ → ℕ → Bool → Result Cover
  unfolding prepend
  cover_loop zero ranges t stop covered is_first = ok (segments [])
  cover_loop (suc fuel) ranges t stop covered is_first = elim (ltb covered stop) [
    | false ↦ ok (segments [])
    | true ↦ elim (find_range vk ranges t.buffer covered) [
      | none ↦
          if is_first && not (has_buffer_range_overlap vk ranges t.buffer t.offset t.size)
          then ok untracked
          else err invalid_argument
      | some r ↦ do
        rest ← cover_loop fuel ranges t stop (min (end_of vk r) stop) false
        ok (prepend (segment_of t covered (min (end_of vk r) stop) r.state) rest)
    ]
  ]

  -- One segment: its new state, and its barrier if it needs one.
  unfoldable pub apply_segment :
      List BufferRange
      → BufferTransition
      → BufferRange
      → Result (List BufferRange × List BufferBarrier)
  apply_segment ranges t s = do
    destination ←
        resolve_queue_family vk s.state (make_buffer_state vk t.usage t.queue_family_index)
    if requires_barrier vk s.state destination
        then ok (
          replace_buffer_range vk ranges t.buffer s.offset s.size destination,
          make_buffer_barrier vk t.buffer s.offset s.size s.state destination ∷ [],
        )
        else ok (
          replace_buffer_range vk ranges t.buffer s.offset s.size
              (merge_read_states vk s.state destination),
          [],
        )

  unfoldable pub apply_segments :
      List BufferRange
      → BufferTransition
      → List BufferRange
      → Result (List BufferRange × List BufferBarrier)
  unfolding apply_segment
  apply_segments ranges t [] = ok (ranges, [])
  apply_segments ranges t (s ∷ rest) = do
    (replaced, barriers) ← apply_segment ranges t s
    (final, more) ← apply_segments replaced t rest
    ok (final, barriers ++ more)

  unfoldable pub finish :
      List BufferRange → BufferTransition → Cover → Result (List BufferRange × List BufferBarrier)
  finish ranges t untracked = do
    let destination = make_buffer_state vk t.usage t.queue_family_index
    validate_initial_queue_family vk destination
    ok (ranges ++ new_range vk t destination ∷ [], [])
  finish ranges t (segments sources) = apply_segments ranges t sources

  unfoldable pub transition_buffer_ranges :
      List BufferRange → BufferTransition → Result (List BufferRange × List BufferBarrier)
  unfolding cover_loop finish
  transition_buffer_ranges ranges t = do
    throw_if (t.buffer == vk.null_handle) invalid_argument
    throw_if (is_undefined t.usage) invalid_argument
    cover ←
        cover_loop (range_end vk t.offset t.size - t.offset) ranges t (range_end vk t.offset t.size)
          t.offset true
    finish ranges t cover
