-- ===== src/ResourceState/Segments/Applying.antt =====
-- Applying the segments: the effect of `TransitionBufferRanges` on each byte.
use native.Mathlib.Decide.{dec_lt}
use graphics_engine.Common.{
  ℕ, ◌-◌, ◌<◌, ◌≤◌, ◌≡◌, ◌∙◌, true, false, ◌&&◌, Option, none, some, List, [], ◌∷◌, ◌++◌, ok, err,
  ◌==◌, ltb, leb, if◌then◌else◌, arith, >>=-eq-ok, throw_if, invalid_argument,
}
use graphics_engine.ResourceState.Types.{
  Vulkan, BufferState, BufferRange, BufferTransition, BufferBarrier,
}
use graphics_engine.ResourceState.Ranges.{range_end, end_of, replace_buffer_range}
use graphics_engine.ResourceState.Ranges.Lookup.{
  IsRange, range_end-bounds, Valid, state_at, in_range, state_at-replace_buffer_range,
}
use graphics_engine.ResourceState.Ranges.Disjoint.{Tracked, Tracked-replace_buffer_range}
use graphics_engine.ResourceState.Ranges.Append.{
  no_overlap-Apart, Apart-untracked, Tracked-append, state_at-append-Apart,
}
use graphics_engine.ResourceState.Buffers.{
  is_undefined, new_range, make_buffer_state, resolve_queue_family,
}
use graphics_engine.ResourceState.Buffers.Transition.{used}
use graphics_engine.ResourceState.Segments.{
  Cover, untracked, segments, cover_loop, apply_segment, apply_segments, finish,
  transition_buffer_ranges,
}
use graphics_engine.ResourceState.Segments.Covering.{Chain, Covered, cover_loop-Covered}

module _ (vk : Vulkan) where
  -- What a byte in the given state becomes; `none` where its queue family cannot be resolved.
  abbrev pub target : BufferTransition → Option BufferState → Option BufferState
  target t none = some (make_buffer_state vk t.usage t.queue_family_index)
  target t (some source) =
      elim (resolve_queue_family vk source (make_buffer_state vk t.usage t.queue_family_index)) [
        | ok destination ↦ some (used vk source destination)
        | err e ↦ none
      ]

  resolved-target :
      (t : BufferTransition) (source destination : BufferState)
      → resolve_queue_family vk source (make_buffer_state vk t.usage t.queue_family_index)
        ≡ ok destination
      → target t (some source) ≡ some (used vk source destination)
  resolved-target t source destination q = rw (q, target)

  apply_segment-ok :
      (cur : List BufferRange) (t : BufferTransition) (s : BufferRange) {cur' : List BufferRange}
      {bars : List BufferBarrier}
      → apply_segment vk cur t s ≡ ok (cur', bars)
      → (state : BufferState) × (target t (some s.state) ≡ some state)
        × (cur' ≡ replace_buffer_range vk cur t.buffer s.offset s.size state)
  unfolding apply_segment
  apply_segment-ok cur t s {cur' = cur'} {bars = bars} e =
      let (d, q, r) =
        >>=-eq-ok
          (resolve_queue_family vk s.state (make_buffer_state vk t.usage t.queue_family_index)) _
          e in
      (used vk s.state d, resolved-target t s.state d q, ground arith)

  -- The effect on the tracked ranges, from `from` on.
  pub record Applied (rs cur : List BufferRange) (t : BufferTransition) (from stop : ℕ)
      (final : List BufferRange) : Type 0 where
    pub tracked : Tracked vk final
    pub inside :
        (p : ℕ)
        → from ≤ p
        → p < stop
        → (state : BufferState) × (target t (state_at vk rs t.buffer p) ≡ some state)
          × (state_at vk final t.buffer p ≡ some state)
    pub outside :
        (b p : ℕ)
        → (t.buffer == b && leb from p && ltb p stop) ≡ false
        → state_at vk final b p ≡ state_at vk cur b p

  Applied-cons :
      (rs cur one : List BufferRange) (t : BufferTransition) (from stop : ℕ) (s : BufferRange)
      (state : BufferState) (final : List BufferRange)
      → (s.buffer ≡ t.buffer) × (s.offset ≡ from) × Valid vk s
      → end_of vk s ≤ stop
      → ((p : ℕ) → from ≤ p → p < end_of vk s → state_at vk rs t.buffer p ≡ some s.state)
      → target t (some s.state) ≡ some state
      → one ≡ replace_buffer_range vk cur t.buffer s.offset s.size state
      → Tracked vk cur
      → Applied rs one t (end_of vk s) stop final
      → Applied rs cur t from stop final
  Applied-cons rs cur one t from stop s state final (sb, so, sv) se known g h k next =
      let put : (b p : ℕ)
          → state_at vk one b p ≡ (
              if in_range vk t.buffer s.offset s.size b p
              then some state
              else state_at vk cur b p) =
        λ b p.
          rw h
            (state_at-replace_buffer_range vk cur t.buffer s.offset s.size state b p sv k.valid) in
      let bounds = range_end-bounds vk s.offset s.size sv in
      record {
        tracked = next.tracked;
        inside = λ p l u. elim (dec_lt p (end_of vk s)) [
          | yes here ↦ (
            state,
            rw (known p l here) g,
            next.outside t.buffer p (ground arith) ∙ put t.buffer p ∙ (ground arith),
          )
          | no later ↦ next.inside p (omega arith) u
        ];
        outside =
            λ b p n. next.outside b p (ground (arith, bounds)) ∙ put b p ∙ (ground (arith, bounds));
      }

  apply_segments-Applied :
      (rs cur : List BufferRange) (t : BufferTransition) (from stop : ℕ) (ss : List BufferRange)
      {final : List BufferRange} {bars : List BufferBarrier}
      → Tracked vk cur
      → Chain vk rs t stop from ss
      → apply_segments vk cur t ss ≡ ok (final, bars)
      → Applied rs cur t from stop final
  unfolding apply_segments
  apply_segments-Applied rs cur t from stop [] {final = final} {bars = bars} k c e =
      let q : final ≡ cur = ground arith in
      record { tracked = rw q k; inside = λ p l u. absurd (omega arith); outside = λ b p n. rw q }
  apply_segments-Applied rs cur t from stop (s ∷ ss) {final = final} {bars = bars} k c e =
      let (one, q, r) = >>=-eq-ok (apply_segment vk cur t s) _ e in
      let (more, q', r') = >>=-eq-ok (apply_segments vk one.0 t ss) _ r in
      let (state, g, h) = apply_segment-ok cur t s {cur' = one.0} {bars = one.1} q in
      let k' : Tracked vk one.0 =
        rw h (Tracked-replace_buffer_range vk cur t.buffer s.offset s.size state c.2 k) in
      let next =
        apply_segments-Applied rs one.0 t (end_of vk s) stop ss {final = more.0} {bars = more.1} k'
          c.5 q' in
      let f : more.0 ≡ final = ground arith in
      rw f at
        (Applied-cons rs cur one.0 t from stop s state more.0 (c.0, c.1, c.2) c.3 c.4 g h k next)

  module _ (rs : List BufferRange) (t : BufferTransition) (v : IsRange vk t.offset t.size)
      (ok_rs : Tracked vk rs) where
    finish-Applied :
        (cover : Cover) {final : List BufferRange} {bars : List BufferBarrier}
        → Covered vk rs t (range_end vk t.offset t.size) t.offset true cover
        → finish vk rs t cover ≡ ok (final, bars)
        → Applied rs rs t t.offset (range_end vk t.offset t.size) final
    unfolding finish
    finish-Applied untracked {final = final} {bars = bars} (f, clear) e =
        let state : BufferState = make_buffer_state vk t.usage t.queue_family_index in
        let new : BufferRange = new_range vk t state in
        let apart = no_overlap-Apart vk rs new clear in
        let made : final ≡ rs ++ new ∷ [] = ground arith in
        rw made (record {
          tracked = Tracked-append vk rs new ok_rs v apart;
          inside = λ p l u. (
            state,
            rw (Apart-untracked vk rs new p apart l u),
            state_at-append-Apart vk rs new t.buffer p apart ∙ (ground arith),
          );
          outside = λ b p n. state_at-append-Apart vk rs new b p apart ∙ rw n;
        })
    finish-Applied (segments ss) {final = final} {bars = bars} c e =
        apply_segments-Applied rs rs t t.offset (range_end vk t.offset t.size) ss {final = final}
          {bars = bars} ok_rs c e

    -- Where it succeeds on a valid range, `TransitionBufferRanges` treats each byte of it by itself: it becomes what the requested
    -- use makes of the state it had, untracked or tracked. All other bytes stay as they were, and the
    -- tracked ranges stay valid and disjoint.
    pub transition_buffer_ranges-Applied :
        {final : List BufferRange} {bars : List BufferBarrier}
        → transition_buffer_ranges vk rs t ≡ ok (final, bars)
        → Applied rs rs t t.offset (range_end vk t.offset t.size) final
    unfolding transition_buffer_ranges
    transition_buffer_ranges-Applied {final = final} {bars = bars} e =
        let (u, q, r) = >>=-eq-ok (throw_if (t.buffer == vk.null_handle) invalid_argument) _ e in
        let (u', q', r') = >>=-eq-ok (throw_if (is_undefined t.usage) invalid_argument) _ r in
        let stop = range_end vk t.offset t.size in
        let (cover, f, s) =
          >>=-eq-ok (cover_loop vk (stop - t.offset) rs t stop t.offset true) _ r' in
        let (lower, upper) = range_end-bounds vk t.offset t.size v in
        finish-Applied cover {final = final} {bars = bars}
          (cover_loop-Covered vk rs t stop (stop - t.offset) t.offset true ok_rs.disjoint upper
            (omega arith) f)
          s
