-- ===== src/ResourceState/Buffers/Transition.antt =====
-- `TransitionBuffer` against the state of each byte.
use graphics_engine.Common.{
  subst, invalid_argument, ℕ, ◌<◌, ◌≤◌, ◌≡◌, refl, true, Option, none, some, List, [], ◌∷◌, ◌++◌,
  ok, ◌==◌, if◌then◌else◌, arith, >>=-eq-ok, throw_if,
}
use graphics_engine.ResourceState.Types.{
  Vulkan, BufferState, BufferRange, BufferTransition, BufferBarrier,
}
use graphics_engine.ResourceState.Ranges.{range_end, find_buffer_range_source, replace_buffer_range}
use graphics_engine.ResourceState.Ranges.Lookup.{
  IsRange, state_at, in_range, state_at-replace_buffer_range,
}
use graphics_engine.ResourceState.Ranges.Disjoint.{Tracked, Tracked-replace_buffer_range}
use graphics_engine.ResourceState.Ranges.Source.{find_buffer_range_source-Answer, Answer}
use graphics_engine.ResourceState.Ranges.Append.{
  no_overlap-Apart, Apart-untracked, Tracked-append, state_at-append-Apart,
}
use graphics_engine.ResourceState.Buffers.{
  is_undefined, new_range, make_buffer_state, resolve_queue_family, requires_barrier,
  merge_read_states, make_buffer_barrier, start_tracking, continue_tracking, transition_buffer,
}

module _ (vk : Vulkan) where
  -- The state that the bytes of a range take on, and the barrier for it.
  abbrev pub used : BufferState → BufferState → BufferState
  used source destination =
      if requires_barrier vk source destination
      then destination
      else merge_read_states vk source destination

  abbrev pub barrier_for : BufferTransition → BufferState → BufferState → Option BufferBarrier
  barrier_for t source destination =
      if requires_barrier vk source destination
      then some (make_buffer_barrier vk t.buffer t.offset t.size source destination)
      else none

  -- Why a transition gave its range a state and answered a barrier.
  pub data Transitioned (rs : List BufferRange) (t : BufferTransition) (state : BufferState)
      (barrier : Option BufferBarrier) : Type 0 where
    started :
        ((p : ℕ)
          → t.offset ≤ p
          → p < range_end vk t.offset t.size
          → state_at vk rs t.buffer p ≡ none)
        → state ≡ make_buffer_state vk t.usage t.queue_family_index
        → barrier ≡ none
        → Transitioned rs t state barrier
    continued :
        (source destination : BufferState)
        → ((p : ℕ)
            → t.offset ≤ p
            → p < range_end vk t.offset t.size
            → state_at vk rs t.buffer p ≡ some source)
        → resolve_queue_family vk source (make_buffer_state vk t.usage t.queue_family_index)
          ≡ ok destination
        → state ≡ used source destination
        → barrier ≡ barrier_for t source destination
        → Transitioned rs t state barrier

  -- The whole effect of a transition on the tracked ranges.
  pub record Effect (rs : List BufferRange) (t : BufferTransition) (rs' : List BufferRange)
      (barrier : Option BufferBarrier) : Type 0 where
    pub state : BufferState
    pub reason : Transitioned rs t state barrier
    pub tracked : Tracked vk rs'
    pub bytes :
        (b p : ℕ)
        → state_at vk rs' b p
          ≡ (if in_range vk t.buffer t.offset t.size b p then some state else state_at vk rs b p)

  module _ (rs : List BufferRange) (t : BufferTransition) (v : IsRange vk t.offset t.size)
      (ok_rs : Tracked vk rs) where
    start_tracking-Effect :
        {rs' : List BufferRange} {barrier : Option BufferBarrier}
        → start_tracking vk rs t ≡ ok (rs', barrier)
        → Effect rs t rs' barrier
    unfolding start_tracking
    start_tracking-Effect {rs' = rs'} {barrier = barrier} e =
        let state : BufferState = make_buffer_state vk t.usage t.queue_family_index in
        let new : BufferRange = new_range vk t state in
        let clear = no_overlap-Apart vk rs new (ground arith) in
        let made : rs' ≡ rs ++ new ∷ [] = ground arith in
        record {
          state = state;
          reason =
              started (λ p l u. rw (Apart-untracked vk rs new p clear l u)) refl (ground arith);
          tracked = rw made (Tracked-append vk rs new ok_rs v clear);
          bytes = λ b p. rw made (state_at-append-Apart vk rs new b p clear);
        }

    continue_tracking-Effect :
        (source : BufferState) {rs' : List BufferRange} {barrier : Option BufferBarrier}
        → ((p : ℕ)
            → t.offset ≤ p
            → p < range_end vk t.offset t.size
            → state_at vk rs t.buffer p ≡ some source)
        → continue_tracking vk rs t source ≡ ok (rs', barrier)
        → Effect rs t rs' barrier
    unfolding continue_tracking
    continue_tracking-Effect source {rs' = rs'} {barrier = barrier} h e =
        let (d, q, r) =
          >>=-eq-ok
            (resolve_queue_family vk source (make_buffer_state vk t.usage t.queue_family_index)) _
            e in
        let made : rs' ≡ replace_buffer_range vk rs t.buffer t.offset t.size (used source d) =
          ground arith in
        record {
          state = used source d;
          reason = continued source d h q refl (ground arith);
          tracked = rw made (Tracked-replace_buffer_range vk rs t.buffer t.offset t.size _ v ok_rs);
          bytes = λ b p.
              rw made
                (state_at-replace_buffer_range vk rs t.buffer t.offset t.size _ b p v ok_rs.valid);
        }

    -- A transition that succeeds gives every byte of its range one state and leaves all other bytes
    -- as they were. Either no byte was tracked, and the range starts in the requested state with no
    -- barrier; or all bytes were in one state, and the range takes on the requested state with the
    -- barrier from the old to the new, or where no barrier is needed the union of the two.
    pub transition_buffer-Effect :
        {rs' : List BufferRange} {barrier : Option BufferBarrier}
        → transition_buffer vk rs t ≡ ok (rs', barrier)
        → Effect rs t rs' barrier
    unfolding transition_buffer
    transition_buffer-Effect {rs' = rs'} {barrier = barrier} e =
        let (u, q, r) = >>=-eq-ok (throw_if (t.buffer == vk.null_handle) invalid_argument) _ e in
        let (u', q', r') = >>=-eq-ok (throw_if (is_undefined t.usage) invalid_argument) _ r in
        let (source, f, s) =
          >>=-eq-ok (find_buffer_range_source vk rs t.buffer t.offset t.size true) _ r' in
        found source f s
      where
        found :
            (source : Option BufferState)
            → find_buffer_range_source vk rs t.buffer t.offset t.size true ≡ ok source
            → elim source [
              | none ↦ start_tracking vk rs t
              | some state ↦ continue_tracking vk rs t state
            ]
              ≡ ok (rs', barrier)
            → Effect rs t rs' barrier
        found none f s = start_tracking-Effect s
        found (some state) f s =
            continue_tracking-Effect state
              (subst (Answer vk rs t.buffer t.offset (range_end vk t.offset t.size) true) f
                (find_buffer_range_source-Answer vk rs ok_rs t.buffer t.offset t.size v true))
              s
