-- ===== src/ResourceState/Buffers/Forget.antt =====
-- `ImportBuffer`, `ForgetBuffer` and `GetBufferState` together.
use graphics_engine.Common.{
  ℕ, ◌≡◌, ◌∙◌, false, none, some, List, [], ◌∷◌, ok, ◌==◌, if◌then◌else◌, arith,
}
use graphics_engine.ResourceState.Types.{Vulkan, BufferState, BufferRange}
use graphics_engine.ResourceState.Ranges.{replace_buffer_range}
use graphics_engine.ResourceState.Ranges.Lookup.{
  IsRange, All, Valid, state_at, state_at-replace_buffer_range,
}
use graphics_engine.ResourceState.Ranges.Disjoint.{
  Apart, Disjoint, Tracked, Tracked-replace_buffer_range,
}
use graphics_engine.ResourceState.Ranges.Source.{find_buffer_range_source_complete}
use graphics_engine.ResourceState.Ranges.Append.{find_range-nil, find_range-cons}
use graphics_engine.ResourceState.Buffers.{import_buffer, forget_buffer, get_buffer_state}

module _ (vk : Vulkan) where
  -- A forgotten buffer has no tracked byte, and no other buffer loses one.
  pub state_at-forget_buffer :
      (rs : List BufferRange) (buffer b p : ℕ)
      → state_at vk (forget_buffer vk rs buffer) b p
        ≡ (if buffer == b then none else state_at vk rs b p)
  unfolding forget_buffer
  state_at-forget_buffer [] buffer b p = ground (arith, find_range-nil vk b p)
  state_at-forget_buffer (r ∷ rs) buffer b p = ground (
    arith,
    find_range-cons vk r rs b p,
    find_range-cons vk r (forget_buffer vk rs buffer) b p,
    state_at-forget_buffer rs buffer b p,
  )

  All-forget {κ} :
      (P : BufferRange → Type κ) (rs : List BufferRange) (buffer : ℕ)
      → All vk P rs
      → All vk P (forget_buffer vk rs buffer)
  unfolding forget_buffer
  All-forget P [] buffer a = tt
  All-forget P (r ∷ rs) buffer a = ground (arith, All-forget P rs buffer a.1)

  Disjoint-forget :
      (rs : List BufferRange) (buffer : ℕ)
      → Disjoint vk rs
      → Disjoint vk (forget_buffer vk rs buffer)
  unfolding forget_buffer
  Disjoint-forget [] buffer d = tt
  Disjoint-forget (r ∷ rs) buffer d =
      ground (arith, All-forget (Apart vk r) rs buffer d.0, Disjoint-forget rs buffer d.1)

  pub Tracked-forget_buffer :
      (rs : List BufferRange) (buffer : ℕ) → Tracked vk rs → Tracked vk (forget_buffer vk rs buffer)
  Tracked-forget_buffer rs buffer t = record {
    valid = All-forget (Valid vk) rs buffer t.valid;
    disjoint = Disjoint-forget rs buffer t.disjoint;
  }

  -- What was imported for a valid range is read back for it, whatever was tracked before in valid,
  -- disjoint ranges.
  pub get_buffer_state-import_buffer :
      (rs : List BufferRange) (buffer offset size : ℕ) (state : BufferState)
      {rs' : List BufferRange}
      → Tracked vk rs
      → IsRange vk offset size
      → import_buffer vk rs buffer offset size state ≡ ok rs'
      → get_buffer_state vk rs' buffer offset size ≡ ok (some state)
  unfolding import_buffer get_buffer_state
  get_buffer_state-import_buffer rs buffer offset size state {rs' = rs'} t v e =
      let made : rs' ≡ replace_buffer_range vk rs buffer offset size state = ground arith in
      rw made (
        find_buffer_range_source_complete vk _
          (Tracked-replace_buffer_range vk rs buffer offset size state v t) buffer offset size v
          false state
          (λ p l u.
            state_at-replace_buffer_range vk rs buffer offset size state buffer p v t.valid
            ∙ (ground arith)))
