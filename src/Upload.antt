-- ===== src/Upload.antt =====
-- graphics/vulkan/upload_layout.h: where the slices of an upload batch lie. `& ~3` takes the two low
-- bits away, which is the remainder by four.
mod Tests
use graphics_engine.Common.{
  ltb, max_u64, u64, invalid_argument, Result, ok, throw_if, ◌>>=◌, ◌>>◌, ℕ, ◌+◌, ◌-◌, ◌*◌, ◌/◌,
  ◌%◌, ◌≤◌, ◌<◌, ◌≡◌, ◌↔◌, arith,
}

abbrev pub align_up : ℕ → ℕ
align_up end = u64 (end + 4 - 1) - u64 (end + 4 - 1) % 4

-- The offset of the new slice, and the end of the batch behind it.
unfoldable pub append_upload_slice : ℕ → ℕ → Result (ℕ × ℕ)
append_upload_slice end size = do
  throw_if (ltb (max_u64 - (4 - 1)) end) invalid_argument
  throw_if (ltb (max_u64 - align_up end) size) invalid_argument
  ok (align_up end, u64 (align_up end + size))

-- A slice that is appended starts at a multiple of four, behind all earlier slices and less than four
-- bytes after them, and ends where the batch ends, within 64 bits.
pub append_upload_slice-bounds :
    (end size offset end' : ℕ)
    → append_upload_slice end size ≡ ok (offset, end')
    → (offset % 4 ≡ 0)
      × ((end ≤ offset) × ((offset < end + 4) × ((end' ≡ offset + size) × (end' ≤ max_u64))))
unfolding append_upload_slice
append_upload_slice-bounds end size offset end' h = ground (arith, h)

-- A slice is refused exactly when the bytes up to the next multiple of four and the slice do not fit
-- into 64 bits.
pub append_upload_slice-fits :
    (end size : ℕ)
    → end ≤ max_u64
    → ((offset : ℕ) × (end' : ℕ) × (append_upload_slice end size ≡ ok (offset, end')))
      ↔ ((end + 3) / 4 * 4 + size ≤ max_u64)
unfolding append_upload_slice
append_upload_slice-fits end size l = (
  λ (offset, end', h). ground (arith, h),
  λ fits. (align_up end, u64 (align_up end + size), ground arith),
)
