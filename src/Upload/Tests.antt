-- ===== src/Upload/Tests.antt =====
-- graphics/vulkan/upload_layout.h: a slice of three bytes behind five.
use graphics_engine.Common.{max_u64, ok, ℕ, ◌+◌, ◌*◌, ◌/◌, ◌%◌, ◌≤◌, ◌<◌, ◌≡◌, refl, ◌↔◌, arith}
use graphics_engine.Upload.{
  append_upload_slice, append_upload_slice-bounds, append_upload_slice-fits,
}

appends : append_upload_slice 5 3 ≡ ok (8, 11)
unfolding append_upload_slice
appends = refl

append_upload_slice-bounds_example :
    (8 % 4 ≡ 0) × ((5 ≤ 8) × ((8 < 5 + 4) × ((11 ≡ 8 + 3) × (11 ≤ max_u64))))
append_upload_slice-bounds_example = append_upload_slice-bounds 5 3 8 11 appends

append_upload_slice-fits_example :
    ((offset : ℕ) × (end' : ℕ) × (append_upload_slice 5 3 ≡ ok (offset, end')))
    ↔ ((5 + 3) / 4 * 4 + 3 ≤ max_u64)
append_upload_slice-fits_example = append_upload_slice-fits 5 3 (omega arith)
