-- ===== src/ResourceState/Images/Importing.antt =====
-- graphics/vulkan/resource_state.cpp: `ImportImage` and `GetImageState` together.
use graphics_engine.Common.{
  ℕ, zero, suc, ◌<◌, ◌≡◌, refl, ◌∙◌, ap, ◌≢◌, true, false, none, some, List, [], ◌∷◌, ◌++◌, ok,
  throw_if, invalid_argument, >>=-eq-ok, ◌==◌, arith,
}
use graphics_engine.ResourceState.Types.{Vulkan}
use graphics_engine.ResourceState.Images.{
  ImageConstants, ImageState, ImageKey, SubresourceRange, Images, key_eq, image_state_eq, put_all,
  layer_keys, mip_keys, aspect_keys, lowest_aspect, make_image_keys, import_image, common_state,
  get_image_state,
}
use graphics_engine.ResourceState.Images.Effects.{has_key, put_all-at}

image_state_eq_refl : (s : ImageState) → image_state_eq s s ≡ true
image_state_eq_refl s = ground arith

key_eq_refl : (k : ImageKey) → key_eq k k ≡ true
key_eq_refl k = ground arith

common_state_uniform :
    (ks : List ImageKey) (images : Images) (state : ImageState)
    → ((x : ImageKey) → has_key ks x ≡ true → images x ≡ some state)
    → common_state ks images (some state) ≡ some state
unfolding common_state
common_state_uniform [] images state all = refl
common_state_uniform (k ∷ ks) images state all =
    rw (all k (ground (arith, key_eq_refl k)), common_state)
      (rw (image_state_eq_refl state)
        (common_state_uniform ks images state (λ x m. all x (ground arith))))

common_state_first :
    (ks : List ImageKey) (images : Images) (state : ImageState)
    → ks ≢ []
    → ((x : ImageKey) → has_key ks x ≡ true → images x ≡ some state)
    → common_state ks images none ≡ some state
unfolding common_state
common_state_first [] images state n all = absurd (n refl)
common_state_first (k ∷ ks) images state n all =
    rw (all k (ground (arith, key_eq_refl k)), common_state)
      (common_state_uniform ks images state (λ x m. all x (ground arith)))

append-cons : (xs ys : List ImageKey) → xs ≢ [] → (xs ++ ys) ≢ []
append-cons [] ys n e = n refl
append-cons (x ∷ xs) ys n e = cc

layer_keys-cons :
    (image aspect mip : ℕ) (range : SubresourceRange) (left layer : ℕ)
    → 0 < left
    → layer_keys image aspect mip range left layer ≢ []
unfolding layer_keys
layer_keys-cons image aspect mip range zero layer l e = absurd (omega arith)
layer_keys-cons image aspect mip range (suc left) layer l e = cc

mip_keys-cons :
    (image aspect : ℕ) (range : SubresourceRange) (left mip : ℕ)
    → 0 < left
    → 0 < range.layer_count
    → mip_keys image aspect range left mip ≢ []
unfolding mip_keys
mip_keys-cons image aspect range zero mip l n = absurd (omega arith)
mip_keys-cons image aspect range (suc left) mip l n =
    append-cons (layer_keys image aspect mip range range.layer_count 0) _
      (layer_keys-cons image aspect mip range range.layer_count 0 n)

aspect_keys-cons :
    (fuel image : ℕ) (range : SubresourceRange) (remaining : ℕ)
    → 0 < fuel
    → 0 < remaining
    → 0 < range.level_count
    → 0 < range.layer_count
    → aspect_keys fuel image range remaining ≢ []
unfolding aspect_keys
aspect_keys-cons zero image range remaining f r l n = absurd (omega arith)
aspect_keys-cons (suc fuel) image range remaining f r l n =
    let z : (remaining == 0) ≡ false = ground arith in
    rw z (
      append-cons (mip_keys image (lowest_aspect remaining) range range.level_count 0) _
        (mip_keys-cons image (lowest_aspect remaining) range range.level_count 0 l n))

module _ (vk : Vulkan) (vi : ImageConstants) where
  make_image_keys-cons :
      (image : ℕ) (range : SubresourceRange) {keys : List ImageKey}
      → make_image_keys vk vi image range ≡ ok keys
      → keys ≢ []
  unfolding make_image_keys
  make_image_keys-cons image range {keys = keys} h =
      let made : aspect_keys range.aspect_mask image range range.aspect_mask ≡ keys =
        ground arith in
      let a : 0 < range.aspect_mask = ground arith in
      let l : 0 < range.level_count = ground arith in
      let n : 0 < range.layer_count = ground arith in
      λ e. aspect_keys-cons range.aspect_mask image range range.aspect_mask a a l n (made ∙ e)

  -- The state imported for a subresource range is read back for it, whatever was tracked before.
  pub get_image_state-import_image :
      (image : ℕ) (range : SubresourceRange) (state : ImageState) (images : Images) {new : Images}
      → import_image vk vi image range state images ≡ ok new
      → get_image_state vk vi image range new ≡ ok (some state)
  unfolding import_image get_image_state
  get_image_state-import_image image range state images {new = new} h =
      let (u, q, r) = >>=-eq-ok (throw_if (image == vk.null_handle) invalid_argument) _ h in
      let (keys, k, s) = >>=-eq-ok (make_image_keys vk vi image range) _ r in
      let made : new ≡ put_all keys state images = ground arith in
      rw k (
        ap (λ x. ok x)
          (common_state_first keys new state (make_image_keys-cons image range k)
            (λ x m. ap (λ f. f x) made ∙ put_all-at keys state images x ∙ ground arith)))
