-- ===== src/ResourceState/Images.antt =====
-- graphics/vulkan/resource_state.h and .cpp: the image methods of `VulkanResourceStateTracker`, and the
-- transactions on its two maps. The map of images is a function from keys.
pub mod Transitions
pub mod Effects
pub mod Importing
use Prim.Native.Nat.{bit_and, bit_or}
use graphics_engine.Common.{
  ℕ, zero, suc, ◌+◌, ◌-◌, ◌*◌, ◌%◌, ◌^◌, Bool, true, false, not, ◌&&◌, ◌||◌, Option, none, some,
  List, [], ◌∷◌, ◌++◌, Result, ok, err, ◌>>=◌, ◌>>◌, throw_if, invalid_argument, ◌==◌,
  if◌then◌else◌, any,
}
use graphics_engine.ResourceState.Types.{
  Vulkan, ResourceUsage, undefined, present, color_attachment_write, color_attachment_read_write,
  transfer_read, transfer_write, shader_sampled_read, BufferRange,
}
use graphics_engine.ResourceState.Buffers.{is_undefined, has_write_access}

-- The constants of the Vulkan headers that the image methods take.
pub record ImageConstants : Type 0 where
  pub remaining_mip_levels : ℕ
  pub remaining_array_layers : ℕ
  pub layout_undefined : ℕ
  pub layout_present : ℕ
  pub layout_color_attachment : ℕ
  pub layout_transfer_source : ℕ
  pub layout_transfer_destination : ℕ
  pub layout_shader_read_only : ℕ

pub record ImageState : Type 0 where
  pub stage_mask : ℕ
  pub access_mask : ℕ
  pub layout : ℕ
  pub queue_family_index : ℕ

pub record SubresourceRange : Type 0 where
  pub aspect_mask : ℕ
  pub base_mip_level : ℕ
  pub level_count : ℕ
  pub base_array_layer : ℕ
  pub layer_count : ℕ

pub record ImageTransition : Type 0 where
  pub image : ℕ
  pub usage : ResourceUsage
  pub subresource_range : SubresourceRange
  pub queue_family_index : ℕ

pub record ImageKey : Type 0 where
  pub image : ℕ
  pub aspect_mask : ℕ
  pub mip_level : ℕ
  pub array_layer : ℕ

-- `VkImageMemoryBarrier2`, less its type tag and its extension chain.
pub record ImageBarrier : Type 0 where
  pub source : ImageState
  pub destination : ImageState
  pub image : ℕ
  pub subresource_range : SubresourceRange

abbrev pub key_eq : ImageKey → ImageKey → Bool
key_eq a b =
    a.image == b.image
    && a.aspect_mask == b.aspect_mask
    && a.mip_level == b.mip_level
    && a.array_layer == b.array_layer

abbrev pub image_state_eq : ImageState → ImageState → Bool
image_state_eq a b =
    a.stage_mask == b.stage_mask
    && a.access_mask == b.access_mask
    && a.layout == b.layout
    && a.queue_family_index == b.queue_family_index

abbrev pub Images : Type 0
Images = ImageKey → Option ImageState

abbrev pub is_tracked : Option ImageState → Bool
is_tracked none = false
is_tracked (some state) = true

-- `m_images[key] = state` for each key.
unfoldable pub put_all : List ImageKey → ImageState → Images → Images
put_all [] state images = images
put_all (k ∷ ks) state images = put_all ks state (λ x. if key_eq k x then some state else images x)

-- `m_images.emplace(key, state)` for each key, which keeps an entry that is there.
unfoldable pub emplace_all : List ImageKey → ImageState → Images → Images
emplace_all [] state images = images
emplace_all (k ∷ ks) state images =
    emplace_all ks state
      (λ x. if key_eq k x && not (is_tracked (images x)) then some state else images x)

abbrev pub u32 : ℕ → ℕ
u32 n = n % 2 ^ 32

-- The loop over the layers, from the one numbered `layer` on.
unfoldable pub layer_keys : ℕ → ℕ → ℕ → SubresourceRange → ℕ → ℕ → List ImageKey
layer_keys image aspect mip range zero layer = []
layer_keys image aspect mip range (suc left) layer =
    record {
      image = image;
      aspect_mask = aspect;
      mip_level = u32 (range.base_mip_level + mip);
      array_layer = u32 (range.base_array_layer + layer);
    }
    ∷ layer_keys image aspect mip range left (layer + 1)

unfoldable pub mip_keys : ℕ → ℕ → SubresourceRange → ℕ → ℕ → List ImageKey
unfolding layer_keys
mip_keys image aspect range zero mip = []
mip_keys image aspect range (suc left) mip =
    layer_keys image aspect mip range range.layer_count 0
    ++ mip_keys image aspect range left (mip + 1)

-- `remaining & (0U - remaining)`: the lowest bit that is set.
abbrev pub lowest_aspect : ℕ → ℕ
lowest_aspect remaining = bit_and remaining (u32 (2 ^ 32 - remaining))

-- The loop over the aspects. Each round clears the lowest bit that is set, so the mask falls, and as
-- many rounds as its value are enough.
unfoldable pub aspect_keys : ℕ → ℕ → SubresourceRange → ℕ → List ImageKey
unfolding mip_keys
aspect_keys zero image range remaining = []
aspect_keys (suc fuel) image range remaining =
    let aspect = lowest_aspect remaining in
    let rest = aspect_keys fuel image range (bit_and remaining (2 ^ 32 - 1 - aspect)) in
    if remaining == 0 then [] else mip_keys image aspect range range.level_count 0 ++ rest

-- The loop of `GetImageState`, with the state of the keys before.
unfoldable pub common_state : List ImageKey → Images → Option ImageState → Option ImageState
common_state [] images found = found
common_state (k ∷ ks) images none = elim (images k) [
  | none ↦ none
  | some state ↦ common_state ks images (some state)
]
common_state (k ∷ ks) images (some found) = elim (images k) [
  | none ↦ none
  | some state ↦ if image_state_eq found state then common_state ks images (some found) else none
]

module _ (vk : Vulkan) (vi : ImageConstants) where
  unfoldable pub make_image_keys : ℕ → SubresourceRange → Result (List ImageKey)
  unfolding aspect_keys
  make_image_keys image range = do
    throw_if
        (range.level_count == vi.remaining_mip_levels
          || range.layer_count == vi.remaining_array_layers
          || range.level_count == 0
          || range.layer_count == 0
          || range.aspect_mask == 0)
        invalid_argument
    ok (aspect_keys range.aspect_mask image range range.aspect_mask)

  unfoldable pub make_image_state : ResourceUsage → ℕ → ImageState
  make_image_state undefined family = record {
    stage_mask = vk.stage_none;
    access_mask = 0;
    layout = vi.layout_undefined;
    queue_family_index = family;
  }
  make_image_state present family = record {
    stage_mask = vk.stage_none;
    access_mask = 0;
    layout = vi.layout_present;
    queue_family_index = family;
  }
  make_image_state color_attachment_read_write family = record {
    stage_mask = vk.stage_color_attachment_output;
    access_mask = bit_or vk.access_color_attachment_read vk.access_color_attachment_write;
    layout = vi.layout_color_attachment;
    queue_family_index = family;
  }
  make_image_state color_attachment_write family = record {
    stage_mask = vk.stage_color_attachment_output;
    access_mask = vk.access_color_attachment_write;
    layout = vi.layout_color_attachment;
    queue_family_index = family;
  }
  make_image_state transfer_read family = record {
    stage_mask = vk.stage_transfer;
    access_mask = vk.access_transfer_read;
    layout = vi.layout_transfer_source;
    queue_family_index = family;
  }
  make_image_state transfer_write family = record {
    stage_mask = vk.stage_transfer;
    access_mask = vk.access_transfer_write;
    layout = vi.layout_transfer_destination;
    queue_family_index = family;
  }
  make_image_state shader_sampled_read family = record {
    stage_mask = vk.stage_fragment_shader;
    access_mask = vk.access_shader_sampled_read;
    layout = vi.layout_shader_read_only;
    queue_family_index = family;
  }

  unfoldable pub requires_image_barrier : ImageState → ImageState → Bool
  requires_image_barrier source destination =
      has_write_access vk source.access_mask
      || has_write_access vk destination.access_mask
      || not (source.layout == destination.layout)
      || not (source.queue_family_index == destination.queue_family_index)

  abbrev pub merge_image_read_states : ImageState → ImageState → ImageState
  merge_image_read_states source destination = record {
    stage_mask = bit_or source.stage_mask destination.stage_mask;
    access_mask = bit_or source.access_mask destination.access_mask;
    layout = destination.layout;
    queue_family_index = destination.queue_family_index;
  }

  unfoldable pub resolve_image_queue_family : ImageState → ImageState → Result ImageState
  resolve_image_queue_family source destination =
      if source.queue_family_index == vk.queue_family_ignored
      then (if destination.queue_family_index == vk.queue_family_ignored
          then ok destination
          else err invalid_argument)
      else ok (
          if destination.queue_family_index == vk.queue_family_ignored
          then record destination { queue_family_index = source.queue_family_index }
          else destination)

  abbrev pub make_image_barrier : ℕ → ImageState → ImageState → SubresourceRange → ImageBarrier
  make_image_barrier image source destination range = record {
    source = source;
    destination = destination;
    image = image;
    subresource_range = range;
  }

  unfoldable pub import_image : ℕ → SubresourceRange → ImageState → Images → Result Images
  import_image image range state images = do
    throw_if (image == vk.null_handle) invalid_argument
    keys ← make_image_keys image range
    ok (put_all keys state images)

  unfoldable pub forget_image : ℕ → Images → Images
  forget_image image images = λ k. if k.image == image then none else images k

  unfoldable pub get_image_state : ℕ → SubresourceRange → Images → Result (Option ImageState)
  unfolding common_state
  get_image_state image range images = do
    keys ← make_image_keys image range
    ok (common_state keys images none)
