-- ===== src/ResourceState/Images/Transitions.antt =====
-- graphics/vulkan/resource_state.cpp: `TransitionImage`, and `Transaction`.
use graphics_engine.Common.{
  Bool, true, false, not, ◌&&◌, Option, none, some, List, [], ◌∷◌, Result, ok, err, ◌>>=◌, ◌>>◌,
  throw_if, invalid_argument, ◌==◌, if◌then◌else◌,
}
use graphics_engine.ResourceState.Types.{Vulkan, undefined, BufferRange}
use graphics_engine.ResourceState.Buffers.{is_undefined}
use graphics_engine.ResourceState.Images.{
  ImageConstants, ImageState, ImageTransition, ImageKey, ImageBarrier, Images, image_state_eq,
  is_tracked, put_all, emplace_all, make_image_keys, make_image_state, requires_image_barrier,
  merge_image_read_states, resolve_image_queue_family, make_image_barrier,
}

-- The loop over the keys: the common state of the tracked ones, and whether one is untracked.
unfoldable pub gather :
    List ImageKey → Images → Option ImageState → Bool → Result (Option ImageState × Bool)
gather [] images source untracked = ok (source, untracked)
gather (k ∷ ks) images source untracked = elim (images k) [
  | none ↦ gather ks images source true
  | some state ↦ elim source [
    | none ↦ gather ks images (some state) untracked
    | some found ↦
        if image_state_eq found state
        then gather ks images (some found) untracked
        else err invalid_argument
  ]
]

module _ (vk : Vulkan) (vi : ImageConstants) where
  unfoldable pub start_image :
      List ImageKey → ImageTransition → Images → Result (Images × Option ImageBarrier)
  start_image keys t images = do
    let destination = make_image_state vk vi t.usage t.queue_family_index
    throw_if (not (destination.queue_family_index == vk.queue_family_ignored)) invalid_argument
    ok (
      emplace_all keys destination images,
      some (
          make_image_barrier vk vi t.image
            (make_image_state vk vi undefined vk.queue_family_ignored) destination
            t.subresource_range),
    )

  unfoldable pub continue_image :
      List ImageKey → ImageTransition → ImageState → Images → Result (Images × Option ImageBarrier)
  continue_image keys t source images = do
    destination ←
        resolve_image_queue_family vk vi source
          (make_image_state vk vi t.usage t.queue_family_index)
    if not (requires_image_barrier vk vi source destination)
        then ok (put_all keys (merge_image_read_states vk vi source destination) images, none)
        else ok (
          put_all keys destination images,
          some (make_image_barrier vk vi t.image source destination t.subresource_range),
        )

  unfoldable pub apply_image :
      List ImageKey
      → ImageTransition
      → Images
      → Option ImageState × Bool
      → Result (Images × Option ImageBarrier)
  unfolding start_image continue_image
  apply_image keys t images (source, untracked) = do
    throw_if (untracked && is_tracked source) invalid_argument
    elim source [
      | none ↦ start_image keys t images
      | some state ↦ continue_image keys t state images
    ]

  unfoldable pub transition_image : ImageTransition → Images → Result (Images × Option ImageBarrier)
  unfolding gather apply_image
  transition_image t images = do
    throw_if (t.image == vk.null_handle) invalid_argument
    throw_if (is_undefined t.usage) invalid_argument
    keys ← make_image_keys vk vi t.image t.subresource_range
    found ← gather keys images none false
    apply_image keys t images found

-- The state of a tracker.
pub record Tracker : Type 0 where
  pub images : Images
  pub buffers : List BufferRange

-- `Transaction`: the maps that it keeps, and whether it still holds its tracker.
pub record Transaction : Type 0 where
  pub is_open : Bool
  pub saved : Tracker

abbrev pub begin_transaction : Tracker → Transaction
begin_transaction tracker = record { is_open = true; saved = tracker }

abbrev pub commit : Transaction → Transaction
commit t = record t { is_open = false }

-- `Rollback`, which the destructor calls: the maps are swapped.
unfoldable pub rollback : Transaction → Tracker → Transaction × Tracker
rollback t tracker =
    if t.is_open then (record { is_open = false; saved = tracker }, t.saved) else (t, tracker)
