-- ===== src/ResourceState/Images/Effects.antt =====
-- graphics/vulkan/resource_state.cpp: what the image methods do to the state of each subresource.
use graphics_engine.Common.{
  ◌==◌, if◌then◌else◌, Bool-cases, Option-cases, any, invalid_argument, ok, throw_if, >>=-eq-ok,
  ◌≡◌, refl, sym, ap, ◌∙◌, ◌≢◌, inl, inr, Bool, true, false, not, ◌&&◌, ◌||◌, Option, none, some,
  List, [], ◌∷◌, arith,
}
use graphics_engine.ResourceState.Types.{Vulkan, undefined}
use graphics_engine.ResourceState.Buffers.{is_undefined}
use graphics_engine.ResourceState.Images.{
  ImageConstants, ImageState, ImageTransition, ImageKey, ImageBarrier, key_eq, image_state_eq,
  Images, is_tracked, put_all, emplace_all, make_image_keys, make_image_state,
  requires_image_barrier, merge_image_read_states, resolve_image_queue_family, make_image_barrier,
}
use graphics_engine.ResourceState.Images.Transitions.{
  gather, start_image, continue_image, apply_image, transition_image,
}

-- Whether a key is one of a list.
abbrev pub has_key : List ImageKey → ImageKey → Bool
has_key ks x = any (λ k. key_eq k x) ks

key_eq-eq : (k x : ImageKey) → key_eq k x ≡ true → k ≡ x
key_eq-eq k x e = ground arith

pub put_all-at :
    (ks : List ImageKey) (state : ImageState) (images : Images) (x : ImageKey)
    → put_all ks state images x ≡ (if has_key ks x then some state else images x)
unfolding put_all
put_all-at [] state images x = refl
put_all-at (k ∷ ks) state images x =
    put_all-at ks state (λ y. if key_eq k y then some state else images y) x ∙ ground arith

-- Two attempts to emplace one state are one.
emplace_twice :
    (a b : Bool) (v : Option ImageState) (state : ImageState)
    → (if b && not (is_tracked (if a && not (is_tracked v) then some state else v))
        then some state
        else (if a && not (is_tracked v) then some state else v))
      ≡ (if (a || b) && not (is_tracked v) then some state else v)
emplace_twice true true none state = refl
emplace_twice true false none state = refl
emplace_twice false true none state = refl
emplace_twice false false none state = refl
emplace_twice true true (some v) state = refl
emplace_twice true false (some v) state = refl
emplace_twice false true (some v) state = refl
emplace_twice false false (some v) state = refl

emplace_all-at :
    (ks : List ImageKey) (state : ImageState) (images : Images) (x : ImageKey)
    → emplace_all ks state images x
      ≡ (if has_key ks x && not (is_tracked (images x)) then some state else images x)
unfolding emplace_all
emplace_all-at [] state images x = refl
emplace_all-at (k ∷ ks) state images x =
    emplace_all-at ks state
      (λ y. if key_eq k y && not (is_tracked (images y)) then some state else images y) x
    ∙ emplace_twice (key_eq k x) (has_key ks x) (images x) state

-- A gathering that has a state keeps one.
gather-some :
    (ks : List ImageKey) (images : Images) (state : ImageState) (untracked : Bool) {u : Bool}
    → gather ks images (some state) untracked ≢ ok (none, u)
unfolding gather
gather-some [] images state untracked h = cc
gather-some (k ∷ ks) images state untracked {u = u} h = elim (Option-cases (images k)) [
  | inl n ↦ gather-some ks images state true {u = u} (rw (n, gather) at h)
  | inr (found, y) ↦ elim (Bool-cases (image_state_eq state found)) [
    | inl e ↦ gather-some ks images state untracked {u = u} (ground arith)
    | inr e ↦ ground arith
  ]
]

-- If no state was found then no key is tracked.
gather-none :
    (ks : List ImageKey) (images : Images) (untracked : Bool) {u : Bool}
    → gather ks images none untracked ≡ ok (none, u)
    → (x : ImageKey) → has_key ks x ≡ true
    → images x ≡ none
unfolding gather
gather-none [] images untracked h x m = cc
gather-none (k ∷ ks) images untracked {u = u} h x m = elim (Option-cases (images k)) [
  | inl n ↦ elim (Bool-cases (key_eq k x)) [
    | inl y ↦ ap images (sym (key_eq-eq k x y)) ∙ n
    | inr d ↦ gather-none ks images true {u = u} (rw (n, gather) at h) x (rw d at m)
  ]
  | inr (state, y) ↦ absurd (gather-some ks images state untracked {u = u} (rw (y, gather) at h))
]

image_state_eq-eq : (a b : ImageState) → image_state_eq a b ≡ true → a ≡ b
image_state_eq-eq a b e = ground arith

true-ne-false : true ≡ false → ⊥
true-ne-false e = cc

-- A gathering from a state on that ends with all keys tracked found that state alone.
gather-found :
    (ks : List ImageKey) (images : Images) (state found : ImageState) (untracked : Bool)
    → gather ks images (some state) untracked ≡ ok (some found, false)
    → (untracked ≡ false)
      × (state ≡ found)
      × ((x : ImageKey) → has_key ks x ≡ true → images x ≡ some found)
unfolding gather
gather-found [] images state found untracked h = (cc, cc, λ x m. cc)
gather-found (k ∷ ks) images state found untracked h = elim (Option-cases (images k)) [
  | inl n ↦ absurd (true-ne-false (gather-found ks images state found true (rw (n, gather) at h)).0)
  | inr (here, y) ↦ elim (Bool-cases (image_state_eq state here)) [
    | inr e ↦ absurd (ground arith)
    | inl e ↦
        let (tracked, same, others) = gather-found ks images state found untracked (ground arith) in
        (
          tracked,
          same,
          λ x m. elim (Bool-cases (key_eq k x)) [
            | inl z ↦
                ap images (sym (key_eq-eq k x z))
                ∙ (y ∙ ap some (sym (image_state_eq-eq state here e) ∙ same))
            | inr d ↦ others x (rw d at m)
          ],
        )
  ]
]

-- One that ends with a state and no untracked key found all keys in that state.
gather-all :
    (ks : List ImageKey) (images : Images) (found : ImageState) (untracked : Bool)
    → gather ks images none untracked ≡ ok (some found, false)
    → (untracked ≡ false) × ((x : ImageKey) → has_key ks x ≡ true → images x ≡ some found)
unfolding gather
gather-all [] images found untracked h = absurd (ground arith)
gather-all (k ∷ ks) images found untracked h = elim (Option-cases (images k)) [
  | inl n ↦ absurd (true-ne-false (gather-all ks images found true (rw (n, gather) at h)).0)
  | inr (here, y) ↦
      let (tracked, same, others) =
        gather-found ks images here found untracked (rw (y, gather) at h) in
      (
        tracked,
        λ x m. elim (Bool-cases (key_eq k x)) [
          | inl z ↦ ap images (sym (key_eq-eq k x z)) ∙ (y ∙ ap some same)
          | inr d ↦ others x (rw d at m)
        ],
      )
]

module _ (vk : Vulkan) (vi : ImageConstants) where
  -- The state that subresources take on, and the barrier for it.
  abbrev pub used_image : ImageState → ImageState → ImageState
  used_image source destination =
      if requires_image_barrier vk vi source destination
      then destination
      else merge_image_read_states vk vi source destination

  abbrev pub image_barrier_for : ImageTransition → ImageState → ImageState → Option ImageBarrier
  image_barrier_for t source destination =
      if requires_image_barrier vk vi source destination
      then some (make_image_barrier vk vi t.image source destination t.subresource_range)
      else none

  -- Why a transition gave its subresources a state and answered a barrier.
  pub data ImageTransitioned (keys : List ImageKey) (images : Images) (t : ImageTransition)
      (state : ImageState) (barrier : Option ImageBarrier) : Type 0 where
    started :
        ((x : ImageKey) → has_key keys x ≡ true → images x ≡ none)
        → state ≡ make_image_state vk vi t.usage t.queue_family_index
        → (state.queue_family_index ≡ vk.queue_family_ignored)
        → barrier
          ≡ some (
              make_image_barrier vk vi t.image
                (make_image_state vk vi undefined vk.queue_family_ignored)
                state
                t.subresource_range)
        → ImageTransitioned keys images t state barrier
    continued :
        (source destination : ImageState)
        → ((x : ImageKey) → has_key keys x ≡ true → images x ≡ some source)
        → resolve_image_queue_family vk vi source
            (make_image_state vk vi t.usage t.queue_family_index)
          ≡ ok destination
        → state ≡ used_image source destination
        → barrier ≡ image_barrier_for t source destination
        → ImageTransitioned keys images t state barrier

  -- The whole effect of a transition on the tracked images.
  pub record ImageEffect (keys : List ImageKey) (images : Images) (t : ImageTransition)
      (new : Images) (barrier : Option ImageBarrier) : Type 0 where
    pub state : ImageState
    pub reason : ImageTransitioned keys images t state barrier
    pub subresources : (x : ImageKey) → new x ≡ (if has_key keys x then some state else images x)

  start_image-ImageEffect :
      (keys : List ImageKey) (t : ImageTransition) (images new : Images)
      (barrier : Option ImageBarrier)
      → ((x : ImageKey) → has_key keys x ≡ true → images x ≡ none)
      → start_image vk vi keys t images ≡ ok (new, barrier)
      → ImageEffect keys images t new barrier
  unfolding start_image
  start_image-ImageEffect keys t images new barrier none_tracked h =
      let state = make_image_state vk vi t.usage t.queue_family_index in
      let made : new ≡ emplace_all keys state images = ground arith in
      record {
        state = state;
        reason = started none_tracked refl (ground arith) (ground arith);
        subresources =
            λ x. ap (λ f. f x) made ∙ emplace_all-at keys state images x ∙ chosen x state;
      }
    where
      chosen :
          (x : ImageKey) (state : ImageState)
          → (if has_key keys x && not (is_tracked (images x)) then some state else images x)
            ≡ (if has_key keys x then some state else images x)
      chosen x state = elim (Bool-cases (has_key keys x)) [
        | inl y ↦ rw y (rw (none_tracked x y) refl)
        | inr n ↦ rw n refl
      ]

  continue_image-ImageEffect :
      (keys : List ImageKey) (t : ImageTransition) (source : ImageState) (images new : Images)
      (barrier : Option ImageBarrier)
      → ((x : ImageKey) → has_key keys x ≡ true → images x ≡ some source)
      → continue_image vk vi keys t source images ≡ ok (new, barrier)
      → ImageEffect keys images t new barrier
  unfolding continue_image
  continue_image-ImageEffect keys t source images new barrier all_tracked h =
      let (d, q, r) =
        >>=-eq-ok
          (resolve_image_queue_family vk vi source
            (make_image_state vk vi t.usage t.queue_family_index))
          _ h in
      let made : new ≡ put_all keys (used_image source d) images = ground arith in
      record {
        state = used_image source d;
        reason = continued source d all_tracked q refl (ground arith);
        subresources = λ x. ap (λ f. f x) made ∙ put_all-at keys (used_image source d) images x;
      }

  apply_image-ImageEffect :
      (keys : List ImageKey) (t : ImageTransition) (source : Option ImageState) (untracked : Bool)
      (images new : Images) (barrier : Option ImageBarrier)
      → gather keys images none false ≡ ok (source, untracked)
      → apply_image vk vi keys t images (source, untracked) ≡ ok (new, barrier)
      → ImageEffect keys images t new barrier
  unfolding apply_image
  apply_image-ImageEffect keys t none untracked images new barrier g h =
      start_image-ImageEffect keys t images new barrier
        (gather-none keys images false {u = untracked} g) (ground arith)
  apply_image-ImageEffect keys t (some state) false images new barrier g h =
      continue_image-ImageEffect keys t state images new barrier
        (gather-all keys images state false g).1 (ground arith)
  apply_image-ImageEffect keys t (some state) true images new barrier g h = absurd (ground arith)

  -- A transition of an image that succeeds gives every subresource that it names one state, and leaves
  -- every other subresource of every image as it was. Either none of them was tracked, and they start
  -- in the requested state with a barrier from the undefined one; or all were in one state, and they
  -- take on the requested state with the barrier from the old to the new, or where no barrier is
  -- needed the union of the two.
  pub transition_image-ImageEffect :
      (t : ImageTransition) (images new : Images) (barrier : Option ImageBarrier)
      → transition_image vk vi t images ≡ ok (new, barrier)
      → (keys : List ImageKey) × (make_image_keys vk vi t.image t.subresource_range ≡ ok keys)
        × ImageEffect keys images t new barrier
  unfolding transition_image
  transition_image-ImageEffect t images new barrier h =
      let (u, q, r) = >>=-eq-ok (throw_if (t.image == vk.null_handle) invalid_argument) _ h in
      let (u', q', r') = >>=-eq-ok (throw_if (is_undefined t.usage) invalid_argument) _ r in
      let (keys, k, s) = >>=-eq-ok (make_image_keys vk vi t.image t.subresource_range) _ r' in
      let ((source, untracked), g, e) = >>=-eq-ok (gather keys images none false) _ s in
      (keys, k, apply_image-ImageEffect keys t source untracked images new barrier g e)
