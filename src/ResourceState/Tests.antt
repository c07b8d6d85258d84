-- ===== src/ResourceState/Tests.antt =====
-- graphics/vulkan/resource_state.cpp: runs of the tracker on one buffer, with small numbers for the
-- constants of Vulkan.
use graphics_engine.Common.{
  Option, ℕ, ◌<◌, ◌≤◌, ◌≡◌, refl, inl, inr, ok, arith, List, [], ◌∷◌, none, some, true, max_u64,
  if◌then◌else◌, ◌==◌,
}
use graphics_engine.ResourceState.Types.{
  shader_sampled_read, Vulkan, undefined, transfer_write, BufferState, BufferRange,
  BufferTransition, BufferBarrier, transfer_read,
}
use graphics_engine.ResourceState.Ranges.{
  range_end, find_range, source_loop, find_buffer_range_source, replace_buffer_range,
}
use graphics_engine.ResourceState.Ranges.Lookup.{
  IsRange, All, Valid, state_at, in_range, state_at-replace_buffer_range,
}
use graphics_engine.ResourceState.Ranges.Disjoint.{Tracked, Tracked-replace_buffer_range}
use graphics_engine.ResourceState.Ranges.Source.{
  Answer, find_buffer_range_source-Answer, find_buffer_range_source_complete,
}
use graphics_engine.ResourceState.Buffers.{
  import_buffer, get_buffer_state, forget_buffer, transition_buffer, make_buffer_state,
  is_undefined, continue_tracking, resolve_queue_family, requires_barrier, has_write_access,
  make_buffer_barrier, merge_read_states,
}
use graphics_engine.ResourceState.Buffers.Transition.{Effect, transition_buffer-Effect}
use graphics_engine.ResourceState.Buffers.Forget.{
  state_at-forget_buffer, get_buffer_state-import_buffer,
}
use graphics_engine.ResourceState.Segments.{
  transition_buffer_ranges, cover_loop, finish, apply_segment, apply_segments, prepend,
}
use graphics_engine.ResourceState.Segments.Applying.{Applied, transition_buffer_ranges-Applied}
use graphics_engine.ResourceState.Images.{
  ImageConstants, ImageState, ImageTransition, ImageKey, ImageBarrier, SubresourceRange, Images,
  aspect_keys, mip_keys, layer_keys, make_image_keys, make_image_state, import_image,
  get_image_state, put_all, emplace_all, make_image_barrier, resolve_image_queue_family,
  requires_image_barrier,
}
use graphics_engine.ResourceState.Images.Transitions.{
  transition_image, gather, apply_image, start_image, continue_image,
}
use graphics_engine.ResourceState.Images.Effects.{ImageEffect, transition_image-ImageEffect}
use graphics_engine.ResourceState.Images.Importing.{get_image_state-import_image}

abbrev small_vulkan : Vulkan
small_vulkan = record {
  null_handle = 0;
  whole_size = max_u64;
  queue_family_ignored = 9;
  stage_none = 0;
  stage_color_attachment_output = 1;
  stage_transfer = 2;
  stage_fragment_shader = 4;
  access_color_attachment_read = 1;
  access_color_attachment_write = 2;
  access_depth_stencil_attachment_write = 4;
  access_shader_storage_write = 8;
  access_transfer_read = 16;
  access_transfer_write = 32;
  access_host_write = 64;
  access_memory_write = 128;
  access_shader_sampled_read = 256;
  whole_size_max = refl;
}

abbrev written : BufferState
written = record { stage_mask = 2; access_mask = 32; queue_family_index = 9 }

abbrev unused : BufferState
unused = record { stage_mask = 0; access_mask = 0; queue_family_index = 9 }

-- Bytes 0 to 7 of buffer 1 are written, bytes 8 to 15 are not used yet.
abbrev halves : List BufferRange
halves =
    record { buffer = 1; offset = 0; size = 8; state = written }
    ∷ record { buffer = 1; offset = 8; size = 8; state = unused }
    ∷ []

halves-Valid : All small_vulkan (Valid small_vulkan) halves
halves-Valid =
    (inr ((λ e. cc), omega arith, omega arith), (inr ((λ e. cc), omega arith, omega arith), tt))

halves-Tracked : Tracked small_vulkan halves
unfolding range_end
halves-Tracked = record {
  valid = halves-Valid;
  disjoint = ((inr (inl (omega arith)), tt), (tt, tt));
}

middle-IsRange : IsRange small_vulkan 4 8
middle-IsRange = inr ((λ e. cc), omega arith, omega arith)

all-IsRange : IsRange small_vulkan 0 16
all-IsRange = inr ((λ e. cc), omega arith, omega arith)

first-IsRange : IsRange small_vulkan 0 8
first-IsRange = inr ((λ e. cc), omega arith, omega arith)

state_at-replace_buffer_range_example :
    state_at small_vulkan (replace_buffer_range small_vulkan halves 1 4 8 written) 1 9
    ≡ (if in_range small_vulkan 1 4 8 1 9 then some written else state_at small_vulkan halves 1 9)
state_at-replace_buffer_range_example =
    state_at-replace_buffer_range small_vulkan halves 1 4 8 written 1 9 middle-IsRange halves-Valid

Tracked-replace_buffer_range_example :
    Tracked small_vulkan (replace_buffer_range small_vulkan halves 1 4 8 written)
Tracked-replace_buffer_range_example =
    Tracked-replace_buffer_range small_vulkan halves 1 4 8 written middle-IsRange halves-Tracked

find_buffer_range_source-Answer_example :
    Answer small_vulkan halves 1 0
      (range_end small_vulkan 0 16)
      true
      (find_buffer_range_source small_vulkan halves 1 0 16 true)
find_buffer_range_source-Answer_example =
    find_buffer_range_source-Answer small_vulkan halves halves-Tracked 1 0 16 all-IsRange true

first_is_written :
    (p : ℕ)
    → 0 ≤ p
    → p < range_end small_vulkan 0 8
    → state_at small_vulkan halves 1 p ≡ some written
unfolding find_range range_end
first_is_written p l u = ground arith

find_buffer_range_source_complete_example :
    find_buffer_range_source small_vulkan halves 1 0 8 true ≡ ok (some written)
find_buffer_range_source_complete_example =
    find_buffer_range_source_complete small_vulkan halves halves-Tracked 1 0 8 first-IsRange true
      written first_is_written

state_at-forget_buffer_example :
    state_at small_vulkan (forget_buffer small_vulkan halves 1) 2 9
    ≡ (if 1 == 2 then none else state_at small_vulkan halves 2 9)
state_at-forget_buffer_example = state_at-forget_buffer small_vulkan halves 1 2 9

import_example :
    import_buffer small_vulkan halves 1 4 8 written
    ≡ ok (replace_buffer_range small_vulkan halves 1 4 8 written)
unfolding import_buffer
import_example = refl

get_buffer_state-import_buffer_example :
    get_buffer_state small_vulkan (replace_buffer_range small_vulkan halves 1 4 8 written) 1 4 8
    ≡ ok (some written)
get_buffer_state-import_buffer_example =
    get_buffer_state-import_buffer small_vulkan halves 1 4 8 written halves-Tracked middle-IsRange
      import_example

abbrev copy_out : BufferTransition
copy_out = record {
  buffer = 1;
  offset = 0;
  size = 8;
  usage = transfer_read;
  queue_family_index = 9;
}

abbrev copied : BufferState
copied = record { stage_mask = 2; access_mask = 16; queue_family_index = 9 }

abbrev copy_barrier : BufferBarrier
copy_barrier = make_buffer_barrier small_vulkan 1 0 8 written copied

copy_out_example :
    transition_buffer small_vulkan halves copy_out
    ≡ ok (replace_buffer_range small_vulkan halves 1 0 8 copied, some copy_barrier)
unfolding transition_buffer find_buffer_range_source source_loop find_range range_end
    continue_tracking resolve_queue_family requires_barrier has_write_access make_buffer_state
    is_undefined
copy_out_example = refl

transition_buffer-Effect_example :
    Effect small_vulkan halves copy_out
      (replace_buffer_range small_vulkan halves 1 0 8 copied)
      (some copy_barrier)
transition_buffer-Effect_example =
    transition_buffer-Effect small_vulkan halves copy_out first-IsRange halves-Tracked
      copy_out_example

abbrev copy_all : BufferTransition
copy_all = record copy_out { size = 16 }

abbrev copied_all : List BufferRange
copied_all =
    replace_buffer_range small_vulkan (replace_buffer_range small_vulkan halves 1 0 8 copied) 1 8 8
      (record { stage_mask = 2; access_mask = 16; queue_family_index = 9 })

copy_all_example :
    transition_buffer_ranges small_vulkan halves copy_all ≡ ok (copied_all, copy_barrier ∷ [])
unfolding transition_buffer_ranges cover_loop prepend finish apply_segments apply_segment find_range
    range_end resolve_queue_family requires_barrier has_write_access make_buffer_state is_undefined
    merge_read_states
copy_all_example = refl

transition_buffer_ranges-Applied_example :
    Applied small_vulkan halves halves copy_all 0 (range_end small_vulkan 0 16) copied_all
transition_buffer_ranges-Applied_example =
    transition_buffer_ranges-Applied small_vulkan halves copy_all all-IsRange halves-Tracked
      copy_all_example

abbrev small_images : ImageConstants
small_images = record {
  remaining_mip_levels = 4294967295;
  remaining_array_layers = 4294967295;
  layout_undefined = 0;
  layout_present = 1;
  layout_color_attachment = 2;
  layout_transfer_source = 3;
  layout_transfer_destination = 4;
  layout_shader_read_only = 5;
}

-- Two levels of the depth and stencil aspects of one layer.
abbrev two_levels : SubresourceRange
two_levels = record {
  aspect_mask = 6;
  base_mip_level = 0;
  level_count = 2;
  base_array_layer = 0;
  layer_count = 1;
}

abbrev two_levels_keys : List ImageKey
two_levels_keys =
    record { image = 7; aspect_mask = 2; mip_level = 0; array_layer = 0 }
    ∷ record { image = 7; aspect_mask = 2; mip_level = 1; array_layer = 0 }
    ∷ record { image = 7; aspect_mask = 4; mip_level = 0; array_layer = 0 }
    ∷ record { image = 7; aspect_mask = 4; mip_level = 1; array_layer = 0 }
    ∷ []

make_image_keys_example :
    make_image_keys small_vulkan small_images 7 two_levels ≡ ok two_levels_keys
unfolding make_image_keys aspect_keys mip_keys layer_keys
make_image_keys_example = refl

abbrev no_images : Images
no_images k = none

abbrev uploaded : ImageState
uploaded = make_image_state small_vulkan small_images transfer_write 9

abbrev upload : ImageTransition
upload = record {
  image = 7;
  usage = transfer_write;
  subresource_range = two_levels;
  queue_family_index = 9;
}

abbrev upload_barrier : Option ImageBarrier
upload_barrier = some (
    make_image_barrier small_vulkan small_images 7
      (make_image_state small_vulkan small_images undefined 9) uploaded two_levels)

upload_example :
    transition_image small_vulkan small_images upload no_images
    ≡ ok (emplace_all two_levels_keys uploaded no_images, upload_barrier)
unfolding transition_image is_undefined make_image_keys aspect_keys mip_keys layer_keys gather
    apply_image start_image make_image_state
upload_example = refl

abbrev uploaded_images : Images
uploaded_images = put_all two_levels_keys uploaded no_images

abbrev sampled : ImageState
sampled = make_image_state small_vulkan small_images shader_sampled_read 9

abbrev sample : ImageTransition
sample = record upload { usage = shader_sampled_read }

abbrev sample_barrier : Option ImageBarrier
sample_barrier = some (make_image_barrier small_vulkan small_images 7 uploaded sampled two_levels)

sample_example :
    transition_image small_vulkan small_images sample uploaded_images
    ≡ ok (put_all two_levels_keys sampled uploaded_images, sample_barrier)
unfolding transition_image is_undefined make_image_keys aspect_keys mip_keys layer_keys gather
    apply_image continue_image make_image_state put_all resolve_image_queue_family
    requires_image_barrier has_write_access
sample_example = refl

transition_image-ImageEffect_example :
    (keys : List ImageKey) × (make_image_keys small_vulkan small_images 7 two_levels ≡ ok keys)
    × ImageEffect small_vulkan small_images keys uploaded_images sample
        (put_all two_levels_keys sampled uploaded_images)
        sample_barrier
transition_image-ImageEffect_example =
    transition_image-ImageEffect small_vulkan small_images sample uploaded_images
      (put_all two_levels_keys sampled uploaded_images) sample_barrier sample_example

import_image_example :
    import_image small_vulkan small_images 7 two_levels uploaded no_images
    ≡ ok (put_all two_levels_keys uploaded no_images)
unfolding import_image make_image_keys aspect_keys mip_keys layer_keys
import_image_example = refl

get_image_state-import_image_example :
    get_image_state small_vulkan small_images 7 two_levels
      (put_all two_levels_keys uploaded no_images)
    ≡ ok (some uploaded)
get_image_state-import_image_example =
    get_image_state-import_image small_vulkan small_images 7 two_levels uploaded no_images
      import_image_example
