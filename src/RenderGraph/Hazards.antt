-- ===== src/RenderGraph/Hazards.antt =====
-- renderer/render_graph.cpp: the first half of `Compile`, in which the passes are validated in the
-- order of their declaration and the hazards between them become edges. A vector that is indexed by
-- a resource is a function of the index, which `Resolve` has checked.
pub mod Ordered
pub mod Declared
use graphics_engine.Common.{
  ◌==◌, if◌then◌else◌, length, get_or, any, Result, ok, ◌>>=◌, ◌>>◌, ℕ, suc, Bool, true, false, not,
  ◌&&◌, ◌||◌, Option, none, some, List, [], ◌∷◌, ◌++◌,
}
use graphics_engine.RenderGraph.Types.{
  PixelFormat, undefined, d32_float, SampleCount, x1, x2, x4, x8, ResourceUsage,
  color_attachment_write, depth_stencil_write, AttachmentLoad, load, image_kind, ImageDescription,
  GraphId, graph_id_eq, ResourceUse, Attachment, GraphicsPass, ImportedResource, Outside,
  image_gpu_read, has_flag,
}
use graphics_engine.RenderGraph.Validation.{
  require, is_read, is_write, require_access, is_buffer, validate_usage,
}
use graphics_engine.RenderGraph.Builder.{
  Builder, no_id, no_handle, no_buffer, no_image, resolve_resource,
}

abbrev pub update {ℓ} : {A : Type ℓ} → (ℕ → A) → ℕ → A → ℕ → A
update f i v k = if i == k then v else f k

-- `writers[r]` is the last pass that writes the resource, and `none_yet` before there is one;
-- `readers[r]` are the passes that read it since.
pub record Hazards : Type 0 where
  pub writers : ℕ → ℕ
  pub readers : ℕ → List ℕ
  pub edges : List (ℕ × ℕ)

-- The descriptions of the imported resources, by index.
abbrev pub unknown_resource : ImportedResource
unknown_resource = record {
  id = no_id;
  kind = image_kind;
  graphics = none;
  image = no_handle;
  buffer = no_handle;
  swapchain = 0;
  image_description = no_image;
  buffer_description = no_buffer;
  initial_usage = ResourceUsage.undefined;
  final_usage = ResourceUsage.undefined;
}

abbrev pub resource_at : Builder → ℕ → ImportedResource
resource_at b resource = get_or b.resources resource unknown_resource

abbrev pub edges_to : ℕ → List ℕ → List (ℕ × ℕ)
edges_to index [] = []
edges_to index (reader ∷ readers) = (reader, index) ∷ edges_to index readers

abbrev pub add_writer : ℕ → ℕ → ℕ → List (ℕ × ℕ) → List (ℕ × ℕ)
add_writer none_yet writer index edges =
    if writer == none_yet then edges else edges ++ (writer, index) ∷ []

-- The last three statements of `registerUse`, for a read and for a write.
unfoldable pub record_use : ℕ → ℕ → ℕ → Bool → Hazards → Hazards
record_use none_yet index resource true h = record {
  writers = update h.writers resource index;
  readers = update h.readers resource [];
  edges =
      add_writer none_yet (h.writers resource) index h.edges ++ edges_to index (h.readers resource);
}
record_use none_yet index resource false h = record {
  writers = h.writers;
  readers = update h.readers resource (h.readers resource ++ index ∷ []);
  edges = add_writer none_yet (h.writers resource) index h.edges;
}

module _ (outside : Outside) (b : Builder) where
  unfoldable pub register_use :
      ℕ → Bool → ResourceUse → (ℕ → Bool) × Hazards → Result ((ℕ → Bool) × Hazards)
  unfolding resolve_resource validate_usage is_read is_write record_use
  register_use index is_writing declared (used, h) = do
    resource ← resolve_resource b declared.resource
    require (not (used resource))
    require (if is_writing then is_write declared.usage else is_read declared.usage)
    validate_usage outside (resource_at b resource) declared.usage false
    ok (update used resource true, record_use (length b.passes) index resource is_writing h)

  unfoldable pub register_uses :
      ℕ → Bool → List ResourceUse → (ℕ → Bool) × Hazards → Result ((ℕ → Bool) × Hazards)
  unfolding register_use
  register_uses index is_writing [] s = ok s
  register_uses index is_writing (u ∷ us) s =
      register_use index is_writing u s >>= register_uses index is_writing us

-- A facade's image that is loaded has to be readable.
abbrev pub require_load_access : AttachmentLoad → Outside → ImportedResource → Result (Unit {0})
require_load_access load outside resource =
    require_access outside resource image_gpu_read resource.graphics
require_load_access _ outside resource = ok tt

abbrev pub is_d32 : PixelFormat → Bool
is_d32 d32_float = true
is_d32 _ = false

abbrev pub same_samples : SampleCount → SampleCount → Bool
same_samples x1 x1 = true
same_samples x2 x2 = true
same_samples x4 x4 = true
same_samples x8 x8 = true
same_samples _ _ = false

-- Does the use declare the write that a colour or a depth attachment needs?
abbrev pub is_attachment_usage : Bool → ResourceUsage → Bool
is_attachment_usage true depth_stencil_write = true
is_attachment_usage false color_attachment_write = true
is_attachment_usage _ _ = false

abbrev pub matches_attachment : GraphId → Bool → ResourceUse → Bool
matches_attachment resource is_depth_use declared =
    graph_id_eq declared.resource resource && is_attachment_usage is_depth_use declared.usage

-- The first attachment of a pass fixes the extent and the sample count of the others.
abbrev pub agrees_with : Option ImageDescription → ImageDescription → Bool
agrees_with none image = true
agrees_with (some first) image =
    first.extent.width == image.extent.width
    && (first.extent.height == image.extent.height && same_samples first.samples image.samples)

abbrev pub or_first : Option ImageDescription → ImageDescription → Option ImageDescription
or_first none image = some image
or_first (some first) image = some first

-- Which resources are attached, and the image of the first attachment.
abbrev pub Attached : Type 0
Attached = (ℕ → Bool) × Option ImageDescription

abbrev pub attachments_of : Option Attachment → List Attachment
attachments_of none = []
attachments_of (some attachment) = attachment ∷ []

abbrev pub is_some : Option ImageDescription → Bool
is_some none = false
is_some (some image) = true

abbrev pub is_empty : List ℕ → Bool
is_empty [] = true
is_empty (x ∷ xs) = false

module _ (outside : Outside) (b : Builder) (pass : GraphicsPass) where
  -- Every load and store policy of the types is valid.
  unfoldable pub validate_attachment : Bool → Attachment → Attached → Result Attached
  unfolding resolve_resource has_flag
  validate_attachment is_depth_use a (attached, first) = do
    resource ← resolve_resource b a.resource
    require (not (is_buffer (resource_at b resource).kind) && not (attached resource))
    require (any (matches_attachment a.resource is_depth_use) pass.writes)
    require_load_access a.load outside (resource_at b resource)
    require a.has_valid_clear
    require (not (is_d32 (resource_at b resource).image_description.format) || a.clear_stencil == 0)
    require (agrees_with first (resource_at b resource).image_description)
    ok (update attached resource true, or_first first (resource_at b resource).image_description)

  unfoldable pub validate_attachments : Bool → List Attachment → Attached → Result Attached
  unfolding validate_attachment
  validate_attachments is_depth_use [] s = ok s
  validate_attachments is_depth_use (a ∷ others) s =
      validate_attachment is_depth_use a s >>= validate_attachments is_depth_use others

  -- The last loop over the writes of a pass.
  unfoldable pub require_attached : (ℕ → Bool) → List ResourceUse → Result (Unit {0})
  unfolding resolve_resource is_write
  require_attached attached [] = ok tt
  require_attached attached (u ∷ us) =
      let test = resolve_resource b u.resource >>= λ resource. require (attached resource) in
      (if is_write u.usage then test else ok tt) >> require_attached attached us

  unfoldable pub validate_outputs : Result (Unit {0})
  unfolding validate_attachments require_attached
  validate_outputs = do
    colors ← validate_attachments false pass.color_attachments (λ _. false, none)
    all_of_them ← validate_attachments true (attachments_of pass.depth_attachment) colors
    require (is_empty pass.draw_commands || is_some all_of_them.1)
    require_attached all_of_them.0 pass.writes

module _ (outside : Outside) (b : Builder) where
  -- One round of the loop over the passes.
  unfoldable pub declare_pass : ℕ → GraphicsPass → Hazards → Result Hazards
  unfolding register_uses validate_outputs
  declare_pass index pass h = do
    reads ← register_uses outside b index false pass.reads (λ _. false, h)
    writes ← register_uses outside b index true pass.writes reads
    validate_outputs outside b pass
    ok writes.1

  unfoldable pub declare_passes : ℕ → List GraphicsPass → Hazards → Result Hazards
  unfolding declare_pass
  declare_passes index [] h = ok h
  declare_passes index (pass ∷ passes) h =
      declare_pass index pass h >>= declare_passes (suc index) passes
