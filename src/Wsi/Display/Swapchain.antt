-- ===== src/Wsi/Display/Swapchain.antt =====
-- wsi/display/swapchain.cpp: the data of the images of a swapchain on a display, the search for their
-- formats and the calls of the allocator. The answers of the kernel, of the
-- driver, of the allocator and of the host are arguments, and the calls that make and release objects
-- are listed. A handle is a number and 0 the null one; an `fb_id` of UINT32_MAX is `none`.
pub mod Creation
pub mod Negotiation
pub mod Framebuffers
pub mod Calls
pub mod Released
pub mod Present
pub mod PageFlip
pub mod Shown
use Prim.Native.Nat.{bit_and}
use rk_vulkan_wsi_layer.Prelude.{
  ℕ, zero, suc, ◌≡◌, Bool, true, false, not, ◌&&◌, ◌||◌, List, [], ◌∷◌, ◌++◌, Option, none, some,
  ◌==◌, ltb, if◌then◌else◌, set, get_or,
}
use rk_vulkan_wsi_layer.Vulkan.{
  VkResult, success, error_out_of_host_memory, error_initialization_failed, is_success,
}
use rk_vulkan_wsi_layer.Util.Wsialloc.{
  WsiallocError, error_none, error_not_supported, WsiallocFormat,
}
use rk_vulkan_wsi_layer.Util.DrmUtils.{Codes, vk_to_drm_format, drm_fourcc_format_get_num_planes}
use rk_vulkan_wsi_layer.Wsi.Synchronization.{FenceSync, create}
use rk_vulkan_wsi_layer.Wsi.Swapchain.{SwapchainImage, Status, invalid, free}
use rk_vulkan_wsi_layer.Wsi.ExternalMemory.{ExternalMemory, is_disjoint, fill_image_plane_layouts}
use rk_vulkan_wsi_layer.Wsi.Wayland.{num_memory_planes, wsialloc_result}
use rk_vulkan_wsi_layer.Wsi.Display.DrmDisplay.{DrmDisplay, FormatPair, is_format_supported}

-- `display_image_data`.
pub record DisplayImageData : Type 0 where
  pub external_mem : ExternalMemory
  pub fb_id : Option ℕ
  pub present_fence : Option FenceSync

abbrev pub Image : Type 0
Image = SwapchainImage DisplayImageData

-- `VkImageCreateInfo`: what the platform reads and writes of it. `samples` is a bit.
pub record ImageInfo : Type 0 where
  pub format : ℕ
  pub width : ℕ
  pub height : ℕ
  pub depth : ℕ
  pub mip_levels : ℕ
  pub array_layers : ℕ
  pub samples : ℕ
  pub disjoint : Bool
  pub modifier_tiling : Bool

-- `VkDrmFormatModifierPropertiesEXT`.
pub record ModifierProperties : Type 0 where
  pub modifier : ℕ
  pub plane_count : ℕ
  pub disjoint : Bool

-- The properties of an image format, and whether its memory can be exported and imported.
pub record ImageFormatProperties : Type 0 where
  pub max_width : ℕ
  pub max_height : ℕ
  pub max_depth : ℕ
  pub max_mip_levels : ℕ
  pub max_array_layers : ℕ
  pub sample_counts : ℕ
  pub exportable : Bool
  pub importable : Bool

-- `util::get_drm_format_properties`: whether the list can be resized, and what the driver writes.
unfoldable pub get_drm_format_properties :
    Bool → List ModifierProperties → VkResult × List ModifierProperties
get_drm_format_properties resized props =
    if resized then (success, props) else (error_out_of_host_memory, [])

-- Whether the image fits the properties.
unfoldable pub fits : ImageInfo → ImageFormatProperties → Bool
fits info p =
    not (ltb p.max_width info.width || ltb p.max_height info.height || ltb p.max_depth info.depth)
    && not (ltb p.max_mip_levels info.mip_levels || ltb p.max_array_layers info.array_layers)
    && bit_and p.sample_counts info.samples == info.samples

-- `WSIALLOC_FORMAT_NON_DISJOINT`, a flag.
abbrev pub non_disjoint : ℕ
non_disjoint = 1

-- The answers to `get_surface_compatible_formats`: the query of a modifier, and whether each list has
-- room for it.
pub record FormatAnswers : Type 0 where
  pub resized : Bool
  pub properties : List ModifierProperties
  pub image_properties : ModifierProperties → VkResult × ImageFormatProperties
  pub export_pushed : ModifierProperties → Bool
  pub import_pushed : ModifierProperties → Bool

-- What the search for the formats leaves.
pub record Formats : Type 0 where
  pub importable_formats : List WsiallocFormat
  pub exportable_modifiers : List ℕ

abbrev pub no_formats : Formats
no_formats = record { importable_formats = []; exportable_modifiers = [] }

module _ (c : Codes) (info : ImageInfo) (a : FormatAnswers) where
  unfoldable pub import_format : ModifierProperties → WsiallocFormat
  import_format p = record {
    fourcc = vk_to_drm_format c info.format;
    modifier = p.modifier;
    flags = if p.disjoint then 0 else non_disjoint;
  }

  -- Whether a modifier is passed over.
  unfoldable pub is_usable : (FormatPair → Bool) → ModifierProperties → Bool
  unfolding fits
  is_usable supported p =
      supported (vk_to_drm_format c info.format, p.modifier)
      && is_success (a.image_properties p).0
      && fits info (a.image_properties p).1

  abbrev pub pushed_export : ModifierProperties → Formats → Formats
  pushed_export p f =
      if (a.image_properties p).1.exportable
      then record f { exportable_modifiers = f.exportable_modifiers ++ p.modifier ∷ [] }
      else f

  abbrev pub pushed_import : ModifierProperties → Formats → Formats
  pushed_import p f =
      if (a.image_properties p).1.importable
      then record f { importable_formats = f.importable_formats ++ import_format p ∷ [] }
      else f

  -- One modifier that is not passed over.
  unfoldable pub push_modifier : ModifierProperties → Formats → VkResult × Formats
  push_modifier p f =
      if (a.image_properties p).1.exportable && not (a.export_pushed p)
      then (error_out_of_host_memory, f)
      else (if (a.image_properties p).1.importable && not (a.import_pushed p)
          then (error_out_of_host_memory, pushed_export p f)
          else (success, pushed_import p (pushed_export p f)))

  -- The loop over the modifiers, by the formats that are supported: those of the display here, and of
  -- the compositor in wsi/wayland/swapchain.cpp, whose loop is the same.
  unfoldable pub push_modifiers :
      (FormatPair → Bool) → List ModifierProperties → Formats → VkResult × Formats
  push_modifiers supported [] f = (success, f)
  push_modifiers supported (p ∷ ps) f =
      let pushed = push_modifier p f in
      let next = push_modifiers supported ps pushed.1 in
      let passed = push_modifiers supported ps f in
      if is_usable supported p then (if is_success pushed.0 then next else pushed) else passed

  unfoldable pub get_surface_compatible_formats : Option DrmDisplay → VkResult × Formats
  unfolding get_drm_format_properties
  get_surface_compatible_formats display =
      let (r, props) = get_drm_format_properties a.resized a.properties in
      if is_success r
      then (elim display [
        | none ↦ (error_out_of_host_memory, no_formats)
        | some d ↦ push_modifiers (λ f. is_format_supported f d) props no_formats
      ])
      else (r, no_formats)

-- What the allocator answers: its error, and what it writes.
pub record Allocated : Type 0 where
  pub err : WsiallocError
  pub format : WsiallocFormat
  pub strides : List ℕ
  pub offsets : List ℕ
  pub buffer_fds : List (Option ℕ)
  pub disjoint : Bool

-- `set_format_info`.
unfoldable pub set_format_info : Bool → ℕ → ExternalMemory → ExternalMemory
set_format_info disjoint planes m =
    if disjoint
    then record m { num_planes = planes }
    else record m { num_planes = planes; num_memories = 1 }

-- `allocate_wsialloc`: its result, the format where there is one, and the memory.
unfoldable pub allocate_wsialloc :
    Codes → Bool → Allocated → ExternalMemory → VkResult × Option WsiallocFormat × ExternalMemory
unfolding set_format_info num_memory_planes wsialloc_result
allocate_wsialloc c avoid_allocation r m =
    let planes = drm_fourcc_format_get_num_planes c r.format.fourcc in
    let m' = record m {
      buffer_fds = r.buffer_fds;
      strides = r.strides;
      offsets = r.offsets;
      num_memories =
          if avoid_allocation then m.num_memories else num_memory_planes planes r.buffer_fds;
    } in
    if is_success (wsialloc_result r.err)
    then (success, some r.format, set_format_info r.disjoint planes m')
    else (wsialloc_result r.err, none, m)
