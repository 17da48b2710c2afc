-- ===== src/Wsi/Display/Swapchain/Creation.antt =====
-- wsi/display/swapchain.cpp: the creation of an image, of which the first settles the format. What the
-- search for the formats finds is an argument of all but the last definition, since
-- wsi/wayland/swapchain.cpp goes on from it in the same way.
use rk_vulkan_wsi_layer.Prelude.{
  ℕ, Bool, true, false, ◌||◌, List, [], ◌∷◌, Option, none, some, ◌==◌, if◌then◌else◌,
}
use rk_vulkan_wsi_layer.Vulkan.{
  VkResult, success, error_out_of_host_memory, error_initialization_failed, is_success,
}
use rk_vulkan_wsi_layer.Util.Wsialloc.{WsiallocFormat}
use rk_vulkan_wsi_layer.Util.DrmUtils.{Codes}
use rk_vulkan_wsi_layer.Wsi.ExternalMemory.{ExternalMemory, is_disjoint, fill_image_plane_layouts}
use rk_vulkan_wsi_layer.Wsi.Swapchain.{SwapchainImage}
use rk_vulkan_wsi_layer.Wsi.Display.DrmDisplay.{DrmDisplay}
use rk_vulkan_wsi_layer.Wsi.Display.Swapchain.{
  DisplayImageData, Image, ImageInfo, ModifierProperties, FormatAnswers, Formats,
  get_surface_compatible_formats, Allocated, allocate_wsialloc,
}

-- `fill_image_create_info`: whether the list of the layouts can be resized.
unfoldable pub fill_image_create_info : Bool → ExternalMemory → ImageInfo → VkResult × ImageInfo
unfolding fill_image_plane_layouts is_disjoint
fill_image_create_info resized m info = elim (fill_image_plane_layouts resized m) [
  | none ↦ (error_out_of_host_memory, info)
  | some layouts ↦
      (success, record info { disjoint = info.disjoint || is_disjoint m; modifier_tiling = true })
]

-- The number of memories is the plane count of the last property with the modifier.
unfoldable pub memories_of : ℕ → List ModifierProperties → ExternalMemory → ExternalMemory
memories_of modifier [] m = m
memories_of modifier (p ∷ ps) m =
    memories_of modifier ps
      (if p.modifier == modifier then record m { num_memories = p.plane_count } else m)

-- What a swapchain keeps between its images: the information that images are created by, if it is
-- set, and the format that is allocated.
pub record ImageCreation : Type 0 where
  pub image_create_info : Option ImageInfo
  pub allocated_format : WsiallocFormat

-- The answers to `create_swapchain_image`: `allocate` is what the allocator returns for a list of
-- formats, and `create_image` what the driver returns and its handle.
pub record CreationAnswers : Type 0 where
  pub data_created : Bool
  pub formats : FormatAnswers
  pub allocate : List WsiallocFormat → Allocated
  pub layouts_resized : Bool
  pub create_image : ImageInfo → VkResult × ℕ

abbrev is_empty : List WsiallocFormat → Bool
is_empty [] = true
is_empty _ = false

module _ (c : Codes) (search : VkResult × Formats) (a : CreationAnswers) (info : ImageInfo) where
  -- What the first image settles after its formats are known.
  unfoldable pub settle_with :
      WsiallocFormat → ExternalMemory → ImageCreation → VkResult × ExternalMemory × ImageCreation
  settle_with f m s =
      let m' = memories_of f.modifier a.formats.properties m in
      let (r, info') = fill_image_create_info a.layouts_resized m' info in
      if is_success r
      then (success, m', record { image_create_info = some info'; allocated_format = f })
      else (r, m', s)

  unfoldable pub settle_allocated :
      VkResult × Option WsiallocFormat × ExternalMemory
      → ImageCreation
      → VkResult × ExternalMemory × ImageCreation
  settle_allocated (r, none, m) s = (r, m, s)
  settle_allocated (r, some f, m) s = settle_with f m s

  unfoldable pub settle_format :
      ExternalMemory → ImageCreation → VkResult × ExternalMemory × ImageCreation
  settle_format m s =
      let (r, f) = search in
      if is_success r
      then (if is_empty f.importable_formats
          then (error_initialization_failed, m, s)
          else settle_allocated (allocate_wsialloc c true (a.allocate f.importable_formats) m) s)
      else (r, m, s)

  -- The first image of a swapchain settles the format; the others are created like it.
  unfoldable pub settle : ExternalMemory → ImageCreation → VkResult × ExternalMemory × ImageCreation
  settle m s = elim s.image_create_info [ none ↦ settle_format m s | some i ↦ (success, m, s) ]

module _ {D : Type 0} (a : CreationAnswers) where
  abbrev create_by : SwapchainImage D → D → Option ImageInfo → VkResult × SwapchainImage D
  create_by im d none = (error_initialization_failed, record im { image_data = some d })
  create_by im d (some i) = (
    (a.create_image i).0,
    record im {
      image_data = some d;
      image = if is_success (a.create_image i).0 then (a.create_image i).1 else im.image;
    },
  )

  -- The image with the data that are made of its memory, after the format is settled.
  unfoldable pub create_settled :
      (ExternalMemory → D)
      → VkResult × ExternalMemory × ImageCreation
      → ImageCreation
      → SwapchainImage D
      → VkResult × ImageCreation × SwapchainImage D
  create_settled make (r, m', s') s im =
      let (q, im') = create_by im (make m') s'.image_create_info in
      if a.data_created
      then (if is_success r
          then (q, s', im')
          else (r, s', record im { image_data = some (make m') }))
      else (error_out_of_host_memory, s, im)

abbrev pub with_memory : ExternalMemory → DisplayImageData
with_memory m = record { external_mem = m; fb_id = none; present_fence = none }

-- `create_swapchain_image`, with the memory of the data that it makes.
unfoldable pub create_swapchain_image :
    Codes
    → Option DrmDisplay
    → CreationAnswers
    → ImageInfo
    → ExternalMemory
    → ImageCreation
    → Image
    → VkResult × ImageCreation × Image
unfolding create_settled settle
create_swapchain_image c display a info m s im =
    create_settled a with_memory
      (settle c (get_surface_compatible_formats c info a.formats display) a info m s) s im
