-- ===== src/Wsi/Wayland/Creation.antt =====
-- wsi/wayland/swapchain.cpp: the creation of an image. The search for the formats goes over those of the
-- compositor; the rest is as on a display.
use rk_vulkan_wsi_layer.Prelude.{◌≡◌, ◌⊎◌, true, List, none, if◌then◌else◌, arith}
use rk_vulkan_wsi_layer.Vulkan.{VkResult, is_success}
use rk_vulkan_wsi_layer.Util.Wsialloc.{WsiallocFormat, error_none}
use rk_vulkan_wsi_layer.Util.DrmUtils.{Codes}
use rk_vulkan_wsi_layer.Wsi.ExternalMemory.{ExternalMemory}
use rk_vulkan_wsi_layer.Wsi.Swapchain.{SwapchainImage}
use rk_vulkan_wsi_layer.Wsi.Wayland.{WaylandImageData}
use rk_vulkan_wsi_layer.Wsi.Display.DrmDisplay.{FormatPair, any_format}
use rk_vulkan_wsi_layer.Wsi.Display.Swapchain.{
  ImageInfo, FormatAnswers, Formats, no_formats, push_modifiers, get_drm_format_properties,
}
use rk_vulkan_wsi_layer.Wsi.Display.Swapchain.Creation.{
  CreationAnswers, ImageCreation, settle, settle_format, create_settled,
}
use rk_vulkan_wsi_layer.Wsi.Display.Swapchain.Negotiation.{
  Supported, Among, searched-Supported, settled-Supported,
}

-- The search for the formats that the driver and the compositor have.
unfoldable pub get_surface_compatible_formats :
    Codes → ImageInfo → FormatAnswers → List FormatPair → VkResult × Formats
unfolding get_drm_format_properties push_modifiers
get_surface_compatible_formats c info a formats =
    let (r, props) = get_drm_format_properties a.resized a.properties in
    if is_success r
    then push_modifiers c info a (λ f. any_format f formats) props no_formats
    else (r, no_formats)

abbrev with_memory : ExternalMemory → WaylandImageData
with_memory m = record { buffer = 0; external_mem = m; present_fence = none }

-- `create_swapchain_image`, with the memory of the data that it makes.
unfoldable pub create_swapchain_image :
    Codes
    → List FormatPair
    → CreationAnswers
    → ImageInfo
    → ExternalMemory
    → ImageCreation
    → SwapchainImage WaylandImageData
    → VkResult × ImageCreation × SwapchainImage WaylandImageData
unfolding create_settled settle get_surface_compatible_formats
create_swapchain_image c formats a info m s im =
    create_settled a with_memory
      (settle c (get_surface_compatible_formats c info a.formats formats) a info m s) s im

compatible_lem :
    (c : Codes) (info : ImageInfo) (a : FormatAnswers) (formats : List FormatPair)
    → ((get_surface_compatible_formats c info a formats).1
        ≡ (push_modifiers c info a (λ f. any_format f formats) a.properties no_formats).1)
      ⊎ ((get_surface_compatible_formats c info a formats).1 ≡ no_formats)
unfolding get_surface_compatible_formats get_drm_format_properties
compatible_lem c info a formats = ground arith

-- Where the first image of a swapchain settles the format successfully, and the allocator returns one of
-- the formats that it was given, the compositor has the format that is kept for the images.
pub compositor_format-Supported :
    (c : Codes) (formats : List FormatPair) (a : CreationAnswers) (info : ImageInfo)
    (m : ExternalMemory) (s : ImageCreation)
    → ((fs : List WsiallocFormat)
        → (a.allocate fs).err ≡ error_none
        → Among (a.allocate fs).format fs)
    → is_success
        (settle_format c (get_surface_compatible_formats c info a.formats formats) a info m s).0
      ≡ true
    → Supported
        (λ f. any_format f formats)
        (settle_format c
          (get_surface_compatible_formats c info a.formats formats)
          a
          info
          m
          s).2.allocated_format
compositor_format-Supported c formats a info m s among =
    settled-Supported c (get_surface_compatible_formats c info a.formats formats) a info
      (λ f. any_format f formats)
      (searched-Supported c info a.formats (λ f. any_format f formats) _
        (compatible_lem c info a.formats formats))
      among m s
