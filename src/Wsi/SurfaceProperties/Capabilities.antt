-- ===== src/Wsi/SurfaceProperties/Capabilities.antt =====
-- wsi/surface_properties.cpp and the surface_properties.cpp of the platforms: the capabilities of a
-- surface. A set of flags is the list of the flags that are set, in the order of the code.
use rk_vulkan_wsi_layer.Prelude.{
  ℕ, ◌≤◌, ◌≡◌, ◌^◌, ◌-◌, refl, Bool, true, false, List, [], ◌∷◌, Option, none, some, arith,
  if◌then◌else◌,
}
use rk_vulkan_wsi_layer.Vulkan.{VkResult, success, is_success, PresentMode, fifo, mailbox}
use rk_vulkan_wsi_layer.Wsi.Swapchain.{max_swapchain_image_count}
use rk_vulkan_wsi_layer.Wsi.CompatiblePresentModes.{
  PresentModeCompatibility, SurfaceCompatibility, get_surface_present_mode_compatibility_common,
  is_compatible_present_modes, partial_entry_accepts_all, find_compatibility,
}
use rk_vulkan_wsi_layer.Wsi.SurfaceProperties.{
  mode_in, check_surface_present_mode_query_is_supported,
}
use rk_vulkan_wsi_layer.Wsi.SurfaceProperties.Headless
use rk_vulkan_wsi_layer.Wsi.SurfaceProperties.Headless.{headless_accepts_all}
use rk_vulkan_wsi_layer.Wsi.Factory.{Platform, headless, wayland, display}

-- The flags of `VkCompositeAlphaFlagBitsKHR` and `VkImageUsageFlagBits` that the layer sets.
pub data CompositeAlpha : Type 0 where
  inherit opaque pre_multiplied post_multiplied : CompositeAlpha

pub data ImageUsage : Type 0 where
  transfer_src transfer_dst sampled storage color_attachment input_attachment : ImageUsage

pub data SurfaceTransform : Type 0 where
  identity : SurfaceTransform

pub record Extent : Type 0 where
  pub width : ℕ
  pub height : ℕ

abbrev pub square : ℕ → Extent
square n = record { width = n; height = n }

pub record SurfaceCapabilities : Type 0 where
  pub min_image_count : ℕ
  pub max_image_count : ℕ
  pub current_extent : Extent
  pub min_image_extent : Extent
  pub max_image_extent : Extent
  pub max_image_array_layers : ℕ
  pub supported_transforms : List SurfaceTransform
  pub current_transform : SurfaceTransform
  pub supported_composite_alpha : List CompositeAlpha
  pub supported_usage_flags : List ImageUsage

-- The extent that stands for one that the swapchain determines.
abbrev undetermined : ℕ
undetermined = 2 ^ 32 - 1

-- `get_surface_capabilities_common`, with the limit `maxImageDimension2D` of the device.
unfoldable pub get_surface_capabilities_common : ℕ → SurfaceCapabilities
get_surface_capabilities_common max_dimension = record {
  min_image_count = 1;
  max_image_count = max_swapchain_image_count;
  current_extent = square undetermined;
  min_image_extent = square 1;
  max_image_extent = square max_dimension;
  max_image_array_layers = 1;
  supported_transforms = identity ∷ [];
  current_transform = identity;
  supported_composite_alpha = inherit ∷ opaque ∷ pre_multiplied ∷ post_multiplied ∷ [];
  supported_usage_flags =
      transfer_src ∷ transfer_dst ∷ sampled ∷ storage ∷ color_attachment ∷ input_attachment ∷ [];
}

unfoldable pub wayland_capabilities : ℕ → SurfaceCapabilities
unfolding get_surface_capabilities_common
wayland_capabilities max_dimension = record (get_surface_capabilities_common max_dimension) {
  min_image_count = 2;
  supported_composite_alpha = pre_multiplied ∷ inherit ∷ [];
}

abbrev of_extent : Option Extent → SurfaceCapabilities → SurfaceCapabilities
of_extent none c = c
of_extent (some e) c = record c { current_extent = e; min_image_extent = e; max_image_extent = e }

-- The capabilities on a display; the extent is that of the surface, if there is a specific one.
unfoldable pub display_capabilities : Option Extent → ℕ → SurfaceCapabilities
unfolding get_surface_capabilities_common
display_capabilities e max_dimension =
    record (of_extent e (get_surface_capabilities_common max_dimension)) {
      min_image_count = 2;
      max_image_count = 3;
      supported_composite_alpha = inherit ∷ opaque ∷ [];
    }

-- `VkSurfacePresentScalingCapabilitiesEXT`: whether scaling one to one and the minimal gravities are
-- supported, and the extents.
pub record ScalingCapabilities : Type 0 where
  pub one_to_one : Bool
  pub gravity_x_min : Bool
  pub gravity_y_min : Bool
  pub min_scaled_image_extent : Extent
  pub max_scaled_image_extent : Extent

-- The constructors of the classes: the supported modes and the compatible ones.
unfoldable pub platform_modes : Platform → List PresentMode
unfolding Headless.supported_modes
platform_modes headless = Headless.supported_modes
platform_modes wayland = fifo ∷ mailbox ∷ []
platform_modes display = fifo ∷ []

unfoldable pub populate_present_mode_compatibilities : Platform → List PresentModeCompatibility
unfolding Headless.compatible_present_modes_list
populate_present_mode_compatibilities headless = Headless.compatible_present_modes_list
populate_present_mode_compatibilities wayland = Headless.one fifo ∷ Headless.one mailbox ∷ []
populate_present_mode_compatibilities display = Headless.one fifo ∷ []

abbrev scaling_flag : Platform → Bool
scaling_flag headless = false
scaling_flag _ = true

unfoldable pub get_surface_present_scaling_and_gravity :
    Platform → ScalingCapabilities → ScalingCapabilities
get_surface_present_scaling_and_gravity p s = record s {
  one_to_one = scaling_flag p;
  gravity_x_min = scaling_flag p;
  gravity_y_min = scaling_flag p;
}

-- `get_surface_capabilities`, with the extent of a specific surface on a display.
unfoldable pub get_surface_capabilities : Platform → Option Extent → ℕ → SurfaceCapabilities
unfolding wayland_capabilities display_capabilities get_surface_capabilities_common
get_surface_capabilities headless e n = get_surface_capabilities_common n
get_surface_capabilities wayland e n = wayland_capabilities n
get_surface_capabilities display e n = display_capabilities e n

abbrev pub scaled : Platform → SurfaceCapabilities → ScalingCapabilities → ScalingCapabilities
unfolding get_surface_present_scaling_and_gravity
scaled p c s = record (get_surface_present_scaling_and_gravity p s) {
  min_scaled_image_extent = c.min_image_extent;
  max_scaled_image_extent = c.max_image_extent;
}

abbrev pub scaled_found :
    Platform → SurfaceCapabilities → Option ScalingCapabilities → Option ScalingCapabilities
scaled_found p c none = none
scaled_found p c (some s) = some (scaled p c s)

-- The structure `VkSurfaceCapabilities2KHR` with those of its chain that the layer writes.
pub record SurfaceCapabilities2 : Type 0 where
  pub surface_capabilities : SurfaceCapabilities
  pub compatibility : Option SurfaceCompatibility
  pub scaling : Option ScalingCapabilities

-- `get_surface_capabilities` of the extended structure; the mode is the one in the chain of the
-- surface's information, if there is one.
unfoldable pub get_surface_capabilities2 :
    Platform
    → Option Extent
    → ℕ
    → Option PresentMode
    → SurfaceCapabilities2
    → VkResult × SurfaceCapabilities2
unfolding get_surface_capabilities platform_modes populate_present_mode_compatibilities
    check_surface_present_mode_query_is_supported get_surface_present_mode_compatibility_common
get_surface_capabilities2 p e n m c =
    let checked = check_surface_present_mode_query_is_supported m (platform_modes p) in
    if is_success checked
    then (
      success,
      record {
        surface_capabilities = get_surface_capabilities p e n;
        compatibility =
            get_surface_present_mode_compatibility_common (populate_present_mode_compatibilities p)
              m c.compatibility;
        scaling = scaled_found p (get_surface_capabilities p e n) c.scaling;
      },
    )
    else (checked, c)

unfoldable pub modes_compatible : Platform → PresentMode → PresentMode → Bool
unfolding is_compatible_present_modes populate_present_mode_compatibilities
modes_compatible p a b = is_compatible_present_modes (populate_present_mode_compatibilities p) a b

-- On every platform, every mode counts as compatible with every mode that the surface supports,
-- whether the table lists it or the surface supports it or not.
pub every_mode_compatible :
    (p : Platform) (a b : PresentMode)
    → mode_in a (platform_modes p) ≡ true
    → modes_compatible p a b ≡ true
unfolding modes_compatible platform_modes mode_in populate_present_mode_compatibilities
    find_compatibility
every_mode_compatible headless a b h = headless_accepts_all a b h
every_mode_compatible wayland fifo b h =
    partial_entry_accepts_all (populate_present_mode_compatibilities wayland) fifo b
      (Headless.one fifo) refl (omega arith)
every_mode_compatible wayland mailbox b h =
    partial_entry_accepts_all (populate_present_mode_compatibilities wayland) mailbox b
      (Headless.one mailbox) refl (omega arith)
every_mode_compatible wayland _ b h = ground arith
every_mode_compatible display fifo b h =
    partial_entry_accepts_all (populate_present_mode_compatibilities display) fifo b
      (Headless.one fifo) refl (omega arith)
every_mode_compatible display _ b h = ground arith

-- The numbers of images that a platform offers are at least one and no more than the pending pool
-- of a swapchain holds.
pub image_counts_fit :
    (p : Platform) (e : Option Extent) (n : ℕ)
    → (1 ≤ (get_surface_capabilities p e n).min_image_count)
      × ((get_surface_capabilities p e n).min_image_count
          ≤ (get_surface_capabilities p e n).max_image_count)
      × ((get_surface_capabilities p e n).max_image_count ≤ max_swapchain_image_count)
unfolding get_surface_capabilities get_surface_capabilities_common
image_counts_fit headless e n = omega arith
image_counts_fit wayland e n = omega arith
image_counts_fit display none n = omega arith
image_counts_fit display (some x) n = omega arith
