-- ===== src/Wsi/Display/SurfaceProperties.antt =====
-- wsi/display/surface_properties.cpp: the entry points of VK_KHR_display that the layer implements.
-- The pointer to a mode of the display is its index in the array of modes, and that to the only
-- display is 1. A pointer of the caller that is not written is `none`.
pub mod Modes
pub mod Formats
use rk_vulkan_wsi_layer.Prelude.{
  ℕ, zero, suc, ◌+◌, ◌<◌, ◌≡◌, Bool, true, false, ◌&&◌, ◌||◌, List, [], ◌∷◌, ◌++◌, Option, none,
  some, ◌==◌, ltb, if◌then◌else◌, length, min, u32,
}
use mathlib.Core.Option
use rk_vulkan_wsi_layer.Vulkan.{
  VkResult, success, incomplete, error_out_of_host_memory, error_initialization_failed, is_success,
}
use rk_vulkan_wsi_layer.Wsi.SurfaceProperties.{Queried, write_elements}
use rk_vulkan_wsi_layer.Wsi.SurfaceProperties.Capabilities.{Extent, square}
use rk_vulkan_wsi_layer.Wsi.Display.DrmDisplay.{DisplayMode, DrmDisplay, get_refresh_rate}
use rk_vulkan_wsi_layer.Layer.PrivateData.Surfaces.{InstanceSurfaces, add_surface}

-- `VkDisplayModeParametersKHR`: the visible region and the refresh rate in mHz.
pub record ModeParameters : Type 0 where
  pub width : ℕ
  pub height : ℕ
  pub refresh_rate : ℕ

pub record ModeProperties : Type 0 where
  pub display_mode : ℕ
  pub parameters : ModeParameters

unfoldable pub parameters_of : DisplayMode → ModeParameters
unfolding get_refresh_rate
parameters_of d = record {
  width = d.drm_mode.hdisplay;
  height = d.drm_mode.vdisplay;
  refresh_rate = get_refresh_rate d;
}

abbrev pub same_parameters : ModeParameters → ModeParameters → Bool
same_parameters p q = p.width == q.width && p.height == q.height && p.refresh_rate == q.refresh_rate

-- `std::find_if` over the modes, from an index on.
unfoldable pub find_mode : ModeParameters → ℕ → List DisplayMode → Option ℕ
find_mode p i [] = none
find_mode p i (d ∷ ds) =
    let rest = find_mode p (suc i) ds in
    if same_parameters (parameters_of d) p then some i else rest

unfoldable pub create_display_mode : List DisplayMode → ModeParameters → VkResult × Option ℕ
unfolding find_mode
create_display_mode modes p =
    if p.width == 0 || p.height == 0 || p.refresh_rate == 0
    then (error_initialization_failed, none)
    else (elim (find_mode p 0 modes) [
      | none ↦ (error_initialization_failed, none)
      | some i ↦ (success, some i)
    ])

-- The properties of the modes, from an index on.
unfoldable pub mode_properties : ℕ → List DisplayMode → List ModeProperties
mode_properties i [] = []
mode_properties i (d ∷ ds) =
    record { display_mode = i; parameters = parameters_of d } ∷ mode_properties (suc i) ds

unfoldable pub get_display_mode_properties :
    List DisplayMode → ℕ → Option (List ModeProperties) → Queried ModeProperties
unfolding mode_properties write_elements
get_display_mode_properties modes count none = (success, u32 (length modes), none)
get_display_mode_properties modes count (some array) =
    let n = min count (u32 (length modes)) in
    (
      if ltb n (u32 (length modes)) then incomplete else success,
      n,
      some (write_elements (mode_properties 0 modes) n array),
    )

-- `VkDisplayPlaneCapabilitiesKHR`: the positions are 0, and the only alpha is opaque.
pub record PlaneCapabilities : Type 0 where
  pub alpha_opaque : Bool
  pub min_src_position : ℕ × ℕ
  pub max_src_position : ℕ × ℕ
  pub min_src_extent : Extent
  pub max_src_extent : Extent
  pub min_dst_position : ℕ × ℕ
  pub max_dst_position : ℕ × ℕ
  pub min_dst_extent : Extent
  pub max_dst_extent : Extent

abbrev extent_of : DisplayMode → Extent
extent_of d = record { width = d.drm_mode.hdisplay; height = d.drm_mode.vdisplay }

-- `GetDisplayPlaneCapabilitiesKHR`, of a display that may be missing and a mode of it.
unfoldable pub get_display_plane_capabilities :
    Option DrmDisplay → DisplayMode → VkResult × Option PlaneCapabilities
get_display_plane_capabilities none d = (error_out_of_host_memory, none)
get_display_plane_capabilities (some display) d = (
  success,
  some (record {
    alpha_opaque = true;
    min_src_position = (0, 0);
    max_src_position = (0, 0);
    min_src_extent = square 0;
    max_src_extent = extent_of d;
    min_dst_position = (0, 0);
    max_dst_position = (0, 0);
    min_dst_extent = extent_of d;
    max_dst_extent = extent_of d;
  }),
)

-- The common shape of the queries that have one element to give: with no array the count is 1, a
-- count of 0 is too small, and else the element is written.
abbrev pub one_element : {A : Type 0} → A → ℕ → Option (List A) → Queried A
one_element a count none = (success, 1, none)
one_element a count (some array) =
    if count == 0
    then (incomplete, count, some array)
    else (success, 1, some (write_elements (a ∷ []) 1 array))

abbrev pub the_display : ℕ
the_display = 1

unfoldable pub get_display_plane_supported_displays :
    Option DrmDisplay → ℕ → Option (List ℕ) → Queried ℕ
unfolding write_elements
get_display_plane_supported_displays none count array = (error_out_of_host_memory, count, array)
get_display_plane_supported_displays (some d) count array = one_element the_display count array

pub record PlaneProperties : Type 0 where
  pub current_display : ℕ
  pub current_stack_index : ℕ

unfoldable pub get_physical_device_display_plane_properties :
    Option DrmDisplay → ℕ → Option (List PlaneProperties) → Queried PlaneProperties
unfolding write_elements
get_physical_device_display_plane_properties none count array =
    (error_out_of_host_memory, count, array)
get_physical_device_display_plane_properties (some d) count array =
    one_element (record { current_display = the_display; current_stack_index = 0 }) count array

-- `VkDisplayPropertiesKHR`, without the name and with the flags that are set or not. The size in
-- millimetres is the connector's.
pub record DisplayProperties : Type 0 where
  pub display : ℕ
  pub physical_dimensions : Extent
  pub physical_resolution : Extent
  pub transform_identity : Bool
  pub plane_reorder_possible : Bool
  pub persistent_content : Bool

unfoldable pub get_physical_device_display_properties :
    Extent → Option DrmDisplay → ℕ → Option (List DisplayProperties) → Queried DisplayProperties
unfolding write_elements
get_physical_device_display_properties mm none count array = (success, 0, array)
get_physical_device_display_properties mm (some d) count array =
    one_element
      (record {
        display = the_display;
        physical_dimensions = mm;
        physical_resolution = record { width = d.max_width; height = d.max_height };
        transform_identity = true;
        plane_reorder_possible = false;
        persistent_content = false;
      })
      count array

-- The calls of the driver that make and release a surface.
pub data SurfaceCall : Type 0 where
  surface_created surface_destroyed : ℕ → SurfaceCall

-- The answers to the creation of a surface: the driver's result and handle, the layer's surface, 0
-- where it cannot be allocated, and whether the map takes it.
pub record SurfaceAnswers : Type 0 where
  pub create_surface : VkResult
  pub handle : ℕ
  pub wsi_surface : ℕ
  pub inserted : Bool

-- The addition of the surface of the layer to the instance, and the release of the driver's surface
-- where it fails.
unfoldable pub add_made_surface :
    SurfaceAnswers → InstanceSurfaces → VkResult × InstanceSurfaces × List SurfaceCall
add_made_surface a s =
    let (r, s', rest) = add_surface a.inserted a.handle a.wsi_surface s in
    (r, s', if is_success r then [] else surface_destroyed a.handle ∷ [])

-- `CreateDisplayPlaneSurfaceKHR`: the driver's surface is made first.
unfoldable pub create_display_plane_surface :
    SurfaceAnswers → InstanceSurfaces → VkResult × InstanceSurfaces × List SurfaceCall
create_display_plane_surface a s =
    if is_success a.create_surface
    then (if a.wsi_surface == 0
        then (error_out_of_host_memory, s, surface_created a.handle ∷ [])
        else (let (r, s', calls) = add_made_surface a s in
            (r, s', surface_created a.handle ∷ calls)))
    else (a.create_surface, s, [])

-- `CreateHeadlessSurfaceEXT` and `CreateWaylandSurfaceKHR`: the layer's surface is made first.
unfoldable pub create_surface :
    SurfaceAnswers → InstanceSurfaces → VkResult × InstanceSurfaces × List SurfaceCall
create_surface a s =
    if a.wsi_surface == 0
    then (error_out_of_host_memory, s, [])
    else (if is_success a.create_surface
        then (let (r, s', calls) = add_made_surface a s in
            (r, s', surface_created a.handle ∷ calls))
        else (a.create_surface, s, []))
