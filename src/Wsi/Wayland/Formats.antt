-- ===== src/Wsi/Wayland/Formats.antt =====
-- wsi/wayland/surface_properties.cpp: the formats of a surface, which are found once and kept, and the
-- protocols that the compositor must have. The map is the association list of UnorderedMap.
use rk_vulkan_wsi_layer.Prelude.{
  ℕ, Bool, true, false, not, ◌&&◌, List, [], ◌∷◌, Option, none, some, ◌==◌, if◌then◌else◌, length,
  map,
}
use rk_vulkan_wsi_layer.Vulkan.{
  VkResult, success, error_out_of_host_memory, error_format_not_supported, is_success,
}
use rk_vulkan_wsi_layer.Util.UnorderedMap.{UnorderedMap, find, assign, holds, try_insert}
use rk_vulkan_wsi_layer.Util.DrmUtils.{Codes, undefined, drm_to_vk_format, drm_to_vk_srgb_format}
use rk_vulkan_wsi_layer.Wsi.SurfaceProperties.{
  SurfaceFormat, Format2, Queried, surface_formats2, surface_format_properties,
  add_device_compression_support,
}
use rk_vulkan_wsi_layer.Wsi.Display.DrmDisplay.{FormatPair}

-- What the driver and the host answer for a format and a modifier: the result of the query of the
-- format; that of the query with compression, with its flag and its rates; and whether an element of
-- the map can be allocated.
pub record Device : Type 0 where
  pub check_device_support : ℕ → ℕ → VkResult
  pub compression : ℕ → ℕ → VkResult × Bool × ℕ
  pub allocated : ℕ → Bool

abbrev pub FormatMap : Type 0
FormatMap = UnorderedMap SurfaceFormat

abbrev inserted_result : Option Bool → VkResult
inserted_result none = error_out_of_host_memory
inserted_result (some b) = success

-- The result of the query decides whether the format is added; a format that is not supported is no
-- error.
unfoldable pub add_supported : VkResult → Bool → ℕ → FormatMap → VkResult × FormatMap
unfolding try_insert
add_supported success allocated f m =
    let (o, m') = try_insert allocated f (surface_format_properties f) m in (inserted_result o, m')
add_supported error_format_not_supported allocated f m = (success, m)
add_supported r allocated f m = (r, m)

module _ (c : Codes) (d : Device) where
  -- `surface_format_properties_map_add`.
  unfoldable pub map_add : ℕ → ℕ → FormatMap → VkResult × FormatMap
  map_add f modifier m = add_supported (d.check_device_support f modifier) (d.allocated f) f m

  -- One of the two names of a format, which is added if it is one and not in the map.
  unfoldable pub add_name : ℕ → ℕ → FormatMap → VkResult × FormatMap
  add_name f modifier m =
      if not (f == c.vk undefined) && not (holds f m) then map_add f modifier m else (success, m)

  -- The loop of `surface_format_properties_map_init`.
  unfoldable pub map_init : List FormatPair → FormatMap → VkResult × FormatMap
  map_init [] m = (success, m)
  map_init (p ∷ ps) m =
      let (r, m') = add_name (drm_to_vk_format c p.0) p.1 m in
      let (s, m'') = add_name (drm_to_vk_srgb_format c p.0) p.1 m' in
      let rest = map_init ps m'' in
      if is_success r then (if is_success s then rest else (s, m'')) else (r, m')

  abbrev compressed : ℕ → ℕ → SurfaceFormat → VkResult × SurfaceFormat
  unfolding add_device_compression_support
  compressed f modifier x =
      let (r, explicit, rates) = d.compression f modifier in
      add_device_compression_support r explicit rates x

  -- The properties of compression of one name, which are added if the map has it.
  unfoldable pub compress_name : ℕ → ℕ → FormatMap → VkResult × FormatMap
  unfolding add_device_compression_support
  compress_name f modifier m = if f == c.vk undefined then (success, m) else (elim (find f m) [
    | none ↦ (success, m)
    | some x ↦ ((compressed f modifier x).0, assign f (compressed f modifier x).1 m)
  ])

  -- The loop of `surface_format_properties_map_add_compression`.
  unfoldable pub map_add_compression : List FormatPair → FormatMap → VkResult × FormatMap
  map_add_compression [] m = (success, m)
  map_add_compression (p ∷ ps) m =
      let (r, m') = compress_name (drm_to_vk_format c p.0) p.1 m in
      let (s, m'') = compress_name (drm_to_vk_srgb_format c p.0) p.1 m' in
      let rest = map_add_compression ps m'' in
      if is_success r then (if is_success s then rest else (s, m'')) else (r, m')

  -- `supported_formats` as `get_surface_formats` fills it, where it is empty.
  unfoldable pub fill_formats : Bool → List FormatPair → FormatMap → VkResult × FormatMap
  fill_formats compression ps m =
      let (r, m') = map_init ps m in
      if length m == 0
      then (if is_success r
          then (if compression then map_add_compression ps m' else (success, m'))
          else (r, m'))
      else (success, m)

  -- `get_surface_formats` with extended structures: its result, and the map that is kept. The first
  -- boolean is whether the build has the control of compression, the second whether the device has.
  unfoldable pub get_surface_formats :
      Bool
      → Bool
      → List FormatPair
      → ℕ
      → Option (List Format2)
      → FormatMap
      → Queried Format2 × FormatMap
  get_surface_formats control supported ps count array m =
      let (r, m') = fill_formats (control && supported) ps m in
      (
        if is_success r
            then surface_formats2 control (map (λ e. e.1) m') count array
            else (r, count, array),
        m',
      )

-- `check_required_protocols` over the interfaces that the registry announces: whether an interface is
-- the dma-buf one with modifiers, and whether it is the one of explicit synchronization.
pub record Interface : Type 0 where
  pub is_dmabuf : Bool
  pub has_modifiers : Bool
  pub is_explicit_sync : Bool

pub record RequiredProperties : Type 0 where
  pub dmabuf : Bool
  pub explicit_sync : Bool

unfoldable pub check_required_protocols : List Interface → RequiredProperties → RequiredProperties
check_required_protocols [] p = p
check_required_protocols (i ∷ is) p = check_required_protocols is (
    if i.is_dmabuf && i.has_modifiers
    then record p { dmabuf = true }
    else (if i.is_explicit_sync then record p { explicit_sync = true } else p))

-- `check_wl_protocols`: the five answers are those of the steps that can fail.
unfoldable pub check_wl_protocols : Bool → Bool → Bool → Bool → Bool → List Interface → Bool
unfolding check_required_protocols
check_wl_protocols queue proxy registry listener roundtrip is =
    let p = check_required_protocols is (record { dmabuf = false; explicit_sync = false }) in
    queue && proxy && registry && listener && roundtrip && p.dmabuf && p.explicit_sync

unfoldable pub presentation_support : Bool → Bool → Bool
presentation_support supports_sync protocols = supports_sync && protocols
