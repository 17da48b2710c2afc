-- ===== src/Wsi/SurfaceProperties/HeadlessFormats.antt =====
-- wsi/headless/surface_properties.cpp: the formats of a headless surface, which are the formats of Vulkan
-- 1.0 that the device supports.
use rk_vulkan_wsi_layer.Prelude.{
  ℕ, zero, suc, ◌≤◌, Bool, List, [], ◌∷◌, Option, if◌then◌else◌, arith, length,
}
use rk_vulkan_wsi_layer.Wsi.SurfaceProperties.{SurfaceFormat, Format2, Queried, surface_formats2}
use rk_vulkan_wsi_layer.Wsi.Display.SurfaceProperties.Formats.{Device, described}

-- `VK_FORMAT_ASTC_12x12_SRGB_BLOCK + 1`.
abbrev pub max_core_1_0_formats : ℕ
max_core_1_0_formats = 185

module _ (d : Device) where
  -- The loop over the formats: on those that are left, from a format.
  unfoldable pub supported_from : ℕ → ℕ → List SurfaceFormat
  unfolding described
  supported_from zero id = []
  supported_from (suc n) id =
      let rest = supported_from n (suc id) in
      if d.check_device_support id then described d id id ∷ rest else rest

  unfoldable pub fill_supported_formats : List SurfaceFormat
  unfolding supported_from
  fill_supported_formats = supported_from max_core_1_0_formats 0

  -- `get_surface_formats` with extended structures.
  unfoldable pub get_surface_formats : Bool → ℕ → Option (List Format2) → Queried Format2
  unfolding surface_formats2 fill_supported_formats
  get_surface_formats compression_control count array =
      surface_formats2 compression_control fill_supported_formats count array

  length-supported_from : (n id : ℕ) → length (supported_from n id) ≤ n
  unfolding supported_from
  length-supported_from zero id = omega arith
  length-supported_from (suc n) id = ground (arith, length-supported_from n (suc id))

  -- The formats that are written fit into the array of the code.
  pub supported_formats_fit : length fill_supported_formats ≤ max_core_1_0_formats
  unfolding fill_supported_formats
  supported_formats_fit = length-supported_from max_core_1_0_formats 0
