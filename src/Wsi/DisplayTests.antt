-- ===== src/Wsi/DisplayTests.antt =====
-- The display and the formats of the platforms on concrete inputs.
use rk_vulkan_wsi_layer.Prelude.{
  ℕ, ◌≤◌, ◌≡◌, refl, true, false, List, [], ◌∷◌, none, some, ◌==◌, arith, map, All, get_elem?,
  if◌then◌else◌,
}
use rk_vulkan_wsi_layer.Vulkan.{
  success, error_out_of_host_memory, error_format_not_supported, fifo, mailbox,
}
use rk_vulkan_wsi_layer.Util.DrmUtils.{
  drm_to_vk_format, drm_to_vk_srgb_format, row_of_drm, fourcc_format_table,
  srgb_fourcc_format_table,
}
use rk_vulkan_wsi_layer.Util.DrmUtils.Numbering.{codes, codes-IsDistinct}
use rk_vulkan_wsi_layer.Util.UnorderedMap.{holds}
use rk_vulkan_wsi_layer.Wsi.Factory.{wayland}
use rk_vulkan_wsi_layer.Wsi.SurfaceProperties.{mode_in, surface_formats2}
use rk_vulkan_wsi_layer.Wsi.SurfaceProperties.Capabilities.{
  platform_modes, modes_compatible, every_mode_compatible,
}
use rk_vulkan_wsi_layer.Wsi.Display.DrmDisplay.{DisplayMode}
use rk_vulkan_wsi_layer.Wsi.Display.SurfaceProperties.{
  ModeProperties, mode_properties, parameters_of, create_display_mode, SurfaceAnswers,
  create_surface,
}
use rk_vulkan_wsi_layer.Wsi.Display.SurfaceProperties.Modes.{offered_mode_created}
use rk_vulkan_wsi_layer.Wsi.Display.SurfaceProperties.Formats.{
  Device, display_formats, IsOffered, display_formats-IsOffered,
}
use rk_vulkan_wsi_layer.Wsi.Wayland.Formats
use rk_vulkan_wsi_layer.Wsi.Wayland.Formats.{map_init, add_name, map_add, get_surface_formats}
use rk_vulkan_wsi_layer.Wsi.Wayland.FormatsKept.{any_offer, formats_offered, partial_formats_kept}

every_mode_compatible_example : modes_compatible wayland fifo mailbox ≡ true
unfolding platform_modes mode_in
every_mode_compatible_example = every_mode_compatible wayland fifo mailbox refl

abbrev mode : ℕ → ℕ → DisplayMode
mode w h = record {
  drm_mode = record { hdisplay = w; vdisplay = h; vrefresh = 60; mode_type = 64 };
  preferred = false;
}

abbrev modes : List DisplayMode
modes = mode 1920 1080 ∷ mode 1280 720 ∷ mode 1280 720 ∷ []

abbrev offered_mode : ModeProperties
offered_mode = record {
  display_mode = 2;
  parameters = record { width = 1280; height = 720; refresh_rate = 60000 };
}

offered_mode_created_example :
    (j : ℕ) × (create_display_mode modes offered_mode.parameters ≡ (success, some j))
    × (j ≤ offered_mode.display_mode)
    × (d : DisplayMode) × (get_elem? modes j ≡ some d)
    × (parameters_of d ≡ offered_mode.parameters)
unfolding mode_properties parameters_of
offered_mode_created_example =
    offered_mode_created modes 2 offered_mode refl (omega arith) (omega arith) (omega arith)

-- The driver makes a surface and the layer has no memory for its own.
abbrev no_memory : SurfaceAnswers
no_memory = record { create_surface = success; handle = 9; wsi_surface = 0; inserted = true }

-- A device that supports all formats.
abbrev device : Device
device = record {
  check_device_support = λ f. true;
  has_image_compression_support = false;
  compression = λ f. (success, false, 0);
}

display_formats-IsOffered_example :
    All
      (IsOffered codes device ((27, 0) ∷ (19, 5) ∷ []))
      (display_formats codes device ((27, 0) ∷ (19, 5) ∷ []))
display_formats-IsOffered_example =
    display_formats-IsOffered codes device codes-IsDistinct ((27, 0) ∷ (19, 5) ∷ [])

-- A driver that supports all but the modifier 7, with an error for the modifier 8.
abbrev modifiers : Formats.Device
modifiers = record {
  check_device_support = λ f m.
      if m == 7
      then error_format_not_supported
      else (if m == 8 then error_out_of_host_memory else success);
  compression = λ f m. (success, false, 0);
  allocated = λ f. true;
}

formats_offered_example :
    holds 10 (get_surface_formats codes modifiers true false ((27, 7) ∷ (27, 0) ∷ []) 0 none []).1
    ≡ any_offer codes modifiers 10 ((27, 7) ∷ (27, 0) ∷ [])
unfolding map_init add_name map_add drm_to_vk_format drm_to_vk_srgb_format row_of_drm
    fourcc_format_table srgb_fourcc_format_table Formats.add_supported
formats_offered_example =
    formats_offered codes modifiers 10 true ((27, 7) ∷ (27, 0) ∷ []) 0 none refl

partial_formats_kept_example :
    ((get_surface_formats codes modifiers true true ((27, 0) ∷ (28, 8) ∷ []) 0 none []).0.0
      ≡ (map_init codes modifiers ((27, 0) ∷ (28, 8) ∷ []) []).0)
    × (get_surface_formats codes modifiers true true
          ((27, 0) ∷ (28, 8) ∷ [])
          0
          none
          (get_surface_formats codes modifiers true true ((27, 0) ∷ (28, 8) ∷ []) 0 none []).1
        ≡ (
          surface_formats2 true
              (map (λ e. e.1) (map_init codes modifiers ((27, 0) ∷ (28, 8) ∷ []) []).1)
              0
              none,
          (map_init codes modifiers ((27, 0) ∷ (28, 8) ∷ []) []).1,
        ))
unfolding map_init add_name map_add drm_to_vk_format drm_to_vk_srgb_format row_of_drm
    fourcc_format_table srgb_fourcc_format_table Formats.add_supported
partial_formats_kept_example =
    partial_formats_kept codes modifiers true true ((27, 0) ∷ (28, 8) ∷ []) 0 none refl
      (omega arith)
