-- ===== src/Layer/SurfaceTests.antt =====
-- The entry points on a surface on concrete inputs.
use rk_vulkan_wsi_layer.Prelude.{ℕ, ◌≡◌, true, false, List, [], ◌∷◌, none, some}
use rk_vulkan_wsi_layer.Vulkan.{success, incomplete, error_surface_lost, fifo}
use rk_vulkan_wsi_layer.Wsi.SurfaceProperties.Capabilities.{
  SurfaceCapabilities2, color_attachment, get_surface_capabilities_common,
}
use rk_vulkan_wsi_layer.Layer.PrivateData.Surfaces.{Call, add, run, no_surfaces}
use rk_vulkan_wsi_layer.Layer.SurfaceApi.{
  SurfaceQueries, get_surface_capabilities_khr, get_surface_capabilities2_khr,
  get_surface_formats_khr, get_surface_formats2_khr, get_surface_present_modes_khr,
  get_surface_support_khr, surface_queries_refine,
}

abbrev surface_calls : List Call
surface_calls = add true 11 70 ∷ add false 12 71 ∷ add true 11 72 ∷ []

-- What is known of each surface: its extent is its number.
abbrev queries : ℕ → SurfaceQueries
queries x = record {
  capabilities = (success, get_surface_capabilities_common x);
  capabilities2 = λ mode c. (success, c.0, c.1);
  formats = λ count array. (success, x, none);
  formats2 = λ count array. (success, x, none);
  present_modes = λ count array. (incomplete, x, none);
  supported = λ family. (success, false);
}

abbrev driver : ℕ → SurfaceQueries
driver x = record (queries x) {
  capabilities = (error_surface_lost, get_surface_capabilities_common 1);
}

abbrev asked_capabilities : SurfaceCapabilities2
asked_capabilities = record {
  surface_capabilities = get_surface_capabilities_common 1;
  compatibility = none;
  scaling = none;
}

surface_queries_refine_example :
    (get_surface_capabilities_khr queries driver 3 11 (run surface_calls no_surfaces)
      ≡ (success, get_surface_capabilities_common 72))
    × (get_surface_capabilities2_khr queries driver 3 11
          (run surface_calls no_surfaces)
          (some fifo)
          (asked_capabilities, some [])
        ≡ (success, asked_capabilities, some (color_attachment ∷ [])))
    × (get_surface_formats_khr queries driver 3 11 (run surface_calls no_surfaces) 2 none
        ≡ (success, 72, none))
    × (get_surface_formats2_khr queries driver 3 11 (run surface_calls no_surfaces) 2 none
        ≡ (success, 72, none))
    × (get_surface_present_modes_khr queries driver 3 11 (run surface_calls no_surfaces) 2 none
        ≡ (incomplete, 72, none))
    × (get_surface_support_khr queries driver 3 11 (run surface_calls no_surfaces) 0
        ≡ (success, true))
surface_queries_refine_example =
    surface_queries_refine queries driver 3 11 surface_calls (some fifo) asked_capabilities
      (some []) 2 0 none none none
