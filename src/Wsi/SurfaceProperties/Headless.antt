-- ===== src/Wsi/SurfaceProperties/Headless.antt =====
-- wsi/headless/surface_properties.cpp: the presentation modes of a headless surface.
use rk_vulkan_wsi_layer.Prelude.{◌≡◌, refl, true, List, [], ◌∷◌, arith}
use rk_vulkan_wsi_layer.Vulkan.{
  PresentMode, immediate, mailbox, fifo, fifo_relaxed, shared_demand_refresh,
  shared_continuous_refresh,
}
use rk_vulkan_wsi_layer.Wsi.CompatiblePresentModes.{
  PresentModeCompatibility, find_compatibility, is_compatible_present_modes,
  partial_entry_accepts_all,
}
use rk_vulkan_wsi_layer.Wsi.SurfaceProperties.{mode_in}

unfoldable pub supported_modes : List PresentMode
supported_modes = fifo ∷ fifo_relaxed ∷ shared_demand_refresh ∷ shared_continuous_refresh ∷ []

-- An entry of the table: its array has six places, of which those that are not given are 0, the value
-- of VK_PRESENT_MODE_IMMEDIATE_KHR.
abbrev pub one : PresentMode → PresentModeCompatibility
one m = record {
  present_mode = m;
  present_mode_count = 1;
  compatible_present_modes = m ∷ immediate ∷ immediate ∷ immediate ∷ immediate ∷ immediate ∷ [];
}

abbrev two : PresentMode → PresentMode → PresentModeCompatibility
two m n = record {
  present_mode = m;
  present_mode_count = 2;
  compatible_present_modes = m ∷ n ∷ immediate ∷ immediate ∷ immediate ∷ immediate ∷ [];
}

-- `populate_present_mode_compatibilities`.
unfoldable pub compatible_present_modes_list : List PresentModeCompatibility
compatible_present_modes_list =
    two fifo fifo_relaxed
    ∷ two fifo_relaxed fifo
    ∷ one shared_demand_refresh
    ∷ one shared_continuous_refresh
    ∷ []

-- On a headless surface, every mode counts as compatible with every mode that the surface supports,
-- whether the table lists it or the surface supports it or not.
pub headless_accepts_all :
    (a b : PresentMode)
    → mode_in a supported_modes ≡ true
    → is_compatible_present_modes compatible_present_modes_list a b ≡ true
unfolding supported_modes compatible_present_modes_list mode_in find_compatibility
headless_accepts_all immediate b e = ground arith
headless_accepts_all mailbox b e = ground arith
headless_accepts_all fifo b e =
    partial_entry_accepts_all compatible_present_modes_list fifo b (two fifo fifo_relaxed) refl
      (omega arith)
headless_accepts_all fifo_relaxed b e =
    partial_entry_accepts_all compatible_present_modes_list fifo_relaxed b (two fifo_relaxed fifo)
      refl (omega arith)
headless_accepts_all shared_demand_refresh b e =
    partial_entry_accepts_all compatible_present_modes_list shared_demand_refresh b
      (one shared_demand_refresh) refl (omega arith)
headless_accepts_all shared_continuous_refresh b e =
    partial_entry_accepts_all compatible_present_modes_list shared_continuous_refresh b
      (one shared_continuous_refresh) refl (omega arith)
