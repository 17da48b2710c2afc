-- ===== src/Wsi/Wayland/FormatsKept.antt =====
-- wsi/wayland/surface_properties.cpp: which formats a surface offers, and what is kept after an error.
use rk_vulkan_wsi_layer.Prelude.{
  ℕ, ◌≡◌, ◌≢◌, Bool, true, false, not, ◌&&◌, ◌||◌, List, [], ◌∷◌, Option, ◌==◌, arith, Bool-cases,
  inl, inr, length, map, ap, ◌∙◌, ==_iff,
}
use rk_vulkan_wsi_layer.Vulkan.{VkResult, is_success}
use rk_vulkan_wsi_layer.Util.UnorderedMap.{holds}
use rk_vulkan_wsi_layer.Util.DrmUtils.{Codes, undefined, drm_to_vk_format, drm_to_vk_srgb_format}
use rk_vulkan_wsi_layer.Wsi.SurfaceProperties.{Format2, surface_formats2}
use rk_vulkan_wsi_layer.Wsi.Display.DrmDisplay.{FormatPair}
use rk_vulkan_wsi_layer.Wsi.Wayland.Formats.{
  Device, FormatMap, add_supported, map_add, add_name, map_init, fill_formats, get_surface_formats,
}

module _ (c : Codes) (d : Device) where
  -- Whether a name of a format is one that the driver supports with the modifier.
  abbrev pub named_offer : ℕ → ℕ → ℕ → Bool
  named_offer f g modifier =
      f == g && not (g == c.vk undefined) && is_success (d.check_device_support g modifier)

  -- Whether one of the pairs of the compositor has the format, plain or sRGB, and a modifier with which
  -- the driver supports it.
  abbrev pub any_offer : ℕ → List FormatPair → Bool
  any_offer f [] = false
  any_offer f (p ∷ ps) =
      named_offer f (drm_to_vk_format c p.0) p.1
      || named_offer f (drm_to_vk_srgb_format c p.0) p.1
      || any_offer f ps

  add_supported_lem :
      (r : VkResult) (allocated : Bool) (f g : ℕ) (m : FormatMap)
      → is_success (add_supported r allocated g m).0 ≡ true
      → holds f (add_supported r allocated g m).1 ≡ (holds f m || (f == g && is_success r))
  unfolding add_supported
  add_supported_lem r allocated f g m e = ground arith

  add_name_lem :
      (f g modifier : ℕ) (m : FormatMap)
      → is_success (add_name c d g modifier m).0 ≡ true
      → holds f (add_name c d g modifier m).1 ≡ (holds f m || named_offer f g modifier)
  unfolding add_name map_add
  add_name_lem f g modifier m e = elim (Bool-cases (f == g)) [
    | inl y ↦
        let z : f ≡ g = (==_iff f g).0 y in
        rw (y, z)
          (ground
            (arith, e, add_supported_lem (d.check_device_support g modifier) (d.allocated g) g g m))
    | inr n ↦
        ground
          (arith, n, e, add_supported_lem (d.check_device_support g modifier) (d.allocated g) f g m)
  ]

  joined : (h a b r : Bool) {x : Bool} → x ≡ (h || a) → ((x || b) || r) ≡ (h || (a || b || r))
  joined h a b r e = ground arith

  -- A successful search offers a format exactly if the map had it or a pair offers it.
  map_init_lem :
      (f : ℕ) (ps : List FormatPair) (m : FormatMap)
      → is_success (map_init c d ps m).0 ≡ true
      → holds f (map_init c d ps m).1 ≡ (holds f m || any_offer f ps)
  unfolding map_init
  map_init_lem f [] m e = ground arith
  map_init_lem f (p ∷ ps) m e =
      let a : VkResult × FormatMap = add_name c d (drm_to_vk_format c p.0) p.1 m in
      let b : VkResult × FormatMap = add_name c d (drm_to_vk_srgb_format c p.0) p.1 a.1 in
      elim (Bool-cases (is_success a.0)) [
        | inl y ↦ elim (Bool-cases (is_success b.0)) [
          | inl z ↦
              let i : holds f a.1 ≡ (holds f m || named_offer f (drm_to_vk_format c p.0) p.1) =
                add_name_lem f (drm_to_vk_format c p.0) p.1 m y in
              let j : holds f b.1
                  ≡ (holds f a.1 || named_offer f (drm_to_vk_srgb_format c p.0) p.1) =
                add_name_lem f (drm_to_vk_srgb_format c p.0) p.1 a.1 z in
              let e' : is_success (map_init c d ps b.1).0 ≡ true = rw (y, z, map_init) at e in
              let k : holds f (map_init c d ps b.1).1 ≡ (holds f b.1 || any_offer f ps) =
                map_init_lem f ps b.1 e' in
              rw (y, z, map_init) (k ∙ ap (λ x. x || any_offer f ps) j ∙ joined _ _ _ _ i)
          | inr z ↦ ground (arith, e, y, z)
        ]
        | inr y ↦ ground (arith, e, y)
      ]

  -- A surface that has no formats yet offers, after a successful query without the control of
  -- compression, exactly the formats that one of the compositor's pairs has, by its plain or its sRGB
  -- name, and that the driver supports with the modifier of that pair.
  pub formats_offered :
      (f : ℕ) (control : Bool) (ps : List FormatPair) (count : ℕ) (array : Option (List Format2))
      → is_success (map_init c d ps []).0 ≡ true
      → holds f (get_surface_formats c d control false ps count array []).1 ≡ any_offer f ps
  unfolding get_surface_formats fill_formats
  formats_offered f control ps count array e = ground (arith, e, map_init_lem f ps [])

  -- Where the search for the formats of a surface fails after it has found one, the query fails, and
  -- what was found is kept: the next query succeeds with these formats alone.
  pub partial_formats_kept :
      (control supported : Bool) (ps : List FormatPair) (count : ℕ) (array : Option (List Format2))
      → is_success (map_init c d ps []).0 ≡ false
      → length (map_init c d ps []).1 ≢ 0
      → ((get_surface_formats c d control supported ps count array []).0.0 ≡ (map_init c d ps []).0)
        × (get_surface_formats c d control supported ps count array
              (get_surface_formats c d control supported ps count array []).1
            ≡ (
              surface_formats2 control (map (λ e. e.1) (map_init c d ps []).1) count array,
              (map_init c d ps []).1,
            ))
  unfolding get_surface_formats fill_formats
  partial_formats_kept control supported ps count array e n = ground (arith, e, n)
