-- ===== src/Wsi/Display/SurfaceProperties/Formats.antt =====
-- wsi/display/surface_properties.cpp: the formats of a surface on a display. The array of the code has
-- room for the formats of Vulkan 1.0; here the list is as long as what is written.
use rk_vulkan_wsi_layer.Prelude.{
  ℕ, ◌≡◌, ◌≢◌, refl, sym, ap, ◌∙◌, Bool, true, false, List, [], ◌∷◌, ◌++◌, Option, none, some, ◌==◌,
  if◌then◌else◌, arith, Bool-cases, inl, inr, All, ◌⊎◌, All-append, All-imp, subst, ==_iff,
}
use rk_vulkan_wsi_layer.Vulkan.{VkResult, error_surface_lost}
use rk_vulkan_wsi_layer.Util.DrmUtils.{
  Codes, IsDistinct, undefined, drm_to_vk_format, drm_to_vk_srgb_format, vk_to_drm_format,
}
use rk_vulkan_wsi_layer.Util.DrmUtils.RoundTrip.{drm_round_trip, srgb_round_trip}
use rk_vulkan_wsi_layer.Wsi.SurfaceProperties.{
  SurfaceFormat, Format2, Queried, surface_formats2, surface_format_properties,
  add_device_compression_support,
}
use rk_vulkan_wsi_layer.Wsi.Display.DrmDisplay.{DrmDisplay, FormatPair}

-- What the driver answers for the format of a query: whether the device supports it, whether it has
-- the support of compression, and the properties of compression with its result.
pub record Device : Type 0 where
  pub check_device_support : ℕ → Bool
  pub has_image_compression_support : Bool
  pub compression : ℕ → VkResult × Bool × ℕ

-- One format of the list; the result of `add_device_compression_support` is not used here.
unfoldable pub described : Device → ℕ → ℕ → SurfaceFormat
unfolding add_device_compression_support
described d format queried =
    let (r, explicit, rates) = d.compression queried in
    if d.has_image_compression_support
    then (add_device_compression_support r explicit rates (surface_format_properties format)).1
    else surface_format_properties format

module _ (c : Codes) (d : Device) where
  -- One format of the display, described by the query of a format that may be another one.
  unfoldable pub offered : ℕ → ℕ → List SurfaceFormat
  offered format queried =
      if format == c.vk undefined
      then []
      else (if d.check_device_support queried then described d format queried ∷ [] else [])

  -- The sRGB format is queried by the plain one.
  unfoldable pub formats_of_pair : FormatPair → List SurfaceFormat
  unfolding offered
  formats_of_pair p =
      offered (drm_to_vk_format c p.0) (drm_to_vk_format c p.0)
      ++ offered (drm_to_vk_srgb_format c p.0) (drm_to_vk_format c p.0)

  unfoldable pub display_formats : List FormatPair → List SurfaceFormat
  unfolding formats_of_pair
  display_formats [] = []
  display_formats (p ∷ ps) = formats_of_pair p ++ display_formats ps

  -- `get_surface_formats` with extended structures.
  unfoldable pub get_surface_formats :
      Bool → Option DrmDisplay → ℕ → Option (List Format2) → Queried Format2
  unfolding display_formats surface_formats2
  get_surface_formats compression_control none count array = (error_surface_lost, count, array)
  get_surface_formats compression_control (some display) count array =
      surface_formats2 compression_control (display_formats display.display_formats) count array

described-format :
    (d : Device) (format queried : ℕ) → (described d format queried).surface_format ≡ format
unfolding described
described-format d format queried = ground arith

-- Whether a format of the kernel is among those of the pairs.
abbrev pub Listed : ℕ → List FormatPair → Type 0
Listed fourcc [] = ⊥
Listed fourcc (p ∷ ps) = (fourcc ≡ p.0) ⊎ Listed fourcc ps

-- What makes a format one that a surface on the display may offer: the display has its format of the
-- kernel, and the device supports the plain format of that.
abbrev pub IsOffered : Codes → Device → List FormatPair → SurfaceFormat → Type 0
IsOffered c d ps f =
    Listed (vk_to_drm_format c f.surface_format) ps
    × (d.check_device_support (drm_to_vk_format c (vk_to_drm_format c f.surface_format)) ≡ true)

module _ (c : Codes) (d : Device) (h : IsDistinct c) where
  offered_lem :
      (fourcc format : ℕ)
      → (format ≢ c.vk undefined → vk_to_drm_format c format ≡ fourcc)
      → All
          (λ f.
            (vk_to_drm_format c f.surface_format ≡ fourcc)
            × (d.check_device_support (drm_to_vk_format c fourcc) ≡ true))
          (offered c d format (drm_to_vk_format c fourcc))
  unfolding offered
  offered_lem fourcc format e = elim (Bool-cases (format == c.vk undefined)) [
    | inl y ↦ rw y tt
    | inr n ↦ elim (Bool-cases (d.check_device_support (drm_to_vk_format c fourcc))) [
      | inl y ↦ rw (n, y) ((k n, refl), tt)
      | inr z ↦ rw (n, z) tt
    ]
  ]
    where
      k :
          (format == c.vk undefined) ≡ false
          → vk_to_drm_format c (described d format (drm_to_vk_format c fourcc)).surface_format
            ≡ fourcc
      k n =
          ap (vk_to_drm_format c) (described-format d format (drm_to_vk_format c fourcc))
          ∙ e (λ z. cc ((==_iff _ _).1 z))

  -- Every format that a surface on the display offers is one that the display has, by its name of the
  -- kernel, and whose plain format the device supports.
  pub display_formats-IsOffered :
      (ps : List FormatPair) → All (IsOffered c d ps) (display_formats c d ps)
  unfolding display_formats formats_of_pair
  display_formats-IsOffered [] = tt
  display_formats-IsOffered (p ∷ ps) =
      let P : SurfaceFormat → Type 0 = λ f.
        (vk_to_drm_format c f.surface_format ≡ p.0)
        × (d.check_device_support (drm_to_vk_format c p.0) ≡ true) in
      let Q : SurfaceFormat → Type 0 = IsOffered c d (p ∷ ps) in
      let imp : (f : SurfaceFormat) → P f → Q f = λ f (e, y).
        (inl e, subst (λ x. d.check_device_support (drm_to_vk_format c x) ≡ true) (sym e) y) in
      let later : (f : SurfaceFormat) → IsOffered c d ps f → Q f = λ f (l, y). (inr l, y) in
      All-append Q (formats_of_pair c d p) (display_formats c d ps)
        (All-imp P Q imp (formats_of_pair c d p) (
          All-append P _ _ (offered_lem p.0 (drm_to_vk_format c p.0) (drm_round_trip c h p.0))
            (offered_lem p.0 (drm_to_vk_srgb_format c p.0) (srgb_round_trip c h p.0))))
        (All-imp (IsOffered c d ps) Q later (display_formats c d ps) (display_formats-IsOffered ps))
