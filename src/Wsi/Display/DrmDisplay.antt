-- ===== src/Wsi/Display/DrmDisplay.antt =====
-- wsi/display/drm_display.cpp: the choice of a connector, of a CRTC, of the primary plane and of the
-- largest mode. What the kernel answers is an argument: an object that it does not return is `none`,
-- and each list is in the order in which the code asks for its elements.
pub mod Choice
use rk_vulkan_wsi_layer.Prelude.{
  ℕ, suc, ◌+◌, ◌*◌, ◌/◌, ◌%◌, ◌^◌, ◌≡◌, Bool, true, false, ◌&&◌, List, [], ◌∷◌, ◌++◌, Option, none,
  some, ◌==◌, leb, if◌then◌else◌, u32,
}

-- A mode: its size in pixels, its refresh rate in Hz and its type.
pub record Mode : Type 0 where
  pub hdisplay : ℕ
  pub vdisplay : ℕ
  pub vrefresh : ℕ
  pub mode_type : ℕ

-- A connector, with the word `possible_crtcs` of each of its encoders.
pub record Connector : Type 0 where
  pub connected : Bool
  pub encoders : List (Option ℕ)
  pub modes : List Mode

-- A property of a plane: whether its name is `type` or `IN_FORMATS`, its value, and the formats of the
-- blob that the value names.
pub record Property : Type 0 where
  pub is_type : Bool
  pub is_in_formats : Bool
  pub value : ℕ
  pub blob : Option (List (ℕ × ℕ))

pub record Plane : Type 0 where
  pub properties : Option (List (Option Property))
  pub formats : List ℕ

-- A display mode of the layer.
pub record DisplayMode : Type 0 where
  pub drm_mode : Mode
  pub preferred : Bool

-- A format with its modifier.
abbrev pub FormatPair : Type 0
FormatPair = ℕ × ℕ

-- `possible_crtcs & (1 << j)`.
abbrev pub can_drive : ℕ → ℕ → Bool
can_drive possible j = (possible / 2 ^ j) % 2 == 1

-- The inner loop of `find_compatible_crtc`, at a place of the list.
unfoldable pub first_crtc : ℕ → ℕ → List ℕ → Option ℕ
first_crtc possible j [] = none
first_crtc possible j (crtc ∷ crtcs) =
    let rest = first_crtc possible (suc j) crtcs in if can_drive possible j then some crtc else rest

-- `find_compatible_crtc`: `none` is a negative result.
unfoldable pub find_compatible_crtc : List ℕ → List (Option ℕ) → Option ℕ
unfolding first_crtc
find_compatible_crtc crtcs [] = none
find_compatible_crtc crtcs (none ∷ encoders) = find_compatible_crtc crtcs encoders
find_compatible_crtc crtcs (some possible ∷ encoders) =
    let rest = find_compatible_crtc crtcs encoders in
    elim (first_crtc possible 0 crtcs) [ none ↦ rest | some crtc ↦ some crtc ]

-- The CRTC of a connector that is connected.
unfoldable pub crtc_of : List ℕ → Connector → Option ℕ
unfolding find_compatible_crtc
crtc_of crtcs c = if c.connected then find_compatible_crtc crtcs c.encoders else none

-- The loop over the connectors.
unfoldable pub find_connector : List ℕ → List (Option Connector) → Option (Connector × ℕ)
unfolding crtc_of
find_connector crtcs [] = none
find_connector crtcs (none ∷ connectors) = find_connector crtcs connectors
find_connector crtcs (some c ∷ connectors) =
    let rest = find_connector crtcs connectors in
    elim (crtc_of crtcs c) [ none ↦ rest | some crtc ↦ some (c, crtc) ]

-- The greater of a resolution and that of a mode: the products are 32-bit words.
unfoldable pub larger : ℕ × ℕ → Mode → ℕ × ℕ
larger best m =
    if leb (u32 (best.0 * best.1)) (u32 (m.hdisplay * m.vdisplay))
    then (m.hdisplay, m.vdisplay)
    else best

unfoldable pub max_resolution : ℕ × ℕ → List Mode → ℕ × ℕ
unfolding larger
max_resolution best [] = best
max_resolution best (m ∷ modes) = max_resolution (larger best m) modes

-- `DRM_MODE_TYPE_PREFERRED` of the kernel's headers, a bit.
abbrev mode_type_preferred : ℕ
mode_type_preferred = 8

unfoldable pub display_mode : Mode → DisplayMode
display_mode m = record { drm_mode = m; preferred = m.mode_type == mode_type_preferred }

-- The loop over the modes: `pushed` says whether each can be kept.
unfoldable pub display_modes : (Mode → Bool) → List Mode → Option (List DisplayMode)
unfolding display_mode
display_modes pushed [] = some []
display_modes pushed (m ∷ modes) = elim (display_modes pushed modes) [
  | none ↦ none
  | some ds ↦ if pushed m then some (display_mode m ∷ ds) else none
]

-- `DRM_PLANE_TYPE_PRIMARY`.
abbrev plane_type_primary : ℕ
plane_type_primary = 1

unfoldable pub is_primary : List (Option Property) → Bool
is_primary [] = false
is_primary (none ∷ ps) = is_primary ps
is_primary (some p ∷ ps) =
    let rest = is_primary ps in if p.is_type && p.value == plane_type_primary then true else rest

unfoldable pub find_primary_plane : List (Option Plane) → Option Plane
unfolding is_primary
find_primary_plane [] = none
find_primary_plane (none ∷ planes) = find_primary_plane planes
find_primary_plane (some p ∷ planes) =
    let rest = find_primary_plane planes in
    elim p.properties [ none ↦ rest | some ps ↦ if is_primary ps then some p else rest ]

-- `fill_supported_formats`, after what the list holds: whether it has succeeded, and the list.
unfoldable pub fill_supported_formats :
    (FormatPair → Bool) → List ℕ → List FormatPair → Bool × List FormatPair
fill_supported_formats pushed [] fs = (true, fs)
fill_supported_formats pushed (f ∷ formats) fs =
    let rest = fill_supported_formats pushed formats (fs ++ (f, 0) ∷ []) in
    if pushed (f, 0) then rest else (false, fs)

unfoldable pub push_formats :
    (FormatPair → Bool) → List FormatPair → List FormatPair → Bool × List FormatPair
push_formats pushed [] fs = (true, fs)
push_formats pushed (f ∷ formats) fs =
    let rest = push_formats pushed formats (fs ++ f ∷ []) in if pushed f then rest else (false, fs)

-- The formats of a blob, which may be missing.
unfoldable pub fill_blob :
    (FormatPair → Bool) → Option (List FormatPair) → List FormatPair → Bool × List FormatPair
unfolding push_formats
fill_blob pushed none fs = (false, fs)
fill_blob pushed (some b) fs = push_formats pushed b fs

-- The loop of `fill_supported_formats_with_modifiers`.
unfoldable pub fill_from_properties :
    (FormatPair → Bool) → List (Option Property) → List FormatPair → Bool × List FormatPair
unfolding fill_blob
fill_from_properties pushed [] fs = (true, fs)
fill_from_properties pushed (none ∷ ps) fs = fill_from_properties pushed ps fs
fill_from_properties pushed (some p ∷ ps) fs =
    let rest = fill_from_properties pushed ps fs in
    let filled = fill_blob pushed p.blob fs in
    let next = fill_from_properties pushed ps filled.1 in
    if p.is_in_formats then (if filled.0 then next else filled) else rest

unfoldable pub fill_supported_formats_with_modifiers :
    (FormatPair → Bool) → Option (List (Option Property)) → Bool × List FormatPair
unfolding fill_from_properties
fill_supported_formats_with_modifiers pushed none = (false, [])
fill_supported_formats_with_modifiers pushed (some ps) = fill_from_properties pushed ps []

-- The formats of a display: after a failure with modifiers the linear formats are added to what the
-- list holds.
unfoldable pub supported_formats : (FormatPair → Bool) → Bool → Plane → Bool × List FormatPair
unfolding fill_supported_formats fill_supported_formats_with_modifiers
supported_formats pushed modifiers p =
    if modifiers
    then (let (ok, fs) = fill_supported_formats_with_modifiers pushed p.properties in
        if ok then (true, fs) else fill_supported_formats pushed p.formats fs)
    else fill_supported_formats pushed p.formats []

-- The answers of the kernel and of the host's allocator.
pub record Answers : Type 0 where
  pub opened : Bool
  pub is_master : Bool
  pub set_master : Bool
  pub resources : Option (List ℕ × List (Option Connector))
  pub mode_pushed : Mode → Bool
  pub modes_created : Bool
  pub universal_planes : Bool
  pub plane_resources : Option (List (Option Plane))
  pub supports_fb_modifiers : Bool
  pub format_pushed : FormatPair → Bool

pub record DrmDisplay : Type 0 where
  pub crtc_id : ℕ
  pub connector : Connector
  pub display_formats : List FormatPair
  pub all_modes : List DisplayMode
  pub max_width : ℕ
  pub max_height : ℕ
  pub fb_modifiers : Bool

abbrev display_of : Answers → Connector → ℕ → List DisplayMode → List FormatPair → DrmDisplay
unfolding max_resolution
display_of a c crtc modes formats = record {
  crtc_id = crtc;
  connector = c;
  display_formats = formats;
  all_modes = modes;
  max_width = (max_resolution (0, 0) c.modes).0;
  max_height = (max_resolution (0, 0) c.modes).1;
  fb_modifiers = a.supports_fb_modifiers;
}

-- `make_display` from the planes.
unfoldable pub from_planes : Answers → Connector → ℕ → List DisplayMode → Option DrmDisplay
unfolding find_primary_plane supported_formats max_resolution
from_planes a c crtc modes =
    if a.universal_planes
    then (elim a.plane_resources [
      | none ↦ none
      | some planes ↦ elim (find_primary_plane planes) [
        | none ↦ none
        | some p ↦
            let (ok, formats) = supported_formats a.format_pushed a.supports_fb_modifiers p in
            if ok then some (display_of a c crtc modes formats) else none
      ]
    ])
    else none

-- `make_display` from the connector.
unfoldable pub from_connector : Answers → Connector → ℕ → Option DrmDisplay
unfolding from_planes display_modes
from_connector a c crtc = elim (display_modes a.mode_pushed c.modes) [
  | none ↦ none
  | some modes ↦ if a.modes_created then from_planes a c crtc modes else none
]

unfoldable pub make_display : Answers → Option DrmDisplay
unfolding find_connector from_connector
make_display a =
    if a.opened
    then (if (if a.is_master then true else a.set_master)
        then (elim a.resources [
          | none ↦ none
          | some (crtcs, connectors) ↦ elim (find_connector crtcs connectors) [
            | none ↦ none
            | some (c, crtc) ↦ from_connector a c crtc
          ]
        ])
        else none)
    else none

abbrev pub any_format : FormatPair → List FormatPair → Bool
any_format f [] = false
any_format f (g ∷ gs) =
    let rest = any_format f gs in if f.0 == g.0 && f.1 == g.1 then true else rest

unfoldable pub is_format_supported : FormatPair → DrmDisplay → Bool
is_format_supported f d = any_format f d.display_formats

-- `get_refresh_rate`, in mHz: a 32-bit product.
unfoldable pub get_refresh_rate : DisplayMode → ℕ
get_refresh_rate d = u32 (d.drm_mode.vrefresh * 1000)
