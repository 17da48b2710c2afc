-- ===== src/Wsi/Display/DrmDisplay/Choice.antt =====
-- wsi/display/drm_display.cpp: what a display that was made has.
use rk_vulkan_wsi_layer.Prelude.{
  ℕ, zero, suc, ◌⊎◌, ◌+◌, ◌*◌, ◌^◌, ◌<◌, ◌≤◌, ◌≡◌, refl, ap, subst, sym, ◌∙◌, inl, inr, true, List,
  [], ◌∷◌, Option, none, some, arith, All, get_elem?, Option-cases, Bool-cases,
}
use native.Mathlib.Nat.{mul-le-mul_left}
use rk_vulkan_wsi_layer.Wsi.Display.DrmDisplay.{
  Mode, Connector, Answers, DrmDisplay, DisplayMode, can_drive, first_crtc, find_compatible_crtc,
  crtc_of, find_connector, larger, max_resolution, find_primary_plane, display_modes, from_planes,
  from_connector, make_display,
}

first_lem :
    (possible j : ℕ) (crtcs : List ℕ) (crtc : ℕ)
    → first_crtc possible j crtcs ≡ some crtc
    → (i : ℕ) × (get_elem? crtcs i ≡ some crtc) × (can_drive possible (j + i) ≡ true)
unfolding first_crtc
first_lem possible j [] crtc e = ground arith
first_lem possible j (x ∷ crtcs) crtc e = elim (Bool-cases (can_drive possible j)) [
  | inl y ↦ (0, ground (arith, y), subst (λ k. can_drive possible k ≡ true) (omega arith) y)
  | inr n ↦
      let (i, g, d) = first_lem possible (suc j) crtcs crtc (ground (arith, n)) in
      (suc i, g, subst (λ k. can_drive possible k ≡ true) (omega arith) d)
]

-- A size of 16-bit words.
abbrev pub Sized : Mode → Type 0
Sized m = (m.hdisplay < 2 ^ 16) × (m.vdisplay < 2 ^ 16)

product_fits : (w h : ℕ) → w < 2 ^ 16 → h < 2 ^ 16 → w * h < 2 ^ 32
product_fits w h a b = omega (arith, mul-le-mul_left {m = h} {n = 65535} w (omega arith))

larger_lem :
    (best : ℕ × ℕ) (m : Mode)
    → best.0 < 2 ^ 16
    → best.1 < 2 ^ 16
    → Sized m
    → ((larger best m).0 < 2 ^ 16)
      × ((larger best m).1 < 2 ^ 16)
      × (best.0 * best.1 ≤ (larger best m).0 * (larger best m).1)
      × (m.hdisplay * m.vdisplay ≤ (larger best m).0 * (larger best m).1)
unfolding larger
larger_lem best m a b (x, y) =
    ground (arith, product_fits best.0 best.1 a b, product_fits m.hdisplay m.vdisplay x y)

max_lem :
    (best : ℕ × ℕ) (modes : List Mode)
    → best.0 < 2 ^ 16
    → best.1 < 2 ^ 16
    → All Sized modes
    → (best.0 * best.1 ≤ (max_resolution best modes).0 * (max_resolution best modes).1)
      × All
          (λ m.
            m.hdisplay * m.vdisplay ≤ (max_resolution best modes).0 * (max_resolution best modes).1)
          modes
unfolding max_resolution
max_lem best [] a b s = (omega arith, tt)
max_lem best (m ∷ modes) a b (x, s) =
    let (i, j, p, q) = larger_lem best m a b x in
    let (k, l) = max_lem (larger best m) modes i j s in
    (omega (arith, p, k), (omega (arith, q, k), l))

-- A size that is that of a mode of the list, or the one that the search began with.
abbrev OfMode : ℕ × ℕ → List Mode → ℕ × ℕ → Type 0
OfMode best [] x = x ≡ best
OfMode best (m ∷ modes) x = (x ≡ (m.hdisplay, m.vdisplay)) ⊎ OfMode best modes x

larger_cases :
    (best : ℕ × ℕ) (m : Mode) → (larger best m ≡ (m.hdisplay, m.vdisplay)) ⊎ (larger best m ≡ best)
unfolding larger
larger_cases best m = ground arith

of_best : (modes : List Mode) (a b x : ℕ × ℕ) → a ≡ b → OfMode a modes x → OfMode b modes x
of_best modes a b x e h = subst (λ y. OfMode y modes x) e h

of_mode :
    (modes : List Mode) (a : ℕ × ℕ) (m : Mode) (x : ℕ × ℕ)
    → a ≡ (m.hdisplay, m.vdisplay)
    → (best : ℕ × ℕ) → OfMode a modes x
    → (x ≡ (m.hdisplay, m.vdisplay)) ⊎ OfMode best modes x
of_mode [] a m x e best h = inl (h ∙ e)
of_mode (n ∷ modes) a m x e best (inl h) = inr (inl h)
of_mode (n ∷ modes) a m x e best (inr h) = elim (of_mode modes a m x e best h) [
  | inl y ↦ inl y
  | inr y ↦ inr (inr y)
]

max_resolution-OfMode :
    (best : ℕ × ℕ) (modes : List Mode) → OfMode best modes (max_resolution best modes)
unfolding max_resolution
max_resolution-OfMode best [] = refl
max_resolution-OfMode best (m ∷ modes) =
    let h = max_resolution-OfMode (larger best m) modes in
    elim (larger_cases best m) [
      | inl e ↦ of_mode modes (larger best m) m _ e best h
      | inr e ↦ inr (of_best modes (larger best m) best _ e h)
    ]

-- An encoder of the list that can drive a CRTC of the list.
abbrev pub Drives : List ℕ → List (Option ℕ) → ℕ → Type 0
Drives crtcs encoders crtc =
    (k : ℕ) × (i : ℕ) × (possible : ℕ) × (get_elem? encoders k ≡ some (some possible))
    × (get_elem? crtcs i ≡ some crtc)
    × (can_drive possible i ≡ true)

compatible_lem :
    (crtcs : List ℕ) (encoders : List (Option ℕ)) (crtc : ℕ)
    → find_compatible_crtc crtcs encoders ≡ some crtc
    → Drives crtcs encoders crtc
unfolding find_compatible_crtc
compatible_lem crtcs [] crtc e = ground arith
compatible_lem crtcs (none ∷ encoders) crtc e =
    let (k, i, possible, g, h, l) = compatible_lem crtcs encoders crtc e in
    (suc k, i, possible, g, h, l)
compatible_lem crtcs (some possible ∷ encoders) crtc e =
    elim (Option-cases (first_crtc possible 0 crtcs)) [
      | inl y ↦
          let (k, i, p, g, h, l) = compatible_lem crtcs encoders crtc (ground (arith, y)) in
          (suc k, i, p, g, h, l)
      | inr (x, y) ↦
          let (i, g, d) = first_lem possible 0 crtcs crtc (ground (arith, y)) in
          (0, i, possible, refl, g, subst (λ k. can_drive possible k ≡ true) (omega arith) d)
    ]

connector_lem :
    (crtcs : List ℕ) (connectors : List (Option Connector)) (c : Connector) (crtc : ℕ)
    → find_connector crtcs connectors ≡ some (c, crtc)
    → (c.connected ≡ true) × (find_compatible_crtc crtcs c.encoders ≡ some crtc)
unfolding find_connector crtc_of
connector_lem crtcs [] c crtc e = ground arith
connector_lem crtcs (none ∷ connectors) c crtc e = connector_lem crtcs connectors c crtc e
connector_lem crtcs (some x ∷ connectors) c crtc e = elim (Option-cases (crtc_of crtcs x)) [
  | inl y ↦ connector_lem crtcs connectors c crtc (ground (arith, y))
  | inr (z, y) ↦ ground (arith, y)
]

-- What a display has of the connector and of the CRTC that were found.
Made : Connector → ℕ → DrmDisplay → Type 0
Made c crtc d =
    (d.connector ≡ c)
    × (d.crtc_id ≡ crtc)
    × ((d.max_width, d.max_height) ≡ max_resolution (0, 0) c.modes)

planes_lem :
    (a : Answers) (c : Connector) (crtc : ℕ) (modes : List DisplayMode) (d : DrmDisplay)
    → from_planes a c crtc modes ≡ some d
    → Made c crtc d
unfolding from_planes Made
planes_lem a c crtc modes d e = elim (Option-cases a.plane_resources) [
  | inl y ↦ ground (arith, y)
  | inr (planes, y) ↦ elim (Option-cases (find_primary_plane planes)) [
    | inl z ↦ ground (arith, y, z)
    | inr (p, z) ↦ ground (arith, y, z)
  ]
]

made :
    (a : Answers) (c : Connector) (crtc : ℕ) (d : DrmDisplay)
    → from_connector a c crtc ≡ some d
    → Made c crtc d
unfolding from_connector Made
made a c crtc d e = elim (Option-cases (display_modes a.mode_pushed c.modes)) [
  | inl y ↦ ground (arith, y)
  | inr (modes, y) ↦ ground (arith, y, planes_lem a c crtc modes d)
]

-- The size of a mode of the list, or no size where the list is empty.
abbrev pub Greatest : ℕ × ℕ → List Mode → Type 0
Greatest x [] = x ≡ (0, 0)
Greatest x (m ∷ modes) =
    ((k : ℕ) × (n : Mode) × (get_elem? (m ∷ modes) k ≡ some n) × (x ≡ (n.hdisplay, n.vdisplay)))
    × All (λ n. n.hdisplay * n.vdisplay ≤ x.0 * x.1) (m ∷ modes)

first_taken : (m : Mode) → larger (0, 0) m ≡ (m.hdisplay, m.vdisplay)
unfolding larger
first_taken m = ground arith

-- Where the result is the mode that the search began with, or one of the list.
OfMode-index :
    (modes : List Mode) (m : Mode) (x : ℕ × ℕ)
    → OfMode (m.hdisplay, m.vdisplay) modes x
    → (k : ℕ) × (n : Mode) × (get_elem? (m ∷ modes) k ≡ some n) × (x ≡ (n.hdisplay, n.vdisplay))
OfMode-index [] m x h = (0, m, refl, h)
OfMode-index (n ∷ modes) m x (inl h) = (1, n, refl, h)
OfMode-index (n ∷ modes) m x (inr h) = later (OfMode-index modes m x h)
  where
    later :
        ((k : ℕ) × (p : Mode) × (get_elem? (m ∷ modes) k ≡ some p) × (x ≡ (p.hdisplay, p.vdisplay)))
        → (k : ℕ) × (p : Mode) × (get_elem? (m ∷ n ∷ modes) k ≡ some p)
          × (x ≡ (p.hdisplay, p.vdisplay))
    later (zero, p, g, e) = (0, p, g, e)
    later (suc k, p, g, e) = (suc (suc k), p, g, e)

greatest_lem : (modes : List Mode) → All Sized modes → Greatest (max_resolution (0, 0) modes) modes
unfolding max_resolution
greatest_lem [] s = refl
greatest_lem (m ∷ modes) s = (
  OfMode-index modes m _ (
      of_best modes (larger (0, 0) m) (m.hdisplay, m.vdisplay) _ (first_taken m)
        (max_resolution-OfMode (larger (0, 0) m) modes)),
  (max_lem (0, 0) (m ∷ modes) (omega arith) (omega arith) s).1,
)

-- A display that is made, of the resources that the kernel has given, has a connected connector, and
-- a CRTC that is one of the resources' and that an encoder of the connector can drive. Where the
-- sizes of the connector's modes are 16-bit words, the greatest width and height are those of one of its
-- modes, of which none has more pixels, and are 0 if it has no mode.
pub display_made :
    (a : Answers) (d : DrmDisplay) (crtcs : List ℕ) (connectors : List (Option Connector))
    → a.resources ≡ some (crtcs, connectors)
    → make_display a ≡ some d
    → All Sized d.connector.modes
    → (d.connector.connected ≡ true)
      × Drives crtcs d.connector.encoders d.crtc_id
      × Greatest (d.max_width, d.max_height) d.connector.modes
unfolding make_display Made
display_made a d crtcs connectors r e s = elim (Option-cases (find_connector crtcs connectors)) [
  | inl y ↦ ground (arith, r, y)
  | inr ((c, crtc), y) ↦
      let (p, q, m) = made a c crtc d (ground (arith, r, y)) in
      let (n, f) = connector_lem crtcs connectors c crtc y in
      let r' = m ∙ ap (λ x. max_resolution (0, 0) x.modes) (sym p) in
      (
        ap (λ x. x.connected) p ∙ n,
        compatible_lem crtcs d.connector.encoders d.crtc_id
            (ap (λ x. find_compatible_crtc crtcs x.encoders) p ∙ f ∙ ap some (sym q)),
        subst (λ x. Greatest x d.connector.modes) (sym r') (greatest_lem d.connector.modes s),
      )
]
