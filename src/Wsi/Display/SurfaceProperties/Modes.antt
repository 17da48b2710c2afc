-- ===== src/Wsi/Display/SurfaceProperties/Modes.antt =====
-- wsi/display/surface_properties.cpp: the modes of a display and the surfaces made for them.
use rk_vulkan_wsi_layer.Prelude.{
  ℕ, zero, suc, ◌+◌, ◌-◌, ◌≤◌, ◌≡◌, ◌≢◌, refl, ap, subst, true, List, [], ◌∷◌, Option, some, arith,
  get_elem?, Bool-cases, inl, inr,
}
use rk_vulkan_wsi_layer.Vulkan.{success}
use rk_vulkan_wsi_layer.Wsi.Display.DrmDisplay.{DisplayMode}
use rk_vulkan_wsi_layer.Wsi.Display.SurfaceProperties.{
  ModeParameters, ModeProperties, parameters_of, same_parameters, find_mode, create_display_mode,
  mode_properties, SurfaceCall, surface_created, surface_destroyed,
}

some-inj : (x y : DisplayMode) → ◌≡◌ {A = Option DisplayMode} (some x) (some y) → x ≡ y
some-inj x y e = cc

parameters_eq : (p q : ModeParameters) → same_parameters p q ≡ true → p ≡ q
parameters_eq p q e = ground arith

same_self : (p : ModeParameters) → same_parameters p p ≡ true
same_self p = ground arith

-- The mode that is found has the parameters.
find_mode_sound :
    (p : ModeParameters) (i j : ℕ) (ds : List DisplayMode)
    → find_mode p i ds ≡ some j
    → (k : ℕ) × (j ≡ i + k) × (d : DisplayMode) × (get_elem? ds k ≡ some d) × (parameters_of d ≡ p)
unfolding find_mode
find_mode_sound p i j [] e = cc
find_mode_sound p i j (d ∷ ds) e = elim (Bool-cases (same_parameters (parameters_of d) p)) [
  | inl y ↦ (0, ground (arith, y), d, refl, parameters_eq (parameters_of d) p y)
  | inr n ↦
      let (k, l, d', g, q) = find_mode_sound p (suc i) j ds (ground (arith, n)) in
      (suc k, omega (arith, l), d', g, q)
]

-- A mode that is there is found, at its place or before it.
find_mode_complete :
    (i k : ℕ) (ds : List DisplayMode) (d : DisplayMode)
    → get_elem? ds k ≡ some d
    → (j : ℕ) × (find_mode (parameters_of d) i ds ≡ some j) × (j ≤ i + k)
unfolding find_mode
find_mode_complete i k [] d e = cc
find_mode_complete i zero (x ∷ ds) d e =
    (i, ground (arith, same_self (parameters_of d), ap parameters_of (some-inj x d e)), omega arith)
find_mode_complete i (suc k) (x ∷ ds) d e =
    elim (Bool-cases (same_parameters (parameters_of x) (parameters_of d))) [
      | inl y ↦ (i, ground (arith, y), omega arith)
      | inr n ↦
          let (j, f, l) = find_mode_complete (suc i) k ds d e in
          (j, rw (n, find_mode) f, omega (arith, l))
    ]

-- What the query of the modes writes for a mode are its index and its parameters.
properties_at :
    (i k : ℕ) (ds : List DisplayMode) (pr : ModeProperties)
    → get_elem? (mode_properties i ds) k ≡ some pr
    → (pr.display_mode ≡ i + k)
      × (d : DisplayMode) × (get_elem? ds k ≡ some d)
      × (parameters_of d ≡ pr.parameters)
unfolding mode_properties
properties_at i k [] pr e = cc
properties_at i zero (d ∷ ds) pr e = (ground (arith, e), d, refl, ground (arith, e))
properties_at i (suc k) (d ∷ ds) pr e =
    let (l, d', g, q) = properties_at (suc i) k ds pr e in (omega (arith, l), d', g, q)

-- The parameters of every mode that the query of the modes offers, if none of them is 0, are accepted
-- for the creation of a mode, which gives that mode or an earlier one with the same parameters.
pub offered_mode_created :
    (modes : List DisplayMode) (k : ℕ) (pr : ModeProperties)
    → get_elem? (mode_properties 0 modes) k ≡ some pr
    → pr.parameters.width ≢ 0
    → pr.parameters.height ≢ 0
    → pr.parameters.refresh_rate ≢ 0
    → (j : ℕ) × (create_display_mode modes pr.parameters ≡ (success, some j))
      × (j ≤ pr.display_mode)
      × (d : DisplayMode) × (get_elem? modes j ≡ some d)
      × (parameters_of d ≡ pr.parameters)
unfolding create_display_mode
offered_mode_created modes k pr e w h r =
    let (l, d, g, q) = properties_at 0 k modes pr e in
    let (j, f, m) = find_mode_complete 0 k modes d g in
    let f' : find_mode pr.parameters 0 modes ≡ some j =
      subst (λ x. find_mode x 0 modes ≡ some j) q f in
    let (n, o, d', g', q') = find_mode_sound pr.parameters 0 j modes f' in
    let o' : n ≡ j = omega (arith, o) in
    (
      j,
      ground (arith, f', w, h, r),
      omega (arith, m, l),
      d',
      subst (λ x. get_elem? modes x ≡ some d') o' g',
      q',
    )

-- How many surfaces of the driver the calls make, less those they release.
abbrev pub surfaces_made : List SurfaceCall → ℕ
surfaces_made [] = 0
surfaces_made (surface_created h ∷ cs) = suc (surfaces_made cs)
surfaces_made (surface_destroyed h ∷ cs) = surfaces_made cs

abbrev pub surfaces_released : List SurfaceCall → ℕ
surfaces_released [] = 0
surfaces_released (surface_created h ∷ cs) = surfaces_released cs
surfaces_released (surface_destroyed h ∷ cs) = suc (surfaces_released cs)

abbrev pub surfaces_left : List SurfaceCall → ℕ
surfaces_left cs = surfaces_made cs - surfaces_released cs
