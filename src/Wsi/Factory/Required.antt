-- ===== src/Wsi/Factory/Required.antt =====
-- wsi/wsi_factory.cpp: what the lists of extensions hold once the platforms have added theirs.
use rk_vulkan_wsi_layer.Prelude.{
  ℕ, ◌≡◌, refl, ap, subst, ◌∙◌, Bool, true, false, ◌&&◌, ◌||◌, List, [], ◌∷◌, ◌++◌, Option, none,
  some, ◌==◌, if◌then◌else◌, map, arith, ℕ_discrete, Option-cases, Bool-cases, inl, inr,
}
use rk_vulkan_wsi_layer.Vulkan.{VkResult, success, is_success, error_initialization_failed}
use rk_vulkan_wsi_layer.Util.ExtensionList.{
  ExtensionProperties, copy_names, add, add_list, add_properties, get_extension_strings, contains,
  contains_all,
}
use rk_vulkan_wsi_layer.Wsi.Factory.{
  Platform, headless, wayland, display, Build, WsiExtension, Answers, Added, then_add,
  then_required, platform_contains, get_surface_properties, supported_wsi_extensions,
  add_one_optional, add_optional, require_device, require_instance, one_platform, each_platform,
  add_device_extensions_required_by_layer, device_loops, add_instance_extensions_required_by_layer,
  optional_extensions, get_available_device_extensions, get_required_device_extensions,
  get_required_instance_extensions, required_device_extensions, required_instance_extensions,
}

abbrev pub mem : ℕ → List ℕ → Bool
mem n [] = false
mem n (x ∷ xs) = if x == n then true else mem n xs

contains-append :
    (n : ℕ) (ps qs : List ExtensionProperties)
    → contains n (ps ++ qs) ≡ (contains n ps || contains n qs)
unfolding contains
contains-append n [] qs = refl
contains-append n (p ∷ ps) qs = ground (arith, contains-append n ps qs)

copied :
    (strlen : ℕ → ℕ) (names : List ℕ) (qs : List ExtensionProperties) (n : ℕ)
    → copy_names strlen names ≡ some qs
    → contains n qs ≡ mem n names
unfolding copy_names contains
copied strlen [] qs n e = ground arith
copied strlen (x ∷ names) qs n e = elim (Option-cases (copy_names strlen names)) [
  | inl y ↦ ground arith
  | inr (rs, y) ↦ ground (arith, copied strlen names rs n y)
]

-- A list after names were added to it successfully.
pub add-contains :
    (strlen : ℕ → ℕ) (resized : Bool) (names : List ℕ) (ps ps' : List ExtensionProperties) (n : ℕ)
    → add strlen resized names ps ≡ some (success, ps')
    → contains n ps' ≡ (contains n ps || mem n names)
unfolding add
add-contains strlen resized names ps ps' n e = elim (Option-cases (copy_names strlen names)) [
  | inl y ↦ ground arith
  | inr (qs, y) ↦ ground (arith, copied strlen names qs n y, contains-append n ps qs)
]

pub mem-names :
    (n : ℕ) (ps : List ExtensionProperties) → mem n (map (λ p. p.extension_name) ps) ≡ contains n ps
unfolding contains
mem-names n [] = refl
mem-names n (p ∷ ps) = ground (arith, mem-names n ps)

add_list-contains :
    (strlen : ℕ → ℕ) (s r : Bool) (list ps ps' : List ExtensionProperties) (n : ℕ)
    → add_list strlen s r list ps ≡ some (success, ps')
    → contains n ps' ≡ (contains n ps || contains n list)
unfolding add_list get_extension_strings
add_list-contains strlen s r list ps ps' n e =
    ground
      (arith, mem-names n list, add-contains strlen r (map (λ p. p.extension_name) list) ps ps' n)

-- A chain that succeeds.
pub then_add-success :
    (x : Added) (next : List ExtensionProperties → Added) (ps : List ExtensionProperties)
    → then_add x next ≡ some (success, ps)
    → (qs : List ExtensionProperties) × (x ≡ some (success, qs)) × (next qs ≡ some (success, ps))
unfolding then_add
then_add-success none next ps e = cc
then_add-success (some (r, qs)) next ps e = elim (Bool-cases (is_success r)) [
  | inl y ↦ (qs, ground (arith, y), ground (arith, y))
  | inr n ↦ ground (arith, n)
]

then_required-success :
    (x : Added) (ps : List ExtensionProperties) (next : List ExtensionProperties → Added)
    (ps' : List ExtensionProperties)
    → then_required x ps next ≡ some (success, ps')
    → (req : List ExtensionProperties) × (x ≡ some (success, req))
      × (next req ≡ some (success, ps'))
unfolding then_required
then_required-success none ps next ps' e = cc
then_required-success (some (r, req)) ps next ps' e = elim (Bool-cases (is_success r)) [
  | inl y ↦ (req, ground (arith, y), ground (arith, y))
  | inr n ↦ ground (arith, n)
]

-- What a platform requires, where its list was made.
device_list :
    (a : Answers) (p : Platform) (req : List ExtensionProperties) (n : ℕ)
    → get_required_device_extensions a p ≡ some (success, req)
    → contains n req ≡ mem n (required_device_extensions p)
unfolding get_required_device_extensions required_device_extensions contains
device_list a headless req n e = ground arith
device_list a wayland req n e =
    add-contains a.strlen (a.required_added wayland) (required_device_extensions wayland) [] req n e
device_list a display req n e =
    add-contains a.strlen (a.required_added display) (required_device_extensions display) [] req n e

instance_list :
    (a : Answers) (p : Platform) (req : List ExtensionProperties) (n : ℕ)
    → get_required_instance_extensions a p ≡ some (success, req)
    → contains n req ≡ mem n (required_instance_extensions p)
unfolding get_required_instance_extensions contains
instance_list a p req n e =
    add-contains a.strlen (a.required_added p) (required_instance_extensions p) [] req n e

module _ (n : ℕ) where
  require_device-contains :
      (a : Answers) (available : List ExtensionProperties) (p : Platform)
      (ps ps' : List ExtensionProperties)
      → require_device a available p ps ≡ some (success, ps')
      → contains n ps' ≡ (contains n ps || mem n (required_device_extensions p))
  unfolding require_device
  require_device-contains a available p ps ps' e =
      let (req, g, l) =
        then_required-success (get_required_device_extensions a p) ps
          (λ required.
            if contains_all required available
            then add_list a.strlen (a.list_strings p) (a.list_added p) required ps
            else some (error_initialization_failed, ps))
          ps' e in
      ground (
        arith,
        add_list-contains a.strlen (a.list_strings p) (a.list_added p) req ps ps' n,
        device_list a p req n g,
      )

  require_instance-contains :
      (a : Answers) (p : Platform) (ps ps' : List ExtensionProperties)
      → require_instance a p ps ≡ some (success, ps')
      → contains n ps' ≡ (contains n ps || mem n (required_instance_extensions p))
  unfolding require_instance
  require_instance-contains a p ps ps' e =
      let (req, g, l) =
        then_required-success (get_required_instance_extensions a p) ps
          (λ required. add_list a.strlen (a.list_strings p) (a.list_added p) required ps) ps' e in
      ground (
        arith,
        add_list-contains a.strlen (a.list_strings p) (a.list_added p) req ps ps' n,
        instance_list a p req n g,
      )

  add_one_optional-contains :
      (a : Answers) (available : List ExtensionProperties) (x : ℕ)
      (ps ps' : List ExtensionProperties)
      → add_one_optional a available x ps ≡ some (success, ps')
      → contains n ps' ≡ (contains n ps || (mem n (x ∷ []) && contains n available))
  unfolding add_one_optional
  add_one_optional-contains a available x ps ps' e = elim (ℕ_discrete x n) [
    | yes y ↦ ground (
      arith,
      ap (λ k. contains k available) y,
      add-contains a.strlen (a.name_added x) (x ∷ []) ps ps' n,
    )
    | no d ↦ ground (arith, d, add-contains a.strlen (a.name_added x) (x ∷ []) ps ps' n)
  ]

  add_optional-contains :
      (a : Answers) (available : List ExtensionProperties) (ns : List ℕ)
      (ps ps' : List ExtensionProperties)
      → add_optional a available ns ps ≡ some (success, ps')
      → contains n ps' ≡ (contains n ps || (mem n ns && contains n available))
  unfolding add_optional
  add_optional-contains a available [] ps ps' e = ground arith
  add_optional-contains a available (x ∷ ns) ps ps' e =
      let (qs, f, g) =
        then_add-success (add_one_optional a available x ps) (λ y. add_optional a available ns y)
          ps' e in
      ground (
        arith,
        add_one_optional-contains a available x ps qs f,
        add_optional-contains a available ns qs ps' g,
      )

  -- Whether an enabled platform of the table requires the name.
  abbrev pub required_by : (Platform → List ℕ) → ℕ → List WsiExtension → Bool
  required_by required enabled [] = false
  required_by required enabled (e ∷ es) =
      (platform_contains enabled e.platform && mem n (required e.platform))
      || required_by required enabled es

  module _ (properties : Platform → Option Platform)
      (same : (p q : Platform) → properties p ≡ some q → q ≡ p)
      (require : Platform → List ExtensionProperties → Added) (required : Platform → List ℕ)
      (adds : (p : Platform) (ps ps' : List ExtensionProperties)
        → require p ps ≡ some (success, ps')
        → contains n ps' ≡ (contains n ps || mem n (required p)))
      (enabled : ℕ) where
    one_platform-contains :
        (p : Platform) (ps ps' : List ExtensionProperties)
        → one_platform properties require enabled p ps ≡ some (success, ps')
        → contains n ps' ≡ (contains n ps || (platform_contains enabled p && mem n (required p)))
    unfolding one_platform
    one_platform-contains p ps ps' h = elim (Option-cases (properties p)) [
      | inl z ↦ ground (arith, z)
      | inr (q, z) ↦ ground (arith, z, ap required (same p q z), adds q ps ps')
    ]

    each_platform-contains :
        (es : List WsiExtension) (ps ps' : List ExtensionProperties)
        → each_platform properties require enabled es ps ≡ some (success, ps')
        → contains n ps' ≡ (contains n ps || required_by required enabled es)
    unfolding each_platform
    each_platform-contains [] ps ps' h = ground arith
    each_platform-contains (e ∷ es) ps ps' h =
        let (qs, a, b) =
          then_add-success (one_platform properties require enabled e.platform ps)
            (λ x. each_platform properties require enabled es x) ps' h in
        ground (arith, one_platform-contains e.platform ps qs a, each_platform-contains es qs ps' b)

same_platform : (b : Build) (p q : Platform) → get_surface_properties b p ≡ some q → q ≡ p
unfolding get_surface_properties
same_platform b headless q e = ground arith
same_platform b wayland q e = ground arith
same_platform b display q e = ground arith

or_assoc : (x y z : Bool) → ((x || y) || z) ≡ (x || (y || z))
or_assoc x y z = ground arith

gate-success :
    (x : VkResult × List ExtensionProperties) (ps ps' : List ExtensionProperties)
    (next : List ExtensionProperties → Added)
    → (let (r, qs) = x in if is_success r then next qs else some (r, ps)) ≡ some (success, ps')
    → (x.0 ≡ success) × (next x.1 ≡ some (success, ps'))
gate-success (success, qs) ps ps' next e = (refl, e)
gate-success (r, qs) ps ps' next e = ground arith

available_list :
    (a : Answers)
    → (get_available_device_extensions a []).0 ≡ success
    → (get_available_device_extensions a []).1 ≡ a.available
unfolding get_available_device_extensions add_properties
available_list a e = ground arith

-- The loops of a successful call are over what the driver has made available.
loops_run :
    (b : Build) (a : Answers) (enabled : ℕ) (ps ps' : List ExtensionProperties)
    → add_device_extensions_required_by_layer b a enabled ps ≡ some (success, ps')
    → device_loops b a enabled a.available ps ≡ some (success, ps')
unfolding add_device_extensions_required_by_layer
loops_run b a enabled ps ps' e =
    let (s, l) =
      gate-success (get_available_device_extensions a []) ps ps'
        (λ available. device_loops b a enabled available ps) e in
    subst (λ x. device_loops b a enabled x ps ≡ some (success, ps')) (available_list a s) l

-- Where the extensions that the platforms of a device require are added successfully, the list then
-- holds exactly the names that it held before, the optional names that the device has, and the
-- names that the enabled platforms of the build require.
pub device_extensions_added :
    (b : Build) (a : Answers) (enabled n : ℕ) (ps ps' : List ExtensionProperties)
    → add_device_extensions_required_by_layer b a enabled ps ≡ some (success, ps')
    → contains n ps' ≡ (
        contains n ps
        || ((mem n (optional_extensions b) && contains n a.available)
            || required_by n required_device_extensions enabled (supported_wsi_extensions b)))
unfolding device_loops
device_extensions_added b a enabled n ps ps' e =
    let (qs, f, g) =
      then_add-success (add_optional a a.available (optional_extensions b) ps)
        (λ x.
          each_platform (get_surface_properties b) (require_device a a.available) enabled
            (supported_wsi_extensions b) x)
        ps' (loops_run b a enabled ps ps' e) in
    each_platform-contains n (get_surface_properties b) (same_platform b)
      (require_device a a.available) required_device_extensions
      (require_device-contains n a a.available) enabled (supported_wsi_extensions b) qs ps' g
    ∙ ap (λ x. x || required_by n required_device_extensions enabled (supported_wsi_extensions b))
        (add_optional-contains n a a.available (optional_extensions b) ps qs f)
    ∙ or_assoc (contains n ps) (mem n (optional_extensions b) && contains n a.available)
        (required_by n required_device_extensions enabled (supported_wsi_extensions b))

-- Where the extensions that the platforms of an instance require are added successfully, the list
-- then holds exactly the names that it held before and the names that the enabled platforms of
-- the build require.
pub instance_extensions_added :
    (b : Build) (a : Answers) (enabled n : ℕ) (ps ps' : List ExtensionProperties)
    → add_instance_extensions_required_by_layer b a enabled ps ≡ some (success, ps')
    → contains n ps' ≡ (
        contains n ps
        || required_by n required_instance_extensions enabled (supported_wsi_extensions b))
unfolding add_instance_extensions_required_by_layer
instance_extensions_added b a enabled n ps ps' e =
    each_platform-contains n (get_surface_properties b) (same_platform b) (require_instance a)
      required_instance_extensions (require_instance-contains n a) enabled
      (supported_wsi_extensions b) ps ps' e
