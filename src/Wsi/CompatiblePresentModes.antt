-- ===== src/Wsi/CompatiblePresentModes.antt =====
-- wsi/compatible_present_modes.hpp: which presentation modes a swapchain may switch between.
use rk_vulkan_wsi_layer.Prelude.{
  ℕ, suc, ◌≤◌, ◌<◌, ◌≡◌, refl, ap, ◌∙◌, Bool-cases, inl, inr, Bool, true, false, not, List, [], ◌∷◌,
  Option, none, some, arith, length, take, min, ◌==◌, if◌then◌else◌, length-take,
}
use rk_vulkan_wsi_layer.Vulkan.{PresentMode, mode_eq}
use rk_vulkan_wsi_layer.Wsi.Swapchain.Present.{mode_listed}

-- `present_mode_compatibility`; the array has 6 places, of which the first `present_mode_count` are
-- in use.
pub record PresentModeCompatibility : Type 0 where
  pub present_mode : PresentMode
  pub present_mode_count : ℕ
  pub compatible_present_modes : List PresentMode

-- `std::find_if` over the table.
unfoldable pub find_compatibility :
    PresentMode → List PresentModeCompatibility → Option PresentModeCompatibility
find_compatibility m [] = none
find_compatibility m (c ∷ cs) =
    let rest = find_compatibility m cs in if mode_eq c.present_mode m then some c else rest

-- The position that `std::find_if` returns: the length where there is no match.
unfoldable pub find_position : PresentMode → List PresentMode → ℕ
find_position m [] = 0
find_position m (p ∷ ps) = let rest = find_position m ps in if mode_eq p m then 0 else suc rest

-- The search is over the places in use, and its result is compared with the end of the array.
unfoldable pub is_compatible_present_modes :
    List PresentModeCompatibility → PresentMode → PresentMode → Bool
unfolding find_compatibility find_position
is_compatible_present_modes table a b = elim (find_compatibility a table) [
  | none ↦ false
  | some c ↦ not (
      find_position b (take c.present_mode_count c.compatible_present_modes)
      == length c.compatible_present_modes)
]

-- `VkSurfacePresentModeCompatibilityEXT`, whose array may be null.
pub record SurfaceCompatibility : Type 0 where
  pub present_mode_count : ℕ
  pub present_modes : Option (List PresentMode)

answer : SurfaceCompatibility → PresentModeCompatibility → SurfaceCompatibility
answer s c = elim s.present_modes [
  | none ↦ record s { present_mode_count = c.present_mode_count }
  | some ms ↦ record {
    present_mode_count = min s.present_mode_count c.present_mode_count;
    present_modes =
        some (take (min s.present_mode_count c.present_mode_count) c.compatible_present_modes);
  }
]

answer_found : SurfaceCompatibility → Option PresentModeCompatibility → SurfaceCompatibility
unfolding answer
answer_found s none = s
answer_found s (some c) = answer s c

-- The mode asked for and the structure to fill, each where its chain has it. What the array holds
-- behind the modes that are written is left out.
unfoldable pub get_surface_present_mode_compatibility_common :
    List PresentModeCompatibility
    → Option PresentMode
    → Option SurfaceCompatibility
    → Option SurfaceCompatibility
unfolding find_compatibility answer_found
get_surface_present_mode_compatibility_common table none s = s
get_surface_present_mode_compatibility_common table (some m) none = none
get_surface_present_mode_compatibility_common table (some m) (some s) =
    some (answer_found s (find_compatibility m table))

find_position-le : (m : PresentMode) (ps : List PresentMode) → find_position m ps ≤ length ps
unfolding find_position
find_position-le m [] = omega arith
find_position-le m (p ∷ ps) = ground (arith, find_position-le m ps)

suc-eq : (a b : ℕ) → not (suc a == suc b) ≡ not (a == b)
suc-eq a b = ground arith

zero-suc : (n : ℕ) → not (0 == suc n) ≡ true
zero-suc n = ground arith

find_position-listed :
    (m : PresentMode) (ps : List PresentMode)
    → not (find_position m ps == length ps) ≡ mode_listed m ps
unfolding find_position mode_listed
find_position-listed m [] = refl
find_position-listed m (p ∷ ps) = elim (Bool-cases (mode_eq p m)) [
  | inl y ↦ rw (y, find_position, mode_listed) (zero-suc _)
  | inr n ↦ rw (n, find_position, mode_listed) (suc-eq _ _ ∙ find_position-listed m ps)
]

take-all : (ps : List PresentMode) → take (length ps) ps ≡ ps
take-all [] = refl
take-all (p ∷ ps) = ap (λ r. p ∷ r) (take-all ps)

-- For an entry that uses every place of its array, two modes are compatible exactly when the second
-- is in the array.
pub full_entry_exact :
    (table : List PresentModeCompatibility) (a b : PresentMode) (c : PresentModeCompatibility)
    → find_compatibility a table ≡ some c
    → c.present_mode_count ≡ length c.compatible_present_modes
    → is_compatible_present_modes table a b ≡ mode_listed b c.compatible_present_modes
unfolding is_compatible_present_modes
full_entry_exact table a b c e f =
    rw (e, is_compatible_present_modes, f, take-all c.compatible_present_modes)
      (find_position-listed b c.compatible_present_modes)

-- For an entry that leaves a place of its array unused, every mode counts as compatible, whether the
-- entry lists it or not.
pub partial_entry_accepts_all :
    (table : List PresentModeCompatibility) (a b : PresentMode) (c : PresentModeCompatibility)
    → find_compatibility a table ≡ some c
    → c.present_mode_count < length c.compatible_present_modes
    → is_compatible_present_modes table a b ≡ true
unfolding is_compatible_present_modes
partial_entry_accepts_all table a b c e lt =
    rw (e, is_compatible_present_modes)
      (ground (
        arith,
        find_position-le b (take c.present_mode_count c.compatible_present_modes),
        length-take c.present_mode_count c.compatible_present_modes,
      ))
