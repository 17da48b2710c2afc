-- ===== src/Util/ExtensionList/Contents.antt =====
-- util/extension_list.cpp: which names a list holds, and how often.
use rk_vulkan_wsi_layer.Prelude.{
  ℕ, ◌+◌, ◌≤◌, ◌≡◌, refl, ◌≢◌, ◌↔◌, Bool, true, false, List, [], ◌∷◌, ◌++◌, some, arith, ◌==◌,
  if◌then◌else◌, length, ltb, ℕ_discrete, Bool-cases, inl, inr,
}
use rk_vulkan_wsi_layer.Vulkan.{success}
use rk_vulkan_wsi_layer.Util.ExtensionList.{
  ExtensionProperties, add_property, contains, contains_all, kept, remove,
}

-- How often a list holds a name.
abbrev pub occurrences : ℕ → List ExtensionProperties → ℕ
occurrences n [] = 0
occurrences n (p ∷ ps) = (if p.extension_name == n then 1 else 0) + occurrences n ps

occurrences-append :
    (n : ℕ) (ps qs : List ExtensionProperties)
    → occurrences n (ps ++ qs) ≡ occurrences n ps + occurrences n qs
occurrences-append n [] qs = omega arith
occurrences-append n (p ∷ ps) qs = omega (arith, occurrences-append n ps qs)

contains-occurrences :
    (n : ℕ) (ps : List ExtensionProperties) → contains n ps ≡ ltb 0 (occurrences n ps)
unfolding contains
contains-occurrences n [] = refl
contains-occurrences n (p ∷ ps) = ground (arith, contains-occurrences n ps)

-- A name that a list holds at most once is held at most once after one entry is added.
pub add_property_once :
    (pushed : Bool) (p : ExtensionProperties) (ps : List ExtensionProperties) (n : ℕ)
    → occurrences n ps ≤ 1
    → occurrences n (add_property pushed p ps).1 ≤ 1
unfolding add_property
add_property_once pushed p ps n h =
    ground (arith, contains-occurrences p.extension_name ps, occurrences-append n ps (p ∷ []))

-- Adding one entry succeeds exactly when the list holds its name afterwards.
pub add_property_holds :
    (pushed : Bool) (p : ExtensionProperties) (ps : List ExtensionProperties)
    → ((add_property pushed p ps).0 ≡ success)
      ↔ (contains p.extension_name (add_property pushed p ps).1 ≡ true)
unfolding add_property
add_property_holds pushed p ps = ground (
  arith,
  contains-occurrences p.extension_name ps,
  contains-occurrences p.extension_name (ps ++ p ∷ []),
  occurrences-append p.extension_name ps (p ∷ []),
)

-- If the test of a list against another holds, each name of the other is held.
pub contains_all_sound :
    (req ps : List ExtensionProperties) (n : ℕ)
    → contains_all req ps ≡ true
    → contains n req ≡ true
    → contains n ps ≡ true
unfolding contains_all contains
contains_all_sound [] ps n h k = cc
contains_all_sound (r ∷ req) ps n h k = elim (ℕ_discrete r.extension_name n) [
  | yes e ↦ ground (arith, e)
  | no d ↦ ground (arith, d, contains_all_sound req ps n)
]

-- If the test of a list against another fails, some name of the other is not held.
pub contains_all_complete :
    (req ps : List ExtensionProperties)
    → contains_all req ps ≡ false
    → (n : ℕ) × (contains n req ≡ true) × (contains n ps ≡ false)
unfolding contains_all contains
contains_all_complete [] ps h = cc
contains_all_complete (r ∷ req) ps h = elim (Bool-cases (contains r.extension_name ps)) [
  | inr n ↦ (r.extension_name, ground arith, n)
  | inl y ↦
      let (n, i, o) = contains_all_complete req ps (ground (arith, y)) in (n, ground (arith, i), o)
]

kept-absent : (n : ℕ) (ps : List ExtensionProperties) → occurrences n (kept n ps) ≡ 0
unfolding kept
kept-absent n [] = refl
kept-absent n (p ∷ ps) = ground (arith, kept-absent n ps)

kept-others :
    (n m : ℕ) (ps : List ExtensionProperties) → n ≢ m → occurrences m (kept n ps) ≡ occurrences m ps
unfolding kept
kept-others n m [] d = refl
kept-others n m (p ∷ ps) d = ground (arith, kept-others n m ps d)

-- A name that the list holds once is removed, and another name stays as often as it was, where
-- `std::remove_if` leaves as many entries behind (`left`) as it does not keep.
pub remove_held_once :
    (n m : ℕ) (left ps : List ExtensionProperties)
    → length left ≡ occurrences n ps
    → occurrences n ps ≡ 1
    → n ≢ m
    → (rest : List ExtensionProperties) × (remove left n ps ≡ some rest)
      × (occurrences n rest ≡ 0)
      × (occurrences m rest ≡ occurrences m ps)
unfolding remove
remove_held_once n m [] ps l h d = absurd (omega arith)
remove_held_once n m (x ∷ []) ps l h d = (
  kept n ps ++ [],
  refl,
  omega (arith, occurrences-append n (kept n ps) [], kept-absent n ps),
  omega (arith, occurrences-append m (kept n ps) [], kept-others n m ps d),
)
remove_held_once n m (x ∷ y ∷ left) ps l h d = absurd (omega arith)
