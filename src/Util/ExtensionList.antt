-- ===== src/Util/ExtensionList.antt =====
-- util/extension_list.cpp: lists of extension properties. A name is a number, since the code only
-- tells names apart (`strcmp`) and measures them; the length of a name is the argument `strlen`. A
-- boolean argument says whether the host's allocator serves a call.
pub mod Contents
use rk_vulkan_wsi_layer.Prelude.{
  ℕ, Bool, true, false, List, [], ◌∷◌, ◌++◌, Option, none, some, ltb, ◌==◌, if◌then◌else◌, map,
}
use rk_vulkan_wsi_layer.Vulkan.{VkResult, success, error_out_of_host_memory, is_success}

-- `VkExtensionProperties`.
pub record ExtensionProperties : Type 0 where
  pub extension_name : ℕ
  pub spec_version : ℕ

abbrev pub max_extension_name_size : ℕ
max_extension_name_size = 256

abbrev named : ℕ → ExtensionProperties
named n = record { extension_name = n; spec_version = 0 }

-- The entries for names that each fit with their terminator; `none` where one does not.
unfoldable pub copy_names : (ℕ → ℕ) → List ℕ → Option (List ExtensionProperties)
copy_names strlen [] = some []
copy_names strlen (n ∷ ns) = elim (copy_names strlen ns) [
  | none ↦ none
  | some ps ↦ if ltb (strlen n) max_extension_name_size then some (named n ∷ ps) else none
]

-- `add(const char *const *, size_t)`; `none` is a call that aborts the program.
unfoldable pub add :
    (ℕ → ℕ)
    → Bool
    → List ℕ
    → List ExtensionProperties
    → Option (VkResult × List ExtensionProperties)
unfolding copy_names
add strlen resized names props =
    if resized
    then (elim (copy_names strlen names) [ none ↦ none | some ps ↦ some (success, props ++ ps) ])
    else some (error_out_of_host_memory, props)

-- The inner loop over the subset: the name is pushed for each match.
matches : ℕ → List ℕ → List ℕ
matches n [] = []
matches n (s ∷ subset) = let rest = matches n subset in if n == s then n ∷ rest else rest

unfoldable pub extensions_to_add : List ℕ → List ℕ → List ℕ
unfolding matches
extensions_to_add [] subset = []
extensions_to_add (n ∷ ns) subset = matches n subset ++ extensions_to_add ns subset

-- `add` with a subset.
unfoldable pub add_subset :
    (ℕ → ℕ)
    → Bool
    → Bool
    → List ℕ
    → List ℕ
    → List ExtensionProperties
    → Option (VkResult × List ExtensionProperties)
unfolding extensions_to_add add
add_subset strlen pushed resized names subset props =
    if pushed
    then add strlen resized (extensions_to_add names subset) props
    else some (error_out_of_host_memory, props)

unfoldable pub contains : ℕ → List ExtensionProperties → Bool
contains n [] = false
contains n (p ∷ ps) = let rest = contains n ps in if p.extension_name == n then true else rest

-- `contains(const extension_list &)`.
unfoldable pub contains_all : List ExtensionProperties → List ExtensionProperties → Bool
unfolding contains
contains_all [] props = true
contains_all (r ∷ req) props =
    let rest = contains_all req props in if contains r.extension_name props then rest else false

-- `add(VkExtensionProperties)`.
unfoldable pub add_property :
    Bool → ExtensionProperties → List ExtensionProperties → VkResult × List ExtensionProperties
unfolding contains
add_property pushed p props =
    if contains p.extension_name props
    then (success, props)
    else (if pushed then (success, props ++ p ∷ []) else (error_out_of_host_memory, props))

-- `add(const VkExtensionProperties *, size_t)`.
unfoldable pub add_properties :
    Bool → List ExtensionProperties → List ExtensionProperties → VkResult × List ExtensionProperties
add_properties resized ps props =
    if resized then (success, props ++ ps) else (error_out_of_host_memory, props)

-- `get_extension_strings`, after what the vector holds.
unfoldable pub get_extension_strings : Bool → List ExtensionProperties → List ℕ → VkResult × List ℕ
get_extension_strings resized props out =
    if resized
    then (success, out ++ map (λ p. p.extension_name) props)
    else (error_out_of_host_memory, out)

-- `add(const extension_list &)`: the first boolean is that of the list of strings.
unfoldable pub add_list :
    (ℕ → ℕ)
    → Bool
    → Bool
    → List ExtensionProperties
    → List ExtensionProperties
    → Option (VkResult × List ExtensionProperties)
unfolding get_extension_strings add
add_list strlen strings resized list props =
    let (r, names) = get_extension_strings strings list [] in
    if is_success r then add strlen resized names props else some (r, props)

-- The entries that `std::remove_if` keeps, in order.
unfoldable pub kept : ℕ → List ExtensionProperties → List ExtensionProperties
kept n [] = []
kept n (p ∷ ps) = let rest = kept n ps in if p.extension_name == n then rest else p ∷ rest

-- `remove`: what `std::remove_if` leaves behind the entries that it keeps is the argument `left`, of
-- which one entry is erased. With nothing behind them the end is erased, which is undefined: `none`.
unfoldable pub remove :
    List ExtensionProperties → ℕ → List ExtensionProperties → Option (List ExtensionProperties)
unfolding kept
remove [] n props = none
remove (p ∷ left) n props = some (kept n props ++ left)
