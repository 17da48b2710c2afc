-- ===== src/Layer/PrivateData/Visible.antt =====
-- layer/private_data.cpp: which functions of a dispatch table the application sees.
use rk_vulkan_wsi_layer.Prelude.{
  ℕ, ◌≡◌, refl, Bool, true, false, ◌||◌, List, [], ◌∷◌, Option, none, some, leb, ◌==◌,
  if◌then◌else◌, arith, Option-cases, inl, inr,
}
use rk_vulkan_wsi_layer.Vulkan.{success}
use rk_vulkan_wsi_layer.Util.UnorderedMap.{find, try_insert}
use rk_vulkan_wsi_layer.Layer.PrivateData.Dispatch.{
  Entrypoint, EntrypointList, fetched, populate, enable, enable_all, set_user_enabled_extensions,
  get_fn, call_fn_value, is_allowed, get_user_enabled_entrypoint, api_version_1_0,
}

-- The first entry of the layer's list with a name.
abbrev pub entry_named : ℕ → List Entrypoint → Option Entrypoint
entry_named n [] = none
entry_named n (e ∷ es) = if n == e.name then some e else entry_named n es

abbrev map_option : (Entrypoint → Entrypoint) → Option Entrypoint → Option Entrypoint
map_option f none = none
map_option f (some e) = some (f e)

abbrev or_else : Option Entrypoint → Option Entrypoint → Option Entrypoint
or_else none d = d
or_else (some e) d = some e

abbrev pub mem : ℕ → List ℕ → Bool
mem n [] = false
mem n (x ∷ xs) = if n == x then true else mem n xs

module _ (get_proc : ℕ → ℕ) (allocated : ℕ → Bool) where
  pub populate-find :
      (es : List Entrypoint) (table : EntrypointList) (n : ℕ)
      → (populate get_proc allocated es table).0 ≡ success
      → find n (populate get_proc allocated es table).1
        ≡ or_else (find n table) (map_option (fetched get_proc) (entry_named n es))
  unfolding populate try_insert
  populate-find [] table n h = ground arith
  populate-find (e ∷ es) table n h = ground (
    arith,
    populate-find es (try_insert (allocated e.name) e.name (fetched get_proc e) table).1 n,
  )

find-enable_all :
    (ext n : ℕ) (table : EntrypointList)
    → find n (enable_all ext table) ≡ map_option (enable ext) (find n table)
unfolding enable_all
find-enable_all ext n [] = refl
find-enable_all ext n ((k, e) ∷ table) = ground (arith, find-enable_all ext n table)

-- An entry after the extensions are enabled.
abbrev enable_each : List ℕ → Entrypoint → Entrypoint
enable_each [] e = e
enable_each (ext ∷ exts) e = enable_each exts (enable ext e)

find-enabled :
    (exts : List ℕ) (n : ℕ) (table : EntrypointList)
    → find n (set_user_enabled_extensions exts table) ≡ map_option (enable_each exts) (find n table)
unfolding set_user_enabled_extensions
find-enabled [] n table = elim (Option-cases (find n table)) [
  | inl y ↦ rw (y, map_option) refl
  | inr (e, y) ↦ rw (y, map_option) refl
]
find-enabled (ext ∷ exts) n table =
    ground (arith, find-enabled exts n (enable_all ext table), find-enable_all ext n table)

enabled_fields :
    (exts : List ℕ) (e : Entrypoint)
    → ((enable_each exts e).fn ≡ e.fn)
      × ((enable_each exts e).api_version ≡ e.api_version)
      × ((enable_each exts e).user_visible ≡ (e.user_visible || mem e.ext_name exts))
unfolding enable
enabled_fields [] e = ground arith
enabled_fields (ext ∷ exts) e = ground (arith, enabled_fields exts (enable ext e))

-- What the table holds under a name, after both.
found :
    (get_proc : ℕ → ℕ) (allocated : ℕ → Bool) (es : List Entrypoint)
    → (populate get_proc allocated es []).0 ≡ success
    → (exts : List ℕ) (n : ℕ)
    → find n (set_user_enabled_extensions exts (populate get_proc allocated es []).1)
      ≡ map_option (λ e. enable_each exts (fetched get_proc e)) (entry_named n es)
found get_proc allocated es h exts n = elim (Option-cases (entry_named n es)) [
  | inl y ↦ ground (
    arith,
    find-enabled exts n (populate get_proc allocated es []).1,
    populate-find get_proc allocated es [] n h,
  )
  | inr (e, y) ↦ ground (
    arith,
    find-enabled exts n (populate get_proc allocated es []).1,
    populate-find get_proc allocated es [] n h,
  )
]

-- The pointer that the table holds under a name is the driver's.
pub fn_found :
    (get_proc : ℕ → ℕ) (allocated : ℕ → Bool) (es : List Entrypoint) (exts : List ℕ) (n : ℕ)
    (e : Entrypoint)
    → (populate get_proc allocated es []).0 ≡ success
    → entry_named n es ≡ some e
    → get_fn n (set_user_enabled_extensions exts (populate get_proc allocated es []).1)
      ≡ some (get_proc e.name)
unfolding get_fn fetched
fn_found get_proc allocated es exts n e h y =
    ground (arith, found get_proc allocated es h exts n, enabled_fields exts (fetched get_proc e))

-- What the application gets by a name, of the layer's list, of the extensions it enabled and of the
-- version it uses; `call` is the driver's function for what the layer does not list.
abbrev pub visible : (ℕ → ℕ) → List Entrypoint → List ℕ → ℕ → (ℕ → ℕ → ℕ) → ℕ → ℕ → ℕ
visible get_proc es exts api_version call p n = elim (entry_named n es) [
  | none ↦ elim (entry_named p es) [ none ↦ 0 | some e ↦ call (get_proc e.name) n ]
  | some e ↦
      if mem e.ext_name exts || (leb e.api_version api_version || e.api_version == api_version_1_0)
      then get_proc e.name
      else 0
]

-- Once a dispatch table has been populated successfully and the extensions of the application are
-- enabled in it, the application gets the driver's function by a name that the layer lists exactly
-- if the extension of the entry is enabled, the entry is in the core of the version the application
-- uses, or the entry is of version 1.0, and null otherwise. By another name it gets what the
-- driver's own lookup returns, if the layer lists that lookup, and else null.
pub entrypoint_visible :
    (get_proc : ℕ → ℕ) (allocated : ℕ → Bool) (es : List Entrypoint)
    → (populate get_proc allocated es []).0 ≡ success
    → (exts : List ℕ) (api_version : ℕ) (call : ℕ → ℕ → ℕ) (p n : ℕ)
    → get_user_enabled_entrypoint p call api_version n
        (set_user_enabled_extensions exts (populate get_proc allocated es []).1)
      ≡ visible get_proc es exts api_version call p n
unfolding get_user_enabled_entrypoint fetched is_allowed call_fn_value get_fn
entrypoint_visible get_proc allocated es h exts v call p n =
    let f = found get_proc allocated es h exts in
    elim (Option-cases (entry_named n es)) [
      | inl y ↦ elim (Option-cases (entry_named p es)) [
        | inl z ↦ ground (arith, f n, f p)
        | inr (e, z) ↦ ground (arith, f n, f p, enabled_fields exts (fetched get_proc e))
      ]
      | inr (e, y) ↦ ground (arith, f n, enabled_fields exts (fetched get_proc e))
    ]
