-- ===== src/Layer/PrivateData/Dispatch.antt =====
-- layer/private_data.cpp and .hpp: the dispatch tables. The names of functions and of extensions are
-- numbers, since the code only tells them apart, and so are the pointers to functions, 0 being null.
-- The tables of instances and of devices have the same operations: the argument `get_proc` is
-- `vkGetInstanceProcAddr` of an instance, or `vkGetDeviceProcAddr` of a device.
use rk_vulkan_wsi_layer.Prelude.{
  ℕ, Bool, true, false, ◌||◌, ◌&&◌, List, [], ◌∷◌, Option, none, some, leb, ◌==◌, if◌then◌else◌,
}
use rk_vulkan_wsi_layer.Vulkan.{
  VkResult, success, error_initialization_failed, error_out_of_host_memory,
  error_extension_not_present,
}
use rk_vulkan_wsi_layer.Util.UnorderedMap.{UnorderedMap, find, try_insert}

pub record Entrypoint : Type 0 where
  pub name : ℕ
  pub ext_name : ℕ
  pub fn : ℕ
  pub api_version : ℕ
  pub user_visible : Bool
  pub required : Bool

-- `VK_API_VERSION_1_0` and `VK_API_VERSION_1_1` of the Vulkan headers, and the layer's maximum.
abbrev pub api_version_1_0 : ℕ
api_version_1_0 = 4194304

abbrev pub api_version_1_1 : ℕ
api_version_1_1 = 4198400

abbrev pub api_version_max : ℕ
api_version_max = 4294967295

abbrev pub EntrypointList : Type 0
EntrypointList = UnorderedMap Entrypoint

-- What the driver answered for the entry is stored, and the user does not see it.
unfoldable pub fetched : (ℕ → ℕ) → Entrypoint → Entrypoint
fetched get_proc e = record {
  name = e.name;
  ext_name = e.ext_name;
  fn = get_proc e.name;
  api_version = e.api_version;
  user_visible = false;
  required = e.required;
}

-- `populate`: the loop over the entries of the layer's list. `allocated` says of each name whether
-- the element for it can be allocated.
unfoldable pub populate :
    (ℕ → ℕ) → (ℕ → Bool) → List Entrypoint → EntrypointList → VkResult × EntrypointList
unfolding fetched try_insert
populate get_proc allocated [] table = (success, table)
populate get_proc allocated (e ∷ es) table =
    let (inserted, table') = try_insert (allocated e.name) e.name (fetched get_proc e) table in
    let rest = populate get_proc allocated es table' in
    if (get_proc e.name == 0) && e.required
    then (error_initialization_failed, table)
    else (elim inserted [ none ↦ (error_out_of_host_memory, table') | some _ ↦ rest ])

-- The body of the loops of `set_user_enabled_extensions`.
unfoldable pub enable : ℕ → Entrypoint → Entrypoint
enable ext e = record {
  name = e.name;
  ext_name = e.ext_name;
  fn = e.fn;
  api_version = e.api_version;
  user_visible = if e.ext_name == ext then true else e.user_visible;
  required = e.required;
}

unfoldable pub enable_all : ℕ → EntrypointList → EntrypointList
unfolding enable
enable_all ext [] = []
enable_all ext ((k, e) ∷ table) = (k, enable ext e) ∷ enable_all ext table

unfoldable pub set_user_enabled_extensions : List ℕ → EntrypointList → EntrypointList
unfolding enable_all
set_user_enabled_extensions [] table = table
set_user_enabled_extensions (ext ∷ exts) table =
    set_user_enabled_extensions exts (enable_all ext table)

-- `get_fn`.
unfoldable pub get_fn : ℕ → EntrypointList → Option ℕ
get_fn name table = elim (find name table) [ none ↦ none | some e ↦ some e.fn ]

-- `call_fn` of a function whose result is a `VkResult`, `call` being the call of a pointer. A
-- pointer that is null is called too.
unfoldable pub call_fn : ℕ → (ℕ → VkResult) → EntrypointList → VkResult
unfolding get_fn
call_fn name call table = elim (get_fn name table) [
  | none ↦ error_extension_not_present
  | some fn ↦ call fn
]

-- `call_fn` of a function with another result.
unfoldable pub call_fn_value : ℕ → (ℕ → ℕ) → EntrypointList → Option ℕ
unfolding get_fn
call_fn_value name call table = elim (get_fn name table) [ none ↦ none | some fn ↦ some (call fn) ]

-- The condition under which an entry is shown to the user.
unfoldable pub is_allowed : ℕ → Entrypoint → Bool
is_allowed api_version e =
    e.user_visible || (leb e.api_version api_version || e.api_version == api_version_1_0)

abbrev value_or : Option ℕ → ℕ → ℕ
value_or none d = d
value_or (some v) d = v

-- `get_user_enabled_entrypoint` of an instance, `get_proc_name` being the name of
-- `vkGetInstanceProcAddr` and `call` the call of the pointer stored for it, with the name.
unfoldable pub get_user_enabled_entrypoint : ℕ → (ℕ → ℕ → ℕ) → ℕ → ℕ → EntrypointList → ℕ
unfolding is_allowed call_fn_value
get_user_enabled_entrypoint get_proc_name call api_version name table = elim (find name table) [
  | none ↦ value_or (call_fn_value get_proc_name (λ fn. call fn name) table) 0
  | some e ↦ if is_allowed api_version e then e.fn else 0
]

-- The operations of a device's table, whose code is a copy of the code for an instance.
unfoldable pub populate_device :
    (ℕ → ℕ) → (ℕ → Bool) → List Entrypoint → EntrypointList → VkResult × EntrypointList
unfolding populate
populate_device get_proc allocated es table = populate get_proc allocated es table

unfoldable pub get_user_enabled_device_entrypoint : ℕ → (ℕ → ℕ → ℕ) → ℕ → ℕ → EntrypointList → ℕ
unfolding get_user_enabled_entrypoint
get_user_enabled_device_entrypoint get_proc_name call api_version name table =
    get_user_enabled_entrypoint get_proc_name call api_version name table

-- `device_private_data::can_icds_create_swapchain`: the argument is the name of the function.
unfoldable pub can_icds_create_swapchain : ℕ → EntrypointList → Bool
unfolding get_fn
can_icds_create_swapchain create_swapchain table = elim (get_fn create_swapchain table) [
  | none ↦ false
  | some fn ↦ true
]
