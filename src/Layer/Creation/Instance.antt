-- ===== src/Layer/Creation/Instance.antt =====
-- layer/layer.cpp: `create_instance` and `vkDestroyInstance`.
pub mod Outcome
use rk_vulkan_wsi_layer.Prelude.{
  ℕ, ◌≡◌, Bool, true, false, ◌&&◌, ◌||◌, List, [], ◌∷◌, ◌++◌, Option, none, some, ◌==◌,
  if◌then◌else◌,
}
use rk_vulkan_wsi_layer.Vulkan.{
  VkResult, success, error_out_of_host_memory, error_initialization_failed,
  error_extension_not_present, is_success,
}
use rk_vulkan_wsi_layer.Vulkan.Extensions.{vk_khr_surface}
use rk_vulkan_wsi_layer.Util.ExtensionList.{
  ExtensionProperties, add, contains, get_extension_strings,
}
use rk_vulkan_wsi_layer.Wsi.Factory.{
  Build, Added, then_add, platform_empty, find_enabled_layer_platforms,
  add_instance_extensions_required_by_layer,
}
use rk_vulkan_wsi_layer.Wsi.Factory
use rk_vulkan_wsi_layer.Layer.PrivateData.Dispatch.{
  EntrypointList, populate, set_user_enabled_extensions, get_fn,
}
use rk_vulkan_wsi_layer.Layer.PrivateData.Entrypoints.{instance_entrypoints}
use rk_vulkan_wsi_layer.Layer.PrivateData.Registry.{
  Registry, associate_instance, disassociate_instance, get_instance,
}
use rk_vulkan_wsi_layer.Layer.Creation.{
  CreateInfoLink, instance_links, DriverCall, created, destroyed,
}

-- `VK_API_VERSION_1_3` of the Vulkan headers.
abbrev api_version_1_3 : ℕ
api_version_1_3 = 4206592

-- The answers of the driver, of the host's allocator and of the chain of the create info, with the
-- arguments of the call: `application_version` is that of the application's info, if there is one.
pub record InstanceAnswers : Type 0 where
  pub build : Build
  pub chain : List CreateInfoLink
  pub create_instance_fn : ℕ
  pub names : List ℕ
  pub application_version : Option ℕ
  pub factory : Factory.Answers
  pub names_added : Bool
  pub strings_resized : Bool
  pub create_result : VkResult
  pub handle : ℕ
  pub table_created : Bool
  pub get_proc : ℕ → ℕ
  pub entry_allocated : ℕ → Bool
  pub allocation : Option ℕ
  pub inserted : Bool
  pub enabled_added : Bool

-- What the layer keeps for one instance: an `instance_private_data`, without its surfaces.
pub record InstanceData : Type 0 where
  pub table : EntrypointList
  pub api_version : ℕ
  pub enabled_layer_platforms : ℕ
  pub enabled_extensions : List ExtensionProperties

-- The map of the instances, the calls of the driver, and the data of the instance at hand.
pub record InstanceState : Type 0 where
  pub registry : Registry
  pub calls : List DriverCall
  pub details : InstanceData

-- `set_instance_enabled_extensions` and `is_instance_extension_enabled`.
unfoldable pub set_instance_enabled_extensions :
    (ℕ → ℕ) → Bool → List ℕ → InstanceData → Option (VkResult × InstanceData)
unfolding add
set_instance_enabled_extensions strlen resized names d =
    elim (add strlen resized names d.enabled_extensions) [
      | none ↦ none
      | some (r, ps) ↦ some (r, record d { enabled_extensions = ps })
    ]

unfoldable pub is_instance_extension_enabled : ℕ → InstanceData → Bool
is_instance_extension_enabled name d = contains name d.enabled_extensions

-- The extensions to enable: `modified` is the list of the strings, which stays empty where the layer
-- has no platform to enable.
pub record Requested : Type 0 where
  pub result : VkResult
  pub modified : List ℕ

abbrev strings_of : Bool → List ExtensionProperties → Requested
strings_of resized ps =
    let (r, names) = get_extension_strings resized ps [] in record { result = r; modified = names }

-- The test for VK_KHR_surface, and the extensions of the platforms.
unfoldable pub with_platforms : InstanceAnswers → ℕ → List ExtensionProperties → Added
unfolding add_instance_extensions_required_by_layer
with_platforms a platforms ps =
    if contains vk_khr_surface ps
    then add_instance_extensions_required_by_layer a.build a.factory platforms ps
    else some (error_extension_not_present, ps)

unfoldable pub list_requested : InstanceAnswers → ℕ → Added
unfolding with_platforms add then_add
list_requested a platforms =
    then_add (add a.factory.strlen a.names_added a.names []) (λ ps. with_platforms a platforms ps)

unfoldable pub requested_extensions : InstanceAnswers → ℕ → Option Requested
unfolding list_requested get_extension_strings platform_empty
requested_extensions a platforms =
    if platform_empty platforms
    then some (record { result = success; modified = [] })
    else (elim (list_requested a platforms) [
      | none ↦ none
      | some (r, ps) ↦ some (
          if is_success r
          then strings_of a.strings_resized ps
          else (record { result = r; modified = [] }))
    ])

-- The names that the driver's `vkCreateInstance` gets.
unfoldable pub driver_names : InstanceAnswers → ℕ → Requested → List ℕ
driver_names a platforms q = if platform_empty platforms then a.names else q.modified

abbrev version_of : Option ℕ → ℕ
version_of none = api_version_1_3
version_of (some v) = v

abbrev pub associated_state :
    (ℕ → ℕ) → InstanceAnswers → ℕ → EntrypointList → InstanceState → InstanceState
associated_state get_key a platforms table s = record s {
  registry = (associate_instance get_key a.allocation a.inserted a.handle s.registry).1;
  details = record {
    table = set_user_enabled_extensions a.names table;
    api_version = version_of a.application_version;
    enabled_layer_platforms = platforms;
    enabled_extensions = [];
  };
}

-- The end of `create_instance`, once the data of the instance are registered.
unfoldable pub finish_instance :
    (ℕ → ℕ) → InstanceAnswers → Requested → InstanceState → Option (VkResult × InstanceState)
unfolding set_instance_enabled_extensions disassociate_instance
finish_instance get_key a q s =
    elim (set_instance_enabled_extensions a.factory.strlen a.enabled_added q.modified s.details) [
      | none ↦ none
      | some (r, d) ↦
          if is_success r
          then some (success, record s { details = d })
          else some (
            r,
            record s { registry = disassociate_instance get_key a.handle s.registry; details = d },
          )
    ]

-- `create_instance` from the dispatch table of the instance that the driver has created.
unfoldable pub register_instance :
    (ℕ → ℕ)
    → InstanceAnswers
    → ℕ
    → Requested
    → EntrypointList
    → InstanceState
    → Option (VkResult × InstanceState)
unfolding associate_instance set_user_enabled_extensions finish_instance
register_instance get_key a platforms q table s =
    let r = (associate_instance get_key a.allocation a.inserted a.handle s.registry).0 in
    if is_success r
    then finish_instance get_key a q (associated_state get_key a platforms table s)
    else some (r, associated_state get_key a platforms table s)

unfoldable pub populate_and_register :
    (ℕ → ℕ) → InstanceAnswers → ℕ → Requested → InstanceState → Option (VkResult × InstanceState)
unfolding populate register_instance
populate_and_register get_key a platforms q s =
    let (r, table) = populate a.get_proc a.entry_allocated instance_entrypoints [] in
    if a.table_created
    then (if is_success r then register_instance get_key a platforms q table s else some (r, s))
    else some (error_out_of_host_memory, s)

-- `create_instance` from the call of the driver.
unfoldable pub create_with :
    (ℕ → ℕ) → InstanceAnswers → ℕ → Requested → InstanceState → Option (VkResult × InstanceState)
unfolding populate_and_register
create_with get_key a platforms q s =
    if is_success a.create_result
    then populate_and_register get_key a platforms q
        (record s { calls = s.calls ++ created a.handle ∷ [] })
    else some (a.create_result, s)

unfoldable pub create_instance :
    (ℕ → ℕ) → InstanceAnswers → InstanceState → Option (VkResult × InstanceState)
unfolding create_with instance_links find_enabled_layer_platforms requested_extensions
create_instance get_key a s =
    let platforms = find_enabled_layer_platforms a.build a.names in
    elim (instance_links a.chain) [
      | none ↦ some (error_initialization_failed, s)
      | some links ↦
          if a.create_instance_fn == 0
          then some (error_initialization_failed, s)
          else (elim (requested_extensions a platforms) [
            | none ↦ none
            | some q ↦
                if is_success q.result
                then create_with get_key a platforms q s
                else some (q.result, s)
          ])
    ]

-- `vkDestroyInstance`: `none` where the instance is not registered or its table has no
-- `vkDestroyInstance`, which is an exception or undefined.
unfoldable pub destroy_instance : (ℕ → ℕ) → ℕ → ℕ → InstanceState → Option InstanceState
unfolding get_instance disassociate_instance get_fn
destroy_instance get_key destroy_name handle s =
    if handle == 0 then some s else (elim (get_instance get_key handle s.registry) [
      | none ↦ none
      | some d ↦ elim (get_fn destroy_name s.details.table) [
        | none ↦ none
        | some fn ↦ some (record s {
          registry = disassociate_instance get_key handle s.registry;
          calls = s.calls ++ destroyed handle ∷ [];
        })
      ]
    ])
