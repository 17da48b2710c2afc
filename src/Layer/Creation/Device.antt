-- ===== src/Layer/Creation/Device.antt =====
-- layer/layer.cpp: `create_device` and `vkDestroyDevice`.
pub mod Outcome
use rk_vulkan_wsi_layer.Prelude.{
  ℕ, ◌≡◌, Bool, true, false, ◌&&◌, ◌||◌, List, [], ◌∷◌, ◌++◌, Option, none, some, ◌==◌,
  if◌then◌else◌,
}
use rk_vulkan_wsi_layer.Vulkan.{
  VkResult, success, error_out_of_host_memory, error_initialization_failed, is_success,
}
use rk_vulkan_wsi_layer.Vulkan.Extensions.{vk_ext_frame_boundary}
use rk_vulkan_wsi_layer.Util.ExtensionList.{
  ExtensionProperties, add, contains, get_extension_strings,
}
use rk_vulkan_wsi_layer.Wsi.Factory.{
  Build, Added, then_add, platform_empty, add_device_extensions_required_by_layer,
}
use rk_vulkan_wsi_layer.Wsi.Factory
use rk_vulkan_wsi_layer.Layer.PrivateData.Dispatch.{
  EntrypointList, populate_device, set_user_enabled_extensions, get_fn,
}
use rk_vulkan_wsi_layer.Layer.PrivateData.Entrypoints.{device_entrypoints}
use rk_vulkan_wsi_layer.Layer.PrivateData.Registry.{
  Registry, associate_device, disassociate_device, get_device,
}
use rk_vulkan_wsi_layer.Layer.Creation.{
  CreateInfoLink, device_links, DriverCall, created, destroyed,
}

-- The answers of the driver, of the host's allocator and of the chain of the create info, with the
-- arguments of the call and what the instance has: `create_device_fn` is the driver's
-- `vkCreateDevice`, `get_proc` its `vkGetDeviceProcAddr`, `application_frame_boundary` the feature in
-- the application's structure, if it has one, and the last two features likewise.
pub record DeviceAnswers : Type 0 where
  pub build : Build
  pub chain : List CreateInfoLink
  pub create_device_fn : ℕ
  pub names : List ℕ
  pub enabled_platforms : ℕ
  pub factory : Factory.Answers
  pub names_added : Bool
  pub strings_resized : Bool
  pub frame_boundary_supported : Bool
  pub application_frame_boundary : Option Bool
  pub create_result : VkResult
  pub handle : ℕ
  pub table_created : Bool
  pub get_proc : ℕ → ℕ
  pub entry_allocated : ℕ → Bool
  pub allocation : Option ℕ
  pub inserted : Bool
  pub enabled_added : Bool
  pub compression_control : Bool
  pub compression_feature : Option Bool
  pub present_id_feature : Option Bool

-- What the layer keeps for one device: a `device_private_data`, without its set of swapchains.
pub record DeviceData : Type 0 where
  pub table : EntrypointList
  pub enabled_extensions : List ExtensionProperties
  pub compression_control_enabled : Bool
  pub handle_frame_boundary_events : Bool
  pub present_id_enabled : Bool

-- The map of the devices, the calls of the driver, and the data of the device at hand.
pub record DeviceState : Type 0 where
  pub registry : Registry
  pub calls : List DriverCall
  pub details : DeviceData

-- `set_device_enabled_extensions` and `is_device_extension_enabled`.
unfoldable pub set_device_enabled_extensions :
    (ℕ → ℕ) → Bool → List ℕ → DeviceData → Option (VkResult × DeviceData)
unfolding add
set_device_enabled_extensions strlen resized names d =
    elim (add strlen resized names d.enabled_extensions) [
      | none ↦ none
      | some (r, ps) ↦ some (r, record d { enabled_extensions = ps })
    ]

unfoldable pub is_device_extension_enabled : ℕ → DeviceData → Bool
is_device_extension_enabled name d = contains name d.enabled_extensions

-- The setters of the features.
unfoldable pub set_layer_frame_boundary_handling_enabled : Bool → DeviceData → DeviceData
set_layer_frame_boundary_handling_enabled enable d = record d {
  handle_frame_boundary_events = enable;
}

unfoldable pub set_swapchain_compression_control_enabled : Bool → DeviceData → DeviceData
set_swapchain_compression_control_enabled enable d = record d {
  compression_control_enabled = enable;
}

unfoldable pub set_present_id_feature_enabled : Bool → DeviceData → DeviceData
set_present_id_feature_enabled enable d = record d { present_id_enabled = enable }

-- The extensions to enable: the list of the layer, and the names that the driver gets.
pub record Requested : Type 0 where
  pub result : VkResult
  pub list : List ExtensionProperties
  pub names : List ℕ

abbrev refused_request : VkResult → Requested
refused_request r = record { result = r; list = []; names = [] }

abbrev with_strings : Bool → List ExtensionProperties → Requested
with_strings resized ps =
    let (r, names) = get_extension_strings resized ps [] in
    record { result = r; list = ps; names = names }

unfoldable pub requested_extensions : DeviceAnswers → Option Requested
unfolding add add_device_extensions_required_by_layer get_extension_strings then_add platform_empty
requested_extensions a =
    if platform_empty a.enabled_platforms
    then some (record { result = success; list = []; names = a.names })
    else (elim (then_add (add a.factory.strlen a.names_added a.names [])
        (λ ps. add_device_extensions_required_by_layer a.build a.factory a.enabled_platforms ps)) [
          | none ↦ none
          | some (r, ps) ↦
              some (if is_success r then with_strings a.strings_resized ps else refused_request r)
        ])

-- Whether the layer passes on frame boundaries, and the feature that the driver's chain then has.
unfoldable pub handles_frame_boundary : DeviceAnswers → List ExtensionProperties → Bool
handles_frame_boundary a ps =
    a.build.instrumentation && (contains vk_ext_frame_boundary ps && a.frame_boundary_supported)

unfoldable pub driver_frame_boundary : DeviceAnswers → List ExtensionProperties → Option Bool
unfolding handles_frame_boundary
driver_frame_boundary a ps =
    if handles_frame_boundary a ps then some true else a.application_frame_boundary

-- `fn_destroy_device`.
abbrev destroy_handle : ℕ → DeviceState → DeviceState
destroy_handle h s = record s { calls = s.calls ++ destroyed h ∷ [] }

abbrev with_feature : (Bool → DeviceData → DeviceData) → Option Bool → DeviceData → DeviceData
with_feature setter none d = d
with_feature setter (some enable) d = setter enable d

-- The end of `create_device`, once the data of the device are registered.
unfoldable pub finish_device :
    (ℕ → ℕ) → DeviceAnswers → Requested → DeviceState → Option (VkResult × DeviceState)
unfolding set_device_enabled_extensions disassociate_device handles_frame_boundary
    set_layer_frame_boundary_handling_enabled set_swapchain_compression_control_enabled
    set_present_id_feature_enabled
finish_device get_key a q s =
    let handling =
      set_layer_frame_boundary_handling_enabled (handles_frame_boundary a q.list) s.details in
    elim (set_device_enabled_extensions a.factory.strlen a.enabled_added q.names handling) [
      | none ↦ none
      | some (r, d) ↦
          let compressed =
            if a.compression_control
            then with_feature set_swapchain_compression_control_enabled a.compression_feature d
            else d in
          let featured =
            with_feature set_present_id_feature_enabled a.present_id_feature compressed in
          if is_success r
          then some (success, record s { details = featured })
          else some (
            r,
            destroy_handle a.handle (record s {
              registry = disassociate_device get_key a.handle s.registry;
              details = d;
            }),
          )
    ]

abbrev new_data : EntrypointList → DeviceData
new_data table = record {
  table = table;
  enabled_extensions = [];
  compression_control_enabled = false;
  handle_frame_boundary_events = false;
  present_id_enabled = false;
}

abbrev pub associated_state : (ℕ → ℕ) → DeviceAnswers → EntrypointList → DeviceState → DeviceState
associated_state get_key a table s = record s {
  registry = (associate_device get_key a.allocation a.inserted a.handle s.registry).1;
  details = new_data (set_user_enabled_extensions a.names table);
}

-- `create_device` from the association of the data.
unfoldable pub register_device :
    (ℕ → ℕ)
    → DeviceAnswers
    → Requested
    → EntrypointList
    → DeviceState
    → Option (VkResult × DeviceState)
unfolding associate_device set_user_enabled_extensions finish_device
register_device get_key a q table s =
    let r = (associate_device get_key a.allocation a.inserted a.handle s.registry).0 in
    if is_success r
    then finish_device get_key a q (associated_state get_key a table s)
    else some (r, destroy_handle a.handle (associated_state get_key a table s))

-- `create_device` from the dispatch table of the device that the driver has created.
unfoldable pub populate_and_register :
    (ℕ → ℕ) → DeviceAnswers → Requested → DeviceState → Option (VkResult × DeviceState)
unfolding populate_device register_device
populate_and_register get_key a q s =
    let (r, table) = populate_device a.get_proc a.entry_allocated device_entrypoints [] in
    if a.table_created
    then (if is_success r
        then register_device get_key a q table s
        else some (r, destroy_handle a.handle s))
    else some (error_out_of_host_memory, destroy_handle a.handle s)

-- `create_device` from the call of the driver.
unfoldable pub create_with :
    (ℕ → ℕ) → DeviceAnswers → Requested → DeviceState → Option (VkResult × DeviceState)
unfolding populate_and_register
create_with get_key a q s =
    if is_success a.create_result
    then populate_and_register get_key a q (record s { calls = s.calls ++ created a.handle ∷ [] })
    else some (a.create_result, s)

unfoldable pub create_device :
    (ℕ → ℕ) → DeviceAnswers → DeviceState → Option (VkResult × DeviceState)
unfolding create_with device_links requested_extensions
create_device get_key a s = elim (device_links a.chain) [
  | none ↦ some (error_initialization_failed, s)
  | some links ↦
      if a.create_device_fn == 0
      then some (error_initialization_failed, s)
      else (elim (requested_extensions a) [
        | none ↦ none
        | some q ↦ if is_success q.result then create_with get_key a q s else some (q.result, s)
      ])
]

-- `vkDestroyDevice`: `none` where the device is not registered or its table has no
-- `vkDestroyDevice`, which is an exception or undefined.
unfoldable pub destroy_device : (ℕ → ℕ) → ℕ → ℕ → DeviceState → Option DeviceState
unfolding get_device disassociate_device get_fn
destroy_device get_key destroy_name handle s =
    if handle == 0 then some s else (elim (get_device get_key handle s.registry) [
      | none ↦ none
      | some d ↦ elim (get_fn destroy_name s.details.table) [
        | none ↦ none
        | some fn ↦ some (
            destroy_handle handle
              (record s { registry = disassociate_device get_key handle s.registry }))
      ]
    ])
