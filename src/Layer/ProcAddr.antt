-- ===== src/Layer/ProcAddr.antt =====
-- layer/layer.cpp: `vkGetDeviceProcAddr`, `vkGetInstanceProcAddr` and the features that the layer adds
-- to a physical device's. The layer's own function of a name is the argument `wrapper`.
use rk_vulkan_wsi_layer.Prelude.{
  ℕ, Bool, true, false, ◌&&◌, ◌||◌, List, [], ◌∷◌, Option, none, some, ◌==◌, if◌then◌else◌,
}
use rk_vulkan_wsi_layer.Vulkan.Extensions.{
  vk_khr_swapchain, vk_khr_shared_presentable_image, vk_khr_get_physical_device_properties_2,
  vk_khr_surface, vk_khr_get_surface_capabilities_2,
}
use rk_vulkan_wsi_layer.Layer.PrivateData.Dispatch.{
  get_user_enabled_entrypoint, get_user_enabled_device_entrypoint,
}
use rk_vulkan_wsi_layer.Layer.PrivateData.Entrypoints.Names
use rk_vulkan_wsi_layer.Layer.Creation.Device.{DeviceData, is_device_extension_enabled}
use rk_vulkan_wsi_layer.Layer.Creation.Instance.{InstanceData, is_instance_extension_enabled}

-- The macro `GET_PROC_ADDR` for several names.
abbrev one_of : ℕ → List ℕ → Bool
one_of n [] = false
one_of n (x ∷ xs) = if n == x then true else one_of n xs

abbrev pub swapchain_functions : List ℕ
swapchain_functions =
    Names.create_swapchain_khr ∷ Names.destroy_swapchain_khr ∷ Names.get_swapchain_images_khr
    ∷ Names.acquire_next_image_khr ∷ Names.queue_present_khr ∷ Names.acquire_next_image2_khr
    ∷ Names.get_device_group_present_capabilities_khr
    ∷ Names.get_device_group_surface_present_modes_khr ∷ []

abbrev device_functions : List ℕ
device_functions = Names.destroy_device ∷ Names.create_image ∷ Names.bind_image_memory2 ∷ []

-- The names for which the layer's function is returned by `vkGetDeviceProcAddr`.
unfoldable pub intercepts_device : DeviceData → ℕ → Bool
unfolding is_device_extension_enabled
intercepts_device d n =
    (is_device_extension_enabled vk_khr_swapchain d && one_of n swapchain_functions)
    || ((is_device_extension_enabled vk_khr_shared_presentable_image d
          && n == Names.get_swapchain_status_khr)
        || one_of n device_functions)

-- `vkGetDeviceProcAddr`, without the experimental build: `call` is the call of the driver's own.
unfoldable pub get_device_proc_addr : (ℕ → ℕ) → (ℕ → ℕ → ℕ) → ℕ → DeviceData → ℕ → ℕ
unfolding intercepts_device get_user_enabled_device_entrypoint
get_device_proc_addr wrapper call api_version d n =
    if intercepts_device d n
    then wrapper n
    else get_user_enabled_device_entrypoint Names.get_device_proc_addr call api_version n d.table

abbrev instance_functions : List ℕ
instance_functions =
    Names.get_device_proc_addr ∷ Names.get_instance_proc_addr ∷ Names.create_instance
    ∷ Names.destroy_instance ∷ Names.create_device
    ∷ Names.get_physical_device_present_rectangles_khr ∷ []

abbrev surface_functions : List ℕ
surface_functions =
    Names.get_physical_device_surface_support_khr
    ∷ Names.get_physical_device_surface_capabilities_khr
    ∷ Names.get_physical_device_surface_formats_khr
    ∷ Names.get_physical_device_surface_present_modes_khr ∷ Names.destroy_surface_khr ∷ []

abbrev capabilities2_functions : List ℕ
capabilities2_functions =
    Names.get_physical_device_surface_capabilities2_khr
    ∷ Names.get_physical_device_surface_formats2_khr ∷ []

-- What the instance's surface extensions give for a name: the function of a platform, which is the
-- argument `wsi_func`, else the layer's, else null.
unfoldable pub surface_function : (ℕ → ℕ) → ℕ → InstanceData → ℕ → ℕ
unfolding is_instance_extension_enabled
surface_function wrapper wsi_func d n =
    if is_instance_extension_enabled vk_khr_surface d
    then (if wsi_func == 0
        then (if one_of n surface_functions
            then wrapper n
            else (if is_instance_extension_enabled vk_khr_get_surface_capabilities_2 d
                  && one_of n capabilities2_functions
                then wrapper n
                else 0))
        else wsi_func)
    else 0

-- `vkGetInstanceProcAddr`, the names of the layer first. The layer's functions are not null.
unfoldable pub get_instance_proc_addr : (ℕ → ℕ) → ℕ → (ℕ → ℕ → ℕ) → InstanceData → ℕ → ℕ
unfolding surface_function is_instance_extension_enabled get_user_enabled_entrypoint
get_instance_proc_addr wrapper wsi_func call d n =
    if one_of n instance_functions
    then wrapper n
    else (if n == Names.get_physical_device_features2
        then wrapper Names.get_physical_device_features2_khr
        else (if is_instance_extension_enabled vk_khr_get_physical_device_properties_2 d
              && n == Names.get_physical_device_features2_khr
            then wrapper n
            else (if surface_function wrapper wsi_func d n == 0
                then get_user_enabled_entrypoint Names.get_instance_proc_addr call d.api_version n
                    d.table
                else surface_function wrapper wsi_func d n)))

-- The two features of the structures that `vkGetPhysicalDeviceFeatures2KHR` finds, each of which may
-- be missing, after the driver has written them: `compression_support` is that of the instance.
unfoldable pub get_physical_device_features2_khr :
    Bool → Bool → Option Bool × Option Bool → Option Bool × Option Bool
get_physical_device_features2_khr compression_control compression_support
      (compression, present_id) =
    (
      elim compression [
        | none ↦ none
        | some b ↦ some (if compression_control then compression_support else b)
      ],
      elim present_id [ none ↦ none | some b ↦ some true ],
    )
