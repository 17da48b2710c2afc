-- ===== src/Layer/PrivateData/Entrypoints.antt =====
-- layer/private_data.hpp: the layer's lists of entry points, without those of the experimental
-- build, and what they show to the application.
pub mod Names
use rk_vulkan_wsi_layer.Prelude.{
  ℕ, ◌≡◌, ◌≢◌, ◌<◌, ◌≤◌, Bool, true, false, List, [], ◌∷◌, arith, ◌∙◌, refl, if◌then◌else◌,
  get_elem?, Option, some,
}
use rk_vulkan_wsi_layer.Vulkan.{success}
use rk_vulkan_wsi_layer.Layer.PrivateData.Dispatch.{
  Entrypoint, api_version_1_0, api_version_1_1, api_version_max, populate, populate_device,
  set_user_enabled_extensions, get_fn, can_icds_create_swapchain, get_user_enabled_entrypoint,
  get_user_enabled_device_entrypoint,
}
use rk_vulkan_wsi_layer.Layer.PrivateData.Visible.{entrypoint_visible, fn_found, populate-find, mem}
use rk_vulkan_wsi_layer.Vulkan.Extensions.{
  no_extension, vk_khr_surface, vk_ext_headless_surface, vk_khr_wayland_surface, vk_khr_display,
  vk_khr_get_surface_capabilities_2, vk_khr_get_physical_device_properties_2, vk_khr_device_group,
  vk_khr_external_fence_capabilities, vk_khr_external_memory_capabilities, vk_khr_swapchain,
  vk_khr_shared_presentable_image, vk_khr_external_memory_fd, vk_khr_bind_memory_2,
  vk_khr_external_fence_fd, vk_khr_external_semaphore_fd, vk_ext_image_drm_format_modifier,
  vk_khr_sampler_ycbcr_conversion, vk_khr_maintenance1, vk_khr_get_memory_requirements_2,
  vk_ext_swapchain_maintenance_1,
}
use rk_vulkan_wsi_layer.Layer.PrivateData.Entrypoints.Names.{
  get_instance_proc_addr, destroy_instance, get_physical_device_properties,
  get_physical_device_image_format_properties, enumerate_device_extension_properties,
  destroy_surface_khr, get_physical_device_surface_capabilities_khr,
  get_physical_device_surface_formats_khr, get_physical_device_surface_present_modes_khr,
  get_physical_device_surface_support_khr, create_headless_surface_ext, create_wayland_surface_khr,
  create_display_plane_surface_khr, get_physical_device_surface_capabilities2_khr,
  get_physical_device_surface_formats2_khr, get_physical_device_image_format_properties2_khr,
  get_physical_device_format_properties2_khr, get_physical_device_features2_khr,
  get_physical_device_properties2_khr, get_physical_device_queue_family_properties2_khr,
  get_physical_device_memory_properties2_khr,
  get_physical_device_sparse_image_format_properties2_khr,
  get_physical_device_present_rectangles_khr, get_physical_device_external_fence_properties_khr,
  get_physical_device_external_buffer_properties_khr, get_device_proc_addr, get_device_queue,
  queue_submit, queue_wait_idle, create_command_pool, destroy_command_pool,
  allocate_command_buffers, free_command_buffers, reset_command_buffer, begin_command_buffer,
  end_command_buffer, create_image, destroy_image, get_image_memory_requirements, bind_image_memory,
  allocate_memory, free_memory, create_fence, destroy_fence, create_semaphore, destroy_semaphore,
  reset_fences, wait_for_fences, destroy_device, create_swapchain_khr, destroy_swapchain_khr,
  get_swapchain_images_khr, acquire_next_image_khr, queue_present_khr, get_swapchain_status_khr,
  acquire_next_image2_khr, get_device_group_surface_present_modes_khr,
  get_device_group_present_capabilities_khr, get_memory_fd_khr, get_memory_fd_properties_khr,
  bind_image_memory2_khr, bind_buffer_memory2_khr, get_fence_fd_khr, import_fence_fd_khr,
  import_semaphore_fd_khr, get_semaphore_fd_khr, get_image_drm_format_modifier_properties_ext,
  create_sampler_ycbcr_conversion_khr, destroy_sampler_ycbcr_conversion_khr, trim_command_pool_khr,
  get_image_memory_requirements2_khr, get_buffer_memory_requirements2_khr,
  get_image_sparse_memory_requirements2_khr, release_swapchain_images_ext,
}

-- An entry of a list, as the macro expands it.
abbrev entry : ℕ → ℕ → ℕ → Bool → Entrypoint
entry name ext_name api_version required = record {
  name = name;
  ext_name = ext_name;
  fn = 0;
  api_version = api_version;
  user_visible = false;
  required = required;
}

unfoldable pub instance_entrypoints : List Entrypoint
instance_entrypoints =
    entry get_instance_proc_addr no_extension api_version_1_0 true
    ∷ entry destroy_instance no_extension api_version_1_0 true
    ∷ entry get_physical_device_properties no_extension api_version_1_0 true
    ∷ entry get_physical_device_image_format_properties no_extension api_version_1_0 true
    ∷ entry enumerate_device_extension_properties no_extension api_version_1_0 true
    ∷ entry destroy_surface_khr vk_khr_surface api_version_max false
    ∷ entry get_physical_device_surface_capabilities_khr vk_khr_surface api_version_max false
    ∷ entry get_physical_device_surface_formats_khr vk_khr_surface api_version_max false
    ∷ entry get_physical_device_surface_present_modes_khr vk_khr_surface api_version_max false
    ∷ entry get_physical_device_surface_support_khr vk_khr_surface api_version_max false
    ∷ entry create_headless_surface_ext vk_ext_headless_surface api_version_max false
    ∷ entry create_wayland_surface_khr vk_khr_wayland_surface api_version_max false
    ∷ entry create_display_plane_surface_khr vk_khr_display api_version_max false
    ∷ entry get_physical_device_surface_capabilities2_khr vk_khr_get_surface_capabilities_2
        api_version_max false
    ∷ entry get_physical_device_surface_formats2_khr vk_khr_get_surface_capabilities_2
        api_version_max false
    ∷ entry get_physical_device_image_format_properties2_khr vk_khr_get_physical_device_properties_2
        api_version_1_1 false
    ∷ entry get_physical_device_format_properties2_khr vk_khr_get_physical_device_properties_2
        api_version_1_1 false
    ∷ entry get_physical_device_features2_khr vk_khr_get_physical_device_properties_2
        api_version_1_1 false
    ∷ entry get_physical_device_properties2_khr vk_khr_get_physical_device_properties_2
        api_version_1_1 false
    ∷ entry get_physical_device_queue_family_properties2_khr vk_khr_get_physical_device_properties_2
        api_version_1_1 false
    ∷ entry get_physical_device_memory_properties2_khr vk_khr_get_physical_device_properties_2
        api_version_1_1 false
    ∷ entry get_physical_device_sparse_image_format_properties2_khr
        vk_khr_get_physical_device_properties_2 api_version_1_1 false
    ∷ entry get_physical_device_present_rectangles_khr vk_khr_device_group api_version_1_1 false
    ∷ entry get_physical_device_external_fence_properties_khr vk_khr_external_fence_capabilities
        api_version_1_1 false
    ∷ entry get_physical_device_external_buffer_properties_khr vk_khr_external_memory_capabilities
        api_version_1_1 false
    ∷ []

unfoldable pub device_entrypoints : List Entrypoint
device_entrypoints =
    entry get_device_proc_addr no_extension api_version_1_0 true
    ∷ entry get_device_queue no_extension api_version_1_0 true
    ∷ entry queue_submit no_extension api_version_1_0 true
    ∷ entry queue_wait_idle no_extension api_version_1_0 true
    ∷ entry create_command_pool no_extension api_version_1_0 true
    ∷ entry destroy_command_pool no_extension api_version_1_0 true
    ∷ entry allocate_command_buffers no_extension api_version_1_0 true
    ∷ entry free_command_buffers no_extension api_version_1_0 true
    ∷ entry reset_command_buffer no_extension api_version_1_0 true
    ∷ entry begin_command_buffer no_extension api_version_1_0 true
    ∷ entry end_command_buffer no_extension api_version_1_0 true
    ∷ entry create_image no_extension api_version_1_0 true
    ∷ entry destroy_image no_extension api_version_1_0 true
    ∷ entry get_image_memory_requirements no_extension api_version_1_0 true
    ∷ entry bind_image_memory no_extension api_version_1_0 true
    ∷ entry allocate_memory no_extension api_version_1_0 true
    ∷ entry free_memory no_extension api_version_1_0 true
    ∷ entry create_fence no_extension api_version_1_0 true
    ∷ entry destroy_fence no_extension api_version_1_0 true
    ∷ entry create_semaphore no_extension api_version_1_0 true
    ∷ entry destroy_semaphore no_extension api_version_1_0 true
    ∷ entry reset_fences no_extension api_version_1_0 true
    ∷ entry wait_for_fences no_extension api_version_1_0 true
    ∷ entry destroy_device no_extension api_version_1_0 true
    ∷ entry create_swapchain_khr vk_khr_swapchain api_version_max false
    ∷ entry destroy_swapchain_khr vk_khr_swapchain api_version_max false
    ∷ entry get_swapchain_images_khr vk_khr_swapchain api_version_max false
    ∷ entry acquire_next_image_khr vk_khr_swapchain api_version_max false
    ∷ entry queue_present_khr vk_khr_swapchain api_version_max false
    ∷ entry get_swapchain_status_khr vk_khr_shared_presentable_image api_version_max false
    ∷ entry acquire_next_image2_khr vk_khr_device_group api_version_1_1 false
    ∷ entry get_device_group_surface_present_modes_khr vk_khr_device_group api_version_1_1 false
    ∷ entry get_device_group_present_capabilities_khr vk_khr_device_group api_version_1_1 false
    ∷ entry get_memory_fd_khr vk_khr_external_memory_fd api_version_max false
    ∷ entry get_memory_fd_properties_khr vk_khr_external_memory_fd api_version_max false
    ∷ entry bind_image_memory2_khr vk_khr_bind_memory_2 api_version_1_1 false
    ∷ entry bind_buffer_memory2_khr vk_khr_bind_memory_2 api_version_1_1 false
    ∷ entry get_fence_fd_khr vk_khr_external_fence_fd api_version_max false
    ∷ entry import_fence_fd_khr vk_khr_external_fence_fd api_version_max false
    ∷ entry import_semaphore_fd_khr vk_khr_external_semaphore_fd api_version_max false
    ∷ entry get_semaphore_fd_khr vk_khr_external_semaphore_fd api_version_max false
    ∷ entry get_image_drm_format_modifier_properties_ext vk_ext_image_drm_format_modifier
        api_version_max false
    ∷ entry create_sampler_ycbcr_conversion_khr vk_khr_sampler_ycbcr_conversion api_version_1_1
        false
    ∷ entry destroy_sampler_ycbcr_conversion_khr vk_khr_sampler_ycbcr_conversion api_version_1_1
        false
    ∷ entry trim_command_pool_khr vk_khr_maintenance1 api_version_1_1 false
    ∷ entry get_image_memory_requirements2_khr vk_khr_get_memory_requirements_2 api_version_1_1
        false
    ∷ entry get_buffer_memory_requirements2_khr vk_khr_get_memory_requirements_2 api_version_1_1
        false
    ∷ entry get_image_sparse_memory_requirements2_khr vk_khr_get_memory_requirements_2
        api_version_1_1 false
    ∷ entry release_swapchain_images_ext vk_ext_swapchain_maintenance_1 api_version_1_1 false
    ∷ []

-- The table holds the driver's `vkDestroyDevice`.
pub device_destroy_found :
    (get_proc : ℕ → ℕ) (allocated : ℕ → Bool) (exts : List ℕ)
    → (populate_device get_proc allocated device_entrypoints []).0 ≡ success
    → get_fn destroy_device (
        set_user_enabled_extensions exts
          (populate_device get_proc allocated device_entrypoints []).1)
      ≡ some (get_proc destroy_device)
unfolding populate_device device_entrypoints
device_destroy_found get_proc allocated exts h =
    fn_found get_proc allocated device_entrypoints exts destroy_device
      (entry destroy_device no_extension api_version_1_0 true) h refl

-- What the application gets by a name from the populated table of a device.
abbrev pub shown : (ℕ → ℕ) → (ℕ → Bool) → List ℕ → ℕ → (ℕ → ℕ → ℕ) → ℕ → ℕ
shown get_proc allocated exts api_version call n =
    get_user_enabled_device_entrypoint get_device_proc_addr call api_version n (
      set_user_enabled_extensions exts (populate_device get_proc allocated device_entrypoints []).1)

-- Once the dispatch table of a device has been populated successfully, `can_icds_create_swapchain`
-- says that the driver can create swapchains, also where the driver has no such function.
pub icds_always_create :
    (get_proc : ℕ → ℕ) (allocated : ℕ → Bool)
    → (populate_device get_proc allocated device_entrypoints []).0 ≡ success
    → can_icds_create_swapchain create_swapchain_khr
        (populate_device get_proc allocated device_entrypoints []).1
      ≡ true
unfolding can_icds_create_swapchain get_fn populate_device device_entrypoints
icds_always_create get_proc allocated h =
    rw
      (
        can_icds_create_swapchain,
        get_fn,
        populate-find get_proc allocated device_entrypoints [] create_swapchain_khr h,
      )
      refl

-- Once the dispatch table of a device has been populated successfully, an application that uses
-- version 1.1 or later, below the maximum, gets the driver's `vkReleaseSwapchainImagesEXT` whatever
-- extensions it has enabled, but `vkCreateSwapchainKHR` only where it has enabled the extension
-- VK_KHR_swapchain, and null otherwise.
pub release_images_shown :
    (get_proc : ℕ → ℕ) (allocated : ℕ → Bool)
    → (populate_device get_proc allocated device_entrypoints []).0 ≡ success
    → (exts : List ℕ) (api_version : ℕ) (call : ℕ → ℕ → ℕ) → api_version_1_1 ≤ api_version
    → api_version < api_version_max
    → (shown get_proc allocated exts api_version call release_swapchain_images_ext
        ≡ get_proc release_swapchain_images_ext)
      × (shown get_proc allocated exts api_version call create_swapchain_khr
          ≡ (if mem vk_khr_swapchain exts then get_proc create_swapchain_khr else 0))
unfolding get_user_enabled_device_entrypoint populate_device device_entrypoints
release_images_shown get_proc allocated h exts v call l m =
    let e =
      entrypoint_visible get_proc allocated device_entrypoints h exts v call get_device_proc_addr in
    (e release_swapchain_images_ext ∙ ground arith, e create_swapchain_khr ∙ ground arith)
