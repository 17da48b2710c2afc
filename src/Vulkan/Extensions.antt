-- ===== src/Vulkan/Extensions.antt =====
-- The names of the extensions that the layer's code names, as distinct numbers: the code only tells
-- names apart. `no_extension` is the empty name.
use rk_vulkan_wsi_layer.Prelude.{ℕ}

abbrev pub no_extension : ℕ
no_extension = 0

abbrev pub vk_khr_surface : ℕ
vk_khr_surface = 1

abbrev pub vk_ext_headless_surface : ℕ
vk_ext_headless_surface = 2

abbrev pub vk_khr_wayland_surface : ℕ
vk_khr_wayland_surface = 3

abbrev pub vk_khr_display : ℕ
vk_khr_display = 4

abbrev pub vk_khr_get_surface_capabilities_2 : ℕ
vk_khr_get_surface_capabilities_2 = 5

abbrev pub vk_khr_get_physical_device_properties_2 : ℕ
vk_khr_get_physical_device_properties_2 = 6

abbrev pub vk_khr_device_group : ℕ
vk_khr_device_group = 7

abbrev pub vk_khr_external_fence_capabilities : ℕ
vk_khr_external_fence_capabilities = 8

abbrev pub vk_khr_external_memory_capabilities : ℕ
vk_khr_external_memory_capabilities = 9

abbrev pub vk_khr_swapchain : ℕ
vk_khr_swapchain = 10

abbrev pub vk_khr_shared_presentable_image : ℕ
vk_khr_shared_presentable_image = 11

abbrev pub vk_khr_external_memory_fd : ℕ
vk_khr_external_memory_fd = 12

abbrev pub vk_khr_bind_memory_2 : ℕ
vk_khr_bind_memory_2 = 13

abbrev pub vk_khr_external_fence_fd : ℕ
vk_khr_external_fence_fd = 14

abbrev pub vk_khr_external_semaphore_fd : ℕ
vk_khr_external_semaphore_fd = 15

abbrev pub vk_ext_image_drm_format_modifier : ℕ
vk_ext_image_drm_format_modifier = 16

abbrev pub vk_khr_sampler_ycbcr_conversion : ℕ
vk_khr_sampler_ycbcr_conversion = 17

abbrev pub vk_khr_maintenance1 : ℕ
vk_khr_maintenance1 = 18

abbrev pub vk_khr_get_memory_requirements_2 : ℕ
vk_khr_get_memory_requirements_2 = 19

abbrev pub vk_ext_swapchain_maintenance_1 : ℕ
vk_ext_swapchain_maintenance_1 = 20

abbrev pub vk_khr_external_fence : ℕ
vk_khr_external_fence = 21

abbrev pub vk_khr_external_semaphore : ℕ
vk_khr_external_semaphore = 22

abbrev pub vk_ext_frame_boundary : ℕ
vk_ext_frame_boundary = 23

abbrev pub vk_khr_external_semaphore_capabilities : ℕ
vk_khr_external_semaphore_capabilities = 24

abbrev pub vk_khr_image_format_list : ℕ
vk_khr_image_format_list = 25

abbrev pub vk_ext_external_memory_dma_buf : ℕ
vk_ext_external_memory_dma_buf = 26

abbrev pub vk_khr_external_memory : ℕ
vk_khr_external_memory = 27
