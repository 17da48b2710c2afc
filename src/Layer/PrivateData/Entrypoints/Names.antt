-- ===== src/Layer/PrivateData/Entrypoints/Names.antt =====
-- layer/private_data.hpp: the names of the functions in the layer's lists of entry points, and of the further functions
-- that the layer intercepts, as distinct numbers. A name stands without its prefix `vk`.
use rk_vulkan_wsi_layer.Prelude.{ℕ}

abbrev pub get_instance_proc_addr : ℕ
get_instance_proc_addr = 100

abbrev pub destroy_instance : ℕ
destroy_instance = 101

abbrev pub get_physical_device_properties : ℕ
get_physical_device_properties = 102

abbrev pub get_physical_device_image_format_properties : ℕ
get_physical_device_image_format_properties = 103

abbrev pub enumerate_device_extension_properties : ℕ
enumerate_device_extension_properties = 104

abbrev pub destroy_surface_khr : ℕ
destroy_surface_khr = 105

abbrev pub get_physical_device_surface_capabilities_khr : ℕ
get_physical_device_surface_capabilities_khr = 106

abbrev pub get_physical_device_surface_formats_khr : ℕ
get_physical_device_surface_formats_khr = 107

abbrev pub get_physical_device_surface_present_modes_khr : ℕ
get_physical_device_surface_present_modes_khr = 108

abbrev pub get_physical_device_surface_support_khr : ℕ
get_physical_device_surface_support_khr = 109

abbrev pub create_headless_surface_ext : ℕ
create_headless_surface_ext = 110

abbrev pub create_wayland_surface_khr : ℕ
create_wayland_surface_khr = 111

abbrev pub create_display_plane_surface_khr : ℕ
create_display_plane_surface_khr = 112

abbrev pub get_physical_device_surface_capabilities2_khr : ℕ
get_physical_device_surface_capabilities2_khr = 113

abbrev pub get_physical_device_surface_formats2_khr : ℕ
get_physical_device_surface_formats2_khr = 114

abbrev pub get_physical_device_image_format_properties2_khr : ℕ
get_physical_device_image_format_properties2_khr = 115

abbrev pub get_physical_device_format_properties2_khr : ℕ
get_physical_device_format_properties2_khr = 116

abbrev pub get_physical_device_features2_khr : ℕ
get_physical_device_features2_khr = 117

abbrev pub get_physical_device_properties2_khr : ℕ
get_physical_device_properties2_khr = 118

abbrev pub get_physical_device_queue_family_properties2_khr : ℕ
get_physical_device_queue_family_properties2_khr = 119

abbrev pub get_physical_device_memory_properties2_khr : ℕ
get_physical_device_memory_properties2_khr = 120

abbrev pub get_physical_device_sparse_image_format_properties2_khr : ℕ
get_physical_device_sparse_image_format_properties2_khr = 121

abbrev pub get_physical_device_present_rectangles_khr : ℕ
get_physical_device_present_rectangles_khr = 122

abbrev pub get_physical_device_external_fence_properties_khr : ℕ
get_physical_device_external_fence_properties_khr = 123

abbrev pub get_physical_device_external_buffer_properties_khr : ℕ
get_physical_device_external_buffer_properties_khr = 124

abbrev pub get_device_proc_addr : ℕ
get_device_proc_addr = 125

abbrev pub get_device_queue : ℕ
get_device_queue = 126

abbrev pub queue_submit : ℕ
queue_submit = 127

abbrev pub queue_wait_idle : ℕ
queue_wait_idle = 128

abbrev pub create_command_pool : ℕ
create_command_pool = 129

abbrev pub destroy_command_pool : ℕ
destroy_command_pool = 130

abbrev pub allocate_command_buffers : ℕ
allocate_command_buffers = 131

abbrev pub free_command_buffers : ℕ
free_command_buffers = 132

abbrev pub reset_command_buffer : ℕ
reset_command_buffer = 133

abbrev pub begin_command_buffer : ℕ
begin_command_buffer = 134

abbrev pub end_command_buffer : ℕ
end_command_buffer = 135

abbrev pub create_image : ℕ
create_image = 136

abbrev pub destroy_image : ℕ
destroy_image = 137

abbrev pub get_image_memory_requirements : ℕ
get_image_memory_requirements = 138

abbrev pub bind_image_memory : ℕ
bind_image_memory = 139

abbrev pub allocate_memory : ℕ
allocate_memory = 140

abbrev pub free_memory : ℕ
free_memory = 141

abbrev pub create_fence : ℕ
create_fence = 142

abbrev pub destroy_fence : ℕ
destroy_fence = 143

abbrev pub create_semaphore : ℕ
create_semaphore = 144

abbrev pub destroy_semaphore : ℕ
destroy_semaphore = 145

abbrev pub reset_fences : ℕ
reset_fences = 146

abbrev pub wait_for_fences : ℕ
wait_for_fences = 147

abbrev pub destroy_device : ℕ
destroy_device = 148

abbrev pub create_swapchain_khr : ℕ
create_swapchain_khr = 149

abbrev pub destroy_swapchain_khr : ℕ
destroy_swapchain_khr = 150

abbrev pub get_swapchain_images_khr : ℕ
get_swapchain_images_khr = 151

abbrev pub acquire_next_image_khr : ℕ
acquire_next_image_khr = 152

abbrev pub queue_present_khr : ℕ
queue_present_khr = 153

abbrev pub get_swapchain_status_khr : ℕ
get_swapchain_status_khr = 154

abbrev pub acquire_next_image2_khr : ℕ
acquire_next_image2_khr = 155

abbrev pub get_device_group_surface_present_modes_khr : ℕ
get_device_group_surface_present_modes_khr = 156

abbrev pub get_device_group_present_capabilities_khr : ℕ
get_device_group_present_capabilities_khr = 157

abbrev pub get_memory_fd_khr : ℕ
get_memory_fd_khr = 158

abbrev pub get_memory_fd_properties_khr : ℕ
get_memory_fd_properties_khr = 159

abbrev pub bind_image_memory2_khr : ℕ
bind_image_memory2_khr = 160

abbrev pub bind_buffer_memory2_khr : ℕ
bind_buffer_memory2_khr = 161

abbrev pub get_fence_fd_khr : ℕ
get_fence_fd_khr = 162

abbrev pub import_fence_fd_khr : ℕ
import_fence_fd_khr = 163

abbrev pub import_semaphore_fd_khr : ℕ
import_semaphore_fd_khr = 164

abbrev pub get_semaphore_fd_khr : ℕ
get_semaphore_fd_khr = 165

abbrev pub get_image_drm_format_modifier_properties_ext : ℕ
get_image_drm_format_modifier_properties_ext = 166

abbrev pub create_sampler_ycbcr_conversion_khr : ℕ
create_sampler_ycbcr_conversion_khr = 167

abbrev pub destroy_sampler_ycbcr_conversion_khr : ℕ
destroy_sampler_ycbcr_conversion_khr = 168

abbrev pub trim_command_pool_khr : ℕ
trim_command_pool_khr = 169

abbrev pub get_image_memory_requirements2_khr : ℕ
get_image_memory_requirements2_khr = 170

abbrev pub get_buffer_memory_requirements2_khr : ℕ
get_buffer_memory_requirements2_khr = 171

abbrev pub get_image_sparse_memory_requirements2_khr : ℕ
get_image_sparse_memory_requirements2_khr = 172

abbrev pub release_swapchain_images_ext : ℕ
release_swapchain_images_ext = 173

abbrev pub create_instance : ℕ
create_instance = 174

abbrev pub create_device : ℕ
create_device = 175

abbrev pub bind_image_memory2 : ℕ
bind_image_memory2 = 176

abbrev pub get_physical_device_features2 : ℕ
get_physical_device_features2 = 177
