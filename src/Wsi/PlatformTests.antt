-- ===== src/Wsi/PlatformTests.antt =====
-- The display and wayland platforms on concrete inputs.
use rk_vulkan_wsi_layer.Prelude.{ℕ, List, ◌≡◌, refl, true, false, [], ◌∷◌, none, some, arith}
use rk_vulkan_wsi_layer.Vulkan.{success, error_out_of_host_memory}
use rk_vulkan_wsi_layer.Wsi.ExternalMemory.{ExternalMemory}
use rk_vulkan_wsi_layer.Wsi.Swapchain.{SwapchainImage, unallocated}
use rk_vulkan_wsi_layer.Wsi.Display.DrmDisplay.{Connector, Answers, DrmDisplay, make_display}
use rk_vulkan_wsi_layer.Wsi.Display.DrmDisplay.Choice.{Drives, Greatest, display_made}
use rk_vulkan_wsi_layer.Wsi.Wayland.{WaylandImageData, allocate_and_bind_swapchain_image}
use rk_vulkan_wsi_layer.Wsi.Wayland

-- A connector with two modes, one encoder that is missing and one that drives the second CRTC.
abbrev connector : Connector
connector = record {
  connected = true;
  encoders = none ∷ some 2 ∷ [];
  modes =
      record { hdisplay = 1920; vdisplay = 1080; vrefresh = 60; mode_type = 72 }
      ∷ record { hdisplay = 1280; vdisplay = 720; vrefresh = 60; mode_type = 64 }
      ∷ [];
}

abbrev kernel : Answers
kernel = record {
  opened = true;
  is_master = false;
  set_master = true;
  resources = some (31 ∷ 32 ∷ [], none ∷ some connector ∷ []);
  mode_pushed = λ m. true;
  modes_created = true;
  universal_planes = true;
  plane_resources = some (
      some (record {
        properties =
            some (
              some (record { is_type = true; is_in_formats = false; value = 1; blob = none }) ∷ []);
        formats = 875713112 ∷ [];
      })
      ∷ []);
  supports_fb_modifiers = false;
  format_pushed = λ f. true;
}

abbrev drm_display : DrmDisplay
drm_display = record {
  crtc_id = 32;
  connector = connector;
  display_formats = (875713112, 0) ∷ [];
  all_modes =
      record {
        drm_mode = record { hdisplay = 1920; vdisplay = 1080; vrefresh = 60; mode_type = 72 };
        preferred = false;
      }
      ∷ record {
        drm_mode = record { hdisplay = 1280; vdisplay = 720; vrefresh = 60; mode_type = 64 };
        preferred = false;
      }
      ∷ [];
  max_width = 1920;
  max_height = 1080;
  fb_modifiers = false;
}

display_made_example :
    (connector.connected ≡ true)
    × Drives (31 ∷ 32 ∷ []) connector.encoders 32
    × Greatest (1920, 1080) connector.modes
unfolding make_display
display_made_example =
    display_made kernel drm_display (31 ∷ 32 ∷ []) (none ∷ some connector ∷ []) refl refl
      ((omega arith, omega arith), ((omega arith, omega arith), tt))

abbrev memory : ExternalMemory
memory = record {
  buffer_fds = [];
  strides = [];
  offsets = [];
  memories = [];
  num_planes = 0;
  num_memories = 0;
}

abbrev image_data : WaylandImageData
image_data = record { buffer = 0; external_mem = memory; present_fence = none }

abbrev image : SwapchainImage WaylandImageData
image = record {
  image_data = some image_data;
  image = 41;
  status = unallocated;
  present_semaphore = 0;
  present_fence_wait = 0;
}

-- The compositor refuses the listener of the buffer.
abbrev refusing : Wayland.Answers
refusing = record {
  allocate = λ m. (success, m);
  buffer_handle = 51;
  listener_added = false;
  import_and_bind = λ m. (success, m);
  create_fence = success;
  fence_handle = 61;
}

abbrev without_memory : Wayland.Answers
without_memory = record refusing { allocate = λ m. (error_out_of_host_memory, m) }

abbrev three_modes : List ℕ
three_modes = 1 ∷ 2 ∷ 3 ∷ []

abbrev empty_slots : List ℕ
empty_slots = 0 ∷ 0 ∷ 0 ∷ []
