-- ===== src/Wsi/DisplaySwapchainTests.antt =====
-- The swapchain of a display on concrete inputs.
use rk_vulkan_wsi_layer.Prelude.{
  ℕ, suc, ◌≡◌, ◌≢◌, refl, inl, Bool, true, false, List, [], ◌∷◌, ◌++◌, none, some, ◌==◌, ltb, arith,
  length, if◌then◌else◌,
}
use rk_vulkan_wsi_layer.Vulkan.{success, error_initialization_failed, fifo}
use rk_vulkan_wsi_layer.Util.Wsialloc.{error_none, error_not_supported, WsiallocFormat}
use rk_vulkan_wsi_layer.Util.DrmUtils.{
  b8g8r8a8_unorm, vk_to_drm_format, row_of_vk, fourcc_format_table,
}
use rk_vulkan_wsi_layer.Util.DrmUtils.Numbering.{codes}
use rk_vulkan_wsi_layer.Util.RingBuffer.{empty}
use rk_vulkan_wsi_layer.Wsi.Swapchain.{PendingPresentRequest, pending, presented}
use rk_vulkan_wsi_layer.Wsi.ExternalMemory.{ExternalMemory}
use rk_vulkan_wsi_layer.Wsi.Display.DrmDisplay.{DrmDisplay, is_format_supported}
use rk_vulkan_wsi_layer.Wsi.Display.Swapchain
use rk_vulkan_wsi_layer.Wsi.Display.Swapchain.{
  DisplayImageData, Image, ImageInfo, ModifierProperties, ImageFormatProperties, FormatAnswers,
  Allocated,
}
use rk_vulkan_wsi_layer.Wsi.Display.Swapchain.Creation
use rk_vulkan_wsi_layer.Wsi.Display.Swapchain.Creation.{
  CreationAnswers, ImageCreation, settle_format,
}
use rk_vulkan_wsi_layer.Wsi.Display.Swapchain.Negotiation.{
  Supported, Among, settle_format-Supported,
}
use rk_vulkan_wsi_layer.Wsi.Display.Swapchain.Framebuffers.{Answers, create_framebuffer}
use rk_vulkan_wsi_layer.Wsi.Display.Swapchain.Calls.{opened, closed}
use rk_vulkan_wsi_layer.Wsi.Display.Swapchain.Released.{zeros, handles_closed}
use rk_vulkan_wsi_layer.Wsi.Display.Swapchain.Present.{
  Selected, interrupted, timed_out, ready, Kernel, IsSelect, flipped, wait_flip, Chain,
}
use rk_vulkan_wsi_layer.Wsi.Display.Swapchain.PageFlip.{timed_out_never_flips, interruptions_end}

abbrev display : DrmDisplay
display = record {
  crtc_id = 32;
  connector = record { connected = true; encoders = []; modes = [] };
  display_formats = (27, 0) ∷ [];
  all_modes = [];
  max_width = 1920;
  max_height = 1080;
  fb_modifiers = true;
}

abbrev memory : ExternalMemory
memory = record {
  buffer_fds = [];
  strides = [];
  offsets = [];
  memories = [];
  num_planes = 3;
  num_memories = 0;
}

abbrev data_ : DisplayImageData
data_ = record { external_mem = memory; fb_id = none; present_fence = none }

abbrev argb : WsiallocFormat
argb = record { fourcc = 27; modifier = 0; flags = 0 }

-- The allocator takes the first format that it is given.
abbrev allocate : List WsiallocFormat → Allocated
allocate [] = record {
  err = error_not_supported;
  format = argb;
  strides = [];
  offsets = [];
  buffer_fds = [];
  disjoint = false;
}
allocate (f ∷ fs) = record {
  err = error_none;
  format = f;
  strides = 7680 ∷ [];
  offsets = 0 ∷ [];
  buffer_fds = some 5 ∷ [];
  disjoint = false;
}

allocate-Among :
    (fs : List WsiallocFormat) → (allocate fs).err ≡ error_none → Among (allocate fs).format fs
allocate-Among [] e = cc
allocate-Among (f ∷ fs) e = inl refl

abbrev info : ImageInfo
info = record {
  format = codes.vk b8g8r8a8_unorm;
  width = 1920;
  height = 1080;
  depth = 1;
  mip_levels = 1;
  array_layers = 1;
  samples = 1;
  disjoint = false;
  modifier_tiling = false;
}

abbrev limits : ImageFormatProperties
limits = record {
  max_width = 4096;
  max_height = 4096;
  max_depth = 1;
  max_mip_levels = 1;
  max_array_layers = 1;
  sample_counts = 1;
  exportable = false;
  importable = true;
}

-- The driver has two modifiers, of which the display supports the second.
abbrev creation : CreationAnswers
creation = record {
  data_created = true;
  formats = record {
    resized = true;
    properties =
        record { modifier = 9; plane_count = 1; disjoint = false }
        ∷ record { modifier = 0; plane_count = 1; disjoint = false }
        ∷ [];
    image_properties = λ p. (success, limits);
    export_pushed = λ p. true;
    import_pushed = λ p. true;
  };
  allocate = allocate;
  layouts_resized = true;
  create_image = λ i. (success, 77);
}

abbrev unsettled : ImageCreation
unsettled = record { image_create_info = none; allocated_format = argb }

settle_format-Supported_example :
    Supported
      (λ f. is_format_supported f display)
      (settle_format codes
        (Swapchain.get_surface_compatible_formats codes info creation.formats (some display))
        creation
        info
        memory
        unsettled).2.allocated_format
unfolding settle_format Swapchain.get_surface_compatible_formats Swapchain.get_drm_format_properties
    Swapchain.push_modifiers Swapchain.push_modifier Swapchain.is_usable is_format_supported
    vk_to_drm_format row_of_vk fourcc_format_table Creation.settle_allocated
    Swapchain.allocate_wsialloc Creation.settle_with Creation.fill_image_create_info
settle_format-Supported_example =
    settle_format-Supported codes display creation info memory unsettled allocate-Among refl

-- The third plane cannot be converted.
abbrev answers : Answers
answers = record {
  list_pushed = true;
  allocate = allocate (argb ∷ []);
  prime_fd_to_handle = λ plane. if plane == 2 then none else some (suc plane);
  add_framebuffer = λ hs. some 40;
  import_and_bind = λ m. (error_initialization_failed, m);
  create_fence = success;
  fence_handle = 3;
}

handles_closed_example :
    closed (create_framebuffer (some display) argb answers data_).2
    ≡ opened (create_framebuffer (some display) argb answers data_).2
      ++ zeros (length (opened (create_framebuffer (some display) argb answers data_).2))
handles_closed_example = handles_closed display argb answers data_ (omega arith)

abbrev image : Image
image = record {
  image_data = some data_;
  image = 77;
  status = pending;
  present_semaphore = 0;
  present_fence_wait = 0;
}

-- `select` of a kernel that is interrupted twice and then times out in the round 3.
abbrev select : ℕ → Bool → Selected × Bool
select i false = (timed_out, false)
select i true =
    if ltb i 2 then (interrupted, true) else (if i == 3 then (timed_out, false) else (ready, true))

abbrev kernel : Kernel
kernel = record { set_crtc = true; page_flip = true; select = select; handle_event = λ i. true }

kernel-IsSelect : IsSelect kernel
kernel-IsSelect = record {
  empty_not_ready = λ i e. cc;
  timed_out_empty = timed_out_empty;
  interrupted_same = interrupted_same;
}
  where
    timed_out_empty : (i : ℕ) (b : Bool) → (select i b).0 ≡ timed_out → (select i b).1 ≡ false
    timed_out_empty i false e = refl
    timed_out_empty i true e = ground (arith, e)

    interrupted_same : (i : ℕ) (b : Bool) → (select i b).0 ≡ interrupted → (select i b).1 ≡ b
    interrupted_same i false e = refl
    interrupted_same i true e = ground (arith, e)

timed_out_never_flips_example : wait_flip kernel 5 3 true false ≢ some flipped
timed_out_never_flips_example = timed_out_never_flips kernel kernel-IsSelect 3 refl 5 false

interruptions_end_example : wait_flip kernel 3 0 true false ≡ some flipped
interruptions_end_example =
    interruptions_end kernel kernel-IsSelect 2 0 3 (λ j l. ground (arith, l)) refl refl
      (omega arith)

-- The first image is on the screen and the second is to be presented.
abbrev chain : Chain
chain = record {
  page_flip_thread_run = true;
  page_flip_semaphore = record { initialized = true; count = 0 };
  start_present_semaphore = 0;
  thread_sem_defined = true;
  first_present = false;
  pending_buffer_pool = empty 4;
  swapchain_images = record image { status = presented } ∷ image ∷ [];
  present_mode = fifo;
  present_modes = [];
  descendant = 0;
  ancestor = 0;
  queue = 0;
  error_state = success;
  free_image_semaphore = record { initialized = true; count = 0 };
  started_presenting = true;
  present_id = 0;
  frame_boundary_handler = record {
    handle_frame_boundary_events = false;
    current_frame_boundary_id = 0;
  };
  presentation_timing = [];
  timing_capacity = 0;
}

abbrev request : PendingPresentRequest
request = record { image_index = 1; present_id = 4 }
