-- ===== src/Wsi/WaylandTests.antt =====
-- The presentation to a Wayland compositor on concrete inputs.
use rk_vulkan_wsi_layer.Prelude.{◌≡◌, refl, Bool, true, false, List, [], ◌∷◌, some}
use rk_vulkan_wsi_layer.Vulkan.{success, fifo}
use rk_vulkan_wsi_layer.Util.RingBuffer.{empty}
use rk_vulkan_wsi_layer.Wsi.Swapchain.{PendingPresentRequest, pending}
use rk_vulkan_wsi_layer.Wsi.ExternalMemory.{ExternalMemory}
use rk_vulkan_wsi_layer.Wsi.Wayland.{WaylandImageData, events, wait_next_frame_event}
use rk_vulkan_wsi_layer.Wsi.Wayland.Present.{
  Chain, PresentAnswers, Request, image_data_at, present_image,
}
use rk_vulkan_wsi_layer.Wsi.Wayland.PresentOutcome.{Presented, presentation_committed}

abbrev memory : ExternalMemory
memory = record {
  buffer_fds = [];
  strides = [];
  offsets = [];
  memories = [];
  num_planes = 1;
  num_memories = 1;
}

abbrev buffered : WaylandImageData
buffered = record {
  buffer = 12;
  external_mem = memory;
  present_fence = some (record { fence = 3; has_payload = true; payload_finished = false });
}

abbrev chain : Chain
chain = record {
  page_flip_thread_run = true;
  page_flip_semaphore = record { initialized = true; count = 0 };
  start_present_semaphore = 0;
  thread_sem_defined = true;
  first_present = false;
  pending_buffer_pool = empty 4;
  swapchain_images =
      record {
        image_data = some buffered;
        image = 77;
        status = pending;
        present_semaphore = 0;
        present_fence_wait = 0;
      }
      ∷ [];
  present_mode = fifo;
  present_modes = [];
  descendant = 0;
  ancestor = 0;
  queue = 0;
  error_state = success;
  free_image_semaphore = record { initialized = true; count = 0 };
  started_presenting = true;
  present_id = 0;
  frame_boundary_handler = record {
    handle_frame_boundary_events = false;
    current_frame_boundary_id = 0;
  };
  presentation_timing = [];
  timing_capacity = 0;
}

abbrev request : PendingPresentRequest
request = record { image_index = 0; present_id = 4 }

-- The frame comes with the second dispatch, and the listener of the next one cannot be added.
abbrev answers : PresentAnswers
answers = record {
  dispatches = (events, true) ∷ (events, false) ∷ [];
  export = success;
  fd = 9;
  fd_valid = true;
  proxy = true;
  callback = true;
  listener = false;
  flushed = true;
}

presentation_committed_example :
    (after : Chain) × (pending' : Bool) × (rs : List Request) × (present_image answers request chain
        true
      ≡ some (after, pending', rs))
    × Presented answers buffered request chain (true, false) after pending' rs
unfolding wait_next_frame_event image_data_at
presentation_committed_example =
    presentation_committed answers buffered request chain true (true, false) refl refl
