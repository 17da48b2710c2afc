-- ===== src/Wsi/System/Promises/Tests.antt =====
-- Runs of the threads of a swapchain with two images.
use rk_vulkan_wsi_layer.Prelude.{
  ℕ, ◌+◌, ◌≤◌, ◌≡◌, refl, true, false, List, [], ◌∷◌, none, some, arith, length,
}
use rk_vulkan_wsi_layer.Vulkan.{success, fifo}
use rk_vulkan_wsi_layer.Util.RingBuffer.{empty, push_back}
use rk_vulkan_wsi_layer.Util.RingBuffer.Queue.{Holds}
use rk_vulkan_wsi_layer.Util.TimedSemaphore.{Timespec, TimedSemaphore, uint64_max}
use rk_vulkan_wsi_layer.Util.TimedSemaphore.Waiters.{idle, asleep}
use rk_vulkan_wsi_layer.Wsi.Swapchain.{
  SwapchainImage, PendingPresentRequest, free, acquired, pending, max_swapchain_image_count,
}
use rk_vulkan_wsi_layer.Wsi.Swapchain.Images.{status_at, total, available, is_pending}
use rk_vulkan_wsi_layer.Wsi.Swapchain.Wait.{Env}
use rk_vulkan_wsi_layer.Wsi.Swapchain.Acquire.{SignalAnswers, take_image, scan}
use rk_vulkan_wsi_layer.Wsi.Swapchain.Present.{notify_presentation_engine, page_flip_take}
use rk_vulkan_wsi_layer.Wsi.Headless.{ImageData, Answers, headless}
use rk_vulkan_wsi_layer.Wsi.System.{
  System, waiting, Reach, here, next, takes, marks, presents, sleeps_flip, wakes_flip, IsFresh,
  after_take, posted, flipper_woken,
}
use rk_vulkan_wsi_layer.Wsi.System.Queue.{occurrences}
use rk_vulkan_wsi_layer.Wsi.System.Invariant.{held}
use rk_vulkan_wsi_layer.Wsi.System.Promises.{
  Acquires, counts_match_images, acquisition_finds_image, pool_accepts_request, woken_finds_request,
  requests_name_pending_images,
}

abbrev pub answers : ℕ → Answers
answers i = record {
  data_created = true;
  allocate_memory = success;
  memory_handle = 7;
  bind_image_memory = success;
  create_fence = success;
  fence_handle = 8;
}

abbrev pub now : Timespec
now = record { tv_sec = 0; tv_nsec = 0 }

abbrev pub env : Env ImageData
env sc = (false, sc)

abbrev pub signals : SignalAnswers
signals = record {
  has_import = false;
  import_fence = success;
  import_semaphore = success;
  submit = λ f s. success;
}

abbrev pub image : SwapchainImage ImageData
image = record {
  image_data = none;
  image = 5;
  status = free;
  present_semaphore = 1;
  present_fence_wait = 2;
}

abbrev semaphore : ℕ → TimedSemaphore
semaphore n = record { initialized = true; count = n }

abbrev pub fresh : System
fresh = record {
  sc = record {
    page_flip_thread_run = true;
    page_flip_semaphore = semaphore 0;
    start_present_semaphore = 0;
    thread_sem_defined = true;
    first_present = true;
    pending_buffer_pool = empty max_swapchain_image_count;
    swapchain_images = image ∷ image ∷ [];
    present_mode = fifo;
    present_modes = fifo ∷ [];
    descendant = 0;
    ancestor = 0;
    queue = 3;
    error_state = success;
    free_image_semaphore = semaphore 2;
    started_presenting = false;
    present_id = 0;
    frame_boundary_handler = record {
      handle_frame_boundary_events = false;
      current_frame_boundary_id = 0;
    };
    presentation_timing = [];
    timing_capacity = 0;
  };
  taken = 0;
  unposted = 0;
  flip = waiting;
  lost = 0;
  acquirer = idle;
  flipper = idle;
  spurious = 0;
}

fresh-IsFresh : IsFresh fresh
fresh-IsFresh = record {
  no_refresh = refl;
  room = omega arith;
  all_available = refl;
  count = refl;
  pool = refl;
  no_signal = refl;
  none_taken = refl;
  none_unposted = refl;
  none_lost = refl;
  not_flipping = refl;
  no_acquirer = refl;
  no_flipper = refl;
}

-- The application acquires image 0 and presents it, and the page flip thread, which slept, is woken.
abbrev holding : System
holding = record fresh { sc = record fresh.sc { free_image_semaphore = semaphore 1 }; taken = 1 }

abbrev marked : System
marked = after_take holding (take_image (headless answers) now env signals false true holding.sc)

abbrev request : PendingPresentRequest
request = record { image_index = 0; present_id = 9 }

-- The page flip thread sleeps before the presentation.
abbrev sleeping : System
sleeping = record marked { flipper = asleep }

abbrev presented : System
presented =
    posted sleeping
      (notify_presentation_engine (headless answers) now env false none request sleeping.sc).2

abbrev flipping : System
flipping = flipper_woken presented

to_holding : Reach answers now env fresh holding
unfolding rk_vulkan_wsi_layer.Util.TimedSemaphore.wait_enter
to_holding = next here (takes 0 (semaphore 1) refl refl)

to_marked : Reach answers now env fresh marked
to_marked = next to_holding (marks signals false true (omega arith))

to_flipping : Reach answers now env fresh flipping
unfolding rk_vulkan_wsi_layer.Util.TimedSemaphore.wait_enter notify_presentation_engine take_image
    scan headless
to_flipping =
    next
      (next (next to_marked (sleeps_flip uint64_max none refl refl refl))
        (presents false request refl))
      (wakes_flip refl refl)

marked-acquired : status_at marked.sc.swapchain_images request.image_index ≡ some acquired
unfolding take_image scan headless
marked-acquired = refl

flipping-success : flipping.sc.error_state ≡ success
unfolding notify_presentation_engine take_image scan headless
flipping-success = refl

marked-success : marked.sc.error_state ≡ success
unfolding take_image scan headless
marked-success = refl

flipping-quiet : flipping.spurious ≡ 0
flipping-quiet = refl

counts_match_images_example :
    flipping.sc.free_image_semaphore.count + flipping.taken + flipping.unposted + flipping.lost
    ≡ total available flipping.sc.swapchain_images
counts_match_images_example =
    counts_match_images answers now env fresh-IsFresh to_flipping flipping-success flipping-quiet

acquisition_finds_image_example :
    Acquires holding.sc.swapchain_images
      (scan (headless answers).allocate_and_bind_swapchain_image 0 holding.sc.swapchain_images)
acquisition_finds_image_example =
    acquisition_finds_image answers now env fresh-IsFresh to_holding refl refl (omega arith)

pool_accepts_request_example :
    (push_back max_swapchain_image_count marked.sc.pending_buffer_pool request).0 ≡ true
pool_accepts_request_example =
    pool_accepts_request answers now env fresh-IsFresh to_marked marked-success request
      marked-acquired

woken_finds_request_example :
    (req : PendingPresentRequest) × ((page_flip_take (headless answers) now env flipping.sc).0
      ≡ some req)
    × (status_at flipping.sc.swapchain_images req.image_index ≡ some pending)
woken_finds_request_example =
    woken_finds_request answers now env fresh-IsFresh to_flipping flipping-success flipping-quiet
      refl

requests_name_pending_images_example :
    (queue : List PendingPresentRequest) × Holds max_swapchain_image_count
      flipping.sc.pending_buffer_pool queue
    × ((i : ℕ) → occurrences i (held flipping.flip) + occurrences i queue ≤ 1)
    × (length (held flipping.flip) + length queue ≡ total is_pending flipping.sc.swapchain_images)
requests_name_pending_images_example =
    requests_name_pending_images answers now env fresh-IsFresh to_flipping flipping-success
