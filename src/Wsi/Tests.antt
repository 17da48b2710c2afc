-- ===== src/Wsi/Tests.antt =====
-- Synchronization, frame boundaries and the images of a swapchain on concrete inputs.
use rk_vulkan_wsi_layer.Prelude.{
  ◌≡◌, ◌<◌, ◌+◌, ◌-◌, ◌==◌, if◌then◌else◌, refl, Bool, true, false, List, [], ◌∷◌, arith,
}
use rk_vulkan_wsi_layer.Vulkan.{success}
use rk_vulkan_wsi_layer.Util.Helpers.{frame_boundary, Chain}
use rk_vulkan_wsi_layer.Wsi.FrameBoundary.{FrameBoundaryHandler, Payload, boundary, layer_boundary}
use rk_vulkan_wsi_layer.Wsi.Synchronization.{FenceSync}
use rk_vulkan_wsi_layer.Wsi.Swapchain.{
  Swapchain, SwapchainImage, acquired, pending, free, unallocated, PresentationEntry,
}
use rk_vulkan_wsi_layer.Wsi.Swapchain.Wait.{
  Env, Shows, not_acquired, wait_for_pending_buffers, with_free_count,
  wait_for_pending_buffers_ends,
}
use rk_vulkan_wsi_layer.Wsi.Swapchain.Images.{total, is_pending}
use rk_vulkan_wsi_layer.Wsi.Swapchain.Acquire.{signal_acquired, scan}
use rk_vulkan_wsi_layer.Wsi.Swapchain.Scan.{Ends, scan-Ends}
use rk_vulkan_wsi_layer.Wsi.Headless.{ImageData, headless}
use rk_vulkan_wsi_layer.Wsi.Headless.Lifetime.{headless-Allocates}
use rk_vulkan_wsi_layer.Wsi.System.Promises.Tests.{answers, now, signals, image, fresh}

abbrev pub handler : FrameBoundaryHandler
handler = record { handle_frame_boundary_events = true; current_frame_boundary_id = 41 }

abbrev application_chain : Chain Payload
application_chain = (frame_boundary, boundary (layer_boundary 3 5)) ∷ []

abbrev fence : FenceSync
fence = record { fence = 4; has_payload = true; payload_finished = false }

signal_success : (signal_acquired signals true true).0 ≡ success
unfolding signal_acquired
signal_success = refl

abbrev pub deferred : SwapchainImage ImageData
deferred = record image { status = unallocated }

scan-Ends_example : Ends (record image { status = acquired } ∷ deferred ∷ []) (
    scan
      (headless answers).allocate_and_bind_swapchain_image
      0
      (record image { status = acquired } ∷ deferred ∷ []))
scan-Ends_example =
    scan-Ends (headless answers).allocate_and_bind_swapchain_image (headless-Allocates answers) 0
      (record image { status = acquired } ∷ deferred ∷ [])

-- The page flip thread shows the first pending image while the wait sleeps, and posts.
abbrev show_first : List (SwapchainImage ImageData) → List (SwapchainImage ImageData)
show_first [] = []
show_first (im ∷ ims) =
    if is_pending im.status == 1 then record im { status = free } ∷ ims else im ∷ show_first ims

abbrev showing_env : Env ImageData
showing_env sc =
    (false, with_free_count 1 (record sc { swapchain_images = show_first sc.swapchain_images }))

show_first_lem :
    (ims : List (SwapchainImage ImageData))
    → 0 < total is_pending ims
    → total is_pending (show_first ims) + 1 ≡ total is_pending ims
show_first_lem [] p = omega (arith, p)
show_first_lem (im ∷ ims) p = ground (arith, show_first_lem ims)

showing_env-Shows : Shows now showing_env (headless answers)
unfolding headless
showing_env-Shows = record {
  no_buffer = refl;
  in_time = λ sc. refl;
  posted = λ sc z p. refl;
  one_shown = λ sc z p. show_first_lem sc.swapchain_images p;
}

-- One image is acquired and two are pending; no count is left.
abbrev both_pending : Swapchain ImageData
both_pending = record fresh.sc {
  swapchain_images =
      record image { status = acquired }
      ∷ record image { status = pending }
      ∷ record image { status = pending }
      ∷ [];
  free_image_semaphore = record { initialized = true; count = 0 };
}

abbrev waited : Swapchain ImageData
waited = wait_for_pending_buffers now showing_env (headless answers) both_pending

wait_for_pending_buffers_ends_example :
    (waited.free_image_semaphore.count
      ≡ both_pending.free_image_semaphore.count
        - (total not_acquired both_pending.swapchain_images - 1))
    × (total is_pending waited.swapchain_images
          + (total not_acquired both_pending.swapchain_images
              - 1
              - both_pending.free_image_semaphore.count)
        ≡ total is_pending both_pending.swapchain_images)
wait_for_pending_buffers_ends_example =
    wait_for_pending_buffers_ends now showing_env (headless answers) showing_env-Shows both_pending
      (omega arith) (omega arith)

abbrev entry : Bool → PresentationEntry
entry b = record { is_outstanding = b; present_id = 1 }

abbrev timed : Swapchain ImageData
timed = record fresh.sc { presentation_timing = entry true ∷ entry false ∷ []; timing_capacity = 2 }

abbrev both_acquired : Swapchain ImageData
both_acquired = record fresh.sc {
  swapchain_images = record image { status = acquired } ∷ record image { status = acquired } ∷ [];
  free_image_semaphore = record { initialized = true; count = 0 };
}
