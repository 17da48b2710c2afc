-- ===== src/Wsi/Swapchain/Acquire.antt =====
-- wsi/swapchain_base.cpp: `acquire_next_image`.
use rk_vulkan_wsi_layer.Prelude.{
  ℕ, suc, Bool, true, false, List, [], ◌∷◌, ◌++◌, Option, none, some, if◌then◌else◌, ◌&&◌, not,
}
use rk_vulkan_wsi_layer.Vulkan.{
  VkResult, success, error_initialization_failed, error_out_of_host_memory,
  error_invalid_external_handle, is_success,
}
use rk_vulkan_wsi_layer.Util.TimedSemaphore.{Timespec}
use rk_vulkan_wsi_layer.Wsi.Swapchain.{
  Swapchain, SwapchainImage, Status, acquired, free, unallocated, error_has_occured,
}
use rk_vulkan_wsi_layer.Wsi.Swapchain.Images.{with_status}
use rk_vulkan_wsi_layer.Wsi.Swapchain.Wait.{Backend, Env, wait_for_free_buffer}

abbrev pub is_unallocated : Status → Bool
is_unallocated unallocated = true
is_unallocated _ = false

abbrev pub is_free : Status → Bool
is_free free = true
is_free _ = false

-- The error of a failed allocation, as the acquisition returns it.
abbrev pub allocation_error : VkResult → VkResult
allocation_error error_initialization_failed = error_out_of_host_memory
allocation_error r = r

-- How the loop over the images ends: at an image, at a failed allocation, or at the end of the array.
pub data Scan (D : Type 0) : Type 0 where
  found : ℕ → List (SwapchainImage D) → Scan D
  failed : VkResult → List (SwapchainImage D) → Scan D
  exhausted : List (SwapchainImage D) → Scan D

module _ {D : Type 0} where
  abbrev pub keep : SwapchainImage D → Scan D → Scan D
  keep im (found i ims) = found (suc i) (im ∷ ims)
  keep im (failed r ims) = failed r (im ∷ ims)
  keep im (exhausted ims) = exhausted (im ∷ ims)

  -- One round: the image after the allocation that may be needed, and the rest of the loop.
  abbrev pub round : VkResult × SwapchainImage D → List (SwapchainImage D) → Scan D → Scan D
  round (r, im) ims rest =
      if is_success r
      then (if is_free im.status then found 0 (with_status acquired im ∷ ims) else keep im rest)
      else failed (allocation_error r) (im ∷ ims)

  module _ (alloc : ℕ → SwapchainImage D → VkResult × SwapchainImage D) where
    -- The index is that of the first image of the list.
    unfoldable pub scan : ℕ → List (SwapchainImage D) → Scan D
    scan i [] = exhausted []
    scan i (im ∷ ims) =
        round (if is_unallocated im.status then alloc i im else (success, im)) ims
          (scan (suc i) ims)

-- The signals that an acquisition gives, and the handles that it passes to the queue.
pub data Signal : Type 0 where
  fence_imported semaphore_imported : Signal
  submitted : Bool → Bool → Signal

-- The answers of the driver: whether both import functions exist, what they answer, and what a
-- submission with the given handles answers.
pub record SignalAnswers : Type 0 where
  pub has_import : Bool
  pub import_fence : VkResult
  pub import_semaphore : VkResult
  pub submit : Bool → Bool → VkResult

-- An import of a handle that is or is not null: it stops the call, or leaves the handle or clears it.
pub data Import : Type 0 where
  stops : VkResult → Import
  leaves : Bool → Import

abbrev imported : VkResult → Import
imported success = leaves false
imported error_invalid_external_handle = leaves true
imported r = stops r

abbrev import_fd : SignalAnswers → VkResult → Bool → Import
import_fd a r given = if a.has_import && given then imported r else leaves given

abbrev import_trace : Signal → Bool → Bool → List Signal
import_trace s given left = if given && not left then s ∷ [] else []

submit_rest : SignalAnswers → List Signal → Bool → Bool → VkResult × List Signal
submit_rest a done fence semaphore = (
  a.submit fence semaphore,
  if is_success (a.submit fence semaphore) then done ++ submitted fence semaphore ∷ [] else done,
)

import_semaphore_step : SignalAnswers → List Signal → Bool → Bool → VkResult × List Signal
unfolding submit_rest
import_semaphore_step a done fence semaphore = elim (import_fd a a.import_semaphore semaphore) [
  | stops r ↦ (r, done)
  | leaves left ↦ submit_rest a (done ++ import_trace semaphore_imported semaphore left) fence left
]

-- The end of the call, with the handles that are not null. The signals given are listed.
unfoldable pub signal_acquired : SignalAnswers → Bool → Bool → VkResult × List Signal
unfolding import_semaphore_step
signal_acquired a fence semaphore = elim (import_fd a a.import_fence fence) [
  | stops r ↦ (r, [])
  | leaves left ↦ import_semaphore_step a (import_trace fence_imported fence left) left semaphore
]

module _ {D : Type 0} (B : Backend D) (now : Timespec) (env : Env D) where
  unfoldable pub finish_scan :
      SignalAnswers → Bool → Bool → Swapchain D → Scan D → VkResult × Option ℕ × Swapchain D
  finish_scan a fence semaphore sc (found i ims) =
      ((signal_acquired a fence semaphore).0, some i, record sc { swapchain_images = ims })
  finish_scan a fence semaphore sc (failed r ims) = (r, none, record sc { swapchain_images = ims })
  -- Excluded by an assertion; without it the index is not written.
  finish_scan a fence semaphore sc (exhausted ims) =
      ((signal_acquired a fence semaphore).0, none, record sc { swapchain_images = ims })

  -- The part under the lock of the image states, once a free image was waited for.
  unfoldable pub take_image :
      SignalAnswers → Bool → Bool → Swapchain D → VkResult × Option ℕ × Swapchain D
  unfolding finish_scan
  take_image a fence semaphore sc =
      if error_has_occured sc
      then (sc.error_state, none, sc)
      else finish_scan a fence semaphore sc
          (scan B.allocate_and_bind_swapchain_image 0 sc.swapchain_images)

  after_wait :
      SignalAnswers → Bool → Bool → VkResult × Swapchain D → VkResult × Option ℕ × Swapchain D
  unfolding take_image
  after_wait a fence semaphore (success, sc) = take_image a fence semaphore sc
  after_wait a fence semaphore (r, sc) = (r, none, sc)

  -- The result, the index written if any, and the swapchain.
  unfoldable pub acquire_next_image :
      ℕ → SignalAnswers → Bool → Bool → Swapchain D → VkResult × Option ℕ × Swapchain D
  unfolding after_wait
  acquire_next_image timeout a fence semaphore sc =
      after_wait a fence semaphore (wait_for_free_buffer now env B timeout sc)
