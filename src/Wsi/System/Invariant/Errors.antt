-- ===== src/Wsi/System/Invariant/Errors.antt =====
-- wsi/swapchain_base.cpp: which operations set the error state of a swapchain.
use rk_vulkan_wsi_layer.Prelude.{ℕ, ◌≡◌, ◌≢◌, refl, Bool, none, arith, Bool-cases, inl, inr}
use rk_vulkan_wsi_layer.Vulkan.{VkResult, success, PresentMode}
use rk_vulkan_wsi_layer.Util.TimedSemaphore.{Timespec}
use rk_vulkan_wsi_layer.Wsi.Swapchain.{Swapchain, PendingPresentRequest, error_has_occured}
use rk_vulkan_wsi_layer.Wsi.Swapchain.Wait.{Backend, Env}
use rk_vulkan_wsi_layer.Wsi.Swapchain.Acquire.{
  SignalAnswers, Scan, found, failed, exhausted, finish_scan, take_image,
}
use rk_vulkan_wsi_layer.Wsi.Swapchain.Present.{
  mode_listed, handle_switching_presentation_mode, notify_presentation_engine, page_flip_take,
  page_flip_finish,
}
use rk_vulkan_wsi_layer.Wsi.Headless.{ImageData, Answers, headless}
use rk_vulkan_wsi_layer.Wsi.System.{shown}

module _ (sc : Swapchain ImageData) where
  pub error-switching :
      (m : PresentMode) → (handle_switching_presentation_mode m sc).1.error_state ≡ sc.error_state
  unfolding handle_switching_presentation_mode
  error-switching m = elim (Bool-cases (mode_listed m sc.present_modes)) [
    | inl y ↦ rw (y, handle_switching_presentation_mode)
    | inr y ↦ rw (y, handle_switching_presentation_mode)
  ]

  pub error-shown : (req : PendingPresentRequest) → (shown req sc).error_state ≡ sc.error_state
  unfolding shown
  error-shown req = ground arith

  module _ (B : Backend ImageData) (now : Timespec) (env : Env ImageData) (answers : SignalAnswers)
      (fence semaphore : Bool) where
    error-finish_scan :
        (r : Scan ImageData)
        → (finish_scan B now env answers fence semaphore sc r).2.error_state ≡ sc.error_state
    unfolding finish_scan
    error-finish_scan (found i ims) = refl
    error-finish_scan (failed r ims) = refl
    error-finish_scan (exhausted ims) = refl

    pub error-take_image :
        (take_image B now env answers fence semaphore sc).2.error_state ≡ sc.error_state
    unfolding take_image
    error-take_image = elim (Bool-cases (error_has_occured sc)) [
      | inl y ↦ rw (y, take_image)
      | inr n ↦ rw (n, take_image) (error-finish_scan _)
    ]

  module _ (a : ℕ → Answers) (now : Timespec) (env : Env ImageData) where
    pub error-notify :
        (started : Bool) (req : PendingPresentRequest)
        → (notify_presentation_engine (headless a) now env started none req sc).2.error_state
          ≡ sc.error_state
    unfolding notify_presentation_engine headless
    error-notify started req = ground arith

    pub error-page_flip_take :
        (page_flip_take (headless a) now env sc).1.error_state ≡ sc.error_state
    unfolding page_flip_take
    error-page_flip_take = ground arith

    -- A payload that fails is remembered as the swapchain's error.
    pub error-page_flip_finish :
        (r : VkResult) (req : PendingPresentRequest)
        → r ≢ success
        → (page_flip_finish (headless a) now env r none req sc).1.error_state ≡ r
    unfolding page_flip_finish
    error-page_flip_finish r req n = ground arith
