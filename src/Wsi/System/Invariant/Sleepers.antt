-- ===== src/Wsi/System/Invariant/Sleepers.antt =====
-- wsi/swapchain_base.cpp with util/timed_semaphore.cpp: a thread that was signalled at a semaphore of
-- the swapchain finds a count there.
use rk_vulkan_wsi_layer.Prelude.{
  ℕ, ◌+◌, ◌<◌, ◌≡◌, refl, ◌⊎◌, inl, inr, Bool, List, none, arith, Bool-cases,
}
use rk_vulkan_wsi_layer.Vulkan.{PresentMode, shared_continuous_refresh, mode_eq}
use rk_vulkan_wsi_layer.Util.TimedSemaphore.{TimedSemaphore, Timespec, post}
use rk_vulkan_wsi_layer.Util.TimedSemaphore.Waiters.{Waiter, signalled}
use rk_vulkan_wsi_layer.Wsi.Swapchain.{Swapchain, PendingPresentRequest, error_has_occured}
use rk_vulkan_wsi_layer.Wsi.Swapchain.Wait.{Backend, Env}
use rk_vulkan_wsi_layer.Wsi.Swapchain.Acquire.{
  SignalAnswers, Scan, found, failed, exhausted, finish_scan, take_image,
}
use rk_vulkan_wsi_layer.Wsi.Swapchain.Present.{
  mode_listed, handle_switching_presentation_mode, notify_presentation_engine, page_flip_take,
}
use rk_vulkan_wsi_layer.Wsi.Headless.{ImageData, Answers, headless}
use rk_vulkan_wsi_layer.Wsi.System.{System, after_take, posted, heard, shown, showing, waiting}
use rk_vulkan_wsi_layer.Wsi.System.Invariant.Steps.{Balanced, counts_le}

abbrev pub Ready : System → Type 0
Ready s =
    s.spurious ≡ 0
    → (s.acquirer ≡ signalled → 0 < s.sc.free_image_semaphore.count)
      × (s.flipper ≡ signalled → 0 < s.sc.page_flip_semaphore.count)

-- A semaphore that an operation leaves alone, or posts below the wrap-around.
abbrev Grown : TimedSemaphore → TimedSemaphore → Type 0
Grown old new = (new.count ≡ old.count) ⊎ (new.count ≡ old.count + 1)

heard-ready :
    (old new : TimedSemaphore) (w : Waiter)
    → Grown old new
    → (w ≡ signalled → 0 < old.count)
    → heard old new w ≡ signalled
    → 0 < new.count
heard-ready old new w (inr e) v h = omega (arith, e)
heard-ready old new w (inl e) v h = ground (arith, e)

module _ (s : System) where
  posted-Ready :
      (sc : Swapchain ImageData)
      → (s.spurious ≡ 0 → Grown s.sc.free_image_semaphore sc.free_image_semaphore)
      → (s.spurious ≡ 0 → Grown s.sc.page_flip_semaphore sc.page_flip_semaphore)
      → Ready s
      → Ready (posted s sc)
  posted-Ready sc g h w y = (
    heard-ready s.sc.free_image_semaphore sc.free_image_semaphore s.acquirer (g y) (w y).0,
    heard-ready s.sc.page_flip_semaphore sc.page_flip_semaphore s.flipper (h y) (w y).1,
  )

  pub posts-Ready :
      {queue : List PendingPresentRequest}
      → Balanced s queue
      → Ready s
      → Ready (posted s (record s.sc { free_image_semaphore = post s.sc.free_image_semaphore }))
  unfolding post
  posts-Ready b w =
      posted-Ready (record s.sc { free_image_semaphore = post s.sc.free_image_semaphore })
        (λ y. inr (omega (arith, b.tokens y, counts_le b))) (λ y. inl refl) w

  pub switches-Ready :
      (m : PresentMode)
      → Ready s
      → Ready (record s { sc = (handle_switching_presentation_mode m s.sc).1 })
  unfolding handle_switching_presentation_mode
  switches-Ready m w = elim (Bool-cases (mode_listed m s.sc.present_modes)) [
    | inl y ↦ rw (y, handle_switching_presentation_mode) w
    | inr y ↦ rw (y, handle_switching_presentation_mode) w
  ]

  pub shows-Ready :
      (req : PendingPresentRequest) (n : ℕ)
      → Ready s
      → Ready (record s { sc = shown req s.sc; flip = waiting; unposted = n })
  unfolding shown
  shows-Ready req n w y = (ground (arith, (w y).0), ground (arith, (w y).1))

  module _ (B : Backend ImageData) (now : Timespec) (env : Env ImageData) (answers : SignalAnswers)
      (fence semaphore : Bool) where
    finish-Ready :
        (r : Scan ImageData)
        → Ready s
        → Ready (after_take s (finish_scan B now env answers fence semaphore s.sc r))
    unfolding finish_scan
    finish-Ready (found i ims) w = w
    finish-Ready (failed r ims) w = w
    finish-Ready (exhausted ims) w = w

  module _ (a : ℕ → Answers) (now : Timespec) (env : Env ImageData) where
    pub marks-Ready :
        (answers : SignalAnswers) (fence semaphore : Bool)
        → Ready s
        → Ready (after_take s (take_image (headless a) now env answers fence semaphore s.sc))
    unfolding take_image
    marks-Ready answers fence semaphore w = elim (Bool-cases (error_has_occured s.sc)) [
      | inl y ↦ rw (y, take_image) w
      | inr n ↦ rw (n, take_image) (finish-Ready (headless a) now env answers fence semaphore _ w)
    ]

    pub pops-Ready :
        (req : PendingPresentRequest)
        → Ready s
        → Ready (record s { sc = (page_flip_take (headless a) now env s.sc).1; flip = showing req })
    unfolding page_flip_take
    pops-Ready req w = elim (Bool-cases (mode_eq s.sc.present_mode shared_continuous_refresh)) [
      | inl y ↦ rw (y, page_flip_take) w
      | inr y ↦ rw (y, page_flip_take) w
    ]

    module _ {queue : List PendingPresentRequest} (b : Balanced s queue) (started : Bool)
        (req : PendingPresentRequest) where
      abbrev after : Swapchain ImageData
      after = (notify_presentation_engine (headless a) now env started none req s.sc).2

      free-Grown : s.spurious ≡ 0 → Grown s.sc.free_image_semaphore after.free_image_semaphore
      unfolding notify_presentation_engine headless
      free-Grown y = ground (arith, b.tokens y, counts_le b)

      flip-Grown : s.spurious ≡ 0 → Grown s.sc.page_flip_semaphore after.page_flip_semaphore
      unfolding notify_presentation_engine headless
      flip-Grown y = ground (arith, b.signals y, b.waiting_requests, counts_le b)

      pub presents-Ready : Ready s → Ready (posted s after)
      presents-Ready w = posted-Ready after free-Grown flip-Grown w
