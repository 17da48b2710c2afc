-- ===== src/Wsi/System/Invariant/Images.antt =====
-- wsi/swapchain_base.cpp: an acquisition that holds a count finds an image, or fails to allocate one.
use rk_vulkan_wsi_layer.Prelude.{
  ℕ, ◌+◌, ◌<◌, ◌≡◌, refl, ◌∙◌, sym, ap, inl, inr, Bool, false, List, some, arith, length,
  Bool-cases,
}
use rk_vulkan_wsi_layer.Vulkan.{PresentMode, shared_continuous_refresh, mode_eq}
use rk_vulkan_wsi_layer.Util.TimedSemaphore.{Timespec}
use rk_vulkan_wsi_layer.Wsi.Swapchain.{
  SwapchainImage, PendingPresentRequest, Status, acquired, unallocated, error_has_occured,
}
use rk_vulkan_wsi_layer.Wsi.Swapchain.Images.{
  set_status, status_at, total, available, is_pending, is_destroyed, total-same, total-set_status,
  status_at-same, length-same, statuses,
}
use rk_vulkan_wsi_layer.Wsi.Swapchain.Wait.{Backend, Env}
use rk_vulkan_wsi_layer.Wsi.Swapchain.Acquire.{
  SignalAnswers, Scan, found, failed, exhausted, finish_scan, take_image,
}
use rk_vulkan_wsi_layer.Wsi.Swapchain.Scan.{Ends, scan-Ends}
use rk_vulkan_wsi_layer.Wsi.Swapchain.Present.{mode_listed, handle_switching_presentation_mode}
use rk_vulkan_wsi_layer.Wsi.Headless.{ImageData, Answers, headless}
use rk_vulkan_wsi_layer.Wsi.Headless.Lifetime.{headless-Allocates}
use rk_vulkan_wsi_layer.Wsi.System.{System, after_take}
use rk_vulkan_wsi_layer.Wsi.System.Queue.{pending_at, pending_status}
use rk_vulkan_wsi_layer.Wsi.System.Invariant.Steps.{Balanced, changed_counts, changed_pending}

available-not_pending : (s : Status) → available s ≡ 1 → is_pending s ≡ 0
available-not_pending s e = ground arith

module _ {s : System} {queue : List PendingPresentRequest} (b : Balanced s queue) where
  pub switches-Balanced :
      (m : PresentMode)
      → mode_eq m shared_continuous_refresh ≡ false
      → Balanced (record s { sc = (handle_switching_presentation_mode m s.sc).1 }) queue
  unfolding handle_switching_presentation_mode
  switches-Balanced m n = elim (Bool-cases (mode_listed m s.sc.present_modes)) [
    | inl y ↦
        rw (y, handle_switching_presentation_mode)
          (record {
            no_refresh = n;
            room = b.room;
            tokens = b.tokens;
            pool = b.pool;
            named = b.named;
            waiting_requests = b.waiting_requests;
            signals = b.signals;
          })
    | inr y ↦ rw (y, handle_switching_presentation_mode) b
  ]

  -- A count that is held proves that an image is available.
  pub taken-available : s.spurious ≡ 0 → 0 < s.taken → 0 < total available s.sc.swapchain_images
  taken-available y p = omega (arith, b.tokens y)

  module _ (ims : List (SwapchainImage ImageData)) (i : ℕ) (o t : Status)
      (at : status_at s.sc.swapchain_images i ≡ some o)
      (e : statuses ims ≡ statuses (set_status i t s.sc.swapchain_images)) where
    -- The images after the state of one of them has changed, up to what the states do not show.
    same_counts :
        (total available ims + available o ≡ total available s.sc.swapchain_images + available t)
        × (total is_pending ims + is_pending o
            ≡ total is_pending s.sc.swapchain_images + is_pending t)
        × (length ims ≡ length s.sc.swapchain_images)
    same_counts =
        let x = set_status i t s.sc.swapchain_images in
        rw (total-same ims x e available, total-same ims x e is_pending, length-same ims x e)
          (changed_counts b i o t at)

    destroyed_count :
        total is_destroyed ims + is_destroyed o
        ≡ total is_destroyed s.sc.swapchain_images + is_destroyed t
    destroyed_count =
        rw (total-same ims (set_status i t s.sc.swapchain_images) e is_destroyed)
          (total-set_status is_destroyed s.sc.swapchain_images i o t at)

    same_pending :
        is_pending o ≡ 0
        → is_pending t ≡ 0
        → (j : ℕ) → pending_at ims j ≡ pending_at s.sc.swapchain_images j
    same_pending z z' j =
        ap pending_status (status_at-same ims (set_status i t s.sc.swapchain_images) e j)
        ∙ ground (arith, changed_pending b i o t at j, ap pending_status at)

  module _ (B : Backend ImageData) (now : Timespec) (env : Env ImageData) (answers : SignalAnswers)
      (fence semaphore : Bool) (p : 0 < s.taken) where
    finish-Balanced :
        (r : Scan ImageData)
        → Ends s.sc.swapchain_images r
        → Balanced (after_take s (finish_scan B now env answers fence semaphore s.sc r)) queue
    unfolding finish_scan
    finish-Balanced (found i ims) (e, o, at, av) =
        let c = same_counts ims i o acquired at e in
        record {
          no_refresh = b.no_refresh;
          room = ground (arith, b.room);
          tokens = λ y. ground (arith, b.tokens y);
          pool = b.pool;
          named = λ j.
              b.named j
              ∙ sym (same_pending ims i o acquired at e (available-not_pending o av) refl j);
          waiting_requests = ground (arith, b.waiting_requests, available-not_pending o av);
          signals = b.signals;
        }
    finish-Balanced (failed r ims) (i, t, at, e, k, n) =
        let c = same_counts ims i unallocated t at e in
        let z : is_pending t ≡ 0 = ground arith in
        let d = destroyed_count ims i unallocated t at e in
        record {
          no_refresh = b.no_refresh;
          room = ground (arith, b.room);
          tokens = λ y. ground (arith, b.tokens y, d);
          pool = b.pool;
          named = λ j. b.named j ∙ sym (same_pending ims i unallocated t at e refl z j);
          waiting_requests = ground (arith, b.waiting_requests);
          signals = b.signals;
        }
    finish-Balanced (exhausted ims) (e, z) = record {
      no_refresh = b.no_refresh;
      room = rw (length-same ims s.sc.swapchain_images e) b.room;
      tokens = λ y. absurd (omega (arith, z, taken-available y p));
      pool = b.pool;
      named =
          λ j. b.named j ∙ sym (ap pending_status (status_at-same ims s.sc.swapchain_images e j));
      waiting_requests = rw (total-same ims s.sc.swapchain_images e is_pending) b.waiting_requests;
      signals = b.signals;
    }

  -- Under the lock of the image states an acquisition keeps the balance.
  pub marks-Balanced :
      (a : ℕ → Answers) (now : Timespec) (env : Env ImageData) (answers : SignalAnswers)
      (fence semaphore : Bool)
      → error_has_occured s.sc ≡ false
      → 0 < s.taken
      → Balanced (after_take s (take_image (headless a) now env answers fence semaphore s.sc)) queue
  unfolding take_image
  marks-Balanced a now env answers fence semaphore n p =
      rw (n, take_image)
        (finish-Balanced (headless a) now env answers fence semaphore p _ (
          scan-Ends (headless a).allocate_and_bind_swapchain_image (headless-Allocates a) 0
            s.sc.swapchain_images))
