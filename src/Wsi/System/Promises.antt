-- ===== src/Wsi/System/Promises.antt =====
-- wsi/swapchain_base.cpp: what the threads of a swapchain may rely on after any steps, as long as no
-- error has occurred.
pub mod Tests
use rk_vulkan_wsi_layer.Prelude.{
  ℕ, ◌+◌, ◌≤◌, ◌<◌, ◌≡◌, refl, ◌∙◌, sym, subst, ◌≢◌, true, List, [], ◌∷◌, Option, none, some, arith,
  length,
}
use rk_vulkan_wsi_layer.Vulkan.{success}
use rk_vulkan_wsi_layer.Util.RingBuffer.{push_back}
use rk_vulkan_wsi_layer.Util.RingBuffer.Queue.{Holds, push_back-Holds}
use rk_vulkan_wsi_layer.Util.TimedSemaphore.{Timespec}
use rk_vulkan_wsi_layer.Wsi.Swapchain.{
  SwapchainImage, PendingPresentRequest, Status, acquired, pending, max_swapchain_image_count,
}
use rk_vulkan_wsi_layer.Wsi.Swapchain.Images.{
  status_at, set_status, total, available, is_pending, statuses,
}
use rk_vulkan_wsi_layer.Wsi.Swapchain.Wait.{Backend, Env}
use rk_vulkan_wsi_layer.Wsi.Swapchain.Present.{page_flip_take}
use rk_vulkan_wsi_layer.Wsi.Swapchain.Acquire.{Scan, found, failed, exhausted, scan}
use rk_vulkan_wsi_layer.Wsi.Swapchain.Scan.{Ends, scan-Ends}
use rk_vulkan_wsi_layer.Wsi.Headless.{ImageData, Answers, headless}
use rk_vulkan_wsi_layer.Wsi.Headless.Lifetime.{headless-Allocates}
use rk_vulkan_wsi_layer.Wsi.System.{System, Flip, waiting, woken, showing, Reach, IsFresh}
use rk_vulkan_wsi_layer.Wsi.System.Queue.{occurrences, pending_at, pending_status, pending_at-eq}
use rk_vulkan_wsi_layer.Wsi.System.Invariant.{Balanced, held, Reach-Inv}
use rk_vulkan_wsi_layer.Wsi.System.Invariant.Images.{taken-available}
use rk_vulkan_wsi_layer.Wsi.System.Invariant.Requests.{oldest_found, pool_has_room}

pending_status-le : (o : Option Status) → pending_status o ≤ 1
pending_status-le o = ground arith

first_pending :
    {s : System} (req : PendingPresentRequest) (rest : List PendingPresentRequest)
    → Balanced s (req ∷ rest)
    → status_at s.sc.swapchain_images req.image_index ≡ some pending
first_pending req rest b = pending_at-eq _ (ground (arith, b.named req.image_index))

-- The loop of an acquisition takes an available image, or stops at a failed allocation.
abbrev pub Acquires : List (SwapchainImage ImageData) → Scan ImageData → Type 0
Acquires ims (found i ims') =
    (s : Status) × (status_at ims i ≡ some s)
    × (available s ≡ 1)
    × (statuses ims' ≡ statuses (set_status i acquired ims))
Acquires ims (failed r ims') = r ≢ success
Acquires ims (exhausted ims') = ⊥

Ends-Acquires :
    (ims : List (SwapchainImage ImageData))
    → 0 < total available ims
    → (r : Scan ImageData) → Ends ims r
    → Acquires ims r
Ends-Acquires ims p (found i ims') (e, s, at, av) = (s, at, av, e)
Ends-Acquires ims p (failed r ims') (i, s, at, e, c, n) = n
Ends-Acquires ims p (exhausted ims') (e, z) = omega (arith, p, z)

module _ (a : ℕ → Answers) (now : Timespec) (env : Env ImageData) {s t : System} (f : IsFresh s)
    (r : Reach a now env s t) (ok : t.sc.error_state ≡ success) where
  -- In any state that the steps of the threads lead to, from a fresh swapchain, without an error and
  -- without a spurious wake-up, the count of the free image semaphore, the acquisitions that hold a
  -- count, the posts that are owed and the acquisitions that ended without an image and destroyed
  -- none add up to the number of images that can be acquired.
  pub counts_match_images :
      t.spurious ≡ 0
      → t.sc.free_image_semaphore.count + t.taken + t.unposted + t.lost
        ≡ total available t.sc.swapchain_images
  counts_match_images y = let (q, b, w) = Reach-Inv a now env f r ok in b.tokens y

  -- In any state that the steps of the threads lead to, from a fresh swapchain, without an error and
  -- without a spurious wake-up, an acquisition that holds a count, taken at once or after a sleep,
  -- finds an image that is free or not allocated and marks it as acquired, or it fails with the error
  -- of an allocation; it never gets to the end of the array.
  pub acquisition_finds_image :
      t.spurious ≡ 0
      → 0 < t.taken
      → Acquires t.sc.swapchain_images
          (scan (headless a).allocate_and_bind_swapchain_image 0 t.sc.swapchain_images)
  acquisition_finds_image y p =
      let (q, b, w) = Reach-Inv a now env f r ok in
      Ends-Acquires t.sc.swapchain_images (taken-available b y p)
        (scan (headless a).allocate_and_bind_swapchain_image 0 t.sc.swapchain_images)
        (scan-Ends (headless a).allocate_and_bind_swapchain_image (headless-Allocates a) 0
          t.sc.swapchain_images)

  -- In any state that the steps of the threads lead to, from a fresh swapchain and without an
  -- error, with or without spurious wake-ups, the pool accepts the request of any image that the
  -- application holds: the assertion after the push holds.
  pub pool_accepts_request :
      (req : PendingPresentRequest)
      → status_at t.sc.swapchain_images req.image_index ≡ some acquired
      → (push_back max_swapchain_image_count t.sc.pending_buffer_pool req).0 ≡ true
  pool_accepts_request req at =
      let (q, b, w) = Reach-Inv a now env f r ok in
      (push_back-Holds max_swapchain_image_count b.pool req
        (pool_has_room a now env b true req at)).0

  -- In any state that the steps of the threads lead to, from a fresh swapchain, without an error and
  -- without a spurious wake-up, the page flip thread, once it has taken a count at once or after a
  -- sleep that a post ended, finds a request, and the image that the request names is pending.
  pub woken_finds_request :
      t.spurious ≡ 0
      → t.flip ≡ woken
      → (req : PendingPresentRequest) × ((page_flip_take (headless a) now env t.sc).0 ≡ some req)
        × (status_at t.sc.swapchain_images req.image_index ≡ some pending)
  woken_finds_request y w =
      let (q, b, _) = Reach-Inv a now env f r ok in
      let (req, rest, c, e) = oldest_found a now env q b w y in
      (req, e, first_pending req rest (subst (Balanced t) c b))

  -- In any state that the steps of the threads lead to, from a fresh swapchain and without an
  -- error, with or without spurious wake-ups, the pool holds a queue of requests which, with the one
  -- that is being shown, names no image twice and has as many requests as images are pending.
  pub requests_name_pending_images :
      (queue : List PendingPresentRequest) × Holds max_swapchain_image_count
        t.sc.pending_buffer_pool queue
      × ((i : ℕ) → occurrences i (held t.flip) + occurrences i queue ≤ 1)
      × (length (held t.flip) + length queue ≡ total is_pending t.sc.swapchain_images)
  requests_name_pending_images =
      let (q, b, w) = Reach-Inv a now env f r ok in
      (
        q,
        b.pool,
        λ i. omega (arith, b.named i, pending_status-le (status_at t.sc.swapchain_images i)),
        b.waiting_requests,
      )
