-- ===== src/Wsi/System/Invariant/Steps.antt =====
-- wsi/swapchain_base.cpp: each step of a thread keeps the balance of semaphores, pool and images.
use rk_vulkan_wsi_layer.Prelude.{
  ℕ, ◌+◌, ◌-◌, ◌≤◌, ◌<◌, ◌≡◌, sym, ap, subst, false, List, [], ◌∷◌, some, arith, ◌==◌,
  if◌then◌else◌, length, sub_u32,
}
use rk_vulkan_wsi_layer.Vulkan.{shared_continuous_refresh, mode_eq, is_shared}
use rk_vulkan_wsi_layer.Util.RingBuffer.Queue.{Holds}
use rk_vulkan_wsi_layer.Util.TimedSemaphore.{TimedSemaphore, post}
use rk_vulkan_wsi_layer.Wsi.Swapchain.{
  Swapchain, SwapchainImage, PendingPresentRequest, Status, acquired, free, pending,
  max_swapchain_image_count,
}
use rk_vulkan_wsi_layer.Wsi.Swapchain.Images.{
  set_status, status_at, total, available, is_pending, total-set_status, total-disjoint,
  length-set_status,
}
use rk_vulkan_wsi_layer.Wsi.Swapchain.Present.{unpresent_mark}
use rk_vulkan_wsi_layer.Wsi.Headless.{ImageData}
use rk_vulkan_wsi_layer.Wsi.System.{System, Flip, waiting, woken, showing, owed, shown}
use rk_vulkan_wsi_layer.Wsi.System.Queue.{
  occurrences, pending_at, pending_status, pending_at-eq, pending_at-set_status,
}

abbrev pub held : Flip → List PendingPresentRequest
held (showing r) = r ∷ []
held _ = []

abbrev pub woken_count : Flip → ℕ
woken_count woken = 1
woken_count _ = 0

-- The pool holds `queue`, oldest first. The semaphores count what they should as long as no wake-up was
-- spurious.
pub record Balanced (s : System) (queue : List PendingPresentRequest) : Type 0 where
  pub no_refresh : mode_eq s.sc.present_mode shared_continuous_refresh ≡ false
  pub room : length s.sc.swapchain_images ≤ max_swapchain_image_count
  pub tokens :
      s.spurious ≡ 0
      → s.sc.free_image_semaphore.count + s.taken + s.unposted + s.lost
        ≡ total available s.sc.swapchain_images
  pub pool : Holds max_swapchain_image_count s.sc.pending_buffer_pool queue
  pub named :
      (i : ℕ)
      → occurrences i (held s.flip) + occurrences i queue ≡ pending_at s.sc.swapchain_images i
  pub waiting_requests :
      length (held s.flip) + length queue ≡ total is_pending s.sc.swapchain_images
  pub signals : s.spurious ≡ 0 → s.sc.page_flip_semaphore.count + woken_count s.flip ≡ length queue

module _ {s : System} {queue : List PendingPresentRequest} (b : Balanced s queue) where
  open b use {no_refresh, room, tokens, pool, named, waiting_requests, signals}

  -- No more than the images are counted.
  pub counts_le : total available s.sc.swapchain_images + total is_pending s.sc.swapchain_images ≤ 6
  counts_le = omega (arith, total-disjoint s.sc.swapchain_images)

  -- A count is taken of a free image semaphore that has one.
  pub takes-Balanced :
      (sem : TimedSemaphore)
      → (0 < s.sc.free_image_semaphore.count)
        × (sem ≡ record s.sc.free_image_semaphore {
          count = sub_u32 s.sc.free_image_semaphore.count 1;
        })
      → Balanced
          (record s { sc = record s.sc { free_image_semaphore = sem }; taken = s.taken + 1 })
          queue
  takes-Balanced sem (p, e) = record {
    no_refresh = no_refresh;
    room = room;
    tokens = λ z. rw e (omega (arith, tokens z, counts_le));
    pool = pool;
    named = named;
    waiting_requests = waiting_requests;
    signals = signals;
  }

  pub posts-Balanced :
      0 < s.unposted
      → Balanced
          (record s {
            sc = record s.sc { free_image_semaphore = post s.sc.free_image_semaphore };
            unposted = s.unposted - 1;
          })
          queue
  unfolding post
  posts-Balanced p = record {
    no_refresh = no_refresh;
    room = room;
    tokens = λ z. omega (arith, tokens z, counts_le);
    pool = pool;
    named = named;
    waiting_requests = waiting_requests;
    signals = signals;
  }

  pub wakes-Balanced :
      (sem : TimedSemaphore)
      → s.flip ≡ waiting
      → (0 < s.sc.page_flip_semaphore.count)
        × (sem
            ≡ record s.sc.page_flip_semaphore { count = sub_u32 s.sc.page_flip_semaphore.count 1 })
      → Balanced (record s { sc = record s.sc { page_flip_semaphore = sem }; flip = woken }) queue
  wakes-Balanced sem w (p, e) = record {
    no_refresh = no_refresh;
    room = room;
    tokens = tokens;
    pool = pool;
    named = λ i. ground (arith, named i);
    waiting_requests = ground arith;
    signals = λ z. rw e (ground (arith, signals z, counts_le));
  }

  -- What a change of one image's state does to the counts.
  module _ (i : ℕ) (o t : Status) (at : status_at s.sc.swapchain_images i ≡ some o) where
    abbrev changed : List (SwapchainImage ImageData)
    changed = set_status i t s.sc.swapchain_images

    pub changed_counts :
        (total available changed + available o
          ≡ total available s.sc.swapchain_images + available t)
        × (total is_pending changed + is_pending o
            ≡ total is_pending s.sc.swapchain_images + is_pending t)
        × (length changed ≡ length s.sc.swapchain_images)
    changed_counts = (
      total-set_status available s.sc.swapchain_images i o t at,
      total-set_status is_pending s.sc.swapchain_images i o t at,
      length-set_status s.sc.swapchain_images i t,
    )

    pub changed_pending :
        (j : ℕ)
        → pending_at changed j
          ≡ (if i == j then is_pending t else pending_at s.sc.swapchain_images j)
    changed_pending j = pending_at-set_status s.sc.swapchain_images i j o t at

  -- The state that `unpresent_image` gives an image.
  abbrev after_present : Status
  after_present = if is_shared s.sc.present_mode then acquired else free

  pub releases-Balanced :
      (i : ℕ)
      → status_at s.sc.swapchain_images i ≡ some acquired
      → Balanced (record s { sc = unpresent_mark i s.sc; unposted = s.unposted + owed s.sc }) queue
  unfolding unpresent_mark
  releases-Balanced i at =
      let c = changed_counts i acquired after_present at in
      let z : pending_at s.sc.swapchain_images i ≡ 0 = ap pending_status at in
      record {
        no_refresh = no_refresh;
        room = ground arith;
        tokens = λ y. ground (arith, tokens y);
        pool = pool;
        named = λ j. ground (arith, named j, changed_pending i acquired after_present at j);
        waiting_requests = ground arith;
        signals = signals;
      }

  -- The image that a request names is pending while the page flip thread holds the request.
  shown_pending :
      (req : PendingPresentRequest)
      → s.flip ≡ showing req
      → status_at s.sc.swapchain_images req.image_index ≡ some pending
  shown_pending req f = pending_at-eq _ (ground (arith, named req.image_index))

  shown-pool :
      (req : PendingPresentRequest) (sc : Swapchain ImageData)
      → (shown req sc).pending_buffer_pool ≡ sc.pending_buffer_pool
  unfolding shown
  shown-pool req sc = ground arith

  pub shows-Balanced :
      (req : PendingPresentRequest)
      → s.flip ≡ showing req
      → Balanced
          (record s { sc = shown req s.sc; flip = waiting; unposted = s.unposted + owed s.sc })
          queue
  unfolding shown
  shows-Balanced req f =
      let at = shown_pending req f in
      let c = changed_counts req.image_index pending after_present at in
      let z : pending_at s.sc.swapchain_images req.image_index ≡ 1 = ap pending_status at in
      record {
        no_refresh = ground arith;
        room = ground arith;
        tokens = λ y. ground (arith, tokens y);
        pool =
            subst (λ r. Holds max_swapchain_image_count r queue) (sym (shown-pool req s.sc)) pool;
        named = λ j.
            ground (arith, named j, changed_pending req.image_index pending after_present at j);
        waiting_requests = ground arith;
        signals = λ y. ground (arith, signals y);
      }
