-- ===== src/Wsi/System/Invariant/Requests.antt =====
-- wsi/swapchain_base.cpp: requests enter the pending pool by a presentation and leave it by the page
-- flip thread, and the pool never overflows nor is it found empty.
use rk_vulkan_wsi_layer.Prelude.{
  ℕ, ◌+◌, ◌<◌, ◌≡◌, ◌≢◌, refl, sym, ◌∙◌, ap, inl, inr, Bool, true, false, List, [], ◌∷◌, ◌++◌, none,
  some, arith, if◌then◌else◌, Bool-cases, length-append, u32,
}
use rk_vulkan_wsi_layer.Vulkan.{shared_continuous_refresh, mode_eq, is_shared}
use rk_vulkan_wsi_layer.Util.RingBuffer.Queue.{push_back-Holds, pop_front-Holds, pop_front-empty}
use rk_vulkan_wsi_layer.Util.RingBuffer.{pop_front}
use rk_vulkan_wsi_layer.Util.TimedSemaphore.{Timespec}
use rk_vulkan_wsi_layer.Wsi.Swapchain.{
  PendingPresentRequest, Status, acquired, free, pending, max_swapchain_image_count,
}
use rk_vulkan_wsi_layer.Wsi.Swapchain.Images.{
  set_status, status_at, is_acquired, le-total, total-disjoint, set_status-set_status,
}
use rk_vulkan_wsi_layer.Wsi.Swapchain.Wait.{Env}
use rk_vulkan_wsi_layer.Wsi.Swapchain.Present.{
  page_flip_take, notify_presentation_engine, has_descendant_started_presenting,
}
use rk_vulkan_wsi_layer.Wsi.Headless.{ImageData, Answers, headless}
use rk_vulkan_wsi_layer.Wsi.System.{System, woken, showing}
use rk_vulkan_wsi_layer.Wsi.System.Queue.{occurrences-append, pending_at, pending_status}
use rk_vulkan_wsi_layer.Wsi.System.Invariant.Steps.{
  Balanced, counts_le, changed_counts, changed_pending,
}

some-eq : (x y : PendingPresentRequest) → some x ≡ some y → x ≡ y
some-eq x y e = cc

none-some : (x : PendingPresentRequest) → none ≢ some x
none-some x e = cc

module _ (a : ℕ → Answers) (now : Timespec) (env : Env ImageData) where
  popped :
      (s : System)
      → mode_eq s.sc.present_mode shared_continuous_refresh ≡ false
      → (page_flip_take (headless a) now env s.sc).0
        ≡ (pop_front max_swapchain_image_count s.sc.pending_buffer_pool).0
  unfolding page_flip_take
  popped s n = rw n refl

module _ (a : ℕ → Answers) (now : Timespec) (env : Env ImageData) {s : System} where
  -- A page flip thread that finds a request takes the oldest one.
  pub pops-Balanced :
      (queue : List PendingPresentRequest)
      → Balanced s queue
      → s.flip ≡ woken
      → (req : PendingPresentRequest) → (page_flip_take (headless a) now env s.sc).0 ≡ some req
      → (rest : List PendingPresentRequest) × (queue ≡ req ∷ rest)
        × Balanced
            (record s { sc = (page_flip_take (headless a) now env s.sc).1; flip = showing req })
            rest
  unfolding page_flip_take
  pops-Balanced [] b w req h =
      let e = pop_front-empty max_swapchain_image_count b.pool in
      let n : mode_eq s.sc.present_mode shared_continuous_refresh ≡ false = b.no_refresh in
      absurd (none-some req (sym (ap (λ x. x.0) e) ∙ (sym (popped a now env s n) ∙ h)))
  pops-Balanced (q ∷ rest) b w req h =
      let (e, k) = pop_front-Holds max_swapchain_image_count q rest b.pool in
      let n : mode_eq s.sc.present_mode shared_continuous_refresh ≡ false = b.no_refresh in
      let same : q ≡ req = some-eq q req (sym e ∙ (sym (popped a now env s n) ∙ h)) in
      (
        rest,
        ap (λ r. r ∷ rest) same,
        rw n (record {
          no_refresh = b.no_refresh;
          room = b.room;
          tokens = b.tokens;
          pool = k;
          named = λ i. ground (arith, same, b.named i);
          waiting_requests = ground (arith, b.waiting_requests);
          signals = λ y. ground (arith, b.signals y);
        }),
      )

  -- A woken page flip thread finds the oldest request.
  pub oldest_found :
      (queue : List PendingPresentRequest)
      → Balanced s queue
      → s.flip ≡ woken
      → s.spurious ≡ 0
      → (req : PendingPresentRequest) × (rest : List PendingPresentRequest) × (queue ≡ req ∷ rest)
        × ((page_flip_take (headless a) now env s.sc).0 ≡ some req)
  unfolding page_flip_take
  oldest_found [] b w y = absurd (ground (arith, b.signals y))
  oldest_found (req ∷ rest) b w y =
      let (e, h) = pop_front-Holds max_swapchain_image_count req rest b.pool in
      let n : mode_eq s.sc.present_mode shared_continuous_refresh ≡ false = b.no_refresh in
      (req, rest, refl, rw n e)

  module _ {queue : List PendingPresentRequest} (b : Balanced s queue) (started : Bool)
      (req : PendingPresentRequest)
      (at : status_at s.sc.swapchain_images req.image_index ≡ some acquired) where
    abbrev after_presents : System
    after_presents = record s {
      sc = (notify_presentation_engine (headless a) now env started none req s.sc).2;
    }

    was_not_pending : pending_at s.sc.swapchain_images req.image_index ≡ 0
    was_not_pending = ap pending_status at

    -- The image presented is acquired, so the pool has room for its request.
    pub pool_has_room : s.sc.pending_buffer_pool.size < max_swapchain_image_count
    pool_has_room = omega (
      arith,
      b.pool.len,
      b.waiting_requests,
      b.room,
      le-total is_acquired s.sc.swapchain_images req.image_index acquired at,
      total-disjoint s.sc.swapchain_images,
    )

    retired-Balanced :
        has_descendant_started_presenting started s.sc ≡ true → Balanced after_presents queue
    unfolding notify_presentation_engine
    retired-Balanced d =
        let c = changed_counts b req.image_index acquired free at in
        rw (d, notify_presentation_engine)
          (record {
            no_refresh = b.no_refresh;
            room = ground (arith, b.room);
            tokens = λ y. ground (arith, b.tokens y, counts_le b);
            pool = b.pool;
            named = λ j. ground (
              arith,
              was_not_pending,
              b.named j,
              changed_pending b req.image_index acquired free at j,
            );
            waiting_requests = ground (arith, b.waiting_requests);
            signals = b.signals;
          })

    queued-Balanced :
        has_descendant_started_presenting started s.sc ≡ false
        → s.sc.page_flip_thread_run ≡ true
        → Balanced after_presents (queue ++ req ∷ [])
    unfolding notify_presentation_engine
    queued-Balanced d t =
        let c = changed_counts b req.image_index acquired pending at in
        let (ok, h) = push_back-Holds max_swapchain_image_count b.pool req pool_has_room in
        rw (d, t, notify_presentation_engine)
          (record {
            no_refresh = b.no_refresh;
            room = ground (arith, b.room);
            tokens = λ y. ground (arith, b.tokens y);
            pool = h;
            named = λ j. ground (
              arith,
              was_not_pending,
              b.named j,
              occurrences-append j queue req,
              changed_pending b req.image_index acquired pending at j,
            );
            waiting_requests = ground (arith, b.waiting_requests, length-append queue (req ∷ []));
            signals = λ y. ground (
              arith,
              b.signals y,
              counts_le b,
              b.waiting_requests,
              length-append queue (req ∷ []),
            );
          })

    abbrev shown_status : Status
    shown_status = if is_shared s.sc.present_mode then acquired else free

    -- Without a page flip thread the request is presented at once.
    direct_fields :
        has_descendant_started_presenting started s.sc ≡ false
        → s.sc.page_flip_thread_run ≡ false
        → (after_presents.sc.present_mode ≡ s.sc.present_mode)
          × (after_presents.sc.pending_buffer_pool ≡ s.sc.pending_buffer_pool)
          × (after_presents.sc.swapchain_images
              ≡ set_status req.image_index shown_status s.sc.swapchain_images)
          × (after_presents.sc.free_image_semaphore.count ≡ (
              if is_shared s.sc.present_mode
              then s.sc.free_image_semaphore.count
              else u32 (s.sc.free_image_semaphore.count + 1)))
          × (after_presents.sc.page_flip_semaphore ≡ s.sc.page_flip_semaphore)
    unfolding notify_presentation_engine headless
    direct_fields d t =
        let e = set_status-set_status s.sc.swapchain_images req.image_index pending shown_status in
        ground arith

    direct-Balanced :
        has_descendant_started_presenting started s.sc ≡ false
        → s.sc.page_flip_thread_run ≡ false
        → Balanced after_presents queue
    direct-Balanced d t =
        let (m, p, i, f, g) = direct_fields d t in
        let c = changed_counts b req.image_index acquired shown_status at in
        record {
          no_refresh = rw m b.no_refresh;
          room = rw i (ground (arith, b.room));
          tokens = λ y. rw (i, f) (ground (arith, b.tokens y, counts_le b));
          pool = rw p b.pool;
          named = λ j. rw i (
              ground (
                arith,
                was_not_pending,
                b.named j,
                changed_pending b req.image_index acquired shown_status at j,
              ));
          waiting_requests = rw i (ground (arith, b.waiting_requests));
          signals = rw g b.signals;
        }

    -- A presentation keeps the balance, on each of its branches.
    pub presents-Balanced : (queue' : List PendingPresentRequest) × Balanced after_presents queue'
    presents-Balanced = elim (Bool-cases (has_descendant_started_presenting started s.sc)) [
      | inl d ↦ (queue, retired-Balanced d)
      | inr d ↦ elim (Bool-cases s.sc.page_flip_thread_run) [
        | inl t ↦ (queue ++ req ∷ [], queued-Balanced d t)
        | inr t ↦ (queue, direct-Balanced d t)
      ]
    ]
