-- ===== src/Wsi/Swapchain/Wait.antt =====
-- wsi/swapchain_base.cpp: waiting for a free image. What other threads do to the swapchain while a
-- call sleeps, and whether the sleep times out, is the argument `env`.
use rk_vulkan_wsi_layer.Prelude.{
  ℕ, zero, suc, ◌-◌, ◌^◌, ◌≤◌, ◌<◌, ◌≡◌, refl, ◌+◌, Bool, false, ◌==◌, List, [], ◌∷◌, arith, length,
  Bool-cases, inl, inr,
}
use rk_vulkan_wsi_layer.Vulkan.{VkResult, success, not_ready}
use rk_vulkan_wsi_layer.Util.TimedSemaphore.{
  Timespec, done, sleeps, wait_enter, wait_wake, uint64_max,
}
use rk_vulkan_wsi_layer.Wsi.Swapchain.{
  Swapchain, SwapchainImage, PendingPresentRequest, Status, acquired,
}
use rk_vulkan_wsi_layer.Wsi.Swapchain.Images.{total, is_acquired, is_pending}

-- The virtual functions of a platform. What they do beside the swapchain is not described.
pub record Backend (D : Type 0) : Type 0 where
  -- The index is that of the image in the array.
  pub allocate_and_bind_swapchain_image : ℕ → SwapchainImage D → VkResult × SwapchainImage D
  pub destroy_image : SwapchainImage D → SwapchainImage D
  pub present_image : PendingPresentRequest → Swapchain D → Swapchain D
  -- The result, and the timeout that is left.
  pub get_free_buffer : ℕ → VkResult × ℕ

-- The swapchain with another value of the semaphore of free images.
abbrev pub with_free_count : {D : Type 0} → ℕ → Swapchain D → Swapchain D
with_free_count n sc = record sc {
  free_image_semaphore = record { initialized = sc.free_image_semaphore.initialized; count = n };
}

abbrev pub Env : Type 0 → Type 0
Env D = Swapchain D → Bool × Swapchain D

-- The images that are not acquired.
abbrev pub not_acquired : Status → ℕ
not_acquired acquired = 0
not_acquired _ = 1

acquired_or_not :
    {D : Type 0}
    → (ims : List (SwapchainImage D)) → total not_acquired ims + total is_acquired ims ≡ length ims
acquired_or_not [] = refl
acquired_or_not (im ∷ ims) = ground (arith, acquired_or_not ims)

module _ {D : Type 0} (now : Timespec) (env : Env D) where
  woken : Bool × Swapchain D → VkResult × Swapchain D
  woken (timed_out, sc) =
      let (r, s) = wait_wake timed_out sc.free_image_semaphore in
      (r, record sc { free_image_semaphore = s })

  -- `m_free_image_semaphore.wait(timeout)`.
  pub wait_free : ℕ → Swapchain D → VkResult × Swapchain D
  unfolding woken
  wait_free t sc = elim (wait_enter now t sc.free_image_semaphore) [
    | done r s ↦ (r, record sc { free_image_semaphore = s })
    | sleeps d ↦ woken (env sc)
  ]

  wait_free_none :
      (sc : Swapchain D) → sc.free_image_semaphore.count ≡ 0 → wait_free 0 sc ≡ (not_ready, sc)
  unfolding wait_free wait_enter
  wait_free_none sc z = ground (arith, z)

  wait_free_sleeps :
      (sc : Swapchain D)
      → sc.free_image_semaphore.count ≡ 0
      → wait_free uint64_max sc ≡ woken (env sc)
  unfolding wait_free wait_enter
  wait_free_sleeps sc z = ground (arith, z)

  woken_posted :
      (w : Bool × Swapchain D)
      → w.0 ≡ false
      → w.1.free_image_semaphore.count ≡ 1
      → (woken w).1 ≡ with_free_count 0 w.1
  unfolding woken wait_wake
  woken_posted w e p = ground (arith, e, p)

  module _ (B : Backend D) where
    retry : VkResult × ℕ → Swapchain D → VkResult × Swapchain D
    retry (success, t) sc = wait_free t sc
    retry (r, t) sc = (r, sc)

    first_try : ℕ → VkResult × Swapchain D → VkResult × Swapchain D
    unfolding retry
    first_try t (not_ready, sc) = retry (B.get_free_buffer t) sc
    first_try t (r, sc) = (r, sc)

    unfoldable pub wait_for_free_buffer : ℕ → Swapchain D → VkResult × Swapchain D
    unfolding wait_free first_try
    wait_for_free_buffer t sc = first_try t (wait_free 0 sc)

    -- `while (wait > 0)`, on the rounds that are left.
    pub wait_rounds : ℕ → Swapchain D → Swapchain D
    wait_rounds zero sc = sc
    wait_rounds (suc n) sc = wait_rounds n (wait_for_free_buffer uint64_max sc).1

    -- `wait`: the images less those acquired, less one.
    abbrev pub pending_rounds : Swapchain D → ℕ
    pending_rounds sc = length sc.swapchain_images - total is_acquired sc.swapchain_images - 1

    unfoldable pub wait_for_pending_buffers : Swapchain D → Swapchain D
    unfolding wait_rounds
    wait_for_pending_buffers sc = wait_rounds (pending_rounds sc) sc

    -- A positive count is taken at once, whatever the timeout.
    pub wait_for_free_buffer-ready :
        (t : ℕ) (sc : Swapchain D)
        → 0 < sc.free_image_semaphore.count
        → sc.free_image_semaphore.count < 2 ^ 32
        → wait_for_free_buffer t sc
          ≡ (success, with_free_count (sc.free_image_semaphore.count - 1) sc)
    unfolding wait_for_free_buffer wait_enter
    wait_for_free_buffer-ready t sc p q = ground arith

    -- What the platform and the other threads do while the wait for the pending images sleeps: the
    -- platform has nothing to do, and if an image is pending then one that is comes off the screen and
    -- its post wakes the sleeper.
    pub record Shows : Type 0 where
      pub no_buffer : B.get_free_buffer uint64_max ≡ (success, uint64_max)
      pub in_time : (sc : Swapchain D) → (env sc).0 ≡ false
      pub posted :
          (sc : Swapchain D)
          → sc.free_image_semaphore.count ≡ 0
          → 0 < total is_pending sc.swapchain_images
          → (env sc).1.free_image_semaphore.count ≡ 1
      pub one_shown :
          (sc : Swapchain D)
          → sc.free_image_semaphore.count ≡ 0
          → 0 < total is_pending sc.swapchain_images
          → total is_pending (env sc).1.swapchain_images + 1 ≡ total is_pending sc.swapchain_images

    module _ (law : Shows) where
      wait_for_free_buffer-posted :
          (sc : Swapchain D)
          → sc.free_image_semaphore.count ≡ 0
          → (env sc).1.free_image_semaphore.count ≡ 1
          → (wait_for_free_buffer uint64_max sc).1 ≡ with_free_count 0 (env sc).1
      unfolding wait_for_free_buffer first_try retry
      wait_for_free_buffer-posted sc z p =
          rw (wait_free_none sc z, law.no_buffer, wait_free_sleeps sc z)
            (woken_posted (env sc) (law.in_time sc) p)

      wait_rounds-Shows :
          (n : ℕ) (sc : Swapchain D)
          → n ≤ sc.free_image_semaphore.count + total is_pending sc.swapchain_images
          → sc.free_image_semaphore.count < 2 ^ 32
          → ((wait_rounds n sc).free_image_semaphore.count ≡ sc.free_image_semaphore.count - n)
            × (total is_pending (wait_rounds n sc).swapchain_images
                  + (n - sc.free_image_semaphore.count)
                ≡ total is_pending sc.swapchain_images)
      unfolding wait_rounds
      wait_rounds-Shows zero sc l q = (omega arith, omega arith)
      wait_rounds-Shows (suc n) sc l q = elim (Bool-cases (sc.free_image_semaphore.count == 0)) [
        | inl y ↦
            let z : sc.free_image_semaphore.count ≡ 0 = ground (arith, y) in
            let m : 0 < total is_pending sc.swapchain_images = omega (arith, l, z) in
            let p = law.posted sc z m in
            let k = law.one_shown sc z m in
            let (a, b) =
              wait_rounds-Shows n (with_free_count 0 (env sc).1) (omega (arith, l, z, k))
                (omega arith) in
            rw (wait_rounds, wait_for_free_buffer-posted sc z p)
              (omega (arith, a, z), omega (arith, b, k, z))
        | inr y ↦
            let z : 0 < sc.free_image_semaphore.count = ground (arith, y) in
            let c : ℕ = sc.free_image_semaphore.count in
            let (a, b) =
              wait_rounds-Shows n (with_free_count (c - 1) sc) (omega (arith, l, z))
                (omega (arith, q)) in
            rw (wait_rounds, wait_for_free_buffer-ready uint64_max sc z q)
              (omega (arith, a, z), omega (arith, b, z))
      ]

      not_acquired_lem :
          (ims : List (SwapchainImage D))
          → length ims - total is_acquired ims ≡ total not_acquired ims
      not_acquired_lem ims = omega (arith, acquired_or_not ims)

      -- Where the posts of the images that are shown wake the wait for the pending images, and there are
      -- as many counts and pending images as images that are not acquired, less one: the wait ends, and
      -- it takes one count for each of these images but one, sleeping only where no count is left, until
      -- an image that was pending has been shown for each count that was missing.
      pub wait_for_pending_buffers_ends :
          (sc : Swapchain D)
          → total not_acquired sc.swapchain_images
            ≤ sc.free_image_semaphore.count + total is_pending sc.swapchain_images + 1
          → sc.free_image_semaphore.count < 2 ^ 32
          → ((wait_for_pending_buffers sc).free_image_semaphore.count
              ≡ sc.free_image_semaphore.count - (total not_acquired sc.swapchain_images - 1))
            × (total is_pending (wait_for_pending_buffers sc).swapchain_images
                  + (total not_acquired sc.swapchain_images - 1 - sc.free_image_semaphore.count)
                ≡ total is_pending sc.swapchain_images)
      unfolding wait_for_pending_buffers
      wait_for_pending_buffers_ends sc l q =
          let e = not_acquired_lem sc.swapchain_images in
          let (a, b) = wait_rounds-Shows (pending_rounds sc) sc (omega (arith, l, e)) q in
          (omega (arith, a, e), omega (arith, b, e))
