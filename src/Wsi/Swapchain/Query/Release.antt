-- ===== src/Wsi/Swapchain/Query/Release.antt =====
-- wsi/swapchain_base.cpp: `release_images` and `deprecate`.
use rk_vulkan_wsi_layer.Prelude.{
  ℕ, ◌+◌, ◌^◌, ◌<◌, ◌≡◌, ◌∙◌, ◌≢◌, false, List, [], ◌∷◌, some, arith, length, All,
}
use rk_vulkan_wsi_layer.Vulkan.{is_shared}
use rk_vulkan_wsi_layer.Wsi.Swapchain.{Swapchain, SwapchainImage, Status, acquired, free}
use rk_vulkan_wsi_layer.Wsi.Swapchain.Images.{
  set_status, status_at, total, available, total-set_status, status_at-set_ne,
}
use rk_vulkan_wsi_layer.Wsi.Swapchain.Present.{unpresent_image}
use rk_vulkan_wsi_layer.Wsi.Swapchain.Query.{release_images}

-- The list names images that are acquired, each of them once.
abbrev pub AllAcquired : {D : Type 0} → List ℕ → List (SwapchainImage D) → Type 0
AllAcquired [] ims = Unit
AllAcquired (i ∷ is) ims =
    (status_at ims i ≡ some acquired) × All (λ j. i ≢ j) is × AllAcquired is ims

module _ {D : Type 0} where
  AllAcquired-set :
      (is : List ℕ) (ims : List (SwapchainImage D)) (i : ℕ) (t : Status)
      → All (λ j. i ≢ j) is
      → AllAcquired is ims
      → AllAcquired is (set_status i t ims)
  AllAcquired-set [] ims i t h v = v
  AllAcquired-set (j ∷ is) ims i t (n, h) (at, ns, v) =
      (status_at-set_ne ims i j t n ∙ at, ns, AllAcquired-set is ims i t h v)

  -- In a mode where images are not shared, the release of distinct acquired images makes as many
  -- more images available, and adds as many to the count of the free image semaphore, as long as
  -- that stays below 2^32.
  pub release_images_counts :
      (is : List ℕ) (sc : Swapchain D)
      → is_shared sc.present_mode ≡ false
      → AllAcquired is sc.swapchain_images
      → sc.free_image_semaphore.count + length is < 2 ^ 32
      → (total available (release_images is sc).swapchain_images
          ≡ total available sc.swapchain_images + length is)
        × ((release_images is sc).free_image_semaphore.count
            ≡ sc.free_image_semaphore.count + length is)
  unfolding release_images unpresent_image
  release_images_counts [] sc m v lt = (omega arith, omega arith)
  release_images_counts (i ∷ is) sc m (at, ns, v) lt =
      let (p, q) =
        release_images_counts is (unpresent_image i sc) (ground (arith, m))
          (rw m (AllAcquired-set is sc.swapchain_images i free ns v)) (ground (arith, m, lt)) in
      let c = total-set_status available sc.swapchain_images i acquired free at in
      (ground (arith, m, p, c), ground (arith, m, q, lt))
