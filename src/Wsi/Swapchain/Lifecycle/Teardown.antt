-- ===== src/Wsi/Swapchain/Lifecycle/Teardown.antt =====
-- wsi/swapchain_base.cpp: `teardown`, with the calls that it makes in their order.
use rk_vulkan_wsi_layer.Prelude.{
  ℕ, ◌-◌, ◌≡◌, refl, ap, Bool, false, List, [], ◌∷◌, ◌++◌, Option, none, some, arith, if◌then◌else◌,
  ◌==◌, not,
}
use mathlib.Core.Option
use rk_vulkan_wsi_layer.Util.TimedSemaphore.{Timespec}
use rk_vulkan_wsi_layer.Wsi.Swapchain.{Swapchain, SwapchainImage, error_has_occured}
use rk_vulkan_wsi_layer.Wsi.Swapchain.Wait.{Backend, Env, wait_for_pending_buffers}
use rk_vulkan_wsi_layer.Wsi.Swapchain.Present.{has_descendant_started_presenting}
use rk_vulkan_wsi_layer.Wsi.Swapchain.Query.{clear_ancestor, clear_descendant}

pub data TearCall (D : Type 0) : Type 0 where
  -- `sem_wait` on the descendant's semaphore.
  start_present_waited queue_idled thread_joined start_present_destroyed : TearCall D
  image_released : SwapchainImage D → TearCall D
  semaphore_destroyed : ℕ → TearCall D

-- The swapchain, its descendant and its ancestor, where they exist, and the calls made.
pub record Torn (D : Type 0) : Type 0 where
  pub self : Swapchain D
  pub descendant : Option (Swapchain D)
  pub ancestor : Option (Swapchain D)
  pub calls : List (TearCall D)

module _ {D : Type 0} where
  -- Whether the descendant has started presenting, read from it.
  abbrev pub started : Option (Swapchain D) → Bool
  started none = false
  started (some d) = d.started_presenting

  abbrev when : Bool → TearCall D → List (TearCall D)
  when b c = if b then c ∷ [] else []

  abbrev sem_wait : Swapchain D → Swapchain D
  sem_wait d = record d { start_present_semaphore = d.start_present_semaphore - 1 }

  unfoldable pub release_images_array :
      Backend D → List (SwapchainImage D) → List (SwapchainImage D) × List (TearCall D)
  release_images_array B [] = ([], [])
  release_images_array B (im ∷ ims) =
      let (ims', calls) = release_images_array B ims in
      let im' = B.destroy_image im in
      (
        im' ∷ ims',
        image_released im
            ∷ semaphore_destroyed im'.present_semaphore
            ∷ semaphore_destroyed im'.present_fence_wait
            ∷ calls,
      )

  module _ (B : Backend D) (now : Timespec) (env : Env D) where
    -- The wait at the start: for the first present of the descendant, or for the pending images, or
    -- not at all. A semaphore that is waited for was posted.
    unfoldable pub wait_before_teardown :
        Option (Swapchain D) → Swapchain D → Option (Swapchain D) × Swapchain D × List (TearCall D)
    unfolding wait_for_pending_buffers has_descendant_started_presenting
    wait_before_teardown desc sc =
        if has_descendant_started_presenting (started desc) sc
        then (Option.map sem_wait desc, sc, start_present_waited ∷ [])
        else (if error_has_occured sc
            then (desc, sc, [])
            else (desc, wait_for_pending_buffers now env B sc, []))

    unfoldable pub teardown : Option (Swapchain D) → Option (Swapchain D) → Swapchain D → Torn D
    unfolding wait_before_teardown release_images_array clear_ancestor clear_descendant
    teardown desc anc sc =
        let (desc', sc1, calls) = wait_before_teardown desc sc in
        let (ims, released) = release_images_array B sc1.swapchain_images in
        record {
          self = record sc1 {
            swapchain_images = ims;
            page_flip_thread_run =
                if sc1.thread_sem_defined then false else sc1.page_flip_thread_run;
          };
          descendant = if sc1.descendant == 0 then desc' else Option.map clear_ancestor desc';
          ancestor = if sc1.ancestor == 0 then anc else Option.map clear_descendant anc;
          calls =
              calls
              ++ when (not (sc1.queue == 0)) queue_idled
              ++ when sc1.thread_sem_defined thread_joined
              ++ start_present_destroyed ∷ released;
        }

    -- The images whose platform data is released, and the semaphores destroyed, in order.
    abbrev pub released : List (TearCall D) → List (SwapchainImage D)
    released [] = []
    released (image_released im ∷ cs) = im ∷ released cs
    released (_ ∷ cs) = released cs

    abbrev pub destroyed : List (TearCall D) → List ℕ
    destroyed [] = []
    destroyed (semaphore_destroyed s ∷ cs) = s ∷ destroyed cs
    destroyed (_ ∷ cs) = destroyed cs

    abbrev pub semaphores : List (SwapchainImage D) → List ℕ
    semaphores [] = []
    semaphores (im ∷ ims) = im.present_semaphore ∷ im.present_fence_wait ∷ semaphores ims

    array-released : (ims : List (SwapchainImage D)) → released (release_images_array B ims).1 ≡ ims
    unfolding release_images_array
    array-released [] = refl
    array-released (im ∷ ims) = ap (λ r. im ∷ r) (array-released ims)

    array-destroyed :
        (ims : List (SwapchainImage D))
        → ((im : SwapchainImage D) → (B.destroy_image im).present_semaphore ≡ im.present_semaphore)
        → ((im : SwapchainImage D)
            → (B.destroy_image im).present_fence_wait ≡ im.present_fence_wait)
        → destroyed (release_images_array B ims).1 ≡ semaphores ims
    unfolding release_images_array
    array-destroyed [] h k = refl
    array-destroyed (im ∷ ims) h k = ground (arith, h im, k im, array-destroyed ims h k)

    -- On every path, the teardown releases each image that the wait at its start left, once and in the
    -- order of the array, and destroys the two semaphores of each once, if the platform's release of an
    -- image leaves its semaphores.
    pub teardown_releases :
        (desc anc : Option (Swapchain D)) (sc : Swapchain D)
        → ((im : SwapchainImage D) → (B.destroy_image im).present_semaphore ≡ im.present_semaphore)
        → ((im : SwapchainImage D)
            → (B.destroy_image im).present_fence_wait ≡ im.present_fence_wait)
        → let sc1 = (wait_before_teardown desc sc).1 in
          (released (teardown desc anc sc).calls ≡ sc1.swapchain_images)
          × (destroyed (teardown desc anc sc).calls ≡ semaphores sc1.swapchain_images)
    unfolding teardown wait_before_teardown
    teardown_releases desc anc sc h k =
        let ims = (wait_before_teardown desc sc).1.swapchain_images in
        ground (arith, array-released ims, array-destroyed ims h k)
