-- ===== src/Wsi/Swapchain/Query/Listing.antt =====
-- wsi/swapchain_base.cpp: `get_swapchain_images` and the queue of timing entries.
use rk_vulkan_wsi_layer.Prelude.{
  ℕ, zero, suc, ◌+◌, ◌≤◌, ◌≡◌, refl, ◌∙◌, Bool, List, [], ◌∷◌, some, ◌⊎◌, ◌≢◌, arith, length, map,
  min, take, leb, if◌then◌else◌, Bool-cases, inl, inr, ltb,
}
use rk_vulkan_wsi_layer.Vulkan.{success, incomplete}
use rk_vulkan_wsi_layer.Wsi.Swapchain.{Swapchain, SwapchainImage, PresentationEntry}
use rk_vulkan_wsi_layer.Wsi.Swapchain.Query.{
  copy_images, get_swapchain_images, outstanding, num_outstanding_results,
  presentation_timing_queue_set_size,
}

abbrev pub handles : {D : Type 0} → List (SwapchainImage D) → List ℕ
handles ims = map (λ im. im.image) ims

length-outstanding :
    (es : List PresentationEntry) → length (outstanding es) ≡ num_outstanding_results es
unfolding outstanding num_outstanding_results
length-outstanding [] = refl
length-outstanding (e ∷ es) = ground (arith, length-outstanding es)

outstanding-outstanding :
    (es : List PresentationEntry) → outstanding (outstanding es) ≡ outstanding es
unfolding outstanding
outstanding-outstanding [] = refl
outstanding-outstanding (e ∷ es) = ground (arith, outstanding-outstanding es)

module _ {D : Type 0} where
  copied :
      (count i : ℕ) (ims : List (SwapchainImage D))
      → copy_images count i ims ≡ record {
        result = if leb (length ims) count then success else incomplete;
        count = i + min count (length ims);
        written = take count (handles ims);
      }
  unfolding copy_images
  copied zero i [] = ground arith
  copied (suc n) i [] = ground arith
  copied zero i (im ∷ ims) = ground arith
  copied (suc n) i (im ∷ ims) = rw (copied n (suc i) ims) (ground arith)

  -- With an array, `get_swapchain_images` writes the first handles that fit, in order, says how
  -- many it wrote, and succeeds exactly when all fit; it says incomplete otherwise.
  pub get_swapchain_images_lem :
      (count : ℕ) (sc : Swapchain D)
      → get_swapchain_images (some count) sc ≡ record {
        result = if leb (length sc.swapchain_images) count then success else incomplete;
        count = min count (length sc.swapchain_images);
        written = take count (handles sc.swapchain_images);
      }
  unfolding get_swapchain_images
  get_swapchain_images_lem count sc = copied count 0 sc.swapchain_images ∙ ground arith

  -- A resize of the timing queue that succeeds keeps every entry that is outstanding, and what it
  -- keeps fits the new capacity; one that does not succeed changes nothing.
  pub resize_keeps_outstanding :
      (reserved : Bool) (size : ℕ) (sc : Swapchain D)
      → let (r, sc') = presentation_timing_queue_set_size reserved size sc in
        ((r ≡ success)
          × (outstanding sc'.presentation_timing ≡ outstanding sc.presentation_timing)
          × (length sc'.presentation_timing ≤ sc'.timing_capacity)
          × (sc'.timing_capacity ≡ size))
        ⊎ ((r ≢ success) × (sc' ≡ sc))
  unfolding presentation_timing_queue_set_size
  resize_keeps_outstanding reserved size sc =
      elim (Bool-cases (ltb size (num_outstanding_results sc.presentation_timing))) [
        | inl y ↦ rw y (inr ((λ e. cc), refl))
        | inr n ↦ rw n (elim (Bool-cases reserved) [
          | inl y ↦ rw y (
              inl (
                refl,
                outstanding-outstanding sc.presentation_timing,
                ground (arith, length-outstanding sc.presentation_timing),
                refl,
              ))
          | inr m ↦ rw m (inr ((λ e. cc), refl))
        ])
      ]
