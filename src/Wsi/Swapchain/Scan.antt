-- ===== src/Wsi/Swapchain/Scan.antt =====
-- wsi/swapchain_base.cpp: where the loop of `acquire_next_image` over the images ends.
use rk_vulkan_wsi_layer.Prelude.{
  ℕ, suc, ◌≡◌, refl, ap, ◌≢◌, ◌⊎◌, inl, inr, true, false, List, [], ◌∷◌, some, arith, Bool-cases,
}
use rk_vulkan_wsi_layer.Vulkan.{VkResult, success, is_success}
use rk_vulkan_wsi_layer.Wsi.Swapchain.{SwapchainImage, Status, invalid, acquired, free, unallocated}
use rk_vulkan_wsi_layer.Wsi.Swapchain.Images.{set_status, status_at, total, available, statuses}
use rk_vulkan_wsi_layer.Wsi.Swapchain.Acquire.{
  Scan, found, failed, exhausted, scan, round, keep, is_unallocated, is_free, allocation_error,
}

-- What the loop relies on in a platform's allocation: an image that it allocates is free, and one
-- that it fails to allocate is destroyed or still to be allocated.
pub record Allocates {D : Type 0} (alloc : ℕ → SwapchainImage D → VkResult × SwapchainImage D)
    : Type 0 where
  pub allocated :
      (i : ℕ) (im : SwapchainImage D) → (alloc i im).0 ≡ success → (alloc i im).1.status ≡ free
  pub refused :
      (i : ℕ) (im : SwapchainImage D)
      → im.status ≡ unallocated
      → (alloc i im).0 ≢ success
      → ((alloc i im).1.status ≡ invalid) ⊎ ((alloc i im).1.status ≡ unallocated)

-- The end of the loop, in the terms of the states that it found and left.
abbrev pub Ends : {D : Type 0} → List (SwapchainImage D) → Scan D → Type 0
Ends ims (found i ims') =
    (statuses ims' ≡ statuses (set_status i acquired ims))
    × (s : Status) × (status_at ims i ≡ some s)
    × (available s ≡ 1)
Ends ims (failed r ims') =
    (i : ℕ) × (s : Status) × (status_at ims i ≡ some unallocated)
    × (statuses ims' ≡ statuses (set_status i s ims))
    × ((s ≡ invalid) ⊎ (s ≡ unallocated))
    × (r ≢ success)
Ends ims (exhausted ims') = (statuses ims' ≡ statuses ims) × (total available ims ≡ 0)

is_free-eq : (s : Status) → is_free s ≡ true → s ≡ free
is_free-eq s e = ground arith

is_unallocated-eq : (s : Status) → is_unallocated s ≡ true → s ≡ unallocated
is_unallocated-eq s e = ground arith

unavailable : (s : Status) → is_unallocated s ≡ false → is_free s ≡ false → available s ≡ 0
unavailable s e f = ground arith

pub is_success-eq : (r : VkResult) → is_success r ≡ true → r ≡ success
is_success-eq r e = ground arith

pub is_success-ne : (r : VkResult) → is_success r ≡ false → r ≢ success
is_success-ne r e = ground arith

allocation_error-ne : (r : VkResult) → r ≢ success → allocation_error r ≢ success
allocation_error-ne r n = ground arith

module _ {D : Type 0} where
  keep-Ends :
      (im : SwapchainImage D) (ims : List (SwapchainImage D)) (r : Scan D)
      → available im.status ≡ 0
      → Ends ims r
      → Ends (im ∷ ims) (keep im r)
  keep-Ends im ims (found i ims') z (e, s, at, av) = (ap (λ ss. im.status ∷ ss) e, s, at, av)
  keep-Ends im ims (failed r ims') z (i, s, at, e, c, n) =
      (suc i, s, at, ap (λ ss. im.status ∷ ss) e, c, n)
  keep-Ends im ims (exhausted ims') z (e, t) = (ap (λ ss. im.status ∷ ss) e, omega arith)

  -- The round at an image that is allocated already.
  ready-Ends :
      (im : SwapchainImage D) (ims : List (SwapchainImage D)) (r : Scan D)
      → is_unallocated im.status ≡ false
      → Ends ims r
      → Ends (im ∷ ims) (round (success, im) ims r)
  ready-Ends im ims r n h = elim (Bool-cases (is_free im.status)) [
    | inl f ↦ rw f (refl, free, ap some (is_free-eq im.status f), refl)
    | inr f ↦ rw f (keep-Ends im ims r (unavailable im.status n f) h)
  ]

  module _ (alloc : ℕ → SwapchainImage D → VkResult × SwapchainImage D)
      (law : Allocates alloc) where
    -- The round at an image that has to be allocated.
    alloc-Ends :
        (k : ℕ) (im : SwapchainImage D) (ims : List (SwapchainImage D)) (r : Scan D)
        → im.status ≡ unallocated
        → Ends (im ∷ ims) (round (alloc k im) ims r)
    alloc-Ends k im ims r u = elim (Bool-cases (is_success (alloc k im).0)) [
      | inl y ↦
          let f : (alloc k im).1.status ≡ free = law.allocated k im (is_success-eq _ y) in
          rw (y, f) (refl, unallocated, ap some u, refl)
      | inr n ↦
          let ne : (alloc k im).0 ≢ success = is_success-ne _ n in
          rw n (
            0,
            (alloc k im).1.status,
            ap some u,
            refl,
            law.refused k im u ne,
            allocation_error-ne _ ne,
          )
    ]

    -- If the platform's allocation keeps its law, the loop over the images takes an image that was
    -- free or not allocated and changes no other state; or it stops with an error at an image
    -- whose allocation failed, which is destroyed or still to be allocated; or no image was
    -- available and no state changes.
    pub scan-Ends : (k : ℕ) (ims : List (SwapchainImage D)) → Ends ims (scan alloc k ims)
    unfolding scan
    scan-Ends k [] = (refl, refl)
    scan-Ends k (im ∷ ims) = elim (Bool-cases (is_unallocated im.status)) [
      | inl u ↦ rw u (alloc-Ends k im ims (scan alloc (suc k) ims) (is_unallocated-eq im.status u))
      | inr n ↦ rw n (ready-Ends im ims (scan alloc (suc k) ims) n (scan-Ends (suc k) ims))
    ]
