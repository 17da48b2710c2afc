-- ===== src/Wsi/System/Queue.antt =====
-- wsi/swapchain_base.cpp: the requests that wait for presentation, and the images that they name.
use rk_vulkan_wsi_layer.Prelude.{
  ℕ, zero, suc, ◌+◌, ◌≤◌, ◌<◌, ◌≡◌, List, [], ◌∷◌, ◌++◌, Option, none, some, arith, ◌==◌, ==-refl,
  ==-ne, if◌then◌else◌, ℕ_discrete,
}
use rk_vulkan_wsi_layer.Wsi.Swapchain.{SwapchainImage, Status, pending, PendingPresentRequest}
use rk_vulkan_wsi_layer.Wsi.Swapchain.Images.{
  set_status, status_at, is_pending, total, status_at-set_self, status_at-set_ne,
}

-- How often a list of requests names an image.
abbrev pub occurrences : ℕ → List PendingPresentRequest → ℕ
occurrences i [] = 0
occurrences i (r ∷ rs) = (if r.image_index == i then 1 else 0) + occurrences i rs

pub occurrences-append :
    (i : ℕ) (rs : List PendingPresentRequest) (r : PendingPresentRequest)
    → occurrences i (rs ++ r ∷ []) ≡ occurrences i rs + (if r.image_index == i then 1 else 0)
occurrences-append i [] r = omega arith
occurrences-append i (x ∷ rs) r = omega (arith, occurrences-append i rs r)

abbrev pub pending_status : Option Status → ℕ
pending_status none = 0
pending_status (some s) = is_pending s

-- Whether the image at an index is pending.
abbrev pub pending_at : {D : Type 0} → List (SwapchainImage D) → ℕ → ℕ
pending_at ims i = pending_status (status_at ims i)

pub pending_at-eq : (o : Option Status) → 0 < pending_status o → o ≡ some pending
pending_at-eq o h = ground arith

-- A change of one image's state changes whether it is pending, and no other image.
pub pending_at-set_status :
    {D : Type 0} (ims : List (SwapchainImage D)) (i j : ℕ) (s t : Status)
    → status_at ims i ≡ some s
    → pending_at (set_status i t ims) j ≡ (if i == j then is_pending t else pending_at ims j)
pending_at-set_status ims i j s t e = elim (ℕ_discrete i j) [
  | yes p ↦ rw (← p, ==-refl i, status_at-set_self ims i s t e)
  | no n ↦ rw (==-ne i j n, status_at-set_ne ims i j t n)
]

pub pending_at-le :
    {D : Type 0} (ims : List (SwapchainImage D)) (i : ℕ) → pending_at ims i ≤ total is_pending ims
pending_at-le [] i = omega arith
pending_at-le (im ∷ ims) zero = omega arith
pending_at-le (im ∷ ims) (suc i) = omega (arith, pending_at-le ims i)
