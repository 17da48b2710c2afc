-- ===== src/Wsi/Swapchain/Images.antt =====
-- wsi/swapchain_base.cpp: the image array, and how many of its images are in a state.
use rk_vulkan_wsi_layer.Prelude.{
  ℕ, zero, suc, ◌+◌, ◌≤◌, ◌≡◌, refl, ap, sym, ◌∙◌, ◌≢◌, List, [], ◌∷◌, Option, none, some, arith,
  length, get_elem?,
}
use rk_vulkan_wsi_layer.Wsi.Swapchain.{
  Status, acquired, pending, free, unallocated, invalid, SwapchainImage,
}

module _ {D : Type 0} where
  abbrev pub with_status : Status → SwapchainImage D → SwapchainImage D
  with_status s im = record im { status = s }

  -- `m_swapchain_images[i].status = s`. An index past the array is excluded by the callers.
  abbrev pub set_status : ℕ → Status → List (SwapchainImage D) → List (SwapchainImage D)
  set_status i s [] = []
  set_status zero s (im ∷ ims) = with_status s im ∷ ims
  set_status (suc i) s (im ∷ ims) = im ∷ set_status i s ims

  -- `m_swapchain_images[i].status`.
  abbrev pub status_at : List (SwapchainImage D) → ℕ → Option Status
  status_at [] i = none
  status_at (im ∷ ims) zero = some im.status
  status_at (im ∷ ims) (suc i) = status_at ims i

-- Whether an acquisition can take the image.
abbrev pub available : Status → ℕ
available free = 1
available unallocated = 1
available _ = 0

abbrev pub is_pending : Status → ℕ
is_pending pending = 1
is_pending _ = 0

abbrev pub is_acquired : Status → ℕ
is_acquired acquired = 1
is_acquired _ = 0

abbrev pub is_destroyed : Status → ℕ
is_destroyed invalid = 1
is_destroyed _ = 0

module _ {D : Type 0} (w : Status → ℕ) where
  -- The sum of a weight over the images; with the weights above, how many are in a state.
  abbrev pub total : List (SwapchainImage D) → ℕ
  total [] = 0
  total (im ∷ ims) = w im.status + total ims

  pub total-set_status :
      (ims : List (SwapchainImage D)) (i : ℕ) (s t : Status)
      → status_at ims i ≡ some s
      → total (set_status i t ims) + w s ≡ total ims + w t
  total-set_status [] i s t e = cc
  total-set_status (im ∷ ims) zero s t e = ground arith
  total-set_status (im ∷ ims) (suc i) s t e = omega (arith, total-set_status ims i s t e)

  pub le-total :
      (ims : List (SwapchainImage D)) (i : ℕ) (s : Status)
      → status_at ims i ≡ some s
      → w s ≤ total ims
  le-total [] i s e = cc
  le-total (im ∷ ims) zero s e = ground arith
  le-total (im ∷ ims) (suc i) s e = omega (arith, le-total ims i s e)

module _ {D : Type 0} where
  pub length-set_status :
      (ims : List (SwapchainImage D)) (i : ℕ) (s : Status)
      → length (set_status i s ims) ≡ length ims
  length-set_status [] i s = refl
  length-set_status (im ∷ ims) zero s = refl
  length-set_status (im ∷ ims) (suc i) s = ap suc (length-set_status ims i s)

  pub status_at-set_self :
      (ims : List (SwapchainImage D)) (i : ℕ) (s t : Status)
      → status_at ims i ≡ some s
      → status_at (set_status i t ims) i ≡ some t
  status_at-set_self [] i s t e = cc
  status_at-set_self (im ∷ ims) zero s t e = refl
  status_at-set_self (im ∷ ims) (suc i) s t e = status_at-set_self ims i s t e

  pub status_at-set_ne :
      (ims : List (SwapchainImage D)) (i j : ℕ) (t : Status)
      → i ≢ j
      → status_at (set_status i t ims) j ≡ status_at ims j
  status_at-set_ne [] i j t n = refl
  status_at-set_ne (im ∷ ims) zero zero t n = absurd (n refl)
  status_at-set_ne (im ∷ ims) zero (suc j) t n = refl
  status_at-set_ne (im ∷ ims) (suc i) zero t n = refl
  status_at-set_ne (im ∷ ims) (suc i) (suc j) t n = status_at-set_ne ims i j t (λ e. n (ap suc e))

  -- The images that are available, those that are pending and those that are acquired are disjoint.
  pub total-disjoint :
      (ims : List (SwapchainImage D))
      → total available ims + total is_pending ims + total is_acquired ims ≤ length ims
  total-disjoint [] = omega arith
  total-disjoint (im ∷ ims) = ground (arith, total-disjoint ims)

  -- The states alone. Two arrays with the same states agree in all that is counted.
  abbrev pub statuses : List (SwapchainImage D) → List Status
  statuses [] = []
  statuses (im ∷ ims) = im.status ∷ statuses ims

abbrev sum : (Status → ℕ) → List Status → ℕ
sum w [] = 0
sum w (s ∷ ss) = w s + sum w ss

module _ {D : Type 0} where
  total-sum : (w : Status → ℕ) (ims : List (SwapchainImage D)) → total w ims ≡ sum w (statuses ims)
  total-sum w [] = refl
  total-sum w (im ∷ ims) = ap (λ n. w im.status + n) (total-sum w ims)

  status_at-get :
      (ims : List (SwapchainImage D)) (i : ℕ) → status_at ims i ≡ get_elem? (statuses ims) i
  status_at-get [] i = refl
  status_at-get (im ∷ ims) zero = refl
  status_at-get (im ∷ ims) (suc i) = status_at-get ims i

  length-statuses : (ims : List (SwapchainImage D)) → length (statuses ims) ≡ length ims
  length-statuses [] = refl
  length-statuses (im ∷ ims) = ap suc (length-statuses ims)

  module _ (xs ys : List (SwapchainImage D)) (e : statuses xs ≡ statuses ys) where
    pub total-same : (w : Status → ℕ) → total w xs ≡ total w ys
    total-same w = total-sum w xs ∙ ap (sum w) e ∙ sym (total-sum w ys)

    pub status_at-same : (i : ℕ) → status_at xs i ≡ status_at ys i
    status_at-same i = status_at-get xs i ∙ ap (λ ss. get_elem? ss i) e ∙ sym (status_at-get ys i)

    pub length-same : length xs ≡ length ys
    length-same = sym (length-statuses xs) ∙ ap length e ∙ length-statuses ys

  pub set_status-set_status :
      (ims : List (SwapchainImage D)) (i : ℕ) (s t : Status)
      → set_status i t (set_status i s ims) ≡ set_status i t ims
  set_status-set_status [] i s t = refl
  set_status-set_status (im ∷ ims) zero s t = refl
  set_status-set_status (im ∷ ims) (suc i) s t =
      ap (λ ys. im ∷ ys) (set_status-set_status ims i s t)
