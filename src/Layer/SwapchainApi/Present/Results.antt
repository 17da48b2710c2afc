-- ===== src/Layer/SwapchainApi/Present/Results.antt =====
-- layer/swapchain_api.cpp: what `QueuePresentKHR` reports.
use rk_vulkan_wsi_layer.Prelude.{
  ℕ, suc, ◌≡◌, refl, ap, subst, ◌∙◌, ◌≢◌, Bool, true, false, List, [], ◌∷◌, ◌++◌, arith, length,
  ltb, All, Bool-cases, inl, inr,
}
use rk_vulkan_wsi_layer.Vulkan.{VkResult, success}
use rk_vulkan_wsi_layer.Wsi.FrameBoundary.{create_frame_boundary}
use rk_vulkan_wsi_layer.Wsi.Swapchain.QueuePresent.{PresentParameters}
use rk_vulkan_wsi_layer.Layer.SwapchainApi.Present.{
  PresentInfo, PresentAnswers, submit_wait_request, present_params, present_each, first_error,
  present_all, queue_present_khr, has_value,
}

module _ {S : Type 0} (sc_queue_present : ℕ → PresentParameters → S → VkResult × S) where
  length-present_each :
      (params : ℕ → PresentParameters) (i : ℕ) (scs : List ℕ) (s : S)
      → length (present_each sc_queue_present params i scs s).0 ≡ length scs
  unfolding present_each
  length-present_each params i [] s = refl
  length-present_each params i (sc ∷ scs) s =
      ap suc (length-present_each params (suc i) scs (sc_queue_present sc (params i) s).1)

  first_error-kept :
      (r : VkResult) (rs : List VkResult) → r ≢ success → first_error sc_queue_present r rs ≡ r
  unfolding first_error
  first_error-kept r [] n = refl
  first_error-kept r (x ∷ rs) n = ground (arith, n, first_error-kept r rs n)

  first_error_lem :
      (before after : List VkResult) (r : VkResult)
      → All (λ x. x ≡ success) before
      → r ≢ success
      → first_error sc_queue_present success (before ++ r ∷ after) ≡ r
  unfolding first_error
  first_error_lem [] after r h n = ground (arith, n, first_error-kept r after n)
  first_error_lem (x ∷ before) after r (e, h) n = rw e (first_error_lem before after r h n)

  first_error-success :
      (rs : List VkResult)
      → All (λ x. x ≡ success) rs
      → first_error sc_queue_present success rs ≡ success
  unfolding first_error
  first_error-success [] h = refl
  first_error-success (x ∷ rs) (e, h) = rw e (first_error-success rs h)

  module _ (a : PresentAnswers) (info : PresentInfo) (s : S) (owns : a.owns_all ≡ true)
      (ok : (submit_wait_request a info true).0 ≡ success) where
    presents_all :
        (use_image : Bool) × (handled : Bool) × (queue_present_khr sc_queue_present a info s
          ≡ present_all sc_queue_present a info use_image handled s)
    unfolding queue_present_khr
    presents_all = elim (Bool-cases (ltb 1 (length info.swapchains))) [
      | inl y ↦
          (true, (submit_wait_request a info true).1, rw (owns, queue_present_khr, y, ok) refl)
      | inr n ↦ (false, true, rw (owns, queue_present_khr, n) refl)
    ]

    -- Where the layer owns the swapchains and a wait request would be submitted successfully, the
    -- present of several swapchains has a result for each, also after one has failed.
    pub every_swapchain_presented :
        length (queue_present_khr sc_queue_present a info s).1 ≡ length info.swapchains
    unfolding present_all
    every_swapchain_presented =
        let (u, h, e) = presents_all in
        rw e (length-present_each (present_params a info u h) 0 info.swapchains s)

    -- Where the layer owns the swapchains and a wait request would be submitted successfully, a
    -- present returns the first result that is not a success.
    pub first_failure_returned :
        (before after : List VkResult) (r : VkResult)
        → (queue_present_khr sc_queue_present a info s).1 ≡ before ++ r ∷ after
        → All (λ x. x ≡ success) before
        → r ≢ success
        → (queue_present_khr sc_queue_present a info s).0 ≡ r
    unfolding present_all
    first_failure_returned before after r f h n =
        let (u, i, e) = presents_all in
        let g : (present_all sc_queue_present a info u i s).1 ≡ before ++ r ∷ after =
          subst (λ x. x.1 ≡ before ++ r ∷ after) e f in
        ap (λ x. x.0) e
        ∙ ap (first_error sc_queue_present success) g
        ∙ first_error_lem before after r h n

    -- Where the layer owns the swapchains and a wait request would be submitted successfully, a
    -- present succeeds if every swapchain does.
    pub success_returned :
        All (λ x. x ≡ success) (queue_present_khr sc_queue_present a info s).1
        → (queue_present_khr sc_queue_present a info s).0 ≡ success
    unfolding present_all
    success_returned h =
        let (u, i, e) = presents_all in
        let g = subst (λ x. All (λ y. y ≡ success) x.1) e h in
        ap (λ x. x.0) e ∙ first_error-success _ g

-- Once the semaphores of the wait request are stored, each of the presents that follow is told to
-- send a frame boundary exactly if the wait request has carried one.
pub boundary_sent_again :
    (a : PresentAnswers) (info : PresentInfo) (i : ℕ)
    → a.resized ≡ true
    → (present_params a info true
        (submit_wait_request a info true).1
        i).handle_present_frame_boundary_event
      ≡ has_value (create_frame_boundary info.chain)
unfolding present_params submit_wait_request
boundary_sent_again a info i e = ground (arith, e)
