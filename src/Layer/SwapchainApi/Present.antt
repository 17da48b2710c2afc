-- ===== src/Layer/SwapchainApi/Present.antt =====
-- layer/swapchain_api.cpp: `submit_wait_request` and `QueuePresentKHR`.
pub mod Results
use rk_vulkan_wsi_layer.Prelude.{
  ℕ, zero, suc, ◌+◌, ◌<◌, ◌≡◌, refl, ap, subst, ◌∙◌, ◌≢◌, Bool, true, false, not, ◌&&◌, List, [],
  ◌∷◌, ◌++◌, Option, none, some, arith, length, map, ltb, ◌==◌, if◌then◌else◌, get_or, All, ◌↔◌,
  Bool-cases, inl, inr,
}
use mathlib.Core.Option
use rk_vulkan_wsi_layer.Vulkan.{
  VkResult, success, error_out_of_host_memory, is_success, PresentMode, immediate,
}
use rk_vulkan_wsi_layer.Util.Helpers.{Chain}
use rk_vulkan_wsi_layer.Wsi.FrameBoundary.{Payload, create_frame_boundary}
use rk_vulkan_wsi_layer.Wsi.Swapchain.{PendingPresentRequest}
use rk_vulkan_wsi_layer.Wsi.Swapchain.QueuePresent.{PresentParameters}

-- `VkPresentInfoKHR` with the structures of its chain that are read. The lists have an element for
-- each swapchain.
pub record PresentInfo : Type 0 where
  pub swapchains : List ℕ
  pub image_indices : List ℕ
  pub wait_semaphores : List ℕ
  pub chain : Chain Payload
  -- `VkPresentIdKHR`: its swapchain count, and its array if that is not null.
  pub present_ids : Option (ℕ × Option (List ℕ))
  pub present_fences : Option (List ℕ)
  pub present_modes : Option (List PresentMode)
  pub has_timings : Bool

-- The answers of the layer and of the driver; `parameters` are the answers that a present of each
-- swapchain of the list will find.
pub record PresentAnswers : Type 0 where
  pub owns_all : Bool
  pub driver : VkResult
  pub resized : Bool
  pub present_semaphore : ℕ → ℕ → ℕ
  pub sync_queue_submit : List ℕ → List ℕ → Option Payload → VkResult
  pub parameters : ℕ → PresentParameters

image_semaphores : (ℕ → ℕ → ℕ) → List ℕ → List ℕ → List ℕ
image_semaphores sem [] is = []
image_semaphores sem (s ∷ ss) [] = []
image_semaphores sem (s ∷ ss) (i ∷ is) = sem s i ∷ image_semaphores sem ss is

abbrev pub has_value : {A : Type 0} → Option A → Bool
has_value none = false
has_value (some a) = true

-- The result, and `frame_boundary_event_handled` as the call leaves it.
unfoldable pub submit_wait_request : PresentAnswers → PresentInfo → Bool → VkResult × Bool
unfolding image_semaphores create_frame_boundary
submit_wait_request a info handled =
    if a.resized
    then (
      a.sync_queue_submit info.wait_semaphores
          (image_semaphores a.present_semaphore info.swapchains info.image_indices)
          (create_frame_boundary info.chain),
      has_value (create_frame_boundary info.chain),
    )
    else (error_out_of_host_memory, handled)

-- The present id of the swapchain at an index.
unfoldable pub present_id_at : PresentInfo → ℕ → ℕ
present_id_at info i = elim info.present_ids [ none ↦ 0 | some ids ↦ ids_at ids ]
  where
    ids_at : ℕ × Option (List ℕ) → ℕ
    ids_at (count, none) = 0
    ids_at (count, some ids) = if count == length info.swapchains then get_or ids i 0 else 0

fence_at : Option (List ℕ) → ℕ → ℕ
fence_at none i = 0
fence_at (some fs) i = get_or fs i 0

mode_at : Option (List PresentMode) → ℕ → PresentMode
mode_at none i = immediate
mode_at (some ms) i = get_or ms i immediate

-- `present_params` for the swapchain at an index.
unfoldable pub present_params : PresentAnswers → PresentInfo → Bool → Bool → ℕ → PresentParameters
unfolding present_id_at fence_at mode_at
present_params a info use_image_present_semaphore handled i = record (a.parameters i) {
  present_fence = fence_at info.present_fences i;
  switch_presentation_mode = has_value info.present_modes;
  new_mode = mode_at info.present_modes i;
  pending_present = record {
    image_index = get_or info.image_indices i 0;
    present_id = present_id_at info i;
  };
  use_image_present_semaphore = use_image_present_semaphore;
  handle_present_frame_boundary_event = handled;
  has_present_timing_info = info.has_timings;
  wait_semaphores = info.wait_semaphores;
  chain = info.chain;
}

-- The presents of the swapchains change the state `S` of the layer's swapchains.
module _ {S : Type 0} (sc_queue_present : ℕ → PresentParameters → S → VkResult × S) where
  -- The loop, on the swapchains that are left and the index of the first: the results in order.
  unfoldable pub present_each : (ℕ → PresentParameters) → ℕ → List ℕ → S → List VkResult × S
  present_each params i [] s = ([], s)
  present_each params i (sc ∷ scs) s =
      let (r, s') = sc_queue_present sc (params i) s in
      let (rs, s'') = present_each params (suc i) scs s' in (r ∷ rs, s'')

  -- `ret` after the results.
  unfoldable pub first_error : VkResult → List VkResult → VkResult
  first_error ret [] = ret
  first_error ret (r ∷ rs) =
      first_error (if not (is_success r) && is_success ret then r else ret) rs

  unfoldable pub present_all :
      PresentAnswers → PresentInfo → Bool → Bool → S → VkResult × List VkResult × S
  unfolding present_params present_each first_error
  present_all a info use_image handled s =
      let (rs, s') = present_each (present_params a info use_image handled) 0 info.swapchains s in
      (first_error success rs, rs, s')

  -- `QueuePresentKHR`: the result, the results of the swapchains, and their states.
  unfoldable pub queue_present_khr : PresentAnswers → PresentInfo → S → VkResult × List VkResult × S
  unfolding present_all submit_wait_request
  queue_present_khr a info s =
      if a.owns_all
      then (if ltb 1 (length info.swapchains)
          then (let (r, handled) = submit_wait_request a info true in
              if is_success r then present_all a info true handled s else (r, [], s))
          else present_all a info false true s)
      else (a.driver, [], s)
