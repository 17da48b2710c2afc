-- ===== src/Wsi/Swapchain/QueuePresent.antt =====
-- wsi/swapchain_base.cpp: `queue_present`.
use rk_vulkan_wsi_layer.Prelude.{
  ℕ, Bool, false, List, [], ◌∷◌, ◌++◌, Option, none, some, length, leb, ◌==◌, if◌then◌else◌,
  get_elem?,
}
use rk_vulkan_wsi_layer.Vulkan.{
  VkResult, success, error_out_of_host_memory, error_present_timing_queue_full, PresentMode,
}
use rk_vulkan_wsi_layer.Util.Helpers.{Chain}
use rk_vulkan_wsi_layer.Util.TimedSemaphore.{Timespec}
use rk_vulkan_wsi_layer.Wsi.FrameBoundary.{Payload, Event, handle_frame_boundary_event}
use rk_vulkan_wsi_layer.Wsi.Swapchain.{Swapchain, PendingPresentRequest, PresentationEntry}
use rk_vulkan_wsi_layer.Wsi.Swapchain.Wait.{Backend, Env}
use rk_vulkan_wsi_layer.Wsi.Swapchain.Present.{
  handle_switching_presentation_mode, notify_presentation_engine,
}

-- `swapchain_presentation_parameters` and the parts of `VkPresentInfoKHR` that are read, with the
-- answers of the driver and of the platform to the calls of a present.
pub record PresentParameters : Type 0 where
  pub present_fence : ℕ
  pub switch_presentation_mode : Bool
  pub new_mode : PresentMode
  pub use_image_present_semaphore : Bool
  pub pending_present : PendingPresentRequest
  pub handle_present_frame_boundary_event : Bool
  pub has_present_timing_info : Bool
  pub wait_semaphores : List ℕ
  pub chain : Chain Payload
  -- Whether the timing entry can be stored.
  pub entry_stored : Bool
  -- The wait for the image's last payload.
  pub image_wait_present : VkResult
  -- The submission, from the semaphores that it waits on and signals and the structure it carries.
  pub image_set_present_payload : List ℕ → List ℕ → Option Event → VkResult
  -- The submission that waits on a semaphore and signals the present fence.
  pub fence_submit : ℕ → ℕ → VkResult

module _ {D : Type 0} where
  -- `TRY`: an error ends the call with the state that it has reached.
  abbrev pub try :
      {A : Type 0} → VkResult × Swapchain D → (VkResult → Swapchain D → A) → (Swapchain D → A) → A
  try (success, sc) fail next = next sc
  try (r, sc) fail next = fail r sc

  unfoldable pub queue_timing_entry : PresentParameters → Swapchain D → VkResult × Swapchain D
  queue_timing_entry p sc =
      if p.has_present_timing_info
      then (if leb sc.timing_capacity (length sc.presentation_timing)
          then (error_present_timing_queue_full, sc)
          else (if p.entry_stored
              then (
                success,
                record sc { presentation_timing = sc.presentation_timing ++ new_entry ∷ [] },
              )
              else (error_out_of_host_memory, sc)))
      else (success, sc)
    where
      new_entry : PresentationEntry
      new_entry = record { is_outstanding = false; present_id = p.pending_present.present_id }

  -- The handles of the image that is presented; null where the index is past the array.
  unfoldable pub image_handles : ℕ → Swapchain D → ℕ × ℕ × ℕ
  image_handles i sc = elim (get_elem? sc.swapchain_images i) [
    | none ↦ (0, 0, 0)
    | some im ↦ (im.image, im.present_semaphore, im.present_fence_wait)
  ]

  unfoldable pub frame_event : PresentParameters → ℕ → Swapchain D → Option Event × Swapchain D
  frame_event p image sc =
      if p.handle_present_frame_boundary_event
      then (let (e, h) = handle_frame_boundary_event p.chain image sc.frame_boundary_handler in
          (e, record sc { frame_boundary_handler = h }))
      else (none, sc)

  unfoldable pub submit_payload :
      PresentParameters → ℕ × ℕ × ℕ → Option Event × Swapchain D → VkResult × Swapchain D
  submit_payload p (image, present_semaphore, present_fence_wait) (event, sc) = (
    p.image_set_present_payload
        (if p.use_image_present_semaphore then present_semaphore ∷ [] else p.wait_semaphores)
        (if p.present_fence == 0 then [] else present_fence_wait ∷ []) event,
    sc,
  )

  module _ (B : Backend D) (now : Timespec) (env : Env D) (started : Bool)
      (ancestor : Option (Swapchain D)) (p : PresentParameters) where
    stop : VkResult → Swapchain D → VkResult × Option (Swapchain D) × Swapchain D
    stop r sc = (r, ancestor, sc)

    -- What follows the choice of the presentation mode.
    submit_and_notify : ℕ × ℕ × ℕ → Swapchain D → VkResult × Option (Swapchain D) × Swapchain D
    unfolding stop submit_payload frame_event
    submit_and_notify (image, semaphore, fence_wait) s =
        try (if s.page_flip_thread_run then (success, s) else (p.image_wait_present, s)) stop λ s1.
          try (submit_payload p (image, semaphore, fence_wait) (frame_event p image s1)) stop λ s2.
            try
              (if p.present_fence == 0
                then (success, s2)
                else (p.fence_submit fence_wait p.present_fence, s2))
              stop λ s3. notify_presentation_engine B now env started ancestor p.pending_present s3

    unfoldable pub queue_present : Swapchain D → VkResult × Option (Swapchain D) × Swapchain D
    unfolding stop submit_and_notify queue_timing_entry image_handles
        handle_switching_presentation_mode
    queue_present sc = try (queue_timing_entry p sc) stop λ s.
        try
          (if p.switch_presentation_mode
            then handle_switching_presentation_mode p.new_mode s
            else (success, s))
          stop λ s'. submit_and_notify (image_handles p.pending_present.image_index s') s'
