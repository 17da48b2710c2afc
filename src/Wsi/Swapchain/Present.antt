-- ===== src/Wsi/Swapchain/Present.antt =====
-- wsi/swapchain_base.cpp: presentation, by the application's thread and by the page flip thread.
use rk_vulkan_wsi_layer.Prelude.{
  ℕ, ◌+◌, Bool, true, false, List, [], ◌∷◌, Option, none, some, ◌==◌, ◌||◌, if◌then◌else◌,
}
use mathlib.Core.Option
use rk_vulkan_wsi_layer.Vulkan.{
  VkResult, success, timeout, error_out_of_date, error_surface_lost, is_success, PresentMode,
  shared_continuous_refresh, mode_eq, is_shared,
}
use rk_vulkan_wsi_layer.Util.RingBuffer.{push_back, pop_front}
use rk_vulkan_wsi_layer.Util.TimedSemaphore.{Timespec, post}
use rk_vulkan_wsi_layer.Wsi.Swapchain.{
  Swapchain, PendingPresentRequest, acquired, pending, free, max_swapchain_image_count,
}
use rk_vulkan_wsi_layer.Wsi.Swapchain.Images.{set_status}
use rk_vulkan_wsi_layer.Wsi.Swapchain.Wait.{Backend, Env, wait_for_pending_buffers}

unfoldable pub mode_listed : PresentMode → List PresentMode → Bool
mode_listed m [] = false
mode_listed m (p ∷ ps) = mode_eq p m || mode_listed m ps

module _ {D : Type 0} where
  -- `unpresent_image` up to the release of the lock, and after it.
  unfoldable pub unpresent_mark : ℕ → Swapchain D → Swapchain D
  unpresent_mark i sc = record sc {
    swapchain_images =
        set_status i (if is_shared sc.present_mode then acquired else free) sc.swapchain_images;
  }

  unfoldable pub unpresent_post : Swapchain D → Swapchain D
  unfolding post
  unpresent_post sc =
      if is_shared sc.present_mode
      then sc
      else record sc { free_image_semaphore = post sc.free_image_semaphore }

  unfoldable pub unpresent_image : ℕ → Swapchain D → Swapchain D
  unfolding unpresent_mark unpresent_post
  unpresent_image i sc = unpresent_post (unpresent_mark i sc)

  -- The boolean is `m_started_presenting` of the descendant.
  unfoldable pub has_descendant_started_presenting : Bool → Swapchain D → Bool
  has_descendant_started_presenting started sc = if sc.descendant == 0 then false else started

  -- `handle_switching_presentation_mode`.
  unfoldable pub handle_switching_presentation_mode :
      PresentMode → Swapchain D → VkResult × Swapchain D
  handle_switching_presentation_mode m sc =
      if mode_listed m sc.present_modes
      then (success, record sc { present_mode = m })
      else (error_surface_lost, sc)

  -- `set_present_id`.
  unfoldable pub set_present_id : ℕ → Swapchain D → Swapchain D
  set_present_id value sc = if value == 0 then sc else record sc { present_id = value }

module _ {D : Type 0} (B : Backend D) (now : Timespec) (env : Env D) where
  -- The ancestor, if there is one, is returned as the wait for its pending images leaves it.
  unfoldable pub call_present :
      Option (Swapchain D)
      → PendingPresentRequest
      → Swapchain D
      → Option (Swapchain D) × Swapchain D
  unfolding wait_for_pending_buffers
  call_present ancestor req sc =
      if sc.first_present
      then (
        if sc.ancestor == 0
            then ancestor
            else Option.map (wait_for_pending_buffers now env B) ancestor,
        record (B.present_image req
            (record sc { start_present_semaphore = sc.start_present_semaphore + 1 })) {
              first_present = false;
            },
      )
      else (ancestor, B.present_image req sc)

  -- The first boolean is `m_started_presenting` of the descendant.
  unfoldable pub notify_presentation_engine :
      Bool
      → Option (Swapchain D)
      → PendingPresentRequest
      → Swapchain D
      → VkResult × Option (Swapchain D) × Swapchain D
  unfolding call_present has_descendant_started_presenting post
  notify_presentation_engine started ancestor req sc =
      if has_descendant_started_presenting started sc
      then (
        error_out_of_date,
        ancestor,
        record sc {
          swapchain_images = set_status req.image_index free sc.swapchain_images;
          free_image_semaphore = post sc.free_image_semaphore;
        },
      )
      else (let marked = record sc {
        swapchain_images = set_status req.image_index pending sc.swapchain_images;
        started_presenting = true;
      } in
          if sc.page_flip_thread_run
          then (
            success,
            ancestor,
            record marked {
              pending_buffer_pool =
                  (push_back max_swapchain_image_count marked.pending_buffer_pool req).1;
              page_flip_semaphore = post marked.page_flip_semaphore;
            },
          )
          else (let (a, sc') = call_present ancestor req marked in (success, a, sc')))

  -- `page_flip_thread`: the request that an iteration presents once its semaphore was taken, `none`
  -- where the pool is empty.
  unfoldable pub page_flip_take : Swapchain D → Option PendingPresentRequest × Swapchain D
  page_flip_take sc =
      if mode_eq sc.present_mode shared_continuous_refresh
      then (some (record { image_index = 0; present_id = 0 }), sc)
      else (let (o, pool) = pop_front max_swapchain_image_count sc.pending_buffer_pool in
          (o, record sc { pending_buffer_pool = pool }))

  -- The rest of the iteration, from the first answer of the wait for the image's payload that is not
  -- a timeout.
  unfoldable pub page_flip_finish :
      VkResult
      → Option (Swapchain D)
      → PendingPresentRequest
      → Swapchain D
      → Option (Swapchain D) × Swapchain D
  unfolding call_present post
  page_flip_finish res ancestor req sc = if is_success res then call_present ancestor req sc else (
    ancestor,
    record sc { error_state = res; free_image_semaphore = post sc.free_image_semaphore },
  )

-- `while (... == VK_TIMEOUT)` over the answers of the driver; `none` while there is no other answer.
pub retry_present : List VkResult → Option VkResult
retry_present [] = none
retry_present (timeout ∷ rs) = retry_present rs
retry_present (r ∷ rs) = some r
