-- ===== src/Layer/Tests.antt =====
-- The entry points of layer on concrete inputs.
use rk_vulkan_wsi_layer.Prelude.{
  ℕ, suc, if◌then◌else◌, ◌≡◌, refl, true, false, List, [], ◌∷◌, ◌++◌, none, some, ◌==◌,
}
use rk_vulkan_wsi_layer.Vulkan.{
  VkResult, success, error_out_of_date, error_device_lost, error_out_of_host_memory, immediate,
  is_success,
}
use rk_vulkan_wsi_layer.Wsi.FrameBoundary.{present_ids}
use rk_vulkan_wsi_layer.Util.Helpers.{present_id}
use rk_vulkan_wsi_layer.Wsi.Swapchain.QueuePresent.{PresentParameters}
use rk_vulkan_wsi_layer.Layer.SwapchainApi.Present.{
  PresentInfo, PresentAnswers, submit_wait_request, queue_present_khr,
}
use rk_vulkan_wsi_layer.Layer.SwapchainApi.Bind.{BindInfo, BindAnswers, allowed}

abbrev parameters : PresentParameters
parameters = record {
  present_fence = 0;
  switch_presentation_mode = false;
  new_mode = immediate;
  use_image_present_semaphore = false;
  pending_present = record { image_index = 0; present_id = 0 };
  handle_present_frame_boundary_event = false;
  has_present_timing_info = false;
  wait_semaphores = [];
  chain = [];
  entry_stored = true;
  image_wait_present = success;
  image_set_present_payload = λ waits signals event. success;
  fence_submit = λ wait fence. success;
}

abbrev info : PresentInfo
info = record {
  swapchains = 21 ∷ 22 ∷ [];
  image_indices = 0 ∷ 1 ∷ [];
  wait_semaphores = 4 ∷ [];
  chain = (present_id, present_ids (9 ∷ [])) ∷ [];
  present_ids = none;
  present_fences = none;
  present_modes = none;
  has_timings = false;
}

abbrev answers : PresentAnswers
answers = record {
  owns_all = true;
  driver = success;
  resized = true;
  present_semaphore = λ sc i. sc;
  sync_queue_submit = λ waits signals boundary. success;
  parameters = λ i. parameters;
}

-- Each swapchain counts its presents in the state; that with the handle 22 is out of date.
present : ℕ → PresentParameters → ℕ → VkResult × ℕ
present sc p n = (if sc == 22 then error_out_of_date else success, suc n)

submitted : (submit_wait_request answers info true).0 ≡ success
unfolding submit_wait_request
submitted = refl

second_fails :
    (queue_present_khr present answers info 0).1 ≡ (success ∷ []) ++ error_out_of_date ∷ []
unfolding queue_present_khr present
second_fails = refl

abbrev bind_answers : BindAnswers
bind_answers = record {
  maintenance_6 = true;
  owns_swapchain = λ sc. sc == 21;
  is_bind_allowed = λ sc i. if i == 0 then success else error_out_of_host_memory;
  driver_bind = λ b. error_device_lost;
  bind_swapchain_image = λ b. success;
}

abbrev bind : ℕ → ℕ → BindInfo
bind sc i = record { swapchain_info = some (sc, i); has_status = true }

owned_allowed : is_success (allowed bind_answers (bind 21 0)) ≡ true
unfolding allowed
owned_allowed = refl

foreign_allowed : is_success (allowed bind_answers (bind 30 1)) ≡ true
unfolding allowed
foreign_allowed = refl

second_refused : is_success (allowed bind_answers (bind 21 1)) ≡ false
unfolding allowed
second_refused = refl

abbrev binds : List BindInfo
binds = bind 30 1 ∷ bind 21 0 ∷ []
