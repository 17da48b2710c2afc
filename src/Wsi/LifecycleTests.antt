-- ===== src/Wsi/LifecycleTests.antt =====
-- The initialisation and the release of swapchains, images and memories on concrete inputs.
use rk_vulkan_wsi_layer.Prelude.{◌+◌, ◌≡◌, refl, true, false, [], ◌∷◌, none, some, arith}
use rk_vulkan_wsi_layer.Vulkan.{success, fifo, fifo_relaxed, mailbox}
use rk_vulkan_wsi_layer.Wsi.Swapchain.{SwapchainImage}
use rk_vulkan_wsi_layer.Wsi.Swapchain.Lifecycle.{InitAnswers, constructed, init_swapchain}
use rk_vulkan_wsi_layer.Wsi.Swapchain.Lifecycle.Teardown.{
  teardown, wait_before_teardown, released, destroyed, semaphores, teardown_releases,
}
use rk_vulkan_wsi_layer.Wsi.Headless.{ImageData, Answers, headless, image_destroyed}
use rk_vulkan_wsi_layer.Wsi.Headless.Lifetime.{lifetime, destroyed_twice}
use rk_vulkan_wsi_layer.Wsi.System.{IsFresh}
use rk_vulkan_wsi_layer.Wsi.System.Start.{unused, init_starts-IsFresh}
use rk_vulkan_wsi_layer.Wsi.System.Promises.Tests.{answers, now, env, fresh}
use rk_vulkan_wsi_layer.Wsi.CompatiblePresentModes.{PresentModeCompatibility, find_compatibility}
use rk_vulkan_wsi_layer.Wsi.Tests.{handler, deferred}

abbrev init_answers : InitAnswers ImageData
init_answers = record {
  present_mode = fifo;
  present_modes = some (fifo ∷ fifo_relaxed ∷ []);
  min_image_count = 3;
  scaling = some (record { scaling = 2; gravity_x = 0; gravity_y = 1 });
  deferred_allocation = false;
  old_swapchain = 0;
  modes_resized = true;
  is_compatible = λ m n. true;
  images_resized = true;
  supported_scaling = record { scaling = 7; gravity_x = 0; gravity_y = 1 };
  init_platform = (success, true);
  page_flip_attr_ok = true;
  page_flip_cond_ok = true;
  thread_started = true;
  free_attr_ok = true;
  free_cond_ok = true;
  create_swapchain_image = λ i im. (success, record im { image = 10 + i });
  present_semaphore = λ i. (success, 20 + i);
  present_fence_wait = λ i. (success, 30 + i);
  device_queue = 3;
  set_device_loader_data = success;
  sem_init_ok = true;
}

init_succeeds : (init_swapchain (headless answers) init_answers (constructed handler)).0 ≡ success
unfolding init_swapchain headless
init_succeeds = refl

init_starts-IsFresh_example :
    IsFresh (unused (init_swapchain (headless answers) init_answers (constructed handler)).1)
init_starts-IsFresh_example =
    init_starts-IsFresh answers init_answers handler (omega arith) refl init_succeeds

destroy-present_semaphore :
    (im : SwapchainImage ImageData)
    → ((headless answers).destroy_image im).present_semaphore ≡ im.present_semaphore
unfolding headless
destroy-present_semaphore im = ground arith

destroy-present_fence_wait :
    (im : SwapchainImage ImageData)
    → ((headless answers).destroy_image im).present_fence_wait ≡ im.present_fence_wait
unfolding headless
destroy-present_fence_wait im = ground arith

teardown_releases_example :
    let sc1 = (wait_before_teardown (headless answers) now env none fresh.sc).1 in
    (released
        (headless answers)
        now
        env
        (teardown (headless answers) now env none none fresh.sc).calls
      ≡ sc1.swapchain_images)
    × (destroyed
          (headless answers)
          now
          env
          (teardown (headless answers) now env none none fresh.sc).calls
        ≡ semaphores (headless answers) now env sc1.swapchain_images)
teardown_releases_example =
    teardown_releases (headless answers) now env none none fresh.sc destroy-present_semaphore
      destroy-present_fence_wait

abbrev no_data : Answers
no_data = record (answers 0) { data_created = false }

destroyed_twice_example : lifetime no_data deferred ≡ image_destroyed 5 ∷ image_destroyed 5 ∷ []
destroyed_twice_example = destroyed_twice no_data deferred (omega arith) refl refl refl

abbrev fifo_entry : PresentModeCompatibility
fifo_entry = record {
  present_mode = fifo;
  present_mode_count = 2;
  compatible_present_modes = fifo ∷ fifo_relaxed ∷ [];
}

abbrev mailbox_entry : PresentModeCompatibility
mailbox_entry = record {
  present_mode = mailbox;
  present_mode_count = 1;
  compatible_present_modes = mailbox ∷ mailbox ∷ [];
}

fifo_found : find_compatibility fifo (fifo_entry ∷ mailbox_entry ∷ []) ≡ some fifo_entry
unfolding find_compatibility
fifo_found = refl

mailbox_found : find_compatibility mailbox (fifo_entry ∷ mailbox_entry ∷ []) ≡ some mailbox_entry
unfolding find_compatibility
mailbox_found = refl
