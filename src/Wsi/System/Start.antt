-- ===== src/Wsi/System/Start.antt =====
-- wsi/swapchain_base.cpp: a swapchain as `init` leaves it, before any thread has used it.
use rk_vulkan_wsi_layer.Prelude.{ℕ, ◌≤◌, ◌≡◌, refl, false}
use rk_vulkan_wsi_layer.Vulkan.{success, shared_continuous_refresh, mode_eq}
use rk_vulkan_wsi_layer.Util.TimedSemaphore.Waiters.{idle}
use rk_vulkan_wsi_layer.Wsi.FrameBoundary.{FrameBoundaryHandler}
use rk_vulkan_wsi_layer.Wsi.Swapchain.{Swapchain, max_swapchain_image_count}
use rk_vulkan_wsi_layer.Wsi.Swapchain.Lifecycle.{InitAnswers, constructed, init_swapchain}
use rk_vulkan_wsi_layer.Wsi.Swapchain.Lifecycle.Success.{init_swapchain-Ready}
use rk_vulkan_wsi_layer.Wsi.Headless.{ImageData, Answers, headless}
use rk_vulkan_wsi_layer.Wsi.Headless.Lifetime.{headless-Allocates}
use rk_vulkan_wsi_layer.Wsi.System.{System, waiting, IsFresh}

abbrev pub unused : Swapchain ImageData → System
unused sc = record {
  sc = sc;
  taken = 0;
  unposted = 0;
  flip = waiting;
  lost = 0;
  acquirer = idle;
  flipper = idle;
  spurious = 0;
}

-- If the initialisation of a new swapchain succeeds, for at most six images and a mode other than
-- continuous refresh, the swapchain is one from which the threads may start.
pub init_starts-IsFresh :
    (a : ℕ → Answers) (i : InitAnswers ImageData) (h : FrameBoundaryHandler)
    → i.min_image_count ≤ max_swapchain_image_count
    → mode_eq i.present_mode shared_continuous_refresh ≡ false
    → (init_swapchain (headless a) i (constructed h)).0 ≡ success
    → IsFresh (unused (init_swapchain (headless a) i (constructed h)).1)
init_starts-IsFresh a i h le m ok =
    let r = init_swapchain-Ready (headless a) (headless-Allocates a) i h ok in
    record {
      no_refresh = rw r.mode m;
      room = rw r.images le;
      all_available = r.all_available;
      count = r.count;
      pool = r.pool;
      no_signal = r.no_signal;
      none_taken = refl;
      none_unposted = refl;
      none_lost = refl;
      not_flipping = refl;
      no_acquirer = refl;
      no_flipper = refl;
    }
