-- ===== src/Wsi/Headless.antt =====
-- wsi/headless/swapchain.cpp: the platform that presents to nothing. The answers of the driver are
-- arguments, and the calls that release its objects are listed.
pub mod Lifetime
use rk_vulkan_wsi_layer.Prelude.{
  ℕ, Bool, true, false, List, [], ◌∷◌, ◌++◌, Option, none, some, ◌==◌, if◌then◌else◌, not,
}
use rk_vulkan_wsi_layer.Vulkan.{
  VkResult, success, error_out_of_host_memory, is_success, PresentMode, shared_demand_refresh,
  mode_eq,
}
use rk_vulkan_wsi_layer.Wsi.Synchronization.{FenceSync, create}
use rk_vulkan_wsi_layer.Wsi.Swapchain.{
  Swapchain, SwapchainImage, PendingPresentRequest, Status, invalid, free,
}
use rk_vulkan_wsi_layer.Wsi.Swapchain.Present.{set_present_id, unpresent_image}
use rk_vulkan_wsi_layer.Wsi.Swapchain.Wait.{Backend}

-- `image_data`. The null handle is 0.
pub record ImageData : Type 0 where
  pub memory : ℕ
  pub present_fence : FenceSync

pub data Call : Type 0 where
  image_destroyed memory_freed fence_destroyed : ℕ → Call

-- The answers to the calls of an allocation. A handle is written where its call succeeds.
pub record Answers : Type 0 where
  pub data_created : Bool
  pub allocate_memory : VkResult
  pub memory_handle : ℕ
  pub bind_image_memory : VkResult
  pub create_fence : VkResult
  pub fence_handle : ℕ

abbrev pub no_fence : FenceSync
no_fence = record { fence = 0; has_payload = false; payload_finished = false }

abbrev pub is_invalid : Status → Bool
is_invalid invalid = true
is_invalid _ = false

abbrev pub unless_null : (ℕ → Call) → ℕ → List Call
unless_null c h = if h == 0 then [] else c h ∷ []

destroy_handle : SwapchainImage ImageData → SwapchainImage ImageData × List Call
destroy_handle im =
    if is_invalid im.status
    then (im, [])
    else (record im { image = 0; status = invalid }, unless_null image_destroyed im.image)

-- The destructor of the image's data destroys its fence.
data_calls : Option ImageData → List Call
data_calls none = []
data_calls (some d) =
    unless_null memory_freed d.memory ++ unless_null fence_destroyed d.present_fence.fence

unfoldable pub destroy_image : SwapchainImage ImageData → SwapchainImage ImageData × List Call
unfolding destroy_handle data_calls
destroy_image im =
    let (im', calls) = destroy_handle im in
    (record im' { image_data = none }, calls ++ data_calls im'.image_data)

fail_with : VkResult → SwapchainImage ImageData → VkResult × SwapchainImage ImageData × List Call
unfolding destroy_image
fail_with r im = let (im', calls) = destroy_image im in (r, im', calls)

with_data : ℕ → FenceSync → SwapchainImage ImageData → SwapchainImage ImageData
with_data memory f im = record im {
  image_data = some (record { memory = memory; present_fence = f });
  status = free;
}

attach_fence :
    Answers
    → Option FenceSync
    → SwapchainImage ImageData
    → VkResult × SwapchainImage ImageData × List Call
unfolding fail_with with_data
attach_fence a none im = fail_with error_out_of_host_memory (with_data a.memory_handle no_fence im)
attach_fence a (some f) im = (success, with_data a.memory_handle f im, [])

unfoldable pub allocate_and_bind_swapchain_image :
    Answers → SwapchainImage ImageData → VkResult × SwapchainImage ImageData × List Call
unfolding fail_with with_data attach_fence create
allocate_and_bind_swapchain_image a im =
    if a.data_created
    then (if is_success a.allocate_memory
        then (if is_success a.bind_image_memory
            then attach_fence a (create a.create_fence a.fence_handle) im
            else fail_with a.bind_image_memory (with_data a.memory_handle no_fence im))
        else fail_with a.allocate_memory (with_data 0 no_fence im))
    else (error_out_of_host_memory, im, unless_null image_destroyed im.image)

unfoldable pub present_image : PendingPresentRequest → Swapchain ImageData → Swapchain ImageData
unfolding set_present_id unpresent_image
present_image req sc = unpresent_image req.image_index (set_present_id req.present_id sc)

-- `init_platform`: whether the page flip thread is used.
unfoldable pub use_presentation_thread : PresentMode → Bool
use_presentation_thread m = not (mode_eq m shared_demand_refresh)

-- The platform as the base class sees it; `a` answers for the image at each index.
unfoldable pub headless : (ℕ → Answers) → Backend ImageData
unfolding allocate_and_bind_swapchain_image destroy_image present_image
headless a = record {
  allocate_and_bind_swapchain_image =
      λ i im. let (r, im', calls) = allocate_and_bind_swapchain_image (a i) im in (r, im');
  destroy_image = λ im. (destroy_image im).0;
  present_image = present_image;
  get_free_buffer = λ t. (success, t);
}
