-- ===== src/Layer/SwapchainApi.antt =====
-- layer/swapchain_api.cpp: the entry points for swapchains. A call for a swapchain or a surface that
-- the layer does not own goes to the driver, whose answer is an argument.
pub mod Present
pub mod Bind
use rk_vulkan_wsi_layer.Prelude.{
  ℕ, zero, suc, ◌+◌, ◌-◌, ◌<◌, Bool, true, false, not, ◌&&◌, ◌||◌, List, [], ◌∷◌, Option, none,
  some, length, map, ltb, replicate, ◌==◌, if◌then◌else◌, get_or,
}
use rk_vulkan_wsi_layer.Vulkan.{
  VkResult, success, incomplete, error_out_of_host_memory, error_initialization_failed, is_success,
}

-- `CreateSwapchainKHR`: what becomes of the swapchain object that the layer made.
pub data Outcome : Type 0 where
  -- No object was made; the driver was asked, or not.
  forwarded refused : VkResult → Outcome
  -- The object was destroyed, or it was handed to the application.
  destroyed : VkResult → Outcome
  handed_out : Outcome

pub record CreateAnswers : Type 0 where
  pub should_layer_create : Bool
  pub can_icds_create : Bool
  pub driver : VkResult
  pub allocated : Bool
  pub init : VkResult
  pub add_layer_swapchain : VkResult

unfoldable pub create_swapchain : CreateAnswers → Outcome
create_swapchain a =
    if a.should_layer_create
    then (if a.allocated
        then (if is_success a.init
            then (if is_success a.add_layer_swapchain
                then handed_out
                else destroyed a.add_layer_swapchain)
            else destroyed a.init)
        else refused error_out_of_host_memory)
    else (if a.can_icds_create then forwarded a.driver else refused error_initialization_failed)

-- `GetPhysicalDevicePresentRectanglesKHR`: the count given and whether there is an array; the result,
-- the count and the extent written.
pub record Rectangles : Type 0 where
  pub result : VkResult
  pub count : ℕ
  pub extent : Option (ℕ × ℕ)

unfoldable pub present_rectangles : Bool → VkResult × (ℕ × ℕ) → ℕ → Rectangles
present_rectangles has_array (caps, extent) count =
    if has_array
    then (if count == 0
        then record { result = incomplete; count = count; extent = none }
        else (if is_success caps
            then record { result = success; count = 1; extent = some extent }
            else record { result = caps; count = 1; extent = none }))
    else record { result = success; count = 1; extent = none }

abbrev pub max_device_group_size : ℕ
max_device_group_size = 32

-- `presentMask` of `GetDeviceGroupPresentCapabilitiesKHR`.
unfoldable pub present_mask : List ℕ
present_mask = 1 ∷ replicate (max_device_group_size - 1) 0
