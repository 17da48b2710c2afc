-- ===== src/Vulkan.antt =====
-- The result codes and presentation modes of the Vulkan API that the layer tests for or returns.
pub mod Extensions
use rk_vulkan_wsi_layer.Prelude.{ℕ, Bool, true, false}

-- `VkResult`. `other` is any further code that a driver may return.
pub data VkResult : Type 0 where
  success not_ready timeout incomplete : VkResult
  error_out_of_host_memory error_initialization_failed error_surface_lost : VkResult
  error_out_of_date error_invalid_external_handle error_extension_not_present : VkResult
  error_format_not_supported error_device_lost error_present_timing_queue_full : VkResult
  other : ℕ → VkResult

abbrev pub is_success : VkResult → Bool
is_success success = true
is_success _ = false

-- `VkPresentModeKHR`.
pub data PresentMode : Type 0 where
  immediate mailbox fifo fifo_relaxed shared_demand_refresh shared_continuous_refresh : PresentMode

abbrev pub mode_eq : PresentMode → PresentMode → Bool
mode_eq immediate immediate = true
mode_eq mailbox mailbox = true
mode_eq fifo fifo = true
mode_eq fifo_relaxed fifo_relaxed = true
mode_eq shared_demand_refresh shared_demand_refresh = true
mode_eq shared_continuous_refresh shared_continuous_refresh = true
mode_eq _ _ = false

-- The two modes in which the application and the presentation engine share one image.
abbrev pub is_shared : PresentMode → Bool
is_shared shared_demand_refresh = true
is_shared shared_continuous_refresh = true
is_shared _ = false
