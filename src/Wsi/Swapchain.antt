-- ===== src/Wsi/Swapchain.antt =====
-- wsi/swapchain_base.hpp and swapchain_base.cpp: the state of a swapchain.
-- A handle is a number and 0 is the null handle. `D` is what a platform keeps with an image.
pub mod Images
pub mod Present
pub mod Acquire
pub mod Wait
pub mod Scan
pub mod Signals
pub mod Query
pub mod QueuePresent
pub mod Lifecycle
use rk_vulkan_wsi_layer.Prelude.{ℕ, Bool, true, false, not, List, Option, u32}
use rk_vulkan_wsi_layer.Vulkan.{VkResult, is_success, PresentMode}
use rk_vulkan_wsi_layer.Util.RingBuffer.{RingBuffer}
use rk_vulkan_wsi_layer.Util.TimedSemaphore.{TimedSemaphore}
use rk_vulkan_wsi_layer.Wsi.FrameBoundary.{FrameBoundaryHandler}

-- `swapchain_image::status`.
pub data Status : Type 0 where
  invalid acquired pending presented free unallocated : Status

pub record SwapchainImage (D : Type 0) : Type 0 where
  pub image_data : Option D
  pub image : ℕ
  pub status : Status
  pub present_semaphore : ℕ
  pub present_fence_wait : ℕ

pub record PendingPresentRequest : Type 0 where
  pub image_index : ℕ
  pub present_id : ℕ

pub record PresentationEntry : Type 0 where
  pub is_outstanding : Bool
  pub present_id : ℕ

-- `surface_properties::MAX_SWAPCHAIN_IMAGE_COUNT`, the capacity of the pending pool.
abbrev pub max_swapchain_image_count : ℕ
max_swapchain_image_count = 6

pub record Swapchain (D : Type 0) : Type 0 where
  pub page_flip_thread_run : Bool
  pub page_flip_semaphore : TimedSemaphore
  pub start_present_semaphore : ℕ
  pub thread_sem_defined : Bool
  pub first_present : Bool
  pub pending_buffer_pool : RingBuffer PendingPresentRequest
  pub swapchain_images : List (SwapchainImage D)
  pub present_mode : PresentMode
  pub present_modes : List PresentMode
  pub descendant : ℕ
  pub ancestor : ℕ
  pub queue : ℕ
  pub error_state : VkResult
  pub free_image_semaphore : TimedSemaphore
  pub started_presenting : Bool
  pub present_id : ℕ
  pub frame_boundary_handler : FrameBoundaryHandler
  -- The entries and the capacity of `m_presentation_timing`.
  pub presentation_timing : List PresentationEntry
  pub timing_capacity : ℕ

abbrev pub error_has_occured : {D : Type 0} → Swapchain D → Bool
error_has_occured sc = not (is_success sc.error_state)
