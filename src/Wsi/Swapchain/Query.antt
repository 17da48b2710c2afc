-- ===== src/Wsi/Swapchain/Query.antt =====
-- wsi/swapchain_base.cpp: the images that are listed and released, the queue of timing entries, and
-- the image list of a retired swapchain. The answers of the platform are arguments.
pub mod Listing
pub mod Release
use rk_vulkan_wsi_layer.Prelude.{
  ℕ, zero, suc, Bool, true, false, List, [], ◌∷◌, ◌++◌, Option, none, some, length, map, min, take,
  ltb, if◌then◌else◌, get_elem?,
}
use rk_vulkan_wsi_layer.Vulkan.{VkResult, success, not_ready, incomplete, error_out_of_host_memory}
use rk_vulkan_wsi_layer.Wsi.Swapchain.{
  Swapchain, SwapchainImage, Status, free, unallocated, PresentationEntry,
}
use rk_vulkan_wsi_layer.Wsi.Swapchain.Images.{status_at}
use rk_vulkan_wsi_layer.Wsi.Swapchain.Present.{unpresent_image}

-- `get_swapchain_images`: the result, the count and what was written.
pub record Listed : Type 0 where
  pub result : VkResult
  pub count : ℕ
  pub written : List ℕ

abbrev bind_status : Option Status → VkResult
bind_status (some unallocated) = error_out_of_host_memory
bind_status _ = success

unfoldable pub outstanding : List PresentationEntry → List PresentationEntry
outstanding [] = []
outstanding (e ∷ es) = let rest = outstanding es in if e.is_outstanding then e ∷ rest else rest

unfoldable pub num_outstanding_results : List PresentationEntry → ℕ
num_outstanding_results [] = 0
num_outstanding_results (e ∷ es) =
    let rest = num_outstanding_results es in if e.is_outstanding then suc rest else rest

module _ {D : Type 0} where
  -- The loop that copies the handles, with the index of the first image that is left. An empty list
  -- or a count of 0 is excluded by the assertions at the start.
  unfoldable pub copy_images : ℕ → ℕ → List (SwapchainImage D) → Listed
  copy_images count i [] = record { result = success; count = i; written = [] }
  copy_images zero i (im ∷ ims) = record { result = incomplete; count = i; written = [] }
  copy_images (suc n) i (im ∷ ims) =
      let rest = copy_images n (suc i) ims in record rest { written = im.image ∷ rest.written }

  -- The count given, or `none` where the array is null.
  unfoldable pub get_swapchain_images : Option ℕ → Swapchain D → Listed
  unfolding copy_images
  get_swapchain_images none sc = record {
    result = success;
    count = length sc.swapchain_images;
    written = [];
  }
  get_swapchain_images (some count) sc = copy_images count 0 sc.swapchain_images

  unfoldable pub release_images : List ℕ → Swapchain D → Swapchain D
  unfolding unpresent_image
  release_images [] sc = sc
  release_images (i ∷ is) sc = release_images is (unpresent_image i sc)

  -- An index past the array is excluded by the callers.
  unfoldable pub is_bind_allowed : ℕ → Swapchain D → VkResult
  is_bind_allowed i sc = bind_status (status_at sc.swapchain_images i)

  -- The boolean says whether the memory of the new queue can be reserved.
  unfoldable pub presentation_timing_queue_set_size :
      Bool → ℕ → Swapchain D → VkResult × Swapchain D
  unfolding outstanding num_outstanding_results
  presentation_timing_queue_set_size reserved size sc =
      if ltb size (num_outstanding_results sc.presentation_timing)
      then (not_ready, sc)
      else (if reserved
          then (
            success,
            record sc {
              presentation_timing = outstanding sc.presentation_timing;
              timing_capacity = size;
            },
          )
          else (error_out_of_host_memory, sc))

  abbrev destroy_free :
      (SwapchainImage D → SwapchainImage D) → Status → SwapchainImage D → SwapchainImage D
  destroy_free destroy_image free im = destroy_image im
  destroy_free destroy_image _ im = im

  unfoldable pub destroy_free_images :
      (SwapchainImage D → SwapchainImage D) → List (SwapchainImage D) → List (SwapchainImage D)
  destroy_free_images destroy_image [] = []
  destroy_free_images destroy_image (im ∷ ims) =
      destroy_free destroy_image im.status im ∷ destroy_free_images destroy_image ims

  -- `deprecate`.
  unfoldable pub deprecate : (SwapchainImage D → SwapchainImage D) → ℕ → Swapchain D → Swapchain D
  unfolding destroy_free_images
  deprecate destroy_image desc sc = record sc {
    swapchain_images = destroy_free_images destroy_image sc.swapchain_images;
    descendant = desc;
  }

  unfoldable pub clear_ancestor : Swapchain D → Swapchain D
  clear_ancestor sc = record sc { ancestor = 0 }

  unfoldable pub clear_descendant : Swapchain D → Swapchain D
  clear_descendant sc = record sc { descendant = 0 }
