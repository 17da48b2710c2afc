-- ===== src/Wsi/Headless/Lifetime.antt =====
-- wsi/headless/swapchain.cpp: every object of an image is released exactly once, or not.
use rk_vulkan_wsi_layer.Prelude.{
  ℕ, ◌+◌, ◌≡◌, ◌≢◌, Bool, true, false, List, [], ◌∷◌, ◌++◌, none, arith, if◌then◌else◌,
}
use rk_vulkan_wsi_layer.Vulkan.{is_success}
use rk_vulkan_wsi_layer.Wsi.Swapchain.{SwapchainImage, unallocated}
use rk_vulkan_wsi_layer.Wsi.Swapchain.Scan.{Allocates}
use rk_vulkan_wsi_layer.Wsi.Headless.{
  ImageData, Call, image_destroyed, memory_freed, fence_destroyed, Answers, destroy_image,
  allocate_and_bind_swapchain_image, headless,
}

-- How often the image handle, a memory and a fence are released.
abbrev pub images_destroyed : List Call → ℕ
images_destroyed [] = 0
images_destroyed (image_destroyed h ∷ cs) = 1 + images_destroyed cs
images_destroyed (memory_freed h ∷ cs) = images_destroyed cs
images_destroyed (fence_destroyed h ∷ cs) = images_destroyed cs

abbrev pub memories_freed : List Call → ℕ
memories_freed [] = 0
memories_freed (image_destroyed h ∷ cs) = memories_freed cs
memories_freed (memory_freed h ∷ cs) = 1 + memories_freed cs
memories_freed (fence_destroyed h ∷ cs) = memories_freed cs

abbrev pub fences_destroyed : List Call → ℕ
fences_destroyed [] = 0
fences_destroyed (image_destroyed h ∷ cs) = fences_destroyed cs
fences_destroyed (memory_freed h ∷ cs) = fences_destroyed cs
fences_destroyed (fence_destroyed h ∷ cs) = 1 + fences_destroyed cs

-- An allocation followed by the release of the image, as the destructor of the swapchain makes it.
abbrev pub lifetime : Answers → SwapchainImage ImageData → List Call
lifetime a im =
    let (r, im', calls) = allocate_and_bind_swapchain_image a im in calls ++ (destroy_image im').1

-- A second release of an image calls the driver no more and changes nothing.
pub destroy_image_twice :
    (im : SwapchainImage ImageData)
    → destroy_image (destroy_image im).0 ≡ ((destroy_image im).0, [])
unfolding destroy_image
destroy_image_twice im = ground arith

abbrev bit : Bool → ℕ
bit true = 1
bit false = 0

-- Where the image's data can be created, its handle is destroyed once over its lifetime, and its
-- memory and its fence once if they were made, whichever of the later steps fails. The handles
-- that the driver writes are not null.
pub released_once :
    (a : Answers) (im : SwapchainImage ImageData)
    → im.image ≢ 0
    → im.image_data ≡ none
    → a.data_created ≡ true
    → a.memory_handle ≢ 0
    → a.fence_handle ≢ 0
    → (images_destroyed (lifetime a im) ≡ 1)
      × (memories_freed (lifetime a im) ≡ bit (is_success a.allocate_memory))
      × (fences_destroyed (lifetime a im) ≡ (
          if is_success a.allocate_memory
          then (if is_success a.bind_image_memory then bit (is_success a.create_fence) else 0)
          else 0))
unfolding allocate_and_bind_swapchain_image destroy_image
released_once a im h n c m f = ground arith

-- Where the data of an image whose allocation was deferred cannot be created, the image handle is
-- destroyed twice over the lifetime of the image, and nothing else: the failing call destroys it
-- and leaves it in the image.
pub destroyed_twice :
    (a : Answers) (im : SwapchainImage ImageData)
    → im.image ≢ 0
    → im.image_data ≡ none
    → im.status ≡ unallocated
    → a.data_created ≡ false
    → lifetime a im ≡ image_destroyed im.image ∷ image_destroyed im.image ∷ []
unfolding allocate_and_bind_swapchain_image destroy_image
destroyed_twice a im h n u c = ground arith

-- The platform keeps what the acquisition relies on: an allocated image is free, and one that could
-- not be allocated is destroyed or still to be allocated.
pub headless-Allocates :
    (a : ℕ → Answers) → Allocates (headless a).allocate_and_bind_swapchain_image
unfolding headless
headless-Allocates a = record {
  allocated = λ i im h. ground arith;
  refused = λ i im u n. ground arith;
}
