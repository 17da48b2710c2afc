-- ===== src/Wsi/Wayland/Buffers.antt =====
-- wsi/wayland/swapchain.cpp: the buffers of the images, and the wait for one that is free.
use rk_vulkan_wsi_layer.Prelude.{
  ℕ, ◌+◌, ◌*◌, ◌<◌, ◌≤◌, ◌≡◌, ◌≢◌, false, List, [], ◌∷◌, ◌++◌, some, arith, if◌then◌else◌, ◌==◌,
}
use rk_vulkan_wsi_layer.Vulkan.{is_success}
use rk_vulkan_wsi_layer.Wsi.Swapchain.{SwapchainImage, unallocated, free}
use rk_vulkan_wsi_layer.Wsi.Wayland.{
  WaylandImageData, Call, image_destroyed, buffer_created, buffer_destroyed, Answers, destroy_image,
  allocate_and_bind_swapchain_image, create_wl_buffer, destroy_handle, ms_timeout,
}

abbrev pub images_destroyed : List Call → ℕ
images_destroyed [] = 0
images_destroyed (image_destroyed h ∷ cs) = 1 + images_destroyed cs
images_destroyed (buffer_created h ∷ cs) = images_destroyed cs
images_destroyed (buffer_destroyed h ∷ cs) = images_destroyed cs

abbrev pub buffers_created : List Call → ℕ
buffers_created [] = 0
buffers_created (image_destroyed h ∷ cs) = buffers_created cs
buffers_created (buffer_created h ∷ cs) = 1 + buffers_created cs
buffers_created (buffer_destroyed h ∷ cs) = buffers_created cs

abbrev pub buffers_destroyed : List Call → ℕ
buffers_destroyed [] = 0
buffers_destroyed (image_destroyed h ∷ cs) = buffers_destroyed cs
buffers_destroyed (buffer_created h ∷ cs) = buffers_destroyed cs
buffers_destroyed (buffer_destroyed h ∷ cs) = 1 + buffers_destroyed cs

-- An allocation followed by the release of the image.
abbrev pub lifetime : Answers → WaylandImageData → SwapchainImage WaylandImageData → List Call
lifetime a d im =
    let (r, im', calls) = allocate_and_bind_swapchain_image a d im in calls ++ (destroy_image im').1

-- The release of an image that is not destroyed yet.
destroy_lem :
    (im : SwapchainImage WaylandImageData) (d : WaylandImageData)
    → im.status ≡ free
    → im.image ≢ 0
    → im.image_data ≡ some d
    → (images_destroyed (destroy_image im).1 ≡ 1)
      × (buffers_created (destroy_image im).1 ≡ 0)
      × (buffers_destroyed (destroy_image im).1 ≡ (if d.buffer == 0 then 0 else 1))
unfolding destroy_image destroy_handle
destroy_lem im d f n e = ground arith

listener_lem :
    (a : Answers) (d : WaylandImageData) (im : SwapchainImage WaylandImageData)
    → im.status ≡ free
    → im.image ≢ 0
    → a.buffer_handle ≢ 0
    → a.listener_added ≡ false
    → (create_wl_buffer a d im).2
      ≡ buffer_created a.buffer_handle
        ∷ image_destroyed im.image
        ∷ buffer_destroyed a.buffer_handle
        ∷ []
unfolding create_wl_buffer destroy_image destroy_handle
listener_lem a d im f n b l = ground arith

-- An image whose memory cannot be allocated, although its allocation was deferred, counts as free
-- after the error, and no buffer is created for it.
pub refused_stays_free :
    (a : Answers) (d : WaylandImageData) (im : SwapchainImage WaylandImageData)
    → im.status ≡ unallocated
    → is_success (a.allocate d.external_mem).0 ≡ false
    → (is_success (allocate_and_bind_swapchain_image a d im).0 ≡ false)
      × ((allocate_and_bind_swapchain_image a d im).1.status ≡ free)
      × (buffers_created (allocate_and_bind_swapchain_image a d im).2 ≡ 0)
unfolding allocate_and_bind_swapchain_image
refused_stays_free a d im u n = ground arith

-- The timeout in milliseconds is an `int`, and below its range the timeout rounded down.
pub timeout_fits :
    (t : ℕ)
    → (ms_timeout t ≤ 2147483647) × (t < 2147483647 * 1000 * 1000 → ms_timeout t * 1000000 ≤ t)
unfolding ms_timeout
timeout_fits t = ground arith
