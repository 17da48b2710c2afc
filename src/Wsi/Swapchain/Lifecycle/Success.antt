-- ===== src/Wsi/Swapchain/Lifecycle/Success.antt =====
-- wsi/swapchain_base.cpp: a swapchain that was initialised successfully.
use rk_vulkan_wsi_layer.Prelude.{
  ℕ, suc, ◌≡◌, refl, true, List, [], ◌∷◌, arith, length, length-replicate,
}
use rk_vulkan_wsi_layer.Vulkan.{VkResult, success}
use rk_vulkan_wsi_layer.Util.RingBuffer.{empty}
use rk_vulkan_wsi_layer.Wsi.FrameBoundary.{FrameBoundaryHandler}
use rk_vulkan_wsi_layer.Wsi.Swapchain.{Swapchain, SwapchainImage, max_swapchain_image_count}
use rk_vulkan_wsi_layer.Wsi.Swapchain.Images.{total, available}
use rk_vulkan_wsi_layer.Wsi.Swapchain.Wait.{Backend}
use rk_vulkan_wsi_layer.Wsi.Swapchain.Scan.{Allocates}
use rk_vulkan_wsi_layer.Wsi.Swapchain.Lifecycle.{
  InitAnswers, then_do, constructed, init_image, init_images, init_swapchain,
  handle_swapchain_present_modes_create_info, handle_scaling_create_info, resize_images,
  start_platform, init_free_semaphore, create_images, finish, new_image, from_resize, from_scaling,
  from_platform, from_free_semaphore, from_create_images,
}

-- A chain of calls that succeeds has succeeded at its first call.
then_do-success :
    {S : Type 0} (x : VkResult × S) (next : S → VkResult × S)
    → (then_do x next).0 ≡ success
    → (x.0 ≡ success) × (then_do x next ≡ next x.1)
then_do-success (success, s) next e = (refl, refl)
then_do-success (r, s) next e = ground arith

module _ {D : Type 0} (B : Backend D) (law : Allocates B.allocate_and_bind_swapchain_image)
    (a : InitAnswers D) where
  init_image-available :
      (i : ℕ) (im : SwapchainImage D)
      → (init_image B a i im).0 ≡ success
      → available (init_image B a i im).1.status ≡ 1
  unfolding init_image
  init_image-available i im e = ground (arith, law.allocated i (a.create_swapchain_image i im).1)

  init_images-available :
      (i : ℕ) (ims : List (SwapchainImage D))
      → (init_images B a i ims).0 ≡ success
      → (total available (init_images B a i ims).1 ≡ length ims)
        × (length (init_images B a i ims).1 ≡ length ims)
  unfolding init_images
  init_images-available i [] e = (refl, refl)
  init_images-available i (im ∷ ims) e =
      ground (arith, init_image-available i im, init_images-available (suc i) ims)

  -- What a successful initialisation leaves, beside the images themselves.
  pub record Ready (sc : Swapchain D) : Type 0 where
    pub images : length sc.swapchain_images ≡ a.min_image_count
    pub all_available : total available sc.swapchain_images ≡ length sc.swapchain_images
    pub count : sc.free_image_semaphore.count ≡ length sc.swapchain_images
    pub pool : sc.pending_buffer_pool ≡ empty max_swapchain_image_count
    pub no_signal : sc.page_flip_semaphore.count ≡ 0
    pub no_error : sc.error_state ≡ success
    pub mode : sc.present_mode ≡ a.present_mode
    pub first : sc.first_present ≡ true

  -- The fields that no step but the last changes.
  record Base (sc : Swapchain D) : Type 0 where
    pool : sc.pending_buffer_pool ≡ empty max_swapchain_image_count
    no_signal : sc.page_flip_semaphore.count ≡ 0
    mode : sc.present_mode ≡ a.present_mode
    first : sc.first_present ≡ true

  abbrev Sized : Swapchain D → Type 0
  Sized sc = Base sc × (length sc.swapchain_images ≡ a.min_image_count)

  abbrev Counted : Swapchain D → Type 0
  Counted sc = Sized sc × (sc.free_image_semaphore.count ≡ length sc.swapchain_images)

  abbrev Filled : Swapchain D → Type 0
  Filled sc = Counted sc × (total available sc.swapchain_images ≡ length sc.swapchain_images)

  modes-Base :
      (sc : Swapchain D) → Base sc → Base (handle_swapchain_present_modes_create_info a sc).1
  unfolding handle_swapchain_present_modes_create_info
  modes-Base sc b = ground (arith, b.pool, b.no_signal, b.mode, b.first)

  resize-Sized :
      (sc : Swapchain D) → Base sc → (resize_images a sc).0 ≡ success → Sized (resize_images a sc).1
  unfolding resize_images
  resize-Sized sc b e = ground (
    arith,
    b.pool,
    b.no_signal,
    b.mode,
    b.first,
    length-replicate a.min_image_count (new_image {D = D}),
  )

  start-Sized : (sc : Swapchain D) → Sized sc → Sized (start_platform a sc).1
  unfolding start_platform
  start-Sized sc (b, l) = ground (arith, b.pool, b.no_signal, b.mode, b.first)

  free-Counted : (sc : Swapchain D) → Sized sc → Counted (init_free_semaphore a sc).1
  unfolding init_free_semaphore
  free-Counted sc (b, l) = ground (arith, b.pool, b.no_signal, b.mode, b.first)

  create-Filled :
      (sc : Swapchain D)
      → Counted sc
      → (create_images B a sc).0 ≡ success
      → Filled (create_images B a sc).1
  unfolding create_images
  create-Filled sc ((b, l), c) e =
      ground
        (arith, b.pool, b.no_signal, b.mode, b.first, init_images-available 0 sc.swapchain_images)

  finish-Ready : (sc : Swapchain D) → Filled sc → (finish a sc).0 ≡ success → Ready (finish a sc).1
  unfolding finish
  finish-Ready sc (((b, l), c), v) e = ground (arith, b.pool, b.no_signal, b.mode, b.first)

  -- A call of a chain that succeeds, with what holds after it.
  step :
      {S : Type 0} (P Q : S → Type 0) (x : VkResult × S) (next : S → VkResult × S)
      → (x.0 ≡ success → P x.1)
      → ((s : S) → P s → (next s).0 ≡ success → Q (next s).1)
      → (then_do x next).0 ≡ success
      → Q (then_do x next).1
  step P Q (success, s) next p q e = q s (p refl) e
  step P Q (r, s) next p q e = absurd (ground arith)

  images-Ready :
      (sc : Swapchain D)
      → Counted sc
      → (from_create_images B a sc).0 ≡ success
      → Ready (from_create_images B a sc).1
  unfolding from_create_images
  images-Ready sc p =
      step Filled Ready (create_images B a sc) (finish a) (create-Filled sc p) finish-Ready

  free-Ready :
      (sc : Swapchain D)
      → Sized sc
      → (from_free_semaphore B a sc).0 ≡ success
      → Ready (from_free_semaphore B a sc).1
  unfolding from_free_semaphore
  free-Ready sc p =
      step Counted Ready (init_free_semaphore a sc) (from_create_images B a)
        (λ e. free-Counted sc p) images-Ready

  platform-Ready :
      (sc : Swapchain D)
      → Sized sc
      → (from_platform B a sc).0 ≡ success
      → Ready (from_platform B a sc).1
  unfolding from_platform
  platform-Ready sc p =
      step Sized Ready (start_platform a sc) (from_free_semaphore B a) (λ e. start-Sized sc p)
        free-Ready

  scaling-Ready :
      (sc : Swapchain D)
      → Sized sc
      → (from_scaling B a sc).0 ≡ success
      → Ready (from_scaling B a sc).1
  unfolding from_scaling
  scaling-Ready sc p =
      step Sized Ready (handle_scaling_create_info a.supported_scaling a.scaling, sc)
        (from_platform B a) (λ e. p) platform-Ready

  resize-Ready :
      (sc : Swapchain D) → Base sc → (from_resize B a sc).0 ≡ success → Ready (from_resize B a sc).1
  unfolding from_resize
  resize-Ready sc p =
      step Sized Ready (resize_images a sc) (from_scaling B a) (resize-Sized sc p) scaling-Ready

  constructed-Base :
      (h : FrameBoundaryHandler) → Base (record (constructed h) { present_mode = a.present_mode })
  constructed-Base h = record { pool = refl; no_signal = refl; mode = refl; first = refl }

  -- A new swapchain that is initialised successfully has the images that were asked for, all of them
  -- available and counted, an empty pool, no signal for the page flip thread, and no error.
  pub init_swapchain-Ready :
      (h : FrameBoundaryHandler)
      → (init_swapchain B a (constructed h)).0 ≡ success
      → Ready (init_swapchain B a (constructed h)).1
  unfolding init_swapchain
  init_swapchain-Ready h =
      let sc = record (constructed h) { present_mode = a.present_mode } in
      step Base Ready (handle_swapchain_present_modes_create_info a sc) (from_resize B a)
        (λ e. modes-Base sc (constructed-Base h)) resize-Ready
