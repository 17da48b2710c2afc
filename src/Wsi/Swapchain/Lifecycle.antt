-- ===== src/Wsi/Swapchain/Lifecycle.antt =====
-- wsi/swapchain_base.cpp: the construction and the initialisation of a swapchain. The answers of the
-- driver, of the host's allocator and of the platform are arguments.
pub mod Success
pub mod Teardown
use rk_vulkan_wsi_layer.Prelude.{
  ℕ, zero, suc, ◌/◌, ◌%◌, Bool, true, false, not, ◌&&◌, ◌||◌, List, [], ◌∷◌, Option, none, some,
  length, replicate, ◌==◌, if◌then◌else◌,
}
use mathlib.Core.Option
use rk_vulkan_wsi_layer.Vulkan.{
  VkResult, success, not_ready, error_out_of_host_memory, error_initialization_failed, PresentMode,
  immediate,
}
use rk_vulkan_wsi_layer.Util.RingBuffer.{empty}
use rk_vulkan_wsi_layer.Util.TimedSemaphore.{TimedSemaphore, init}
use rk_vulkan_wsi_layer.Wsi.FrameBoundary.{FrameBoundaryHandler}
use rk_vulkan_wsi_layer.Wsi.Swapchain.{
  Swapchain, SwapchainImage, invalid, unallocated, max_swapchain_image_count,
}
use rk_vulkan_wsi_layer.Wsi.Swapchain.Wait.{Backend}
use rk_vulkan_wsi_layer.Wsi.Swapchain.Query.{deprecate}

-- Whether two words have a bit in common, among their lowest bits.
abbrev pub share_bit : ℕ → ℕ → ℕ → Bool
share_bit zero a b = false
share_bit (suc n) a b = let rest = share_bit n (a / 2) (b / 2) in (a % 2 == 1 && b % 2 == 1) || rest

-- The scaling behaviour and the two gravities, as requested and as supported.
pub record Scaling : Type 0 where
  pub scaling : ℕ
  pub gravity_x : ℕ
  pub gravity_y : ℕ

abbrev unsupported : ℕ → ℕ → Bool
unsupported supported requested = not (requested == 0) && not (share_bit 32 supported requested)

unfoldable pub handle_scaling_create_info : Scaling → Option Scaling → VkResult
handle_scaling_create_info supported none = success
handle_scaling_create_info supported (some r) =
    if unsupported supported.scaling r.scaling
      || (unsupported supported.gravity_x r.gravity_x
          || unsupported supported.gravity_y r.gravity_y)
    then error_initialization_failed
    else success

-- The fields read of `VkSwapchainCreateInfoKHR` and its chain, and the answers to the calls.
pub record InitAnswers (D : Type 0) : Type 0 where
  pub present_mode : PresentMode
  pub present_modes : Option (List PresentMode)
  pub min_image_count : ℕ
  pub scaling : Option Scaling
  pub deferred_allocation : Bool
  pub old_swapchain : ℕ
  pub modes_resized : Bool
  pub is_compatible : PresentMode → PresentMode → Bool
  pub images_resized : Bool
  pub supported_scaling : Scaling
  pub init_platform : VkResult × Bool
  pub page_flip_attr_ok : Bool
  pub page_flip_cond_ok : Bool
  pub thread_started : Bool
  pub free_attr_ok : Bool
  pub free_cond_ok : Bool
  pub create_swapchain_image : ℕ → SwapchainImage D → VkResult × SwapchainImage D
  pub present_semaphore : ℕ → VkResult × ℕ
  pub present_fence_wait : ℕ → VkResult × ℕ
  pub device_queue : ℕ
  pub set_device_loader_data : VkResult
  pub sem_init_ok : Bool

-- `TRY`, with the rest of the body.
abbrev pub then_do : {S : Type 0} → VkResult × S → (S → VkResult × S) → VkResult × S
then_do (success, s) next = next s
then_do (r, s) next = (r, s)

-- The check of each mode against the mode of the swapchain.
unfoldable pub all_compatible : (PresentMode → Bool) → List PresentMode → Bool
all_compatible compatible [] = true
all_compatible compatible (m ∷ ms) = compatible m && all_compatible compatible ms

module _ {D : Type 0} where
  abbrev pub new_image : SwapchainImage D
  new_image = record {
    image_data = none;
    image = 0;
    status = invalid;
    present_semaphore = 0;
    present_fence_wait = 0;
  }

  -- `swapchain_base::swapchain_base`.
  abbrev pub constructed : FrameBoundaryHandler → Swapchain D
  constructed h = record {
    page_flip_thread_run = false;
    page_flip_semaphore = record { initialized = false; count = 0 };
    start_present_semaphore = 0;
    thread_sem_defined = false;
    first_present = true;
    pending_buffer_pool = empty max_swapchain_image_count;
    swapchain_images = [];
    present_mode = immediate;
    present_modes = [];
    descendant = 0;
    ancestor = 0;
    queue = 0;
    error_state = not_ready;
    free_image_semaphore = record { initialized = false; count = 0 };
    started_presenting = false;
    present_id = 0;
    frame_boundary_handler = h;
    presentation_timing = [];
    timing_capacity = 0;
  }

  -- Where a mode is not compatible the initialisation fails and the swapchain is destroyed; the part
  -- of the list that was copied by then is not described.
  unfoldable pub handle_swapchain_present_modes_create_info :
      InitAnswers D → Swapchain D → VkResult × Swapchain D
  unfolding all_compatible
  handle_swapchain_present_modes_create_info a sc = elim a.present_modes [
    | none ↦ (success, sc)
    | some modes ↦
        if a.modes_resized
        then (if all_compatible (a.is_compatible sc.present_mode) modes
            then (success, record sc { present_modes = modes })
            else (error_initialization_failed, sc))
        else (error_out_of_host_memory, sc)
  ]

  unfoldable pub resize_images : InitAnswers D → Swapchain D → VkResult × Swapchain D
  resize_images a sc =
      if a.images_resized
      then (success, record sc { swapchain_images = replicate a.min_image_count new_image })
      else (error_out_of_host_memory, sc)

  unfoldable pub init_page_flip_thread : InitAnswers D → Swapchain D → VkResult × Swapchain D
  unfolding init
  init_page_flip_thread a sc =
      let (r, sem) = init a.page_flip_attr_ok a.page_flip_cond_ok 0 sc.page_flip_semaphore in
      then_do (r, record sc { page_flip_semaphore = sem })
        λ s. (
          if a.thread_started then success else error_initialization_failed,
          record s { thread_sem_defined = true; page_flip_thread_run = true },
        )

  unfoldable pub start_platform : InitAnswers D → Swapchain D → VkResult × Swapchain D
  unfolding init_page_flip_thread
  start_platform a sc =
      then_do (a.init_platform.0, sc)
        λ s. if a.init_platform.1 then init_page_flip_thread a s else (success, s)

  unfoldable pub init_free_semaphore : InitAnswers D → Swapchain D → VkResult × Swapchain D
  unfolding init
  init_free_semaphore a sc =
      let (r, sem) =
        init a.free_attr_ok a.free_cond_ok (length sc.swapchain_images) sc.free_image_semaphore in
      (r, record sc { free_image_semaphore = sem })

  -- One round of the loop over the images, at an index.
  unfoldable pub init_image :
      Backend D → InitAnswers D → ℕ → SwapchainImage D → VkResult × SwapchainImage D
  init_image B a i im = then_do (a.create_swapchain_image i im) λ im1.
      then_do
        (if a.deferred_allocation
          then (success, record im1 { status = unallocated })
          else B.allocate_and_bind_swapchain_image i im1)
        λ im2.
          then_do
            (
              (a.present_semaphore i).0,
              record im2 { present_semaphore = (a.present_semaphore i).1 },
            )
            λ im3. (
              (a.present_fence_wait i).0,
              record im3 { present_fence_wait = (a.present_fence_wait i).1 },
            )

  -- The loop; the images after a failure are left.
  unfoldable pub init_images :
      Backend D → InitAnswers D → ℕ → List (SwapchainImage D) → VkResult × List (SwapchainImage D)
  unfolding init_image
  init_images B a i [] = (success, [])
  init_images B a i (im ∷ ims) =
      let (r', ims') = init_images B a (suc i) ims in
      let (r, im') = init_image B a i im in
      elim r [ success ↦ (r', im' ∷ ims') | e ↦ (e, im' ∷ ims) ]

  unfoldable pub create_images : Backend D → InitAnswers D → Swapchain D → VkResult × Swapchain D
  unfolding init_images
  create_images B a sc =
      let (r, ims) = init_images B a 0 sc.swapchain_images in
      (r, record sc { swapchain_images = ims })

  unfoldable pub finish : InitAnswers D → Swapchain D → VkResult × Swapchain D
  finish a sc =
      then_do (a.set_device_loader_data, record sc { queue = a.device_queue })
        λ s.
          if a.sem_init_ok
          then (
            success,
            record s {
              start_present_semaphore = 0;
              ancestor = if a.old_swapchain == 0 then s.ancestor else a.old_swapchain;
              error_state = success;
            },
          )
          else (error_out_of_host_memory, s)

  -- The rest of the initialisation, from each of its calls on.
  unfoldable pub from_create_images :
      Backend D → InitAnswers D → Swapchain D → VkResult × Swapchain D
  unfolding create_images finish
  from_create_images B a sc = then_do (create_images B a sc) (finish a)

  unfoldable pub from_free_semaphore :
      Backend D → InitAnswers D → Swapchain D → VkResult × Swapchain D
  unfolding init_free_semaphore from_create_images
  from_free_semaphore B a sc = then_do (init_free_semaphore a sc) (from_create_images B a)

  unfoldable pub from_platform : Backend D → InitAnswers D → Swapchain D → VkResult × Swapchain D
  unfolding start_platform from_free_semaphore
  from_platform B a sc = then_do (start_platform a sc) (from_free_semaphore B a)

  unfoldable pub from_scaling : Backend D → InitAnswers D → Swapchain D → VkResult × Swapchain D
  unfolding from_platform handle_scaling_create_info
  from_scaling B a sc =
      then_do (handle_scaling_create_info a.supported_scaling a.scaling, sc) (from_platform B a)

  unfoldable pub from_resize : Backend D → InitAnswers D → Swapchain D → VkResult × Swapchain D
  unfolding resize_images from_scaling
  from_resize B a sc = then_do (resize_images a sc) (from_scaling B a)

  -- `swapchain_base::init`, less the deprecation of the old swapchain, which is its last step.
  unfoldable pub init_swapchain : Backend D → InitAnswers D → Swapchain D → VkResult × Swapchain D
  unfolding handle_swapchain_present_modes_create_info from_resize
  init_swapchain B a sc =
      then_do
        (handle_swapchain_present_modes_create_info a (record sc { present_mode = a.present_mode }))
        (from_resize B a)

  -- The old swapchain, if there is one, is deprecated when all else has succeeded. `self` is the
  -- handle of the new one.
  unfoldable pub deprecate_old :
      Backend D → ℕ → VkResult → Option (Swapchain D) → Option (Swapchain D)
  unfolding deprecate
  deprecate_old B self success old = Option.map (deprecate B.destroy_image self) old
  deprecate_old B self _ old = old
