-- ===== src/Wsi/Wayland.antt =====
-- wsi/wayland/swapchain.cpp and surface.cpp: the platform that presents to a Wayland compositor. The
-- answers of the driver, of the allocator and of the compositor are arguments, and the calls that
-- create and release objects are listed. The null handle is 0.
pub mod Buffers
pub mod Formats
pub mod FormatsKept
pub mod Creation
pub mod Present
pub mod PresentOutcome
use rk_vulkan_wsi_layer.Prelude.{
  ℕ, zero, suc, ◌+◌, ◌*◌, ◌/◌, ◌^◌, ◌≡◌, Bool, true, false, not, ◌&&◌, List, [], ◌∷◌, ◌++◌, Option,
  none, some, ◌==◌, leb, ltb, if◌then◌else◌,
}
use rk_vulkan_wsi_layer.Vulkan.{
  VkResult, success, not_ready, timeout, error_out_of_host_memory, error_initialization_failed,
  error_surface_lost, error_format_not_supported, is_success,
}
use rk_vulkan_wsi_layer.Wsi.Synchronization.{FenceSync, create}
use rk_vulkan_wsi_layer.Wsi.ExternalMemory.{ExternalMemory, fd_eq}
use rk_vulkan_wsi_layer.Wsi.Swapchain.{SwapchainImage, Status, invalid, free}
use rk_vulkan_wsi_layer.Util.Wsialloc.{WsiallocError, error_none, error_not_supported}

-- `wayland_image_data`.
pub record WaylandImageData : Type 0 where
  pub buffer : ℕ
  pub external_mem : ExternalMemory
  pub present_fence : Option FenceSync

pub data Call : Type 0 where
  image_destroyed buffer_created buffer_destroyed : ℕ → Call

-- The answers to the calls of an allocation.
pub record Answers : Type 0 where
  pub allocate : ExternalMemory → VkResult × ExternalMemory
  pub buffer_handle : ℕ
  pub listener_added : Bool
  pub import_and_bind : ExternalMemory → VkResult × ExternalMemory
  pub create_fence : VkResult
  pub fence_handle : ℕ

abbrev Image : Type 0
Image = SwapchainImage WaylandImageData

abbrev is_invalid : Status → Bool
is_invalid invalid = true
is_invalid _ = false

abbrev unless_null : (ℕ → Call) → ℕ → List Call
unless_null c h = if h == 0 then [] else c h ∷ []

-- The release of the image's handle in `destroy_image`.
unfoldable pub destroy_handle : Image → Image × List Call
destroy_handle im =
    if is_invalid im.status
    then (im, [])
    else (record im { image = 0; status = invalid }, unless_null image_destroyed im.image)

abbrev data_calls : Option WaylandImageData → List Call
data_calls none = []
data_calls (some d) = unless_null buffer_destroyed d.buffer

unfoldable pub destroy_image : Image → Image × List Call
unfolding destroy_handle
destroy_image im =
    let (im', calls) = destroy_handle im in
    (record im' { image_data = none }, calls ++ data_calls im.image_data)

-- `create_wl_buffer`, of the image with its data.
unfoldable pub create_wl_buffer : Answers → WaylandImageData → Image → VkResult × Image × List Call
unfolding destroy_image
create_wl_buffer a d im =
    let im' = record im { image_data = some (record d { buffer = a.buffer_handle }) } in
    if a.listener_added then (success, im', buffer_created a.buffer_handle ∷ []) else (
      error_initialization_failed,
      (destroy_image im').0,
      buffer_created a.buffer_handle ∷ (destroy_image im').1,
    )

-- The steps after the buffer: the import of its memory, and the fence.
unfoldable pub import_data : Answers → WaylandImageData → VkResult × WaylandImageData
unfolding create
import_data a d =
    let (r, m) = a.import_and_bind d.external_mem in
    let d' = record d { buffer = a.buffer_handle; external_mem = m } in
    if is_success r
    then (elim (create a.create_fence a.fence_handle) [
      | none ↦ (error_out_of_host_memory, d')
      | some f ↦ (success, record d' { present_fence = some f })
    ])
    else (r, d')

unfoldable pub import_and_fence : Answers → WaylandImageData → Image → VkResult × Image
unfolding import_data
import_and_fence a d im = ((import_data a d).0, record im { image_data = some (import_data a d).1 })

-- `allocate_and_bind_swapchain_image`: the data of the image, which the code asserts to be there, are
-- the second argument.
unfoldable pub allocate_and_bind_swapchain_image :
    Answers → WaylandImageData → Image → VkResult × Image × List Call
unfolding create_wl_buffer import_and_fence
allocate_and_bind_swapchain_image a d im =
    let (r, m) = a.allocate d.external_mem in
    let d' = record d { external_mem = m } in
    let im' = record im { status = free; image_data = some d' } in
    let (r', im'', calls) = create_wl_buffer a d' im' in
    if is_success r
    then (if is_success r'
        then ((import_and_fence a d' im'').0, (import_and_fence a d' im'').1, calls)
        else (r', im'', calls))
    else (r, im', [])

abbrev next_index : Option ℕ → Option ℕ
next_index none = none
next_index (some i) = some (suc i)

-- `release_buffer`: the index of the image whose buffer the compositor has released.
unfoldable pub image_of_buffer : ℕ → List Image → Option ℕ
image_of_buffer b [] = none
image_of_buffer b (im ∷ ims) =
    let rest = next_index (image_of_buffer b ims) in
    elim im.image_data [ none ↦ rest | some d ↦ if d.buffer == b then some 0 else rest ]

abbrev pub is_free : Status → Bool
is_free free = true
is_free _ = false

unfoldable pub free_image_found : List Status → Bool
free_image_found [] = false
free_image_found (s ∷ ss) = let rest = free_image_found ss in if is_free s then true else rest

-- What a dispatch of the queue returns.
pub data Dispatched : Type 0 where
  failed nothing events : Dispatched

abbrev int_max : ℕ
int_max = 2147483647

-- The timeout in milliseconds.
unfoldable pub ms_timeout : ℕ → ℕ
ms_timeout t = if leb (int_max * 1000 * 1000) t then int_max else t / 1000 / 1000

-- The loop of `get_free_buffer`: each element is what a dispatch returns and the states of the images
-- then. `none` is a loop that the elements do not end.
unfoldable pub dispatch_until_free : List (Dispatched × List Status) → Option Dispatched
unfolding free_image_found
dispatch_until_free [] = none
dispatch_until_free ((r, ss) ∷ steps) =
    let rest = dispatch_until_free steps in
    elim r [
      | events ↦ if free_image_found ss then some events else rest
      | nothing ↦ some nothing
      | failed ↦ some failed
    ]

-- `get_free_buffer`: its result, and the timeout that it leaves.
abbrev buffer_result : ℕ → Dispatched → VkResult × ℕ
buffer_result t events = (success, 0)
buffer_result t nothing = (if t == 0 then not_ready else timeout, t)
buffer_result t failed = (error_surface_lost, t)

unfoldable pub get_free_buffer : List (Dispatched × List Status) → ℕ → Option (VkResult × ℕ)
unfolding dispatch_until_free
get_free_buffer steps t = elim (dispatch_until_free steps) [
  | none ↦ none
  | some r ↦ some (buffer_result t r)
]

-- `surface::wait_next_frame_event`: an element is what a dispatch returns and whether the frame is
-- still pending then. The result is whether the wait succeeds, and whether a frame is pending.
unfoldable pub wait_next_frame_event : Bool → List (Dispatched × Bool) → Option (Bool × Bool)
wait_next_frame_event false steps = some (true, false)
wait_next_frame_event true [] = none
wait_next_frame_event true ((r, pending) ∷ steps) =
    let rest = wait_next_frame_event pending steps in
    elim r [ failed ↦ some (false, pending) | nothing ↦ some (true, false) | events ↦ rest ]

-- Whether a descriptor is in a list.
abbrev pub fd_mem : Option ℕ → List (Option ℕ) → Bool
fd_mem fd [] = false
fd_mem fd (f ∷ fs) = let rest = fd_mem fd fs in if fd_eq f fd then true else rest

-- The loop of `allocate_wsialloc` over the planes: a plane counts if its descriptor is not found
-- again behind it.
unfoldable pub num_memory_planes : ℕ → List (Option ℕ) → ℕ
num_memory_planes zero fds = 0
num_memory_planes (suc n) [] = 0
num_memory_planes (suc n) (fd ∷ fds) = (if fd_mem fd fds then 0 else 1) + num_memory_planes n fds

-- The result of `allocate_wsialloc` by that of the allocator.
unfoldable pub wsialloc_result : WsiallocError → VkResult
wsialloc_result error_none = success
wsialloc_result error_not_supported = error_format_not_supported
wsialloc_result _ = error_out_of_host_memory
