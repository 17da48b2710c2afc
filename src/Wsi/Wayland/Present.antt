-- ===== src/Wsi/Wayland/Present.antt =====
-- wsi/wayland/swapchain.cpp and surface.cpp: the presentation of an image to the compositor. The answers
-- of the driver and of the compositor are arguments, and the requests to the compositor are listed.
use rk_vulkan_wsi_layer.Prelude.{
  zero, suc, ℕ, Bool, true, false, not, ◌&&◌, List, [], ◌∷◌, ◌++◌, Option, none, some,
  if◌then◌else◌,
}
use rk_vulkan_wsi_layer.Vulkan.{VkResult, error_surface_lost, PresentMode, fifo, mode_eq}
use rk_vulkan_wsi_layer.Wsi.Synchronization.{FenceSync, export_sync_fd}
use rk_vulkan_wsi_layer.Wsi.Swapchain.{Swapchain, SwapchainImage, PendingPresentRequest}
use rk_vulkan_wsi_layer.Wsi.Swapchain.Present.{set_present_id}
use rk_vulkan_wsi_layer.Wsi.Wayland.{WaylandImageData, Dispatched, wait_next_frame_event}

-- The requests, with the buffer and with the descriptor of the fence.
pub data Request : Type 0 where
  attach set_acquire_fence : ℕ → Request
  damage frame commit : Request

-- The answers to `present_image`: what the dispatches of the wait for the frame return; what the driver
-- returns for the descriptor of the fence, which may be -1; whether the proxy of the surface, the
-- callback and its listener can be made; and whether the flush succeeds.
pub record PresentAnswers : Type 0 where
  pub dispatches : List (Dispatched × Bool)
  pub export : VkResult
  pub fd : ℕ
  pub fd_valid : Bool
  pub proxy : Bool
  pub callback : Bool
  pub listener : Bool
  pub flushed : Bool

abbrev pub Chain : Type 0
Chain = Swapchain WaylandImageData

-- `surface::set_frame_callback`: its result, whether a frame is pending, and its request.
unfoldable pub set_frame_callback : PresentAnswers → Bool → Bool × Bool × List Request
set_frame_callback a pending =
    if a.proxy
    then (if a.callback then (a.listener, true, frame ∷ []) else (false, pending, []))
    else (false, pending, [])

-- A fence that has not been created yet.
abbrev no_fence : FenceSync
no_fence = record { fence = 0; has_payload = false; payload_finished = false }

abbrev fence_of : Option FenceSync → FenceSync
fence_of none = no_fence
fence_of (some f) = f

abbrev pub fence_requests : PresentAnswers → Option ℕ → List Request
fence_requests a none = []
fence_requests a (some fd) = if a.fd_valid then set_acquire_fence fd ∷ [] else []

abbrev pub is_none : Option ℕ → Bool
is_none none = true
is_none (some x) = false

-- The data of an image are written back.
unfoldable pub with_image_data :
    ℕ
    → WaylandImageData
    → List (SwapchainImage WaylandImageData)
    → List (SwapchainImage WaylandImageData)
with_image_data i d [] = []
with_image_data zero d (im ∷ ims) = record im { image_data = some d } ∷ ims
with_image_data (suc i) d (im ∷ ims) = im ∷ with_image_data i d ims

-- The frame callback of a presentation, which only the mode FIFO requests.
unfoldable pub frame_request : PresentAnswers → PresentMode → Bool → Bool × Bool × List Request
unfolding set_frame_callback
frame_request a m pending =
    if mode_eq m fifo then set_frame_callback a pending else (true, pending, [])

-- The rest of `present_image` after the wait, of which the result and the pending frame are given.
unfoldable pub present_after :
    PresentAnswers
    → WaylandImageData
    → PendingPresentRequest
    → Chain
    → Bool × Bool
    → Chain × Bool × List Request
unfolding frame_request set_present_id with_image_data export_sync_fd
present_after a d req sc (waited, pending) =
    let (fd, f) = export_sync_fd a.export a.fd (fence_of d.present_fence) in
    let (called, pending', frames) = frame_request a sc.present_mode pending in
    let d' = record d { present_fence = some f } in
    let sc' = record sc {
      swapchain_images = with_image_data req.image_index d' sc.swapchain_images;
      error_state =
          if waited && not (is_none fd) && called && a.flushed
          then sc.error_state
          else error_surface_lost;
    } in
    (
      set_present_id req.present_id sc',
      pending',
      attach d.buffer ∷ fence_requests a fd ++ damage ∷ frames ++ commit ∷ [],
    )

abbrev pub present_waited :
    PresentAnswers
    → WaylandImageData
    → PendingPresentRequest
    → Chain
    → Option (Bool × Bool)
    → Option (Chain × Bool × List Request)
present_waited a d req sc none = none
present_waited a d req sc (some w) = some (present_after a d req sc w)

-- `m_swapchain_images[i].data`.
unfoldable pub image_data_at : List (SwapchainImage WaylandImageData) → ℕ → Option WaylandImageData
image_data_at [] i = none
image_data_at (im ∷ ims) zero = im.image_data
image_data_at (im ∷ ims) (suc i) = image_data_at ims i

-- What is read where there are no data, which the code excludes.
abbrev no_data : WaylandImageData
no_data = record {
  buffer = 0;
  external_mem = record {
    buffer_fds = [];
    strides = [];
    offsets = [];
    memories = [];
    num_planes = 0;
    num_memories = 0;
  };
  present_fence = none;
}

abbrev pub data_or_null : Option WaylandImageData → WaylandImageData
data_or_null none = no_data
data_or_null (some d) = d

-- `present_image`, with whether a frame is pending before and after; `none` is a wait that the
-- dispatches do not end.
unfoldable pub present_image :
    PresentAnswers → PendingPresentRequest → Chain → Bool → Option (Chain × Bool × List Request)
unfolding wait_next_frame_event present_after image_data_at
present_image a req sc pending =
    present_waited a (data_or_null (image_data_at sc.swapchain_images req.image_index)) req sc
      (wait_next_frame_event pending a.dispatches)
