-- ===== src/Wsi/Wayland/PresentOutcome.antt =====
-- wsi/wayland/swapchain.cpp: what a presentation to the compositor leaves.
use rk_vulkan_wsi_layer.Prelude.{
  ℕ, zero, suc, ◌+◌, ◌≡◌, refl, ap, ◌∙◌, Bool, true, false, not, ◌&&◌, ◌||◌, List, [], ◌∷◌, some,
  if◌then◌else◌, arith, ◌==◌,
}
use rk_vulkan_wsi_layer.Vulkan.{error_surface_lost, is_success, fifo, mode_eq}
use rk_vulkan_wsi_layer.Wsi.Synchronization.{export_sync_fd}
use rk_vulkan_wsi_layer.Wsi.Swapchain.{SwapchainImage, PendingPresentRequest}
use rk_vulkan_wsi_layer.Wsi.Swapchain.Images.{statuses}
use rk_vulkan_wsi_layer.Wsi.Swapchain.Present.{set_present_id}
use rk_vulkan_wsi_layer.Wsi.Wayland.{WaylandImageData, wait_next_frame_event}
use rk_vulkan_wsi_layer.Wsi.Wayland.Present.{
  Request, attach, frame, commit, PresentAnswers, Chain, with_image_data, set_frame_callback,
  frame_request, present_after, image_data_at, present_image,
}

statuses-with_image_data :
    (i : ℕ) (d : WaylandImageData) (ims : List (SwapchainImage WaylandImageData))
    → statuses (with_image_data i d ims) ≡ statuses ims
unfolding with_image_data
statuses-with_image_data i d [] = refl
statuses-with_image_data zero d (im ∷ ims) = refl
statuses-with_image_data (suc i) d (im ∷ ims) =
    ap (λ r. im.status ∷ r) (statuses-with_image_data i d ims)

-- How many of the requests are of a kind.
abbrev pub requests_of : (Request → ℕ) → List Request → ℕ
requests_of w [] = 0
requests_of w (r ∷ rs) = w r + requests_of w rs

-- The buffers that the requests attach.
abbrev pub attached : List Request → List ℕ
attached [] = []
attached (attach b ∷ rs) = b ∷ attached rs
attached (r ∷ rs) = attached rs

abbrev pub frames : Request → ℕ
frames frame = 1
frames _ = 0

-- Whether the last of the requests is the commit.
abbrev pub ends_committed : List Request → Bool
ends_committed [] = false
ends_committed (commit ∷ []) = true
ends_committed (r ∷ rs) = ends_committed rs

-- Whether a mode paces the presentation by the frames of the compositor.
abbrev pub is_paced : Chain → Bool
is_paced sc = mode_eq sc.present_mode fifo

-- Whether every step of the presentation succeeds, by what the wait for the frame returned.
abbrev pub steps_succeed : PresentAnswers → Chain → Bool → Bool
steps_succeed a sc waited =
    waited
    && is_success a.export
    && (not (is_paced sc) || (a.proxy && a.callback && a.listener))
    && a.flushed

-- What a presentation leaves.
abbrev pub Presented :
    PresentAnswers
    → WaylandImageData
    → PendingPresentRequest
    → Chain
    → Bool × Bool
    → Chain
    → Bool
    → List Request
    → Type 0
Presented a d req sc (waited, pending) after pending' rs =
    (statuses after.swapchain_images ≡ statuses sc.swapchain_images)
    × (after.error_state
        ≡ (if steps_succeed a sc waited then sc.error_state else error_surface_lost))
    × (after.present_id ≡ (if req.present_id == 0 then sc.present_id else req.present_id))
    × (pending' ≡ (is_paced sc && a.proxy && a.callback || pending))
    × (attached rs ≡ d.buffer ∷ [])
    × (requests_of frames rs ≡ (if is_paced sc && a.proxy && a.callback then 1 else 0))
    × (ends_committed rs ≡ true)

set_present_id_images :
    (v : ℕ) (sc : Chain) → (set_present_id v sc).swapchain_images ≡ sc.swapchain_images
unfolding set_present_id
set_present_id_images v sc = ground arith

presented_lem :
    (a : PresentAnswers) (d : WaylandImageData) (req : PendingPresentRequest) (sc : Chain)
    (w : Bool × Bool)
    → Presented a d req sc w
        (present_after a d req sc w).0
        (present_after a d req sc w).1
        (present_after a d req sc w).2
unfolding present_after frame_request set_frame_callback set_present_id export_sync_fd
presented_lem a d req sc w = (
  ap statuses (set_present_id_images req.present_id _)
      ∙ statuses-with_image_data req.image_index _ sc.swapchain_images,
  ground arith,
  ground arith,
  ground arith,
  ground arith,
  ground arith,
  ground arith,
)

-- Where the image that the request names has data and the wait for the frame ends, the presentation
-- ends, and no failed step stops it: the buffer of that image is attached, once and no other, and the
-- last request is the commit. No state of an image changes, and the identifier of the presentation is
-- kept unless it is 0. The error state is that the surface is lost if the wait, the export of the
-- fence, in the mode FIFO the frame callback, or the flush has failed, and is as it was otherwise. A
-- frame is requested in the mode FIFO alone, once, where the proxy and the callback can be made, and is
-- then pending, also where its listener cannot be added.
pub presentation_committed :
    (a : PresentAnswers) (d : WaylandImageData) (req : PendingPresentRequest) (sc : Chain)
    (pending : Bool) (w : Bool × Bool)
    → image_data_at sc.swapchain_images req.image_index ≡ some d
    → wait_next_frame_event pending a.dispatches ≡ some w
    → (after : Chain) × (pending' : Bool) × (rs : List Request) × (present_image a req sc pending
        ≡ some (after, pending', rs))
      × Presented a d req sc w after pending' rs
unfolding present_image
presentation_committed a d req sc pending w h e =
    let t : Chain × Bool × List Request = present_after a d req sc w in
    (t.0, t.1, t.2, rw (h, e) refl, presented_lem a d req sc w)
