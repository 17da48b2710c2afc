-- ===== src/Wsi/FrameBoundary.antt =====
-- wsi/frame_boundary.hpp and frame_boundary.cpp: the frame boundary events passed to the driver.
use rk_vulkan_wsi_layer.Prelude.{
  ℕ, ◌+◌, ◌^◌, ◌<◌, ◌≡◌, refl, ap, ◌≢◌, Bool, true, List, [], ◌∷◌, ◌++◌, Option, none, some, arith,
  u64, length, if◌then◌else◌, All,
}
use rk_vulkan_wsi_layer.Util.Helpers.{
  present_id, Chain, find_extension, find_extension-skip, find_extension-hit, find_extension-none,
}

-- The fields of `VkFrameBoundaryEXT` that the layer sets; the others are null or zero.
pub record FrameBoundaryExt : Type 0 where
  pub frame_id : ℕ
  pub images : List ℕ
  pub tag_name : ℕ
  pub frame_end : Bool

-- The contents of a structure of the presentation's chain.
pub data Payload : Type 0 where
  present_ids : List ℕ → Payload
  boundary : FrameBoundaryExt → Payload
  other_payload : Payload

pub record FrameBoundaryHandler : Type 0 where
  pub handle_frame_boundary_events : Bool
  pub current_frame_boundary_id : ℕ

-- What goes to the queue submission: a copy of the application's structure, or the layer's own.
pub data Event : Type 0 where
  copied : Payload → Event
  created : FrameBoundaryExt → Event

-- `create_frame_boundary(const VkPresentInfoKHR &)`: the tag is the one that the code searches for.
unfoldable pub create_frame_boundary : Chain Payload → Option Payload
create_frame_boundary chain = find_extension present_id chain

unfoldable pub create_layer_frame_boundary :
    ℕ → FrameBoundaryHandler → FrameBoundaryExt × FrameBoundaryHandler
create_layer_frame_boundary image h = (
  record {
    frame_id = h.current_frame_boundary_id;
    images = image ∷ [];
    tag_name = 0x575349;
    frame_end = true;
  },
  record h { current_frame_boundary_id = u64 (h.current_frame_boundary_id + 1) },
)

unfoldable pub layer_event : ℕ → FrameBoundaryHandler → Option Event × FrameBoundaryHandler
unfolding create_layer_frame_boundary
layer_event image h =
    if h.handle_frame_boundary_events
    then (let (b, h') = create_layer_frame_boundary image h in (some (created b), h'))
    else (none, h)

unfoldable pub handle_frame_boundary_event :
    Chain Payload → ℕ → FrameBoundaryHandler → Option Event × FrameBoundaryHandler
unfolding create_frame_boundary layer_event
handle_frame_boundary_event chain image h = elim (create_frame_boundary chain) [
  | some p ↦ (some (copied p), h)
  | none ↦ layer_event image h
]

-- The events of a sequence of presentations that carry no structure of their own.
pub events : List ℕ → FrameBoundaryHandler → List (Option Event)
events [] h = []
events (image ∷ images) h =
    let (e, h') = handle_frame_boundary_event [] image h in e ∷ events images h'

abbrev pub layer_boundary : ℕ → ℕ → FrameBoundaryExt
layer_boundary n image = record {
  frame_id = n;
  images = image ∷ [];
  tag_name = 0x575349;
  frame_end = true;
}

-- The specification: event number k has the frame id n + k and names the image presented.
pub numbered : ℕ → List ℕ → List (Option Event)
numbered n [] = []
numbered n (image ∷ images) = some (created (layer_boundary n image)) ∷ numbered (n + 1) images

-- While the 64-bit counter does not wrap, and with the feature enabled, the events that the layer
-- makes for a sequence of presents carry consecutive frame ids and the images presented.
pub events-numbered :
    (images : List ℕ) (h : FrameBoundaryHandler)
    → h.handle_frame_boundary_events ≡ true
    → h.current_frame_boundary_id + length images < 2 ^ 64
    → events images h ≡ numbered h.current_frame_boundary_id images
unfolding events numbered handle_frame_boundary_event find_extension
events-numbered [] h on lt = refl
events-numbered (image ∷ images) h on lt =
    let e : u64 (h.current_frame_boundary_id + 1) ≡ h.current_frame_boundary_id + 1 = omega arith in
    rw (on, e)
      (ap (λ es. some (created (layer_boundary h.current_frame_boundary_id image)) ∷ es)
        (events-numbered images
          (record {
            handle_frame_boundary_events = true;
            current_frame_boundary_id = h.current_frame_boundary_id + 1;
          })
          refl (omega arith)))

-- A chain with no present id structure is treated as an empty one, also where it has a frame
-- boundary structure of the application: the layer's own event is sent, or none.
pub application_boundary_dropped :
    (chain : Chain Payload) (image : ℕ) (h : FrameBoundaryHandler)
    → All (λ e. e.0 ≢ present_id) chain
    → handle_frame_boundary_event chain image h ≡ layer_event image h
unfolding handle_frame_boundary_event
application_boundary_dropped chain image h n =
    rw (find_extension-none present_id chain n, handle_frame_boundary_event)

-- The first present id structure of a chain is forwarded in the place of a frame boundary,
-- whatever else the chain has, and the layer makes no event of its own.
pub present_id_forwarded :
    (before after : Chain Payload) (ids : List ℕ) (image : ℕ) (h : FrameBoundaryHandler)
    → All (λ e. e.0 ≢ present_id) before
    → handle_frame_boundary_event (before ++ (present_id, present_ids ids) ∷ after) image h
      ≡ (some (copied (present_ids ids)), h)
unfolding handle_frame_boundary_event
present_id_forwarded before after ids image h n = rw (
  find_extension-skip present_id before ((present_id, present_ids ids) ∷ after) n,
  find_extension-hit present_id (present_ids ids) after,
  handle_frame_boundary_event,
)
