-- ===== src/Wsi/Display/Swapchain/Present.antt =====
-- wsi/display/swapchain.cpp: `present_image`, with the wait for the page flip. The answers of the
-- kernel are arguments; `select` is given the round of the loop and whether the descriptor of the
-- display is in the set, and returns whether it still is.
use rk_vulkan_wsi_layer.Prelude.{
  ℕ, zero, suc, ◌≡◌, ◌≢◌, Bool, true, false, ◌||◌, List, [], ◌∷◌, Option, none, some, if◌then◌else◌,
}
use mathlib.Core.Option
use rk_vulkan_wsi_layer.Vulkan.{error_surface_lost}
use rk_vulkan_wsi_layer.Wsi.Swapchain.{
  Swapchain, SwapchainImage, PendingPresentRequest, Status, presented,
}
use rk_vulkan_wsi_layer.Wsi.Swapchain.Images.{set_status}
use rk_vulkan_wsi_layer.Wsi.Swapchain.Present.{set_present_id, unpresent_image}
use rk_vulkan_wsi_layer.Wsi.Display.DrmDisplay.{DrmDisplay}
use rk_vulkan_wsi_layer.Wsi.Display.Swapchain.{DisplayImageData}

-- What `select` returns: an error, which is EINTR or EAGAIN or another; 0; or a positive number.
pub data Selected : Type 0 where
  interrupted failed timed_out ready : Selected

-- The answers of the kernel: whether the mode is set and whether the page flip is queued; what `select`
-- returns in each round; and whether the events that are handled in a round have the flip's.
pub record Kernel : Type 0 where
  pub set_crtc : Bool
  pub page_flip : Bool
  pub select : ℕ → Bool → Selected × Bool
  pub handle_event : ℕ → Bool

-- What `select` does to a set that it is given with one descriptor: it reports no descriptor of an
-- empty set, it leaves the set empty when the time is over, and the set is as it was after an error.
pub record IsSelect (k : Kernel) : Type 0 where
  pub empty_not_ready : (i : ℕ) → (k.select i false).0 ≢ ready
  pub timed_out_empty : (i : ℕ) (b : Bool) → (k.select i b).0 ≡ timed_out → (k.select i b).1 ≡ false
  pub interrupted_same : (i : ℕ) (b : Bool) → (k.select i b).0 ≡ interrupted → (k.select i b).1 ≡ b

-- How the loop ends.
pub data Flip : Type 0 where
  flipped lost : Flip

module _ (k : Kernel) where
  -- The loop, on the rounds that are left: the round, whether the descriptor is in the set, and whether
  -- the flip is complete. `none` is a loop that has not ended. The set is filled before the loop alone.
  unfoldable pub wait_flip : ℕ → ℕ → Bool → Bool → Option Flip
  wait_flip zero i fds complete = none
  wait_flip (suc n) i fds complete =
      let again = wait_flip n (suc i) (k.select i fds).1 complete in
      let handled = wait_flip n (suc i) (k.select i fds).1 (complete || k.handle_event i) in
      elim (k.select i fds).0 [
        | failed ↦ some lost
        | interrupted ↦ again
        | timed_out ↦ again
        | ready ↦ if complete || k.handle_event i then some flipped else handled
      ]

abbrev pub is_presented : Status → Bool
is_presented presented = true
is_presented _ = false

abbrev next_index : Option ℕ → Option ℕ
next_index none = none
next_index (some i) = some (suc i)

-- The loop over the images: the index of the one that is presented.
unfoldable pub presented_index : List (SwapchainImage DisplayImageData) → Option ℕ
presented_index [] = none
presented_index (im ∷ ims) =
    let rest = next_index (presented_index ims) in if is_presented im.status then some 0 else rest

abbrev pub Chain : Type 0
Chain = Swapchain DisplayImageData

abbrev pub release_old : Option ℕ → Chain → Chain
release_old none sc = sc
release_old (some i) sc = unpresent_image i sc

-- The end of `present_image`: the image is presented, and the one that was is released.
unfoldable pub show_image : PendingPresentRequest → Chain → Chain
show_image req sc =
    release_old (if sc.first_present then none else presented_index sc.swapchain_images) (
      set_present_id req.present_id
        (record sc { swapchain_images = set_status req.image_index presented sc.swapchain_images }))

abbrev pub surface_lost : Chain → Chain
surface_lost sc = record sc { error_state = error_surface_lost }

-- An error of the loop is kept in the state of the swapchain, and the presentation goes on.
abbrev pub after_flip : PendingPresentRequest → Chain → Flip → Chain
after_flip req sc flipped = show_image req sc
after_flip req sc lost = show_image req (surface_lost sc)

-- `present_image`, on the rounds of the loop that are left; `none` is a loop that has not ended.
unfoldable pub present_image :
    ℕ → Kernel → Option DrmDisplay → PendingPresentRequest → Chain → Option Chain
present_image n k none req sc = some (surface_lost sc)
present_image n k (some d) req sc =
    if sc.first_present
    then (if k.set_crtc then some (show_image req sc) else some (surface_lost sc))
    else (if k.page_flip
        then Option.map (after_flip req sc) (wait_flip k n 0 true false)
        else some (surface_lost sc))
