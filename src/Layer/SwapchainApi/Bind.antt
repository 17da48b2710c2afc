-- ===== src/Layer/SwapchainApi/Bind.antt =====
-- layer/swapchain_api.cpp: `BindImageMemory2`.
use rk_vulkan_wsi_layer.Prelude.{
  ℕ, ◌≡◌, refl, ap, Bool, true, false, ◌&&◌, List, [], ◌∷◌, ◌++◌, Option, none, some, ◌==◌,
  if◌then◌else◌, All,
}
use rk_vulkan_wsi_layer.Vulkan.{VkResult, success, is_success}

-- One element of `pBindInfos`: the swapchain and the image index of its
-- `VkBindImageMemorySwapchainInfoKHR`, and whether it has a `VkBindMemoryStatusKHR`.
pub record BindInfo : Type 0 where
  pub swapchain_info : Option (ℕ × ℕ)
  pub has_status : Bool

-- The answers of the layer, of the driver and of the swapchains, to the bind of an element.
pub record BindAnswers : Type 0 where
  pub maintenance_6 : Bool
  pub owns_swapchain : ℕ → Bool
  pub is_bind_allowed : ℕ → ℕ → VkResult
  pub driver_bind : BindInfo → VkResult
  pub bind_swapchain_image : BindInfo → VkResult

-- The result, the results of the binds that were made, and what was written to the status of each
-- element that was come to.
pub record Bound : Type 0 where
  pub result : VkResult
  pub attempts : List VkResult
  pub statuses : List (Option VkResult)

-- The swapchain that the element is bound to, if the layer owns it.
unfoldable pub layer_swapchain : BindAnswers → Option (ℕ × ℕ) → Option (ℕ × ℕ)
layer_swapchain a none = none
layer_swapchain a (some (sc, i)) =
    if sc == 0 then none else (if a.owns_swapchain sc then some (sc, i) else none)

abbrev refusal : BindAnswers → Option (ℕ × ℕ) → VkResult
refusal a none = success
refusal a (some (sc, i)) = a.is_bind_allowed sc i

-- The check that ends the call with its error.
unfoldable pub allowed : BindAnswers → BindInfo → VkResult
unfolding layer_swapchain
allowed a b = refusal a (layer_swapchain a b.swapchain_info)

unfoldable pub bind_one : BindAnswers → BindInfo → VkResult
unfolding layer_swapchain
bind_one a b = elim (layer_swapchain a b.swapchain_info) [
  | none ↦ a.driver_bind b
  | some sc ↦ a.bind_swapchain_image b
]

status_of : BindAnswers → BindInfo → VkResult → Option VkResult
status_of a b r = if a.maintenance_6 && b.has_status then some r else none

-- The loop, with `endpoint_result` as it is before it.
unfoldable pub bind_each : BindAnswers → VkResult → List BindInfo → Bound
unfolding allowed bind_one status_of
bind_each a endpoint [] = record { result = endpoint; attempts = []; statuses = [] }
bind_each a endpoint (b ∷ bs) =
    let r = bind_one a b in
    let rest = bind_each a (if is_success r then endpoint else r) bs in
    if is_success (allowed a b)
    then record {
      result = rest.result;
      attempts = r ∷ rest.attempts;
      statuses = status_of a b r ∷ rest.statuses;
    }
    else record { result = allowed a b; attempts = []; statuses = [] }

unfoldable pub bind_image_memory2 : BindAnswers → List BindInfo → Bound
unfolding bind_each
bind_image_memory2 a bs = bind_each a success bs

-- The last of the results that is not a success.
abbrev pub last_error : VkResult → List VkResult → VkResult
last_error e [] = e
last_error e (r ∷ rs) = last_error (if is_success r then e else r) rs

abbrev pub bind_all : BindAnswers → List BindInfo → List VkResult
bind_all a [] = []
bind_all a (b ∷ bs) = bind_one a b ∷ bind_all a bs

each_attempted :
    (a : BindAnswers) (e : VkResult) (bs : List BindInfo)
    → All (λ b. is_success (allowed a b) ≡ true) bs
    → ((bind_each a e bs).attempts ≡ bind_all a bs)
      × ((bind_each a e bs).result ≡ last_error e (bind_all a bs))
unfolding bind_each
each_attempted a e [] h = (refl, refl)
each_attempted a e (b ∷ bs) (y, h) =
    let (p, q) = each_attempted a (if is_success (bind_one a b) then e else bind_one a b) bs h in
    rw (y, bind_each) (ap (λ rs. bind_one a b ∷ rs) p, q)

-- Where no element is refused by the check that its image may be bound, every bind is made, in
-- order, also after one has failed, and the call returns the error of the last that failed, or
-- success.
pub every_bind_attempted :
    (a : BindAnswers) (bs : List BindInfo)
    → All (λ b. is_success (allowed a b) ≡ true) bs
    → ((bind_image_memory2 a bs).attempts ≡ bind_all a bs)
      × ((bind_image_memory2 a bs).result ≡ last_error success (bind_all a bs))
unfolding bind_image_memory2
every_bind_attempted a bs h = each_attempted a success bs h

each_stops :
    (a : BindAnswers) (e : VkResult) (before after : List BindInfo) (b : BindInfo)
    → All (λ x. is_success (allowed a x) ≡ true) before
    → is_success (allowed a b) ≡ false
    → ((bind_each a e (before ++ b ∷ after)).attempts ≡ bind_all a before)
      × ((bind_each a e (before ++ b ∷ after)).result ≡ allowed a b)
unfolding bind_each
each_stops a e [] after b h n = rw (n, bind_each) (refl, refl)
each_stops a e (x ∷ before) after b (y, h) n =
    let (p, q) =
      each_stops a (if is_success (bind_one a x) then e else bind_one a x) before after b h n in
    rw (y, bind_each) (ap (λ rs. bind_one a x ∷ rs) p, q)

-- The first element that is refused by the check that its image may be bound ends the call with
-- that error: neither it nor any element after it is attempted.
pub disallowed_bind_stops :
    (a : BindAnswers) (before after : List BindInfo) (b : BindInfo)
    → All (λ x. is_success (allowed a x) ≡ true) before
    → is_success (allowed a b) ≡ false
    → ((bind_image_memory2 a (before ++ b ∷ after)).attempts ≡ bind_all a before)
      × ((bind_image_memory2 a (before ++ b ∷ after)).result ≡ allowed a b)
unfolding bind_image_memory2
disallowed_bind_stops a before after b h n = each_stops a success before after b h n
