-- ===== src/Layer/PrivateData/Swapchains.antt =====
-- layer/private_data.cpp: the swapchains of a device that the layer created.
use rk_vulkan_wsi_layer.Prelude.{
  ℕ, ◌≡◌, refl, ap, ◌∙◌, Bool, true, false, ◌&&◌, List, [], ◌∷◌, none, some, ◌==◌, if◌then◌else◌,
  arith,
}
use rk_vulkan_wsi_layer.Vulkan.{VkResult, success, error_out_of_host_memory}
use rk_vulkan_wsi_layer.Util.UnorderedMap.{
  UnorderedMap, erase, holds, try_insert, Unique, erase-Unique, find-erase_self, find-erase_ne,
}

-- The set of the swapchains that the layer owns.
abbrev pub Swapchains : Type 0
Swapchains = UnorderedMap Unit

unfoldable pub add_layer_swapchain : Bool → ℕ → Swapchains → VkResult × Swapchains
unfolding try_insert
add_layer_swapchain inserted swapchain m =
    let (result, m') = try_insert inserted swapchain tt m in
    elim result [ none ↦ (error_out_of_host_memory, m') | some b ↦ (success, m') ]

unfoldable pub remove_layer_swapchain : ℕ → Swapchains → Swapchains
remove_layer_swapchain swapchain m = if holds swapchain m then erase swapchain m else m

-- The loop of `layer_owns_all_swapchains`.
unfoldable pub layer_owns_all_swapchains : List ℕ → Swapchains → Bool
layer_owns_all_swapchains [] m = true
layer_owns_all_swapchains (swapchain ∷ swapchains) m =
    let rest = layer_owns_all_swapchains swapchains m in if holds swapchain m then rest else false

-- A call on the set, with the answer of the allocation.
pub data Call : Type 0 where
  add_swapchain : (inserted : Bool) (swapchain : ℕ) → Call
  remove_swapchain : (swapchain : ℕ) → Call

unfoldable pub step : Call → Swapchains → Swapchains
unfolding add_layer_swapchain remove_layer_swapchain
step (add_swapchain inserted swapchain) m = (add_layer_swapchain inserted swapchain m).1
step (remove_swapchain swapchain) m = remove_layer_swapchain swapchain m

abbrev pub run : List Call → Swapchains → Swapchains
run [] m = m
run (c ∷ cs) m = run cs (step c m)

-- Whether the layer owns a swapchain, by the calls alone.
abbrev pub owned_after : ℕ → Bool → List Call → Bool
owned_after h o [] = o
owned_after h o (add_swapchain inserted swapchain ∷ cs) =
    owned_after h (if h == swapchain then (if inserted then true else o) else o) cs
owned_after h o (remove_swapchain swapchain ∷ cs) =
    owned_after h (if h == swapchain then false else o) cs

abbrev pub all_owned : List ℕ → List Call → Bool
all_owned [] cs = true
all_owned (h ∷ hs) cs = owned_after h false cs && all_owned hs cs

step-Unique : (c : Call) (m : Swapchains) → Unique m → Unique (step c m)
unfolding step add_layer_swapchain remove_layer_swapchain try_insert
step-Unique (add_swapchain inserted swapchain) m u = ground arith
step-Unique (remove_swapchain swapchain) m u = ground (arith, erase-Unique swapchain m u)

holds-step :
    (h : ℕ) (c : Call) (m : Swapchains)
    → Unique m
    → holds h (step c m) ≡ owned_after h (holds h m) (c ∷ [])
unfolding step add_layer_swapchain remove_layer_swapchain try_insert
holds-step h (add_swapchain inserted swapchain) m u = ground arith
holds-step h (remove_swapchain swapchain) m u =
    ground (arith, find-erase_self swapchain m u, find-erase_ne h swapchain m)

owned_after_cons :
    (h : ℕ) (o : Bool) (c : Call) (cs : List Call)
    → owned_after h (owned_after h o (c ∷ [])) cs ≡ owned_after h o (c ∷ cs)
owned_after_cons h o (add_swapchain inserted swapchain) cs = refl
owned_after_cons h o (remove_swapchain swapchain) cs = refl

holds-run :
    (h : ℕ) (cs : List Call) (m : Swapchains)
    → Unique m
    → holds h (run cs m) ≡ owned_after h (holds h m) cs
holds-run h [] m u = refl
holds-run h (c ∷ cs) m u =
    holds-run h cs (step c m) (step-Unique c m u)
    ∙ ap (λ o. owned_after h o cs) (holds-step h c m u)
    ∙ owned_after_cons h (holds h m) c cs

-- After any sequence of additions and removals of swapchains from none, whichever of their
-- allocations fail, the layer owns all of the swapchains of a list exactly if each of them was added
-- with success and not removed since.
pub swapchains_refine :
    (hs : List ℕ) (cs : List Call) → layer_owns_all_swapchains hs (run cs []) ≡ all_owned hs cs
unfolding layer_owns_all_swapchains
swapchains_refine [] cs = refl
swapchains_refine (h ∷ hs) cs = ground (arith, holds-run h cs [] tt, swapchains_refine hs cs)
