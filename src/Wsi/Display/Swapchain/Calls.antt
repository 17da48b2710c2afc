-- ===== src/Wsi/Display/Swapchain/Calls.antt =====
-- wsi/display/swapchain.cpp: which of the calls for an image open, close, make and release.
use rk_vulkan_wsi_layer.Prelude.{
  ℕ, zero, suc, ◌+◌, ◌≡◌, refl, ap, List, [], ◌∷◌, ◌++◌, Option, none, some, arith, inl, inr,
  Option-cases, set,
}
use rk_vulkan_wsi_layer.Wsi.Display.Swapchain.Framebuffers.{
  Call, gem_opened, gem_closed, fb_added, fb_removed, image_destroyed, added_call, close_handles,
  open_handles,
}

abbrev pub opened : List Call → List ℕ
opened [] = []
opened (gem_opened h ∷ cs) = h ∷ opened cs
opened (_ ∷ cs) = opened cs

abbrev pub closed : List Call → List ℕ
closed [] = []
closed (gem_closed h ∷ cs) = h ∷ closed cs
closed (_ ∷ cs) = closed cs

-- How many of the calls are of a kind.
abbrev pub calls_of : (Call → ℕ) → List Call → ℕ
calls_of w [] = 0
calls_of w (x ∷ cs) = w x + calls_of w cs

abbrev pub adds : Call → ℕ
adds (fb_added h) = 1
adds _ = 0

abbrev pub removes : Call → ℕ
removes (fb_removed h) = 1
removes _ = 0

abbrev pub destroys : Call → ℕ
destroys (image_destroyed h) = 1
destroys _ = 0

pub opened-append : (xs ys : List Call) → opened (xs ++ ys) ≡ opened xs ++ opened ys
opened-append [] ys = refl
opened-append (gem_opened h ∷ xs) ys = ap (λ r. h ∷ r) (opened-append xs ys)
opened-append (_ ∷ xs) ys = opened-append xs ys

pub closed-append : (xs ys : List Call) → closed (xs ++ ys) ≡ closed xs ++ closed ys
closed-append [] ys = refl
closed-append (gem_closed h ∷ xs) ys = ap (λ r. h ∷ r) (closed-append xs ys)
closed-append (_ ∷ xs) ys = closed-append xs ys

pub closed-opening :
    (k : ℕ → Option ℕ) (n plane : ℕ) (hs : List (Option ℕ))
    → closed (open_handles k n plane hs).2 ≡ []
unfolding open_handles
closed-opening k zero plane hs = refl
closed-opening k (suc n) plane hs = elim (Option-cases (k plane)) [
  | inl e ↦ rw (e, open_handles)
  | inr (h, e) ↦ rw (e, open_handles) (closed-opening k n (suc plane) (set hs plane (some h)))
]

pub opened-closing : (hs : List (Option ℕ)) → opened (close_handles hs) ≡ []
unfolding close_handles
opened-closing [] = refl
opened-closing (none ∷ hs) = opened-closing hs
opened-closing (some h ∷ hs) = opened-closing hs

pub closed_added : (fb : Option ℕ) → closed (added_call fb) ≡ []
closed_added none = refl
closed_added (some x) = refl

pub opened_added : (fb : Option ℕ) → opened (added_call fb) ≡ []
opened_added none = refl
opened_added (some x) = refl

pub calls_of-append :
    (w : Call → ℕ) (xs ys : List Call) → calls_of w (xs ++ ys) ≡ calls_of w xs + calls_of w ys
calls_of-append w [] ys = omega arith
calls_of-append w (x ∷ xs) ys = omega (arith, calls_of-append w xs ys)

-- A kind that counts neither the opening nor the closing of handles.
abbrev pub OfOthers : (Call → ℕ) → Type 0
OfOthers w = ((h : ℕ) → w (gem_opened h) ≡ 0) × ((h : ℕ) → w (gem_closed h) ≡ 0)

pub calls_of-opening :
    (w : Call → ℕ)
    → OfOthers w
    → (k : ℕ → Option ℕ) (n plane : ℕ) (hs : List (Option ℕ))
    → calls_of w (open_handles k n plane hs).2 ≡ 0
unfolding open_handles
calls_of-opening w o k zero plane hs = refl
calls_of-opening w o k (suc n) plane hs = elim (Option-cases (k plane)) [
  | inl e ↦ rw (e, open_handles)
  | inr (h, e) ↦
      rw (e, open_handles)
        (omega (arith, o.0 h, calls_of-opening w o k n (suc plane) (set hs plane (some h))))
]

pub calls_of-closing :
    (w : Call → ℕ) → OfOthers w → (hs : List (Option ℕ)) → calls_of w (close_handles hs) ≡ 0
unfolding close_handles
calls_of-closing w o [] = refl
calls_of-closing w o (none ∷ hs) = calls_of-closing w o hs
calls_of-closing w o (some h ∷ hs) = omega (arith, o.1 h, calls_of-closing w o hs)

pub not_added :
    (fb : Option ℕ) (w : Call → ℕ) → ((h : ℕ) → w (fb_added h) ≡ 0) → calls_of w (added_call fb) ≡ 0
not_added none w z = refl
not_added (some x) w z = omega (arith, z x)
