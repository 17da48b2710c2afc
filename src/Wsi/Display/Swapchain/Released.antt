-- ===== src/Wsi/Display/Swapchain/Released.antt =====
-- wsi/display/swapchain.cpp: every handle and framebuffer that is made for an image is released.
use rk_vulkan_wsi_layer.Prelude.{
  ℕ, zero, suc, ◌-◌, ◌≤◌, ◌≡◌, refl, sym, ap, ◌∙◌, Bool, ◌&&◌, List, ◌++◌, Option, some, arith,
  length, replicate, Bool-cases, inl, inr,
}
use mathlib.Core.List.{append-nil}
use rk_vulkan_wsi_layer.Util.Wsialloc.{WsiallocFormat}
use rk_vulkan_wsi_layer.Util.DrmUtils.{Codes}
use rk_vulkan_wsi_layer.Wsi.Display.DrmDisplay.{DrmDisplay, is_format_supported}
use rk_vulkan_wsi_layer.Wsi.Display.Swapchain.{DisplayImageData, Image}
use rk_vulkan_wsi_layer.Wsi.Display.Swapchain.Framebuffers.{
  Call, Answers, gem_handles, added_call, close_handles, open_handles, create_framebuffer,
  allocate_and_bind_swapchain_image, destroy_image,
}
use rk_vulkan_wsi_layer.Wsi.Display.Swapchain.Calls.{
  opened, closed, opened-append, closed-append, closed-opening, opened-closing, closed_added,
  opened_added,
}

-- The number of elements of the array that are still 0 after some planes have been converted.
abbrev pub zeros : ℕ → List ℕ
zeros zero = replicate 3 0
zeros (suc n) = replicate (3 - n) 0

handles_lem :
    (to_handle : ℕ → Option ℕ) (n : ℕ)
    → n ≤ 4
    → closed (close_handles (open_handles to_handle n 0 gem_handles).1)
      ≡ opened (open_handles to_handle n 0 gem_handles).2
        ++ zeros (length (opened (open_handles to_handle n 0 gem_handles).2))
unfolding open_handles close_handles
handles_lem k zero l = refl
handles_lem k (suc zero) l = ground arith
handles_lem k (suc (suc zero)) l = ground arith
handles_lem k (suc (suc (suc zero))) l = ground arith
handles_lem k (suc (suc (suc (suc zero)))) l = ground arith
handles_lem k (suc (suc (suc (suc (suc n))))) l = absurd (omega arith)

closed_of :
    (os cs calls : List Call)
    → closed calls ≡ closed cs
    → opened calls ≡ opened os
    → closed cs ≡ opened os ++ zeros (length (opened os))
    → closed calls ≡ opened calls ++ zeros (length (opened calls))
closed_of os cs calls p q e = p ∙ e ∙ ap (λ l. l ++ zeros (length l)) (sym q)

-- Every handle of the kernel that is opened for a framebuffer of at most four planes is closed once by
-- the end of the call, in the same order, whether the call succeeds or not; and after these the
-- handle 0 is closed once for each further element of the array but the first.
pub handles_closed :
    (display : DrmDisplay) (f : WsiallocFormat) (a : Answers) (d : DisplayImageData)
    → d.external_mem.num_planes ≤ 4
    → closed (create_framebuffer (some display) f a d).2
      ≡ opened (create_framebuffer (some display) f a d).2
        ++ zeros (length (opened (create_framebuffer (some display) f a d).2))
unfolding create_framebuffer
handles_closed display f a d l =
    let n : ℕ = d.external_mem.num_planes in
    let k : ℕ → Option ℕ = a.prime_fd_to_handle in
    let t : Bool × List (Option ℕ) × List Call = open_handles k n 0 gem_handles in
    elim (Bool-cases (t.0 && is_format_supported (f.fourcc, f.modifier) display)) [
      | inl y ↦
          rw (y, create_framebuffer)
            (closed_of t.2 (close_handles t.1)
              (t.2 ++ added_call (a.add_framebuffer t.1) ++ close_handles t.1)
              (simp (closed-append, closed-opening, closed_added))
              (simp (opened-append, opened-closing, opened_added, append-nil)) (handles_lem k n l))
      | inr y ↦
          rw (y, create_framebuffer)
            (closed_of t.2 (close_handles t.1) (t.2 ++ close_handles t.1)
              (simp (closed-append, closed-opening))
              (simp (opened-append, opened-closing, append-nil)) (handles_lem k n l))
    ]

-- An allocation followed by the release of the image, with the display there.
abbrev pub lifetime :
    Codes → DrmDisplay → WsiallocFormat → Answers → DisplayImageData → Image → List Call
lifetime c display f a d im =
    let (r, im', f', calls) = allocate_and_bind_swapchain_image c (some display) f a d im in
    calls ++ (destroy_image (some display) im').1
