-- ===== src/Wsi/Display/Swapchain/Shown.antt =====
-- wsi/display/swapchain.cpp: which image is on the screen after a presentation.
use rk_vulkan_wsi_layer.Prelude.{ℕ, ◌+◌, ◌≡◌, Bool, true, false, List, some}
use rk_vulkan_wsi_layer.Wsi.Swapchain.{SwapchainImage, Status, presented}
use rk_vulkan_wsi_layer.Wsi.Swapchain.Images.{status_at, total, available}
use rk_vulkan_wsi_layer.Wsi.Display.DrmDisplay.{DrmDisplay}
use rk_vulkan_wsi_layer.Wsi.Display.Swapchain.{DisplayImageData}

abbrev Images : Type 0
Images = List (SwapchainImage DisplayImageData)

abbrev pub on_screen : Status → ℕ
on_screen presented = 1
on_screen _ = 0

-- How many images are on the screen before a presentation: one, unless it is the first.
abbrev pub on_first : Bool → ℕ
on_first true = 0
on_first false = 1

-- The image of an index is on the screen and no other, and so many more images can be acquired than
-- before.
abbrev pub OnlyShown : ℕ → ℕ → Images → Images → Type 0
OnlyShown i n before after =
    (status_at after i ≡ some presented)
    × (total on_screen after ≡ 1)
    × (total available after ≡ total available before + n)
