-- ===== src/Wsi/Display/Swapchain/Framebuffers.antt =====
-- wsi/display/swapchain.cpp and drm_display.hpp: the memory and the framebuffer of an image, and the
-- handles of the kernel that are made and released on the way.
use rk_vulkan_wsi_layer.Prelude.{
  ℕ, zero, suc, Bool, true, false, ◌&&◌, List, [], ◌∷◌, ◌++◌, Option, none, some, ◌==◌,
  if◌then◌else◌, set,
}
use rk_vulkan_wsi_layer.Vulkan.{
  VkResult, success, error_out_of_host_memory, error_initialization_failed, is_success,
}
use rk_vulkan_wsi_layer.Util.Wsialloc.{WsiallocFormat}
use rk_vulkan_wsi_layer.Util.DrmUtils.{Codes}
use rk_vulkan_wsi_layer.Wsi.Synchronization.{create}
use rk_vulkan_wsi_layer.Wsi.Swapchain.{Status, invalid, free}
use rk_vulkan_wsi_layer.Wsi.ExternalMemory.{ExternalMemory}
use rk_vulkan_wsi_layer.Wsi.Display.DrmDisplay.{DrmDisplay, is_format_supported}
use rk_vulkan_wsi_layer.Wsi.Display.Swapchain.{
  DisplayImageData, Image, Allocated, allocate_wsialloc,
}

-- The calls that make and release an object.
pub data Call : Type 0 where
  gem_opened gem_closed fb_added fb_removed image_destroyed : ℕ → Call

-- The answers to the allocation of an image: whether the list of its one format has room; what the
-- allocator returns; the handle of the descriptor
-- of each plane, `none` where it cannot be converted; the framebuffer, `none` where it cannot be added;
-- the import; and the fence.
pub record Answers : Type 0 where
  pub list_pushed : Bool
  pub allocate : Allocated
  pub prime_fd_to_handle : ℕ → Option ℕ
  pub add_framebuffer : List (Option ℕ) → Option ℕ
  pub import_and_bind : ExternalMemory → VkResult × ExternalMemory
  pub create_fence : VkResult
  pub fence_handle : ℕ

-- `drm_gem_handle_array` as it is constructed: the initializer sets the first element to UINT32_MAX,
-- here `none`, and the others to 0.
abbrev pub gem_handles : List (Option ℕ)
gem_handles = none ∷ some 0 ∷ some 0 ∷ some 0 ∷ []

-- The destructor of the array.
unfoldable pub close_handles : List (Option ℕ) → List Call
close_handles [] = []
close_handles (none ∷ hs) = close_handles hs
close_handles (some h ∷ hs) = gem_closed h ∷ close_handles hs

-- The loop over the planes, on those that are left: whether all are converted, and the handles.
unfoldable pub open_handles :
    (ℕ → Option ℕ) → ℕ → ℕ → List (Option ℕ) → Bool × List (Option ℕ) × List Call
open_handles to_handle zero plane hs = (true, hs, [])
open_handles to_handle (suc n) plane hs = elim (to_handle plane) [
  | none ↦ (false, hs, [])
  | some h ↦
      let (ok, hs', calls) = open_handles to_handle n (suc plane) (set hs plane (some h)) in
      (ok, hs', gem_opened h ∷ calls)
]

abbrev pub added_call : Option ℕ → List Call
added_call none = []
added_call (some fb) = fb_added fb ∷ []

abbrev fb_result : Option ℕ → VkResult
fb_result none = error_initialization_failed
fb_result (some fb) = success

abbrev pub with_fb : Option ℕ → DisplayImageData → DisplayImageData
with_fb none d = d
with_fb (some fb) d = record d { fb_id = some fb }

-- `create_framebuffer`, with the format that the swapchain has allocated.
unfoldable pub create_framebuffer :
    Option DrmDisplay
    → WsiallocFormat
    → Answers
    → DisplayImageData
    → VkResult × DisplayImageData × List Call
create_framebuffer none f a d = (error_initialization_failed, d, [])
create_framebuffer (some display) f a d =
    let (ok, hs, opened) =
      open_handles a.prime_fd_to_handle d.external_mem.num_planes 0 gem_handles in
    let fb = a.add_framebuffer hs in
    if ok && is_format_supported (f.fourcc, f.modifier) display
    then (fb_result fb, with_fb fb d, opened ++ added_call fb ++ close_handles hs)
    else (error_initialization_failed, d, opened ++ close_handles hs)

-- The import of the memory and the fence.
unfoldable pub import_data : Answers → DisplayImageData → VkResult × DisplayImageData
unfolding create
import_data a d =
    let (r, m) = a.import_and_bind d.external_mem in
    let d' = record d { external_mem = m } in
    if is_success r
    then (elim (create a.create_fence a.fence_handle) [
      | none ↦ (error_out_of_host_memory, d')
      | some f ↦ (success, record d' { present_fence = some f })
    ])
    else (r, d')

abbrev pub with_data : DisplayImageData → Image → Image
with_data d im = record im { status = free; image_data = some d }

-- `allocate_image`, which writes the format that the swapchain has allocated.
unfoldable pub allocate_image :
    Codes
    → WsiallocFormat
    → Answers
    → DisplayImageData
    → VkResult × WsiallocFormat × DisplayImageData
allocate_image c f a d =
    let (r, o, m) = allocate_wsialloc c false a.allocate d.external_mem in
    if a.list_pushed
    then (r, (elim o [ none ↦ f | some g ↦ g ]), record d { external_mem = m })
    else (error_out_of_host_memory, f, d)

-- `allocate_and_bind_swapchain_image`, of the data of the image: its result, the image, the format of
-- the swapchain, and the calls.
unfoldable pub allocate_and_bind_swapchain_image :
    Codes
    → Option DrmDisplay
    → WsiallocFormat
    → Answers
    → DisplayImageData
    → Image
    → VkResult × Image × WsiallocFormat × List Call
allocate_and_bind_swapchain_image c display f a d im =
    let (r, f', d') = allocate_image c f a d in
    let (q, d'', calls) = create_framebuffer display f' a d' in
    if is_success r
    then (if is_success q
        then ((import_data a d'').0, with_data (import_data a d'').1 im, f', calls)
        else (q, with_data d'' im, f', calls))
    else (r, with_data d' im, f', [])

abbrev is_invalid : Status → Bool
is_invalid invalid = true
is_invalid _ = false

abbrev unless_null : ℕ → List Call
unless_null h = if h == 0 then [] else image_destroyed h ∷ []

unfoldable pub destroy_handle : Image → Image × List Call
destroy_handle im =
    if is_invalid im.status
    then (im, [])
    else (record im { image = 0; status = invalid }, unless_null im.image)

abbrev removed_call : Option ℕ → List Call
removed_call none = []
removed_call (some fb) = fb_removed fb ∷ []

-- The data of an image are released where there is a display.
unfoldable pub destroy_data :
    Option DrmDisplay → Option DisplayImageData → Image → Image × List Call
destroy_data display none im = (im, [])
destroy_data none (some d) im = (im, [])
destroy_data (some display) (some d) im = (record im { image_data = none }, removed_call d.fb_id)

unfoldable pub destroy_image : Option DrmDisplay → Image → Image × List Call
unfolding destroy_handle destroy_data
destroy_image display im =
    let (im', calls) = destroy_handle im in
    let (im'', more) = destroy_data display im.image_data im' in (im'', calls ++ more)
