-- ===== src/Wsi/Factory.antt =====
-- wsi/wsi_factory.cpp, util/platform_set.hpp and the lists of required extensions of the platforms in
-- wsi/*/surface_properties.cpp: which platforms an instance uses and which extensions they add.
-- `none` is a call that aborts the program, as in the lists of extensions.
pub mod Required
pub mod Platforms
use rk_vulkan_wsi_layer.Prelude.{
  ℕ, ◌+◌, ◌/◌, ◌%◌, ◌≡◌, Bool, true, false, ◌&&◌, List, [], ◌∷◌, ◌++◌, Option, none, some, ◌==◌,
  if◌then◌else◌, map,
}
use rk_vulkan_wsi_layer.Vulkan.{
  VkResult, success, error_out_of_host_memory, error_initialization_failed, is_success,
}
use rk_vulkan_wsi_layer.Vulkan.Extensions.{
  vk_ext_headless_surface, vk_khr_wayland_surface, vk_khr_display, vk_khr_surface,
  vk_khr_external_fence, vk_khr_external_fence_fd, vk_khr_external_semaphore,
  vk_khr_external_semaphore_fd, vk_ext_frame_boundary, vk_ext_image_drm_format_modifier,
  vk_khr_bind_memory_2, vk_khr_image_format_list, vk_khr_sampler_ycbcr_conversion,
  vk_khr_maintenance1, vk_khr_get_memory_requirements_2, vk_ext_external_memory_dma_buf,
  vk_khr_external_memory_fd, vk_khr_external_memory, vk_khr_get_physical_device_properties_2,
  vk_khr_external_fence_capabilities, vk_khr_external_semaphore_capabilities,
  vk_khr_external_memory_capabilities,
}
use rk_vulkan_wsi_layer.Util.ExtensionList.{
  ExtensionProperties, add, add_list, add_properties, contains, contains_all,
}

-- The platforms of `VkIcdWsiPlatform` that the layer has, and their values 2^1, 2^8 and 2^9 in a set.
pub data Platform : Type 0 where
  headless wayland display : Platform

abbrev pub bit : Platform → ℕ
bit headless = 512
bit wayland = 2
bit display = 256

-- `wsi_platform_set::contains`, `add` and `empty`: a set is its word, of which the operators of the
-- code read and set a single bit.
unfoldable pub platform_contains : ℕ → Platform → Bool
platform_contains m p = (m / bit p) % 2 == 1

unfoldable pub platform_add : ℕ → Platform → ℕ
unfolding platform_contains
platform_add m p = if platform_contains m p then m else m + bit p

unfoldable pub platform_empty : ℕ → Bool
platform_empty m = m == 0

-- An element of `supported_wsi_extensions`, without its version, and the table, of which the build
-- says which elements it has.
pub record WsiExtension : Type 0 where
  pub extension : ℕ
  pub platform : Platform

pub record Build : Type 0 where
  pub headless : Bool
  pub wayland : Bool
  pub display : Bool
  pub instrumentation : Bool

abbrev only : Bool → ℕ → Platform → List WsiExtension
only true n p = record { extension = n; platform = p } ∷ []
only false n p = []

unfoldable pub supported_wsi_extensions : Build → List WsiExtension
supported_wsi_extensions b =
    only b.headless vk_ext_headless_surface headless
    ++ only b.wayland vk_khr_wayland_surface wayland
    ++ only b.display vk_khr_display display

-- `get_surface_properties`: whether the platform is built.
unfoldable pub get_surface_properties : Build → Platform → Option Platform
get_surface_properties b headless = if b.headless then some headless else none
get_surface_properties b wayland = if b.wayland then some wayland else none
get_surface_properties b display = if b.display then some display else none

-- The loops of `find_enabled_layer_platforms`.
unfoldable pub add_for_names : WsiExtension → List ℕ → ℕ → ℕ
unfolding platform_add
add_for_names e [] m = m
add_for_names e (n ∷ names) m =
    add_for_names e names (if n == e.extension then platform_add m e.platform else m)

unfoldable pub find_platforms : List WsiExtension → List ℕ → ℕ → ℕ
unfolding add_for_names
find_platforms [] names m = m
find_platforms (e ∷ es) names m = find_platforms es names (add_for_names e names m)

unfoldable pub find_enabled_layer_platforms : Build → List ℕ → ℕ
unfolding find_platforms supported_wsi_extensions
find_enabled_layer_platforms b names = find_platforms (supported_wsi_extensions b) names 0

-- The lists of `get_required_device_extensions` and `get_required_instance_extensions`.
unfoldable pub required_device_extensions : Platform → List ℕ
required_device_extensions headless = []
required_device_extensions wayland =
    vk_ext_image_drm_format_modifier ∷ vk_khr_bind_memory_2 ∷ vk_khr_image_format_list
    ∷ vk_khr_sampler_ycbcr_conversion ∷ vk_khr_maintenance1 ∷ vk_khr_get_memory_requirements_2
    ∷ vk_ext_external_memory_dma_buf ∷ vk_khr_external_memory_fd ∷ vk_khr_external_memory
    ∷ vk_khr_external_fence ∷ vk_khr_external_fence_fd ∷ []
required_device_extensions display = vk_khr_external_memory_fd ∷ vk_khr_bind_memory_2 ∷ []

unfoldable pub required_instance_extensions : Platform → List ℕ
required_instance_extensions headless =
    vk_khr_get_physical_device_properties_2 ∷ vk_khr_external_fence_capabilities
    ∷ vk_khr_external_semaphore_capabilities ∷ []
required_instance_extensions wayland =
    vk_khr_get_physical_device_properties_2 ∷ vk_khr_external_fence_capabilities
    ∷ vk_khr_external_semaphore_capabilities ∷ vk_khr_external_memory_capabilities ∷ []
required_instance_extensions display = vk_khr_get_physical_device_properties_2 ∷ []

-- The answers of the host and of the driver: the length of a name; whether the list of names can be
-- added to the list of the caller, by the first name; whether the required list of a platform can be
-- made and added, with its strings; the results of the two calls that count and write the available
-- extensions, the list they write, and whether the vectors for them can be resized.
pub record Answers : Type 0 where
  pub strlen : ℕ → ℕ
  pub name_added : ℕ → Bool
  pub required_added : Platform → Bool
  pub list_strings : Platform → Bool
  pub list_added : Platform → Bool
  pub count_extensions : VkResult
  pub properties_resized : Bool
  pub enumerate_extensions : VkResult
  pub available : List ExtensionProperties
  pub available_added : Bool

-- A call whose success leads to the next.
abbrev pub Added : Type 0
Added = Option (VkResult × List ExtensionProperties)

unfoldable pub then_add : Added → (List ExtensionProperties → Added) → Added
then_add none next = none
then_add (some (r, ps)) next = if is_success r then next ps else some (r, ps)

unfoldable pub get_available_device_extensions :
    Answers → List ExtensionProperties → VkResult × List ExtensionProperties
unfolding add_properties
get_available_device_extensions a ps =
    if is_success a.count_extensions
    then (if a.properties_resized
        then (if is_success a.enumerate_extensions
            then add_properties a.available_added a.available ps
            else (a.enumerate_extensions, ps))
        else (error_out_of_host_memory, ps))
    else (a.count_extensions, ps)

unfoldable pub optional_extensions : Build → List ℕ
optional_extensions b =
    vk_khr_external_fence
    ∷ vk_khr_external_fence_fd
    ∷ vk_khr_external_semaphore
    ∷ vk_khr_external_semaphore_fd
    ∷ (if b.instrumentation then vk_ext_frame_boundary ∷ [] else [])

-- The loop over the optional extensions.
unfoldable pub add_one_optional :
    Answers → List ExtensionProperties → ℕ → List ExtensionProperties → Added
unfolding add
add_one_optional a available n ps =
    if contains n available then add a.strlen (a.name_added n) (n ∷ []) ps else some (success, ps)

unfoldable pub add_optional :
    Answers → List ExtensionProperties → List ℕ → List ExtensionProperties → Added
unfolding then_add add_one_optional
add_optional a available [] ps = some (success, ps)
add_optional a available (n ∷ ns) ps =
    then_add (add_one_optional a available n ps) (λ ps'. add_optional a available ns ps')

-- `get_required_device_extensions` and `get_required_instance_extensions` of a platform.
unfoldable pub get_required_device_extensions : Answers → Platform → Added
unfolding required_device_extensions add
get_required_device_extensions a headless = some (success, [])
get_required_device_extensions a wayland =
    add a.strlen (a.required_added wayland) (required_device_extensions wayland) []
get_required_device_extensions a display =
    add a.strlen (a.required_added display) (required_device_extensions display) []

unfoldable pub get_required_instance_extensions : Answers → Platform → Added
unfolding required_instance_extensions add
get_required_instance_extensions a p =
    add a.strlen (a.required_added p) (required_instance_extensions p) []

-- The list that a platform requires is used where it was made, and else the caller's is left alone.
unfoldable pub then_required :
    Added → List ExtensionProperties → (List ExtensionProperties → Added) → Added
then_required none ps next = none
then_required (some (r, required)) ps next = if is_success r then next required else some (r, ps)

-- The body of the loop over the platforms, for a platform that is enabled.
unfoldable pub require_device :
    Answers → List ExtensionProperties → Platform → List ExtensionProperties → Added
unfolding add_list get_required_device_extensions then_required
require_device a available p ps = then_required (get_required_device_extensions a p) ps (λ required.
    if contains_all required available
    then add_list a.strlen (a.list_strings p) (a.list_added p) required ps
    else some (error_initialization_failed, ps))

unfoldable pub require_instance : Answers → Platform → List ExtensionProperties → Added
unfolding add_list get_required_instance_extensions then_required
require_instance a p ps =
    then_required (get_required_instance_extensions a p) ps
      (λ required. add_list a.strlen (a.list_strings p) (a.list_added p) required ps)

-- The loop over the platforms: one that is not enabled is skipped, and one that has no properties
-- ends it.
unfoldable pub one_platform :
    (Platform → Option Platform)
    → (Platform → List ExtensionProperties → Added)
    → ℕ
    → Platform
    → List ExtensionProperties
    → Added
unfolding platform_contains
one_platform properties require enabled p ps =
    if platform_contains enabled p
    then (elim (properties p) [
      | none ↦ some (error_initialization_failed, ps)
      | some q ↦ require q ps
    ])
    else some (success, ps)

unfoldable pub each_platform :
    (Platform → Option Platform)
    → (Platform → List ExtensionProperties → Added)
    → ℕ
    → List WsiExtension
    → List ExtensionProperties
    → Added
unfolding then_add one_platform
each_platform properties require enabled [] ps = some (success, ps)
each_platform properties require enabled (e ∷ es) ps =
    then_add (one_platform properties require enabled e.platform ps)
      (λ ps'. each_platform properties require enabled es ps')

-- The loops of `add_device_extensions_required_by_layer`, over the available extensions.
unfoldable pub device_loops :
    Build → Answers → ℕ → List ExtensionProperties → List ExtensionProperties → Added
unfolding add_optional require_device each_platform get_surface_properties supported_wsi_extensions
    optional_extensions then_add
device_loops b a enabled available ps =
    then_add (add_optional a available (optional_extensions b) ps) (λ ps'.
      each_platform (get_surface_properties b) (require_device a available) enabled
        (supported_wsi_extensions b) ps')

unfoldable pub add_device_extensions_required_by_layer :
    Build → Answers → ℕ → List ExtensionProperties → Added
unfolding get_available_device_extensions device_loops
add_device_extensions_required_by_layer b a enabled ps =
    let (r, available) = get_available_device_extensions a [] in
    if is_success r then device_loops b a enabled available ps else some (r, ps)

unfoldable pub add_instance_extensions_required_by_layer :
    Build → Answers → ℕ → List ExtensionProperties → Added
unfolding each_platform require_instance get_surface_properties supported_wsi_extensions
add_instance_extensions_required_by_layer b a enabled ps =
    each_platform (get_surface_properties b) (require_instance a) enabled
      (supported_wsi_extensions b) ps

-- `wsi::get_proc_addr`: `proc` is the function of a platform by the name, and `surface_enabled` its
-- `is_surface_extension_enabled`.
unfoldable pub get_proc_addr :
    (Platform → Option Platform) → (Platform → ℕ) → (Platform → Bool) → List WsiExtension → ℕ
get_proc_addr properties proc surface_enabled [] = 0
get_proc_addr properties proc surface_enabled (e ∷ es) =
    let rest = get_proc_addr properties proc surface_enabled es in
    elim (properties e.platform) [
      | none ↦ 0
      | some p ↦ if surface_enabled p then (if proc p == 0 then rest else proc p) else rest
    ]

-- `is_surface_extension_enabled` of a platform, by the extensions of the instance.
unfoldable pub is_surface_extension_enabled : List ExtensionProperties → Platform → Bool
is_surface_extension_enabled ps headless = contains vk_ext_headless_surface ps
is_surface_extension_enabled ps wayland = contains vk_khr_wayland_surface ps
is_surface_extension_enabled ps display = contains vk_khr_surface ps
