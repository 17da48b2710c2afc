-- ===== src/Layer/CreationTests.antt =====
-- The objects of the layer, their creation and the choice of platforms on concrete inputs.
use rk_vulkan_wsi_layer.Prelude.{
  ℕ, ◌+◌, ◌*◌, ◌/◌, ◌%◌, ◌^◌, ◌<◌, ◌≤◌, ◌≡◌, ◌≢◌, ◌⊎◌, refl, Bool, true, false, ◌&&◌, ◌||◌, List,
  [], ◌∷◌, ◌++◌, ◌==◌, Option, none, some, arith, if◌then◌else◌,
}
use rk_vulkan_wsi_layer.Vulkan.{VkResult, success, is_success}
use rk_vulkan_wsi_layer.Vulkan.Extensions.{
  vk_khr_swapchain, vk_khr_surface, vk_ext_headless_surface, vk_khr_external_fence,
}
use rk_vulkan_wsi_layer.Util.UnorderedMap.{find}
use rk_vulkan_wsi_layer.Util.ExtensionList.{ExtensionProperties, contains, contains_all}
use rk_vulkan_wsi_layer.Util.Wsialloc.{
  FmtSpec, AllocateInfo, AllocateResult, find_format, plane_stride, wsiallocp_alloc, mod_linear,
}
use rk_vulkan_wsi_layer.Util.Wsialloc.Layout.{allocated_layout}
use rk_vulkan_wsi_layer.Wsi.Factory.{
  Platform, headless, Build, platform_contains, optional_extensions, required_device_extensions,
  supported_wsi_extensions, add_device_extensions_required_by_layer,
}
use rk_vulkan_wsi_layer.Wsi.Factory
use rk_vulkan_wsi_layer.Wsi.Factory.Required.{mem, required_by, device_extensions_added}
use rk_vulkan_wsi_layer.Layer.PrivateData.Dispatch.{
  Entrypoint, populate, set_user_enabled_extensions, get_user_enabled_entrypoint, api_version_1_0,
  api_version_1_1,
}
use rk_vulkan_wsi_layer.Layer.PrivateData.Visible.{visible, entrypoint_visible}
use rk_vulkan_wsi_layer.Layer.PrivateData.Entrypoints.{device_entrypoints}
use rk_vulkan_wsi_layer.Layer.PrivateData.Entrypoints.Names
use rk_vulkan_wsi_layer.Layer.PrivateData.Registry.{
  Step, associate, disassociate, run, no_data, occurrences, registrations, data_accounted,
  get_device,
}
use rk_vulkan_wsi_layer.Layer.PrivateData.Swapchains
use rk_vulkan_wsi_layer.Layer.Creation.{
  CreateInfoLink, layer_link_info, loader_data_callback, created, destroyed,
}
use rk_vulkan_wsi_layer.Layer.Creation.Device.{
  DeviceAnswers, DeviceState, create_device, destroy_device,
}
use rk_vulkan_wsi_layer.Layer.Creation.Device.Outcome.{
  destroy_name, device_created, device_lifetime,
}
use rk_vulkan_wsi_layer.Layer.Creation.Instance.{InstanceAnswers, InstanceState, create_instance}

abbrev key : ℕ → ℕ
key h = h + 1000

-- Two instances of which the second has the key of the first.
abbrev steps : List Step
steps =
    associate (some 7) true 1
    ∷ associate none true 2
    ∷ associate (some 8) true 1
    ∷ associate (some 9) false 3
    ∷ disassociate 1
    ∷ []

data_accounted_example :
    occurrences 8 (run key steps no_data).created
    ≡ registrations 8 (run key steps no_data).g_data
      + occurrences 8 (run key steps no_data).destroyed
data_accounted_example = data_accounted key steps 8

abbrev swapchain_calls : List Swapchains.Call
swapchain_calls =
    Swapchains.add_swapchain true 21
    ∷ Swapchains.add_swapchain true 22
    ∷ Swapchains.remove_swapchain 21
    ∷ []

-- A driver that has every function, and one element of a list for each case.
abbrev driver : ℕ → ℕ
driver n = n + 5000

abbrev row : ℕ → ℕ → ℕ → Bool → Entrypoint
row n ext version req = record {
  name = n;
  ext_name = ext;
  fn = 0;
  api_version = version;
  user_visible = false;
  required = req;
}

abbrev rows : List Entrypoint
rows = row 1 0 api_version_1_0 true ∷ row 2 44 api_version_1_1 false ∷ []

entrypoint_visible_example :
    get_user_enabled_entrypoint 1
      (λ fn n. fn + n)
      api_version_1_0
      2
      (set_user_enabled_extensions (44 ∷ []) (populate driver (λ n. true) rows []).1)
    ≡ visible driver rows (44 ∷ []) api_version_1_0 (λ fn n. fn + n) 1 2
unfolding populate
entrypoint_visible_example =
    entrypoint_visible driver (λ n. true) rows refl (44 ∷ []) api_version_1_0 (λ fn n. fn + n) 1 2

-- A driver without the functions that are not required.
abbrev bare_driver : ℕ → ℕ
bare_driver n = if n == Names.create_swapchain_khr then 0 else n + 5000

abbrev build : Build
build = record { headless = true; wayland = false; display = false; instrumentation = false }

abbrev factory : Factory.Answers
factory = record {
  strlen = λ n. 20;
  name_added = λ n. true;
  required_added = λ p. true;
  list_strings = λ p. true;
  list_added = λ p. true;
  count_extensions = success;
  properties_resized = true;
  enumerate_extensions = success;
  available = record { extension_name = vk_khr_external_fence; spec_version = 1 } ∷ [];
  available_added = true;
}

abbrev asked : List ExtensionProperties
asked = record { extension_name = vk_khr_swapchain; spec_version = 0 } ∷ []

device_extensions_added_example :
    contains vk_khr_external_fence
      (asked ++ record { extension_name = vk_khr_external_fence; spec_version = 0 } ∷ [])
    ≡ (contains vk_khr_external_fence asked
        || ((mem vk_khr_external_fence (optional_extensions build)
              && contains vk_khr_external_fence factory.available)
            || required_by vk_khr_external_fence required_device_extensions 512
                (supported_wsi_extensions build)))
unfolding add_device_extensions_required_by_layer contains contains_all
device_extensions_added_example =
    device_extensions_added build factory 512 vk_khr_external_fence asked
      (asked ++ record { extension_name = vk_khr_external_fence; spec_version = 0 } ∷ []) refl

abbrev chain : List CreateInfoLink
chain =
    record {
      from_loader = true;
      function = layer_link_info;
      has_layer_info = true;
      next_get_instance_proc_addr = 900;
      next_get_device_proc_addr = 901;
      set_loader_data = 0;
    }
    ∷ record {
      from_loader = true;
      function = loader_data_callback;
      has_layer_info = false;
      next_get_instance_proc_addr = 0;
      next_get_device_proc_addr = 0;
      set_loader_data = 902;
    }
    ∷ []

abbrev device_answers : Bool → DeviceAnswers
device_answers table_created = record {
  build = build;
  chain = chain;
  create_device_fn = 903;
  names = vk_khr_swapchain ∷ [];
  enabled_platforms = 512;
  factory = factory;
  names_added = true;
  strings_resized = true;
  frame_boundary_supported = false;
  application_frame_boundary = none;
  create_result = success;
  handle = 5;
  table_created = table_created;
  get_proc = driver;
  entry_allocated = λ n. true;
  allocation = some 77;
  inserted = true;
  enabled_added = true;
  compression_control = false;
  compression_feature = none;
  present_id_feature = some true;
}

abbrev no_device : DeviceState
no_device = record {
  registry = no_data;
  calls = [];
  details = record {
    table = [];
    enabled_extensions = [];
    compression_control_enabled = false;
    handle_frame_boundary_events = false;
    present_id_enabled = false;
  };
}

-- What a call returns, and the state that it leaves.
abbrev outcome_of : {S : Type 0} → S → Option (VkResult × S) → VkResult × S
outcome_of s none = (success, s)
outcome_of s (some x) = x

abbrev succeeds : {S : Type 0} → Option (VkResult × S) → Bool
succeeds none = false
succeeds (some (success, s)) = true
succeeds (some (r, s)) = false

returns_success :
    {S : Type 0} (d : S) (o : Option (VkResult × S))
    → succeeds o ≡ true
    → o ≡ some (success, (outcome_of d o).1)
returns_success d none e = ground arith
returns_success d (some (success, s)) e = refl
returns_success d (some (r, s)) e = ground arith

abbrev device_call : Bool → VkResult × DeviceState
device_call table_created =
    outcome_of no_device (create_device key (device_answers table_created) no_device)

device_created_example :
    ((is_success (device_call false).0 ≡ true)
      × ((device_call false).1.calls ≡ created 5 ∷ [])
      × (find 1005 (device_call false).1.registry.g_data ≡ some 77)
      × (◌≢◌ {A = Option ℕ} (some 77) none))
    ⊎ ((is_success (device_call false).0 ≡ false)
        × (find 1005 (device_call false).1.registry.g_data ≡ none)
        × (((device_call false).1.calls ≡ [])
            ⊎ ((device_call false).1.calls ≡ created 5 ∷ destroyed 5 ∷ [])))
unfolding create_device contains contains_all
device_created_example =
    device_created key (device_answers false) no_device (device_call false).1 (device_call false).0
      refl tt refl refl

device_lifetime_example :
    (s'' : DeviceState) × (destroy_device key destroy_name 5 (device_call true).1 ≡ some s'')
    × (s''.calls ≡ created 5 ∷ destroyed 5 ∷ [])
    × (get_device key 5 s''.registry ≡ none)
unfolding create_device contains contains_all device_entrypoints
device_lifetime_example =
    device_lifetime key (device_answers true) no_device (device_call true).1 refl tt refl
      (λ e. omega (arith, e))
      (returns_success no_device (create_device key (device_answers true) no_device) refl)

abbrev instance_answers : InstanceAnswers
instance_answers = record {
  build = build;
  chain = chain;
  create_instance_fn = 904;
  names = vk_khr_surface ∷ vk_ext_headless_surface ∷ [];
  application_version = none;
  factory = factory;
  names_added = true;
  strings_resized = true;
  create_result = success;
  handle = 6;
  table_created = true;
  get_proc = driver;
  entry_allocated = λ n. true;
  allocation = some 78;
  inserted = true;
  enabled_added = true;
}

abbrev no_instance : InstanceState
no_instance = record {
  registry = no_data;
  calls = [];
  details = record {
    table = [];
    api_version = 0;
    enabled_layer_platforms = 0;
    enabled_extensions = [];
  };
}

abbrev left_instance : InstanceState
left_instance = (outcome_of no_instance (create_instance key instance_answers no_instance)).1

-- A buffer of 64000 by 64000 pixels of 32 bits.
abbrev spec : FmtSpec
spec = record { drm_format = 34325; nr_planes = 1; bpp = 32 }

abbrev large : AllocateInfo
large = record {
  formats = record { fourcc = 34325; modifier = 0; flags = 0 } ∷ [];
  width = 64000;
  height = 64000;
  no_memory = false;
}

abbrev large_result : AllocateResult
large_result = record {
  format = record { fourcc = 34325; modifier = 0; flags = 0 };
  average_row_strides = 256000 ∷ [];
  offsets = 0 ∷ [];
  buffer_fds = 4 ∷ [];
  is_disjoint = false;
}

-- The size that is allocated for it is less than the 16384000000 bytes that it takes.
allocated_layout_example :
    (x : FmtSpec) × (find_format (spec ∷ []) 34325 ≡ some x)
    × (0 ≡ mod_linear)
    × (256000 ∷ [] ≡ plane_stride x large ∷ [])
    × (plane_stride x large % 64 ≡ 0)
    × (64000 * (x.bpp / 8) ≤ plane_stride x large)
    × (plane_stride x large < 64000 * (x.bpp / 8) + 64)
    × (3499098112 ≡ (plane_stride x large * 64000) % 2 ^ 32)
unfolding wsiallocp_alloc
allocated_layout_example =
    allocated_layout (spec ∷ []) ((refl, omega arith), tt) (λ size. some 4) large 3499098112
      large_result refl
