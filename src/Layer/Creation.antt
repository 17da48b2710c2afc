-- ===== src/Layer/Creation.antt =====
-- layer/layer.cpp: the creation and the destruction of instances and of devices. A function by its
-- pointer, a handle, a physical device and the data of the layer are numbers, 0 being null. A call
-- that the driver's functions get is logged. `none` is a call that aborts the program, since a name
-- of an extension does not fit.
pub mod Device
pub mod Instance
use rk_vulkan_wsi_layer.Prelude.{
  ℕ, ◌≡◌, Bool, true, false, ◌&&◌, ◌||◌, not, List, [], ◌∷◌, ◌++◌, Option, none, some, ◌==◌,
  if◌then◌else◌,
}
use rk_vulkan_wsi_layer.Vulkan.{
  VkResult, success, error_out_of_host_memory, error_initialization_failed, is_success,
}
use rk_vulkan_wsi_layer.Util.ExtensionList.{ExtensionProperties}

-- `VkLayerFunction`, of which the code looks for two values.
pub data LayerFunction : Type 0 where
  layer_link_info loader_data_callback : LayerFunction
  other_function : ℕ → LayerFunction

abbrev same_function : LayerFunction → LayerFunction → Bool
same_function layer_link_info layer_link_info = true
same_function loader_data_callback loader_data_callback = true
same_function (other_function m) (other_function n) = m == n
same_function _ _ = false

-- An element of the chain of a create info: whether it is the loader's, its function, whether its
-- layer info is there, with the two next functions, and its callback.
pub record CreateInfoLink : Type 0 where
  pub from_loader : Bool
  pub function : LayerFunction
  pub has_layer_info : Bool
  pub next_get_instance_proc_addr : ℕ
  pub next_get_device_proc_addr : ℕ
  pub set_loader_data : ℕ

-- `get_chain_info`, of an instance and of a device.
unfoldable pub get_chain_info : LayerFunction → List CreateInfoLink → Option CreateInfoLink
get_chain_info f [] = none
get_chain_info f (i ∷ chain) =
    let rest = get_chain_info f chain in
    if i.from_loader && same_function i.function f then some i else rest

-- What the chain provides: the next functions and the callback. `none` is a missing one, for which
-- the code returns VK_ERROR_INITIALIZATION_FAILED.
pub record Links : Type 0 where
  pub get_instance_proc_addr : ℕ
  pub get_device_proc_addr : ℕ
  pub loader_callback : ℕ

abbrev links_of : CreateInfoLink → CreateInfoLink → Links
links_of link callback = record {
  get_instance_proc_addr = link.next_get_instance_proc_addr;
  get_device_proc_addr = link.next_get_device_proc_addr;
  loader_callback = callback.set_loader_data;
}

unfoldable pub both_links : Option CreateInfoLink → Option CreateInfoLink → Option Links
both_links none callback = none
both_links (some link) none = none
both_links (some link) (some callback) =
    if link.has_layer_info then some (links_of link callback) else none

-- The checks of `create_instance`, and the checks of `create_device`.
unfoldable pub instance_links : List CreateInfoLink → Option Links
unfolding get_chain_info both_links
instance_links chain =
    elim (both_links (get_chain_info layer_link_info chain)
      (get_chain_info loader_data_callback chain)) [
        | none ↦ none
        | some l ↦
            if (l.get_instance_proc_addr == 0) || (l.loader_callback == 0) then none else some l
      ]

unfoldable pub device_links : List CreateInfoLink → Option Links
unfolding get_chain_info both_links
device_links chain =
    elim (both_links (get_chain_info layer_link_info chain)
      (get_chain_info loader_data_callback chain)) [
        | none ↦ none
        | some l ↦
            if (l.get_instance_proc_addr == 0)
              || ((l.get_device_proc_addr == 0) || (l.loader_callback == 0))
            then none
            else some l
      ]

-- A call of the driver that the layer makes.
pub data DriverCall : Type 0 where
  created : (handle : ℕ) → DriverCall
  destroyed : (handle : ℕ) → DriverCall
