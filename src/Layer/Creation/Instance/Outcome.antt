-- ===== src/Layer/Creation/Instance/Outcome.antt =====
-- layer/layer.cpp: what `create_instance` leaves of an instance.
use rk_vulkan_wsi_layer.Prelude.{ℕ, ◌≡◌, ◌⊎◌, Bool, true, false, not, ◌&&◌, ◌||◌, [], ◌∷◌, none}
use rk_vulkan_wsi_layer.Vulkan.{VkResult, is_success}
use rk_vulkan_wsi_layer.Wsi.Factory.{
  platform_empty, supported_wsi_extensions, required_instance_extensions,
}
use rk_vulkan_wsi_layer.Wsi.Factory.Required.{mem, required_by}
use rk_vulkan_wsi_layer.Layer.PrivateData.Registry.{get_instance}
use rk_vulkan_wsi_layer.Layer.Creation.{created}
use rk_vulkan_wsi_layer.Layer.Creation.Instance.{
  InstanceAnswers, InstanceState, Requested, is_instance_extension_enabled,
}

-- Which extensions count as enabled, of the application's names.
abbrev pub enabled : InstanceAnswers → ℕ → ℕ → Bool
enabled a platforms n =
    not (platform_empty platforms)
    && (mem n a.names
        || required_by n required_instance_extensions platforms (supported_wsi_extensions a.build))

module _ (get_key : ℕ → ℕ) (a : InstanceAnswers) (platforms n : ℕ) (q : Requested)
    (m : mem n q.modified ≡ enabled a platforms n) (r : VkResult) (s' : InstanceState) where
  -- What a call that returns leaves.
  abbrev Outcome : Type 0
  Outcome =
      ((is_success r ≡ true)
        × (s'.calls ≡ created a.handle ∷ [])
        × (get_instance get_key a.handle s'.registry ≡ a.allocation)
        × (is_instance_extension_enabled n s'.details ≡ enabled a platforms n))
      ⊎ ((is_success r ≡ false)
          × (get_instance get_key a.handle s'.registry ≡ none)
          × ((s'.calls ≡ []) ⊎ (s'.calls ≡ created a.handle ∷ [])))
