-- ===== src/Layer/Creation/Device/Outcome.antt =====
-- layer/layer.cpp: what `create_device` and `vkDestroyDevice` leave of a device.
use rk_vulkan_wsi_layer.Prelude.{
  ℕ, ◌≡◌, ◌≢◌, ◌⊎◌, inl, inr, ap, ◌∙◌, Bool, true, false, [], ◌∷◌, ◌++◌, none, some, if◌then◌else◌,
  arith, Bool-cases, Option-cases,
}
use rk_vulkan_wsi_layer.Vulkan.{VkResult, success, is_success}
use rk_vulkan_wsi_layer.Util.UnorderedMap.{find, Unique}
use rk_vulkan_wsi_layer.Layer.PrivateData.Registry.{
  associate_device, disassociate_device, get_device, associated, associated_data, associate-Unique,
  disassociated,
}
use rk_vulkan_wsi_layer.Layer.PrivateData.Dispatch.{
  EntrypointList, populate_device, set_user_enabled_extensions, get_fn,
}
use rk_vulkan_wsi_layer.Layer.PrivateData.Entrypoints.{device_entrypoints, device_destroy_found}
use rk_vulkan_wsi_layer.Layer.PrivateData.Entrypoints.Names
use rk_vulkan_wsi_layer.Layer.Creation.{created, destroyed, device_links}
use rk_vulkan_wsi_layer.Layer.Creation.Device.{
  DeviceAnswers, DeviceState, Requested, finish_device, register_device, populate_and_register,
  create_with, create_device, associated_state, requested_extensions, destroy_device,
}

abbrev pub destroy_name : ℕ
destroy_name = Names.destroy_device

-- What a call that returns leaves, of the calls of the driver and of the registered data, by its
-- result and by the data that were allocated.
abbrev Outcome : (ℕ → ℕ) → DeviceAnswers → VkResult → DeviceState → Type 0
Outcome get_key a r s =
    ((is_success r ≡ true)
      × (s.calls ≡ created a.handle ∷ [])
      × (find (get_key a.handle) s.registry.g_data ≡ a.allocation)
      × (a.allocation ≢ none)
      × Unique s.registry.g_data
      × (get_fn destroy_name s.details.table ≡ some (a.get_proc destroy_name)))
    ⊎ ((is_success r ≡ false)
        × (find (get_key a.handle) s.registry.g_data ≡ none)
        × ((s.calls ≡ []) ⊎ (s.calls ≡ created a.handle ∷ destroyed a.handle ∷ [])))

pub when_true : {A : Type 0} (b : Bool) (x y z : A) → b ≡ true → (if b then x else y) ≡ z → x ≡ z
when_true true x y z h e = e
when_true false x y z h e = ground arith

pub when_false : {A : Type 0} (b : Bool) (x y z : A) → b ≡ false → (if b then x else y) ≡ z → y ≡ z
when_false true x y z h e = ground arith
when_false false x y z h e = e

module _ (get_key : ℕ → ℕ) (a : DeviceAnswers) (q : Requested) (r : VkResult)
    (s' : DeviceState) where
  finish_lem :
      (s : DeviceState)
      → s.calls ≡ created a.handle ∷ []
      → Unique s.registry.g_data
      → find (get_key a.handle) s.registry.g_data ≡ a.allocation
      → a.allocation ≢ none
      → get_fn destroy_name s.details.table ≡ some (a.get_proc destroy_name)
      → finish_device get_key a q s ≡ some (r, s')
      → Outcome get_key a r s'
  unfolding finish_device
  finish_lem s c u f n t e = ground (arith, disassociated get_key a.handle s.registry u)

  register_lem :
      (table : EntrypointList) (s : DeviceState)
      → s.calls ≡ created a.handle ∷ []
      → Unique s.registry.g_data
      → find (get_key a.handle) s.registry.g_data ≡ none
      → get_fn destroy_name (set_user_enabled_extensions a.names table)
        ≡ some (a.get_proc destroy_name)
      → register_device get_key a q table s ≡ some (r, s')
      → Outcome get_key a r s'
  unfolding register_device
  register_lem table s c u n t e =
      let b = is_success (associate_device get_key a.allocation a.inserted a.handle s.registry).0 in
      let f = associated get_key a.allocation a.inserted a.handle s.registry n in
      elim (Bool-cases b) [
        | inl y ↦
            finish_lem (associated_state get_key a table s) c
              (associate-Unique get_key a.allocation a.inserted a.handle s.registry u n)
              (f ∙ ap (λ x. if x then a.allocation else none) y)
              (associated_data get_key a.allocation a.inserted a.handle s.registry y) t
              (when_true b _ _ _ y e)
        | inr y ↦ ground (arith, when_false b _ _ _ y e, f)
      ]

  populate_lem :
      (s : DeviceState)
      → s.calls ≡ created a.handle ∷ []
      → Unique s.registry.g_data
      → find (get_key a.handle) s.registry.g_data ≡ none
      → populate_and_register get_key a q s ≡ some (r, s')
      → Outcome get_key a r s'
  unfolding populate_and_register
  populate_lem s c u n e = ground (
    arith,
    device_destroy_found a.get_proc a.entry_allocated a.names,
    register_lem (populate_device a.get_proc a.entry_allocated device_entrypoints []).1 s c u n,
  )

  create_with_lem :
      (s : DeviceState)
      → s.calls ≡ []
      → Unique s.registry.g_data
      → find (get_key a.handle) s.registry.g_data ≡ none
      → create_with get_key a q s ≡ some (r, s')
      → Outcome get_key a r s'
  unfolding create_with
  create_with_lem s c u n e = elim (Bool-cases (is_success a.create_result)) [
    | inl y ↦
        populate_lem (record s { calls = s.calls ++ created a.handle ∷ [] })
          (ap (λ cs. cs ++ created a.handle ∷ []) c) u n
          (when_true (is_success a.create_result) _ _ _ y e)
    | inr y ↦ ground (arith, when_false (is_success a.create_result) _ _ _ y e)
  ]

outcome :
    (get_key : ℕ → ℕ) (a : DeviceAnswers) (s s' : DeviceState) (r : VkResult)
    → s.calls ≡ []
    → Unique s.registry.g_data
    → find (get_key a.handle) s.registry.g_data ≡ none
    → create_device get_key a s ≡ some (r, s')
    → Outcome get_key a r s'
unfolding create_device
outcome get_key a s s' r c u n e = elim (Option-cases (device_links a.chain)) [
  | inl y ↦ ground (arith, y)
  | inr (l, y) ↦ elim (Option-cases (requested_extensions a)) [
    | inl z ↦ ground (arith, y, z)
    | inr (q, z) ↦ ground (arith, y, z, create_with_lem get_key a q r s' s c u n)
  ]
]

-- A call of `create_device` for a handle that is not registered, which returns, either succeeds with
-- the driver's device created once and not destroyed and the data that were allocated registered
-- for it, or returns an error with no data registered for it and the driver's device not created,
-- or created once and then destroyed once.
pub device_created :
    (get_key : ℕ → ℕ) (a : DeviceAnswers) (s s' : DeviceState) (r : VkResult)
    → s.calls ≡ []
    → Unique s.registry.g_data
    → find (get_key a.handle) s.registry.g_data ≡ none
    → create_device get_key a s ≡ some (r, s')
    → ((is_success r ≡ true)
        × (s'.calls ≡ created a.handle ∷ [])
        × (find (get_key a.handle) s'.registry.g_data ≡ a.allocation)
        × (a.allocation ≢ none))
      ⊎ ((is_success r ≡ false)
          × (find (get_key a.handle) s'.registry.g_data ≡ none)
          × ((s'.calls ≡ []) ⊎ (s'.calls ≡ created a.handle ∷ destroyed a.handle ∷ [])))
device_created get_key a s s' r c u n e = elim (outcome get_key a s s' r c u n e) [
  | inl (y, cs, f, m, v, t) ↦ inl (y, cs, f, m)
  | inr x ↦ inr x
]

-- A device that `create_device` has created successfully, for a handle that is not null and was not
-- registered, is destroyed by `vkDestroyDevice`: the call finds its data and the driver's function,
-- leaves no data registered for the handle, and the driver's device has then been created once and
-- destroyed once.
pub device_lifetime :
    (get_key : ℕ → ℕ) (a : DeviceAnswers) (s s' : DeviceState)
    → s.calls ≡ []
    → Unique s.registry.g_data
    → find (get_key a.handle) s.registry.g_data ≡ none
    → a.handle ≢ 0
    → create_device get_key a s ≡ some (success, s')
    → (s'' : DeviceState) × (destroy_device get_key destroy_name a.handle s' ≡ some s'')
      × (s''.calls ≡ created a.handle ∷ destroyed a.handle ∷ [])
      × (get_device get_key a.handle s''.registry ≡ none)
unfolding destroy_device get_device
device_lifetime get_key a s s' c u n z e = elim (outcome get_key a s s' success c u n e) [
  | inl (y, cs, f, m, v, t) ↦ elim (Option-cases a.allocation) [
    | inl w ↦ absurd (m w)
    | inr (d, w) ↦ (
      record s' {
        registry = disassociate_device get_key a.handle s'.registry;
        calls = s'.calls ++ destroyed a.handle ∷ [];
      },
      ground (arith, f ∙ w),
      ap (λ x. x ++ destroyed a.handle ∷ []) cs,
      disassociated get_key a.handle s'.registry v,
    )
  ]
  | inr (y, x, w) ↦ ground arith
]
