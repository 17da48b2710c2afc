-- ===== src/Layer/SurfaceApi.antt =====
-- layer/surface_api.cpp: the entry points on a surface. What the properties of the layer's surface
-- answer is an argument, by the surface, and so is what the driver answers, by the handle.
use rk_vulkan_wsi_layer.Prelude.{
  ℕ, ◌≡◌, refl, Bool, true, false, List, [], ◌∷◌, ◌++◌, Option, none, some, if◌then◌else◌,
}
use rk_vulkan_wsi_layer.Vulkan.{VkResult, success, PresentMode}
use rk_vulkan_wsi_layer.Wsi.SurfaceProperties.{Queried, Format2}
use rk_vulkan_wsi_layer.Wsi.SurfaceProperties.Capabilities.{
  SurfaceCapabilities, SurfaceCapabilities2, ImageUsage, color_attachment,
}
use rk_vulkan_wsi_layer.Layer.PrivateData.Surfaces.{
  InstanceSurfaces, get_surface, remove_surface, should_layer_handle_surface,
  should_layer_create_swapchain, Call, run, no_surfaces, surface_after, surface_or_null,
  surfaces_refine,
}

-- The answers about one surface. The flags of shared presentation are those of a structure in the chain
-- of the capabilities, if it has one.
pub record SurfaceQueries : Type 0 where
  pub capabilities : VkResult × SurfaceCapabilities
  pub capabilities2 :
      Option PresentMode
      → SurfaceCapabilities2 × Option (List ImageUsage)
      → VkResult × SurfaceCapabilities2 × Option (List ImageUsage)
  pub formats : ℕ → Option (List ℕ) → Queried ℕ
  pub formats2 : ℕ → Option (List Format2) → Queried Format2
  pub present_modes : ℕ → Option (List PresentMode) → Queried PresentMode
  pub supported : ℕ → VkResult × Bool

abbrev pub shared_flags : Option (List ImageUsage) → Option (List ImageUsage)
shared_flags none = none
shared_flags (some flags) = some (color_attachment ∷ [])

module _ (layer driver : ℕ → SurfaceQueries) (physical_device handle : ℕ)
    (s : InstanceSurfaces) where
  -- The properties of the layer's surface are asked where the layer handles it.
  abbrev pub answer : {A : Type 0} → (SurfaceQueries → A) → A
  unfolding should_layer_handle_surface get_surface
  answer query =
      if should_layer_handle_surface physical_device handle s
      then query (layer (get_surface handle s))
      else query (driver handle)

  unfoldable pub get_surface_capabilities_khr : VkResult × SurfaceCapabilities
  unfolding should_layer_handle_surface get_surface
  get_surface_capabilities_khr = answer (λ q. q.capabilities)

  -- The layer writes the flags of shared presentation before it asks the platform.
  unfoldable pub get_surface_capabilities2_khr :
      Option PresentMode
      → SurfaceCapabilities2 × Option (List ImageUsage)
      → VkResult × SurfaceCapabilities2 × Option (List ImageUsage)
  unfolding should_layer_handle_surface get_surface
  get_surface_capabilities2_khr mode (c, shared) =
      if should_layer_handle_surface physical_device handle s
      then (layer (get_surface handle s)).capabilities2 mode (c, shared_flags shared)
      else (driver handle).capabilities2 mode (c, shared)

  unfoldable pub get_surface_formats_khr : ℕ → Option (List ℕ) → Queried ℕ
  unfolding should_layer_handle_surface get_surface
  get_surface_formats_khr count array = answer (λ q. q.formats count array)

  unfoldable pub get_surface_formats2_khr : ℕ → Option (List Format2) → Queried Format2
  unfolding should_layer_handle_surface get_surface
  get_surface_formats2_khr count array = answer (λ q. q.formats2 count array)

  unfoldable pub get_surface_present_modes_khr : ℕ → Option (List PresentMode) → Queried PresentMode
  unfolding should_layer_handle_surface get_surface
  get_surface_present_modes_khr count array = answer (λ q. q.present_modes count array)

  unfoldable pub get_surface_support_khr : ℕ → VkResult × Bool
  unfolding should_layer_handle_surface
  get_surface_support_khr queue_family =
      if should_layer_handle_surface physical_device handle s
      then (success, true)
      else (driver handle).supported queue_family

-- `vkDestroySurfaceKHR`: the driver's surfaces that have been destroyed, and the layer's.
unfoldable pub destroy_surface_khr : ℕ → List ℕ × InstanceSurfaces → List ℕ × InstanceSurfaces
unfolding remove_surface
destroy_surface_khr handle (driver, s) = (driver ++ handle ∷ [], remove_surface handle s)

-- What is asked of the layer's surface or of the driver, by the surface that the calls leave.
abbrev pub asked : {A : Type 0} → Option ℕ → (ℕ → A) → A → A
asked none layer driver = driver
asked (some surface) layer driver = layer surface

module _ (layer driver : ℕ → SurfaceQueries) (phys_dev h : ℕ) where
  handled_lem :
      (o : Option ℕ) (s : InstanceSurfaces)
      → get_surface h s ≡ surface_or_null o
      → should_layer_create_swapchain phys_dev h s ≡ elim o [ none ↦ false | some _ ↦ true ]
      → {A : Type 0} → (f : ℕ → A) (d : A)
      → (if should_layer_handle_surface phys_dev h s then f (get_surface h s) else d) ≡ asked o f d
  unfolding should_layer_create_swapchain
  handled_lem none s g e f d = rw e refl
  handled_lem (some x) s g e f d = rw (e, g) refl

  -- After any sequence of additions and removals of surfaces from none, every query about a handle goes
  -- to the surface of the last addition of the handle that no removal follows and whose allocation did
  -- not fail, and to the driver where there is none: the capabilities, also with their extended
  -- structure, in which the flags of shared presentation have been written before, the formats in both
  -- forms, the presentation modes, and the support, which is true for a surface of the layer.
  pub surface_queries_refine :
      (cs : List Call) (mode : Option PresentMode) (c : SurfaceCapabilities2)
      (flags : Option (List ImageUsage)) (count queue_family : ℕ) (formats : Option (List ℕ))
      (formats2 : Option (List Format2)) (modes : Option (List PresentMode))
      → (get_surface_capabilities_khr layer driver phys_dev h (run cs no_surfaces)
          ≡ asked (surface_after h none cs) (λ x. (layer x).capabilities) (driver h).capabilities)
        × (get_surface_capabilities2_khr layer driver phys_dev h
              (run cs no_surfaces)
              mode
              (c, flags)
            ≡ asked
                (surface_after h none cs)
                (λ x. (layer x).capabilities2 mode (c, shared_flags flags))
                ((driver h).capabilities2 mode (c, flags)))
        × (get_surface_formats_khr layer driver phys_dev h (run cs no_surfaces) count formats
            ≡ asked
                (surface_after h none cs)
                (λ x. (layer x).formats count formats)
                ((driver h).formats count formats))
        × (get_surface_formats2_khr layer driver phys_dev h (run cs no_surfaces) count formats2
            ≡ asked
                (surface_after h none cs)
                (λ x. (layer x).formats2 count formats2)
                ((driver h).formats2 count formats2))
        × (get_surface_present_modes_khr layer driver phys_dev h (run cs no_surfaces) count modes
            ≡ asked
                (surface_after h none cs)
                (λ x. (layer x).present_modes count modes)
                ((driver h).present_modes count modes))
        × (get_surface_support_khr layer driver phys_dev h (run cs no_surfaces) queue_family
            ≡ asked
                (surface_after h none cs)
                (λ x. (success, true))
                ((driver h).supported queue_family))
  unfolding get_surface_capabilities_khr get_surface_capabilities2_khr get_surface_formats_khr
      get_surface_formats2_khr get_surface_present_modes_khr get_surface_support_khr
  surface_queries_refine cs mode c flags count queue_family formats formats2 modes =
      let (g, e) = surfaces_refine phys_dev h cs in
      let o : Option ℕ = surface_after h none cs in
      let s : InstanceSurfaces = run cs no_surfaces in
      (
        handled_lem o s g e (λ x. (layer x).capabilities) (driver h).capabilities,
        handled_lem o s g e (λ x. (layer x).capabilities2 mode (c, shared_flags flags))
            ((driver h).capabilities2 mode (c, flags)),
        handled_lem o s g e (λ x. (layer x).formats count formats)
            ((driver h).formats count formats),
        handled_lem o s g e (λ x. (layer x).formats2 count formats2)
            ((driver h).formats2 count formats2),
        handled_lem o s g e (λ x. (layer x).present_modes count modes)
            ((driver h).present_modes count modes),
        handled_lem o s g e (λ x. (success, true)) ((driver h).supported queue_family),
      )
