-- ===== src/Layer/PrivateData/Surfaces.antt =====
-- layer/private_data.cpp: the surfaces of an instance. A surface is a number, the pointer of the
-- code, and so is its handle.
use rk_vulkan_wsi_layer.Prelude.{
  ℕ, ◌+◌, ◌≡◌, ◌≢◌, refl, Bool, true, false, not, ◌&&◌, List, [], ◌∷◌, ◌++◌, Option, none, some,
  ◌==◌, if◌then◌else◌, arith, ap, ◌∙◌,
}
use rk_vulkan_wsi_layer.Vulkan.{VkResult, success, error_out_of_host_memory}
use rk_vulkan_wsi_layer.Util.UnorderedMap.{
  UnorderedMap, find, erase, assign, holds, try_insert, Unique, erase-Unique, find-erase_self,
  find-erase_ne,
}

-- The surfaces of an `instance_private_data` and, in order, those that have been destroyed.
pub record InstanceSurfaces : Type 0 where
  pub surfaces : UnorderedMap ℕ
  pub destroyed : List ℕ

abbrev with_surfaces : UnorderedMap ℕ → InstanceSurfaces → InstanceSurfaces
with_surfaces m s = record { surfaces = m; destroyed = s.destroyed }

unfoldable replaced : ℕ → UnorderedMap ℕ → UnorderedMap ℕ
replaced handle m = if holds handle m then erase handle m else m

-- `add_surface`: the last result is what the unique pointer of the caller holds then, 0 being null.
unfoldable pub add_surface : Bool → ℕ → ℕ → InstanceSurfaces → VkResult × InstanceSurfaces × ℕ
unfolding try_insert replaced
add_surface inserted handle surface s =
    let (result, m) = try_insert inserted handle 0 (replaced handle s.surfaces) in
    elim result [
      | none ↦ (error_out_of_host_memory, with_surfaces m s, surface)
      | some b ↦ (success, with_surfaces (assign handle surface m) s, 0)
    ]

unfoldable pub get_surface : ℕ → InstanceSurfaces → ℕ
get_surface handle s = elim (find handle s.surfaces) [ none ↦ 0 | some surface ↦ surface ]

unfoldable pub remove_surface : ℕ → InstanceSurfaces → InstanceSurfaces
remove_surface handle s = elim (find handle s.surfaces) [
  | none ↦ s
  | some surface ↦ record {
    surfaces = erase handle s.surfaces;
    destroyed = s.destroyed ++ surface ∷ [];
  }
]

unfoldable pub does_layer_support_surface : ℕ → InstanceSurfaces → Bool
does_layer_support_surface handle s = holds handle s.surfaces

unfoldable pub do_icds_support_surface : ℕ → ℕ → Bool
do_icds_support_surface phys_dev handle = false

unfoldable pub should_layer_handle_surface : ℕ → ℕ → InstanceSurfaces → Bool
unfolding does_layer_support_surface do_icds_support_surface
should_layer_handle_surface phys_dev handle s =
    does_layer_support_surface handle s && not (do_icds_support_surface phys_dev handle)

-- `device_private_data::should_layer_create_swapchain`.
unfoldable pub should_layer_create_swapchain : ℕ → ℕ → InstanceSurfaces → Bool
unfolding should_layer_handle_surface
should_layer_create_swapchain phys_dev handle s = should_layer_handle_surface phys_dev handle s

-- A call on the surfaces, with the answer of the allocation.
pub data Call : Type 0 where
  add : (inserted : Bool) (handle surface : ℕ) → Call
  remove : (handle : ℕ) → Call

unfoldable pub step : Call → InstanceSurfaces → InstanceSurfaces
unfolding add_surface remove_surface
step (add inserted handle surface) s = (add_surface inserted handle surface s).1
step (remove handle) s = remove_surface handle s

abbrev pub run : List Call → InstanceSurfaces → InstanceSurfaces
run [] s = s
run (c ∷ cs) s = run cs (step c s)

abbrev pub no_surfaces : InstanceSurfaces
no_surfaces = record { surfaces = []; destroyed = [] }

-- The surface of a handle by the calls alone: the last call on the handle decides.
abbrev pub surface_after : ℕ → Option ℕ → List Call → Option ℕ
surface_after h o [] = o
surface_after h o (add inserted handle surface ∷ cs) =
    surface_after h (if h == handle then (if inserted then some surface else none) else o) cs
surface_after h o (remove handle ∷ cs) = surface_after h (if h == handle then none else o) cs

replaced-Unique :
    (handle : ℕ) (m : UnorderedMap ℕ)
    → Unique m
    → Unique (replaced handle m) × (find handle (replaced handle m) ≡ none)
unfolding replaced
replaced-Unique handle m u = ground (arith, erase-Unique handle m u, find-erase_self handle m u)

find-replaced_ne :
    (h handle : ℕ) (m : UnorderedMap ℕ) → h ≢ handle → find h (replaced handle m) ≡ find h m
unfolding replaced
find-replaced_ne h handle m n = ground (arith, find-erase_ne h handle m n)

step-Unique : (c : Call) (s : InstanceSurfaces) → Unique s.surfaces → Unique (step c s).surfaces
unfolding step add_surface remove_surface try_insert
step-Unique (add inserted handle surface) s u = ground (arith, replaced-Unique handle s.surfaces u)
step-Unique (remove handle) s u = ground (arith, erase-Unique handle s.surfaces u)

find-step :
    (h : ℕ) (c : Call) (s : InstanceSurfaces)
    → Unique s.surfaces
    → find h (step c s).surfaces ≡ surface_after h (find h s.surfaces) (c ∷ [])
unfolding step add_surface remove_surface try_insert
find-step h (add inserted handle surface) s u =
    ground (arith, replaced-Unique handle s.surfaces u, find-replaced_ne h handle s.surfaces)
find-step h (remove handle) s u =
    ground (arith, find-erase_self handle s.surfaces u, find-erase_ne h handle s.surfaces)

surface_after_cons :
    (h : ℕ) (o : Option ℕ) (c : Call) (cs : List Call)
    → surface_after h (surface_after h o (c ∷ [])) cs ≡ surface_after h o (c ∷ cs)
surface_after_cons h o (add inserted handle surface) cs = refl
surface_after_cons h o (remove handle) cs = refl

find-run :
    (h : ℕ) (cs : List Call) (s : InstanceSurfaces)
    → Unique s.surfaces
    → find h (run cs s).surfaces ≡ surface_after h (find h s.surfaces) cs
find-run h [] s u = refl
find-run h (c ∷ cs) s u =
    find-run h cs (step c s) (step-Unique c s u)
    ∙ ap (λ o. surface_after h o cs) (find-step h c s u)
    ∙ surface_after_cons h (find h s.surfaces) c cs

abbrev pub surface_or_null : Option ℕ → ℕ
surface_or_null none = 0
surface_or_null (some surface) = surface

-- After any sequence of additions and removals of surfaces from none, whichever of their allocations
-- fail, the surface of a handle is that of the last addition of the handle, if no removal of the
-- handle follows it and its allocation did not fail, and else null. The layer handles a
-- surface exactly if it has one for the handle.
pub surfaces_refine :
    (phys_dev h : ℕ) (cs : List Call)
    → (get_surface h (run cs no_surfaces) ≡ surface_or_null (surface_after h none cs))
      × (should_layer_create_swapchain phys_dev h (run cs no_surfaces)
          ≡ elim (surface_after h none cs) [ none ↦ false | some _ ↦ true ])
unfolding get_surface should_layer_create_swapchain should_layer_handle_surface
    does_layer_support_surface do_icds_support_surface
surfaces_refine phys_dev h cs = ground (arith, find-run h cs no_surfaces tt)

-- How often a surface is in the map.
abbrev pub held : ℕ → UnorderedMap ℕ → ℕ
held surface [] = 0
held surface ((k, x) ∷ m) = (if surface == x then 1 else 0) + held surface m

held-erase :
    (surface k x : ℕ) (m : UnorderedMap ℕ)
    → find k m ≡ some x
    → held surface m ≡ (if surface == x then 1 else 0) + held surface (erase k m)
held-erase surface k x [] h = ground arith
held-erase surface k x ((j, y) ∷ m) h = ground (arith, held-erase surface k x m)

-- A surface whose handle is added again with another surface is in the map once less and is not
-- destroyed, whether the addition succeeds or fails.
pub replaced_surface_lost :
    (inserted : Bool) (handle old new : ℕ) (s : InstanceSurfaces)
    → Unique s.surfaces
    → find handle s.surfaces ≡ some old
    → old ≢ new
    → old ≢ 0
    → (held old s.surfaces ≡ 1 + held old (add_surface inserted handle new s).1.surfaces)
      × ((add_surface inserted handle new s).1.destroyed ≡ s.destroyed)
unfolding add_surface try_insert replaced
replaced_surface_lost inserted handle old new s u f n z =
    ground (arith, held-erase old handle old s.surfaces f, find-erase_self handle s.surfaces u)
