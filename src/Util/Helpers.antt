-- ===== src/Util/Helpers.antt =====
-- util/helpers.hpp: the search of a chain of extension structures. A chain is the list of its
-- structures, each a type tag with its contents; the end of the list is the null pointer.
use rk_vulkan_wsi_layer.Prelude.{
  ℕ, ◌≡◌, refl, ◌≢◌, List, [], ◌∷◌, ◌++◌, Option, none, some, ℕ_discrete, All,
}
use mathlib.Core.Logic.{ite, if_pos, if_neg}

-- The values of `VkStructureType` that the modelled code looks for.
pub data StructureType : Type 0 where
  present_id frame_boundary present_fence_info present_mode_info present_timings_info :
      StructureType
  bind_image_memory_swapchain_info bind_memory_status surface_present_mode : StructureType
  surface_present_mode_compatibility present_scaling_create_info : StructureType
  present_modes_create_info : StructureType
  other : ℕ → StructureType

pub StructureType-discrete : Discrete StructureType
StructureType-discrete = hlevel ℕ_discrete

abbrev pub Chain : Type 0 → Type 0
Chain P = List (StructureType × P)

module _ {P : Type 0} where
  -- The loop stops at the first structure of the type, or at the end of the chain.
  unfoldable pub find_extension : StructureType → Chain P → Option P
  find_extension s [] = none
  find_extension s ((t, p) ∷ chain) =
      ite (StructureType-discrete t s) (some p) (find_extension s chain)

  -- The structure found is the first of its type, and none is found where none has the type.
  pub find_extension-skip :
      (s : StructureType) (before after : Chain P)
      → All (λ e. e.0 ≢ s) before
      → find_extension s (before ++ after) ≡ find_extension s after
  unfolding find_extension
  find_extension-skip s [] after h = refl
  find_extension-skip s ((t, p) ∷ before) after h =
      rw (if_neg (StructureType-discrete t s) h.0) (find_extension-skip s before after h.1)

  pub find_extension-hit :
      (s : StructureType) (p : P) (chain : Chain P) → find_extension s ((s, p) ∷ chain) ≡ some p
  unfolding find_extension
  find_extension-hit s p chain = rw (if_pos (StructureType-discrete s s) refl)

  pub find_extension-none :
      (s : StructureType) (chain : Chain P)
      → All (λ e. e.0 ≢ s) chain
      → find_extension s chain ≡ none
  unfolding find_extension
  find_extension-none s [] h = refl
  find_extension-none s ((t, p) ∷ chain) h =
      rw (if_neg (StructureType-discrete t s) h.0) (find_extension-none s chain h.1)
