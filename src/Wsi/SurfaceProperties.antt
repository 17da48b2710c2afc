-- ===== src/Wsi/SurfaceProperties.antt =====
-- wsi/surface_properties.hpp and surface_properties.cpp: the queries of what a surface supports. An
-- array of the caller is `none` where its pointer is null, and else the list of its elements; a write
-- past its end, which the caller's count excludes, writes nothing.
pub mod Headless
pub mod HeadlessFormats
pub mod Capabilities
use Prim.Native.Nat.{bit_or}
use rk_vulkan_wsi_layer.Prelude.{
  ◌||◌, ℕ, zero, suc, ◌<◌, ◌≤◌, ◌^◌, ◌≡◌, refl, ap, ◌∙◌, Bool, true, false, ◌&&◌, List, [], ◌∷◌,
  Option, none, some, ltb, if◌then◌else◌, arith, length, u32, min, map,
}
use rk_vulkan_wsi_layer.Vulkan.{
  VkResult, success, incomplete, error_out_of_host_memory, error_format_not_supported, PresentMode,
  mode_eq,
}

-- What a query leaves: its result, the count, and the array.
abbrev pub Queried : Type 0 → Type 0
Queried A = VkResult × ℕ × Option (List A)

module _ {A : Type 0} where
  -- The loop that writes the elements up to the count.
  unfoldable pub write_elements : List A → ℕ → List A → List A
  write_elements [] n array = array
  write_elements (x ∷ xs) zero array = array
  write_elements (x ∷ xs) (suc n) [] = []
  write_elements (x ∷ xs) (suc n) (y ∷ array) = x ∷ write_elements xs n array

  -- `get_surface_present_modes_common`.
  unfoldable pub get_surface_present_modes_common : List A → ℕ → Option (List A) → Queried A
  unfolding write_elements
  get_surface_present_modes_common modes count none = (success, u32 (length modes), none)
  get_surface_present_modes_common modes count (some array) = (
    if ltb count (length modes) then incomplete else success,
    min count (u32 (length modes)),
    some (write_elements modes (min count (u32 (length modes))) array),
  )

  write_all :
      (xs array : List A) → length array ≡ length xs → write_elements xs (length xs) array ≡ xs
  unfolding write_elements
  write_all [] [] e = refl
  write_all [] (y ∷ array) e = absurd (omega (arith, e))
  write_all (x ∷ xs) [] e = absurd (omega (arith, e))
  write_all (x ∷ xs) (y ∷ array) e = ap (λ zs. x ∷ zs) (write_all xs array (omega (arith, e)))

  -- The count that a first query of the modes returns, for a number of modes that fits in 32 bits,
  -- is such that a second query with an array of that size succeeds and writes all the modes.
  pub modes_round_trip :
      (modes array : List A) (count : ℕ)
      → length modes < 2 ^ 32
      → length array ≡ (get_surface_present_modes_common modes count none).1
      → get_surface_present_modes_common modes
          (get_surface_present_modes_common modes count none).1
          (some array)
        ≡ (success, length modes, some modes)
  unfolding get_surface_present_modes_common
  modes_round_trip modes array count l e =
      let n : u32 (length modes) ≡ length modes = omega (arith, l) in
      let m : min (u32 (length modes)) (u32 (length modes)) ≡ length modes = omega (arith, n) in
      ground (
        arith,
        n,
        m,
        ap (λ k. write_elements modes k array) m ∙ write_all modes array (omega (arith, e, n)),
      )

-- The formats of a surface, with their properties of compression: the fixed rates where they can be
-- asked for explicitly.
pub record SurfaceFormat : Type 0 where
  pub surface_format : ℕ
  pub fixed_rate_explicit : Bool
  pub fixed_rate_flags : ℕ

-- The class as it is constructed for a format.
abbrev pub surface_format_properties : ℕ → SurfaceFormat
surface_format_properties f = record {
  surface_format = f;
  fixed_rate_explicit = false;
  fixed_rate_flags = 0;
}

-- `add_device_compression_support`: the driver's result, its flag and its rates.
unfoldable pub add_device_compression_support :
    VkResult → Bool → ℕ → SurfaceFormat → VkResult × SurfaceFormat
add_device_compression_support success explicit rates f = (
  success,
  record f {
    fixed_rate_explicit = f.fixed_rate_explicit || explicit;
    fixed_rate_flags = bit_or f.fixed_rate_flags rates;
  },
)
add_device_compression_support error_format_not_supported explicit rates f = (success, f)
add_device_compression_support r explicit rates f = (r, f)

-- The extended structure of a format: the format, and the flags of the compression properties that
-- its chain has, if it has them: whether they are explicit, and the rates.
abbrev pub Format2 : Type 0
Format2 = ℕ × Option (Bool × ℕ)

-- `fill_format_properties`: the rates are written only with the explicit flag.
unfoldable pub fill_format_properties : Bool → SurfaceFormat → Format2 → Format2
fill_format_properties compression_control f (old, none) = (f.surface_format, none)
fill_format_properties compression_control f (old, some (explicit, rates)) = (
  f.surface_format,
  some (
      if compression_control
      then (f.fixed_rate_explicit, if f.fixed_rate_explicit then f.fixed_rate_flags else rates)
      else (explicit, rates)),
)

-- The loop of `surface_properties_formats_helper` over extended structures.
unfoldable pub write_formats : Bool → List SurfaceFormat → ℕ → List Format2 → List Format2
unfolding fill_format_properties
write_formats compression_control [] n array = array
write_formats compression_control (f ∷ fs) zero array = array
write_formats compression_control (f ∷ fs) (suc n) [] = []
write_formats compression_control (f ∷ fs) (suc n) (x ∷ array) =
    fill_format_properties compression_control f x ∷ write_formats compression_control fs n array

-- `surface_properties_formats_helper`, of the plain formats and of the extended ones: the array is
-- null in the first query.
unfoldable pub surface_formats : List SurfaceFormat → ℕ → Option (List ℕ) → Queried ℕ
unfolding get_surface_present_modes_common
surface_formats fs count array =
    get_surface_present_modes_common (map (λ f. f.surface_format) fs) count array

unfoldable pub surface_formats2 :
    Bool → List SurfaceFormat → ℕ → Option (List Format2) → Queried Format2
unfolding write_formats
surface_formats2 compression_control fs count none = (success, u32 (length fs), none)
surface_formats2 compression_control fs count (some array) = (
  if ltb count (length fs) then incomplete else success,
  min count (u32 (length fs)),
  some (write_formats compression_control fs (min count (u32 (length fs))) array),
)

-- `check_surface_present_mode_query_is_supported`: the mode of the structure in the chain, if there is
-- one.
unfoldable pub mode_in : PresentMode → List PresentMode → Bool
mode_in m [] = false
mode_in m (n ∷ ms) = let rest = mode_in m ms in if mode_eq n m then true else rest

unfoldable pub check_surface_present_mode_query_is_supported :
    Option PresentMode → List PresentMode → VkResult
unfolding mode_in
check_surface_present_mode_query_is_supported none modes = success
check_surface_present_mode_query_is_supported (some m) modes =
    if mode_in m modes then success else error_out_of_host_memory
