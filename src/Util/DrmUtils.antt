-- ===== src/Util/DrmUtils.antt =====
-- util/drm/drm_utils.cpp and format_table.c: the table of formats and the conversions between the
-- kernel's and Vulkan's names of a format. The numbers of both enumerations are those of headers
-- outside the repository, and an argument.
pub mod RoundTrip
pub mod Numbering
use rk_vulkan_wsi_layer.Prelude.{
  ℕ, ◌≡◌, ◌≢◌, Bool, true, false, List, [], ◌∷◌, Option, none, some, ◌==◌, if◌then◌else◌, map,
}
use rk_vulkan_wsi_layer.Util.Wsialloc.{FmtSpec}

-- The `DRM_FORMAT_` names of the table.
pub data Fourcc : Type 0 where
  rgb332 bgr233 xrgb4444 xbgr4444 rgbx4444 bgrx4444 : Fourcc
  argb4444 abgr4444 rgba4444 bgra4444 xrgb1555 xbgr1555 : Fourcc
  rgbx5551 bgrx5551 argb1555 abgr1555 rgba5551 bgra5551 : Fourcc
  rgb565 bgr565 rgb888 bgr888 xrgb8888 xbgr8888 : Fourcc
  rgbx8888 bgrx8888 argb8888 abgr8888 rgba8888 bgra8888 : Fourcc

-- The `VK_FORMAT_` names of the tables.
pub data VkFormat : Type 0 where
  undefined r4g4b4a4_unorm_pack16 b4g4r4a4_unorm_pack16 a1r5g5b5_unorm_pack16 : VkFormat
  r5g5b5a1_unorm_pack16 b5g5r5a1_unorm_pack16 r5g6b5_unorm_pack16 b5g6r5_unorm_pack16 : VkFormat
  b8g8r8_unorm r8g8b8_unorm b8g8r8a8_unorm r8g8b8a8_unorm : VkFormat
  b8g8r8a8_srgb r8g8b8a8_srgb : VkFormat

-- The numbers of the names.
pub record Codes : Type 0 where
  pub fourcc : Fourcc → ℕ
  pub vk : VkFormat → ℕ

-- What the headers give: no two names of a kind have one number, and no `DRM_FORMAT_` is 0.
pub record IsDistinct (c : Codes) : Type 0 where
  pub fourcc_injective : (a b : Fourcc) → c.fourcc a ≡ c.fourcc b → a ≡ b
  pub vk_injective : (a b : VkFormat) → c.vk a ≡ c.vk b → a ≡ b
  pub fourcc_not_zero : (a : Fourcc) → c.fourcc a ≢ 0

-- `fmt_spec`, of which every row has one plane.
pub record Row : Type 0 where
  pub drm_format : Fourcc
  pub nr_planes : ℕ
  pub bpp : ℕ
  pub vk_format : VkFormat

abbrev row : Fourcc → ℕ → ℕ → VkFormat → Row
row d n b v = record { drm_format = d; nr_planes = n; bpp = b; vk_format = v }

unfoldable pub fourcc_format_table : List Row
fourcc_format_table =
    row rgb332 1 8 undefined
    ∷ row bgr233 1 8 undefined
    ∷ row xrgb4444 1 16 undefined
    ∷ row xbgr4444 1 16 undefined
    ∷ row rgbx4444 1 16 undefined
    ∷ row bgrx4444 1 16 undefined
    ∷ row argb4444 1 16 undefined
    ∷ row abgr4444 1 16 undefined
    ∷ row rgba4444 1 16 r4g4b4a4_unorm_pack16
    ∷ row bgra4444 1 16 b4g4r4a4_unorm_pack16
    ∷ row xrgb1555 1 16 undefined
    ∷ row xbgr1555 1 16 undefined
    ∷ row rgbx5551 1 16 undefined
    ∷ row bgrx5551 1 16 undefined
    ∷ row argb1555 1 16 a1r5g5b5_unorm_pack16
    ∷ row abgr1555 1 16 undefined
    ∷ row rgba5551 1 16 r5g5b5a1_unorm_pack16
    ∷ row bgra5551 1 16 b5g5r5a1_unorm_pack16
    ∷ row rgb565 1 16 r5g6b5_unorm_pack16
    ∷ row bgr565 1 16 b5g6r5_unorm_pack16
    ∷ row rgb888 1 24 b8g8r8_unorm
    ∷ row bgr888 1 24 r8g8b8_unorm
    ∷ row xrgb8888 1 32 undefined
    ∷ row xbgr8888 1 32 undefined
    ∷ row rgbx8888 1 32 undefined
    ∷ row bgrx8888 1 32 undefined
    ∷ row argb8888 1 32 b8g8r8a8_unorm
    ∷ row abgr8888 1 32 r8g8b8a8_unorm
    ∷ row rgba8888 1 32 undefined
    ∷ row bgra8888 1 32 undefined
    ∷ []

unfoldable pub srgb_fourcc_format_table : List Row
srgb_fourcc_format_table = row argb8888 1 32 b8g8r8a8_srgb ∷ row abgr8888 1 32 r8g8b8a8_srgb ∷ []

-- The names of the switch in `drm_fourcc_format_get_num_planes`.
abbrev pub switch_formats : List Fourcc
switch_formats =
    rgb332 ∷ bgr233 ∷ xrgb4444 ∷ xbgr4444 ∷ rgbx4444 ∷ bgrx4444 ∷ argb4444 ∷ abgr4444 ∷ rgba4444
    ∷ bgra4444 ∷ xrgb1555 ∷ xbgr1555 ∷ rgbx5551 ∷ bgrx5551 ∷ argb1555 ∷ abgr1555 ∷ rgba5551
    ∷ bgra5551 ∷ rgb565 ∷ bgr565 ∷ rgb888 ∷ bgr888 ∷ xrgb8888 ∷ xbgr8888 ∷ rgbx8888 ∷ bgrx8888
    ∷ argb8888 ∷ abgr8888 ∷ rgba8888 ∷ bgra8888 ∷ []

module _ (c : Codes) where
  unfoldable pub row_of_vk : ℕ → List Row → Option Row
  row_of_vk f [] = none
  row_of_vk f (r ∷ rs) = let rest = row_of_vk f rs in if f == c.vk r.vk_format then some r else rest

  unfoldable pub row_of_drm : ℕ → List Row → Option Row
  row_of_drm d [] = none
  row_of_drm d (r ∷ rs) =
      let rest = row_of_drm d rs in if d == c.fourcc r.drm_format then some r else rest

  unfoldable pub vk_to_drm_format : ℕ → ℕ
  vk_to_drm_format f = elim (row_of_vk f fourcc_format_table) [
    | some r ↦ c.fourcc r.drm_format
    | none ↦ elim (row_of_vk f srgb_fourcc_format_table) [
      | some r ↦ c.fourcc r.drm_format
      | none ↦ 0
    ]
  ]

  abbrev pub vk_of : Option Row → ℕ
  vk_of none = c.vk undefined
  vk_of (some r) = c.vk r.vk_format

  unfoldable pub drm_to_vk_format : ℕ → ℕ
  drm_to_vk_format d = vk_of (row_of_drm d fourcc_format_table)

  unfoldable pub drm_to_vk_srgb_format : ℕ → ℕ
  drm_to_vk_srgb_format d = vk_of (row_of_drm d srgb_fourcc_format_table)

  -- The table as the allocator reads it.
  unfoldable pub allocator_table : List FmtSpec
  unfolding fourcc_format_table
  allocator_table =
      map (λ r. record { drm_format = c.fourcc r.drm_format; nr_planes = r.nr_planes; bpp = r.bpp })
        fourcc_format_table

  listed : ℕ → List Fourcc → Bool
  listed d [] = false
  listed d (f ∷ fs) = let rest = listed d fs in if d == c.fourcc f then true else rest

  -- `drm_fourcc_format_get_num_planes`: one for the names of the switch, and 0 by default.
  unfoldable pub drm_fourcc_format_get_num_planes : ℕ → ℕ
  unfolding listed
  drm_fourcc_format_get_num_planes d = if listed d switch_formats then 1 else 0
