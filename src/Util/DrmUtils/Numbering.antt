-- ===== src/Util/DrmUtils/Numbering.antt =====
-- util/drm: numbers for the names of the formats, which are distinct.
use rk_vulkan_wsi_layer.Prelude.{◌-◌, ◌≡◌, ◌≢◌, refl, sym, ap, ◌∙◌, List, [], ◌∷◌, get_or, arith}
use rk_vulkan_wsi_layer.Util.DrmUtils.{
  Fourcc, rgb332, VkFormat, undefined, r4g4b4a4_unorm_pack16, b4g4r4a4_unorm_pack16,
  a1r5g5b5_unorm_pack16, r5g5b5a1_unorm_pack16, b5g5r5a1_unorm_pack16, r5g6b5_unorm_pack16,
  b5g6r5_unorm_pack16, b8g8r8_unorm, r8g8b8_unorm, b8g8r8a8_unorm, r8g8b8a8_unorm, b8g8r8a8_srgb,
  r8g8b8a8_srgb, Codes, IsDistinct, switch_formats,
}
use rk_vulkan_wsi_layer.Util.DrmUtils.RoundTrip.{fourcc_number, vk_number}

abbrev pub codes : Codes
codes = record { fourcc = fourcc_number; vk = vk_number }

abbrev vk_formats : List VkFormat
vk_formats =
    undefined ∷ r4g4b4a4_unorm_pack16 ∷ b4g4r4a4_unorm_pack16 ∷ a1r5g5b5_unorm_pack16
    ∷ r5g5b5a1_unorm_pack16 ∷ b5g5r5a1_unorm_pack16 ∷ r5g6b5_unorm_pack16 ∷ b5g6r5_unorm_pack16
    ∷ b8g8r8_unorm ∷ r8g8b8_unorm ∷ b8g8r8a8_unorm ∷ r8g8b8a8_unorm ∷ b8g8r8a8_srgb ∷ r8g8b8a8_srgb
    ∷ []

fourcc_at : (a : Fourcc) → get_or switch_formats (fourcc_number a - 1) rgb332 ≡ a
fourcc_at rgb332 = refl
fourcc_at _ = refl

vk_at : (a : VkFormat) → get_or vk_formats (vk_number a) undefined ≡ a
vk_at undefined = refl
vk_at _ = refl

not_zero : (a : Fourcc) → fourcc_number a ≢ 0
not_zero rgb332 = omega arith
not_zero _ = omega arith

pub codes-IsDistinct : IsDistinct codes
codes-IsDistinct = record {
  fourcc_injective =
      λ a b e. sym (fourcc_at a) ∙ ap (λ n. get_or switch_formats (n - 1) rgb332) e ∙ fourcc_at b;
  vk_injective = λ a b e. sym (vk_at a) ∙ ap (λ n. get_or vk_formats n undefined) e ∙ vk_at b;
  fourcc_not_zero = not_zero;
}
