-- ===== src/Util/DrmUtils/RoundTrip.antt =====
-- util/drm: the conversions of the formats of the table are inverse to one another.
use rk_vulkan_wsi_layer.Prelude.{
  ℕ, ◌≡◌, ◌≢◌, inl, inr, refl, sym, ap, ◌∙◌, Bool, true, false, ◌&&◌, List, [], ◌∷◌, none, some,
  ◌==◌, if◌then◌else◌, arith, Bool-cases, Option-cases, ==-refl, ==-ne, ltb, ltb→lt, leb, ◌≤◌, ◌<◌,
}
use native.Mathlib.Nat.{le_trans}
use rk_vulkan_wsi_layer.Util.DrmUtils.{
  Fourcc, VkFormat, rgb332, bgr233, xrgb4444, xbgr4444, rgbx4444, bgrx4444, argb4444, abgr4444,
  rgba4444, bgra4444, xrgb1555, xbgr1555, rgbx5551, bgrx5551, argb1555, abgr1555, rgba5551,
  bgra5551, rgb565, bgr565, rgb888, bgr888, xrgb8888, xbgr8888, rgbx8888, bgrx8888, argb8888,
  abgr8888, rgba8888, bgra8888, undefined, r4g4b4a4_unorm_pack16, b4g4r4a4_unorm_pack16,
  a1r5g5b5_unorm_pack16, r5g5b5a1_unorm_pack16, b5g5r5a1_unorm_pack16, r5g6b5_unorm_pack16,
  b5g6r5_unorm_pack16, b8g8r8_unorm, r8g8b8_unorm, b8g8r8a8_unorm, r8g8b8a8_unorm, b8g8r8a8_srgb,
  r8g8b8a8_srgb, Codes, IsDistinct, Row, fourcc_format_table, srgb_fourcc_format_table, row_of_vk,
  row_of_drm, vk_of, vk_to_drm_format, drm_to_vk_format, drm_to_vk_srgb_format,
}

abbrev pub fourcc_number : Fourcc → ℕ
fourcc_number rgb332 = 1
fourcc_number bgr233 = 2
fourcc_number xrgb4444 = 3
fourcc_number xbgr4444 = 4
fourcc_number rgbx4444 = 5
fourcc_number bgrx4444 = 6
fourcc_number argb4444 = 7
fourcc_number abgr4444 = 8
fourcc_number rgba4444 = 9
fourcc_number bgra4444 = 10
fourcc_number xrgb1555 = 11
fourcc_number xbgr1555 = 12
fourcc_number rgbx5551 = 13
fourcc_number bgrx5551 = 14
fourcc_number argb1555 = 15
fourcc_number abgr1555 = 16
fourcc_number rgba5551 = 17
fourcc_number bgra5551 = 18
fourcc_number rgb565 = 19
fourcc_number bgr565 = 20
fourcc_number rgb888 = 21
fourcc_number bgr888 = 22
fourcc_number xrgb8888 = 23
fourcc_number xbgr8888 = 24
fourcc_number rgbx8888 = 25
fourcc_number bgrx8888 = 26
fourcc_number argb8888 = 27
fourcc_number abgr8888 = 28
fourcc_number rgba8888 = 29
fourcc_number bgra8888 = 30

abbrev pub vk_number : VkFormat → ℕ
vk_number undefined = 0
vk_number r4g4b4a4_unorm_pack16 = 1
vk_number b4g4r4a4_unorm_pack16 = 2
vk_number a1r5g5b5_unorm_pack16 = 3
vk_number r5g5b5a1_unorm_pack16 = 4
vk_number b5g5r5a1_unorm_pack16 = 5
vk_number r5g6b5_unorm_pack16 = 6
vk_number b5g6r5_unorm_pack16 = 7
vk_number b8g8r8_unorm = 8
vk_number r8g8b8_unorm = 9
vk_number b8g8r8a8_unorm = 10
vk_number r8g8b8a8_unorm = 11
vk_number b8g8r8a8_srgb = 12
vk_number r8g8b8a8_srgb = 13

-- The rows of a table stand in the order of the names of the kernel, and those with a Vulkan name in
-- the order of these.
abbrev drm_ordered : ℕ → List Row → Bool
drm_ordered n [] = true
drm_ordered n (r ∷ rs) =
    ltb n (fourcc_number r.drm_format) && drm_ordered (fourcc_number r.drm_format) rs

abbrev vk_ordered : ℕ → List Row → Bool
vk_ordered n [] = true
vk_ordered n (r ∷ rs) =
    if vk_number r.vk_format == 0
    then vk_ordered n rs
    else ltb n (vk_number r.vk_format) && vk_ordered (vk_number r.vk_format) rs

table_vk_ordered : vk_ordered 0 fourcc_format_table ≡ true
unfolding fourcc_format_table
table_vk_ordered = refl

abbrev vk_below : ℕ → List Row → Bool
vk_below n [] = true
vk_below n (r ∷ rs) = ltb (vk_number r.vk_format) n && vk_below n rs

srgb_vk_ordered : vk_ordered 0 srgb_fourcc_format_table ≡ true
unfolding srgb_fourcc_format_table
srgb_vk_ordered = refl

table_vk_below : vk_below 12 fourcc_format_table ≡ true
unfolding fourcc_format_table
table_vk_below = refl

-- Of the rows of the sRGB table, none has a name of the other table.
abbrev vk_from : ℕ → List Row → Bool
vk_from n [] = true
vk_from n (r ∷ rs) = leb n (vk_number r.vk_format) && vk_from n rs

srgb_vk_from : vk_from 12 srgb_fourcc_format_table ≡ true
unfolding srgb_fourcc_format_table
srgb_vk_from = refl

named : (v : VkFormat) → v ≢ undefined → 0 < vk_number v
named undefined u = absurd (u refl)
named _ u = omega arith

both : (a b : Bool) → (a && b) ≡ true → (a ≡ true) × (b ≡ true)
both a b e = ground arith

module _ (c : Codes) (h : IsDistinct c) where
  vk_differs : (a b : VkFormat) → vk_number a < vk_number b → (c.vk b == c.vk a) ≡ false
  vk_differs a b l =
      ==-ne _ _ (λ (e : c.vk b ≡ c.vk a). omega (arith, l, ap vk_number (h.vk_injective b a e)))

  drm_found_again_lt :
      (n d : ℕ) (rs : List Row) (r : Row)
      → vk_ordered n rs ≡ true
      → row_of_drm c d rs ≡ some r
      → r.vk_format ≢ undefined
      → n < vk_number r.vk_format
  unfolding row_of_drm
  drm_found_again_lt n d [] r o e u = cc
  drm_found_again_lt n d (x ∷ rs) r o e u = ground (
    arith,
    named r.vk_format u,
    drm_found_again_lt n d rs r,
    drm_found_again_lt (vk_number x.vk_format) d rs r,
  )

  drm_found_again :
      (n d : ℕ) (rs : List Row) (r : Row)
      → vk_ordered n rs ≡ true
      → row_of_drm c d rs ≡ some r
      → r.vk_format ≢ undefined
      → (d ≡ c.fourcc r.drm_format) × (row_of_vk c (c.vk r.vk_format) rs ≡ some r)
  unfolding row_of_vk row_of_drm
  drm_found_again n d [] r o e u = cc
  drm_found_again n d (x ∷ rs) r o e u = elim (Bool-cases (d == c.fourcc x.drm_format)) [
    | inl y ↦ ground (arith, y, ==-refl (c.vk x.vk_format))
    | inr y ↦ elim (Bool-cases (vk_number x.vk_format == 0)) [
      | inl z ↦ ground (
        arith,
        y,
        z,
        vk_differs x.vk_format r.vk_format,
        named r.vk_format u,
        drm_found_again n d rs r,
      )
      | inr z ↦ ground (
        arith,
        y,
        z,
        vk_differs x.vk_format r.vk_format,
        drm_found_again_lt (vk_number x.vk_format) d rs r,
        drm_found_again (vk_number x.vk_format) d rs r,
      )
    ]
  ]

  -- A format of the kernel that the table has a Vulkan format for is got back from that format.
  pub drm_round_trip :
      (d : ℕ)
      → drm_to_vk_format c d ≢ c.vk undefined
      → vk_to_drm_format c (drm_to_vk_format c d) ≡ d
  unfolding vk_to_drm_format drm_to_vk_format
  drm_round_trip d u = elim (Option-cases (row_of_drm c d fourcc_format_table)) [
    | inl no_row ↦ ground (arith, no_row)
    | inr (r, e) ↦
        let (v, k) =
          drm_found_again 0 d fourcc_format_table r table_vk_ordered e
            (λ z. u (ap (vk_of c) e ∙ ap c.vk z)) in
        let w : drm_to_vk_format c d ≡ c.vk r.vk_format = ap (vk_of c) e in
        let z : vk_to_drm_format c (c.vk r.vk_format) ≡ c.fourcc r.drm_format = ground (arith, k) in
        ap (vk_to_drm_format c) w ∙ z ∙ sym v
  ]

  row_of_drm_from :
      (n d : ℕ) (rs : List Row) (r : Row)
      → vk_from n rs ≡ true
      → row_of_drm c d rs ≡ some r
      → n ≤ vk_number r.vk_format
  unfolding row_of_drm
  row_of_drm_from n d [] r o e = cc
  row_of_drm_from n d (x ∷ rs) r o e = ground (arith, row_of_drm_from n d rs r)

  row_of_vk_below :
      (n : ℕ) (rs : List Row) (v : VkFormat)
      → vk_below n rs ≡ true
      → n ≤ vk_number v
      → row_of_vk c (c.vk v) rs ≡ none
  unfolding row_of_vk
  row_of_vk_below n [] v o l = refl
  row_of_vk_below n (x ∷ rs) v o l =
      let (p, q) = both (ltb (vk_number x.vk_format) n) (vk_below n rs) o in
      let k : vk_number x.vk_format < n = ltb→lt (vk_number x.vk_format) n p in
      rw (vk_differs x.vk_format v (le_trans k l)) (row_of_vk_below n rs v q l)

  -- The same for the formats of the sRGB table.
  pub srgb_round_trip :
      (d : ℕ)
      → drm_to_vk_srgb_format c d ≢ c.vk undefined
      → vk_to_drm_format c (drm_to_vk_srgb_format c d) ≡ d
  unfolding vk_to_drm_format drm_to_vk_srgb_format
  srgb_round_trip d u = elim (Option-cases (row_of_drm c d srgb_fourcc_format_table)) [
    | inl no_row ↦ ground (arith, no_row)
    | inr (r, e) ↦
        let (v, k) =
          drm_found_again 0 d srgb_fourcc_format_table r srgb_vk_ordered e
            (λ z. u (ap (vk_of c) e ∙ ap c.vk z)) in
        let w : drm_to_vk_srgb_format c d ≡ c.vk r.vk_format = ap (vk_of c) e in
        let n : row_of_vk c (c.vk r.vk_format) fourcc_format_table ≡ none =
          row_of_vk_below 12 fourcc_format_table r.vk_format table_vk_below
            (row_of_drm_from 12 d srgb_fourcc_format_table r srgb_vk_from e) in
        let z : vk_to_drm_format c (c.vk r.vk_format) ≡ c.fourcc r.drm_format =
          ground (arith, k, n) in
        ap (vk_to_drm_format c) w ∙ z ∙ sym v
  ]
