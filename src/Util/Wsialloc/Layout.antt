-- ===== src/Util/Wsialloc/Layout.antt =====
-- util/wsialloc/wsialloc_helpers.c: the layout and the size of a buffer that is allocated.
use rk_vulkan_wsi_layer.Prelude.{
  ℕ, ◌+◌, ◌*◌, ◌/◌, ◌%◌, ◌^◌, ◌≤◌, ◌<◌, ◌≡◌, ap, sym, ◌∙◌, subst, true, List, [], ◌∷◌, Option, none,
  some, arith, All, u32, Option-cases, inl, inr,
}
use native.Mathlib.Nat.{mul-le-mul_left}
use rk_vulkan_wsi_layer.Util.Wsialloc.{
  WsiallocError, error_none, FmtSpec, WsiallocFormat, AllocateInfo, AllocateResult, Properties,
  checked, with_spec, round_size_up_to_align, plane_stride, calculate_format_properties,
  find_in_table, find_format, plane_properties, validate_parameters, try_format, select_format,
  wsiallocp_alloc, mod_linear, max_image_size,
}

-- What the table of formats has: one plane of at most 64 bits per pixel.
abbrev pub Packed : FmtSpec → Type 0
Packed spec = (spec.nr_planes ≡ 1) × (spec.bpp ≤ 64)

found_Packed :
    (fourcc : ℕ) (table : List FmtSpec) (spec : FmtSpec)
    → All Packed table
    → find_in_table fourcc table ≡ some spec
    → Packed spec
unfolding find_in_table
found_Packed fourcc [] spec h e = ground arith
found_Packed fourcc (x ∷ table) spec (p, h) e =
    ground (arith, p.0, p.1, found_Packed fourcc table spec h)

-- The rounding of a size that fits in 32 bits with the alignment.
pub round_up :
    (size : ℕ)
    → size + 64 ≤ 2 ^ 32
    → (round_size_up_to_align size % 64 ≡ 0)
      × (size ≤ round_size_up_to_align size)
      × (round_size_up_to_align size < size + 64)
unfolding round_size_up_to_align
round_up size h = (omega arith, omega arith, omega arith)

product_bound : (w b : ℕ) → w ≤ max_image_size → b ≤ 8 → w * b ≤ 1024000
product_bound w b h k = omega (arith, mul-le-mul_left w k)

checked_lem :
    (format f : WsiallocFormat) (spec' spec : FmtSpec) (x : WsiallocError × Properties)
    (p : Properties)
    → (checked format spec' x).selected ≡ some (f, spec, p)
    → (format ≡ f) × (spec' ≡ spec) × (x ≡ (error_none, p))
checked_lem format f spec' spec (error_none, q) p e = ground arith
checked_lem format f spec' spec (x, q) p e = ground arith

with_spec_lem :
    (info : AllocateInfo) (format f : WsiallocFormat) (o : Option FmtSpec) (spec : FmtSpec)
    (p : Properties)
    → (with_spec info format o).selected ≡ some (f, spec, p)
    → (format ≡ f) × (o ≡ some spec) × (calculate_format_properties spec f info ≡ (error_none, p))
unfolding with_spec
with_spec_lem info format f none spec p e = ground arith
with_spec_lem info format f (some spec') spec p e =
    let (a, b, c) =
      checked_lem format f spec' spec (calculate_format_properties spec' format info) p e in
    (a, ap some b, cc)

tried :
    (table : List FmtSpec) (info : AllocateInfo) (format f : WsiallocFormat) (spec : FmtSpec)
    (p : Properties)
    → (try_format table info format).selected ≡ some (f, spec, p)
    → (find_format table f.fourcc ≡ some spec)
      × (calculate_format_properties spec f info ≡ (error_none, p))
unfolding try_format
tried table info format f spec p e =
    let (a, b, c) = with_spec_lem info format f (find_format table format.fourcc) spec p e in
    (subst (λ x. find_format table x.fourcc ≡ some spec) a b, c)

selected_lem :
    (table : List FmtSpec) (info : AllocateInfo) (e : WsiallocError) (formats : List WsiallocFormat)
    (f : WsiallocFormat) (spec : FmtSpec) (p : Properties)
    → (select_format table info e formats).selected ≡ some (f, spec, p)
    → (find_format table f.fourcc ≡ some spec)
      × (calculate_format_properties spec f info ≡ (error_none, p))
unfolding select_format
selected_lem table info e [] f spec p h = ground arith
selected_lem table info e (x ∷ formats) f spec p h =
    elim (Option-cases (try_format table info x).selected) [
      | inl y ↦
          ground (arith, y, selected_lem table info (try_format table info x).err formats f spec p)
      | inr (s, y) ↦ tried table info x f spec p (ground (arith, y))
    ]

stride_lem :
    (info : AllocateInfo) (spec : FmtSpec)
    → info.width ≤ max_image_size
    → spec.bpp ≤ 64
    → (plane_stride spec info % 64 ≡ 0)
      × (info.width * (spec.bpp / 8) ≤ plane_stride spec info)
      × (plane_stride spec info < info.width * (spec.bpp / 8) + 64)
unfolding plane_stride
stride_lem info spec h k =
    let b = product_bound info.width (spec.bpp / 8) h (omega arith) in
    let (x, y, z) = round_up (u32 (info.width * (spec.bpp / 8))) (omega (arith, b)) in
    (omega (arith, b, x, y, z), omega (arith, b, x, y, z), omega (arith, b, x, y, z))

calculated :
    (spec : FmtSpec) (f : WsiallocFormat) (info : AllocateInfo) (p : Properties)
    → spec.nr_planes ≡ 1
    → calculate_format_properties spec f info ≡ (error_none, p)
    → (f.modifier ≡ mod_linear) × (p ≡ plane_properties spec info)
unfolding calculate_format_properties
calculated spec f info p n e = ground arith

valid_width : (info : AllocateInfo) → validate_parameters info ≡ true → info.width ≤ max_image_size
unfolding validate_parameters
valid_width info e = ground arith

returned :
    (table : List FmtSpec) (fn_alloc : ℕ → Option ℕ) (info : AllocateInfo) (size : ℕ)
    (res : AllocateResult) (f : WsiallocFormat) (spec : FmtSpec) (p : Properties)
    → wsiallocp_alloc table fn_alloc info ≡ (error_none, some size, some res)
    → (select_format table info error_none info.formats).selected ≡ some (f, spec, p)
    → (validate_parameters info ≡ true)
      × (res.format ≡ f)
      × (res.average_row_strides ≡ p.strides)
      × (size ≡ p.total_size)
unfolding wsiallocp_alloc
returned table fn_alloc info size res f spec p e y = ground (arith, y)

-- A buffer that `wsiallocp_alloc` allocates, of a table whose formats have one plane of at most 64
-- bits per pixel, has a format that is in the table and linear, and the layout of one plane: its
-- stride is a multiple of 64 and holds a row of the width with less than 64 bytes left over. The
-- size that is allocated is the stride times the height, modulo 2^32.
pub allocated_layout :
    (table : List FmtSpec)
    → All Packed table
    → (fn_alloc : ℕ → Option ℕ) (info : AllocateInfo) (size : ℕ) (res : AllocateResult)
    → wsiallocp_alloc table fn_alloc info ≡ (error_none, some size, some res)
    → (spec : FmtSpec) × (find_format table res.format.fourcc ≡ some spec)
      × (res.format.modifier ≡ mod_linear)
      × (res.average_row_strides ≡ plane_stride spec info ∷ [])
      × (plane_stride spec info % 64 ≡ 0)
      × (info.width * (spec.bpp / 8) ≤ plane_stride spec info)
      × (plane_stride spec info < info.width * (spec.bpp / 8) + 64)
      × (size ≡ (plane_stride spec info * info.height) % 2 ^ 32)
unfolding wsiallocp_alloc
allocated_layout table h fn_alloc info size res e =
    elim (Option-cases (select_format table info error_none info.formats).selected) [
      | inl y ↦ ground (arith, y)
      | inr ((f, spec, p), y) ↦
          let (g, c) = selected_lem table info error_none info.formats f spec p y in
          let (n, k) = found_Packed (f.fourcc % 2 ^ 31) table spec h g in
          let (l, q) = calculated spec f info p n c in
          let (v, a, b, d) = returned table fn_alloc info size res f spec p e y in
          let (i, j, o) = stride_lem info spec (valid_width info v) k in
          (
            spec,
            subst (λ x. find_format table x.fourcc ≡ some spec) (sym a) g,
            ap (λ x. x.modifier) a ∙ l,
            b ∙ ap (λ x. x.strides) q,
            i,
            j,
            o,
            d ∙ ap (λ x. x.total_size) q,
          )
    ]
