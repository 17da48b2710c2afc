-- ===== src/Util/Wsialloc.antt =====
-- util/wsialloc/wsialloc_helpers.c: the choice of a format and of the layout of a buffer. Words wrap
-- around as in the code: `uint32_t` at 2^32 and `uint64_t` at 2^64. A stride, an `int`, is kept as
-- its 32-bit word.
pub mod Layout
use rk_vulkan_wsi_layer.Prelude.{
  ℕ, ◌+◌, ◌-◌, ◌*◌, ◌/◌, ◌%◌, ◌^◌, ◌≡◌, Bool, true, false, ◌&&◌, ◌||◌, List, [], ◌∷◌, Option, none,
  some, ◌==◌, ltb, if◌then◌else◌, length, u32, u64, replicate,
}

-- `wsialloc_error`.
pub data WsiallocError : Type 0 where
  error_none error_invalid error_not_supported error_no_resource : WsiallocError

-- An entry of the table of formats: the bits per pixel of its first plane.
pub record FmtSpec : Type 0 where
  pub drm_format : ℕ
  pub nr_planes : ℕ
  pub bpp : ℕ

pub record WsiallocFormat : Type 0 where
  pub fourcc : ℕ
  pub modifier : ℕ
  pub flags : ℕ

pub record AllocateInfo : Type 0 where
  pub formats : List WsiallocFormat
  pub width : ℕ
  pub height : ℕ
  pub no_memory : Bool

-- Of each plane, its stride, its offset and its file descriptor.
pub record AllocateResult : Type 0 where
  pub format : WsiallocFormat
  pub average_row_strides : List ℕ
  pub offsets : List ℕ
  pub buffer_fds : List ℕ
  pub is_disjoint : Bool

-- What `calculate_format_properties` writes.
pub record Properties : Type 0 where
  pub strides : List ℕ
  pub plane_offsets : List ℕ
  pub total_size : ℕ

-- `DRM_FORMAT_MOD_LINEAR`.
abbrev pub mod_linear : ℕ
mod_linear = 0

abbrev pub max_image_size : ℕ
max_image_size = 128000

-- The mask is a 32-bit word, so the upper half of the sum is lost.
unfoldable pub round_size_up_to_align : ℕ → ℕ
round_size_up_to_align size = u32 (u64 (size + 63)) / 64 * 64

-- The stride of the only plane: the product is one of 32-bit words.
unfoldable pub plane_stride : FmtSpec → AllocateInfo → ℕ
unfolding round_size_up_to_align
plane_stride spec info = u32 (round_size_up_to_align (u32 (info.width * (spec.bpp / 8))))

unfoldable pub plane_properties : FmtSpec → AllocateInfo → Properties
unfolding plane_stride
plane_properties spec info = record {
  strides = plane_stride spec info ∷ [];
  plane_offsets = 0 ∷ [];
  total_size = u32 (plane_stride spec info * info.height);
}

abbrev no_properties : Properties
no_properties = record { strides = []; plane_offsets = []; total_size = 0 }

unfoldable pub calculate_format_properties :
    FmtSpec → WsiallocFormat → AllocateInfo → WsiallocError × Properties
unfolding plane_properties
calculate_format_properties spec format info =
    if format.modifier == mod_linear
    then (if ltb 1 spec.nr_planes
        then (error_not_supported, no_properties)
        else (if spec.nr_planes == 0
            then (error_none, no_properties)
            else (error_none, plane_properties spec info)))
    else (error_not_supported, no_properties)

-- `find_format`: the bit of the byte order is masked off.
unfoldable pub find_in_table : ℕ → List FmtSpec → Option FmtSpec
find_in_table fourcc [] = none
find_in_table fourcc (spec ∷ table) =
    if fourcc == spec.drm_format then some spec else find_in_table fourcc table

unfoldable pub find_format : List FmtSpec → ℕ → Option FmtSpec
unfolding find_in_table
find_format table fourcc = find_in_table (fourcc % 2 ^ 31) table

-- `validate_parameters`, of an allocator and a result that are there.
unfoldable pub validate_parameters : AllocateInfo → Bool
validate_parameters info =
    if (length info.formats == 0)
      || (ltb info.width 1
          || (ltb info.height 1
              || (ltb max_image_size info.width || ltb max_image_size info.height)))
    then false
    else true

-- What the loop over the formats has when it ends: the selected format, if there is one.
pub record Selection : Type 0 where
  pub err : WsiallocError
  pub selected : Option (WsiallocFormat × FmtSpec × Properties)

-- One format: its error, and its properties where there is no error.
abbrev pub checked : WsiallocFormat → FmtSpec → WsiallocError × Properties → Selection
checked format spec (error_none, p) = record { err = error_none; selected = some (format, spec, p) }
checked format spec (e, p) = record { err = e; selected = none }

unfoldable pub with_spec : AllocateInfo → WsiallocFormat → Option FmtSpec → Selection
unfolding calculate_format_properties
with_spec info format none = record { err = error_not_supported; selected = none }
with_spec info format (some spec) =
    checked format spec (calculate_format_properties spec format info)

unfoldable pub try_format : List FmtSpec → AllocateInfo → WsiallocFormat → Selection
unfolding find_format with_spec
try_format table info format = with_spec info format (find_format table format.fourcc)

unfoldable pub select_format :
    List FmtSpec → AllocateInfo → WsiallocError → List WsiallocFormat → Selection
unfolding try_format
select_format table info e [] = record { err = e; selected = none }
select_format table info e (format ∷ formats) =
    let t = try_format table info format in
    let rest = select_format table info t.err formats in
    elim t.selected [ none ↦ rest | some s ↦ t ]

abbrev result_of : WsiallocFormat → FmtSpec → Properties → List ℕ → AllocateResult
result_of format spec p fds = record {
  format = format;
  average_row_strides = p.strides;
  offsets = p.plane_offsets;
  buffer_fds = fds;
  is_disjoint = false;
}

-- `wsiallocp_alloc`: `fn_alloc` is the descriptor that the callback returns for a size, `none` for a
-- negative one. The second result is the size that the callback got, if it was called.
unfoldable pub wsiallocp_alloc :
    List FmtSpec → (ℕ → Option ℕ) → AllocateInfo → WsiallocError × Option ℕ × Option AllocateResult
unfolding validate_parameters select_format
wsiallocp_alloc table fn_alloc info =
    let s = select_format table info error_none info.formats in
    if validate_parameters info
    then (elim s.selected [
      | none ↦ (s.err, none, none)
      | some (format, spec, p) ↦
          if info.no_memory
          then (error_none, none, some (result_of format spec p []))
          else (elim (fn_alloc p.total_size) [
            | none ↦ (error_no_resource, some p.total_size, none)
            | some fd ↦ (error_none, some p.total_size, some (result_of format spec p (fd ∷ [])))
          ])
    ])
    else (error_invalid, none, none)
