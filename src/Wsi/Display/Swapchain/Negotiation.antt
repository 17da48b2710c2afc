-- ===== src/Wsi/Display/Swapchain/Negotiation.antt =====
-- wsi/display/swapchain.cpp: the format that the images of a swapchain get.
use rk_vulkan_wsi_layer.Prelude.{
  ◌≡◌, ◌⊎◌, inl, inr, sym, subst, Bool, true, false, List, [], ◌∷◌, ◌++◌, none, some, arith,
  Bool-cases, All, All-append,
}
use rk_vulkan_wsi_layer.Vulkan.{VkResult, is_success}
use rk_vulkan_wsi_layer.Util.Wsialloc.{error_none, WsiallocFormat}
use rk_vulkan_wsi_layer.Util.DrmUtils.{Codes}
use rk_vulkan_wsi_layer.Wsi.ExternalMemory.{ExternalMemory}
use rk_vulkan_wsi_layer.Wsi.Wayland.{wsialloc_result}
use rk_vulkan_wsi_layer.Wsi.Display.DrmDisplay.{DrmDisplay, FormatPair, is_format_supported}
use rk_vulkan_wsi_layer.Wsi.Display.Swapchain.{
  ImageInfo, ModifierProperties, FormatAnswers, Formats, import_format, is_usable, push_modifier,
  push_modifiers, no_formats, get_surface_compatible_formats, Allocated, allocate_wsialloc,
  get_drm_format_properties,
}
use rk_vulkan_wsi_layer.Wsi.Display.Swapchain.Creation.{
  ImageCreation, CreationAnswers, settle_with, settle_allocated, settle_format,
}

-- Whether a format of the allocator is supported.
abbrev pub Supported : (FormatPair → Bool) → WsiallocFormat → Type 0
Supported supported f = supported (f.fourcc, f.modifier) ≡ true

-- Whether a format is in a list.
abbrev pub Among : WsiallocFormat → List WsiallocFormat → Type 0
Among f [] = ⊥
Among f (g ∷ gs) = (f ≡ g) ⊎ Among f gs

All-Among :
    (P : WsiallocFormat → Type 0) (f : WsiallocFormat) (fs : List WsiallocFormat)
    → All P fs
    → Among f fs
    → P f
All-Among P f [] a m = absurd m
All-Among P f (g ∷ gs) a (inl e) = subst P (sym e) a.0
All-Among P f (g ∷ gs) a (inr m) = All-Among P f gs a.1 m

module _ (c : Codes) (info : ImageInfo) (a : FormatAnswers) (supported : FormatPair → Bool) where
  usable-Supported :
      (p : ModifierProperties)
      → is_usable c info a supported p ≡ true
      → Supported supported (import_format c info a p)
  unfolding is_usable import_format
  usable-Supported p u = ground arith

  pushed_lem :
      (p : ModifierProperties) (f : Formats)
      → ((push_modifier c info a p f).1.importable_formats ≡ f.importable_formats)
        ⊎ ((push_modifier c info a p f).1.importable_formats
            ≡ f.importable_formats ++ import_format c info a p ∷ [])
  unfolding push_modifier
  pushed_lem p f = ground arith

  pushed-Supported :
      (p : ModifierProperties) (f : Formats)
      → Supported supported (import_format c info a p)
      → All (Supported supported) f.importable_formats
      → All (Supported supported) (push_modifier c info a p f).1.importable_formats
  pushed-Supported p f s h = elim (pushed_lem p f) [
    | inl e ↦ subst (All (Supported supported)) (sym e) h
    | inr e ↦
        subst (All (Supported supported)) (sym e)
          (All-append (Supported supported) f.importable_formats _ h (s, tt))
  ]

  push_modifiers-Supported :
      (ps : List ModifierProperties) (f : Formats)
      → All (Supported supported) f.importable_formats
      → All (Supported supported) (push_modifiers c info a supported ps f).1.importable_formats
  unfolding push_modifiers
  push_modifiers-Supported [] f h = h
  push_modifiers-Supported (p ∷ ps) f h =
      let pushed : VkResult × Formats = push_modifier c info a p f in
      elim (Bool-cases (is_usable c info a supported p)) [
        | inl u ↦
            let k : All (Supported supported) pushed.1.importable_formats =
              pushed-Supported p f (usable-Supported p u) h in
            elim (Bool-cases (is_success pushed.0)) [
              | inl y ↦ rw (u, y, push_modifiers) (push_modifiers-Supported ps pushed.1 k)
              | inr n ↦ rw (u, n, push_modifiers) k
            ]
        | inr n ↦ rw (n, push_modifiers) (push_modifiers-Supported ps f h)
      ]

  -- The formats of a search that has pushed some modifiers or none.
  pub searched-Supported :
      (found : Formats)
      → (found ≡ (push_modifiers c info a supported a.properties no_formats).1)
        ⊎ (found ≡ no_formats)
      → All (Supported supported) found.importable_formats
  searched-Supported found (inl e) =
      subst (λ f. All (Supported supported) f.importable_formats) (sym e)
        (push_modifiers-Supported a.properties no_formats tt)
  searched-Supported found (inr e) =
      subst (λ f. All (Supported supported) f.importable_formats) (sym e) tt

compatible_lem :
    (c : Codes) (info : ImageInfo) (a : FormatAnswers) (d : DrmDisplay)
    → ((get_surface_compatible_formats c info a (some d)).1
        ≡ (push_modifiers c info a (λ f. is_format_supported f d) a.properties no_formats).1)
      ⊎ ((get_surface_compatible_formats c info a (some d)).1 ≡ no_formats)
unfolding get_surface_compatible_formats get_drm_format_properties
compatible_lem c info a d = ground arith

allocated_lem :
    (c : Codes) (avoid : Bool) (r : Allocated) (m : ExternalMemory)
    → ((r.err ≡ error_none) × ((allocate_wsialloc c avoid r m).1 ≡ some r.format))
      ⊎ ((is_success (allocate_wsialloc c avoid r m).0 ≡ false)
          × ((allocate_wsialloc c avoid r m).1 ≡ none))
unfolding allocate_wsialloc wsialloc_result
allocated_lem c avoid r m = ground arith

module _ (c : Codes) (search : VkResult × Formats) (a : CreationAnswers) (info : ImageInfo) where
  settled_lem :
      (m : ExternalMemory) (s : ImageCreation)
      → is_success (settle_format c search a info m s).0 ≡ true
      → ((a.allocate search.1.importable_formats).err ≡ error_none)
        × ((settle_format c search a info m s).2.allocated_format
            ≡ (a.allocate search.1.importable_formats).format)
  unfolding settle_format settle_allocated settle_with
  settled_lem m s e =
      ground (arith, e, allocated_lem c true (a.allocate search.1.importable_formats) m)

  -- The format that is settled is one of those that are found, where the allocator returns one.
  pub settled-Supported :
      (supported : FormatPair → Bool)
      → All (Supported supported) search.1.importable_formats
      → ((fs : List WsiallocFormat)
          → (a.allocate fs).err ≡ error_none
          → Among (a.allocate fs).format fs)
      → (m : ExternalMemory) (s : ImageCreation)
      → is_success (settle_format c search a info m s).0 ≡ true
      → Supported supported (settle_format c search a info m s).2.allocated_format
  settled-Supported supported h among m s e =
      let fs : List WsiallocFormat = search.1.importable_formats in
      let (y, z) = settled_lem m s e in
      subst (Supported supported) (sym z)
        (All-Among (Supported supported) (a.allocate fs).format fs h (among fs y))

-- Where the first image of a swapchain on a display settles the format successfully, and the allocator
-- returns one of the formats that it was given, the display supports the format that is kept for the
-- images.
pub settle_format-Supported :
    (c : Codes) (d : DrmDisplay) (a : CreationAnswers) (info : ImageInfo) (m : ExternalMemory)
    (s : ImageCreation)
    → ((fs : List WsiallocFormat)
        → (a.allocate fs).err ≡ error_none
        → Among (a.allocate fs).format fs)
    → is_success
        (settle_format c (get_surface_compatible_formats c info a.formats (some d)) a info m s).0
      ≡ true
    → Supported
        (λ f. is_format_supported f d)
        (settle_format c
          (get_surface_compatible_formats c info a.formats (some d))
          a
          info
          m
          s).2.allocated_format
settle_format-Supported c d a info m s among =
    settled-Supported c (get_surface_compatible_formats c info a.formats (some d)) a info
      (λ f. is_format_supported f d)
      (searched-Supported c info a.formats (λ f. is_format_supported f d) _
        (compatible_lem c info a.formats d))
      among m s
