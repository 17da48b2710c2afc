-- ===== src/Wsi/TimeDomains.antt =====
-- wsi/time_domains.cpp and time_domains.hpp: the time domains of a swapchain. A set of stages is a word of
-- flags, and a time domain a number.
use Prim.Native.Nat.{bit_and}
use rk_vulkan_wsi_layer.Prelude.{
  ℕ, zero, suc, sym, ap, ◌∙◌, ◌<◌, ◌≡◌, ◌⊎◌, inl, inr, refl, Bool, true, false, not, ◌&&◌, List, [],
  ◌∷◌, ◌++◌, Option, none, some, ◌==◌, ltb, if◌then◌else◌, arith, set, get_elem?, Bool-cases,
}
use rk_vulkan_wsi_layer.Vulkan.{VkResult, success, incomplete, error_out_of_host_memory}

-- `swapchain_calibrated_time`.
pub record CalibratedTime : Type 0 where
  pub time_domain : ℕ
  pub offset : ℕ

-- `vulkan_time_domain`.
pub record TimeDomain : Type 0 where
  pub present_stages : ℕ
  pub time_domain : ℕ

-- `vulkan_time_domain::calibrate`.
unfoldable pub calibrate_domain : TimeDomain → CalibratedTime
calibrate_domain d = record { time_domain = d.time_domain; offset = 0 }

-- The bits of the stages: the end of the queue's operations, the latch, and the first pixel out and
-- visible.
abbrev pub queue_operations_end : ℕ
queue_operations_end = 1

abbrev pub image_latched : ℕ
image_latched = 2

abbrev pub first_pixel_out : ℕ
first_pixel_out = 4

abbrev pub first_pixel_visible : ℕ
first_pixel_visible = 8

-- Whether a domain has the stage.
abbrev pub has_stage : ℕ → TimeDomain → Bool
has_stage stage d = not (bit_and d.present_stages stage == 0)

-- `swapchain_time_domains::calibrate`; the time is written where a domain is found.
unfoldable pub calibrate : ℕ → List TimeDomain → VkResult × Option CalibratedTime
unfolding calibrate_domain
calibrate stage [] = (error_out_of_host_memory, none)
calibrate stage (d ∷ ds) =
    let rest = calibrate stage ds in
    if has_stage stage d then (success, some (calibrate_domain d)) else rest

-- The loops of `init_platform` over the domains, each with whether it can be added.
unfoldable pub add_domains : List (Bool × TimeDomain) → List TimeDomain → VkResult × List TimeDomain
add_domains [] ds = (success, ds)
add_domains ((pushed, d) ∷ more) ds =
    let rest = add_domains more (ds ++ d ∷ []) in
    if pushed then rest else (error_out_of_host_memory, ds)

-- The domains of a headless swapchain and of a Wayland one, by the time domains of the device and of the
-- monotonic clock and by whether each element can be added.
unfoldable pub headless_domains : ℕ → ℕ → (ℕ → Bool) → List (Bool × TimeDomain)
headless_domains device monotonic_raw pushed =
    (pushed 0, record { present_stages = queue_operations_end; time_domain = device })
    ∷ (pushed 1, record { present_stages = image_latched; time_domain = monotonic_raw })
    ∷ (pushed 2, record { present_stages = first_pixel_out; time_domain = monotonic_raw })
    ∷ (pushed 3, record { present_stages = first_pixel_visible; time_domain = monotonic_raw })
    ∷ []

unfoldable pub wayland_domains : ℕ → (ℕ → Bool) → List (Bool × TimeDomain)
wayland_domains device pushed =
    (pushed 0, record { present_stages = queue_operations_end; time_domain = device }) ∷ []

-- `VkSwapchainTimeDomainPropertiesEXT`: a null array is `none`.
pub record TimeDomainProperties : Type 0 where
  pub time_domain_count : ℕ
  pub time_domains : Option (List ℕ)
  pub time_domain_ids : Option (List ℕ)

abbrev pub with_first : ℕ → Option (List ℕ) → Option (List ℕ)
with_first x none = none
with_first x (some xs) = some (set xs 0 x)

-- The structure with the one domain of a swapchain, `VK_TIME_DOMAIN_PRESENT_STAGE_LOCAL_EXT`: the code sets the pointer of
-- the identifiers to null.
abbrev pub written : ℕ → TimeDomainProperties → TimeDomainProperties
written local p = record {
  time_domain_count = 1;
  time_domains = with_first local p.time_domains;
  time_domain_ids = none;
}

abbrev pub is_null : Option (List ℕ) → Bool
is_null none = true
is_null (some xs) = false

-- The call without a counter.
abbrev pub uncounted : ℕ → TimeDomainProperties → TimeDomainProperties
uncounted local p =
    if is_null p.time_domains && is_null p.time_domain_ids
    then record p { time_domain_count = 1 }
    else (if not (is_null p.time_domains) && not (is_null p.time_domain_ids)
        then written local p
        else p)

-- `set_swapchain_time_domain_properties`: its result, the structure and the counter. With a counter and
-- a structure the code writes to the array without a test, which a null array leaves undefined; here it
-- writes nothing.
unfoldable pub set_swapchain_time_domain_properties :
    ℕ → Option TimeDomainProperties → Option ℕ → VkResult × Option TimeDomainProperties × Option ℕ
set_swapchain_time_domain_properties local none (some n) = (success, none, some 1)
set_swapchain_time_domain_properties local (some p) (some n) =
    (if ltb n 1 then incomplete else success, some (written local p), some n)
set_swapchain_time_domain_properties local (some p) none = (success, some (uncounted local p), none)
set_swapchain_time_domain_properties local none none = (success, none, none)

-- `wsi_layer_vkGetSwapchainTimeDomainPropertiesEXT`: whether the layer owns the swapchain, and what the
-- driver answers otherwise.
unfoldable pub get_swapchain_time_domain_properties_ext :
    Bool
    → (Option TimeDomainProperties → Option ℕ → VkResult × Option TimeDomainProperties × Option ℕ)
    → ℕ
    → Option TimeDomainProperties
    → Option ℕ
    → VkResult × Option TimeDomainProperties × Option ℕ
unfolding set_swapchain_time_domain_properties
get_swapchain_time_domain_properties_ext owned driver local p n =
    if owned then set_swapchain_time_domain_properties local p n else driver p n

abbrev domain_or : TimeDomain → Option TimeDomain → TimeDomain
domain_or d none = d
domain_or d (some e) = e

-- A calibration finds the first domain that has the stage, with no offset, or there is none.
pub calibrate_finds :
    (stage : ℕ) (ds : List TimeDomain)
    → ((calibrate stage ds ≡ (error_out_of_host_memory, none))
        × ((i : ℕ) (d : TimeDomain) → get_elem? ds i ≡ some d → has_stage stage d ≡ false))
      ⊎ ((i : ℕ) × (d : TimeDomain) × (calibrate stage ds
            ≡ (success, some (record { time_domain = d.time_domain; offset = 0 })))
          × (get_elem? ds i ≡ some d)
          × (has_stage stage d ≡ true)
          × ((j : ℕ) (e : TimeDomain)
              → j < i
              → get_elem? ds j ≡ some e
              → has_stage stage e ≡ false))
unfolding calibrate calibrate_domain
calibrate_finds stage [] = inl (refl, λ i d e. cc)
calibrate_finds stage (d ∷ ds) = elim (Bool-cases (has_stage stage d)) [
  | inl y ↦ inr (zero, d, rw (y, calibrate) refl, refl, y, λ j e l. absurd (omega (arith, l)))
  | inr n ↦ elim (calibrate_finds stage ds) [
    | inl (r, h) ↦ inl (rw (n, calibrate) r, later d ds n h)
    | inr (i, e, r, g, y, h) ↦ inr (suc i, e, rw (n, calibrate) r, g, y, earlier d ds i n h)
  ]
]
  where
    later :
        (d : TimeDomain) (ds : List TimeDomain)
        → has_stage stage d ≡ false
        → ((i : ℕ) (e : TimeDomain) → get_elem? ds i ≡ some e → has_stage stage e ≡ false)
        → (i : ℕ) (e : TimeDomain) → get_elem? (d ∷ ds) i ≡ some e
        → has_stage stage e ≡ false
    later d ds n h zero e g = ap (has_stage stage) (sym (ap (domain_or d) g)) ∙ n
    later d ds n h (suc i) e g = h i e g

    earlier :
        (d : TimeDomain) (ds : List TimeDomain) (k : ℕ)
        → has_stage stage d ≡ false
        → ((j : ℕ) (e : TimeDomain) → j < k → get_elem? ds j ≡ some e → has_stage stage e ≡ false)
        → (j : ℕ) (e : TimeDomain) → j < suc k
        → get_elem? (d ∷ ds) j ≡ some e
        → has_stage stage e ≡ false
    earlier d ds k n h zero e l g = ap (has_stage stage) (sym (ap (domain_or d) g)) ∙ n
    earlier d ds k n h (suc j) e l g = h j e (omega (arith, l)) g
