-- ===== src/Wsi/Factory/Platforms.antt =====
-- wsi/wsi_factory.cpp and util/platform_set.hpp: which platforms an instance enables.
use rk_vulkan_wsi_layer.Prelude.{
  ℕ, ◌≡◌, refl, Bool, true, false, ◌&&◌, ◌||◌, List, [], ◌∷◌, ◌==◌, if◌then◌else◌, arith,
}
use rk_vulkan_wsi_layer.Wsi.Factory.{
  Platform, headless, wayland, display, Build, WsiExtension, platform_contains, platform_add,
  add_for_names, find_platforms, supported_wsi_extensions, find_enabled_layer_platforms,
}
use rk_vulkan_wsi_layer.Wsi.Factory.Required.{mem}
use rk_vulkan_wsi_layer.Vulkan.Extensions.{
  vk_ext_headless_surface, vk_khr_wayland_surface, vk_khr_display,
}

abbrev same : Platform → Platform → Bool
same headless headless = true
same wayland wayland = true
same display display = true
same _ _ = false

-- A platform is in the set after an addition if it was added or was in it before.
add-contains :
    (m : ℕ) (p q : Platform)
    → platform_contains (platform_add m p) q ≡ (same p q || platform_contains m q)
unfolding platform_contains platform_add
add-contains m headless headless = ground arith
add-contains m headless wayland = ground arith
add-contains m headless display = ground arith
add-contains m wayland headless = ground arith
add-contains m wayland wayland = ground arith
add-contains m wayland display = ground arith
add-contains m display headless = ground arith
add-contains m display wayland = ground arith
add-contains m display display = ground arith

names-contain :
    (e : WsiExtension) (names : List ℕ) (m : ℕ) (q : Platform)
    → platform_contains (add_for_names e names m) q
      ≡ (platform_contains m q || (same e.platform q && mem e.extension names))
unfolding add_for_names
names-contain e [] m q = ground arith
names-contain e (n ∷ names) m q = ground (
  arith,
  add-contains m e.platform q,
  names-contain e names (if n == e.extension then platform_add m e.platform else m) q,
)

-- Whether the build has a platform, and its surface extension.
abbrev pub built : Build → Platform → Bool
built b headless = b.headless
built b wayland = b.wayland
built b display = b.display

abbrev pub surface_extension : Platform → ℕ
surface_extension headless = vk_ext_headless_surface
surface_extension wayland = vk_khr_wayland_surface
surface_extension display = vk_khr_display

-- The platforms of a table that provide an extension of the list.
abbrev provided : List WsiExtension → List ℕ → Platform → Bool
provided [] names q = false
provided (e ∷ es) names q = (same e.platform q && mem e.extension names) || provided es names q

platforms-contain :
    (es : List WsiExtension) (names : List ℕ) (m : ℕ) (q : Platform)
    → platform_contains (find_platforms es names m) q
      ≡ (platform_contains m q || provided es names q)
unfolding find_platforms
platforms-contain [] names m q = ground arith
platforms-contain (e ∷ es) names m q =
    ground
      (arith, names-contain e names m q, platforms-contain es names (add_for_names e names m) q)

table_provides :
    (b : Build) (names : List ℕ) (q : Platform)
    → provided (supported_wsi_extensions b) names q ≡ (built b q && mem (surface_extension q) names)
unfolding supported_wsi_extensions
table_provides b names headless = ground arith
table_provides b names wayland = ground arith
table_provides b names display = ground arith

nothing : (q : Platform) → platform_contains 0 q ≡ false
unfolding platform_contains
nothing headless = refl
nothing wayland = refl
nothing display = refl

-- The set of platforms that is found for an instance contains a platform exactly if the build has
-- it and its surface extension is among the names that the application enables.
pub platforms_found :
    (b : Build) (names : List ℕ) (q : Platform)
    → platform_contains (find_enabled_layer_platforms b names) q
      ≡ (built b q && mem (surface_extension q) names)
unfolding find_enabled_layer_platforms
platforms_found b names q = ground (
  arith,
  platforms-contain (supported_wsi_extensions b) names 0 q,
  table_provides b names q,
  nothing q,
)
