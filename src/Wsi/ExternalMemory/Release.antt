-- ===== src/Wsi/ExternalMemory/Release.antt =====
-- wsi/external_memory.cpp: what becomes of the descriptors and memories. An import takes over the
-- descriptor; freeing the memory releases it.
use rk_vulkan_wsi_layer.Prelude.{
  ℕ, zero, suc, ◌+◌, ◌≤◌, ◌≡◌, List, [], ◌∷◌, ◌++◌, some, arith, ◌==◌, if◌then◌else◌, ltb,
}
use rk_vulkan_wsi_layer.Wsi.ExternalMemory.{
  ExternalMemory, destroy, Released, freed, closed, release_planes, release_plane, first_position,
}

-- How often a descriptor is closed.
abbrev pub closes : ℕ → List Released → ℕ
closes fd [] = 0
closes fd (closed f ∷ rs) = (if f == fd then 1 else 0) + closes fd rs
closes fd (freed m ∷ rs) = closes fd rs

closes-append :
    (fd : ℕ) (xs ys : List Released) → closes fd (xs ++ ys) ≡ closes fd xs + closes fd ys
closes-append fd [] ys = omega arith
closes-append fd (closed f ∷ xs) ys = omega (arith, closes-append fd xs ys)
closes-append fd (freed m ∷ xs) ys = closes-append fd xs ys

-- The release of a plane closes a descriptor only where its first plane is that one.
release_plane-closes :
    (m : ExternalMemory) (plane fd : ℕ)
    → closes fd (release_plane m plane)
      ≤ (if first_position (some fd) m.buffer_fds == plane then 1 else 0)
unfolding release_plane
release_plane-closes m plane fd = ground arith

release_planes-closes :
    (n plane : ℕ) (m : ExternalMemory) (fd : ℕ)
    → closes fd (release_planes n plane m)
      ≤ (if ltb (first_position (some fd) m.buffer_fds) plane then 0 else 1)
unfolding release_planes
release_planes-closes zero plane m fd = ground arith
release_planes-closes (suc n) plane m fd = ground (
  arith,
  closes-append fd (release_plane m plane) (release_planes n (suc plane) m),
  release_plane-closes m plane fd,
  release_planes-closes n (suc plane) m fd,
)

-- The destructor closes no descriptor twice, also where planes share one.
pub destroy-closes_once : (m : ExternalMemory) (fd : ℕ) → closes fd (destroy m) ≤ 1
unfolding destroy
destroy-closes_once m fd = ground (arith, release_planes-closes m.num_planes 0 m fd)
