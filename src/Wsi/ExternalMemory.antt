-- ===== src/Wsi/ExternalMemory.antt =====
-- wsi/external_memory.hpp and external_memory.cpp: the memory of an image that is imported from file
-- descriptors. `none` is the descriptor -1, and 0 the null handle.
pub mod Release
use rk_vulkan_wsi_layer.Prelude.{
  ℕ, zero, suc, ◌+◌, ◌%◌, ◌/◌, Bool, true, false, not, List, [], ◌∷◌, ◌++◌, Option, none, some,
  length, get_or, set, ◌==◌, if◌then◌else◌, replicate,
}
use rk_vulkan_wsi_layer.Vulkan.{VkResult, success, error_out_of_host_memory, is_success}

abbrev pub max_planes : ℕ
max_planes = 4

pub record ExternalMemory : Type 0 where
  pub buffer_fds : List (Option ℕ)
  pub strides : List ℕ
  pub offsets : List ℕ
  pub memories : List ℕ
  pub num_planes : ℕ
  pub num_memories : ℕ

abbrev pub fd_eq : Option ℕ → Option ℕ → Bool
fd_eq none none = true
fd_eq (some a) (some b) = a == b
fd_eq _ _ = false

-- The position of the first descriptor equal to the one given, as `std::find` returns it.
unfoldable pub first_position : Option ℕ → List (Option ℕ) → ℕ
first_position fd [] = 0
first_position fd (f ∷ fs) = let rest = first_position fd fs in if fd_eq f fd then 0 else suc rest

abbrev pub fd_at : ExternalMemory → ℕ → Option ℕ
fd_at m plane = get_or m.buffer_fds plane none

-- Whether a plane is the first with its descriptor.
unfoldable pub is_first : ExternalMemory → ℕ → Bool
unfolding first_position
is_first m plane = first_position (fd_at m plane) m.buffer_fds == plane

unfoldable pub is_disjoint : ExternalMemory → Bool
is_disjoint m = not (m.num_memories == 1)

-- `get_fd_mem_type_index`: the first index, from one on, whose bit is set in the rest of the mask.
unfoldable pub lowest_bit : ℕ → ℕ → ℕ → ℕ
lowest_bit zero i bits = i
lowest_bit (suc n) i bits =
    let rest = lowest_bit n (suc i) (bits / 2) in if bits % 2 == 1 then i else rest

abbrev pub max_memory_types : ℕ
max_memory_types = 32

-- The answers for one descriptor: its memory type bits, its size if `lseek` gives one, and the
-- allocation, from the size and the memory type index.
pub record ImportAnswers : Type 0 where
  pub fd_properties : VkResult × ℕ
  pub fd_size : Option ℕ
  pub allocate_memory : ℕ → ℕ → VkResult × ℕ

allocate_for : ImportAnswers → ℕ → VkResult × ℕ
allocate_for a index = elim a.fd_size [
  | none ↦ (error_out_of_host_memory, 0)
  | some size ↦
      if is_success (a.allocate_memory size index).0
      then (success, (a.allocate_memory size index).1)
      else ((a.allocate_memory size index).0, 0)
]

-- `import_plane_memory`: the handle is null where the call fails.
unfoldable pub import_plane_memory : ImportAnswers → VkResult × ℕ
unfolding lowest_bit allocate_for
import_plane_memory a =
    if is_success a.fd_properties.0
    then allocate_for a (lowest_bit max_memory_types 0 a.fd_properties.1)
    else (a.fd_properties.0, 0)

-- The answers of the driver to the import of a plane's descriptor.
module _ (answers : ℕ → ImportAnswers) where
  -- The loop, on the planes that are left, the plane and the memory that are next.
  unfoldable pub import_planes : ℕ → ℕ → ℕ → ExternalMemory → VkResult × ExternalMemory
  unfolding import_plane_memory is_first
  import_planes zero plane memory_plane m = (success, m)
  import_planes (suc n) plane memory_plane m =
      let (r, h) = import_plane_memory (answers plane) in
      let imported = record m { memories = set m.memories memory_plane h } in
      let skipped = import_planes n (suc plane) memory_plane m in
      let next = import_planes n (suc plane) (suc memory_plane) imported in
      if is_first m plane then (if is_success r then next else (r, imported)) else skipped

  unfoldable pub import_plane_memories : ExternalMemory → VkResult × ExternalMemory
  unfolding import_planes is_disjoint
  import_plane_memories m =
      if is_disjoint m
      then import_planes m.num_planes 0 0 m
      else (let (r, h) = import_plane_memory (answers 0) in
          (r, record m { memories = set m.memories 0 h }))

-- What a bind passes for one memory: the plane of its aspect, the memory and the offset.
pub record PlaneBind : Type 0 where
  pub plane : ℕ
  pub memory : ℕ
  pub offset : ℕ

unfoldable pub plane_binds : ℕ → ℕ → ExternalMemory → List PlaneBind
plane_binds zero plane m = []
plane_binds (suc n) plane m =
    record { plane = plane; memory = get_or m.memories plane 0; offset = get_or m.offsets plane 0 }
    ∷ plane_binds n (suc plane) m

-- The two answers are those of the host's allocator; the driver answers a list of binds, or one bind
-- of a memory at an offset.
unfoldable pub bind_swapchain_image_memory :
    Bool → Bool → (List PlaneBind → VkResult) → (ℕ → ℕ → VkResult) → ExternalMemory → VkResult
unfolding plane_binds is_disjoint
bind_swapchain_image_memory infos planes bind_image_memory2 bind_image_memory m =
    if is_disjoint m
    then (if infos
        then (if planes
            then bind_image_memory2 (plane_binds m.num_memories 0 m)
            else error_out_of_host_memory)
        else error_out_of_host_memory)
    else bind_image_memory (get_or m.memories 0 0) (get_or m.offsets 0 0)

-- What the destructor releases.
pub data Released : Type 0 where
  freed closed : ℕ → Released

closed_first : ExternalMemory → ℕ → Option ℕ → List Released
closed_first m plane none = []
closed_first m plane (some fd) = if is_first m plane then closed fd ∷ [] else []

-- The destructor at one plane, and its loop over the planes.
unfoldable pub release_plane : ExternalMemory → ℕ → List Released
unfolding closed_first is_first
release_plane m plane =
    if get_or m.memories plane 0 == 0
    then closed_first m plane (fd_at m plane)
    else freed (get_or m.memories plane 0) ∷ []

unfoldable pub release_planes : ℕ → ℕ → ExternalMemory → List Released
unfolding release_plane
release_planes zero plane m = []
release_planes (suc n) plane m = release_plane m plane ++ release_planes n (suc plane) m

-- `external_memory::~external_memory`.
unfoldable pub destroy : ExternalMemory → List Released
unfolding release_planes
destroy m = release_planes m.num_planes 0 m

-- `VkSubresourceLayout`, of which two fields are set.
pub record PlaneLayout : Type 0 where
  pub offset : ℕ
  pub row_pitch : ℕ

layouts : ℕ → ℕ → ExternalMemory → List PlaneLayout
layouts zero plane m = []
layouts (suc n) plane m =
    record { offset = get_or m.offsets plane 0; row_pitch = get_or m.strides plane 0 }
    ∷ layouts n (suc plane) m

unfoldable pub fill_image_plane_layouts : Bool → ExternalMemory → Option (List PlaneLayout)
unfolding layouts
fill_image_plane_layouts resized m = if resized then some (layouts m.num_planes 0 m) else none
