-- ===== src/Layer/PrivateData/Registry.antt =====
-- layer/private_data.cpp: the maps from an instance and from a device to what the layer keeps for
-- it. The data are numbers, the pointers of the code; the key of a dispatchable object, which is
-- the first word that it points to, is the argument `get_key`.
use rk_vulkan_wsi_layer.Prelude.{
  ℕ, ◌+◌, ◌≡◌, ◌≢◌, refl, Bool, true, List, [], ◌∷◌, ◌++◌, Option, none, some, ◌==◌, if◌then◌else◌,
  arith, Option-cases, inl, inr,
}
use rk_vulkan_wsi_layer.Vulkan.{VkResult, success, error_out_of_host_memory, is_success}
use rk_vulkan_wsi_layer.Util.UnorderedMap.{
  UnorderedMap, find, erase, try_insert, Unique, erase-Unique, find-erase_self,
}

-- A map of the file and, in order, the data that have been created and those that have been
-- destroyed.
pub record Registry : Type 0 where
  pub g_data : UnorderedMap ℕ
  pub created : List ℕ
  pub destroyed : List ℕ

unfoldable pub destroy : ℕ → Registry → Registry
destroy d g = record { g_data = g.g_data; created = g.created; destroyed = g.destroyed ++ d ∷ [] }

abbrev with_data : UnorderedMap ℕ → Registry → Registry
with_data m g = record { g_data = m; created = g.created; destroyed = g.destroyed }

abbrev with_created : ℕ → Registry → Registry
with_created d g = record {
  g_data = g.g_data;
  created = g.created ++ d ∷ [];
  destroyed = g.destroyed;
}

-- What is registered under the key is destroyed and erased.
unfoldable pub displace : ℕ → Registry → Registry
unfolding destroy
displace key g = elim (find key g.g_data) [
  | none ↦ g
  | some old ↦ with_data (erase key g.g_data) (destroy old g)
]

-- The insertion: where it fails the unique pointer destroys the data.
unfoldable pub register : Bool → ℕ → ℕ → Registry → VkResult × Registry
unfolding destroy try_insert
register inserted key d g =
    let (result, m) = try_insert inserted key d g.g_data in
    elim result [
      | none ↦ (error_out_of_host_memory, destroy d (with_data m g))
      | some b ↦ (success, with_data m g)
    ]

-- `instance_private_data::associate`: `allocation` is the data that `make_unique` creates, or null,
-- and `inserted` says whether the element of the map can be allocated.
unfoldable pub associate_instance : (ℕ → ℕ) → Option ℕ → Bool → ℕ → Registry → VkResult × Registry
unfolding displace register
associate_instance get_key none inserted handle g = (error_out_of_host_memory, g)
associate_instance get_key (some d) inserted handle g =
    register inserted (get_key handle) d (displace (get_key handle) (with_created d g))

-- `instance_private_data::disassociate`.
unfoldable pub disassociate_instance : (ℕ → ℕ) → ℕ → Registry → Registry
unfolding destroy
disassociate_instance get_key handle g = elim (find (get_key handle) g.g_data) [
  | none ↦ g
  | some d ↦ destroy d (with_data (erase (get_key handle) g.g_data) g)
]

-- `instance_private_data::get`, of any dispatchable object of the instance: `none` is the exception
-- of `at`.
unfoldable pub get_instance : (ℕ → ℕ) → ℕ → Registry → Option ℕ
get_instance get_key handle g = find (get_key handle) g.g_data

-- The operations for devices, whose code is a copy of the code for instances.
unfoldable pub associate_device : (ℕ → ℕ) → Option ℕ → Bool → ℕ → Registry → VkResult × Registry
unfolding associate_instance
associate_device get_key allocation inserted handle g =
    associate_instance get_key allocation inserted handle g

unfoldable pub disassociate_device : (ℕ → ℕ) → ℕ → Registry → Registry
unfolding disassociate_instance
disassociate_device get_key handle g = disassociate_instance get_key handle g

unfoldable pub get_device : (ℕ → ℕ) → ℕ → Registry → Option ℕ
unfolding get_instance
get_device get_key handle g = get_instance get_key handle g

-- How often a number occurs in a list, and a datum in a map.
abbrev pub occurrences : ℕ → List ℕ → ℕ
occurrences n [] = 0
occurrences n (x ∷ xs) = (if n == x then 1 else 0) + occurrences n xs

abbrev pub registrations : ℕ → UnorderedMap ℕ → ℕ
registrations d [] = 0
registrations d ((k, e) ∷ m) = (if d == e then 1 else 0) + registrations d m

occurrences-append :
    (n : ℕ) (xs ys : List ℕ) → occurrences n (xs ++ ys) ≡ occurrences n xs + occurrences n ys
occurrences-append n [] ys = ground arith
occurrences-append n (x ∷ xs) ys = ground (arith, occurrences-append n xs ys)

registrations-erase :
    (d k v : ℕ) (m : UnorderedMap ℕ)
    → find k m ≡ some v
    → registrations d m ≡ (if d == v then 1 else 0) + registrations d (erase k m)
registrations-erase d k v [] h = ground arith
registrations-erase d k v ((j, e) ∷ m) h = ground (arith, registrations-erase d k v m)

-- One call of the layer on the map.
pub data Step : Type 0 where
  associate : (allocation : Option ℕ) (inserted : Bool) (handle : ℕ) → Step
  disassociate : (handle : ℕ) → Step

unfoldable pub step : (ℕ → ℕ) → Step → Registry → Registry
unfolding associate_instance disassociate_instance
step get_key (associate allocation inserted handle) g =
    (associate_instance get_key allocation inserted handle g).1
step get_key (disassociate handle) g = disassociate_instance get_key handle g

abbrev pub run : (ℕ → ℕ) → List Step → Registry → Registry
run get_key [] g = g
run get_key (s ∷ ss) g = run get_key ss (step get_key s g)

-- No key is registered twice, and a datum is destroyed or registered as often as it was created, but
-- for a number of times.
Balance : ℕ → ℕ → Registry → Type 0
Balance n d g =
    Unique g.g_data
    × (occurrences d g.created ≡ n + registrations d g.g_data + occurrences d g.destroyed)

abbrev pub no_data : Registry
no_data = record { g_data = []; created = []; destroyed = [] }

displace-Balance :
    (n k d : ℕ) (g : Registry)
    → Balance n d g
    → Balance n d (displace k g) × (find k (displace k g).g_data ≡ none)
unfolding Balance displace destroy
displace-Balance n k d g (u, h) = elim (Option-cases (find k g.g_data)) [
  | inl y ↦ ground arith
  | inr (v, y) ↦ ground (
    arith,
    registrations-erase d k v g.g_data,
    occurrences-append d g.destroyed (v ∷ []),
    erase-Unique k g.g_data u,
    find-erase_self k g.g_data u,
  )
]

register-Balance :
    (inserted : Bool) (k d e : ℕ) (g : Registry)
    → Balance (if d == e then 1 else 0) d g
    → find k g.g_data ≡ none
    → Balance 0 d (register inserted k e g).1
unfolding Balance register destroy try_insert
register-Balance inserted k d e g (u, h) y =
    ground (arith, occurrences-append d g.destroyed (e ∷ []))

created-Balance :
    (d e : ℕ) (g : Registry)
    → Balance 0 d g
    → Balance (if d == e then 1 else 0) d (with_created e g)
unfolding Balance
created-Balance d e g (u, h) = ground (arith, occurrences-append d g.created (e ∷ []))

disassociate-Balance :
    (get_key : ℕ → ℕ) (handle d : ℕ) (g : Registry)
    → Balance 0 d g
    → Balance 0 d (disassociate_instance get_key handle g)
unfolding disassociate_instance displace destroy
disassociate-Balance get_key handle d g b =
    ground (arith, displace-Balance 0 (get_key handle) d g b)

step-Balance :
    (get_key : ℕ → ℕ) (s : Step) (d : ℕ) (g : Registry)
    → Balance 0 d g
    → Balance 0 d (step get_key s g)
unfolding step associate_instance
step-Balance get_key (associate none inserted handle) d g b = b
step-Balance get_key (associate (some e) inserted handle) d g b =
    let key = get_key handle in
    let g' = with_created e g in
    let (c, y) = displace-Balance (if d == e then 1 else 0) key d g' (created-Balance d e g b) in
    register-Balance inserted key d e (displace key g') c y
step-Balance get_key (disassociate handle) d g b = disassociate-Balance get_key handle d g b

run-Balance :
    (get_key : ℕ → ℕ) (ss : List Step) (d : ℕ) (g : Registry)
    → Balance 0 d g
    → Balance 0 d (run get_key ss g)
run-Balance get_key [] d g b = b
run-Balance get_key (s ∷ ss) d g b =
    run-Balance get_key ss d (step get_key s g) (step-Balance get_key s d g b)

-- After any sequence of associations and disassociations from no data at all, whichever of their
-- allocations fail, every datum that was created is registered or was destroyed, once for each
-- time that it was created: none is lost, and none is destroyed while it is registered.
pub data_accounted :
    (get_key : ℕ → ℕ) (ss : List Step) (d : ℕ)
    → occurrences d (run get_key ss no_data).created
      ≡ registrations d (run get_key ss no_data).g_data
        + occurrences d (run get_key ss no_data).destroyed
unfolding Balance
data_accounted get_key ss d = omega (arith, (run-Balance get_key ss d no_data (tt, refl)).1)

-- An association on a key without data: success registers the data, and an error leaves none.
pub associated :
    (get_key : ℕ → ℕ) (allocation : Option ℕ) (inserted : Bool) (handle : ℕ) (g : Registry)
    → find (get_key handle) g.g_data ≡ none
    → find (get_key handle) (associate_device get_key allocation inserted handle g).1.g_data ≡ (
        if is_success (associate_device get_key allocation inserted handle g).0
        then allocation
        else none)
unfolding associate_device associate_instance register displace try_insert destroy
associated get_key none inserted handle g n = ground arith
associated get_key (some d) inserted handle g n = ground arith

-- A success is an allocation of the data.
pub associated_data :
    (get_key : ℕ → ℕ) (allocation : Option ℕ) (inserted : Bool) (handle : ℕ) (g : Registry)
    → is_success (associate_device get_key allocation inserted handle g).0 ≡ true
    → allocation ≢ none
unfolding associate_device associate_instance
associated_data get_key none inserted handle g e = ground arith
associated_data get_key (some d) inserted handle g e = ground arith

pub associate-Unique :
    (get_key : ℕ → ℕ) (allocation : Option ℕ) (inserted : Bool) (handle : ℕ) (g : Registry)
    → Unique g.g_data
    → find (get_key handle) g.g_data ≡ none
    → Unique (associate_device get_key allocation inserted handle g).1.g_data
unfolding associate_device associate_instance register displace try_insert destroy
associate-Unique get_key none inserted handle g u n = u
associate-Unique get_key (some d) inserted handle g u n = ground arith

pub disassociated :
    (get_key : ℕ → ℕ) (handle : ℕ) (g : Registry)
    → Unique g.g_data
    → find (get_key handle) (disassociate_device get_key handle g).g_data ≡ none
unfolding disassociate_device disassociate_instance destroy
disassociated get_key handle g u = ground (arith, find-erase_self (get_key handle) g.g_data u)
