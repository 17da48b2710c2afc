-- ===== src/Util/UnorderedMap.antt =====
-- util/unordered_map.hpp and util/unordered_set.hpp: the maps and the sets of the layer, with the
-- operations of the standard library's that the code calls. An element is a pair of a key and a
-- value; the order in which the standard library keeps the elements is no part of the model.
use rk_vulkan_wsi_layer.Prelude.{
  ℕ, ◌≡◌, ◌≢◌, refl, Bool, true, false, List, [], ◌∷◌, Option, none, some, ◌==◌, if◌then◌else◌,
  arith,
}

abbrev pub UnorderedMap {ℓ} : Type ℓ → Type ℓ
UnorderedMap V = List (ℕ × V)

module _ {ℓ} {V : Type ℓ} where
  -- `find` and what its iterator refers to.
  abbrev pub find : ℕ → UnorderedMap V → Option V
  find k [] = none
  find k ((j, v) ∷ m) = if k == j then some v else find k m

  -- `erase`, of a key or of what `find` has found.
  abbrev pub erase : ℕ → UnorderedMap V → UnorderedMap V
  erase k [] = []
  erase k ((j, v) ∷ m) = if k == j then m else (j, v) ∷ erase k m

  -- The assignment through an iterator to the element of a key.
  abbrev pub assign : ℕ → V → UnorderedMap V → UnorderedMap V
  assign k v [] = []
  assign k v ((j, w) ∷ m) = if k == j then (j, v) ∷ m else (j, w) ∷ assign k v m

  -- `find(k) != end()`.
  abbrev pub holds : ℕ → UnorderedMap V → Bool
  holds k m = elim (find k m) [ none ↦ false | some v ↦ true ]

  -- `try_insert`: `none` where the element cannot be allocated, else whether it was inserted. The
  -- allocation precedes the search for the key.
  unfoldable pub try_insert : Bool → ℕ → V → UnorderedMap V → Option Bool × UnorderedMap V
  try_insert allocated k v m =
      if allocated
      then (if holds k m then (some false, m) else (some true, (k, v) ∷ m))
      else (none, m)

  -- No key has two elements.
  abbrev pub Unique : UnorderedMap V → Type ℓ
  Unique [] = Unit
  Unique ((k, v) ∷ m) = (find k m ≡ none) × Unique m

  pub find-erase_ne : (j k : ℕ) (m : UnorderedMap V) → j ≢ k → find j (erase k m) ≡ find j m
  find-erase_ne j k [] h = refl
  find-erase_ne j k ((i, v) ∷ m) h = ground (arith, find-erase_ne j k m h)

  pub find-erase_self : (k : ℕ) (m : UnorderedMap V) → Unique m → find k (erase k m) ≡ none
  find-erase_self k [] u = refl
  find-erase_self k ((i, v) ∷ m) (n, u) = ground (arith, find-erase_self k m u)

  find-erase-none : (j k : ℕ) (m : UnorderedMap V) → find j m ≡ none → find j (erase k m) ≡ none
  find-erase-none j k [] h = refl
  find-erase-none j k ((i, v) ∷ m) h = ground (arith, find-erase-none j k m)

  pub erase-Unique : (k : ℕ) (m : UnorderedMap V) → Unique m → Unique (erase k m)
  erase-Unique k [] u = tt
  erase-Unique k ((i, v) ∷ m) (n, u) = ground (arith, find-erase-none i k m n, erase-Unique k m u)

  -- A key that is not found leaves the map as it is.
  pub erase-absent : (k : ℕ) (m : UnorderedMap V) → find k m ≡ none → erase k m ≡ m
  erase-absent k [] h = refl
  erase-absent k ((i, v) ∷ m) h = ground (arith, erase-absent k m)

  pub try_insert-Unique :
      (a : Bool) (k : ℕ) (v : V) (m : UnorderedMap V) → Unique m → Unique (try_insert a k v m).1
  unfolding try_insert
  try_insert-Unique a k v m u = ground arith
