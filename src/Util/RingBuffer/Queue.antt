-- ===== src/Util/RingBuffer/Queue.antt =====
-- util/ring_buffer.hpp against a bounded first-in first-out queue.
use rk_vulkan_wsi_layer.Prelude.{
  ℕ, suc, ◌+◌, ◌-◌, ◌%◌, ◌^◌, ◌≤◌, ◌<◌, ◌≡◌, refl, ap, ◌∙◌, sym, ◌≢◌, true, false, List, [], ◌∷◌,
  ◌++◌, none, some, arith, dec_lt, length, get_elem?, get_or, set, length-set, length-replicate,
  length-append, get_or-set_self, get_or-set_ne, get_elem?-append_left, get_elem?-append_last, u64,
  sub_u64, ==-ne,
}
use native.Mathlib.Nat.{mod-eq_of_lt, mod-eq-sub-mod, mod-lt, mod-add-mod, mod_self, add-mod_right}
use rk_vulkan_wsi_layer.Util.RingBuffer.{RingBuffer, empty, push_back, get, front, back, pop_front}

module _ {ℓ} {T : Type ℓ} (N : ℕ) where
  -- The ring holds `xs`, oldest first.
  pub record Holds (r : RingBuffer T) (xs : List T) : Type ℓ where
    pub positive : 0 < N
    pub small : N ≤ 2 ^ 32
    pub slots_len : length r.slots ≡ N
    pub begin_lt : r.begin < N
    pub size_le : r.size ≤ N
    pub len : length xs ≡ r.size
    pub items : (i : ℕ) → i < r.size → get_or r.slots ((r.begin + i) % N) none ≡ get_elem? xs i

-- An index that goes round the array.
pub wrap_lt : (N b i : ℕ) → b < N → i ≤ N → b + i < N → (b + i) % N ≡ b + i
wrap_lt N b i hb hi h = omega (arith, mod-eq_of_lt h)

pub wrap_ge : (N b i : ℕ) → b < N → i < N → N ≤ b + i → (b + i) % N ≡ b + i - N
wrap_ge N b i hb hi h = omega (
  arith,
  mod-eq-sub-mod {n = b + i} {m = N} h,
  mod-eq_of_lt {n = b + i - N} {m = N} (omega arith),
)

pub wrap_ne : (N b i j : ℕ) → b < N → i < j → j < N → (b + j) % N ≢ (b + i) % N
wrap_ne N b i j hb hi hj =
    ground (arith, wrap_lt N b j, wrap_lt N b i, wrap_ge N b j, wrap_ge N b i)

back_wraps : (N b : ℕ) → b < N → ((b + 1) % N + N - 1) % N ≡ b
back_wraps N b hb = elim (dec_lt (b + 1) N) [
  | yes p ↦
      rw (mod-eq_of_lt p)
        (let e : b + 1 + N - 1 ≡ b + N = omega arith in rw e (add-mod_right b N ∙ mod-eq_of_lt hb))
  | no p ↦
      let e : b + 1 ≡ N = omega arith in rw (e, mod_self) (mod-eq_of_lt (omega arith) ∙ omega arith)
]

module _ {ℓ} {T : Type ℓ} (N : ℕ) where
  -- A new ring holds nothing.
  pub empty-Holds : 0 < N → N ≤ 2 ^ 32 → Holds {T = T} N (empty N) []
  unfolding empty
  empty-Holds p s = record {
    positive = p;
    small = s;
    slots_len = length-replicate N none;
    begin_lt = p;
    size_le = omega arith;
    len = refl;
    items = λ i h. elim h [ ];
  }

  module _ {r : RingBuffer T} {xs : List T} (h : Holds N r xs) (x : T) where
    -- The ring after a push, with the sums as they are where no word wraps.
    abbrev pushed : RingBuffer T
    pushed = record {
      slots = set r.slots ((r.begin + r.size) % N) (some x);
      begin = r.begin;
      size = r.size + 1;
    }

    push_back_lem : r.size < N → push_back N r x ≡ (true, pushed)
    unfolding push_back
    push_back_lem lt = rw (==-ne r.size N (omega arith)) (
        let e : u64 (r.begin + r.size) ≡ r.begin + r.size = omega arith in
        let f : u64 (r.size + 1) ≡ r.size + 1 = omega arith in rw (e, f))

    pushed_items :
        r.size < N
        → (i : ℕ) → i < r.size + 1
        → get_or pushed.slots ((r.begin + i) % N) none ≡ get_elem? (xs ++ x ∷ []) i
    pushed_items lt i hi = elim (dec_lt i r.size) [
      | yes p ↦
          get_or-set_ne r.slots _ _ (some x) none (wrap_ne N r.begin i r.size h.begin_lt p lt)
          ∙ h.items i p
          ∙ sym (get_elem?-append_left xs x i (omega (arith, h.len)))
      | no p ↦
          let e : i ≡ r.size = omega arith in
          rw e (
            get_or-set_self r.slots _ (some x) none (rw h.slots_len (mod-lt _ h.positive))
            ∙ sym (get_elem?-append_last xs x r.size (sym h.len)))
    ]

    pushed-Holds : r.size < N → Holds N pushed (xs ++ x ∷ [])
    pushed-Holds lt = record {
      positive = h.positive;
      small = h.small;
      slots_len = length-set r.slots _ (some x) ∙ h.slots_len;
      begin_lt = h.begin_lt;
      size_le = omega arith;
      len = omega (arith, length-append xs (x ∷ []), h.len);
      items = pushed_items lt;
    }

    -- A push below the capacity succeeds and puts the item behind the others.
    pub push_back-Holds :
        r.size < N → ((push_back N r x).0 ≡ true) × Holds N (push_back N r x).1 (xs ++ x ∷ [])
    push_back-Holds lt = rw (push_back_lem lt) (refl, pushed-Holds lt)

    -- At the capacity a push is refused and changes nothing.
    pub push_back-full : r.size ≡ N → push_back N r x ≡ (false, r)
    unfolding push_back
    push_back-full e = ground arith

  pub pop_front-empty : {r : RingBuffer T} → Holds N r [] → pop_front N r ≡ (none, r)
  unfolding pop_front
  pop_front-empty h = ground (arith, h.len)

  module _ {r : RingBuffer T} (x : T) (xs : List T) (h : Holds N r (x ∷ xs)) where
    abbrev popped : RingBuffer T
    popped = record { slots = r.slots; begin = (r.begin + 1) % N; size = r.size - 1 }

    first_item : get_or r.slots r.begin none ≡ some x
    first_item =
        let e : (r.begin + 0) % N ≡ r.begin =
          wrap_lt N r.begin 0 h.begin_lt (omega arith) (omega arith) ∙ omega arith in
        rw e at (h.items 0 (omega (arith, h.len)))

    pop_front_lem : pop_front N r ≡ (some x, popped)
    unfolding pop_front
    pop_front_lem = rw (==-ne r.size 0 (omega (arith, h.len))) (
        let e : u64 (r.begin + 1) ≡ r.begin + 1 = omega (arith, h.begin_lt, h.small) in
        let f : sub_u64 r.size 1 ≡ r.size - 1 = omega (arith, h.len, h.size_le, h.small) in
        rw (e, f, first_item))

    popped_items :
        (i : ℕ)
        → i < r.size - 1
        → get_or r.slots (((r.begin + 1) % N + i) % N) none ≡ get_elem? xs i
    popped_items i hi =
        let e : ((r.begin + 1) % N + i) % N ≡ (r.begin + suc i) % N =
          mod-add-mod (r.begin + 1) N i ∙ ap (λ k. k % N) (omega arith) in
        rw e (h.items (suc i) (omega arith))

    pub popped-Holds : Holds N popped xs
    popped-Holds = record {
      positive = h.positive;
      small = h.small;
      slots_len = h.slots_len;
      begin_lt = mod-lt _ h.positive;
      size_le = omega (arith, h.size_le);
      len = omega (arith, h.len);
      items = popped_items;
    }

    -- A pop returns the oldest item and leaves the others.
    pub pop_front-Holds : ((pop_front N r).0 ≡ some x) × Holds N (pop_front N r).1 xs
    pop_front-Holds = rw pop_front_lem (refl, popped-Holds)

    -- `front` points at the oldest item.
    pub front-Holds : front N r ≡ some x
    unfolding front get
    front-Holds = first_item

  module _ {r : RingBuffer T} (x : T) (xs : List T) (h : Holds N r (x ∷ xs)) where
    -- After the last item is popped, `back` still points at it: the slot is not emptied.
    pub back-pop_front : r.size ≡ 1 → back N (pop_front N r).1 ≡ some x
    unfolding back get
    back-pop_front one =
        let m : (r.begin + 1) % N < N = mod-lt _ h.positive in
        let z : r.size - 1 ≡ 0 = omega arith in
        let e : sub_u64 (u64 (u64 ((r.begin + 1) % N + 0) + N)) 1 ≡ (r.begin + 1) % N + N - 1 =
          omega (arith, h.small) in
        rw (pop_front_lem x xs h, z, e, back_wraps N r.begin h.begin_lt) (first_item x xs h)

  module _ {r : RingBuffer T} (xs : List T) (x : T) (h : Holds N r (xs ++ x ∷ [])) where
    -- `back` points at the newest item.
    pub back-Holds : back N r ≡ some x
    unfolding back get
    back-Holds =
        let l : length xs + 1 ≡ r.size = omega (arith, h.len, length-append xs (x ∷ [])) in
        let e : sub_u64 (u64 (u64 (r.begin + r.size) + N)) 1 ≡ (r.begin + length xs) + N =
          omega (arith, h.small, h.begin_lt, h.size_le) in
        rw (e, add-mod_right)
          (h.items (length xs) (omega arith) ∙ get_elem?-append_last xs x (length xs) refl)
