-- ===== src/Util/RingBuffer.antt =====
-- util/ring_buffer.hpp: a queue in an array of `N` optional items.
pub mod Queue
pub mod Run
use rk_vulkan_wsi_layer.Prelude.{
  ℕ, ◌+◌, ◌-◌, ◌%◌, ◌^◌, Bool, true, false, List, Option, none, some, get_or, set, replicate, u64,
  sub_u64, ◌==◌, if◌then◌else◌,
}

-- `m_data`, `m_begin` and `m_size`.
pub record RingBuffer {ℓ} (T : Type ℓ) : Type ℓ where
  pub slots : List (Option T)
  pub begin : ℕ
  pub size : ℕ

unfoldable pub capacity : ℕ → ℕ
capacity N = N

module _ {ℓ} {T : Type ℓ} (N : ℕ) where
  -- The value-initialised members.
  unfoldable pub empty : RingBuffer T
  empty = record { slots = replicate N none; begin = 0; size = 0 }

  unfoldable pub push_back : RingBuffer T → T → Bool × RingBuffer T
  unfolding capacity
  push_back r item = if r.size == capacity N then (false, r) else (
    true,
    record r {
      slots = set r.slots (u64 (r.begin + r.size) % N) (some item);
      size = u64 (r.size + 1);
    },
  )

  -- `get`: a null pointer is `none`. An index past the array is excluded by the callers.
  unfoldable pub get : RingBuffer T → ℕ → Option T
  get r index = get_or r.slots index none

  unfoldable pub front : RingBuffer T → Option T
  unfolding get
  front r = get r r.begin

  unfoldable pub back : RingBuffer T → Option T
  unfolding get
  back r = get r (sub_u64 (u64 (u64 (r.begin + r.size) + N)) 1 % N)

  -- A `std::optional` that is moved from keeps its value, so the slot stays engaged.
  unfoldable pub pop_front : RingBuffer T → Option T × RingBuffer T
  unfolding get
  pop_front r =
      if r.size == 0
      then (none, r)
      else (get r r.begin, record r { begin = u64 (r.begin + 1) % N; size = sub_u64 r.size 1 })
