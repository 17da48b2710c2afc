-- ===== src/Util/RingBuffer/Run.antt =====
-- util/ring_buffer.hpp: every sequence of calls, against a bounded first-in first-out queue.
use rk_vulkan_wsi_layer.Prelude.{
  ℕ, ◌≡◌, refl, Bool, true, false, List, [], ◌∷◌, ◌++◌, Option, none, some, arith, length, ltb,
}
use rk_vulkan_wsi_layer.Util.RingBuffer.{RingBuffer, push_back, pop_front}
use rk_vulkan_wsi_layer.Util.RingBuffer.Queue.{
  Holds, push_back-Holds, push_back-full, pop_front-empty, pop_front-Holds,
}

-- A client's calls, with what each returns.
pub data Op (T : Type 0) : Type 0 where
  push : T → Op T
  pop : Op T

pub data Reply (T : Type 0) : Type 0 where
  pushed : Bool → Reply T
  popped : Option T → Reply T

module _ {T : Type 0} (N : ℕ) where
  unfoldable pub run : RingBuffer T → List (Op T) → List (Reply T)
  run r [] = []
  run r (push x ∷ ops) = let (b, r') = push_back N r x in pushed b ∷ run r' ops
  run r (pop ∷ ops) = let (o, r') = pop_front N r in popped o ∷ run r' ops

  -- The specification: a list of at most `N` items.
  pub run_queue : List T → List (Op T) → List (Reply T)
  run_queue xs [] = []
  run_queue xs (push x ∷ ops) = elim (ltb (length xs) N) [
    | true ↦ pushed true ∷ run_queue (xs ++ x ∷ []) ops
    | false ↦ pushed false ∷ run_queue xs ops
  ]
  run_queue [] (pop ∷ ops) = popped none ∷ run_queue [] ops
  run_queue (x ∷ xs) (pop ∷ ops) = popped (some x) ∷ run_queue xs ops

  -- Every sequence of pushes and pops has the same replies from a ring that holds `xs` as from the
  -- queue `xs` of at most `N` items.
  pub run_refines :
      (ops : List (Op T)) (r : RingBuffer T) (xs : List T)
      → Holds N r xs
      → run r ops ≡ run_queue xs ops
  unfolding run run_queue
  run_refines [] r xs h = refl
  run_refines (push x ∷ ops) r xs h = ground (
    arith,
    push_back-Holds N h x,
    push_back-full N h x,
    run_refines ops (push_back N r x).1 (xs ++ x ∷ []),
    run_refines ops r xs h,
  )
  run_refines (pop ∷ ops) r [] h = rw (pop_front-empty N h, run_refines ops r [] h)
  run_refines (pop ∷ ops) r (x ∷ xs) h =
      let (e, t) = pop_front-Holds N x xs h in rw (e, run_refines ops (pop_front N r).1 xs t)
