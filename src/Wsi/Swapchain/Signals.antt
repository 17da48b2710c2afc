-- ===== src/Wsi/Swapchain/Signals.antt =====
-- wsi/swapchain_base.cpp: what `acquire_next_image` signals.
use rk_vulkan_wsi_layer.Prelude.{ℕ, ◌+◌, ◌≤◌, ◌≡◌, Bool, true, false, List, [], ◌∷◌, arith}
use rk_vulkan_wsi_layer.Vulkan.{success}
use rk_vulkan_wsi_layer.Wsi.Swapchain.Acquire.{
  Signal, fence_imported, semaphore_imported, submitted, SignalAnswers, signal_acquired,
}

abbrev bit : Bool → ℕ
bit true = 1
bit false = 0

-- How often a list of signals signals the fence, and the semaphore.
abbrev pub fence_signals : List Signal → ℕ
fence_signals [] = 0
fence_signals (fence_imported ∷ ss) = 1 + fence_signals ss
fence_signals (semaphore_imported ∷ ss) = fence_signals ss
fence_signals (submitted f s ∷ ss) = bit f + fence_signals ss

abbrev pub semaphore_signals : List Signal → ℕ
semaphore_signals [] = 0
semaphore_signals (fence_imported ∷ ss) = semaphore_signals ss
semaphore_signals (semaphore_imported ∷ ss) = 1 + semaphore_signals ss
semaphore_signals (submitted f s ∷ ss) = bit s + semaphore_signals ss

-- When the signalling part of an acquisition succeeds, the fence and the semaphore have each been
-- signalled exactly once if they were given, by an import or by a submission, and never otherwise.
pub signalled_once :
    (a : SignalAnswers) (fence semaphore : Bool)
    → (signal_acquired a fence semaphore).0 ≡ success
    → (fence_signals (signal_acquired a fence semaphore).1 ≡ bit fence)
      × (semaphore_signals (signal_acquired a fence semaphore).1 ≡ bit semaphore)
unfolding signal_acquired
signalled_once a fence semaphore h = ground arith

-- Whatever the driver answers, neither is signalled more than once.
pub signalled_at_most_once :
    (a : SignalAnswers) (fence semaphore : Bool)
    → (fence_signals (signal_acquired a fence semaphore).1 ≤ bit fence)
      × (semaphore_signals (signal_acquired a fence semaphore).1 ≤ bit semaphore)
unfolding signal_acquired
signalled_at_most_once a fence semaphore = ground arith
