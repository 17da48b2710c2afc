-- ===== src/Wsi/System/Invariant/Wakes.antt =====
-- util/timed_semaphore.cpp under wsi/swapchain_base.cpp: the steps of a thread that sleeps at a semaphore
-- of the swapchain keep the balance.
use rk_vulkan_wsi_layer.Prelude.{◌+◌, ◌<◌, ◌≡◌, List, arith}
use rk_vulkan_wsi_layer.Util.TimedSemaphore.{wait_wake}
use rk_vulkan_wsi_layer.Util.TimedSemaphore.Waiters.{Waiter}
use rk_vulkan_wsi_layer.Wsi.Swapchain.{PendingPresentRequest}
use rk_vulkan_wsi_layer.Wsi.System.{System, waiting, acquirer_woken, flipper_woken}
use rk_vulkan_wsi_layer.Wsi.System.Invariant.Steps.{Balanced, counts_le}

module _ {s : System} {queue : List PendingPresentRequest} (b : Balanced s queue) where
  open b use {no_refresh, room, tokens, pool, named, waiting_requests, signals}

  -- The balance does not speak of who sleeps at a semaphore.
  pub relabel-Balanced : (v w : Waiter) → Balanced (record s { acquirer = v; flipper = w }) queue
  relabel-Balanced v w = record {
    no_refresh = no_refresh;
    room = room;
    tokens = tokens;
    pool = pool;
    named = named;
    waiting_requests = waiting_requests;
    signals = signals;
  }

  -- After a spurious wake-up nothing is said of the counts.
  pub errs_free-Balanced : Balanced (record (acquirer_woken s) { spurious = s.spurious + 1 }) queue
  errs_free-Balanced = record {
    no_refresh = no_refresh;
    room = room;
    tokens = λ z. absurd (omega (arith, z));
    pool = pool;
    named = named;
    waiting_requests = waiting_requests;
    signals = λ z. absurd (omega (arith, z));
  }

  pub errs_flip-Balanced :
      s.flip ≡ waiting → Balanced (record (flipper_woken s) { spurious = s.spurious + 1 }) queue
  errs_flip-Balanced w = record {
    no_refresh = no_refresh;
    room = room;
    tokens = λ z. absurd (omega (arith, z));
    pool = pool;
    named = λ i. ground (arith, named i);
    waiting_requests = ground arith;
    signals = λ z. absurd (omega (arith, z));
  }

  -- A thread that was signalled takes a count, where there is one unless a wake-up was spurious.
  pub wakes_free-Balanced :
      (s.spurious ≡ 0 → 0 < s.sc.free_image_semaphore.count) → Balanced (acquirer_woken s) queue
  unfolding wait_wake
  wakes_free-Balanced p = record {
    no_refresh = no_refresh;
    room = room;
    tokens = λ z. omega (arith, tokens z, p z, counts_le b);
    pool = pool;
    named = named;
    waiting_requests = waiting_requests;
    signals = signals;
  }

  pub wakes_flip-Balanced :
      s.flip ≡ waiting
      → (s.spurious ≡ 0 → 0 < s.sc.page_flip_semaphore.count)
      → Balanced (flipper_woken s) queue
  unfolding wait_wake
  wakes_flip-Balanced w p = record {
    no_refresh = no_refresh;
    room = room;
    tokens = tokens;
    pool = pool;
    named = λ i. ground (arith, named i);
    waiting_requests = ground arith;
    signals = λ z. ground (arith, signals z, p z, counts_le b);
  }
