-- ===== src/Util/TimedSemaphore.antt =====
-- util/timed_semaphore.hpp and timed_semaphore.cpp: a counting semaphore over a condition variable.
-- A call that sleeps is two steps under the mutex: `wait_enter` up to the sleep and `wait_wake`
-- after it. The mutex and the condition variable have no state of their own here: which thread is
-- woken, and whether a timed sleep ran out, is an argument.
pub mod Deadline
pub mod Waiters
use rk_vulkan_wsi_layer.Prelude.{
  ℕ, ◌+◌, ◌-◌, ◌*◌, ◌/◌, ◌%◌, ◌^◌, ◌<◌, ◌≡◌, arith, Bool, true, false, Option, none, some, u32,
  sub_u32, leb, ◌==◌, if◌then◌else◌,
}
use rk_vulkan_wsi_layer.Vulkan.{VkResult, success, not_ready, timeout, error_out_of_host_memory}

pub record TimedSemaphore : Type 0 where
  pub initialized : Bool
  pub count : ℕ

pub record Timespec : Type 0 where
  pub tv_sec : ℕ
  pub tv_nsec : ℕ

abbrev pub nanos_per_sec : ℕ
nanos_per_sec = 1000 * 1000 * 1000

abbrev pub uint64_max : ℕ
uint64_max = 2 ^ 64 - 1

-- The two booleans say whether `pthread_condattr_init` and `pthread_cond_init` succeed.
unfoldable pub init : Bool → Bool → ℕ → TimedSemaphore → VkResult × TimedSemaphore
init attr_ok cond_ok n s =
    if attr_ok
    then (if cond_ok
        then (success, record { initialized = true; count = n })
        else (error_out_of_host_memory, record s { count = n }))
    else (error_out_of_host_memory, record s { count = n })

-- What a wait does before it sleeps: it is done, or it sleeps, until a deadline if there is one.
pub data Entered : Type 0 where
  done : VkResult → TimedSemaphore → Entered
  sleeps : Option Timespec → Entered

-- `end`: the sum of the clock and the timeout. `time_t` is wide enough for the seconds.
unfoldable pub deadline : Timespec → ℕ → Timespec
deadline now t =
    if leb nanos_per_sec (now.tv_nsec + t % nanos_per_sec)
    then record {
      tv_sec = now.tv_sec + t / nanos_per_sec + 1;
      tv_nsec = now.tv_nsec + t % nanos_per_sec - nanos_per_sec;
    }
    else record {
      tv_sec = now.tv_sec + t / nanos_per_sec;
      tv_nsec = now.tv_nsec + t % nanos_per_sec;
    }

unfoldable pub wait_enter : Timespec → ℕ → TimedSemaphore → Entered
unfolding deadline
wait_enter now t s =
    if s.count == 0
    then (if t == 0
        then done not_ready s
        else (if t == uint64_max then sleeps none else sleeps (some (deadline now t))))
    else done success (record s { count = sub_u32 s.count 1 })

-- The rest of the call, on the semaphore as it is when the mutex is held again.
unfoldable pub wait_wake : Bool → TimedSemaphore → VkResult × TimedSemaphore
wait_wake timed_out s =
    if timed_out then (timeout, s) else (success, record s { count = sub_u32 s.count 1 })

unfoldable pub post : TimedSemaphore → TimedSemaphore
post s = record s { count = u32 (s.count + 1) }

-- A wait that ends at once with success has found a positive count, and has taken one.
pub wait_enter-success :
    (now : Timespec) (t : ℕ) (s s' : TimedSemaphore)
    → wait_enter now t s ≡ done success s'
    → (0 < s.count) × (s' ≡ record s { count = sub_u32 s.count 1 })
unfolding wait_enter
wait_enter-success now t s s' h = ground arith
