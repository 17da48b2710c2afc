-- ===== src/Util/TimedSemaphore/Deadline.antt =====
-- util/timed_semaphore.cpp: the deadline of a timed wait.
use rk_vulkan_wsi_layer.Prelude.{ℕ, ◌+◌, ◌*◌, ◌<◌, ◌≡◌, arith}
use rk_vulkan_wsi_layer.Util.TimedSemaphore.{Timespec, nanos_per_sec, deadline}

-- The nanoseconds that a time stands for.
abbrev pub nanos : Timespec → ℕ
nanos t = t.tv_sec * nanos_per_sec + t.tv_nsec

-- From a normalised clock reading, the deadline is normalised, and lies exactly the timeout later.
pub deadline_exact :
    (now : Timespec) (t : ℕ)
    → now.tv_nsec < nanos_per_sec
    → ((deadline now t).tv_nsec < nanos_per_sec) × (nanos (deadline now t) ≡ nanos now + t)
unfolding deadline
deadline_exact now t h = ground arith
