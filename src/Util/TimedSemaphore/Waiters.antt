-- ===== src/Util/TimedSemaphore/Waiters.antt =====
-- util/timed_semaphore.cpp: one waiting thread and any number of posting threads, interleaved.
-- A sleeper wakes by the signal of a post, by its deadline, or spuriously: POSIX lets the waits on a
-- condition variable return without a signal.
use rk_vulkan_wsi_layer.Prelude.{
  ℕ, ◌+◌, ◌-◌, ◌^◌, ◌≤◌, ◌<◌, ◌≡◌, refl, sym, ◌∙◌, ap, true, false, arith,
}
use rk_vulkan_wsi_layer.Vulkan.{VkResult, success}
use rk_vulkan_wsi_layer.Util.TimedSemaphore.{
  TimedSemaphore, Timespec, Entered, done, sleeps, wait_enter, wait_wake, post,
}

pub data Waiter : Type 0 where
  idle asleep signalled : Waiter

-- The semaphore, its waiter, and how many posts, successful waits and spurious wake-ups there have been.
pub record Sys : Type 0 where
  pub sem : TimedSemaphore
  pub waiter : Waiter
  pub posts : ℕ
  pub takes : ℕ
  pub spurious : ℕ

-- `pthread_cond_signal` wakes the sleeper, if there is one.
abbrev pub signal : Waiter → Waiter
signal asleep = signalled
signal w = w

abbrev count_take : VkResult → ℕ → ℕ
count_take success n = n + 1
count_take _ n = n

abbrev enter : Sys → Entered → Sys
enter s (done r sem) = record s { sem = sem; takes = count_take r s.takes }
enter s (sleeps d) = record s { waiter = asleep }

abbrev wake : Sys → VkResult × TimedSemaphore → Sys
wake s (r, sem) = record s { sem = sem; waiter = idle; takes = count_take r s.takes }

pub data Step (s : Sys) : Sys → Type 0 where
  posts : Step s (record s { sem = post s.sem; waiter = signal s.waiter; posts = s.posts + 1 })
  enters : (now : Timespec) (t : ℕ) → s.waiter ≡ idle → Step s (enter s (wait_enter now t s.sem))
  wakes : s.waiter ≡ signalled → Step s (wake s (wait_wake false s.sem))
  expires : s.waiter ≡ asleep → Step s (wake s (wait_wake true s.sem))
  errs :
      s.waiter ≡ asleep
      → Step s (record (wake s (wait_wake false s.sem)) { spurious = s.spurious + 1 })

pub data Reach (s : Sys) : Sys → Type 0 where
  here : Reach s s
  next : {t u : Sys} → Reach s t → Step t u → Reach s u

-- A thread that sleeps has found the count 0, and a signalled one finds a count to take, which is of the
-- posts since then.
abbrev Ready : Sys → Type 0
Ready s =
    (s.waiter ≡ asleep → s.sem.count ≡ 0)
    × (s.waiter ≡ signalled → 0 < s.sem.count)
    × (s.waiter ≡ signalled → s.sem.count ≤ s.posts)

-- Without a spurious wake-up every post is still in the count or was taken.
pub record Inv (n : ℕ) (s : Sys) : Type 0 where
  pub conserved : s.spurious ≡ 0 → s.sem.count + s.takes ≡ n + s.posts
  pub ready : Ready s

Step-posts-le : {s t : Sys} → Step s t → s.posts ≤ t.posts
unfolding wait_enter
Step-posts-le posts = omega arith
Step-posts-le (enters now t e) = ground arith
Step-posts-le (wakes e) = omega arith
Step-posts-le (expires e) = omega arith
Step-posts-le (errs e) = omega arith

Step-Ready : {s t : Sys} → t.posts < 2 ^ 32 → Ready s → Step s t → Ready t
unfolding wait_enter wait_wake post
Step-Ready lt v posts = (ground arith, ground arith, ground arith)
Step-Ready lt v (enters now t e) = (ground arith, ground arith, ground arith)
Step-Ready lt v (wakes e) = (λ x. cc, λ x. cc, λ x. cc)
Step-Ready lt v (expires e) = (λ x. cc, λ x. cc, λ x. cc)
Step-Ready lt v (errs e) = (λ x. cc, λ x. cc, λ x. cc)

enter-spurious : (s : Sys) (w : Entered) → (enter s w).spurious ≡ s.spurious
enter-spurious s (done r sem) = refl
enter-spurious s (sleeps d) = refl

Step-conserved :
    {n : ℕ} {s t : Sys}
    → n + t.posts < 2 ^ 32
    → Inv n s
    → Step s t
    → t.spurious ≡ 0
    → t.sem.count + t.takes ≡ n + t.posts
unfolding wait_enter wait_wake post
Step-conserved lt v posts q = ground (arith, v.conserved q)
Step-conserved {s = s} lt v (enters now t e) q =
    ground (arith, v.conserved (sym (enter-spurious s (wait_enter now t s.sem)) ∙ q))
Step-conserved lt v (wakes e) q = ground (arith, v.conserved q, v.ready.1 e)
Step-conserved lt v (expires e) q = ground (arith, v.conserved q)
Step-conserved lt v (errs e) q = absurd (omega (arith, q))

Step-Inv : {n : ℕ} {s t : Sys} → n + t.posts < 2 ^ 32 → Inv n s → Step s t → Inv n t
Step-Inv lt v st = record {
  conserved = Step-conserved lt v st;
  ready = Step-Ready (omega (arith, lt)) v.ready st;
}

abbrev pub start : ℕ → Sys
start n = record {
  sem = record { initialized = true; count = n };
  waiter = idle;
  posts = 0;
  takes = 0;
  spurious = 0;
}

start-Inv : (n : ℕ) → Inv n (start n)
start-Inv n = record { conserved = λ e. omega arith; ready = (λ x. cc, λ x. cc, λ x. cc) }

-- Under those bounds a waiter that was signalled finds a positive count, and without a spurious wake-up
-- no post is lost or taken twice.
pub Reach-Inv : {n : ℕ} {t : Sys} → n + t.posts < 2 ^ 32 → Reach (start n) t → Inv n t
Reach-Inv {n} lt here = start-Inv n
Reach-Inv lt (next r st) = Step-Inv lt (Reach-Inv (omega (arith, Step-posts-le st)) r) st

-- From a count of 0, if a second thread waits between a post and the wake-up of a sleeper, both
-- waits succeed and the counter goes to 2^32 - 1.
pub stolen_post :
    (s : TimedSemaphore) (now : Timespec) (t : ℕ)
    → s.count ≡ 0
    → (s' : TimedSemaphore) × (wait_enter now t (post s) ≡ done success s')
      × (s'.count ≡ 0)
      × (wait_wake false s' ≡ (success, record s' { count = 2 ^ 32 - 1 }))
unfolding wait_enter wait_wake post
stolen_post s now t e = (s, ground arith, e, ground arith)

module _ {n : ℕ} {t : Sys} (lt : n + t.posts < 2 ^ 32) (r : Reach (start n) t) where
  -- With one waiting thread that has never been woken spuriously, and as long as the initial count and
  -- the posts stay below 2^32, the count and the successful waits add up to the initial count and the
  -- posts.
  pub posts_conserved : t.spurious ≡ 0 → t.sem.count + t.takes ≡ n + t.posts
  posts_conserved = (Reach-Inv lt r).conserved

  -- With one waiting thread, and as long as the initial count and the posts stay below 2^32, a
  -- waiter that was signalled wakes up to success with one count less, and the counter does not
  -- wrap.
  pub signalled_takes_count :
      t.waiter ≡ signalled
      → (0 < t.sem.count)
        × (wait_wake false t.sem ≡ (success, record t.sem { count = t.sem.count - 1 }))
  unfolding wait_wake
  signalled_takes_count w =
      let (a, b, c) = (Reach-Inv lt r).ready in
      let p : 0 < t.sem.count = b w in
      let q : t.sem.count ≤ t.posts = c w in
      (p, ap (λ c. (success, record t.sem { count = c })) (omega (arith, p, q)))
