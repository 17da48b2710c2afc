-- ===== src/Wsi/System.antt =====
-- wsi/swapchain_base.cpp with wsi/headless/swapchain.cpp: the threads of one swapchain, interleaved.
-- A step is what a thread does under the lock of the image states, or one operation on a semaphore; a
-- wait that sleeps is two steps, and the sleeper is woken by the signal of a post, by its deadline, or
-- spuriously. One thread acquires, and one flips pages; a wait for the pending images, by a descendant
-- or by the teardown, is not a step. A woken page flip thread that finds the pool empty, which an
-- assertion excludes, takes no further step.
-- The swapchain has no ancestor; whether a descendant has started presenting is an argument of a
-- present. The application keeps to the API: it presents and releases images that it has acquired. A
-- switch of the presentation mode leaves it shared or not as it was, and not continuously refreshed.
pub mod Queue
pub mod Invariant
pub mod Promises
pub mod Start
use rk_vulkan_wsi_layer.Prelude.{
  ℕ, ◌+◌, ◌-◌, ◌≤◌, ◌<◌, length, ◌≡◌, ◌≢◌, Bool, true, false, List, Option, none, some,
  if◌then◌else◌, ◌==◌,
}
use rk_vulkan_wsi_layer.Vulkan.{
  VkResult, success, PresentMode, shared_continuous_refresh, mode_eq, is_shared,
}
use rk_vulkan_wsi_layer.Util.RingBuffer.{empty}
use rk_vulkan_wsi_layer.Util.TimedSemaphore.{
  TimedSemaphore, Timespec, Entered, done, sleeps, wait_enter, wait_wake, post,
}
use rk_vulkan_wsi_layer.Util.TimedSemaphore.Waiters.{Waiter, idle, asleep, signalled, signal}
use rk_vulkan_wsi_layer.Wsi.Swapchain.{
  Swapchain, SwapchainImage, PendingPresentRequest, acquired, max_swapchain_image_count,
}
use rk_vulkan_wsi_layer.Wsi.Swapchain.Images.{set_status, status_at, total, available, is_destroyed}
use rk_vulkan_wsi_layer.Wsi.Swapchain.Wait.{Env}
use rk_vulkan_wsi_layer.Wsi.Swapchain.Acquire.{SignalAnswers, take_image}
use rk_vulkan_wsi_layer.Wsi.Swapchain.Present.{
  unpresent_mark, set_present_id, notify_presentation_engine, page_flip_take, page_flip_finish,
  handle_switching_presentation_mode,
}
use rk_vulkan_wsi_layer.Wsi.Headless.{ImageData, Answers, headless}

-- Where the page flip thread is in an iteration.
pub data Flip : Type 0 where
  waiting woken : Flip
  showing : PendingPresentRequest → Flip

pub record System : Type 0 where
  pub sc : Swapchain ImageData
  -- Acquisitions that have taken a count and not yet an image.
  pub taken : ℕ
  -- Images marked by `unpresent_image` whose post is still to come.
  pub unposted : ℕ
  pub flip : Flip
  -- Counts taken by acquisitions that ended without an image and destroyed none.
  pub lost : ℕ
  -- What the acquiring thread does at the free image semaphore, and the page flip thread at its own.
  pub acquirer : Waiter
  pub flipper : Waiter
  -- Sleeps that ended without a signal and without their deadline.
  pub spurious : ℕ

-- The part of `page_flip_finish` for a finished payload that is done under the lock; what is left of
-- it is the post.
unfoldable pub shown : PendingPresentRequest → Swapchain ImageData → Swapchain ImageData
unfolding unpresent_mark set_present_id
shown req sc =
    let sc' =
      if sc.first_present
      then record sc {
        start_present_semaphore = sc.start_present_semaphore + 1;
        first_present = false;
      }
      else sc in
    unpresent_mark req.image_index (set_present_id req.present_id sc')

-- A swapchain as its initialisation leaves it: every image can be acquired, and nothing is presented.
pub record IsFresh (s : System) : Type 0 where
  pub no_refresh : mode_eq s.sc.present_mode shared_continuous_refresh ≡ false
  pub room : length s.sc.swapchain_images ≤ max_swapchain_image_count
  pub all_available : total available s.sc.swapchain_images ≡ length s.sc.swapchain_images
  pub count : s.sc.free_image_semaphore.count ≡ length s.sc.swapchain_images
  pub pool : s.sc.pending_buffer_pool ≡ empty max_swapchain_image_count
  pub no_signal : s.sc.page_flip_semaphore.count ≡ 0
  pub none_taken : s.taken ≡ 0
  pub none_unposted : s.unposted ≡ 0
  pub none_lost : s.lost ≡ 0
  pub not_flipping : s.flip ≡ waiting
  pub no_acquirer : s.acquirer ≡ idle
  pub no_flipper : s.flipper ≡ idle

-- The posts that an unpresented image is owed.
abbrev pub owed : Swapchain ImageData → ℕ
owed sc = if is_shared sc.present_mode then 0 else 1

-- What an acquisition without an index loses, by the number of destroyed images before and after it: an
-- image that it destroys is not counted any more.
abbrev pub loss : Option ℕ → ℕ → ℕ → ℕ
loss (some i) d d' = 0
loss none d d' = if d == d' then 1 else 0

abbrev pub after_take : System → VkResult × Option ℕ × Swapchain ImageData → System
after_take s (r, index, sc') = record s {
  sc = sc';
  taken = s.taken - 1;
  lost =
      s.lost
      + loss index (total is_destroyed s.sc.swapchain_images)
          (total is_destroyed sc'.swapchain_images);
}

-- A post, which changes the count, signals the sleeper if there is one.
abbrev pub heard : TimedSemaphore → TimedSemaphore → Waiter → Waiter
heard old new w = if old.count == new.count then w else signal w

-- The swapchain after an operation that may post its semaphores.
abbrev pub posted : System → Swapchain ImageData → System
posted s sc' = record s {
  sc = sc';
  acquirer = heard s.sc.free_image_semaphore sc'.free_image_semaphore s.acquirer;
  flipper = heard s.sc.page_flip_semaphore sc'.page_flip_semaphore s.flipper;
}

-- The acquiring thread wakes up with the mutex of the free image semaphore, and takes a count.
abbrev pub acquirer_woken : System → System
acquirer_woken s = record s {
  sc = record s.sc { free_image_semaphore = (wait_wake false s.sc.free_image_semaphore).1 };
  taken = s.taken + 1;
  acquirer = idle;
}

abbrev pub flipper_woken : System → System
flipper_woken s = record s {
  sc = record s.sc { page_flip_semaphore = (wait_wake false s.sc.page_flip_semaphore).1 };
  flip = woken;
  flipper = idle;
}

module _ (a : ℕ → Answers) (now : Timespec) (env : Env ImageData) where
  pub data Step (s : System) : System → Type 0 where
    -- `acquire_next_image`: a count is there, and then the image is taken.
    takes :
        (t : ℕ) (sem : TimedSemaphore)
        → s.acquirer ≡ idle
        → wait_enter now t s.sc.free_image_semaphore ≡ done success sem
        → Step s (record s { sc = record s.sc { free_image_semaphore = sem }; taken = s.taken + 1 })
    -- No count is there, and the thread sleeps until it is signalled, its time is up, or neither.
    sleeps_free :
        (t : ℕ) (d : Option Timespec)
        → s.acquirer ≡ idle
        → wait_enter now t s.sc.free_image_semaphore ≡ sleeps d
        → Step s (record s { acquirer = asleep })
    wakes_free : s.acquirer ≡ signalled → Step s (acquirer_woken s)
    expires_free : s.acquirer ≡ asleep → Step s (record s { acquirer = idle })
    errs_free :
        s.acquirer ≡ asleep → Step s (record (acquirer_woken s) { spurious = s.spurious + 1 })
    marks :
        (answers : SignalAnswers) (fence semaphore : Bool)
        → 0 < s.taken
        → Step s (after_take s (take_image (headless a) now env answers fence semaphore s.sc))
    -- `queue_present`, whose descendant may have started presenting.
    presents :
        (started : Bool) (req : PendingPresentRequest)
        → status_at s.sc.swapchain_images req.image_index ≡ some acquired
        → Step s
            (posted s (notify_presentation_engine (headless a) now env started none req s.sc).2)
    switches :
        (m : PresentMode)
        → is_shared m ≡ is_shared s.sc.present_mode
        → mode_eq m shared_continuous_refresh ≡ false
        → Step s (record s { sc = (handle_switching_presentation_mode m s.sc).1 })
    -- `release_images`, for one image.
    releases :
        (i : ℕ)
        → status_at s.sc.swapchain_images i ≡ some acquired
        → Step s (record s { sc = unpresent_mark i s.sc; unposted = s.unposted + owed s.sc })
    posts :
        0 < s.unposted
        → Step s
            (record (posted s
              (record s.sc { free_image_semaphore = post s.sc.free_image_semaphore })) {
                unposted = s.unposted - 1;
              })
    -- `page_flip_thread`.
    wakes :
        (t : ℕ) (sem : TimedSemaphore)
        → s.flip ≡ waiting
        → s.flipper ≡ idle
        → wait_enter now t s.sc.page_flip_semaphore ≡ done success sem
        → Step s (record s { sc = record s.sc { page_flip_semaphore = sem }; flip = woken })
    sleeps_flip :
        (t : ℕ) (d : Option Timespec)
        → s.flip ≡ waiting
        → s.flipper ≡ idle
        → wait_enter now t s.sc.page_flip_semaphore ≡ sleeps d
        → Step s (record s { flipper = asleep })
    wakes_flip : s.flip ≡ waiting → s.flipper ≡ signalled → Step s (flipper_woken s)
    expires_flip : s.flipper ≡ asleep → Step s (record s { flipper = idle })
    errs_flip :
        s.flip ≡ waiting
        → s.flipper ≡ asleep
        → Step s (record (flipper_woken s) { spurious = s.spurious + 1 })
    pops :
        (req : PendingPresentRequest)
        → s.flip ≡ woken
        → (page_flip_take (headless a) now env s.sc).0 ≡ some req
        → Step s
            (record s { sc = (page_flip_take (headless a) now env s.sc).1; flip = showing req })
    shows :
        (req : PendingPresentRequest)
        → s.flip ≡ showing req
        → Step s
            (record s { sc = shown req s.sc; flip = waiting; unposted = s.unposted + owed s.sc })
    fails :
        (r : VkResult) (req : PendingPresentRequest)
        → s.flip ≡ showing req
        → r ≢ success
        → Step s (record (posted s (page_flip_finish (headless a) now env r none req s.sc).1) {
          flip = waiting;
        })

  pub data Reach (s : System) : System → Type 0 where
    here : Reach s s
    next : {t u : System} → Reach s t → Step t u → Reach s u
