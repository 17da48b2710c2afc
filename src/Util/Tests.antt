-- ===== src/Util/Tests.antt =====
-- The classes of util on concrete inputs.
use rk_vulkan_wsi_layer.Prelude.{
  ℕ, ◌+◌, ◌-◌, ◌^◌, ◌<◌, ◌≡◌, refl, true, false, List, [], ◌∷◌, none, some, arith,
}
use rk_vulkan_wsi_layer.Vulkan.{success}
use rk_vulkan_wsi_layer.Util.RingBuffer.{RingBuffer, empty}
use rk_vulkan_wsi_layer.Util.RingBuffer.Queue.{empty-Holds}
use rk_vulkan_wsi_layer.Util.RingBuffer.Run.{
  Op, push, pop, pushed, popped, run, run_queue, run_refines,
}
use rk_vulkan_wsi_layer.Util.TimedSemaphore.{
  TimedSemaphore, Timespec, done, wait_enter, wait_wake, post,
}
use rk_vulkan_wsi_layer.Util.TimedSemaphore.Waiters.{
  Sys, signalled, Reach, here, next, start, posts, enters, posts_conserved, signalled_takes_count,
  stolen_post,
}
use rk_vulkan_wsi_layer.Util.ExtensionList.{ExtensionProperties, contains, contains_all}

abbrev calls : List (Op ℕ)
calls = push 4 ∷ push 5 ∷ push 6 ∷ pop ∷ push 7 ∷ pop ∷ pop ∷ pop ∷ []

calls_answered :
    run 2 (empty 2) calls
    ≡ pushed true
      ∷ pushed true
      ∷ pushed false
      ∷ popped (some 4)
      ∷ pushed true
      ∷ popped (some 5)
      ∷ popped (some 7)
      ∷ popped none
      ∷ []
unfolding run empty rk_vulkan_wsi_layer.Util.RingBuffer.push_back
    rk_vulkan_wsi_layer.Util.RingBuffer.pop_front
calls_answered = refl

run_refines_example : run 2 (empty 2) calls ≡ run_queue 2 [] calls
run_refines_example = run_refines 2 calls (empty 2) [] (empty-Holds 2 (omega arith) (omega arith))

abbrev late : Timespec
late = record { tv_sec = 3; tv_nsec = 900000000 }

abbrev woken : Sys
woken = record {
  sem = record { initialized = true; count = 1 };
  waiter = signalled;
  posts = 1;
  takes = 0;
  spurious = 0;
}

-- The waiter sleeps and another thread posts.
to_woken : Reach (start 0) woken
unfolding wait_enter post
to_woken = next (next here (enters late 5 refl)) posts

posts_conserved_example : woken.sem.count + woken.takes ≡ 0 + woken.posts
posts_conserved_example = posts_conserved (omega arith) to_woken refl

signalled_takes_count_example :
    (0 < woken.sem.count)
    × (wait_wake false woken.sem ≡ (success, record woken.sem { count = woken.sem.count - 1 }))
signalled_takes_count_example = signalled_takes_count (omega arith) to_woken refl

abbrev exhausted : TimedSemaphore
exhausted = record { initialized = true; count = 0 }

stolen_post_example :
    (s' : TimedSemaphore) × (wait_enter late 5 (post exhausted) ≡ done success s')
    × (s'.count ≡ 0)
    × (wait_wake false s' ≡ (success, record s' { count = 2 ^ 32 - 1 }))
stolen_post_example = stolen_post exhausted late 5 refl

abbrev surface : ExtensionProperties
surface = record { extension_name = 1; spec_version = 25 }

abbrev surface_2 : ExtensionProperties
surface_2 = record { extension_name = 2; spec_version = 1 }

abbrev one : List ExtensionProperties
one = surface ∷ []

abbrev both : List ExtensionProperties
both = surface ∷ surface_2 ∷ []

one_in_both : contains_all one both ≡ true
unfolding contains_all
one_in_both = refl

both_not_in_one : contains_all both one ≡ false
unfolding contains_all
both_not_in_one = refl

one_holds : contains 1 one ≡ true
unfolding contains
one_holds = refl
