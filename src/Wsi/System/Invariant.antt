-- ===== src/Wsi/System/Invariant.antt =====
-- wsi/swapchain_base.cpp: what the semaphores, the pending pool and the image states have to do with
-- one another between two steps, as long as no error has occurred.
mod Steps
pub mod Requests
pub mod Images
mod Errors
mod Sleepers
mod Wakes
pub use Steps.{Balanced, held, woken_count}
use rk_vulkan_wsi_layer.Prelude.{
  ℕ, ◌+◌, ◌≤◌, ◌<◌, ◌≡◌, refl, sym, ap, subst, ◌∙◌, ◌≢◌, Bool, true, false, List, [], ◌∷◌, Option,
  none, some, arith, length, inl, inr, Bool-cases,
}
use rk_vulkan_wsi_layer.Vulkan.{success}
use rk_vulkan_wsi_layer.Util.TimedSemaphore.{Timespec, wait_wake, wait_enter-success, post}
use rk_vulkan_wsi_layer.Util.TimedSemaphore.Waiters.{idle, asleep, signalled}
use rk_vulkan_wsi_layer.Wsi.Swapchain.{
  Swapchain, PendingPresentRequest, acquired, pending, max_swapchain_image_count,
}
use rk_vulkan_wsi_layer.Wsi.Swapchain.Images.{
  status_at, total, available, is_pending, total-disjoint,
}
use rk_vulkan_wsi_layer.Wsi.System.Queue.{pending_at, pending_at-le, occurrences}
use rk_vulkan_wsi_layer.Wsi.Swapchain.Wait.{Env}
use rk_vulkan_wsi_layer.Wsi.Swapchain.Present.{
  unpresent_mark, notify_presentation_engine, page_flip_take, page_flip_finish,
}
use rk_vulkan_wsi_layer.Wsi.Swapchain.Acquire.{take_image}
use rk_vulkan_wsi_layer.Wsi.Headless.{ImageData, Answers, headless}
use rk_vulkan_wsi_layer.Wsi.System.{
  System, Flip, waiting, woken, showing, shown, Step, takes, sleeps_free, wakes_free, expires_free,
  errs_free, marks, presents, switches, releases, posts, wakes, sleeps_flip, wakes_flip,
  expires_flip, errs_flip, pops, shows, fails, Reach, here, next, IsFresh, posted, owed,
}
use rk_vulkan_wsi_layer.Util.RingBuffer.Queue.{empty-Holds}
use Steps.{takes-Balanced, posts-Balanced, wakes-Balanced, releases-Balanced, shows-Balanced}
use Wakes.{
  relabel-Balanced, errs_free-Balanced, errs_flip-Balanced, wakes_free-Balanced,
  wakes_flip-Balanced,
}
use Requests.{pops-Balanced, presents-Balanced, pool_has_room}
use Errors.{
  error-switching, error-shown, error-take_image, error-notify, error-page_flip_take,
  error-page_flip_finish,
}
use Sleepers.{
  Ready, marks-Ready, presents-Ready, switches-Ready, posts-Ready, pops-Ready, shows-Ready,
}
use Images.{switches-Balanced, marks-Balanced, taken-available}

-- The balance, with the requests that the pool holds, and what a signalled thread finds.
abbrev pub Inv : System → Type 0
Inv s =
    s.sc.error_state ≡ success → (queue : List PendingPresentRequest) × Balanced s queue × Ready s

module _ (a : ℕ → Answers) (now : Timespec) (env : Env ImageData) where
  Step-Inv : {s t : System} → Step a now env s t → Inv s → Inv t
  unfolding unpresent_mark wait_wake
  Step-Inv {s} (takes t sem i h) v ok =
      let (q, b, w) = v ok in
      let e = wait_enter-success now t s.sc.free_image_semaphore sem h in
      (q, takes-Balanced b sem e, λ z. (λ y. cc, (w z).1))
  Step-Inv {s} (sleeps_free t d i h) v ok =
      let (q, b, w) = v ok in (q, relabel-Balanced b asleep s.flipper, λ z. (λ y. cc, (w z).1))
  Step-Inv {s} (wakes_free y) v ok =
      let (q, b, w) = v ok in (q, wakes_free-Balanced b (λ z. (w z).0 y), λ z. (λ u. cc, (w z).1))
  Step-Inv {s} (expires_free y) v ok =
      let (q, b, w) = v ok in (q, relabel-Balanced b idle s.flipper, λ z. (λ u. cc, (w z).1))
  Step-Inv (errs_free y) v ok =
      let (q, b, w) = v ok in (q, errs_free-Balanced b, λ z. absurd (omega (arith, z)))
  Step-Inv {s} (marks answers fence semaphore p) v ok =
      let e = sym (error-take_image s.sc (headless a) now env answers fence semaphore) ∙ ok in
      let (q, b, w) = v e in
      (
        q,
        marks-Balanced b a now env answers fence semaphore (rw e) p,
        marks-Ready s a now env answers fence semaphore w,
      )
  Step-Inv {s} (presents started req at) v ok =
      let (q, b, w) = v (sym (error-notify s.sc a now env started req) ∙ ok) in
      let (q', b') = presents-Balanced a now env b started req at in
      let t = posted s (notify_presentation_engine (headless a) now env started none req s.sc).2 in
      (q', relabel-Balanced b' t.acquirer t.flipper, presents-Ready s a now env b started req w)
  Step-Inv {s} (switches m e n) v ok =
      let (q, b, w) = v (sym (error-switching s.sc m) ∙ ok) in
      (q, switches-Balanced b m n, switches-Ready s m w)
  Step-Inv (releases i at) v ok = let (q, b, w) = v ok in (q, releases-Balanced b i at, w)
  Step-Inv {s} (posts p) v ok =
      let (q, b, w) = v ok in
      let t = posted s (record s.sc { free_image_semaphore = post s.sc.free_image_semaphore }) in
      (q, relabel-Balanced (posts-Balanced b p) t.acquirer t.flipper, posts-Ready s b w)
  Step-Inv {s} (wakes t sem f i h) v ok =
      let (q, b, w) = v ok in
      let e = wait_enter-success now t s.sc.page_flip_semaphore sem h in
      (q, wakes-Balanced b sem f e, λ z. ((w z).0, λ y. cc))
  Step-Inv {s} (sleeps_flip t d f i h) v ok =
      let (q, b, w) = v ok in (q, relabel-Balanced b s.acquirer asleep, λ z. ((w z).0, λ y. cc))
  Step-Inv {s} (wakes_flip f y) v ok =
      let (q, b, w) = v ok in (q, wakes_flip-Balanced b f (λ z. (w z).1 y), λ z. ((w z).0, λ u. cc))
  Step-Inv {s} (expires_flip y) v ok =
      let (q, b, w) = v ok in (q, relabel-Balanced b s.acquirer idle, λ z. ((w z).0, λ u. cc))
  Step-Inv (errs_flip f y) v ok =
      let (q, b, w) = v ok in (q, errs_flip-Balanced b f, λ z. absurd (omega (arith, z)))
  Step-Inv {s} (pops req f e) v ok =
      let (q, b, w) = v (sym (error-page_flip_take s.sc a now env) ∙ ok) in
      let (rest, _, b') = pops-Balanced a now env q b f req e in
      (rest, b', pops-Ready s a now env req w)
  Step-Inv {s} (shows req f) v ok =
      let (q, b, w) = v (sym (error-shown s.sc req) ∙ ok) in
      (q, shows-Balanced b req f, shows-Ready s req (s.unposted + owed s.sc) w)
  Step-Inv {s} (fails r req f n) v ok =
      absurd (n (sym (error-page_flip_finish s.sc a now env r req n) ∙ ok))

  fresh-signalled : idle ≢ signalled
  fresh-signalled e = cc

  none_pending : {s : System} → IsFresh s → total is_pending s.sc.swapchain_images ≡ 0
  none_pending {s} f = omega (arith, f.all_available, total-disjoint s.sc.swapchain_images)

  IsFresh-Inv : {s : System} → IsFresh s → Inv s
  IsFresh-Inv {s} f ok = (
    [],
    record {
      no_refresh = f.no_refresh;
      room = f.room;
      tokens =
          λ z. omega (arith, f.count, f.all_available, f.none_taken, f.none_unposted, f.none_lost);
      pool = rw f.pool (empty-Holds max_swapchain_image_count (omega arith) (omega arith));
      named = λ i.
          ground (arith, f.not_flipping, none_pending f, pending_at-le s.sc.swapchain_images i);
      waiting_requests = ground (arith, f.not_flipping, none_pending f);
      signals = λ z. ground (arith, f.no_signal, f.not_flipping);
    },
    λ z. (
      λ y. absurd (fresh-signalled (sym f.no_acquirer ∙ y)),
      λ y. absurd (fresh-signalled (sym f.no_flipper ∙ y)),
    ),
  )

  -- After any steps of the threads, as long as no error has occurred, the counts of the semaphores,
  -- the pending pool and the states of the images balance.
  pub Reach-Inv : {s t : System} → IsFresh s → Reach a now env s t → Inv t
  Reach-Inv f here = IsFresh-Inv f
  Reach-Inv f (next r st) = Step-Inv st (Reach-Inv f r)
