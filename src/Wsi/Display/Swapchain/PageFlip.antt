-- ===== src/Wsi/Display/Swapchain/PageFlip.antt =====
-- wsi/display/swapchain.cpp: when the wait for a page flip ends.
use rk_vulkan_wsi_layer.Prelude.{
  ℕ, zero, suc, ◌+◌, ◌<◌, ◌≡◌, ◌≢◌, refl, sym, ap, ◌∙◌, Bool, true, false, some, arith, subst, ◌⊎◌,
  inl, inr,
}
use rk_vulkan_wsi_layer.Wsi.Display.Swapchain.Present.{
  Selected, interrupted, failed, timed_out, ready, Kernel, IsSelect, flipped, lost, wait_flip,
}

-- One round of the wait, by what `select` returns.
module _ (k : Kernel) (n i : ℕ) (fds complete : Bool) where
  round_again :
      ((k.select i fds).0 ≡ interrupted) ⊎ ((k.select i fds).0 ≡ timed_out)
      → wait_flip k (suc n) i fds complete ≡ wait_flip k n (suc i) (k.select i fds).1 complete
  unfolding wait_flip
  round_again (inl e) = rw (e, wait_flip) refl
  round_again (inr e) = rw (e, wait_flip) refl

  round_failed : (k.select i fds).0 ≡ failed → wait_flip k (suc n) i fds complete ≡ some lost
  unfolding wait_flip
  round_failed e = rw (e, wait_flip) refl

  round_ready :
      (k.select i fds).0 ≡ ready
      → k.handle_event i ≡ true
      → wait_flip k (suc n) i fds complete ≡ some flipped
  unfolding wait_flip
  round_ready e h = rw (e, h, wait_flip) (ground arith)

zero_add : (i : ℕ) → 0 + i ≡ i
zero_add i = omega arith

Selected-cases :
    (r : Selected) → (r ≡ failed) ⊎ (((r ≡ interrupted) ⊎ (r ≡ timed_out)) ⊎ (r ≡ ready))
Selected-cases interrupted = inr (inl (inl refl))
Selected-cases failed = inl refl
Selected-cases timed_out = inr (inl (inr refl))
Selected-cases ready = inr (inr refl)

module _ (k : Kernel) (s : IsSelect k) where
  empty_stays :
      (i : ℕ)
      → ((k.select i false).0 ≡ interrupted) ⊎ ((k.select i false).0 ≡ timed_out)
      → (k.select i false).1 ≡ false
  empty_stays i (inl e) = s.interrupted_same i false e
  empty_stays i (inr e) = s.timed_out_empty i false e

  empty_never_flips : (n i : ℕ) (complete : Bool) → wait_flip k n i false complete ≢ some flipped
  unfolding wait_flip
  empty_never_flips zero i complete e = cc
  empty_never_flips (suc n) i complete e = elim (Selected-cases (k.select i false).0) [
    | inl f ↦ cc (sym (round_failed k n i false complete f) ∙ e)
    | inr (inl again) ↦ empty_never_flips n (suc i) complete (
        ap (λ b. wait_flip k n (suc i) b complete) (sym (empty_stays i again))
        ∙ sym (round_again k n i false complete again)
        ∙ e)
    | inr (inr r) ↦ s.empty_not_ready i r
  ]

  -- Where `select` keeps its law: once it has timed out, the wait for the page flip does not end with
  -- the flip, however many rounds it goes on and whatever events come.
  pub timed_out_never_flips :
      (i : ℕ)
      → (k.select i true).0 ≡ timed_out
      → (n : ℕ) (complete : Bool) → wait_flip k n i true complete ≢ some flipped
  unfolding wait_flip
  timed_out_never_flips i t zero complete e = cc
  timed_out_never_flips i t (suc n) complete e = empty_never_flips n (suc i) complete (
      ap (λ b. wait_flip k n (suc i) b complete) (sym (s.timed_out_empty i true t))
      ∙ sym (round_again k n i true complete (inr t))
      ∙ e)

  -- Where `select` keeps its law, an event of the flip that comes after any number of interruptions ends
  -- the wait with the flip, if there are more rounds than interruptions.
  pub interruptions_end :
      (m i n : ℕ)
      → ((j : ℕ) → j < m → (k.select (j + i) true).0 ≡ interrupted)
      → (k.select (m + i) true).0 ≡ ready
      → k.handle_event (m + i) ≡ true
      → m < n
      → wait_flip k n i true false ≡ some flipped
  interruptions_end m i zero h r e l = absurd (omega arith)
  interruptions_end zero i (suc n) h r e l =
      round_ready k n i true false (subst (λ x. (k.select x true).0 ≡ ready) (zero_add i) r)
        (subst (λ x. k.handle_event x ≡ true) (zero_add i) e)
  interruptions_end (suc m) i (suc n) h r e l =
      let t : (k.select i true).0 ≡ interrupted =
        subst (λ x. (k.select x true).0 ≡ interrupted) (zero_add i) (h 0 (omega arith)) in
      let shift : (j : ℕ) → suc j + i ≡ j + suc i = λ j. omega arith in
      round_again k n i true false (inl t)
      ∙ ap (λ b. wait_flip k n (suc i) b false) (s.interrupted_same i true t)
      ∙ interruptions_end m (suc i) n
          (λ j p.
            subst (λ x. (k.select x true).0 ≡ interrupted) (shift j) (h (suc j) (omega (arith, p))))
          (subst (λ x. (k.select x true).0 ≡ ready) (shift m) r)
          (subst (λ x. k.handle_event x ≡ true) (shift m) e) (omega (arith, l))
