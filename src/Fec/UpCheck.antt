-- ===== src/Fec/UpCheck.antt =====
-- What the check of sbl_fec.c finds when a link comes up.
use ss_sbl.Prelude.{
  ℕ, zero, suc, ◌+◌, ◌<◌, ◌≡◌, ◌≢◌, refl, sym, ap, ◌∙◌, Bool, true, false, arith, Bool-cases, inl,
  inr,
}
use ss_sbl.Link.{Link}
use ss_sbl.Link.Consts.{eoverflow, fec_up_window}
use ss_sbl.Kernel.{Kernel}
use ss_sbl.Fec.Thresholds.{Platform}
use ss_sbl.Fec.Rates.{Sample, zero_cntrs}
use ss_sbl.Fec.Checks.{over_threshold, raise_ucw_hwm, raise_ccw_hwm, ccw_rate_bad, ucw_rate_bad}
use ss_sbl.Fec.Monitor.{link_rates_update, up_window, up_loop}

-- The tests never fail on zero rates.
ucw_rate_bad-zero :
    (p : Platform) (adj : ℕ) (l : Link)
    → l.fec.rates.ucw ≡ 0
    → ((ucw_rate_bad p adj l).1 ≡ false) × ((ucw_rate_bad p adj l).0.fec.rates ≡ l.fec.rates)
unfolding ucw_rate_bad raise_ucw_hwm over_threshold
ucw_rate_bad-zero p adj l h = ground arith

ccw_rate_bad-zero :
    (p : Platform) (adj : ℕ) (use_stp : Bool) (l : Link)
    → l.fec.rates.ccw ≡ 0
    → (ccw_rate_bad p adj use_stp l).1 ≡ false
unfolding ccw_rate_bad raise_ccw_hwm over_threshold
ccw_rate_bad-zero p adj use_stp l h = ground arith

rates_update-zero :
    (k : Kernel) (p : Platform) (window : ℕ) (s : Sample) (l : Link)
    → (link_rates_update k p window s l).1 ≢ 0
    → (link_rates_update k p window s l).0.fec.rates ≡ zero_cntrs
unfolding link_rates_update
rates_update-zero k p window s l h = ground arith

module _ (k : Kernel) (p : Platform) (ucw_adj ccw_adj stp_ccw_adj : ℕ) where
  -- A window that sbl_fec_rates_update does not count, because it was too short or because something
  -- told to discard it, does not fail the check, whatever the registers show.
  pub up_window_discarded :
      (s : Sample) (l : Link)
      → (link_rates_update k p fec_up_window s l).1 ≢ 0
      → (up_window k p ucw_adj ccw_adj stp_ccw_adj s l).1 ≡ false
  unfolding up_window
  up_window_discarded s l h =
      let l₁ = (link_rates_update k p fec_up_window s l).0 in
      let l₂ = (ucw_rate_bad p ucw_adj l₁).0 in
      let zero = rates_update-zero k p fec_up_window s l h in
      ground (
        arith,
        ucw_rate_bad-zero p ucw_adj l₁,
        ccw_rate_bad-zero p stp_ccw_adj true l₂,
        ccw_rate_bad-zero p ccw_adj false l₂,
      )

  module _ (samples : ℕ → Sample) where
    -- The link when `j` windows have gone by, the first of them number i.
    pub link_after : ℕ → ℕ → Link → Link
    link_after zero i l = l
    link_after (suc j) i l =
        link_after j (i + 1) (up_window k p ucw_adj ccw_adj stp_ccw_adj (samples i) l).0

    -- Does window number i + j fail?
    abbrev pub window_fails : ℕ → ℕ → Link → Bool
    window_fails j i l =
        (up_window k p ucw_adj ccw_adj stp_ccw_adj (samples (i + j)) (link_after j i l)).1

    up_loop_step :
        (n i : ℕ) (l : Link)
        → (up_window k p ucw_adj ccw_adj stp_ccw_adj (samples i) l).1 ≡ false
        → up_loop k p ucw_adj ccw_adj stp_ccw_adj samples (suc n) i l
          ≡ up_loop k p ucw_adj ccw_adj stp_ccw_adj samples n
              (i + 1)
              (up_window k p ucw_adj ccw_adj stp_ccw_adj (samples i) l).0
    unfolding up_loop
    up_loop_step n i l h = rw (h, up_loop)

    up_loop_stop :
        (n i : ℕ) (l : Link)
        → (up_window k p ucw_adj ccw_adj stp_ccw_adj (samples i) l).1 ≡ true
        → (up_loop k p ucw_adj ccw_adj stp_ccw_adj samples (suc n) i l).1 ≡ eoverflow
    unfolding up_loop
    up_loop_stop n i l h = rw (h, up_loop)

    first_fails :
        (i : ℕ) (l : Link)
        → window_fails zero i l ≡ (up_window k p ucw_adj ccw_adj stp_ccw_adj (samples i) l).1
    unfolding link_after
    first_fails i l =
        ap (λ (m : ℕ). (up_window k p ucw_adj ccw_adj stp_ccw_adj (samples m) l).1) (omega arith)

    later_fails :
        (j i : ℕ) (l : Link)
        → window_fails (suc j) i l
          ≡ window_fails j (i + 1) (up_window k p ucw_adj ccw_adj stp_ccw_adj (samples i) l).0
    unfolding link_after
    later_fails j i l =
        let l' = link_after j (i + 1) (up_window k p ucw_adj ccw_adj stp_ccw_adj (samples i) l).0 in
        ap (λ (m : ℕ). (up_window k p ucw_adj ccw_adj stp_ccw_adj (samples m) l').1) (omega arith)

    -- Where the loop over `n` windows reports success, none of them fails.
    pub up_loop-pass :
        (n i : ℕ) (l : Link) (j : ℕ)
        → j < n
        → (up_loop k p ucw_adj ccw_adj stp_ccw_adj samples n i l).1 ≡ 0
        → window_fails j i l ≡ false
    up_loop-pass zero i l j h e = absurd (omega arith)
    up_loop-pass (suc n) i l zero h e =
        elim (Bool-cases (up_window k p ucw_adj ccw_adj stp_ccw_adj (samples i) l).1) [
          | inl bad ↦ absurd (omega (arith, up_loop_stop n i l bad))
          | inr good ↦ first_fails i l ∙ good
        ]
    up_loop-pass (suc n) i l (suc j) h e =
        let l' = (up_window k p ucw_adj ccw_adj stp_ccw_adj (samples i) l).0 in
        elim (Bool-cases (up_window k p ucw_adj ccw_adj stp_ccw_adj (samples i) l).1) [
          | inl bad ↦ absurd (omega (arith, up_loop_stop n i l bad))
          | inr good ↦
              later_fails j i l
              ∙ up_loop-pass n (i + 1) l' j (omega arith)
                  (sym (ap (λ r. r.1) (up_loop_step n i l good)) ∙ e)
        ]

    -- Where it reports anything else, that is -EOVERFLOW, and one of the windows fails.
    pub up_loop-fail :
        (n i : ℕ) (l : Link)
        → (up_loop k p ucw_adj ccw_adj stp_ccw_adj samples n i l).1 ≢ 0
        → (j : ℕ) × (j < n)
          × (window_fails j i l ≡ true)
          × ((up_loop k p ucw_adj ccw_adj stp_ccw_adj samples n i l).1 ≡ eoverflow)
    unfolding up_loop
    up_loop-fail zero i l h = absurd (h refl)
    up_loop-fail (suc n) i l h =
        let l' = (up_window k p ucw_adj ccw_adj stp_ccw_adj (samples i) l).0 in
        elim (Bool-cases (up_window k p ucw_adj ccw_adj stp_ccw_adj (samples i) l).1) [
          | inl bad ↦ (zero, omega arith, first_fails i l ∙ bad, up_loop_stop n i l bad)
          | inr good ↦
              let (j, hj, fails, err) =
                up_loop-fail n (i + 1) l' (λ e. h (ap (λ r. r.1) (up_loop_step n i l good) ∙ e)) in
              (
                suc j,
                omega arith,
                later_fails j i l ∙ fails,
                ap (λ r. r.1) (up_loop_step n i l good) ∙ err,
              )
        ]
