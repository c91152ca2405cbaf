-- ===== src/Pml/Recovery/Polls.antt =====
-- The recovery monitor from one poll to the next: it goes on only before its deadline and within the
-- limit of the rate, so that a recovery ends.
use ss_sbl.Prelude.{
  ℕ, ◌≡◌, refl, sym, ap, ◌∙◌, subst, ◌⊎◌, inl, inr, Bool, true, false, not, Bool-cases, if_rec,
  if_true, if_false, List, [], ◌∷◌,
}
use ss_sbl.Link.{Link, Recovery}
use ss_sbl.Kernel.{u32, ticks_between}
use ss_sbl.Pml.Regs.{Reg}
use ss_sbl.Pml.{Board, State, read64}
use ss_sbl.Pml.Pcs.{recovery_no_faults}
use ss_sbl.Pml.Recovery.{
  charge, deadline, reached, window_over, recovery_rate_test, recovery_poll, recovery_poll_result,
  recovery_fail, recovery_out, recovery_rearm,
}

module _ {H : Type 0} (b : Board H) where
  -- The timer fires when the hardware is in the state h.
  unfoldable pub poll_at : H → State H → State H
  poll_at h s = (recovery_poll b (record s { hw = h })).0

  -- The timer fires at these states of the hardware, one after the other.
  unfoldable pub polls : List H → State H → State H
  polls [] s = s
  polls (h ∷ hs) s = polls hs (poll_at h s)

  -- The tick at which a poll in the state h tests the deadline: it has read the receive status.
  abbrev pub test_tick : H → ℕ
  test_tick h = b.jiffies (b.read Reg.sts_rx_pcs h).0

  -- The link when a poll in the state h has been charged for
  abbrev pub charged : H → Link → Link
  charged h l = charge b.kernel (b.jiffies h) l

  recovery_fail-stops :
      (origin : ℕ) (s : State H) → (recovery_fail b origin s).0.link.recovery_started ≡ false
  unfolding recovery_fail recovery_out
  recovery_fail-stops origin s = refl

  -- A poll after which the recovery goes on
  pub record GoesOn (h : H) (s s' : State H) : Type 0 where
    pub early : reached b.kernel (test_tick h) (deadline b.kernel s.link.pml.recovery) ≡ false
    pub allowed : (recovery_rate_test b.kernel (charged h s.link)).1 ≡ true
    pub next : s'.link ≡ (recovery_rate_test b.kernel (charged h s.link)).0

  poll_result_goes_on :
      (good : Bool) (ms : ℕ) (r : Recovery) (v : State H)
      → (recovery_poll_result b good ms r v).0.link.recovery_started ≡ true
      → (reached b.kernel (b.jiffies v.hw) (deadline b.kernel r) ≡ false)
        × ((recovery_rate_test b.kernel v.link).1 ≡ true)
        × ((recovery_poll_result b good ms r v).0.link ≡ (recovery_rate_test b.kernel v.link).0)
  unfolding recovery_poll_result recovery_out recovery_rearm
  poll_result_goes_on true ms r v = λ h. absurd (cc)
  poll_result_goes_on false ms r v =
      elim (Bool-cases (reached b.kernel (b.jiffies v.hw) (deadline b.kernel r))) [
        | inl late ↦ rw late (λ h. absurd (cc (h, recovery_fail-stops r.down_origin v)))
        | inr early ↦ rw early (elim (Bool-cases (recovery_rate_test b.kernel v.link).1) [
          | inl fine ↦ rw fine (λ h. (refl, refl, refl))
          | inr over ↦ rw over (λ h. absurd (cc (h, recovery_fail-stops r.down_origin _)))
        ])
      ]

  no_faults-link : (s : State H) → (recovery_no_faults b s).0.link ≡ s.link
  unfolding recovery_no_faults read64
  no_faults-link s = refl

  no_faults-hw : (s : State H) → (recovery_no_faults b s).0.hw ≡ (b.read Reg.sts_rx_pcs s.hw).0
  unfolding recovery_no_faults read64
  no_faults-hw s = refl

  -- What a poll of a recovery that is on comes to.
  on_result : H → State H → State H
  on_result h s =
      let s₀ = record s { hw = h; link = charged h s.link } in
      let ms = u32 (
        b.kernel.jiffies_to_msecs (ticks_between (b.jiffies h) s.link.pml.recovery.init_jiffies)) in
      (recovery_poll_result b (recovery_no_faults b s₀).1 ms s.link.pml.recovery
        (recovery_no_faults b s₀).0).0

  poll_at-on : (h : H) (s : State H) → s.link.recovery_started ≡ true → poll_at h s ≡ on_result h s
  unfolding poll_at recovery_poll on_result
  poll_at-on h s on = ap (λ (p : State H × Unit {0}). p.0) (if_false _ _ (ap not on))

  -- A poll when no recovery is on does nothing.
  pub poll_at-off :
      (h : H) (s : State H) → s.link.recovery_started ≡ false → (poll_at h s).link ≡ s.link
  unfolding poll_at recovery_poll
  poll_at-off h s off = ap (λ (p : State H × Unit {0}). p.0.link) (if_true _ _ (ap not off))

  -- A poll after which the recovery is still on has found the deadline not reached and the rate within
  -- its limit, and has changed nothing of the link but what it charged and the test of the rate.
  pub poll_at-GoesOn :
      (h : H) (s : State H)
      → s.link.recovery_started ≡ true
      → (poll_at h s).link.recovery_started ≡ true
      → GoesOn h s (poll_at h s)
  unfolding on_result
  poll_at-GoesOn h s on g =
      let s₀ = record s { hw = h; link = charged h s.link } in
      let v = (recovery_no_faults b s₀).0 in
      let ms = u32 (
        b.kernel.jiffies_to_msecs (ticks_between (b.jiffies h) s.link.pml.recovery.init_jiffies)) in
      let e = poll_at-on h s on in
      let (early, fine, next) =
        poll_result_goes_on (recovery_no_faults b s₀).1 ms s.link.pml.recovery v
          (ap (λ (k : State H). k.link.recovery_started) (sym e) ∙ g) in
      record {
        early =
            subst
              (λ (w : H).
                reached b.kernel (b.jiffies w) (deadline b.kernel s.link.pml.recovery) ≡ false)
              (no_faults-hw s₀) early;
        allowed =
            subst (λ (k : Link). (recovery_rate_test b.kernel k).1 ≡ true) (no_faults-link s₀) fine;
        next =
            ap (λ (k : State H). k.link) e
            ∙ next
            ∙ ap (λ (k : Link). (recovery_rate_test b.kernel k).0) (no_faults-link s₀);
      }

  -- The deadline and whether the recovery is on survive the charge and the test of the rate.
  rate_test-keeps :
      (l : Link)
      → deadline b.kernel (recovery_rate_test b.kernel l).0.pml.recovery
        ≡ deadline b.kernel l.pml.recovery
  unfolding recovery_rate_test deadline
  rate_test-keeps l =
      if_rec
        (λ (p : Link × Bool). deadline b.kernel p.0.pml.recovery ≡ deadline b.kernel l.pml.recovery)
        (window_over b.kernel l) refl refl

  charged-keeps :
      (h : H) (l : Link)
      → deadline b.kernel (charged h l).pml.recovery ≡ deadline b.kernel l.pml.recovery
  unfolding charge deadline
  charged-keeps h l = refl

  pub polls-off :
      (hs : List H) (s : State H)
      → s.link.recovery_started ≡ false
      → (polls hs s).link.recovery_started ≡ false
  unfolding polls
  polls-off [] s off = off
  polls-off (h ∷ hs) s off =
      polls-off hs (poll_at h s) (ap (λ (k : Link). k.recovery_started) (poll_at-off h s off) ∙ off)

  -- One of the polls comes when this tick is reached.
  abbrev pub Reaches : ℕ → List H → Type 0
  Reaches d [] = ⊥
  Reaches d (h ∷ hs) = (reached b.kernel (test_tick h) d ≡ true) ⊎ Reaches d hs

  -- A recovery is over after any sequence of polls one of which comes when the deadline is reached that
  -- the start of the recovery has set, by whatever branch: the faults have gone, the link has been
  -- reported down, or the limit of the rate was met.
  pub polls-ends :
      (hs : List H) (s : State H)
      → Reaches (deadline b.kernel s.link.pml.recovery) hs
      → (polls hs s).link.recovery_started ≡ false
  unfolding polls
  polls-ends [] s r = absurd r
  polls-ends (h ∷ hs) s r = elim (Bool-cases (poll_at h s).link.recovery_started) [
    | inr off ↦ polls-off hs (poll_at h s) off
    | inl still ↦ elim (Bool-cases s.link.recovery_started) [
      | inr off ↦ absurd (cc (still, poll_at-off h s off))
      | inl on ↦
          let g = poll_at-GoesOn h s on still in
          let same : deadline b.kernel (poll_at h s).link.pml.recovery
              ≡ deadline b.kernel s.link.pml.recovery =
            ap (λ (k : Link). deadline b.kernel k.pml.recovery) g.next
            ∙ rate_test-keeps (charged h s.link)
            ∙ charged-keeps h s.link in
          elim r [
            | inl late ↦ absurd (cc (g.early))
            | inr later ↦
                polls-ends hs (poll_at h s) (subst (λ (d : ℕ). Reaches d hs) (sym same) later)
          ]
    ]
  ]
