-- ===== src/Pml/Recovery/Budget.antt =====
-- The limit of the time that a port spends in recovery: what the polls take off the budget of a window.
use ss_sbl.Prelude.{
  ℕ, ◌+◌, ◌-◌, ◌^◌, ◌%◌, ◌≡◌, ◌≤◌, ◌<◌, refl, sym, ap, ◌∙◌, subst, inl, inr, true, false, not,
  Bool-cases, if_false, List, [], ◌∷◌, arith,
}
use ss_sbl.Link.{Link}
use ss_sbl.Kernel.{u32, ticks_between}
use ss_sbl.Pml.{Board, State}
use ss_sbl.Pml.Recovery.{charge, window_over, below_poll_interval, recovery_rate_test}
use ss_sbl.Pml.Recovery.Polls.{poll_at, polls, charged, polls-off, poll_at-off, poll_at-GoesOn}

abbrev pub remaining : Link → ℕ
remaining l = l.pml.recovery.rl_time_remaining

-- What an `int` that is not negative loses, where it is left with a poll interval at least
int_budget :
    (before cost after : ℕ)
    → before < 2 ^ 31
    → cost ≤ 2 ^ 31
    → after ≡ (before + 2 ^ 32 - cost) % 2 ^ 32
    → not (below_poll_interval after) ≡ true
    → (cost + after ≡ before) × (4 ≤ after) × (after < 2 ^ 31)
int_budget before cost after fits brief e enough = ground arith

module _ {H : Type 0} (b : Board H) where
  -- The milliseconds that a poll takes off: those since the last poll
  abbrev pub cost : H → Link → ℕ
  cost h l =
      u32 (b.kernel.jiffies_to_msecs (ticks_between (b.jiffies h) l.pml.recovery.last_poll_jiffies))

  -- What the polls take off in all, and that none of them comes so late that an `int` does not hold it
  pub spent : List H → State H → ℕ
  spent [] s = 0
  spent (h ∷ hs) s = cost h s.link + spent hs (poll_at b h s)

  abbrev pub Brief : List H → State H → Type 0
  Brief [] s = Unit
  Brief (h ∷ hs) s = (cost h s.link ≤ 2 ^ 31) × Brief hs (poll_at b h s)

  -- A window has begun, it is not over, and its budget is not negative.
  pub record InWindow (l : Link) : Type 0 where
    pub runs : window_over b.kernel l ≡ false
    pub fits : remaining l < 2 ^ 31

  -- Inside a window the test of the rate leaves the link alone.
  rate_test-window :
      (l : Link)
      → window_over b.kernel l ≡ false
      → recovery_rate_test b.kernel l ≡ (l, not (below_poll_interval (remaining l)))
  unfolding recovery_rate_test
  rate_test-window l w = if_false _ _ w

  charged-window :
      (h : H) (l : Link) → window_over b.kernel (charged b h l) ≡ window_over b.kernel l
  unfolding charge
  charged-window h l = refl

  charged-remaining :
      (h : H) (l : Link) → remaining (charged b h l) ≡ (remaining l + 2 ^ 32 - cost h l) % 2 ^ 32
  unfolding charge
  charged-remaining h l = refl

  -- One poll after which the recovery goes on
  poll_at-budget :
      (h : H) (s : State H)
      → InWindow s.link
      → cost h s.link ≤ 2 ^ 31
      → s.link.recovery_started ≡ true
      → (poll_at b h s).link.recovery_started ≡ true
      → InWindow (poll_at b h s).link
        × (cost h s.link + remaining (poll_at b h s).link ≡ remaining s.link)
        × (4 ≤ remaining (poll_at b h s).link)
  poll_at-budget h s w brief on still =
      let c = charged b h s.link in
      let g = poll_at-GoesOn b h s on still in
      let q = rate_test-window c (charged-window h s.link ∙ w.runs) in
      let same : (poll_at b h s).link ≡ c = g.next ∙ ap (λ p. p.0) q in
      let enough : not (below_poll_interval (remaining c)) ≡ true =
        sym (ap (λ p. p.1) q) ∙ g.allowed in
      let r = charged-remaining h s.link in
      let (sum, least, fits) =
        int_budget (remaining s.link) (cost h s.link) (remaining c) w.fits brief r enough in
      subst
        (λ (k : Link).
          InWindow k × (cost h s.link + remaining k ≡ remaining s.link) × (4 ≤ remaining k))
        (sym same) (record { runs = charged-window h s.link ∙ w.runs; fits = fits }, sum, least)

  -- As long as a recovery goes on inside a window, the time that its polls have taken off and what is
  -- left make up what was left before, so that they never take off more than that. The polls come less
  -- than 2^31 ms after one another.
  pub polls-budget :
      (hs : List H) (s : State H)
      → InWindow s.link
      → Brief hs s
      → (polls b hs s).link.recovery_started ≡ true
      → (spent hs s + remaining (polls b hs s).link ≡ remaining s.link)
        × InWindow (polls b hs s).link
  unfolding polls spent
  polls-budget [] s w brief on = (omega arith, w)
  polls-budget (h ∷ hs) s w brief on = elim (Bool-cases (poll_at b h s).link.recovery_started) [
    | inr off ↦ absurd (cc (on, polls-off b hs (poll_at b h s) off))
    | inl still ↦ elim (Bool-cases s.link.recovery_started) [
      | inr off ↦ absurd (cc (still, poll_at-off b h s off))
      | inl started ↦
          let (w', sum, least) = poll_at-budget h s w brief.0 started still in
          let (all, w'') = polls-budget hs (poll_at b h s) w' brief.1 on in (omega arith, w'')
    ]
  ]
