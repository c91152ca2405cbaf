-- ===== src/Pml/PcsWait/Calm.antt =====
-- What the registers, the pauses and the functions of the lock do to the link and to the time that is left.
use ss_sbl.Prelude.{ℕ, ◌-◌, ◌≤◌, ◌≡◌, refl, ◌∙◌, not, if◌then◌else◌, ltb, ◌==◌, arith, if_rec}
use ss_sbl.Link.{Timing}
use ss_sbl.Pml.Regs.{Reg, Field}
use ss_sbl.Pml.{Board, State, P, read64, write64, modify, flush, pause, put}
use ss_sbl.Pml.Pcs.{
  pcs_locked, pcs_aligned, pcs_no_faults, pcs_high_serdes_error, pcs_start_lock, pcs_stop_lock,
}
use ss_sbl.Pml.Waiting.{Turn, RunsOut}
use ss_sbl.Pml.PcsWait.{elapsed, check_eyes, short_pause, lock_late, relock, align_go_on}

module _ {H : Type 0} (b : Board H) {t : Timing} (r : RunsOut b t) where
  -- From one state to the other, the link stays as it is and no time is gained.
  pub record Calm (s s' : State H) : Type 0 where
    pub same : s'.link ≡ s.link
    pub less : r.left s'.hw ≤ r.left s.hw

  -- The same, and some time is lost.
  pub record Later (s s' : State H) : Type 0 where
    pub same : s'.link ≡ s.link
    pub less : r.left s'.hw ≤ r.left s.hw - 1

  pub read64-Later : (reg : Reg) (s : State H) → Later s (read64 b reg s).0
  unfolding read64
  read64-Later reg s = record { same = refl; less = r.left_read reg s.hw }

  pub pcs_locked-Later : (s : State H) → Later s (pcs_locked b s).0
  unfolding pcs_locked
  pcs_locked-Later s = read64-Later Reg.sts_rx_pcs s

  pub pcs_aligned-Later : (s : State H) → Later s (pcs_aligned b s).0
  unfolding pcs_aligned
  pcs_aligned-Later s = read64-Later Reg.sts_rx_pcs s

  pub pcs_no_faults-Later : (s : State H) → Later s (pcs_no_faults b s).0
  unfolding pcs_no_faults
  pcs_no_faults-Later s = read64-Later Reg.sts_rx_pcs s

  pub pcs_high_serdes_error-Later : (s : State H) → Later s (pcs_high_serdes_error b s).0
  unfolding pcs_high_serdes_error
  pcs_high_serdes_error-Later s = read64-Later Reg.sts_rx_pcs s

  pub modify-Calm : (reg : Reg) (f : ℕ → ℕ) (s : State H) → Calm s (modify b reg f s).0
  unfolding modify write64 read64
  modify-Calm reg f s =
      let h = (b.read reg s.hw).0 in
      record {
        same = refl;
        less = omega (arith, r.left_read reg s.hw, r.left_write reg (f (b.read reg s.hw).1) h);
      }

  pub Later→Calm : {s s' : State H} → Later s s' → Calm s s'
  Later→Calm l = record { same = l.same; less = omega (arith, l.less) }

  pub Calm-trans : {s s' s'' : State H} → Calm s s' → Calm s' s'' → Calm s s''
  Calm-trans c d = record { same = d.same ∙ c.same; less = omega (arith, c.less, d.less) }

  pub Later-trans : {s s' s'' : State H} → Later s s' → Calm s' s'' → Later s s''
  Later-trans c d = record { same = d.same ∙ c.same; less = omega (arith, c.less, d.less) }

  pub Calm-refl : (s : State H) → Calm s s
  Calm-refl s = record { same = refl; less = omega arith }

  pub flush-Calm : (reg : Reg) (s : State H) → Calm s (flush b reg s).0
  unfolding flush
  flush-Calm reg s = Later→Calm (read64-Later reg s)

  -- What the two functions of the lock make of the configuration.
  abbrev pub lock_value : State H → ℕ → ℕ
  lock_value s v =
      put b Field.rx_pcs_active_lanes s.link.pml.active_rx_lanes
        (put b Field.rx_pcs_enable_lock 1 v)

  abbrev pub unlock_value : ℕ → ℕ
  unlock_value v = put b Field.rx_pcs_active_lanes 0 (put b Field.rx_pcs_enable_lock 0 v)

  pub start_lock-Calm : (s : State H) → Calm s (pcs_start_lock b s).0
  unfolding pcs_start_lock
  start_lock-Calm s =
      Calm-trans (modify-Calm Reg.cfg_rx_pcs (lock_value s) s) (flush-Calm Reg.cfg_rx_pcs _)

  pub stop_lock-Calm : (s : State H) → Calm s (pcs_stop_lock b s).0
  unfolding pcs_stop_lock
  stop_lock-Calm s =
      Calm-trans (modify-Calm Reg.cfg_rx_pcs unlock_value s) (flush-Calm Reg.cfg_rx_pcs _)

  pub pause-Calm : (us : ℕ) (s : State H) → Calm s (pause b us s).0
  unfolding pause
  pause-Calm us s = record { same = refl; less = r.left_pause us s.hw }

  pub check_eyes-Calm : (s : State H) → Calm s (check_eyes b s).0
  unfolding check_eyes
  check_eyes-Calm s = record { same = refl; less = r.left_eyes s.hw }

  pub relocked : (s : State H) → Calm s (pcs_start_lock b (pcs_stop_lock b s).0).0
  relocked s = Calm-trans (stop_lock-Calm s) (start_lock-Calm _)

  pub short_pause-Calm : (ms : ℕ) (s : State H) → Calm s (short_pause b ms s).0
  unfolding short_pause
  short_pause-Calm ms s = pause-Calm (if ltb 50 ms then 100000 else 10000) s

  pub lock_late-Calm : (s : State H) → Calm s (lock_late b s).0
  unfolding lock_late
  lock_late-Calm s =
      let s₁ = (pcs_high_serdes_error b s).0 in
      let s₂ = (check_eyes b s₁).0 in
      let c₁ = Later→Calm (pcs_high_serdes_error-Later s) in
      let c₂ = Calm-trans c₁ (check_eyes-Calm s₁) in
      if_rec (λ (m : P H Turn). Calm s (m s₁).0) (pcs_high_serdes_error b s).1 c₁
        (if_rec (λ (m : P H Turn). Calm s (m s₂).0) (not ((check_eyes b s₁).1 == 0)) c₂
          (Calm-trans (Calm-trans c₂ (relocked s₂)) (pause-Calm 1000000 _)))

  pub relock-Calm : (s : State H) → Calm s (relock b s).0
  unfolding relock
  relock-Calm s = relocked s

  pub align_go_on-Calm : (start : ℕ) (s : State H) → Calm s (align_go_on b start s).0
  unfolding align_go_on
  align_go_on-Calm start s =
      let s₁ = (pcs_locked b s).0 in
      let c₁ = Later→Calm (pcs_locked-Later s) in
      if_rec (λ (m : P H Turn). Calm s (m s₁).0) (not (pcs_locked b s).1) c₁
        (if_rec (λ (m : P H Turn). Calm s (m s₁).0) (ltb 1000 (elapsed b start s₁))
          (Calm-trans c₁ (relock-Calm s₁))
          (Calm-trans c₁ (short_pause-Calm (elapsed b start s₁) s₁)))
