-- ===== src/Fec/Frame.antt =====
-- The FEC monitor of sbl_fec.c reads and writes the FEC parameters and the counters of a link, and
-- leaves its state, its configuration and its debug flags alone.
use ss_sbl.Prelude.{
  ℕ, zero, suc, ◌+◌, ◌≡◌, refl, ◌∙◌, ap, Bool, true, false, Bool-cases, Option-cases, inl, inr, ◌⊎◌,
  ℤ, if_rec, ◌&&◌, ltb, ◌==◌, leb,
}
use ss_sbl.Link.{Link, LinkStatus, is_up, core}
use ss_sbl.Link.Consts.{fec_up_window, num_counters, ctr_up_fail}
use ss_sbl.Kernel.{Kernel}
use ss_sbl.Counters.{counters_incr}
use ss_sbl.Fec.Thresholds.{Platform}
use ss_sbl.Fec.Rates.{Sample}
use ss_sbl.Fec.Checks.{ccw_rate_bad, ucw_rate_bad, over_threshold, raise_ccw_hwm, raise_ucw_hwm}
use ss_sbl.Fec.Monitor.{fec_up_check, up_loop, up_window, link_rates_update}
use ss_sbl.Fec.Settings.{thresholds_set, ucw_of, ccw_of}
use ss_sbl.Fec.Checks.{txr_rate_bad, raise_txr_hwm, rates_warnings, any_over, widened}
use ss_sbl.Fec.Monitor.{fec_timer_work, timer_ucw, timer_ccw, timer_txr, link_down_async_alert}
use ss_sbl.Link.Consts.{debug_inhibit_cleanup, max_fec_warnings, ctr_fec_warn, fec_mon_period}
use ss_sbl.Media.{debug_option}

core-counters_incr : (counter : ℕ) (l : Link) → core (counters_incr counter l).0 ≡ core l
unfolding counters_incr
core-counters_incr c l = if_rec (λ (r : Link × ℕ). core r.0 ≡ core l) (leb num_counters c) refl refl

core-over_threshold :
    (rate bad counter ignore : ℕ) (l : Link)
    → core (over_threshold rate bad counter ignore l).0 ≡ core l
unfolding over_threshold
core-over_threshold rate bad counter ignore l =
    if_rec (λ (r : Link × Bool). core r.0 ≡ core l) (bad == 0) refl
      (if_rec (λ (r : Link × Bool). core r.0 ≡ core l) (ltb bad rate) (core-counters_incr counter l)
        refl)

core-raise_ccw_hwm : (hwm : ℕ) (l : Link) → core (raise_ccw_hwm hwm l) ≡ core l
unfolding raise_ccw_hwm
core-raise_ccw_hwm hwm l =
    if_rec (λ (r : Link). core r ≡ core l) (ltb hwm l.fec.rates.ccw) refl refl

core-raise_ucw_hwm : (hwm : ℕ) (l : Link) → core (raise_ucw_hwm hwm l) ≡ core l
unfolding raise_ucw_hwm
core-raise_ucw_hwm hwm l =
    if_rec (λ (r : Link). core r ≡ core l) (ltb hwm l.fec.rates.ucw) refl refl

core-ccw_rate_bad :
    (p : Platform) (adj : ℕ) (use_stp : Bool) (l : Link)
    → core (ccw_rate_bad p adj use_stp l).0 ≡ core l
unfolding ccw_rate_bad
core-ccw_rate_bad p adj use_stp l = core-over_threshold _ _ _ _ _ ∙ core-raise_ccw_hwm _ l

core-ucw_rate_bad : (p : Platform) (adj : ℕ) (l : Link) → core (ucw_rate_bad p adj l).0 ≡ core l
unfolding ucw_rate_bad
core-ucw_rate_bad p adj l = core-over_threshold _ _ _ _ _ ∙ core-raise_ucw_hwm _ l

module _ (k : Kernel) (p : Platform) where
  core-up_window :
      (ucw_adj ccw_adj stp_ccw_adj : ℕ) (s : Sample) (l : Link)
      → core (up_window k p ucw_adj ccw_adj stp_ccw_adj s l).0 ≡ core l
  unfolding up_window link_rates_update
  core-up_window ucw_adj ccw_adj stp_ccw_adj s l =
      let l₂ = (ucw_rate_bad p ucw_adj (link_rates_update k p fec_up_window s l).0).0 in
      if_rec (λ (r : Link × Bool). core r.0 ≡ core l₂) (l₂.saved_params && ltb 0 stp_ccw_adj)
        (core-ccw_rate_bad p stp_ccw_adj true l₂) (core-ccw_rate_bad p ccw_adj false l₂)
      ∙ core-ucw_rate_bad p ucw_adj (link_rates_update k p fec_up_window s l).0

  core-up_loop :
      (ucw_adj ccw_adj stp_ccw_adj : ℕ) (samples : ℕ → Sample) (n i : ℕ) (l : Link)
      → core (up_loop k p ucw_adj ccw_adj stp_ccw_adj samples n i l).0 ≡ core l
  unfolding up_loop
  core-up_loop ucw_adj ccw_adj stp samples zero i l = refl
  core-up_loop ucw_adj ccw_adj stp samples (suc n) i l =
      let w = up_window k p ucw_adj ccw_adj stp (samples i) l in
      elim (Bool-cases w.1) [
        | inl bad ↦
            rw (bad, up_loop)
              (core-counters_incr ctr_up_fail w.0
                ∙ core-up_window ucw_adj ccw_adj stp (samples i) l)
        | inr good ↦
            rw (good, up_loop)
              (core-up_loop ucw_adj ccw_adj stp samples n (i + 1) w.0
                ∙ core-up_window ucw_adj ccw_adj stp (samples i) l)
      ]

  pub core-fec_up_check :
      (start : Sample) (samples : ℕ → Sample) (l : Link)
      → core (fec_up_check k p start samples l).0 ≡ core l
  unfolding fec_up_check
  core-fec_up_check start samples l = core-up_loop _ _ _ samples _ 0 _

pub core-thresholds_set :
    (status mode : ℕ) (u c : ℤ) (l : Link) → core (thresholds_set status mode u c l).0 ≡ core l
unfolding thresholds_set
core-thresholds_set status mode u c l = elim (Option-cases (ucw_of u l)) [
  | inl none_u ↦ rw (none_u, thresholds_set) refl
  | inr (ucw, some_u) ↦ elim (Option-cases (ccw_of c l)) [
    | inl none_c ↦ rw (some_u, none_c, thresholds_set) refl
    | inr (ccw, some_c) ↦ rw (some_u, some_c, thresholds_set) refl
  ]
]

core-raise_txr_hwm : (hwm : ℕ) (l : Link) → core (raise_txr_hwm hwm l) ≡ core l
unfolding raise_txr_hwm
core-raise_txr_hwm hwm l =
    if_rec (λ (r : Link). core r ≡ core l) (ltb hwm l.fec.rates.llr_tx_replay) refl refl

core-txr_rate_bad : (l : Link) → core (txr_rate_bad l).0 ≡ core l
unfolding txr_rate_bad
core-txr_rate_bad l = core-over_threshold _ _ _ _ _ ∙ core-raise_txr_hwm _ l

core-rates_warnings : (n : ℕ) (l : Link) → core (rates_warnings n l).0 ≡ core l
unfolding rates_warnings
core-rates_warnings n l =
    if_rec (λ (r : Link × ℕ × Bool). core r.0 ≡ core l) (l.fec.fecl_warn == 0) refl
      (if_rec (λ (r : Link × ℕ × Bool). core r.0 ≡ core l)
        (any_over (widened l.fec.fecl_warn) l.fec.rates.fecl)
        (if_rec (λ (r : Link × ℕ × Bool). core r.0 ≡ core l) (ltb 0 n)
          (core-counters_incr ctr_fec_warn l) (core-counters_incr ctr_fec_warn l))
        refl)

-- The core of a link is as it was, but for an alert that puts it in the state ERROR.
pub record Watched (l l' : Link) : Type 0 where
  pub state : (l'.blstate ≡ l.blstate) ⊎ (l'.blstate ≡ LinkStatus.error)
  pub configured : l'.blconfigured ≡ l.blconfigured
  pub debug : l'.debug_config ≡ l.debug_config

same_Watched : (l l' : Link) → core l' ≡ core l → Watched l l'
same_Watched l l' e = record {
  state = inl (ap (λ c. c.0) e);
  configured = ap (λ c. c.2) e;
  debug = ap (λ c. c.3) e;
}

then_Watched : (l m l' : Link) → core m ≡ core l → Watched m l' → Watched l l'
then_Watched l m l' e w = record {
  state = elim w.state [ inl same ↦ inl (same ∙ ap (λ c. c.0) e) | inr bad ↦ inr bad ];
  configured = w.configured ∙ ap (λ c. c.2) e;
  debug = w.debug ∙ ap (λ c. c.3) e;
}

alert_Watched : (l : Link) → Watched l (link_down_async_alert l)
unfolding link_down_async_alert
alert_Watched l =
    if_rec (λ (r : Link). Watched l r) (debug_option debug_inhibit_cleanup l)
      (record { state = inr refl; configured = refl; debug = refl }) (same_Watched l l refl)

module _ (k : Kernel) (p : Platform) where
  timer_txr-Watched : (l : Link) → Watched l (timer_txr k p l).0
  unfolding timer_txr
  timer_txr-Watched l =
      let m = (txr_rate_bad l).0 in
      let e = core-txr_rate_bad l in
      elim (Bool-cases (txr_rate_bad l).1) [
        | inl bad ↦ rw (bad, timer_txr) (then_Watched l m _ e (alert_Watched m))
        | inr good ↦
            rw (good, timer_txr) (same_Watched l _ (core-rates_warnings max_fec_warnings m ∙ e))
      ]

  timer_ccw-Watched : (adj : ℕ) (l : Link) → Watched l (timer_ccw k p adj l).0
  unfolding timer_ccw
  timer_ccw-Watched adj l =
      let m = (ccw_rate_bad p adj false l).0 in
      let e = core-ccw_rate_bad p adj false l in
      elim (Bool-cases (ccw_rate_bad p adj false l).1) [
        | inl bad ↦ rw (bad, timer_ccw) (then_Watched l m _ e (alert_Watched m))
        | inr good ↦ rw (good, timer_ccw) (then_Watched l m _ e (timer_txr-Watched m))
      ]

  timer_ucw-Watched :
      (ucw_adj ccw_adj : ℕ) (l : Link) → Watched l (timer_ucw k p ucw_adj ccw_adj l).0
  unfolding timer_ucw
  timer_ucw-Watched ucw_adj ccw_adj l =
      let m = (ucw_rate_bad p ucw_adj l).0 in
      let e = core-ucw_rate_bad p ucw_adj l in
      elim (Bool-cases (ucw_rate_bad p ucw_adj l).1) [
        | inl bad ↦ rw (bad, timer_ucw) (then_Watched l m _ e (alert_Watched m))
        | inr good ↦ rw (good, timer_ucw) (then_Watched l m _ e (timer_ccw-Watched ccw_adj m))
      ]

  pub fec_timer_work-Watched :
      (aligned : Bool) (s : Sample) (l : Link)
      → is_up l.blstate ≡ true
      → Watched l (fec_timer_work k p aligned s l).0
  unfolding fec_timer_work link_rates_update
  fec_timer_work-Watched aligned s l up =
      let m = (link_rates_update k p fec_mon_period s l).0 in
      elim (Bool-cases aligned) [
        | inr off ↦ rw (up, off, fec_timer_work) (same_Watched l l refl)
        | inl on ↦ elim (Bool-cases ((link_rates_update k p fec_mon_period s l).1 == 0)) [
          | inr bad ↦ rw (up, on, bad, fec_timer_work) (same_Watched l m refl)
          | inl good ↦
              rw (up, on, good, fec_timer_work) (then_Watched l m _ refl (timer_ucw-Watched _ _ m))
        ]
      ]

  pub fec_timer_work_idle :
      (aligned : Bool) (s : Sample) (l : Link)
      → is_up l.blstate ≡ false
      → (fec_timer_work k p aligned s l).0 ≡ l
  unfolding fec_timer_work
  fec_timer_work_idle aligned s l not_up = rw (not_up, fec_timer_work) refl
