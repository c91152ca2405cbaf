-- ===== src/Fec/Work.antt =====
-- When the periodic work of sbl_fec.c takes a link down: soundness and completeness of its alert.
use ss_sbl.Prelude.{ℕ, ◌≡◌, ◌≢◌, ◌⊎◌, refl, Bool, true, false, ◌&&◌, not, arith, ◌==◌}
use ss_sbl.Link.{Link, FecPrmts, is_up}
use ss_sbl.Link.Consts.{
  debug_ignore_high_fec_ucw, debug_ignore_high_fec_ccw, debug_ignore_high_fec_txr, fec_mon_period,
}
use ss_sbl.Kernel.{Kernel}
use ss_sbl.Media.{debug_option}
use ss_sbl.Fec.Thresholds.{Platform, ucw_bad_get, ccw_bad_get}
use ss_sbl.Fec.Rates.{Sample}
use ss_sbl.Fec.Checks.{
  adjusted, over_threshold, raise_ucw_hwm, raise_ccw_hwm, raise_txr_hwm, ccw_rate_bad, ucw_rate_bad,
  txr_rate_bad, rates_warnings, any_over, widened,
}
use ss_sbl.Fec.Monitor.{
  DownOrigin, alert, rearm, link_rates_update, timer_txr, timer_ccw, timer_ucw, fec_timer_work,
}
use ss_sbl.Fec.Alarms.{Over, is_over}

-- The thresholds and rates in which the tests of one run have to agree.
record SameRates (f g : FecPrmts) : Type 0 where
  rates : g.rates ≡ f.rates
  ccw_thresh : g.ccw_thresh ≡ f.ccw_thresh
  llr_thresh : g.llr_tx_replay_thresh ≡ f.llr_tx_replay_thresh
  ccw_adj : g.ccw_down_thresh_adj ≡ f.ccw_down_thresh_adj
  warn : g.fecl_warn ≡ f.fecl_warn

-- What a test that a rate is bad leaves of the link.
record Kept (l l' : Link) : Type 0 where
  same : SameRates l.fec l'.fec
  debug : l'.debug_config ≡ l.debug_config

module _ (p : Platform) where
  ucw_rate_bad-eq :
      (adj : ℕ) (l : Link)
      → ((ucw_rate_bad p adj l).1 ≡ (
          is_over l.fec.rates.ucw (adjusted (ucw_bad_get p l.fec).0 adj)
          && not (debug_option debug_ignore_high_fec_ucw l)))
        × Kept l (ucw_rate_bad p adj l).0
  unfolding ucw_rate_bad raise_ucw_hwm over_threshold debug_option
  ucw_rate_bad-eq adj l = ground arith

  ccw_rate_bad-eq :
      (adj : ℕ) (use_stp : Bool) (l : Link)
      → ((ccw_rate_bad p adj use_stp l).1 ≡ (
          is_over l.fec.rates.ccw (adjusted (ccw_bad_get p l.fec use_stp).0 adj)
          && not (debug_option debug_ignore_high_fec_ccw l)))
        × Kept l (ccw_rate_bad p adj use_stp l).0
  unfolding ccw_rate_bad raise_ccw_hwm over_threshold debug_option
  ccw_rate_bad-eq adj use_stp l = ground arith

txr_rate_bad-eq :
    (l : Link)
    → ((txr_rate_bad l).1 ≡ (
        is_over l.fec.rates.llr_tx_replay l.fec.llr_tx_replay_thresh
        && not (debug_option debug_ignore_high_fec_txr l)))
      × Kept l (txr_rate_bad l).0
unfolding txr_rate_bad raise_txr_hwm over_threshold debug_option
txr_rate_bad-eq l = ground arith

ccw_bad_get-same :
    (p : Platform) (f g : FecPrmts)
    → SameRates f g
    → (ccw_bad_get p g false).0 ≡ (ccw_bad_get p f false).0
unfolding ccw_bad_get
ccw_bad_get-same Platform.cassini f g s = refl
ccw_bad_get-same Platform.rosetta f g s = s.ccw_thresh

-- The rate that an origin stands for is over its threshold, as adjusted for a link that is up.
abbrev pub Breach : Platform → DownOrigin → FecPrmts → Type 0
Breach p DownOrigin.ucw f = Over f.rates.ucw (adjusted (ucw_bad_get p f).0 f.ucw_down_thresh_adj)
Breach p DownOrigin.ccw f =
    Over f.rates.ccw (adjusted (ccw_bad_get p f false).0 f.ccw_down_thresh_adj)
Breach p DownOrigin.llr_tx_replay f = Over f.rates.llr_tx_replay f.llr_tx_replay_thresh

-- The debug option that makes the monitor ignore a breach.
abbrev pub ignore_of : DownOrigin → ℕ
ignore_of DownOrigin.ucw = debug_ignore_high_fec_ucw
ignore_of DownOrigin.ccw = debug_ignore_high_fec_ccw
ignore_of DownOrigin.llr_tx_replay = debug_ignore_high_fec_txr

module _ (k : Kernel) (p : Platform) where
  timer_txr-alert :
      (l : Link) (o : DownOrigin)
      → (timer_txr k p l).1 ≡ alert o
      → (o ≡ DownOrigin.llr_tx_replay)
        × Breach p DownOrigin.llr_tx_replay l.fec
        × (debug_option debug_ignore_high_fec_txr l ≡ false)
  unfolding timer_txr
  timer_txr-alert l o e = ground (arith, txr_rate_bad-eq l)

  timer_ccw-alert :
      (l : Link) (o : DownOrigin)
      → (timer_ccw k p l.fec.ccw_down_thresh_adj l).1 ≡ alert o
      → (o ≢ DownOrigin.ucw) × Breach p o l.fec × (debug_option (ignore_of o) l ≡ false)
  unfolding timer_ccw debug_option
  timer_ccw-alert l o e =
      let l' = (ccw_rate_bad p l.fec.ccw_down_thresh_adj false l).0 in
      ground (arith, ccw_rate_bad-eq p l.fec.ccw_down_thresh_adj false l, timer_txr-alert l' o)

  timer_ucw-alert :
      (l : Link) (o : DownOrigin)
      → (timer_ucw k p l.fec.ucw_down_thresh_adj l.fec.ccw_down_thresh_adj l).1 ≡ alert o
      → Breach p o l.fec × (debug_option (ignore_of o) l ≡ false)
  unfolding timer_ucw debug_option
  timer_ucw-alert l o e =
      let l' = (ucw_rate_bad p l.fec.ucw_down_thresh_adj l).0 in
      ground (
        arith,
        ucw_rate_bad-eq p l.fec.ucw_down_thresh_adj l,
        timer_ccw-alert l' o,
        ccw_bad_get-same p l.fec l'.fec,
      )

  -- sbl_fec_timer_work raises an alert only for a link that is up and aligned, in a window whose
  -- rates count, when the rate that the alert names is over its threshold and no debug option says to
  -- ignore it.
  pub fec_timer_work-alert :
      (aligned : Bool) (s : Sample) (l : Link) (o : DownOrigin)
      → (fec_timer_work k p aligned s l).1 ≡ alert o
      → (is_up l.blstate ≡ true)
        × (aligned ≡ true)
        × ((link_rates_update k p fec_mon_period s l).1 ≡ 0)
        × Breach p o (link_rates_update k p fec_mon_period s l).0.fec
        × (debug_option (ignore_of o) l ≡ false)
  unfolding fec_timer_work debug_option
  fec_timer_work-alert aligned s l o e =
      let l' = (link_rates_update k p fec_mon_period s l).0 in ground (arith, timer_ucw-alert l' o)

  timer_txr-rearm :
      (l : Link) (w : Bool)
      → (timer_txr k p l).1 ≡ rearm w
      → ((debug_option debug_ignore_high_fec_txr l ≡ true)
          ⊎ (¬ Breach p DownOrigin.llr_tx_replay l.fec))
        × (w ≡ (not (l.fec.fecl_warn == 0) && any_over (widened l.fec.fecl_warn) l.fec.rates.fecl))
  unfolding timer_txr rates_warnings
  timer_txr-rearm l w e = ground (arith, txr_rate_bad-eq l)

  -- No origin is in breach, but for those that a debug option says to ignore.
  abbrev pub Clear : Link → FecPrmts → Type 0
  Clear l f =
      ((debug_option debug_ignore_high_fec_ucw l ≡ true) ⊎ (¬ Breach p DownOrigin.ucw f))
      × ((debug_option debug_ignore_high_fec_ccw l ≡ true) ⊎ (¬ Breach p DownOrigin.ccw f))
      × ((debug_option debug_ignore_high_fec_txr l ≡ true)
          ⊎ (¬ Breach p DownOrigin.llr_tx_replay f))

  timer_ccw-rearm :
      (l : Link) (w : Bool)
      → (timer_ccw k p l.fec.ccw_down_thresh_adj l).1 ≡ rearm w
      → ((debug_option debug_ignore_high_fec_ccw l ≡ true) ⊎ (¬ Breach p DownOrigin.ccw l.fec))
        × ((debug_option debug_ignore_high_fec_txr l ≡ true)
            ⊎ (¬ Breach p DownOrigin.llr_tx_replay l.fec))
        × (w ≡ (not (l.fec.fecl_warn == 0) && any_over (widened l.fec.fecl_warn) l.fec.rates.fecl))
  unfolding timer_ccw debug_option
  timer_ccw-rearm l w e =
      let l' = (ccw_rate_bad p l.fec.ccw_down_thresh_adj false l).0 in
      ground (arith, ccw_rate_bad-eq p l.fec.ccw_down_thresh_adj false l, timer_txr-rearm l' w)

  timer_ucw-rearm :
      (l : Link) (w : Bool)
      → (timer_ucw k p l.fec.ucw_down_thresh_adj l.fec.ccw_down_thresh_adj l).1 ≡ rearm w
      → Clear l l.fec
        × (w ≡ (not (l.fec.fecl_warn == 0) && any_over (widened l.fec.fecl_warn) l.fec.rates.fecl))
  unfolding timer_ucw debug_option
  timer_ucw-rearm l w e =
      let l' = (ucw_rate_bad p l.fec.ucw_down_thresh_adj l).0 in
      ground (
        arith,
        ucw_rate_bad-eq p l.fec.ucw_down_thresh_adj l,
        timer_ccw-rearm l' w,
        ccw_bad_get-same p l.fec l'.fec,
      )

  -- When the work of a link that is up and aligned ends, in a window whose rates count, by setting
  -- the timer again, then no rate is over its threshold but for those that a debug option says to
  -- ignore. It has printed a warning exactly when the warning threshold is not zero and the rate of a
  -- lane is over it, however many warnings the runs before have printed.
  pub fec_timer_work-rearm :
      (aligned : Bool) (s : Sample) (l : Link) (w : Bool)
      → is_up l.blstate ≡ true
      → aligned ≡ true
      → (link_rates_update k p fec_mon_period s l).1 ≡ 0
      → (fec_timer_work k p aligned s l).1 ≡ rearm w
      → let f = (link_rates_update k p fec_mon_period s l).0.fec in
        Clear l f × (w ≡ (not (f.fecl_warn == 0) && any_over (widened f.fecl_warn) f.rates.fecl))
  unfolding fec_timer_work debug_option
  fec_timer_work-rearm aligned s l w hu ha hr e =
      let l' = (link_rates_update k p fec_mon_period s l).0 in ground (arith, timer_ucw-rearm l' w)
