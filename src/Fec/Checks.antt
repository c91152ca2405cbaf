-- ===== src/Fec/Checks.antt =====
-- The tests of sbl_fec.c that a rate is bad, each with its high water mark and its counter, and the
-- warnings about the lanes.
use ss_sbl.Prelude.{
  ℕ, ◌+◌, ◌-◌, ◌*◌, ◌/◌, ◌^◌, Bool, true, false, not, List, [], ◌∷◌, ltb, ◌==◌, if◌then◌else◌,
}
use ss_sbl.Link.{Link}
use ss_sbl.Link.Consts.{
  ctr_ucw_err, ctr_ccw_err, ctr_txr_err, ctr_fec_warn, debug_ignore_high_fec_ucw,
  debug_ignore_high_fec_ccw, debug_ignore_high_fec_txr,
}
use ss_sbl.Kernel.{u32, u64}
use ss_sbl.Media.{debug_option}
use ss_sbl.Counters.{counters_incr}
use ss_sbl.Fec.Thresholds.{Platform, ucw_bad_get, ccw_bad_get}

-- The percentage adjustment of a threshold, in 64 bits.
abbrev pub adjusted : ℕ → ℕ → ℕ
adjusted bad adj = u64 (bad * adj) / 100

-- The end of each test: a zero threshold is no test, and a rate over the threshold is counted and
-- reported unless the debug option says to ignore it.
unfoldable pub over_threshold : ℕ → ℕ → ℕ → ℕ → Link → Link × Bool
unfolding counters_incr debug_option
over_threshold rate bad counter ignore l =
    if bad == 0
    then (l, false)
    else if ltb bad rate
    then ((counters_incr counter l).0, not (debug_option ignore l))
    else (l, false)

-- The update of a high water mark, at the start of each test. The mark is a `u32`, the rate a `u64`.
unfoldable pub raise_ccw_hwm : ℕ → Link → Link
raise_ccw_hwm hwm l =
    if ltb hwm l.fec.rates.ccw
    then record l { fec = record (l.fec) { ccw_hwm = u32 l.fec.rates.ccw } }
    else l

unfoldable pub raise_ucw_hwm : ℕ → Link → Link
raise_ucw_hwm hwm l =
    if ltb hwm l.fec.rates.ucw
    then record l { fec = record (l.fec) { ucw_hwm = u32 l.fec.rates.ucw } }
    else l

unfoldable pub raise_txr_hwm : ℕ → Link → Link
raise_txr_hwm hwm l =
    if ltb hwm l.fec.rates.llr_tx_replay
    then record l { fec = record (l.fec) { llr_tx_replay_hwm = u32 l.fec.rates.llr_tx_replay } }
    else l

-- sbl_fec_ccw_rate_bad
unfoldable pub ccw_rate_bad : Platform → ℕ → Bool → Link → Link × Bool
ccw_rate_bad p thresh_adj use_stp l =
    let (bad, hwm) = ccw_bad_get p l.fec use_stp in
    over_threshold l.fec.rates.ccw (adjusted bad thresh_adj) ctr_ccw_err debug_ignore_high_fec_ccw
      (raise_ccw_hwm hwm l)

-- sbl_fec_ucw_rate_bad
unfoldable pub ucw_rate_bad : Platform → ℕ → Link → Link × Bool
ucw_rate_bad p thresh_adj l =
    let (bad, hwm) = ucw_bad_get p l.fec in
    over_threshold l.fec.rates.ucw (adjusted bad thresh_adj) ctr_ucw_err debug_ignore_high_fec_ucw
      (raise_ucw_hwm hwm l)

-- sbl_fec_txr_rate_bad, which does not use its adjustment
unfoldable pub txr_rate_bad : Link → Link × Bool
txr_rate_bad l =
    over_threshold l.fec.rates.llr_tx_replay l.fec.llr_tx_replay_thresh ctr_txr_err
      debug_ignore_high_fec_txr (raise_txr_hwm l.fec.llr_tx_replay_hwm l)

-- The threshold for warnings is copied into an `int` and compared with a `u64`.
abbrev pub widened : ℕ → ℕ
widened warn = if ltb warn (2 ^ 31) then warn else warn + 2 ^ 64 - 2 ^ 32

-- Whether the loop over the lanes finds a rate over the threshold.
unfoldable pub any_over : ℕ → List ℕ → Bool
any_over bound [] = false
any_over bound (rate ∷ rates) = if ltb bound rate then true else any_over bound rates

-- sbl_fec_rates_warnings: the link, the warnings left, and whether one was printed.
unfoldable pub rates_warnings : ℕ → Link → Link × ℕ × Bool
unfolding counters_incr any_over
rates_warnings warning_count l =
    if l.fec.fecl_warn == 0
    then (l, warning_count, false)
    else if any_over (widened l.fec.fecl_warn) l.fec.rates.fecl
    then if ltb 0 warning_count
      then ((counters_incr ctr_fec_warn l).0, warning_count - 1, true)
      else ((counters_incr ctr_fec_warn l).0, warning_count, false)
    else (l, warning_count, false)
