-- ===== src/Fec/Monitor.antt =====
-- The two users of the FEC tests in sbl_fec.c: the check when a link comes up, and the periodic work
-- of a link that is up; with the alert of sbl_pml.c that takes a link down.
use ss_sbl.Prelude.{
  ℕ, zero, suc, ◌+◌, Bool, true, false, ◌&&◌, ◌||◌, ltb, ◌==◌, if◌then◌else◌, test_bit,
}
use ss_sbl.Link.{LinkStatus, Link, is_up}
use ss_sbl.Link.Consts.{
  eoverflow, ctr_up_fail, opt_fabric_link, fec_up_count_fabric, fec_up_count_edge, fec_up_window,
  fec_mon_period, max_fec_warnings, debug_inhibit_cleanup, econnaborted,
}
use ss_sbl.Kernel.{Kernel}
use ss_sbl.Media.{debug_option}
use ss_sbl.Counters.{counters_incr}
use ss_sbl.Fec.Thresholds.{Platform}
use ss_sbl.Fec.Rates.{Sample, counts_get, rates_update}
use ss_sbl.Fec.Checks.{ccw_rate_bad, ucw_rate_bad, txr_rate_bad, rates_warnings}

-- The part of enum sbl_link_down_origin that the monitor uses.
pub data DownOrigin : Type 0 where
  ucw ccw llr_tx_replay : DownOrigin

-- What sbl_pml_link_down_async_alert does to the link. It also masks the interrupts of the port and
-- passes the origin to the caller's alert handler.
unfoldable pub link_down_async_alert : Link → Link
unfolding debug_option
link_down_async_alert l =
    if debug_option debug_inhibit_cleanup l
    then record l { blstate = LinkStatus.error; blerr = econnaborted }
    else l

-- How a run of the periodic work ends: with an alert, and then no timer; or with the timer set for
-- the next run, and perhaps a warning printed.
pub data Outcome : Type 0 where
  alert : DownOrigin → Outcome
  rearm : Bool → Outcome

module _ (k : Kernel) (p : Platform) where
  -- sbl_fec_rates_update on the link
  unfoldable pub link_rates_update : ℕ → Sample → Link → Link × ℕ
  unfolding rates_update
  link_rates_update window s l =
      let (f, err) = rates_update k window s l.fec_discard_time l.fec in (record l { fec = f }, err)

  -- The last test of sbl_fec_timer_work and the warnings, with the fresh warning count of each run.
  unfoldable pub timer_txr : Link → Link × Outcome
  unfolding txr_rate_bad rates_warnings
  timer_txr l =
      let (l', bad) = txr_rate_bad l in
      if bad
      then (link_down_async_alert l', alert DownOrigin.llr_tx_replay)
      else (let (l'', left, warned) = rates_warnings max_fec_warnings l' in (l'', rearm warned))

  unfoldable pub timer_ccw : ℕ → Link → Link × Outcome
  unfolding ccw_rate_bad
  timer_ccw ccw_adj l =
      let (l', bad) = ccw_rate_bad p ccw_adj false l in
      if bad then (link_down_async_alert l', alert DownOrigin.ccw) else timer_txr l'

  unfoldable pub timer_ucw : ℕ → ℕ → Link → Link × Outcome
  unfolding ucw_rate_bad
  timer_ucw ucw_adj ccw_adj l =
      let (l', bad) = ucw_rate_bad p ucw_adj l in
      if bad then (link_down_async_alert l', alert DownOrigin.ucw) else timer_ccw ccw_adj l'

  -- sbl_fec_timer_work; `aligned` is what sbl_pml_pcs_aligned finds.
  unfoldable pub fec_timer_work : Bool → Sample → Link → Link × Outcome
  unfolding link_rates_update
  fec_timer_work aligned s l =
      if is_up l.blstate && aligned
      then (let (l', err) = link_rates_update fec_mon_period s l in
          if err == 0
          then timer_ucw l'.fec.ucw_down_thresh_adj l'.fec.ccw_down_thresh_adj l'
          else (l', rearm false))
      else (l, rearm false)

  -- One window of sbl_fec_up_check: the link, and whether a test failed. The result of
  -- sbl_fec_rates_update is not looked at.
  unfoldable pub up_window : ℕ → ℕ → ℕ → Sample → Link → Link × Bool
  unfolding link_rates_update ucw_rate_bad ccw_rate_bad
  up_window ucw_adj ccw_adj stp_ccw_adj s l =
      let (l₁, err) = link_rates_update fec_up_window s l in
      let (l₂, ucw_err) = ucw_rate_bad p ucw_adj l₁ in
      let (l₃, ccw_err) =
        if l₂.saved_params && ltb 0 stp_ccw_adj
        then ccw_rate_bad p stp_ccw_adj true l₂
        else ccw_rate_bad p ccw_adj false l₂ in
      (l₃, ucw_err || ccw_err)

  -- The loop of sbl_fec_up_check: `n` windows are left, and the next is number i.
  unfoldable pub up_loop : ℕ → ℕ → ℕ → (ℕ → Sample) → ℕ → ℕ → Link → Link × ℕ
  unfolding up_window counters_incr
  up_loop ucw_adj ccw_adj stp_ccw_adj samples zero i l = (l, 0)
  up_loop ucw_adj ccw_adj stp_ccw_adj samples (suc n) i l =
      let w = up_window ucw_adj ccw_adj stp_ccw_adj (samples i) l in
      elim w.1 [
        | true ↦ ((counters_incr ctr_up_fail w.0).0, eoverflow)
        | false ↦ up_loop ucw_adj ccw_adj stp_ccw_adj samples n (i + 1) w.0
      ]

  -- sbl_fec_up_check; `start` gives the first reading, after the settling time, and `samples` those
  -- of the windows.
  unfoldable pub fec_up_check : Sample → (ℕ → Sample) → Link → Link × ℕ
  unfolding counts_get up_loop
  fec_up_check start samples l =
      let f = record (l.fec) { curr_cnts = counts_get start.read start.read_jiffies } in
      up_loop f.ucw_up_thresh_adj f.ccw_up_thresh_adj f.stp_ccw_up_thresh_adj samples
        (if test_bit opt_fabric_link l.blattr.options
          then fec_up_count_fabric
          else fec_up_count_edge)
        0 (record l { fec = f })
