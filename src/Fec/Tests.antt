-- ===== src/Fec/Tests.antt =====
-- The FEC monitor on the sample link, with a quiet and a noisy second.
use ss_sbl.Prelude.{
  ℕ, ◌+◌, ◌*◌, ◌/◌, ◌≡◌, ◌≢◌, ◌<◌, refl, true, false, not, ◌&&◌, ◌==◌, arith, max, test_bit,
}
use ss_sbl.Link.Consts.{
  fec_up_window, fec_mon_period, ctr_ucw_err, debug_ignore_high_fec_ucw, eoverflow,
}
use ss_sbl.Kernel.{tick_1000, ticks_between}
use ss_sbl.Media.{debug_option}
use ss_sbl.Samples.{link_up, quiet, noisy, monitored}
use ss_sbl.Fec.Thresholds.{Platform, ucw_bad_get, ccw_bad_get}
use ss_sbl.Fec.Rates.{Sample, rates_update, rates_update_divides}
use ss_sbl.Fec.Checks.{
  ucw_rate_bad, any_over, widened, over_threshold, raise_ucw_hwm, raise_ccw_hwm, raise_txr_hwm,
}
use ss_sbl.Fec.Monitor.{
  DownOrigin, alert, rearm, up_loop, link_rates_update, fec_timer_work, timer_ucw, timer_ccw,
  timer_txr,
}
use ss_sbl.Fec.Alarms.{Verdict, ucw_rate_bad_lem}
use ss_sbl.Fec.UpCheck.{window_fails, up_loop-pass, up_loop-fail}
use ss_sbl.Fec.Work.{Breach, Clear, ignore_of, fec_timer_work-alert, fec_timer_work-rearm}

abbrev quiet_windows : ℕ → Sample
quiet_windows i = record quiet { jiffies = 2500 * (i + 1); read_jiffies = 2500 * (i + 1) }

abbrev noisy_windows : ℕ → Sample
noisy_windows i = noisy

counts_second : (rates_update tick_1000 1000 quiet 0 monitored).1 ≡ 0
unfolding rates_update
counts_second = refl

rates_update_divides_example :
    ticks_between
      (rates_update tick_1000 1000 quiet 0 monitored).0.curr_cnts.time
      (rates_update tick_1000 1000 quiet 0 monitored).0.prev_cnts.time
    ≢ 0
rates_update_divides_example =
    rates_update_divides tick_1000 1000 0 quiet monitored (omega arith) (omega arith) (omega arith)
      (omega arith) (omega arith) (omega arith) counts_second

ucw_rate_bad_lem_example :
    Verdict 50
      ((ucw_bad_get Platform.rosetta monitored).0 * 100 / 100)
      ctr_ucw_err
      debug_ignore_high_fec_ucw
      link_up
      (ucw_rate_bad Platform.rosetta 100 link_up)
    × ((ucw_rate_bad Platform.rosetta 100 link_up).0.fec.ucw_hwm ≡ max 10 50)
unfolding ucw_bad_get
ucw_rate_bad_lem_example =
    ucw_rate_bad_lem Platform.rosetta 100 link_up refl (omega arith) (omega arith) (omega arith)

-- The first reading of an up check, of the same tick as the last, is too short a window.
too_short :
    (link_rates_update tick_1000 Platform.rosetta fec_up_window
      (record noisy { jiffies = 1 })
      link_up).1
    ≢ 0
unfolding link_rates_update rates_update
too_short e = absurd (ground arith)

passes : (up_loop tick_1000 Platform.rosetta 100 100 100 quiet_windows 4 0 link_up).1 ≡ 0
unfolding up_loop test_bit over_threshold ucw_bad_get ccw_bad_get raise_ucw_hwm raise_ccw_hwm
passes = refl

up_loop-pass_example :
    window_fails tick_1000 Platform.rosetta 100 100 100 quiet_windows 2 0 link_up ≡ false
up_loop-pass_example =
    up_loop-pass tick_1000 Platform.rosetta 100 100 100 quiet_windows 4 0 link_up 2 (omega arith)
      passes

overflows : (up_loop tick_1000 Platform.rosetta 100 100 100 noisy_windows 4 0 link_up).1 ≡ eoverflow
unfolding up_loop test_bit over_threshold ucw_bad_get ccw_bad_get raise_ucw_hwm raise_ccw_hwm
    debug_option
overflows = refl

up_loop-fail_example :
    (j : ℕ) × (j < 4)
    × (window_fails tick_1000 Platform.rosetta 100 100 100 noisy_windows j 0 link_up ≡ true)
    × ((up_loop tick_1000 Platform.rosetta 100 100 100 noisy_windows 4 0 link_up).1 ≡ eoverflow)
up_loop-fail_example =
    up_loop-fail tick_1000 Platform.rosetta 100 100 100 noisy_windows 4 0 link_up
      (λ e. omega (arith, overflows))

alerts : (fec_timer_work tick_1000 Platform.rosetta true noisy link_up).1 ≡ alert DownOrigin.ucw
unfolding fec_timer_work test_bit over_threshold ucw_bad_get ccw_bad_get raise_ucw_hwm raise_ccw_hwm
    debug_option timer_ucw
alerts = refl

fec_timer_work-alert_example :
    (true ≡ true)
    × (true ≡ true)
    × ((link_rates_update tick_1000 Platform.rosetta fec_mon_period noisy link_up).1 ≡ 0)
    × Breach Platform.rosetta DownOrigin.ucw
        (link_rates_update tick_1000 Platform.rosetta fec_mon_period noisy link_up).0.fec
    × (debug_option (ignore_of DownOrigin.ucw) link_up ≡ false)
fec_timer_work-alert_example =
    fec_timer_work-alert tick_1000 Platform.rosetta true noisy link_up DownOrigin.ucw alerts

counts_quiet : (link_rates_update tick_1000 Platform.rosetta fec_mon_period quiet link_up).1 ≡ 0
unfolding link_rates_update
counts_quiet = refl

rearms : (fec_timer_work tick_1000 Platform.rosetta true quiet link_up).1 ≡ rearm false
unfolding fec_timer_work test_bit over_threshold ucw_bad_get ccw_bad_get raise_ucw_hwm raise_ccw_hwm
    debug_option timer_ucw timer_ccw timer_txr raise_txr_hwm
rearms = refl

fec_timer_work-rearm_example :
    let f = (link_rates_update tick_1000 Platform.rosetta fec_mon_period quiet link_up).0.fec in
    Clear tick_1000 Platform.rosetta link_up f
    × (false ≡ (not (f.fecl_warn == 0) && any_over (widened f.fecl_warn) f.rates.fecl))
fec_timer_work-rearm_example =
    fec_timer_work-rearm tick_1000 Platform.rosetta true quiet link_up false refl refl counts_quiet
      rearms
