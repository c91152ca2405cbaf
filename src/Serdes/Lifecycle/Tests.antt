-- ===== src/Serdes/Lifecycle/Tests.antt =====
-- The serdes with hardware whose state is the number of milliseconds until the tick 1000.
use ss_sbl.Prelude.{
  Option, none, some, Bool, test_bit, set_bit, true, ℕ, ◌-◌, ◌≡◌, refl, sym, false, [], arith,
}
use ss_sbl.Link.{Link, SerdesStatus}
use ss_sbl.Link.Consts.{etimedout, mode_bs_200g, media_optical, config_aoc}
use ss_sbl.Kernel.{tick_1000, time_is_after_jiffies}
use ss_sbl.Samples.{timing, link_down, link_up}
use ss_sbl.Timers.{start_timeout}
use ss_sbl.Serdes.Lifecycle.{
  Board, State, SerdesCall, TuningParams, serdes_start, lock_deadline, call, settle,
}
use ss_sbl.Media.{debug_option}
use ss_sbl.Serdes.Lifecycle.Minitune.{
  spico_hal_read, minitune_block, minitune_tuned, minitune_result, filters_off, sig_ok_wait,
  sig_ok_scan, serdes_rx_mask, mask_of, rx_serdes_required, lpd_deadline,
}
use ss_sbl.Serdes.Lifecycle.Minitune.Ends.{TimePasses}
use ss_sbl.Serdes.Lifecycle.Detect.{
  Detected, lpd_loop, lpd_result, lpd_out_done, lpd_timed_out, serdes_lp_detect,
  serdes_lp_detect-Detected,
}
use ss_sbl.Serdes.Lifecycle.Settled.{
  Op, run, Moved, Settled, run-Moved, Elapses, Started, serdes_start-Started,
}

-- A tuning that fails, where all else goes well
abbrev result : SerdesCall → ℕ
result SerdesCall.tuning = 5
result _ = 0

-- The electrical idle is seen.
abbrev no_signal : ℕ
no_signal = 0x100000000

abbrev board : Board ℕ
board = record {
  kernel = tick_1000;
  num_serdes = 4;
  is_hw = true;
  jiffies = λ h. 1000 - h;
  cancelled = λ h. false;
  pause = λ ms h. h - 1 - ms;
  call = λ c h l. (h, l, result c);
  core_status = λ serdes h. (h, no_signal);
  spico_int = λ serdes code v h. (h, (0, spico_hal_read));
  tx_lane_source = λ i. i;
  rx_lane_source = λ i. i;
  optical_lock_delay = 100;
  optical_lock_interval = 10;
  dfe_timeout = 10;
  dfe_pre_delay = 1;
  lpd_timeout = 5;
  lpd_poll_interval = 9;
}

abbrev no_params : TuningParams
no_params = record { magic = 0; version = 0; tp_state_hash0 = 0; tp_state_hash1 = 0; params = [] }

abbrev port_of : Link → State ℕ
port_of l = record {
  hw = 100;
  link = l;
  tuning_params = no_params;
  optical_delay_active = false;
  lpd_try_count = 0;
}

run-Moved_example :
    Moved board Op.stop (port_of link_up) (run board Op.stop (port_of link_up))
    × Settled SerdesStatus.down (run board Op.reset (port_of link_up))
run-Moved_example = run-Moved board Op.stop (port_of link_up)

time_passes : time_is_after_jiffies tick_1000 1000 1000 ≡ false
unfolding time_is_after_jiffies
time_passes = refl

abbrev elapses : Elapses board 1000
elapses = record { left = λ h. h; over = λ h e. rw e time_passes; left_pause = λ ms h. omega arith }

abbrev optical : State ℕ
optical = port_of (record link_down {
  mattr = record (link_down.mattr) { media = media_optical };
  blattr = record (link_down.blattr) { config_target = config_aoc };
})

optical_deadline : lock_deadline board (call board (SerdesCall.config false) optical).0 ≡ 1000
unfolding lock_deadline call
optical_deadline = refl

hw_kept : (call board (SerdesCall.config false) optical).0.hw ≡ 100
unfolding call
hw_kept = refl

serdes_start-Started_example : Started board optical (serdes_start board 101 optical)
unfolding call
serdes_start-Started_example =
    serdes_start-Started board elapses 101 optical (sym optical_deadline) (omega arith)

-- A partner that is not there: each call takes a millisecond, and no signal comes until the start timeout.
abbrev waiting : Board ℕ
waiting = record board { call = λ c h l. (h - 1, l, result c); jiffies = λ h. 21001 - h }

expired : start_timeout tick_1000 21001 timing ≡ true
unfolding start_timeout
expired = refl

abbrev passes : TimePasses waiting timing
passes = record {
  left = λ h. h;
  over = λ h e. rw e expired;
  left_status = λ i h. omega arith;
  left_spico = λ i c v h. omega arith;
  left_pause = λ ms h. omega arith;
  left_call = λ c h l. omega arith;
  call_timing = λ c h l. refl;
  spico_error = λ i c v h e. absurd (omega arith);
}

serdes_lp_detect-Detected_example :
    Detected waiting (serdes_lp_detect waiting 101 (port_of link_down))
serdes_lp_detect-Detected_example =
    serdes_lp_detect-Detected waiting passes 101 (port_of link_down) refl (ground arith) refl
      (omega arith)

-- What a detection shows: the error, the status of the serdes, and whether the partner is there
abbrev seen : Option (State ℕ × ℕ) → ℕ × SerdesStatus × Bool
seen none = (1, SerdesStatus.error, false)
seen (some (s, err)) = (err, s.link.sstate, s.link.lp_detected)

-- All four serdes show a signal, or none does until the time is over.
abbrev answering : Board ℕ
answering = record waiting { core_status = λ serdes h. (h, 0) }

abbrev port_200g : State ℕ
port_200g = port_of (record link_down { link_mode = mode_bs_200g })

partner_there : seen (serdes_lp_detect answering 101 port_200g) ≡ (0, SerdesStatus.down, true)
unfolding serdes_lp_detect lpd_loop lpd_result lpd_out_done lpd_timed_out settle call minitune_block
    minitune_tuned minitune_result filters_off sig_ok_wait sig_ok_scan serdes_rx_mask mask_of
    rx_serdes_required lpd_deadline start_timeout time_is_after_jiffies test_bit set_bit
partner_there = refl

partner_absent :
    seen (serdes_lp_detect waiting 101 port_200g) ≡ (etimedout, SerdesStatus.down, false)
unfolding serdes_lp_detect lpd_loop lpd_result lpd_out_done lpd_timed_out settle call minitune_block
    minitune_tuned minitune_result filters_off sig_ok_wait sig_ok_scan serdes_rx_mask mask_of
    rx_serdes_required lpd_deadline start_timeout time_is_after_jiffies test_bit set_bit
    debug_option
partner_absent = refl
