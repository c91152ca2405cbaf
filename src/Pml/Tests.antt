-- ===== src/Pml/Tests.antt =====
-- Runs of the PML block at sample states of a port.
use ss_sbl.Prelude.{
  ℕ, ◌+◌, ◌*◌, ◌≡◌, ◌≤◌, refl, word_or, true, false, some, [], ◌∷◌, inl, inr, arith, test_bit,
  set_bit, clear_bit, last_or,
}
use ss_sbl.Kernel.{tick_1000, time_is_before_jiffies}
use ss_sbl.Link.{Link}
use ss_sbl.Link.Consts.{mode_bs_200g, mode_cd_100g, loopback_off, einval}
use ss_sbl.Samples.{timing, link_up}
use ss_sbl.Timers.{start_timeout}
use ss_sbl.Pml.{State, IntrOp, read64, write64, modify, flush, pause, timed_out, was_cancelled, now}
use ss_sbl.Pml.PcsWait.{
  pcs_wait, wait_loop, alignment_wait, flagged, align_loop, lock_round, align_round,
  fault_clear_wait, elapsed, fault_free, fault_loop, fault_pause, fault_round, wait_out,
}
use ss_sbl.Pml.Llr.{calculate_capacity, bytes_per_ns}
use ss_sbl.Pml.Llr.Capacity.{Fits, calculate_capacity_lem}
use ss_sbl.Pml.LlrMode.{
  measure_loop_time, measure_bounds, measure_from, measure_within, measure_result, measure_loop,
  measure_once, take_time,
}
use ss_sbl.Pml.LlrMode.Measure.{Within, measure_loop_time-bounds}
use ss_sbl.Pml.Intr.{change_intr_handler, intr_op}
use ss_sbl.Pml.Intr.Subset.{Installed, change_intr_handler_lem}
use ss_sbl.Pml.Recovery.{
  reached, deadline, recovery_poll, recovery_poll_result, recovery_rate_test, charge,
  recovery_rearm,
}
use ss_sbl.Pml.Pcs.{
  recovery_no_faults, pcs_locked, pcs_aligned, pcs_clear_tx_rf, pcs_start_lock, pcs_no_faults,
}
use ss_sbl.BaseLink.{link_info_set, link_info_clear}
use ss_sbl.Pml.Recovery.Polls.{poll_at, polls, polls-ends, test_tick}
use ss_sbl.Pml.Recovery.Budget.{spent, remaining, InWindow, polls-budget}
use ss_sbl.Pml.Handler.{find_origin}
use ss_sbl.Pml.Handler.Origin.{causes, sm_reading, sts_reading, find_origin-causes}
use ss_sbl.Pml.Lanes.{determine_active_lanes, lanes_100g, add_lane, no_lanes}
use ss_sbl.Pml.Lanes.Active.{in_use, sources, determine_active_lanes-100g}
use ss_sbl.Pml.PcsWait.Ends.{pcs_wait_ends}
use ss_sbl.Pml.PcsWait.Shown.{Shown}
use ss_sbl.Pml.PcsWait.Twice.{EndsOnTwo, pcs_wait_result}
use ss_sbl.Pml.Samples.{board, runs_out, at, good_status, faulty_status}

-- The faults do not go away: the wait ends by the timeout.
pcs_wait_ends_example :
    (s' : State ℕ) × (err : ℕ) × (pcs_wait (board faulty_status) 42 (at 20 link_up)
      ≡ some (s', err))
    × (s'.hw ≤ 20)
    × (s'.link.timing ≡ timing)
pcs_wait_ends_example =
    pcs_wait_ends (board faulty_status) (runs_out faulty_status) 42 (at 20 link_up) refl
      (omega arith)

calculate_capacity_lem_example :
    Fits
      (250 * bytes_per_ns mode_bs_200g + 9216 * 2)
      48
      4096
      (calculate_capacity mode_bs_200g 9216 250 (4096, 4096)).0
    × Fits
        (250 * bytes_per_ns mode_bs_200g + 9216 * 2)
        32
        4096
        (calculate_capacity mode_bs_200g 9216 250 (4096, 4096)).1
calculate_capacity_lem_example =
    calculate_capacity_lem mode_bs_200g 9216 250 (4096, 4096) (omega arith) (omega arith)

-- A port whose handler is installed for two flags
abbrev watched : State ℕ
watched = at 500 (record link_up { intr_err_flgs = 24 })

change_intr_handler_lem_example :
    (Installed 8 24
      → change_intr_handler (board good_status) IntrOp.enable 8 watched
        ≡ intr_op (board good_status) IntrOp.enable 8 watched)
    × (¬ Installed 8 24
        → change_intr_handler (board good_status) IntrOp.enable 8 watched ≡ (watched, einval))
change_intr_handler_lem_example =
    change_intr_handler_lem (board good_status) IntrOp.enable 8 watched (ground arith)

-- The PCS has lost its alignment.
find_origin-causes_example :
    (find_origin (board 2550000) 8 watched).1
    ≡ last_or 0 (
        causes
          (board 2550000)
          watched.link
          8
          (sm_reading (board 2550000) 8 watched)
          (sts_reading (board 2550000) 8 watched))
find_origin-causes_example = find_origin-causes (board 2550000) 8 watched

-- A recovery that has begun at the tick 20000 and has 40 ms, with a budget of 60 ms
abbrev recovering : Link
recovering = record link_up {
  recovery_started = true;
  pml = record (link_up.pml) {
    recovery = record {
      timeout = 40;
      down_origin = 2;
      init_jiffies = 20000;
      last_poll_jiffies = 20000;
      rl_window_start = 19990;
      rl_time_remaining = 60;
    };
  };
}

late_enough :
    reached tick_1000
      (test_tick (board faulty_status) 900)
      (deadline tick_1000 recovering.pml.recovery)
    ≡ true
unfolding deadline
late_enough = refl

polls-ends_example :
    (polls (board faulty_status) (1000 ∷ 900 ∷ []) (at 1001 recovering)).link.recovery_started
    ≡ false
polls-ends_example =
    polls-ends (board faulty_status) (1000 ∷ 900 ∷ []) (at 1001 recovering) (inr (inl late_enough))

-- After one poll the recovery goes on.
still_recovering :
    (polls (board faulty_status) (990 ∷ []) (at 1001 recovering)).link.recovery_started ≡ true
unfolding polls poll_at recovery_poll recovery_poll_result recovery_no_faults read64 deadline
    recovery_rate_test charge recovery_rearm
still_recovering = refl

polls-budget_example :
    (spent (board faulty_status) (990 ∷ []) (at 1001 recovering)
        + remaining (polls (board faulty_status) (990 ∷ []) (at 1001 recovering)).link
      ≡ 60)
    × InWindow
        (board faulty_status)
        (polls (board faulty_status) (990 ∷ []) (at 1001 recovering)).link
polls-budget_example =
    polls-budget (board faulty_status) (990 ∷ []) (at 1001 recovering)
      (record { runs = refl; fits = omega arith }) (omega arith, tt) still_recovering

-- A port whose length of cable is not known
abbrev unmeasured : State ℕ
unmeasured = at 500 (record link_up { mattr = record (link_up.mattr) { len = 0 } })

measured_250 :
    ((measure_loop_time (board good_status) unmeasured).1 ≡ 0)
    × ((measure_loop_time (board good_status) unmeasured).0.link.llr_loop_time ≡ 250)
unfolding measure_loop_time measure_from measure_bounds link_info_set link_info_clear measure_within
    measure_result measure_loop timed_out start_timeout was_cancelled measure_once read64 pause
    flush write64 take_time
measured_250 = (refl, refl)

measure_loop_time-bounds_example :
    Within 60 3000 (measure_loop_time (board good_status) unmeasured).0.link.llr_loop_time
unfolding measure_bounds
measure_loop_time-bounds_example =
    measure_loop_time-bounds (board good_status) unmeasured measured_250.0

-- The first reading is good, and so is the one after the pause.
abbrev waited : State ℕ
waited = record (at 480 link_up) { link = record link_up { link_info = 128 } }

wait_passes : pcs_wait (board good_status) 5 (at 500 link_up) ≡ some (waited, 0)
unfolding pcs_wait wait_loop alignment_wait flagged align_loop lock_round pcs_locked read64
    link_info_set pcs_clear_tx_rf link_info_clear flush modify pcs_start_lock align_round
    pcs_aligned fault_clear_wait time_is_before_jiffies pcs_no_faults elapsed fault_free fault_loop
    fault_pause fault_round wait_out now pause timed_out was_cancelled write64 clear_bit set_bit
    start_timeout
wait_passes = refl

pcs_wait_result_example :
    Shown 0 waited.link.link_info × (◌≡◌ {A = ℕ} 0 0 → EndsOnTwo (board good_status) waited)
pcs_wait_result_example = pcs_wait_result (board good_status) 5 (at 500 link_up) wait_passes

-- Of the four lanes, 0 and 1 have a source below 2; in local loopback they are those of the transmitter.
determine_active_lanes-100g_example :
    (test_bit 2 (determine_active_lanes (λ i. 3) (λ i. i) mode_cd_100g loopback_off no_lanes).0.rx
      ≡ in_use (sources (λ i. 3) (λ i. i) loopback_off) 2)
    × (test_bit 2
          (determine_active_lanes (λ i. 3) (λ i. i) mode_cd_100g loopback_off no_lanes).0.fec
        ≡ in_use (sources (λ i. 3) (λ i. i) loopback_off) 1)
determine_active_lanes-100g_example =
    determine_active_lanes-100g (λ i. 3) (λ i. i) loopback_off 2 no_lanes (omega arith)

lanes_seen :
    determine_active_lanes (λ i. 3) (λ i. i) mode_cd_100g loopback_off no_lanes
    ≡ (record { rx = 3; fec = 15 }, 0)
unfolding determine_active_lanes lanes_100g add_lane word_or
lanes_seen = refl
