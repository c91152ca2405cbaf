-- ===== src/Pml/Pcs.antt =====
-- The PCS of a port, apart from the waits: drivers/net/ethernet/hpe/sbl/sbl_pml_pcs.c.
use ss_sbl.Prelude.{ℕ, ◌==◌, Bool, true, false, not, ◌&&◌, if◌then◌else◌}
use ss_sbl.Link.{LinkStatus, SerdesStatus}
use ss_sbl.Link.Consts.{
  ebadrqc, mode_bs_200g, mode_bj_100g, mode_cd_100g, mode_cd_50g, media_optical,
  debug_keep_serdes_up, all_lanes, info_pcs_tx_am, info_pcs_align_en, info_pcs_a_wait,
  info_pcs_tx_rf, info_pcs_f_wait, info_pcs_up, info_os,
}
use ss_sbl.Media.{debug_option}
use ss_sbl.Pml.Regs.{Reg, Field}
use ss_sbl.Pml.{
  Board, P, return, ◌>>=◌, ◌>>◌, the_link, update, gets, info_set, info_clear, read64, write64,
  modify, flush, get, put,
}

-- link->sstate == SBL_SERDES_STATUS_DOWN
abbrev pub serdes_down : SerdesStatus → Bool
serdes_down SerdesStatus.down = true
serdes_down _ = false

-- blstate & (STARTING | STARTING)
abbrev pub is_starting : LinkStatus → Bool
is_starting LinkStatus.starting = true
is_starting _ = false

-- The number of the PCS mode and of the Reed-Solomon mode in the registers; `none` of them is the
-- case with an error.
unfoldable pub pcs_mode_of : ℕ → ℕ × ℕ
pcs_mode_of m =
    if m == mode_bs_200g
    then (0, 0)
    else if m == mode_bj_100g
    then (1, 0)
    else if m == mode_cd_100g
    then (2, 0)
    else if m == mode_cd_50g
    then (3, 0)
    else (0, ebadrqc)

unfoldable pub rs_mode_of : ℕ → ℕ × ℕ
rs_mode_of m =
    if m == 2
    then (0, 0)
    else if m == 3
    then (1, 0)
    else if m == 4
    then (2, 0)
    else if m == 6
    then (3, 0)
    else if m == 7
    then (4, 0)
    else if m == 5
    then (5, 0)
    else (0, ebadrqc)

-- `cond ? 1ULL : 0ULL`
abbrev pub one_if : Bool → ℕ
one_if t = if t then 1 else 0

module _ {H : Type 0} (b : Board H) where
  -- sbl_pml_pcs_locked, sbl_pml_pcs_no_faults, sbl_pml_pcs_aligned and sbl_pml_pcs_high_serdes_error
  unfoldable pub pcs_locked : P H Bool
  pcs_locked = do
    v ← read64 b Reg.sts_rx_pcs
    gets (λ l. get b Field.sts_am_lock v == l.pml.active_fec_lanes)

  unfoldable pub pcs_no_faults : P H Bool
  pcs_no_faults = do
    v ← read64 b Reg.sts_rx_pcs
    return (get b Field.sts_fault v == 0 && get b Field.sts_local_fault v == 0)

  unfoldable pub pcs_aligned : P H Bool
  pcs_aligned = do v ← read64 b Reg.sts_rx_pcs; return (get b Field.sts_align_status v == 1)

  unfoldable pub pcs_high_serdes_error : P H Bool
  pcs_high_serdes_error = do
    v ← read64 b Reg.sts_rx_pcs
    return (not (get b Field.sts_hi_ser v == 0))

  -- What a reading of the receive status shows: aligned, with no fault and no high error rate.
  abbrev pub status_good : ℕ → Bool
  status_good v =
      not (get b Field.sts_align_status v == 0)
      && get b Field.sts_fault v == 0
      && get b Field.sts_local_fault v == 0
      && get b Field.sts_hi_ser v == 0

  -- sbl_pml_pcs_up
  unfoldable pub pcs_up : P H Bool
  pcs_up = if b.is_hw then (do v ← read64 b Reg.sts_rx_pcs; return (status_good v)) else return true

  -- sbl_pml_recovery_no_faults
  unfoldable pub recovery_no_faults : P H Bool
  recovery_no_faults = do
    v ← read64 b Reg.sts_rx_pcs
    gets (λ l. status_good v && get b Field.sts_am_lock v == l.pml.active_fec_lanes)

  -- sbl_pml_rx_pls_available and sbl_pml_lp_pls_available
  unfoldable pub rx_pls_available : P H Bool
  rx_pls_available = do
    v ← read64 b Reg.sts_pcs_lane_degrade
    return (get b Field.degrade_rx_pls_available v == all_lanes)

  unfoldable pub lp_pls_available : P H Bool
  lp_pls_available = do
    v ← read64 b Reg.sts_pcs_lane_degrade
    return (get b Field.degrade_lp_pls_available v == all_lanes)

  -- sbl_pml_pcs_start_lock and sbl_pml_pcs_stop_lock
  unfoldable pub pcs_start_lock : P H (Unit {0})
  pcs_start_lock = do
    l ← the_link
    modify b Reg.cfg_rx_pcs (λ v.
        put b Field.rx_pcs_active_lanes l.pml.active_rx_lanes (put b Field.rx_pcs_enable_lock 1 v))
    flush b Reg.cfg_rx_pcs

  unfoldable pub pcs_stop_lock : P H (Unit {0})
  pcs_stop_lock = do
    modify b Reg.cfg_rx_pcs
        (λ v. put b Field.rx_pcs_active_lanes 0 (put b Field.rx_pcs_enable_lock 0 v))
    flush b Reg.cfg_rx_pcs

  -- sbl_pml_pcs_enable_alignment and sbl_pml_pcs_disable_alignment
  unfoldable pub pcs_enable_alignment : P H (Unit {0})
  pcs_enable_alignment = do
    modify b Reg.cfg_rx_pcs (put b Field.rx_pcs_enable_lock 1)
    info_set info_pcs_align_en

  unfoldable pub pcs_disable_alignment : P H (Unit {0})
  pcs_disable_alignment = do
    modify b Reg.cfg_rx_pcs (put b Field.rx_pcs_enable_lock 0)
    info_clear info_pcs_align_en

  -- sbl_pml_pcs_recovery_enable and sbl_pml_pcs_recovery_disable
  unfoldable pub pcs_recovery_enable : P H (Unit {0})
  pcs_recovery_enable = update (λ l. record l { pml = record (l.pml) { pcs_recovery_flag = true } })

  unfoldable pub pcs_recovery_disable : P H (Unit {0})
  pcs_recovery_disable =
      update (λ l. record l { pml = record (l.pml) { pcs_recovery_flag = false } })

  -- sbl_pml_pcs_set_tx_rf and sbl_pml_pcs_clear_tx_rf
  unfoldable pub pcs_set_tx_rf : P H (Unit {0})
  pcs_set_tx_rf = do
    modify b Reg.dbg_pcs
        (λ v. put b Field.dbg_force_tx_data_rf 1 (put b Field.dbg_force_tx_data 1 v))
    flush b Reg.dbg_pcs
    info_set info_pcs_tx_rf

  unfoldable pub pcs_clear_tx_rf : P H (Unit {0})
  pcs_clear_tx_rf = do
    modify b Reg.dbg_pcs
        (λ v. put b Field.dbg_force_tx_data_rf 0 (put b Field.dbg_force_tx_data 0 v))
    flush b Reg.dbg_pcs
    info_clear info_pcs_tx_rf

  -- sbl_pml_pcs_stop
  unfoldable pub pcs_stop : P H (Unit {0})
  pcs_stop = do
    l ← the_link
    if debug_option debug_keep_serdes_up l
        then return tt
        else if not (serdes_down l.sstate) && l.mattr.media == media_optical
        then return tt
        else (do
          modify b Reg.cfg_pcs (put b Field.pcs_enable 0)
          flush b Reg.cfg_pcs
          info_clear info_pcs_tx_am
          info_clear info_pcs_align_en
          info_clear info_pcs_a_wait
          info_clear info_pcs_f_wait
          info_clear info_pcs_up)

  -- sbl_pml_pcs_ordered_sets
  unfoldable pub pcs_ordered_sets : Bool → P H (Unit {0})
  pcs_ordered_sets enable = do
    modify b Reg.cfg_rx_pcs (put b Field.rx_pcs_enable_ctl_os (one_if enable))
    modify b Reg.cfg_tx_pcs (put b Field.tx_pcs_enable_ctl_os (one_if enable))
    flush b Reg.cfg_pcs
    if enable then info_set info_os else info_clear info_os

  -- sbl_pml_pcs_start
  unfoldable pub pcs_start : P H (Unit {0})
  pcs_start = do
    l ← the_link
    write64 b Reg.cfg_pcs_ams (
        put b Field.ams_use_programmable_ams (one_if (l.link_mode == mode_bs_200g))
          (b.header.dflt Reg.cfg_pcs_ams))
    modify b Reg.cfg_pcs (put b Field.pcs_enable 1)
    flush b Reg.cfg_pcs
    v ← read64 b Reg.cfg_rx_pcs
    if get b Field.rx_pcs_enable_lock v == 0
        then info_clear info_pcs_align_en
        else info_set info_pcs_align_en
