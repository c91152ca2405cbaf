-- ===== src/Pml/PcsConfig.antt =====
-- The configuration of the PCS, the start of the alignment markers and the automatic degrading of
-- lanes: drivers/net/ethernet/hpe/sbl/sbl_pml_pcs.c.
use ss_sbl.Prelude.{
  ℕ, zero, suc, ◌+◌, ◌==◌, Bool, true, not, ◌&&◌, if◌then◌else◌, test_bit, Option, none, some,
}
use ss_sbl.Link.{Link}
use ss_sbl.Link.Consts.{
  enavail, etimedout, mode_bs_200g, opt_lane_degrade, opt_fabric_link, info_pcs_aneg,
  info_pcs_tx_am, info_pcs_a_wait, info_pcs_f_wait, info_pcs_up,
}
use ss_sbl.Kernel.{u64}
use ss_sbl.Pml.Regs.{Reg, Field}
use ss_sbl.Pml.Lanes.{Lanes, determine_active_lanes, lanes_of, with_lanes}
use ss_sbl.Pml.Pcs.{
  pcs_mode_of, rs_mode_of, one_if, is_starting, pcs_stop, pcs_start, pcs_set_tx_rf,
  rx_pls_available, lp_pls_available,
}
use ss_sbl.Pml.{
  Board, State, P, return, ◌>>=◌, ◌>>◌, the_link, update, info_set, info_clear, read64, write64,
  modify, flush, get, put,
}

module _ {H : Type 0} (b : Board H) where
  -- `sbl_pml_pcs_determine_active_lanes(sbl, port_num)`
  unfoldable pub config_lanes : P H ℕ
  config_lanes = do
    l ← the_link
    let r : Lanes × ℕ =
        determine_active_lanes b.tx_lane_source b.rx_lane_source l.link_mode l.loopback_mode
          (lanes_of l)
    update (with_lanes r.0)
    return r.1

  -- What the configuration of the receive side becomes from `v`, with the number of the RS mode and
  -- the register of the PCS configuration.
  unfoldable pub config_rx : Link → ℕ → ℕ → ℕ → ℕ
  config_rx l rs pcs v = put b Field.rx_pcs_enable_lock 0 (
      put b Field.rx_pcs_active_lanes l.pml.active_rx_lanes (
        put b Field.rx_pcs_restart_lock_on_bad_ams (one_if (l.link_mode == mode_bs_200g)) (
          put b Field.rx_pcs_restart_lock_on_bad_cws
            (one_if (get b Field.pcs_enable_auto_lane_degrade pcs == 0))
            (put b Field.rx_pcs_enable_rx_sm
              (one_if (not (test_bit opt_fabric_link l.blattr.options)))
              (put b Field.rx_pcs_health_bad_sensitivity 4
                (put b Field.rx_pcs_enable_ctl_os 0 (put b Field.rx_pcs_rs_mode rs v)))))))

  -- The part of sbl_pml_pcs_config from the receive side on.
  unfoldable pub config_rx_side : P H ℕ
  config_rx_side = do
    l ← the_link
    v ← read64 b Reg.cfg_rx_pcs
    if not ((rs_mode_of l.blattr.fec_mode).1 == 0)
        then return (rs_mode_of l.blattr.fec_mode).1
        else (do
          pcs ← read64 b Reg.cfg_pcs
          write64 b Reg.cfg_rx_pcs (config_rx l (rs_mode_of l.blattr.fec_mode).0 pcs v)
          update (λ k. record k { pcs_config = true })
          return 0)

  -- `SBL_PML_CFG_TX_PCS` in sbl_pml_pcs_config
  unfoldable pub config_tx : ℕ → ℕ
  config_tx v = put b (Field.tx_pcs_lane_source 3) (b.tx_lane_source 3) (
      put b (Field.tx_pcs_lane_source 2) (b.tx_lane_source 2) (
        put b (Field.tx_pcs_lane_source 1) (b.tx_lane_source 1) (
          put b (Field.tx_pcs_lane_source 0) (b.tx_lane_source 0) (
            put b Field.tx_pcs_gearbox_credits (b.header.field_dflt Field.tx_pcs_gearbox_credits) (
              put b Field.tx_pcs_cdc_ready_level (b.header.field_dflt Field.tx_pcs_cdc_ready_level)
                (put b Field.tx_pcs_enable_ctl_os 0 v))))))

  -- The part of sbl_pml_pcs_config on the mode, the degrading of lanes and the transmit side.
  unfoldable pub config_mode : P H ℕ
  config_mode = do
    l ← the_link
    v ← read64 b Reg.cfg_pcs
    if not ((pcs_mode_of l.link_mode).1 == 0) then return (pcs_mode_of l.link_mode).1 else (do
      write64 b Reg.cfg_pcs (
          put b Field.pcs_enable_auto_lane_degrade
            (one_if (test_bit opt_lane_degrade l.blattr.options && l.link_mode == mode_bs_200g))
            (put b Field.pcs_enable_auto_neg 0
              (put b Field.pcs_mode (pcs_mode_of l.link_mode).0 v)))
      modify b Reg.cfg_tx_pcs config_tx
      config_rx_side)

  -- sbl_pml_pcs_config
  unfoldable pub pcs_config : P H ℕ
  pcs_config = do
    err ← config_lanes
    if not (err == 0) then return err else (do
      pcs_stop b
      modify b Reg.cfg_rx_pcs
          (λ v. put b Field.rx_pcs_enable_lock 0 (put b Field.rx_pcs_active_lanes 0 v))
      flush b Reg.cfg_rx_pcs
      modify b Reg.dbg_pcs (put b Field.dbg_enable_rapid_alignment 0)
      config_mode)

  -- sbl_pml_pcs_am_start, behind the validations
  unfoldable pub pcs_am_start : P H ℕ
  pcs_am_start = do
    l ← the_link
    if not (is_starting l.blstate) then return enavail else (do
      err ← pcs_config
      if not (err == 0) then return err else (do
        pcs_set_tx_rf b
        pcs_start b
        info_set info_pcs_tx_am
        info_clear info_pcs_aneg
        info_clear info_pcs_a_wait
        info_clear info_pcs_f_wait
        info_clear info_pcs_up
        return 0))

  -- `timeout = jiffies + ...; while (!available()) if (time_after(jiffies, timeout)) err = ...`
  unfoldable pub wait_pls : P H Bool → ℕ → ℕ → State H → Option (State H × ℕ)
  wait_pls available timeout zero s = none
  wait_pls available timeout (suc fuel) s =
      let (s₁, there) = available s in
      let rest = wait_pls available timeout fuel s₁ in
      if there
      then some (s₁, 0)
      else if b.kernel.time_after (b.jiffies s₁.hw) timeout
      then some (s₁, etimedout)
      else rest

  -- The label `out` of sbl_pml_pcs_enable_auto_lane_degrade, with an error
  unfoldable pub degrade_off : P H (Unit {0})
  degrade_off = do
    modify b Reg.cfg_pcs (put b Field.pcs_enable_auto_lane_degrade 0)
    modify b Reg.cfg_rx_pcs (put b Field.rx_pcs_restart_lock_on_bad_cws 1)
    flush b Reg.cfg_pcs

  unfoldable pub degrade_on : P H (Unit {0})
  degrade_on = do
    modify b Reg.cfg_rx_pcs (put b Field.rx_pcs_allow_auto_degrade 1)
    modify b Reg.cfg_tx_pcs (put b Field.tx_pcs_allow_auto_degrade 1)
    flush b Reg.cfg_pcs

  -- One of its waits, which ends at the label `out` when it fails.
  unfoldable pub await_pls :
      P H Bool → ℕ → (State H → Option (State H × Unit {0})) → State H → Option (State H × Unit {0})
  await_pls available fuel next s =
      elim (wait_pls available (u64 (b.jiffies s.hw + b.hm_timeout)) fuel s) [
        | none ↦ none
        | some (s', err) ↦ if err == 0 then next s' else some (degrade_off s')
      ]

  -- sbl_pml_pcs_enable_auto_lane_degrade
  unfoldable pub enable_auto_lane_degrade : ℕ → State H → Option (State H × Unit {0})
  enable_auto_lane_degrade fuel s =
      let (s₁, v) = read64 b Reg.cfg_pcs s in
      if get b Field.pcs_enable_auto_lane_degrade v == 0
      then some (s₁, tt)
      else await_pls (rx_pls_available b) fuel
          (await_pls (lp_pls_available b) fuel (λ s₂. some (degrade_on s₂))) s₁
