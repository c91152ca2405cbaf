-- ===== src/Pml/Regs.antt =====
-- The registers of the PML block of a port. Their addresses, the layout of their fields and their
-- default values are in the generated header sbl/sbl_pml.h, which the record `Header` stands for.
use ss_sbl.Prelude.{ℕ, List, [], ◌∷◌, test_bit, set_bit, Bool}

-- SBL_PML_*_OFFSET
pub data Reg : Type 0 where
  cfg_pcs cfg_pcs_autoneg cfg_pcs_autoneg_timers cfg_pcs_autoneg_base_page : Reg
  cfg_pcs_autoneg_next_page cfg_pcs_ams cfg_tx_pcs cfg_rx_pcs cfg_rx_pcs_ams cfg_pcs_cm : Reg
  cfg_pcs_um : ℕ → Reg
  dbg_pcs cfg_tx_mac cfg_rx_mac cfg_llr cfg_llr_sm cfg_llr_cf_smac cfg_llr_cf_etype : Reg
  cfg_llr_cf_rates cfg_llr_capacity cfg_llr_timeouts : Reg
  sts_rx_pcs sts_pcs_lane_degrade sts_llr sts_llr_loop_time sts_llr_max_usage err_flg err_clr : Reg
  serdes_core_interrupt cfg_serdes_core_interrupt : Reg

-- The fields that the driver reads or updates, each named after its register.
pub data Field : Type 0 where
  tx_mac_pcs_credits tx_mac_ifg_mode tx_mac_ifg_adjustment tx_mac_short_preamble : Field
  tx_mac_operational rx_mac_short_preamble rx_mac_filter_illegal_size rx_mac_operational : Field
  pcs_mode pcs_enable_auto_neg pcs_enable_auto_lane_degrade pcs_enable : Field
  ams_use_programmable_ams : Field
  tx_pcs_enable_ctl_os tx_pcs_cdc_ready_level tx_pcs_gearbox_credits : Field
  tx_pcs_allow_auto_degrade : Field
  tx_pcs_lane_source : ℕ → Field
  rx_pcs_active_lanes rx_pcs_enable_lock rx_pcs_rs_mode rx_pcs_enable_ctl_os : Field
  rx_pcs_health_bad_sensitivity rx_pcs_enable_rx_sm rx_pcs_restart_lock_on_bad_cws : Field
  rx_pcs_restart_lock_on_bad_ams rx_pcs_allow_auto_degrade : Field
  dbg_enable_rapid_alignment dbg_force_tx_data dbg_force_tx_data_rf : Field
  sts_am_lock sts_align_status sts_fault sts_local_fault sts_hi_ser : Field
  degrade_lp_pls_available degrade_rx_pls_available : Field
  llr_llr_mode llr_preamble_seq_check llr_ack_nack_err_check llr_filter_lossless_when_off : Field
  llr_filter_ctl_frames llr_size llr_enable_loop_timing llr_link_down_behavior : Field
  llr_mac_if_credits : Field
  sm_replay_ct_max sm_replay_timer_max cf_rates_loop_timing_period : Field
  capacity_max_data capacity_max_seq timeouts_data_age timeouts_pcs_link_dn : Field
  sts_llr_state sts_loop_time : Field
  core_serdes_sel core_do_interrupt core_interrupt_code core_interrupt_data : Field
  core_capture_delay core_clear_delay core_set_delay : Field

-- The error flags of SBL_PML_ERR_FLG that the driver names.
pub data ErrFlag : Type 0 where
  autoneg_complete autoneg_page_received pcs_link_down pcs_hi_ser llr_replay_at_max : ErrFlag
  pcs_tx_degrade pcs_rx_degrade pcs_tx_degrade_failure pcs_rx_degrade_failure : ErrFlag
  mac_tx_dp_err mac_rx_dp_err : ErrFlag

-- The macros of the header: `get f x` is `..._GET(x)` and `update f x v` is `..._UPDATE(x, v)`;
-- `flag` is the bit number of an error flag.
pub record Header : Type 0 where
  pub get : Field → ℕ → ℕ
  pub update : Field → ℕ → ℕ → ℕ
  pub dflt : Reg → ℕ
  pub field_dflt : Field → ℕ
  pub flag : ErrFlag → ℕ

module _ (h : Header) where
  -- `..._SET(1ULL) | ..._SET(1ULL)`, for a set of error flags
  unfoldable pub flags_word : List ErrFlag → ℕ
  flags_word [] = 0
  flags_word (f ∷ fs) = set_bit (h.flag f) (flags_word fs)

  -- SBL_PML_ERR_FLG_*_GET
  unfoldable pub raised : ErrFlag → ℕ → Bool
  raised f word = test_bit (h.flag f) word

  -- SBL_AUTONEG_ERR_FLGS
  unfoldable pub autoneg_err_flgs : ℕ
  unfolding flags_word
  autoneg_err_flgs = flags_word (ErrFlag.autoneg_complete ∷ ErrFlag.autoneg_page_received ∷ [])

  -- SBL_PML_REC_FAULT_ERR_FLAGS and SBL_PML_FAULT_ERR_FLAGS
  abbrev pub rec_fault_flags : List ErrFlag
  rec_fault_flags =
      ErrFlag.pcs_link_down ∷ ErrFlag.pcs_hi_ser ∷ ErrFlag.pcs_tx_degrade ∷ ErrFlag.pcs_rx_degrade
      ∷ ErrFlag.pcs_tx_degrade_failure ∷ ErrFlag.pcs_rx_degrade_failure ∷ []

  unfoldable pub rec_fault_err_flags : ℕ
  unfolding flags_word
  rec_fault_err_flags = flags_word rec_fault_flags

  unfoldable pub fault_err_flags : ℕ
  unfolding flags_word
  fault_err_flags = flags_word (ErrFlag.llr_replay_at_max ∷ rec_fault_flags)
