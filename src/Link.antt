-- ===== src/Link.antt =====
-- The data of the link database: struct sbl_link and struct sbl_inst
-- (drivers/net/ethernet/hpe/sbl/sbl_internal.h, include/linux/hpe/sbl/sbl.h), the attributes and
-- status enums of include/uapi/ethernet/sbl-abi.h, and the validation that every entry point begins
-- with. A field that no modelled function reads or writes has no place here, and neither have locks.
pub mod Consts
pub mod Port
use ss_sbl.Prelude.{◌≡◌, ◌≢◌, refl, arith, ℕ, Bool, true, false, List, [], ◌∷◌, Option}

-- enum sbl_base_link_status
pub data LinkStatus : Type 0 where
  unknown unconfigured starting up stopping down resetting error : LinkStatus

-- enum sbl_serdes_status
pub data SerdesStatus : Type 0 where
  unknown autoneg lpd_mt down tuning running error resetting : SerdesStatus

-- struct sbl_media_attr
pub record MediaAttr : Type 0 where
  pub magic : ℕ
  pub media : ℕ
  pub len : ℕ
  pub info : ℕ
  pub vendor : ℕ

-- The struct `pml_recovery` of struct sbl_base_link_attr, in milliseconds
pub record RecoveryAttr : Type 0 where
  pub timeout : ℕ
  pub rl_max_duration : ℕ
  pub rl_window_size : ℕ

-- struct sbl_base_link_attr; `an_mode` and what follows it stand in its union's `pec`.
pub record BaseLinkAttr : Type 0 where
  pub magic : ℕ
  pub options : ℕ
  pub start_timeout : ℕ
  pub config_target : ℕ
  pub an_mode : ℕ
  pub an_retry_timeout : ℕ
  pub an_max_retry : ℕ
  pub link_mode : ℕ
  pub loopback_mode : ℕ
  pub link_partner : ℕ
  pub fec_mode : ℕ
  pub llr_mode : ℕ
  pub ifg_config : ℕ
  pub recovery : RecoveryAttr

-- struct timespec64
pub record Timespec : Type 0 where
  pub sec : ℕ
  pub nsec : ℕ

-- The fields of struct sbl_link under `timeout_lock`. A `ktime_t` is a number of nanoseconds.
pub record Timing : Type 0 where
  pub last_start_jiffy : ℕ
  pub start_timeout : ℕ
  pub an_timeout_active : Bool
  pub start_time_begin : ℕ
  pub start_time : Timespec
  pub up_time_begin : ℕ
  pub up_time : Timespec
  pub tune_time_begin : ℕ
  pub tune_time : Timespec
  pub total_tune_time : Timespec

-- struct sbl_pcs_fec_cntrs
pub record FecCntrs : Type 0 where
  pub ccw : ℕ
  pub ucw : ℕ
  pub llr_tx_replay : ℕ
  pub fecl : List ℕ
  pub time : ℕ

-- struct sbl_fec. `curr_cnts` and `prev_cnts` are pointers into an array of two in the source, and
-- are exchanged there; each is read and written only through its own pointer.
pub record FecPrmts : Type 0 where
  pub curr_cnts : FecCntrs
  pub prev_cnts : FecCntrs
  pub rates : FecCntrs
  pub ucw_thresh : ℕ
  pub ucw_up_thresh_adj : ℕ
  pub ucw_down_thresh_adj : ℕ
  pub ucw_hwm : ℕ
  pub ccw_thresh : ℕ
  pub ccw_up_thresh_adj : ℕ
  pub stp_ccw_thresh : ℕ
  pub stp_ccw_up_thresh_adj : ℕ
  pub ccw_down_thresh_adj : ℕ
  pub ccw_hwm : ℕ
  pub llr_tx_replay_thresh : ℕ
  pub llr_tx_replay_hwm : ℕ
  pub fecl_warn : ℕ

-- The fields of struct sbl_link that autonegotiation keeps.
pub record Autoneg : Type 0 where
  pub tx_page : List ℕ
  pub tx_count : ℕ
  pub rx_page : List ℕ
  pub rx_count : ℕ
  pub try_count : ℕ
  pub fixup_applied : Bool
  pub options : ℕ

-- struct sbl_pml_recovery, without its `started`, which is `recovery_started` of the link, and its way
-- back to the link. An `int` is its 32-bit pattern.
pub record Recovery : Type 0 where
  pub timeout : ℕ
  pub down_origin : ℕ
  pub init_jiffies : ℕ
  pub last_poll_jiffies : ℕ
  pub rl_window_start : ℕ
  pub rl_time_remaining : ℕ

-- The fields of struct sbl_link that only the PML block keeps.
pub record Pml : Type 0 where
  pub active_rx_lanes : ℕ
  pub active_fec_lanes : ℕ
  pub pcs_recovery_flag : Bool
  pub llr_mode : ℕ
  pub llr_options : ℕ
  pub ifg_config : ℕ
  pub fec_discard_type : ℕ
  pub recovery : Recovery

-- struct sbl_link. `lp_subtype` is the enum's value plus one, so that SBL_LP_SUBTYPE_INVALID is 0.
-- `saved_params` is `dfe_tune_count == SBL_DFE_USED_SAVED_PARAMS`, the only use made of that count.
pub record Link : Type 0 where
  pub mattr : MediaAttr
  pub mconfigured : Bool
  pub blattr : BaseLinkAttr
  pub blconfigured : Bool
  pub sstate : SerdesStatus
  pub serr : ℕ
  pub blstate : LinkStatus
  pub blerr : ℕ
  pub link_info : ℕ
  pub timing : Timing
  pub pcs_config : Bool
  pub an : Autoneg
  pub lp_subtype : ℕ
  pub reload_serdes_fw : Bool
  pub lp_detected : Bool
  pub saved_params : Bool
  pub start_cancelled : Bool
  pub link_mode : ℕ
  pub loopback_mode : ℕ
  pub llr_loop_time : ℕ
  pub intr_err_flgs : ℕ
  pub debug_config : ℕ
  pub recovery_started : Bool
  pub is_degraded : Bool
  pub counters : List ℕ
  pub fec : FecPrmts
  pub fec_discard_time : ℕ
  pub pml : Pml

-- struct sbl_inst with its link database; its `switch_info` gives the number of ports.
pub record Inst : Type 0 where
  pub magic : ℕ
  pub num_ports : ℕ
  pub is_hw : Bool
  pub links : List Link

-- link->blstate == SBL_BASE_LINK_STATUS_DOWN, and so on
abbrev pub is_down : LinkStatus → Bool
is_down LinkStatus.down = true
is_down _ = false

abbrev pub is_up : LinkStatus → Bool
is_up LinkStatus.up = true
is_up _ = false

abbrev pub is_error : LinkStatus → Bool
is_error LinkStatus.error = true
is_error _ = false

abbrev pub is_running : SerdesStatus → Bool
is_running SerdesStatus.running = true
is_running _ = false

-- blstate & (UNCONFIGURED | DOWN)
abbrev pub is_idle : LinkStatus → Bool
is_idle LinkStatus.unconfigured = true
is_idle LinkStatus.down = true
is_idle _ = false

-- blstate & (UNCONFIGURED | DOWN | STOPPING)
abbrev pub is_idle_or_stopping : LinkStatus → Bool
is_idle_or_stopping LinkStatus.stopping = true
is_idle_or_stopping LinkStatus.unconfigured = true
is_idle_or_stopping LinkStatus.down = true
is_idle_or_stopping _ = false

-- What only the operations of the base link and the debug interface change: the state of the link
-- and its error, whether it is configured, and the debug flags.
abbrev pub core : Link → LinkStatus × ℕ × Bool × ℕ
core l = (l.blstate, l.blerr, l.blconfigured, l.debug_config)

pub is_up-true : (s : LinkStatus) → is_up s ≡ true → s ≡ LinkStatus.up
is_up-true LinkStatus.up h = refl
is_up-true s h = absurd (ground arith)

pub is_up-false : (s : LinkStatus) → is_up s ≡ false → s ≢ LinkStatus.up
is_up-false s h e = absurd (ground arith)

pub is_down-true : (s : LinkStatus) → is_down s ≡ true → s ≡ LinkStatus.down
is_down-true LinkStatus.down h = refl
is_down-true s h = absurd (ground arith)
