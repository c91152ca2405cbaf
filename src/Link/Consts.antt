-- ===== src/Link/Consts.antt =====
-- The constants of include/uapi/ethernet/sbl-abi.h, include/linux/hpe/sbl/*.h and
-- drivers/net/ethernet/hpe/sbl/sbl_internal.h that the modelled code names. A flag `1 << k` is its
-- bit number k. An error is the magnitude of the negative errno that C returns, and 0 is success.
use ss_sbl.Prelude.{ℕ}

-- error numbers
abbrev pub enoent : ℕ
enoent = 2

abbrev pub eintr : ℕ
eintr = 4

abbrev pub enomem : ℕ
enomem = 12

abbrev pub ebusy : ℕ
ebusy = 16

abbrev pub einval : ℕ
einval = 22

abbrev pub enospc : ℕ
enospc = 28

abbrev pub echrng : ℕ
echrng = 44

abbrev pub elnrng : ℕ
elnrng = 48

abbrev pub ebade : ℕ
ebade = 52

abbrev pub ebadrqc : ℕ
ebadrqc = 56

abbrev pub enodata : ℕ
enodata = 61

abbrev pub etime : ℕ
etime = 62

abbrev pub enosr : ℕ
enosr = 63

abbrev pub eadv : ℕ
eadv = 68

abbrev pub eproto : ℕ
eproto = 71

abbrev pub eoverflow : ℕ
eoverflow = 75

abbrev pub enotuniq : ℕ
enotuniq = 76

abbrev pub enetdown : ℕ
enetdown = 100

abbrev pub etimedout : ℕ
etimedout = 110

abbrev pub einprogress : ℕ
einprogress = 115

abbrev pub euclean : ℕ
euclean = 117

abbrev pub enavail : ℕ
enavail = 119

abbrev pub enomedium : ℕ
enomedium = 123

abbrev pub emediumtype : ℕ
emediumtype = 124

abbrev pub ecanceled : ℕ
ecanceled = 125

abbrev pub erestartsys : ℕ
erestartsys = 512

-- values
abbrev pub sbl_magic : ℕ
sbl_magic = 0x6273696c

abbrev pub media_attr_magic : ℕ
media_attr_magic = 0x6d736d61

abbrev pub link_attr_magic : ℕ
link_attr_magic = 0x6c736d61

abbrev pub media_electrical : ℕ
media_electrical = 2

abbrev pub media_optical : ℕ
media_optical = 3

abbrev pub config_pec : ℕ
config_pec = 2

abbrev pub config_aoc : ℕ
config_aoc = 3

abbrev pub mode_bs_200g : ℕ
mode_bs_200g = 1

abbrev pub mode_bj_100g : ℕ
mode_bj_100g = 2

abbrev pub mode_cd_100g : ℕ
mode_cd_100g = 4

abbrev pub mode_cd_50g : ℕ
mode_cd_50g = 8

abbrev pub an_mode_off : ℕ
an_mode_off = 2

abbrev pub an_mode_on : ℕ
an_mode_on = 3

abbrev pub an_mode_fixed : ℕ
an_mode_fixed = 4

abbrev pub loopback_invalid : ℕ
loopback_invalid = 0

abbrev pub loopback_local : ℕ
loopback_local = 1

abbrev pub loopback_off : ℕ
loopback_off = 4

abbrev pub all_lanes : ℕ
all_lanes = 15

abbrev pub replay_ct_max_unlimited : ℕ
replay_ct_max_unlimited = 255

abbrev pub fec_llr_tx_replay_thresh : ℕ
fec_llr_tx_replay_thresh = 100000

abbrev pub max_fec_warnings : ℕ
max_fec_warnings = 3

abbrev pub fec_up_window : ℕ
fec_up_window = 250

abbrev pub fec_mon_period : ℕ
fec_mon_period = 1000

abbrev pub fec_up_count_fabric : ℕ
fec_up_count_fabric = 4

abbrev pub fec_up_count_edge : ℕ
fec_up_count_edge = 1

abbrev pub num_counters : ℕ
num_counters = 40

abbrev pub ctr_ucw_err : ℕ
ctr_ucw_err = 35

abbrev pub ctr_ccw_err : ℕ
ctr_ccw_err = 36

abbrev pub ctr_txr_err : ℕ
ctr_txr_err = 37

abbrev pub ctr_fec_warn : ℕ
ctr_fec_warn = 38

abbrev pub ctr_up_fail : ℕ
ctr_up_fail = 39

abbrev pub ns_per_m : ℕ
ns_per_m = 4

abbrev pub optical_ns_per_m : ℕ
optical_ns_per_m = 5

abbrev pub optical_tranceiver_delay : ℕ
optical_tranceiver_delay = 35

abbrev pub asic_tx_delay : ℕ
asic_tx_delay = 25

abbrev pub asic_rx_delay : ℕ
asic_rx_delay = 91

-- bit numbers of flags
abbrev pub opt_fabric_link : ℕ
opt_fabric_link = 1

abbrev pub opt_serdes_lpd : ℕ
opt_serdes_lpd = 2

abbrev pub opt_use_saved_params : ℕ
opt_use_saved_params = 4

abbrev pub opt_dfe_always_max_effort : ℕ
opt_dfe_always_max_effort = 7

abbrev pub opt_autoneg_timeout_ieee : ℕ
opt_autoneg_timeout_ieee = 10

abbrev pub opt_autoneg_timeout_sshot : ℕ
opt_autoneg_timeout_sshot = 11

abbrev pub opt_autoneg_100cr4_fixup : ℕ
opt_autoneg_100cr4_fixup = 12

abbrev pub opt_allow_media_bad_mode : ℕ
opt_allow_media_bad_mode = 14

abbrev pub opt_allow_media_bad_len : ℕ
opt_allow_media_bad_len = 15

abbrev pub opt_lane_degrade : ℕ
opt_lane_degrade = 20

abbrev pub opt_disable_pml_recovery : ℕ
opt_disable_pml_recovery = 21

abbrev pub debug_inhibit_cleanup : ℕ
debug_inhibit_cleanup = 2

abbrev pub debug_inhibit_reload_fw : ℕ
debug_inhibit_reload_fw = 6

abbrev pub debug_force_reload_fw : ℕ
debug_force_reload_fw = 7

abbrev pub debug_allow_media_bad_mode : ℕ
debug_allow_media_bad_mode = 14

abbrev pub debug_allow_media_bad_len : ℕ
debug_allow_media_bad_len = 15

abbrev pub debug_keep_serdes_up : ℕ
debug_keep_serdes_up = 20

abbrev pub debug_ignore_high_fec_ucw : ℕ
debug_ignore_high_fec_ucw = 27

abbrev pub debug_ignore_high_fec_txr : ℕ
debug_ignore_high_fec_txr = 29

abbrev pub debug_ignore_high_fec_ccw : ℕ
debug_ignore_high_fec_ccw = 30

abbrev pub info_headshell_reset : ℕ
info_headshell_reset = 6

abbrev pub econnaborted : ℕ
econnaborted = 103

abbrev pub enolink : ℕ
enolink = 67

abbrev pub enolck : ℕ
enolck = 37

abbrev pub ealready : ℕ
ealready = 114

-- enum sbl_link_info, by bit number
abbrev pub info_pcs_aneg : ℕ
info_pcs_aneg = 1

abbrev pub info_pcs_tx_am : ℕ
info_pcs_tx_am = 2

abbrev pub info_pcs_align_en : ℕ
info_pcs_align_en = 3

abbrev pub info_pcs_a_wait : ℕ
info_pcs_a_wait = 4

abbrev pub info_pcs_tx_rf : ℕ
info_pcs_tx_rf = 5

abbrev pub info_pcs_f_wait : ℕ
info_pcs_f_wait = 6

abbrev pub info_pcs_up : ℕ
info_pcs_up = 7

abbrev pub info_mac_op : ℕ
info_mac_op = 8

abbrev pub info_os : ℕ
info_os = 9

abbrev pub info_llr_loop : ℕ
info_llr_loop = 10

abbrev pub info_llr_detect : ℕ
info_llr_detect = 11

abbrev pub info_llr_measure : ℕ
info_llr_measure = 12

abbrev pub info_llr_wait : ℕ
info_llr_wait = 13

abbrev pub info_llr_run : ℕ
info_llr_run = 14

abbrev pub info_llr_disabled : ℕ
info_llr_disabled = 15

-- enum sbl_llr_mode
abbrev pub llr_mode_off : ℕ
llr_mode_off = 2

abbrev pub llr_mode_monitor : ℕ
llr_mode_monitor = 3

abbrev pub llr_mode_on : ℕ
llr_mode_on = 4

abbrev pub llr_mode_auto : ℕ
llr_mode_auto = 5

-- enum sbl_ifg_config
abbrev pub ifg_config_hpc : ℕ
ifg_config_hpc = 2

abbrev pub ifg_config_ieee_200g : ℕ
ifg_config_ieee_200g = 3

abbrev pub ifg_config_ieee_100g : ℕ
ifg_config_ieee_100g = 4

abbrev pub partner_switch : ℕ
partner_switch = 1

-- options and debug flags of the PML block, by bit number
abbrev pub opt_enable_ether_llr : ℕ
opt_enable_ether_llr = 16

abbrev pub opt_enable_ifg_hpc_with_llr : ℕ
opt_enable_ifg_hpc_with_llr = 17

abbrev pub opt_enable_ifg_config : ℕ
opt_enable_ifg_config = 18

abbrev pub debug_ignore_hiser : ℕ
debug_ignore_hiser = 1

abbrev pub debug_allow_loop_time_fail : ℕ
debug_allow_loop_time_fail = 23

abbrev pub debug_ignore_align : ℕ
debug_ignore_align = 24

abbrev pub debug_remote_fault_recovery : ℕ
debug_remote_fault_recovery = 26

-- counters of PML recovery
abbrev pub ctr_recovery_attempts : ℕ
ctr_recovery_attempts = 13

abbrev pub ctr_recovery_successes : ℕ
ctr_recovery_successes = 14

abbrev pub ctr_origin_ldown : ℕ
ctr_origin_ldown = 15

abbrev pub ctr_histogram_0_9ms : ℕ
ctr_histogram_0_9ms = 21

abbrev pub ctr_histogram_high : ℕ
ctr_histogram_high = 33

abbrev pub ctr_rate_exceeded : ℕ
ctr_rate_exceeded = 34

abbrev pub recovery_histogram_max : ℕ
recovery_histogram_max = 120

abbrev pub recovery_poll_interval : ℕ
recovery_poll_interval = 4

abbrev pub recovery_llr_timeout_offset : ℕ
recovery_llr_timeout_offset = 8

-- enum sbl_fec_discard_type
abbrev pub discard_rx_degrade : ℕ
discard_rx_degrade = 1

abbrev pub discard_recovery_start : ℕ
discard_recovery_start = 2

abbrev pub discard_recovery_end : ℕ
discard_recovery_end = 3

abbrev pub eexist : ℕ
eexist = 17

-- SBL_OPT_RESET_CLEAR_PARAMS and SBL_OPT_RELOAD_FW_ON_TIMEOUT, by bit number
abbrev pub opt_reset_clear_params : ℕ
opt_reset_clear_params = 5

abbrev pub opt_reload_fw_on_timeout : ℕ
opt_reload_fw_on_timeout = 13

abbrev pub debug_inhibit_spll_reset : ℕ
debug_inhibit_spll_reset = 3

abbrev pub debug_force_reload_serdes_fw : ℕ
debug_force_reload_serdes_fw = 22
