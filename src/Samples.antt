-- ===== src/Samples.antt =====
-- Data for the tests: a link as it is with a copper cable and a configured base link, the readings of
-- its FEC registers, and an instance of 4 ports.
use ss_sbl.Prelude.{ℕ, ◌*◌, ◌+◌, true, false, [], ◌∷◌, replicate, refl}
use ss_sbl.Link.{
  LinkStatus, SerdesStatus, MediaAttr, BaseLinkAttr, Timespec, Timing, FecPrmts, Autoneg, Pml, Link,
  Inst,
}
use ss_sbl.Link.Consts.{
  sbl_magic, media_attr_magic, link_attr_magic, media_electrical, config_pec, mode_bs_200g,
  an_mode_on, loopback_off, num_counters,
}
use ss_sbl.Kernel.{tick_1000}
use ss_sbl.Fec.Thresholds.{Platform}
use ss_sbl.Fec.Rates.{FecReg, Sample, zero_cntrs}
use ss_sbl.BaseLink.{Call, Env, World}
use ss_sbl.BaseLink.Frame.{Framed}

abbrev pub copper : MediaAttr
copper = record {
  magic = media_attr_magic;
  media = media_electrical;
  len = 64;
  info = 1;
  vendor = 1;
}

abbrev pub edge_200g : BaseLinkAttr
edge_200g = record {
  magic = link_attr_magic;
  options = 0;
  start_timeout = 20;
  config_target = config_pec;
  an_mode = an_mode_on;
  an_retry_timeout = 5;
  an_max_retry = 3;
  link_mode = mode_bs_200g;
  loopback_mode = loopback_off;
  link_partner = 2;
  fec_mode = 5;
  llr_mode = 1;
  ifg_config = 2;
  recovery = record { timeout = 40; rl_max_duration = 60; rl_window_size = 1000 };
}

abbrev pub no_time : Timespec
no_time = record { sec = 0; nsec = 0 }

abbrev pub timing : Timing
timing = record {
  last_start_jiffy = 21000;
  start_timeout = 20;
  an_timeout_active = false;
  start_time_begin = 1000000000;
  start_time = no_time;
  up_time_begin = 0;
  up_time = no_time;
  tune_time_begin = 2000000000;
  tune_time = no_time;
  total_tune_time = record { sec = 1; nsec = 600000000 };
}

-- Thresholds in use, with the adjustments of a link that is up at 100 percent.
abbrev pub monitored : FecPrmts
monitored = record {
  curr_cnts = record zero_cntrs { time = 1 };
  prev_cnts = zero_cntrs;
  rates = record zero_cntrs { ucw = 50; ccw = 7 };
  ucw_thresh = 21;
  ucw_up_thresh_adj = 100;
  ucw_down_thresh_adj = 100;
  ucw_hwm = 10;
  ccw_thresh = 1000;
  ccw_up_thresh_adj = 100;
  stp_ccw_thresh = 2000;
  stp_ccw_up_thresh_adj = 100;
  ccw_down_thresh_adj = 100;
  ccw_hwm = 0;
  llr_tx_replay_thresh = 100000;
  llr_tx_replay_hwm = 0;
  fecl_warn = 125;
}

abbrev pub idle_an : Autoneg
idle_an = record {
  tx_page = [];
  tx_count = 0;
  rx_page = [];
  rx_count = 0;
  try_count = 0;
  fixup_applied = false;
  options = 0;
}

abbrev pub idle_pml : Pml
idle_pml = record {
  active_rx_lanes = 15;
  active_fec_lanes = 255;
  pcs_recovery_flag = false;
  llr_mode = 2;
  llr_options = 0;
  ifg_config = 0;
  fec_discard_type = 0;
  recovery = record {
    timeout = 40;
    down_origin = 0;
    init_jiffies = 0;
    last_poll_jiffies = 0;
    rl_window_start = 0;
    rl_time_remaining = 0;
  };
}

abbrev pub link_down : Link
link_down = record {
  mattr = copper;
  mconfigured = true;
  blattr = edge_200g;
  blconfigured = true;
  sstate = SerdesStatus.down;
  serr = 0;
  blstate = LinkStatus.down;
  blerr = 0;
  link_info = 0;
  timing = timing;
  pcs_config = false;
  an = idle_an;
  lp_subtype = 0;
  reload_serdes_fw = false;
  lp_detected = false;
  saved_params = false;
  start_cancelled = false;
  link_mode = mode_bs_200g;
  loopback_mode = loopback_off;
  llr_loop_time = 0;
  intr_err_flgs = 0;
  debug_config = 0;
  recovery_started = false;
  is_degraded = false;
  counters = replicate num_counters 0;
  fec = monitored;
  fec_discard_time = 0;
  pml = idle_pml;
}

abbrev pub link_up : Link
link_up = record link_down { blstate = LinkStatus.up; sstate = SerdesStatus.running }

abbrev pub node : Inst
node = record {
  magic = sbl_magic;
  num_ports = 4;
  is_hw = true;
  links = link_down ∷ link_up ∷ link_down ∷ link_down ∷ [];
}

-- The registers read zero, two seconds after the last reading.
abbrev pub quiet : Sample
quiet = record { jiffies = 2000; read = λ r. 0; read_jiffies = 2001 }

-- Two seconds with 5000 uncorrected codewords.
abbrev pub noisy : Sample
noisy = record { jiffies = 2000; read = is_ucw; read_jiffies = 2001 }
  where
    is_ucw : FecReg → ℕ
    is_ucw FecReg.uncorrected_cw = 5000
    is_ucw _ = 0

-- What the calls return on a port where all goes well.
abbrev pub answer : Call → ℕ
answer Call.pml_pcs_up = 1
answer Call.read_replay_ct_max = 255
answer _ = 0

abbrev pub port : Env ℕ
port = record {
  kernel = tick_1000;
  platform = Platform.rosetta;
  num_serdes = 4;
  ops = λ c h l. (h + 1, l, answer c);
  mutex_lock = λ h. 0;
  jiffies = λ h. h;
  ktime = λ h. h * 1000000;
  up_start = λ h. quiet;
  up_samples = λ h i. record quiet { jiffies = 2500 * (i + 2); read_jiffies = 2500 * (i + 2) };
}

pub port-Framed : Framed port
port-Framed = record { keeps_core = λ c h l. refl }

abbrev pub world_down : World ℕ
world_down = record { hw = 0; link = link_down; log = [] }

abbrev pub world_up : World ℕ
world_up = record { hw = 0; link = link_up; log = [] }
