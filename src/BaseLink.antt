-- ===== src/BaseLink.antt =====
-- The base link: drivers/net/ethernet/hpe/sbl/sbl_link.c. The functions of the serdes, the PML block
-- and the firmware that it calls are the parameter `ops`: each call may change the hardware and the
-- link record, and returns a number. The calls made are logged, the latest first.
pub mod Status
pub mod FaultMonitor
pub mod Detect
pub mod Start
pub mod Stop
pub mod Frame
pub mod Steps
pub mod Stages
pub mod Outcome
pub mod Halt
pub mod Recover
pub mod Mutex
pub mod Lifecycle
mod Tests
use ss_sbl.Prelude.{
  ℕ, Bool, true, false, List, [], ◌∷◌, if◌then◌else◌, ◌==◌, set_bit, clear_bit, ltb,
}
use ss_sbl.Link.{LinkStatus, Link}
use ss_sbl.Kernel.{Kernel}
use ss_sbl.Fec.Thresholds.{Platform}
use ss_sbl.Fec.Rates.{Sample}

-- The calls out of sbl_link.c, with what their number means. Where a flag tells the recoverable
-- faults, it is true for SBL_PML_REC_FAULT_ERR_FLAGS and false for SBL_PML_FAULT_ERR_FLAGS.
pub data Call : Type 0 where
  lock_busy_mtx unlock_busy_mtx : Call
  fec_timer_set fec_timer_delete : Call
  pml_set_defaults pml_err_flgs_clear_all : Call
  validate_serdes_fw_crc : ℕ → Call
  serdes_firmware_flash_safe : Bool → Call
  link_autoneg pml_pcs_am_start serdes_lp_detect : Call
  serdes_start serdes_stop serdes_reset an_serdes_stop : Call
  pml_start pml_link_down pml_recovery_cancel : Call
  invalidate_tuning_params invalidate_all_tuning_params : Call
  read_replay_ct_max read_auto_lane_degrade read_lp_lanes read_rx_lanes pml_pcs_up : Call
  err_flgs_test install_intr enable_intr disable_intr : Bool → Call
  disable_intr_flags remove_intr_handler : Call

-- The instance around one link: the calls, what mutex_lock_interruptible gives, the clocks, and the samples of the FEC counters that the
-- check of a link coming up takes.
pub record Env (H : Type 0) : Type 0 where
  pub kernel : Kernel
  pub platform : Platform
  pub num_serdes : ℕ
  pub ops : Call → H → Link → H × Link × ℕ
  pub mutex_lock : H → ℕ
  pub jiffies : H → ℕ
  pub ktime : H → ℕ
  pub up_start : H → Sample
  pub up_samples : H → ℕ → Sample

pub record World (H : Type 0) : Type 0 where
  pub hw : H
  pub link : Link
  pub log : List Call

module _ {H : Type 0} where
  -- One call.
  unfoldable pub call : Env H → Call → World H → World H × ℕ
  call env c w =
      let (h, l, n) = env.ops c w.hw w.link in (record { hw = h; link = l; log = c ∷ w.log }, n)

  -- A call whose result is not looked at.
  unfoldable pub call_ : Env H → Call → World H → World H
  unfolding call
  call_ env c w = (call env c w).0

  -- A call of the kernel, on a mutex or a timer: it leaves the link record alone.
  unfoldable pub note : Call → World H → World H
  note c w = record w { log = c ∷ w.log }

  unfoldable pub lock : Env H → World H → World H × ℕ
  unfolding note
  lock env w = (note Call.lock_busy_mtx w, env.mutex_lock w.hw)

  -- An update of the link record.
  abbrev pub on_link : (Link → Link) → World H → World H
  on_link f w = record w { link = f w.link }

  -- `err = m(); if (err) goto fail; next`
  unfoldable pub attempt :
      (World H → World H × ℕ)
      → (ℕ → World H → World H × ℕ)
      → (World H → World H × ℕ)
      → World H
      → World H × ℕ
  attempt m fail next w = let (w', err) = m w in if err == 0 then next w' else fail err w'

-- sbl_link_info_set and sbl_link_info_clear, for the flag `1 << bit`; the known flags are 17.
unfoldable pub link_info_set : ℕ → Link → Link
link_info_set bit l = if ltb bit 17 then record l { link_info = set_bit bit l.link_info } else l

unfoldable pub link_info_clear : ℕ → Link → Link
link_info_clear bit l = if ltb bit 17 then record l { link_info = clear_bit bit l.link_info } else l

abbrev pub info_lp_det : ℕ
info_lp_det = 0

abbrev pub info_fault_mon : ℕ
info_fault_mon = 16
