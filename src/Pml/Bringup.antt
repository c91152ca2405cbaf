-- ===== src/Pml/Bringup.antt =====
-- The bring-up of the PML block, its taking down and its defaults: sbl_pml_start, sbl_pml_link_down and
-- sbl_pml_set_defaults (drivers/net/ethernet/hpe/sbl/sbl_pml.c).
pub mod Failure
mod Tests
use ss_sbl.Prelude.{
  ℕ, zero, suc, ◌==◌, Bool, true, false, not, ◌&&◌, ◌||◌, if◌then◌else◌, test_bit, Option, none,
  some, word_and,
}
use ss_sbl.Link.{Link, is_running}
use ss_sbl.Link.Consts.{
  enolink, enodata, ecanceled, info_pcs_tx_am, info_pcs_align_en, debug_inhibit_cleanup,
}
use ss_sbl.Media.{debug_option}
use ss_sbl.Timers.{start_timeout_ensure_remaining}
use ss_sbl.Pml.Regs.{Reg, Field}
use ss_sbl.Pml.Mac.{mac_config, mac_start, mac_stop}
use ss_sbl.Pml.Pcs.{pcs_enable_alignment, pcs_disable_alignment, pcs_stop}
use ss_sbl.Pml.PcsConfig.{enable_auto_lane_degrade}
use ss_sbl.Pml.PcsWait.{pcs_wait}
use ss_sbl.Pml.Llr.{llr_config, llr_stop, link_down_behaviour}
use ss_sbl.Pml.LlrStart.{llr_start}
use ss_sbl.Pml.Intr.{err_flgs_clear_all}
use ss_sbl.Pml.{
  Board, State, P, Event, return, ◌>>=◌, ◌>>◌, the_link, update, tell, when, read64, write64, flush,
  put,
}

module _ {H : Type 0} (b : Board H) where
  -- The label `out_err`
  unfoldable pub start_out_err : ℕ → P H ℕ
  start_out_err err = do
    mac_stop b
    l ← the_link
    when (not (debug_option debug_inhibit_cleanup l)) (pcs_disable_alignment b)
    return err

  -- The label `out_err_invalidate`. The tuning parameters are those of the serdes.
  unfoldable pub start_out_err_invalidate : ℕ → P H ℕ
  start_out_err_invalidate err = do
    l ← the_link
    when l.saved_params (tell Event.invalidate_tuning_params)
    start_out_err err

  -- The label `out_done`
  unfoldable pub start_done : P H ℕ
  start_done = do err_flgs_clear_all b; return 0

  -- What becomes of the result of sbl_pml_llr_start
  unfoldable pub llr_result : ℕ → P H ℕ
  llr_result zero = start_done
  llr_result (suc err) = start_out_err (suc err)

  -- What follows sbl_pml_pcs_wait, with its result: in every case the loop ends in its first round.
  unfoldable pub start_mac_llr : ℕ → ℕ → State H → Option (State H × ℕ)
  start_mac_llr fuel zero s = elim (enable_auto_lane_degrade b fuel s) [
    | none ↦ none
    | some (s₁, u) ↦ elim (llr_start b fuel (mac_start b s₁).0) [
      | none ↦ none
      | some (s₂, err) ↦ some (llr_result err s₂)
    ]
  ]
  start_mac_llr fuel (suc err) s = some (
      (if suc err == ecanceled then start_out_err (suc err) else start_out_err_invalidate (suc err))
        s)

  -- sbl_start_timeout_ensure_remaining, for SBL_PML_MIN_START_TIME
  unfoldable pub ensure_start_time : P H (Unit {0})
  ensure_start_time s = (
    record s {
      link = record (s.link) {
        timing = start_timeout_ensure_remaining b.kernel (b.jiffies s.hw) 2 s.link.timing;
      };
    },
    tt,
  )

  -- What comes between the two tests and the loop
  unfoldable pub start_configure : P H ℕ
  start_configure = do
    ensure_start_time
    l ← the_link
    when (not (test_bit info_pcs_align_en l.link_info)) (pcs_enable_alignment b)
    err ← mac_config b
    if not (err == 0) then return err else (do llr_config b; return 0)

  -- sbl_pml_start
  unfoldable pub pml_start : ℕ → State H → Option (State H × ℕ)
  pml_start fuel s =
      if not (is_running s.link.sstate)
      then some (start_out_err enolink s)
      else if not (test_bit info_pcs_tx_am s.link.link_info)
      then some (start_out_err enodata s)
      else (let (s₁, err) = start_configure s in
          if not (err == 0)
          then some (start_out_err err s₁)
          else elim (pcs_wait b fuel s₁) [ none ↦ none | some (s₂, e) ↦ start_mac_llr fuel e s₂ ])

  -- sbl_pml_link_down
  unfoldable pub pml_link_down : P H ℕ
  pml_link_down = do llr_stop b; mac_stop b; pcs_stop b; err_flgs_clear_all b; return 0

  -- `sbl_write64(reg, ..._DFLT)`
  unfoldable pub write_dflt : Reg → P H (Unit {0})
  write_dflt r = write64 b r (b.header.dflt r)

  -- SBL_PCS_200_UM0 to SBL_PCS_200_UM7
  unfoldable pub write_ums : P H (Unit {0})
  write_ums = do
    write64 b (Reg.cfg_pcs_um 0) 0x733F4C298CC0B3
    write64 b (Reg.cfg_pcs_um 1) 0x8121A5987EDE5A
    write64 b (Reg.cfg_pcs_um 2) 0xA90CC10156F33E
    write64 b (Reg.cfg_pcs_um 3) 0x2F7F797BD08086
    write64 b (Reg.cfg_pcs_um 4) 0x0DAED5E6F2512A
    write64 b (Reg.cfg_pcs_um 5) 0x2EB0EDB1D14F12
    write64 b (Reg.cfg_pcs_um 6) 0x5E63BD11A19C42
    write64 b (Reg.cfg_pcs_um 7) 0xA48929CD5B76D6

  -- sbl_pml_set_defaults; `ams` is SBL_PML_CFG_RX_PCS_AMS_SET of the two match masks.
  unfoldable pub pml_set_defaults : ℕ → P H (Unit {0})
  pml_set_defaults ams = do
    write_dflt Reg.cfg_pcs
    write_dflt Reg.cfg_pcs_autoneg
    write_dflt Reg.cfg_pcs_autoneg_timers
    write_dflt Reg.cfg_pcs_autoneg_base_page
    write_dflt Reg.cfg_pcs_autoneg_next_page
    write_dflt Reg.cfg_pcs_ams
    write_dflt Reg.cfg_tx_pcs
    write_dflt Reg.cfg_rx_pcs
    write_dflt Reg.dbg_pcs
    write64 b Reg.cfg_rx_pcs_ams ams
    write64 b Reg.cfg_pcs_cm 0xD6D9B56505264A9A
    write_ums
    update (λ l. record l { pcs_config = false })
    write_dflt Reg.cfg_tx_mac
    write_dflt Reg.cfg_rx_mac
    l ← the_link
    write64 b Reg.cfg_llr
        (put b Field.llr_link_down_behavior (link_down_behaviour l) (b.header.dflt Reg.cfg_llr))
    write_dflt Reg.cfg_llr_sm
    flush b Reg.cfg_llr
