-- ===== src/Pml/LlrStart.antt =====
-- The start of the link-level retry: sbl_pml_llr_start (sbl_pml_llr.c).
use ss_sbl.Prelude.{ℕ, ◌+◌, ◌*◌, ◌==◌, true, not, if◌then◌else◌, test_bit, Option, none, some}
use ss_sbl.Link.{Link}
use ss_sbl.Link.Consts.{
  opt_disable_pml_recovery, opt_fabric_link, llr_mode_off, info_llr_wait, info_llr_run,
  info_llr_disabled, replay_ct_max_unlimited, recovery_llr_timeout_offset,
}
use ss_sbl.Kernel.{u64, u32}
use ss_sbl.Pml.Regs.{Reg, Field}
use ss_sbl.Pml.Mac.{mac_hpc_set}
use ss_sbl.Pml.Pcs.{pcs_ordered_sets}
use ss_sbl.Pml.Llr.{
  frame_size, max_data_get, calculate_capacity, llr_enable_loop_timing, llr_disable_loop_timing,
  llr_mode_set, llr_stop, ready_loop,
}
use ss_sbl.Pml.LlrMode.{llr_mode_get, measure_loop_time}
use ss_sbl.Pml.PcsWait.{flagged}
use ss_sbl.Pml.{
  Board, State, P, return, ◌>>=◌, ◌>>◌, the_link, info_set, info_clear, when, write64, modify,
  flush, put,
}

-- SBL_DFLT_REPLAY_CT_MAX and SBL_PML_ALL_LLR_ERR_FLGS
abbrev pub dflt_replay_ct_max : ℕ
dflt_replay_ct_max = 254

abbrev pub all_llr_err_flgs : ℕ
all_llr_err_flgs = 0x1ff8000000000000

-- The two timers of the LLR in the recovery of the PML block, in `u32` arithmetic
unfoldable pub llr_timeout : Link → ℕ
llr_timeout l = u32 (u32 (l.blattr.recovery.timeout + recovery_llr_timeout_offset) * 1000000)

module _ {H : Type 0} (b : Board H) where
  -- The replay counter and its timer
  unfoldable pub replay_config : P H (Unit {0})
  replay_config = do
    l ← the_link
    modify b Reg.cfg_llr_sm (λ v.
        put b Field.sm_replay_timer_max (u64 (3 * l.llr_loop_time + 500)) (
          put b Field.sm_replay_ct_max
            (if test_bit opt_disable_pml_recovery l.blattr.options
              then dflt_replay_ct_max
              else replay_ct_max_unlimited)
            v))
    flush b Reg.cfg_llr_sm

  -- The capacity of the replay buffer; `..._SET` is an update of zero.
  unfoldable pub capacity_config : P H (Unit {0})
  capacity_config = do
    l ← the_link
    let c : ℕ × ℕ = calculate_capacity l.link_mode (frame_size b) l.llr_loop_time (max_data_get b l)
    write64 b Reg.cfg_llr_capacity (
        if test_bit opt_fabric_link l.blattr.options
        then b.header.dflt Reg.cfg_llr_capacity
        else put b Field.capacity_max_data c.0 (put b Field.capacity_max_seq c.1 0))
    flush b Reg.cfg_llr_capacity

  -- The timers of the age of the data and of a link that is down
  unfoldable pub timeouts_config : P H (Unit {0})
  timeouts_config = do
    l ← the_link
    if test_bit opt_disable_pml_recovery l.blattr.options
        then write64 b Reg.cfg_llr_timeouts (b.header.dflt Reg.cfg_llr_timeouts)
        else modify b Reg.cfg_llr_timeouts (λ v.
          put b Field.timeouts_pcs_link_dn (llr_timeout l)
            (put b Field.timeouts_data_age (llr_timeout l) v))
    flush b Reg.cfg_llr_timeouts

  -- The label `out`, and the label `out_err`
  unfoldable pub llr_start_out : P H ℕ
  llr_start_out = do llr_disable_loop_timing b; return 0

  unfoldable pub llr_start_out_err : ℕ → P H ℕ
  llr_start_out_err err = do llr_disable_loop_timing b; llr_stop b; return err

  -- What follows the wait for the LLR
  unfoldable pub llr_started : ℕ → P H ℕ
  llr_started err =
      if not (err == 0) then llr_start_out_err err else (do info_set info_llr_run; llr_start_out)

  -- The setting of the registers, up to sbl_pml_llr_mode_set
  unfoldable pub llr_setup : P H (Unit {0})
  llr_setup = do
    replay_config
    capacity_config
    timeouts_config
    write64 b Reg.err_clr all_llr_err_flgs
    l ← the_link
    llr_mode_set b l.pml.llr_mode

  -- sbl_pml_llr_ready_wait
  unfoldable pub ready_wait : ℕ → State H → Option (State H × ℕ)
  ready_wait fuel = flagged b info_llr_wait (ready_loop b fuel)

  -- `if (!link->llr_loop_time) err = sbl_pml_llr_measure_loop_time_ns(...)`, after the ordered sets
  -- are on
  unfoldable pub measured : P H ℕ
  measured = do
    l ← the_link
    when (test_bit 0 l.pml.llr_options) (mac_hpc_set b)
    pcs_ordered_sets b true
    k ← the_link
    if k.llr_loop_time == 0 then measure_loop_time b else return 0

  -- What follows the choice of the mode
  unfoldable pub llr_start_mode : ℕ → ℕ → State H → Option (State H × ℕ)
  llr_start_mode fuel err s =
      if not (err == 0)
      then some (llr_start_out_err err s)
      else if s.link.pml.llr_mode == llr_mode_off
      then some (llr_start_out s)
      else (let (s₁, e) = measured s in
          if not (e == 0)
          then some (llr_start_out_err e s₁)
          else elim (ready_wait fuel (llr_setup s₁).0) [
            | none ↦ none
            | some (s₂, e₂) ↦ some (llr_started e₂ s₂)
          ])

  -- sbl_pml_llr_start
  unfoldable pub llr_start : ℕ → State H → Option (State H × ℕ)
  llr_start fuel s =
      elim (llr_mode_get b fuel (llr_enable_loop_timing b (info_clear info_llr_disabled s).0).0) [
        | none ↦ none
        | some (s', err) ↦ llr_start_mode fuel err s'
      ]
