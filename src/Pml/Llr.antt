-- ===== src/Pml/Llr.antt =====
-- The link-level retry of a port, apart from its start: drivers/net/ethernet/hpe/sbl/sbl_pml_llr.c and
-- the platforms' nic/sbl_pml_llr_nic.c and sw/sbl_pml_llr_sw.c.
pub mod Capacity
use ss_sbl.Prelude.{
  ℕ, zero, suc, ◌+◌, ◌-◌, ◌*◌, ◌/◌, ◌^◌, ◌==◌, ltb, leb, Bool, true, false, not, ◌||◌, ◌&&◌,
  if◌then◌else◌, test_bit, Option, none, some,
}
use ss_sbl.Link.{Link}
use ss_sbl.Link.Consts.{
  etimedout, ecanceled, enodata, mode_bs_200g, mode_bj_100g, mode_cd_100g, mode_cd_50g,
  partner_switch, llr_mode_off, llr_mode_monitor, llr_mode_on, info_llr_loop, info_llr_wait,
  info_llr_run, info_llr_disabled,
}
use ss_sbl.Kernel.{u64}
use ss_sbl.Fec.Thresholds.{Platform}
use ss_sbl.Pml.Regs.{Reg, Field}
use ss_sbl.Pml.Pcs.{pcs_ordered_sets}
use ss_sbl.Pml.{
  Board, State, P, return, ◌>>=◌, ◌>>◌, the_link, update, gets, info_set, info_clear, read64,
  write64, modify, flush, get, put, pause, timed_out, was_cancelled,
}

-- enum sbl_pml_llr_state_e
pub data LlrState : Type 0 where
  unknown off init advance halt replay discard monitor : LlrState

-- The state by its number in the register
unfoldable pub llr_state_of : ℕ → LlrState
llr_state_of n =
    if n == 0
    then LlrState.off
    else if n == 1
    then LlrState.init
    else if n == 2
    then LlrState.advance
    else if n == 3
    then LlrState.halt
    else if n == 4
    then LlrState.replay
    else if n == 5
    then LlrState.discard
    else if n == 6
    then LlrState.monitor
    else LlrState.unknown

abbrev pub is_advance : LlrState → Bool
is_advance LlrState.advance = true
is_advance _ = false

-- sbl_pml_llr_link_down_behaviour, for a fabric link and for any other
unfoldable pub link_down_behaviour : Link → ℕ
link_down_behaviour l = 0

-- DIV_ROUND_UP on `u64`
abbrev pub div_round_up : ℕ → ℕ → ℕ
div_round_up n d = u64 (n + (d - 1)) / d

-- The bytes that the link carries in a nanosecond, rounded up
unfoldable pub bytes_per_ns : ℕ → ℕ
bytes_per_ns mode =
    if mode == mode_bs_200g
    then 25
    else if mode == mode_bj_100g || mode == mode_cd_100g
    then 13
    else if mode == mode_cd_50g
    then 7
    else 25

-- `if (n > cap) n = cap;`
abbrev pub capped : ℕ → ℕ → ℕ
capped n cap = if ltb cap n then cap else n

-- The bytes that sbl_pml_llr_calculate_capacity makes room for, in `u64` arithmetic: what is on its way
-- in the loop time, and two frames.
unfoldable pub capacity_bytes : ℕ → ℕ → ℕ → ℕ
capacity_bytes mode frame loop_time = u64 (u64 (loop_time * bytes_per_ns mode) + u64 (frame * 2))

-- The results of sbl_pml_llr_calculate_capacity, with the frame size and the two caps
unfoldable pub calculate_capacity : ℕ → ℕ → ℕ → ℕ × ℕ → ℕ × ℕ
calculate_capacity mode frame loop_time (cap_data_max, cap_seq_max) = (
  capped (div_round_up (capacity_bytes mode frame loop_time) 48) cap_data_max,
  capped (div_round_up (capacity_bytes mode frame loop_time) 32) cap_seq_max,
)

module _ {H : Type 0} (b : Board H) where
  -- sbl_frame_size
  unfoldable pub frame_size : ℕ
  frame_size = elim b.platform [ Platform.rosetta ↦ b.max_frame_size | Platform.cassini ↦ 9216 ]

  -- sbl_llr_max_data_get
  unfoldable pub max_data_get : Link → ℕ × ℕ
  max_data_get l = elim b.platform [
    | Platform.rosetta ↦
        if l.blattr.link_partner == partner_switch then b.fabric_cap else b.edge_cap
    | Platform.cassini ↦ b.edge_cap
  ]

  -- sbl_pml_llr_get_state
  unfoldable pub llr_get_state : P H LlrState
  llr_get_state = do v ← read64 b Reg.sts_llr; return (llr_state_of (get b Field.sts_llr_state v))

  -- sbl_pml_llr_enable_loop_timing and sbl_pml_llr_disable_loop_timing
  unfoldable pub llr_enable_loop_timing : P H (Unit {0})
  llr_enable_loop_timing = do
    modify b Reg.cfg_llr (put b Field.llr_enable_loop_timing 1)
    flush b Reg.cfg_llr
    info_set info_llr_loop

  unfoldable pub llr_disable_loop_timing : P H (Unit {0})
  llr_disable_loop_timing = do
    modify b Reg.cfg_llr (put b Field.llr_enable_loop_timing 0)
    flush b Reg.cfg_llr
    info_clear info_llr_loop

  -- sbl_pml_llr_mode_set; a mode that it does not know is read and left alone.
  unfoldable pub llr_mode_set : ℕ → P H (Unit {0})
  llr_mode_set mode = do
    v ← read64 b Reg.cfg_llr
    if mode == llr_mode_off
        then (do write64 b Reg.cfg_llr (put b Field.llr_llr_mode 0 v); flush b Reg.cfg_llr)
        else if mode == llr_mode_monitor
        then (do write64 b Reg.cfg_llr (put b Field.llr_llr_mode 1 v); flush b Reg.cfg_llr)
        else if mode == llr_mode_on
        then (do write64 b Reg.cfg_llr (put b Field.llr_llr_mode 2 v); flush b Reg.cfg_llr)
        else return tt

  -- What sbl_pml_llr_config makes of the LLR configuration
  unfoldable pub llr_config_value : Link → ℕ → ℕ
  llr_config_value l v =
      put b Field.llr_mac_if_credits (b.header.field_dflt Field.llr_mac_if_credits) (
        put b Field.llr_link_down_behavior (link_down_behaviour l) (
          put b Field.llr_enable_loop_timing 0 (
            put b Field.llr_size 3 (
              put b Field.llr_filter_ctl_frames 1 (
                put b Field.llr_filter_lossless_when_off 1 (
                  put b Field.llr_ack_nack_err_check 1
                    (put b Field.llr_preamble_seq_check 1 (put b Field.llr_llr_mode 0 v))))))))

  -- sbl_pml_llr_config
  unfoldable pub llr_config : P H (Unit {0})
  llr_config = do
    update (λ l. record l { pml = record (l.pml) { llr_mode = l.blattr.llr_mode } })
    write64 b Reg.sts_llr_max_usage 0
    l ← the_link
    modify b Reg.cfg_llr (llr_config_value l)
    write64 b Reg.cfg_llr_cf_smac (b.header.dflt Reg.cfg_llr_cf_smac)
    write64 b Reg.cfg_llr_cf_etype (b.header.dflt Reg.cfg_llr_cf_etype)
    write64 b Reg.cfg_llr_sm (b.header.dflt Reg.cfg_llr_sm)
    modify b Reg.cfg_llr_cf_rates (put b Field.cf_rates_loop_timing_period 2000)
    flush b Reg.cfg_llr

  -- What sbl_pml_llr_stop makes of the LLR configuration
  unfoldable pub llr_stop_value : Link → ℕ → ℕ
  llr_stop_value l v =
      put b Field.llr_mac_if_credits (b.header.field_dflt Field.llr_mac_if_credits) (
        put b Field.llr_link_down_behavior (link_down_behaviour l) (
          put b Field.llr_enable_loop_timing 0 (
            put b Field.llr_filter_ctl_frames 0
              (put b Field.llr_filter_lossless_when_off 1 (put b Field.llr_llr_mode 0 v)))))

  -- sbl_pml_llr_stop
  unfoldable pub llr_stop : P H (Unit {0})
  llr_stop = do
    update (λ l. record l { pml = record (l.pml) { llr_mode = llr_mode_off } })
    l ← the_link
    modify b Reg.cfg_llr (llr_stop_value l)
    flush b Reg.cfg_llr
    pcs_ordered_sets b false
    info_clear info_llr_run
    info_clear info_llr_disabled

  -- sbl_pml_llr_disable and sbl_pml_llr_enable
  unfoldable pub llr_disable : P H (Unit {0})
  llr_disable = do
    modify b Reg.cfg_llr (put b Field.llr_llr_mode 0)
    flush b Reg.cfg_llr
    info_set info_llr_disabled
    info_clear info_llr_run

  unfoldable pub llr_enable : P H (Unit {0})
  llr_enable s = llr_mode_set s.link.pml.llr_mode s

  -- The loop of sbl_pml_llr_ready_wait
  unfoldable pub ready_loop : ℕ → State H → Option (State H × ℕ)
  ready_loop zero s = none
  ready_loop (suc fuel) s =
      let (s', state) = llr_get_state s in
      let rest = ready_loop fuel (pause b 5000 s').0 in
      if is_advance state
      then some (s', 0)
      else if timed_out b s'
      then some (s', etimedout)
      else if was_cancelled b s'
      then some (s', ecanceled)
      else rest

  -- sbl_pml_llr_check_is_ready, a `do` loop up to the tick `last`
  unfoldable pub check_is_ready : ℕ → ℕ → State H → Option (State H × Bool)
  check_is_ready zero last s = none
  check_is_ready (suc fuel) last s =
      let (s', state) = llr_get_state s in
      let p = (pause b 5000 s').0 in
      let rest = check_is_ready fuel last p in
      if is_advance state
      then some (s', true)
      else if b.kernel.time_after last (b.jiffies p.hw)
      then rest
      else some (p, false)
