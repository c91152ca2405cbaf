-- ===== src/Pml/Handler.antt =====
-- The interrupt handler of a port: sbl_pml_hdlr (drivers/net/ethernet/hpe/sbl/sbl_pml.c), without what
-- it prints.
pub mod Origin
use ss_sbl.Prelude.{
  ℕ, ◌==◌, ltb, Bool, true, false, not, ◌&&◌, ◌||◌, if◌then◌else◌, test_bit, word_and,
}
use ss_sbl.Link.{Link}
use ss_sbl.Link.Consts.{
  replay_ct_max_unlimited, opt_disable_pml_recovery, debug_ignore_hiser, debug_ignore_align,
  debug_remote_fault_recovery, discard_rx_degrade,
}
use ss_sbl.Media.{debug_option}
use ss_sbl.Pml.Regs.{Reg, Field, ErrFlag, raised, autoneg_err_flgs}
use ss_sbl.Pml.Intr.{disable_intr_handler}
use ss_sbl.Pml.Recovery.{
  origin_link_down, origin_local_fault, origin_remote_fault, origin_align, origin_hiser,
  origin_llr_max, origin_degrade_failure, ignore_down_origin, discard_fec, recovery_monitor,
  pml_link_down_async_alert,
}
use ss_sbl.Pml.{
  Board, State, P, Event, return, ◌>>=◌, ◌>>◌, the_link, update, tell, when, read64, write64, flush,
  get,
}

-- enum sbl_async_alert_type
abbrev pub alert_tx_degrade : ℕ
alert_tx_degrade = 3

abbrev pub alert_rx_degrade : ℕ
alert_rx_degrade = 4

abbrev pub alert_tx_degrade_failure : ℕ
alert_tx_degrade_failure = 5

abbrev pub alert_rx_degrade_failure : ℕ
alert_rx_degrade_failure = 6

module _ {H : Type 0} (b : Board H) where
  abbrev pub is_raised : ErrFlag → ℕ → Bool
  is_raised f flags = raised b.header f flags

  -- `alert`: the failure of the receive side is looked at last.
  unfoldable pub failure_alert : ℕ → ℕ
  failure_alert flags =
      if is_raised ErrFlag.pcs_rx_degrade_failure flags
      then alert_rx_degrade_failure
      else if is_raised ErrFlag.pcs_tx_degrade_failure flags
      then alert_tx_degrade_failure
      else 0

  -- The warnings that some lanes are lost
  unfoldable pub degrade_warnings : ℕ → P H (Unit {0})
  degrade_warnings flags = do
    v ← read64 b Reg.sts_pcs_lane_degrade
    let tx : ℕ = get b Field.degrade_lp_pls_available v
    let rx : ℕ = get b Field.degrade_rx_pls_available v
    let some_lanes : Bool = not (tx == 0) && not (rx == 0)
    when (is_raised ErrFlag.pcs_rx_degrade flags && some_lanes) (λ s.
        tell (Event.degrade_alert alert_rx_degrade tx rx)
          (record s { link = discard_fec (b.jiffies s.hw) discard_rx_degrade s.link }))
    when (is_raised ErrFlag.pcs_tx_degrade flags && some_lanes)
        (tell (Event.degrade_alert alert_tx_degrade tx rx))

  -- The alert that a side has failed
  unfoldable pub degrade_failures : ℕ → P H (Unit {0})
  degrade_failures flags =
      when (not (failure_alert flags == 0)) (tell (Event.async_alert (failure_alert flags) 0))

  -- The flags of autonegotiation
  unfoldable pub autoneg_flags : ℕ → P H (Unit {0})
  autoneg_flags flags =
      when (not (word_and 64 flags (autoneg_err_flgs b.header) == 0))
        (do err ← disable_intr_handler b (autoneg_err_flgs b.header); tell Event.complete_an)

  -- `down_origin` after the failures of the lanes, after the high error rate, after the LLR with its
  -- configuration `sm`, and after the link fault with the receive status `sts`.
  unfoldable pub origin_failure : ℕ → ℕ
  origin_failure flags = if failure_alert flags == 0 then 0 else origin_degrade_failure

  unfoldable pub origin_after_hiser : Link → ℕ → ℕ → ℕ
  origin_after_hiser l flags o =
      if is_raised ErrFlag.pcs_hi_ser flags
      then (if debug_option debug_ignore_hiser l then o else origin_hiser)
      else o

  unfoldable pub origin_after_llr : ℕ → ℕ → ℕ → ℕ
  origin_after_llr sm flags o =
      if is_raised ErrFlag.llr_replay_at_max flags
        && ltb (get b Field.sm_replay_ct_max sm) replay_ct_max_unlimited
      then origin_llr_max
      else o

  unfoldable pub origin_of_fault : Link → ℕ → ℕ → ℕ
  origin_of_fault l sts o =
      if get b Field.sts_align_status sts == 0
      then (if debug_option debug_ignore_align l then o else origin_align)
      else if not (get b Field.sts_local_fault sts == 0)
      then origin_local_fault
      else if not (get b Field.sts_fault sts == 0)
      then (if test_bit opt_disable_pml_recovery l.blattr.options
            || debug_option debug_remote_fault_recovery l
          then origin_remote_fault
          else o)
      else origin_link_down

  -- The reading of `down_origin`
  unfoldable pub find_origin : ℕ → P H ℕ
  find_origin flags = do
    sm ← read64 b Reg.cfg_llr_sm
    l ← the_link
    let o : ℕ = origin_after_llr sm flags (origin_after_hiser l flags (origin_failure flags))
    if is_raised ErrFlag.pcs_link_down flags
        then (do sts ← read64 b Reg.sts_rx_pcs; return (origin_of_fault l sts o))
        else return o

  -- `if (down_origin) ...`
  unfoldable pub act_on_origin : ℕ → P H (Unit {0})
  act_on_origin o = do
    l ← the_link
    if o == 0
        then return tt
        else if not (test_bit opt_disable_pml_recovery l.blattr.options) && not l.is_degraded
        then (if ignore_down_origin o then recovery_monitor b o else pml_link_down_async_alert b o)
        else pml_link_down_async_alert b o

  -- sbl_pml_hdlr with the flags that are raised and in use
  unfoldable pub handle : ℕ → P H ℕ
  handle flags = do
    degrade_warnings flags
    degrade_failures flags
    autoneg_flags flags
    o ← find_origin flags
    act_on_origin o
    write64 b Reg.err_clr flags
    flush b Reg.err_clr
    return 0

  -- sbl_pml_hdlr
  unfoldable pub pml_hdlr : P H ℕ
  pml_hdlr = do
    v ← read64 b Reg.err_flg
    l ← the_link
    let flags : ℕ = word_and 64 v l.intr_err_flgs
    if flags == 0 then return 0 else handle flags
