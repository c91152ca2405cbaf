-- ===== src/Pml/SerdesOp.antt =====
-- An operation of the serdes processors: drivers/net/ethernet/hpe/sbl/sbl_pml_serdes_op.c, with the
-- flags of sbl_misc.c that give its times.
pub mod Ends
mod Tests
use ss_sbl.Prelude.{
  ℕ, zero, suc, ◌+◌, ◌*◌, ◌==◌, Bool, true, false, not, if◌then◌else◌, test_bit, Option, none, some,
}
use ss_sbl.Link.Consts.{einval, ebusy, etimedout, erestartsys}
use ss_sbl.Kernel.{u64, time_is_before_jiffies}
use ss_sbl.Pml.Regs.{Reg, Field}
use ss_sbl.Pml.{
  Board, State, P, Event, return, ◌>>=◌, ◌>>◌, tell, when, read64, write64, flush, get, put, pause,
}

-- sbl_flags_get_poll_interval_from_flags, in milliseconds, and sbl_flags_get_delay_from_flags, in
-- microseconds
unfoldable pub flags_get_poll_interval : ℕ → ℕ
flags_get_poll_interval flags =
    if test_bit 7 flags
    then 1
    else if test_bit 8 flags
    then 10
    else if test_bit 9 flags
    then 100
    else if test_bit 10 flags
    then 1000
    else 0

unfoldable pub flags_get_delay : ℕ → ℕ
flags_get_delay flags =
    if test_bit 0 flags
    then 3
    else if test_bit 1 flags
    then 4
    else if test_bit 2 flags
    then 5
    else if test_bit 3 flags
    then 10
    else if test_bit 4 flags
    then 20
    else if test_bit 5 flags
    then 50
    else if test_bit 6 flags
    then 100
    else 0

-- The arguments of an operation
pub record Operation : Type 0 where
  pub serdes_sel : ℕ
  pub op : ℕ
  pub op_data : ℕ
  pub timeout : ℕ
  pub flags : ℕ

module _ {H : Type 0} (b : Board H) where
  -- sbl_pml_serdes_op_busy
  unfoldable pub serdes_op_busy : P H Bool
  serdes_op_busy = do
    v ← read64 b Reg.serdes_core_interrupt
    return (not (get b Field.core_do_interrupt v == 0))

  -- The word that starts the operation; `..._SET` is an update of zero.
  unfoldable pub op_word : Operation → ℕ
  op_word o = put b Field.core_interrupt_data o.op_data (
      put b Field.core_interrupt_code o.op
        (put b Field.core_do_interrupt 1 (put b Field.core_serdes_sel o.serdes_sel 0)))

  -- The start of the operation
  unfoldable pub serdes_op_begin : Operation → P H (Unit {0})
  serdes_op_begin o = do
    write64 b Reg.serdes_core_interrupt (op_word o)
    flush b Reg.serdes_core_interrupt
    when (not (flags_get_delay o.flags == 0)) (pause b (flags_get_delay o.flags))

  -- `last_jiffy`
  unfoldable pub op_deadline : Operation → State H → ℕ
  op_deadline o s = u64 (b.jiffies s.hw + b.kernel.msecs_to_jiffies o.timeout + 1)

  -- The polls for its completion, up to the tick `last`
  unfoldable pub serdes_op_poll : ℕ → ℕ → ℕ → State H → Option (State H × ℕ)
  serdes_op_poll zero interval last s = none
  serdes_op_poll (suc fuel) interval last s =
      let (s', busy) = serdes_op_busy s in
      let rest = serdes_op_poll fuel interval last (pause b (interval * 1000) s').0 in
      if not busy
      then some (s', 0)
      else if time_is_before_jiffies b.kernel (b.jiffies s'.hw) last
      then some (s', etimedout)
      else rest

  -- What follows the polls: the error, and what is stored as the result
  unfoldable pub serdes_op_finish : ℕ → P H (ℕ × Option ℕ)
  serdes_op_finish zero = do
    v ← read64 b Reg.serdes_core_interrupt
    tell Event.unlock_serdes_mtx
    return (0, some (get b Field.core_interrupt_data v))
  serdes_op_finish (suc err) = do tell Event.unlock_serdes_mtx; return (suc err, none)

  -- What is done with the mutex held
  unfoldable pub serdes_op_locked : ℕ → Operation → State H → Option (State H × (ℕ × Option ℕ))
  serdes_op_locked fuel o s =
      let (s₁, busy) = serdes_op_busy s in
      let s₂ = (serdes_op_begin o s₁).0 in
      if busy
      then some ((tell Event.unlock_serdes_mtx s₁).0, (ebusy, none))
      else elim (serdes_op_poll fuel (flags_get_poll_interval o.flags) (op_deadline o s₂) s₂) [
        | none ↦ none
        | some (s₃, err) ↦ some (serdes_op_finish err s₃)
      ]

  -- sbl_pml_serdes_op, behind the validations. `has_place` tells whether there is a place for the result,
  -- and `locked` what mutex_lock_interruptible returns.
  unfoldable pub serdes_op : ℕ → Bool → ℕ → Operation → State H → Option (State H × (ℕ × Option ℕ))
  serdes_op fuel has_place locked o s =
      if not has_place
      then some (s, (einval, none))
      else if o.timeout == 0
      then some (s, (einval, none))
      else if flags_get_poll_interval o.flags == 0
      then some (s, (einval, none))
      else if not (locked == 0)
      then some (s, (erestartsys, none))
      else serdes_op_locked fuel o (tell Event.lock_serdes_mtx s).0

  -- sbl_pml_serdes_op_timing
  unfoldable pub serdes_op_timing : ℕ → ℕ → ℕ → P H ℕ
  serdes_op_timing capture clear set = do
    write64 b Reg.cfg_serdes_core_interrupt (
        put b Field.core_set_delay set
          (put b Field.core_clear_delay clear (put b Field.core_capture_delay capture 0)))
    return 0
