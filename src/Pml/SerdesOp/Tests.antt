-- ===== src/Pml/SerdesOp/Tests.antt =====
-- An operation of the serdes processors, on sample hardware.
use ss_sbl.Prelude.{◌≡◌, refl, sym, true, arith, test_bit}
use ss_sbl.Samples.{link_up}
use ss_sbl.Pml.{read64, write64, flush, pause}
use ss_sbl.Pml.SerdesOp.{
  Operation, serdes_op, op_deadline, serdes_op_begin, serdes_op_busy, flags_get_delay,
}
use ss_sbl.Pml.SerdesOp.Ends.{Returned, begun, serdes_op-Returned}
use ss_sbl.Pml.Samples.{board, runs_out, at, good_status}

-- Polls of one millisecond; the deadline is the tick 21000.
abbrev operation : Operation
operation = record { serdes_sel = 1; op = 5; op_data = 0; timeout = 496; flags = 129 }

operation_deadline :
    op_deadline (board good_status) operation (begun (board good_status) operation (at 500 link_up))
    ≡ 21000
unfolding op_deadline serdes_op_begin serdes_op_busy flags_get_delay test_bit write64 flush read64
    pause
operation_deadline = refl

serdes_op-Returned_example :
    Returned
      (board good_status)
      true
      0
      operation
      (at 500 link_up)
      (serdes_op (board good_status) 501 true 0 operation (at 500 link_up))
serdes_op-Returned_example =
    serdes_op-Returned (board good_status) true 0 operation (at 500 link_up) (runs_out good_status)
      501 (sym operation_deadline) (omega arith)
