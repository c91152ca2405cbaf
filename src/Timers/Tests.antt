-- ===== src/Timers/Tests.antt =====
-- The timers with a tick of one millisecond.
use ss_sbl.Prelude.{◌+◌, ◌≡◌, refl, arith, ltb}
use ss_sbl.Kernel.{u64, tick_1000, ticks_between}
use ss_sbl.Timers.{start_timeout, init_start_timeout, start_timeout_ensure_remaining}
use ss_sbl.Timers.Deadline.{allowance, start_timeout-init, ensure_remaining_expired}
use ss_sbl.Samples.{timing}

-- A timeout of 20 s, begun 100 ticks before the counter wraps round, seen 21 s later.
start_timeout-init_example :
    start_timeout tick_1000
      (u64 (18446744073709551516 + 21000))
      (init_start_timeout tick_1000 18446744073709551516 0 20 timing)
    ≡ ltb (allowance tick_1000 20) 21000
start_timeout-init_example =
    start_timeout-init tick_1000 18446744073709551516 0 20 21000 timing (omega arith) (omega arith)
      (omega arith)

-- The timeout passed nine seconds ago, and five are asked for: the link still times out.
ensure_remaining_expired_example :
    start_timeout tick_1000 30000 (start_timeout_ensure_remaining tick_1000 30000 5 timing)
    ≡ ltb (allowance tick_1000 5) (ticks_between 30000 21000)
ensure_remaining_expired_example =
    ensure_remaining_expired tick_1000 30000 5 timing (omega arith) (omega arith) refl (omega arith)
      (omega arith)
