-- ===== src/Timers/Deadline.antt =====
-- The start timeout of sbl_timers.c as a deadline: when it passes, and what an extension gives.
use ss_sbl.Prelude.{ℕ, ◌+◌, ◌*◌, ◌^◌, ◌≤◌, ◌<◌, ◌≡◌, false, arith, ltb}
use ss_sbl.Link.{Timing}
use ss_sbl.Kernel.{Kernel, u64, u32, ticks_between}
use ss_sbl.Timers.{init_start_timeout, start_timeout, start_timeout_ensure_remaining}

module _ (k : Kernel) where
  -- Ticks, as counted round the range of `unsigned long`, after which the timeout fires.
  abbrev pub allowance : ℕ → ℕ
  allowance seconds = k.msecs_to_jiffies (u32 (1000 * seconds))

  -- After sbl_link_init_start_timeout the link times out exactly when more ticks than the configured
  -- timeout have passed, also when the tick counter wraps round meanwhile. The timeout and the ticks
  -- passed are less than half the range of the counter, as time_after requires.
  pub start_timeout-init :
      (jiffies ktime attr passed : ℕ) (t : Timing)
      → jiffies < 2 ^ 64
      → allowance attr < 2 ^ 63
      → passed < 2 ^ 63
      → start_timeout k (u64 (jiffies + passed)) (init_start_timeout k jiffies ktime attr t)
        ≡ ltb (allowance attr) passed
  unfolding start_timeout init_start_timeout
  start_timeout-init jiffies ktime attr passed t hj ha hp =
      ground (arith, k.time_after_wraps (u64 (jiffies + passed)) (u64 (jiffies + allowance attr)))

  -- While the timeout has not been reached and is not one of autonegotiation,
  -- sbl_start_timeout_ensure_remaining leaves at least the ticks that are asked for.
  pub ensure_remaining_pending :
      (jiffies remaining_s : ℕ) (t : Timing)
      → jiffies < 2 ^ 64
      → t.last_start_jiffy < 2 ^ 64
      → t.an_timeout_active ≡ false
      → 0 < ticks_between t.last_start_jiffy jiffies
      → ticks_between t.last_start_jiffy jiffies ≤ 2 ^ 63
      → allowance remaining_s < 2 ^ 63
      → allowance remaining_s
        ≤ ticks_between
            (start_timeout_ensure_remaining k jiffies remaining_s t).last_start_jiffy
            jiffies
  unfolding start_timeout_ensure_remaining
  ensure_remaining_pending jiffies remaining_s t hj hl ha h0 h1 hr =
      ground (arith, k.time_after_wraps t.last_start_jiffy jiffies)

  -- Once the timeout has passed, sbl_start_timeout_ensure_remaining extends it from the old deadline
  -- and not from the present: where the link is over the deadline by more ticks than are asked for,
  -- it still times out at once, and otherwise it does not. (The timeout is not one of
  -- autonegotiation, and the counts are less than a quarter of the counter's range.)
  pub ensure_remaining_expired :
      (jiffies remaining_s : ℕ) (t : Timing)
      → jiffies < 2 ^ 64
      → t.last_start_jiffy < 2 ^ 64
      → t.an_timeout_active ≡ false
      → ticks_between jiffies t.last_start_jiffy < 2 ^ 62
      → allowance remaining_s < 2 ^ 62
      → start_timeout k jiffies (start_timeout_ensure_remaining k jiffies remaining_s t)
        ≡ ltb (allowance remaining_s) (ticks_between jiffies t.last_start_jiffy)
  unfolding start_timeout start_timeout_ensure_remaining
  ensure_remaining_expired jiffies remaining_s t hj hl ha h0 hr = ground (
    arith,
    k.time_after_wraps t.last_start_jiffy jiffies,
    k.time_after_wraps jiffies (u64 (t.last_start_jiffy + allowance remaining_s)),
  )
