-- ===== src/Timers/Tuning.antt =====
-- The times that sbl_timers.c adds up while the serdes are tuned.
use ss_sbl.Prelude.{ℕ, ◌+◌, ◌-◌, ◌*◌, ◌≤◌, ◌<◌, ◌≡◌, ◌↔◌, arith}
use ss_sbl.Link.{Timing, Timespec}
use ss_sbl.Kernel.{Kernel, ns_per_s}
use ss_sbl.Timers.{link_tune_update_total_timespec}

-- A time in nanoseconds.
abbrev pub nanoseconds : Timespec → ℕ
nanoseconds t = t.sec * ns_per_s + t.nsec

module _ (k : Kernel) where
  -- sbl_link_tune_update_total_timespec adds the time since tuning began to the total, to the
  -- nanosecond, for a total whose nanoseconds are at most a second.
  pub total_tune_time_exact :
      (ktime : ℕ) (t : Timing)
      → t.total_tune_time.nsec ≤ ns_per_s
      → nanoseconds (link_tune_update_total_timespec k ktime t).total_tune_time
        ≡ nanoseconds t.total_tune_time + (ktime - t.tune_time_begin)
  unfolding link_tune_update_total_timespec
  total_tune_time_exact ktime t h = ground (
    arith,
    k.timespec_sum (ktime - t.tune_time_begin),
    k.timespec_nsec (ktime - t.tune_time_begin),
  )

  -- The total that it leaves is not a normal `timespec64` in exactly one case: where the nanoseconds
  -- of a normal total and of the time added make up one second, the field holds a whole second.
  pub total_tune_time_normal :
      (ktime : ℕ) (t : Timing)
      → t.total_tune_time.nsec < ns_per_s
      → (ns_per_s ≤ (link_tune_update_total_timespec k ktime t).total_tune_time.nsec)
        ↔ (t.total_tune_time.nsec + (k.to_timespec (ktime - t.tune_time_begin)).nsec ≡ ns_per_s)
  unfolding link_tune_update_total_timespec
  total_tune_time_normal ktime t h = (
    λ e. ground (arith, k.timespec_nsec (ktime - t.tune_time_begin)),
    λ e. ground (arith, k.timespec_nsec (ktime - t.tune_time_begin)),
  )
