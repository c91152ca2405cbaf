-- ===== src/Timers.antt =====
-- The start timeout and the bring-up times of a link: drivers/net/ethernet/hpe/sbl/sbl_timers.c.
-- Each function takes the value of `jiffies` or of ktime_get() that it reads.
pub mod Deadline
pub mod Tuning
mod Tests
use ss_sbl.Prelude.{ℕ, ◌+◌, ◌-◌, ◌*◌, ◌/◌, ◌%◌, ◌^◌, Bool, false, if◌then◌else◌, ltb}
use ss_sbl.Link.{Timing, Timespec}
use ss_sbl.Kernel.{Kernel, u64, u32, ns_per_s, ticks_between, time_before, time_is_before_jiffies}

abbrev pub zero_timespec : Timespec
zero_timespec = record { sec = 0; nsec = 0 }

-- sbl_get_start_timeout
pub get_start_timeout : Timing → ℕ
get_start_timeout t = t.start_timeout

module _ (k : Kernel) where
  -- sbl_link_init_start_timeout; `attr` is blattr.start_timeout, in seconds.
  unfoldable pub init_start_timeout : ℕ → ℕ → ℕ → Timing → Timing
  init_start_timeout jiffies ktime attr t = record t {
    start_timeout = attr;
    an_timeout_active = false;
    last_start_jiffy = u64 (jiffies + k.msecs_to_jiffies (u32 (1000 * attr)));
    start_time_begin = ktime;
    total_tune_time = zero_timespec;
  }

  -- sbl_link_update_start_timeout; the division is DIV_ROUND_UP.
  unfoldable pub update_start_timeout : ℕ → ℕ → Timing → Timing
  update_start_timeout jiffies timeout_ms t = record t {
    start_timeout = u32 (timeout_ms + 999) / 1000;
    last_start_jiffy = u64 (jiffies + k.msecs_to_jiffies timeout_ms);
  }

  -- sbl_start_timeout
  unfoldable pub start_timeout : ℕ → Timing → Bool
  unfolding time_is_before_jiffies
  start_timeout jiffies t = time_is_before_jiffies k jiffies t.last_start_jiffy

  -- The two branches of sbl_start_timeout_ensure_remaining that extend the timeout.
  abbrev pub extend : ℕ → Timing → Timing
  extend required t = record t {
    start_timeout = u32 (t.start_timeout + required / k.hz);
    last_start_jiffy = u64 (t.last_start_jiffy + required);
  }

  -- sbl_start_timeout_ensure_remaining
  unfoldable pub start_timeout_ensure_remaining : ℕ → ℕ → Timing → Timing
  unfolding time_before
  start_timeout_ensure_remaining jiffies remaining_s t =
      let required = k.msecs_to_jiffies (u32 (1000 * remaining_s)) in
      if t.an_timeout_active
      then t
      else if time_before k jiffies t.last_start_jiffy
      then if ltb (ticks_between t.last_start_jiffy jiffies) required then extend required t else t
      else extend required t

  -- sbl_link_start_elapsed and sbl_link_tune_elapsed return whole seconds. `ktime` is not before the
  -- recorded begin, since ktime_get() is monotonic.
  pub link_start_elapsed : ℕ → Timing → ℕ
  link_start_elapsed ktime t = (k.to_timespec (ktime - t.start_time_begin)).sec

  pub link_tune_elapsed : ℕ → Timing → ℕ
  link_tune_elapsed ktime t = (k.to_timespec (ktime - t.tune_time_begin)).sec

  -- sbl_link_start_record_timespec
  unfoldable pub link_start_record_timespec : ℕ → Timing → Timing
  link_start_record_timespec ktime t = record t {
    start_time = k.to_timespec (ktime - t.start_time_begin);
  }

  -- sbl_link_up_record_timespec
  unfoldable pub link_up_record_timespec : ℕ → Timing → Timing
  link_up_record_timespec ktime t = record t { up_time = k.to_timespec (ktime - t.up_time_begin) }

  -- sbl_link_tune_update_total_timespec. The seconds of a `time64_t` do not overflow.
  unfoldable pub link_tune_update_total_timespec : ℕ → Timing → Timing
  link_tune_update_total_timespec ktime t =
      let tune = k.to_timespec (ktime - t.tune_time_begin) in
      let sec = t.total_tune_time.sec + tune.sec in
      let ns = u64 (t.total_tune_time.nsec + tune.nsec) in
      record t {
        tune_time = tune;
        total_tune_time =
            if ltb ns_per_s ns
            then record { sec = sec + 1; nsec = ns - ns_per_s }
            else record { sec = sec; nsec = ns };
      }

-- sbl_link_up_begin
unfoldable pub link_up_begin : ℕ → Timing → Timing
link_up_begin ktime t = record t { up_time_begin = ktime }

-- sbl_link_tune_begin
unfoldable pub link_tune_begin : ℕ → Timing → Timing
link_tune_begin ktime t = record t { tune_time_begin = ktime }

-- sbl_link_tune_zero_total_timespec, which clears `tune_time`
unfoldable pub link_tune_zero_total_timespec : Timing → Timing
link_tune_zero_total_timespec t = record t { tune_time = zero_timespec }
