-- ===== src/Kernel.antt =====
-- What the driver takes from the Linux kernel's clocks: the tick rate, the conversions of
-- linux/jiffies.h and linux/ktime.h, and the comparison of tick counts that may have wrapped round.
use ss_sbl.Prelude.{ℕ, ◌+◌, ◌-◌, ◌*◌, ◌/◌, ◌%◌, ◌^◌, ◌<◌, ◌≡◌, refl, Bool, arith, leb}
use ss_sbl.Link.{Timespec}

-- `unsigned long` and `u64`
abbrev pub u64 : ℕ → ℕ
u64 n = n % 2 ^ 64

-- `u32` and `unsigned int`
abbrev pub u32 : ℕ → ℕ
u32 n = n % 2 ^ 32

abbrev pub ns_per_s : ℕ
ns_per_s = 1000000000

-- The ticks from `b` on to `a`, as `unsigned long` subtraction gives them.
abbrev pub ticks_between : ℕ → ℕ → ℕ
ticks_between a b = (a + 2 ^ 64 - b) % 2 ^ 64

-- `time_after a b`: the count `a` is after `b`, when they are less than half the range apart.
-- `to_timespec` is ktime_to_timespec64 on a time that is not negative.
pub record Kernel : Type 0 where
  pub hz : ℕ
  pub msecs_to_jiffies : ℕ → ℕ
  pub jiffies_to_msecs : ℕ → ℕ
  pub time_after : ℕ → ℕ → Bool
  pub to_timespec : ℕ → Timespec
  pub hz_pos : 0 < hz
  pub time_after_wraps : (a b : ℕ) → time_after a b ≡ leb (2 ^ 63) (ticks_between b a)
  pub timespec_sum : (n : ℕ) → (to_timespec n).sec * ns_per_s + (to_timespec n).nsec ≡ n
  pub timespec_nsec : (n : ℕ) → (to_timespec n).nsec < ns_per_s

-- time_before, time_is_before_jiffies and time_is_after_jiffies are time_after, turned round.
module _ (k : Kernel) where
  unfoldable pub time_before : ℕ → ℕ → Bool
  time_before a b = k.time_after b a

  unfoldable pub time_is_before_jiffies : ℕ → ℕ → Bool
  time_is_before_jiffies now a = k.time_after now a

  unfoldable pub time_is_after_jiffies : ℕ → ℕ → Bool
  time_is_after_jiffies now a = k.time_after a now

-- A kernel with a tick of one millisecond.
abbrev pub tick_1000 : Kernel
tick_1000 = record {
  hz = 1000;
  msecs_to_jiffies = λ n. n;
  jiffies_to_msecs = λ n. n;
  time_after = λ a b. leb (2 ^ 63) (ticks_between b a);
  to_timespec = λ n. record { sec = n / ns_per_s; nsec = n % ns_per_s };
  hz_pos = omega arith;
  time_after_wraps = λ a b. refl;
  timespec_sum = λ n. omega arith;
  timespec_nsec = λ n. omega arith;
}
