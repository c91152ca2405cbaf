-- ===== src/Pml/Recovery.antt =====
-- The recovery of the PML block: the monitor that waits for a fault to go away before the link is taken
-- down, with its limit of the time spent (drivers/net/ethernet/hpe/sbl/sbl_pml.c). Up to its read of
-- the receive status, a call of the monitor reads `jiffies` in one tick.
pub mod Budget
pub mod Polls
use ss_sbl.Prelude.{
  ℕ, ◌+◌, ◌-◌, ◌/◌, ◌^◌, ◌%◌, ◌==◌, ltb, leb, Bool, true, false, not, ◌&&◌, ◌||◌, if◌then◌else◌,
  Option, none, some,
}
use ss_sbl.Link.{Link, Recovery}
use ss_sbl.Link.Consts.{
  replay_ct_max_unlimited, ctr_recovery_attempts, ctr_recovery_successes, ctr_origin_ldown,
  ctr_histogram_0_9ms, ctr_histogram_high, ctr_rate_exceeded, recovery_histogram_max,
  recovery_poll_interval, discard_recovery_start, discard_recovery_end,
}
use ss_sbl.Kernel.{Kernel, u64, u32, ticks_between}
use ss_sbl.Counters.{counters_incr}
use ss_sbl.Fec.Monitor.{link_down_async_alert}
use ss_sbl.Pml.Regs.{Reg, Field, fault_err_flags, rec_fault_err_flags}
use ss_sbl.Pml.Pcs.{recovery_no_faults, pcs_enable_alignment, pcs_disable_alignment}
use ss_sbl.Pml.Intr.{disable_intr_handler}
use ss_sbl.Pml.{
  Board, State, P, Event, return, ◌>>=◌, ◌>>◌, the_link, update, tell, read64, get, now,
}

-- enum sbl_link_down_origin, as the interrupt handler passes it on
abbrev pub origin_link_down : ℕ
origin_link_down = 1

abbrev pub origin_local_fault : ℕ
origin_local_fault = 2

abbrev pub origin_remote_fault : ℕ
origin_remote_fault = 3

abbrev pub origin_align : ℕ
origin_align = 4

abbrev pub origin_hiser : ℕ
origin_hiser = 5

abbrev pub origin_llr_max : ℕ
origin_llr_max = 6

abbrev pub origin_degrade_failure : ℕ
origin_degrade_failure = 7

-- SBL_ASYNC_ALERT_LINK_DOWN
abbrev pub alert_link_down : ℕ
alert_link_down = 1

-- sbl_pml_recovery_ignore_down_origin_fault
unfoldable pub ignore_down_origin : ℕ → Bool
ignore_down_origin o =
    o == origin_link_down
    || o == origin_local_fault
    || o == origin_remote_fault
    || o == origin_align
    || o == origin_hiser
    || o == origin_llr_max

-- The counter that sbl_pml_recovery_origin_counter_update raises
unfoldable pub origin_counter : ℕ → Option ℕ
origin_counter o =
    if o == origin_link_down
    then some 15
    else if o == origin_local_fault
    then some 16
    else if o == origin_remote_fault
    then some 17
    else if o == origin_align
    then some 18
    else if o == origin_hiser
    then some 19
    else if o == origin_llr_max
    then some 20
    else none

unfoldable pub count_origin : ℕ → Link → Link
count_origin o l = elim (origin_counter o) [ none ↦ l | some c ↦ (counters_incr c l).0 ]

-- The counter of the histogram for a recovery that took so many milliseconds
unfoldable pub histogram_counter : ℕ → ℕ
histogram_counter ms =
    if ltb ms recovery_histogram_max then ctr_histogram_0_9ms + ms / 10 else ctr_histogram_high

abbrev pub with_recovery : (Recovery → Recovery) → Link → Link
with_recovery f l = record l { pml = record (l.pml) { recovery = f l.pml.recovery } }

-- An `int` below SBL_PML_REC_POLL_INTERVAL, by its 32-bit pattern
abbrev pub below_poll_interval : ℕ → Bool
below_poll_interval r = ltb r recovery_poll_interval || leb (2 ^ 31) r

-- `link->fec_discard_time = t; link->fec_discard_type = type;`
abbrev pub discard_fec : ℕ → ℕ → Link → Link
discard_fec t type l = record l {
  fec_discard_time = t;
  pml = record (l.pml) { fec_discard_type = type };
}

abbrev pub set_started : Bool → Link → Link
set_started v l = record l { recovery_started = v }

module _ (k : Kernel) where
  -- Has no window begun, or is the one that has begun over?
  abbrev pub window_over : Link → Bool
  window_over l =
      l.pml.recovery.rl_window_start == 0
      || ltb
          (u64
            (l.pml.recovery.rl_window_start + k.msecs_to_jiffies l.blattr.recovery.rl_window_size))
          l.pml.recovery.init_jiffies

  -- sbl_pml_recovery_rate_test
  unfoldable pub recovery_rate_test : Link → Link × Bool
  recovery_rate_test l =
      if window_over l
      then (
        with_recovery
            (λ r. record r {
              rl_window_start = r.init_jiffies;
              rl_time_remaining = l.blattr.recovery.rl_max_duration;
            })
            l,
        true,
      )
      else (l, not (below_poll_interval l.pml.recovery.rl_time_remaining))

  -- The time since the last poll is taken off the remaining time.
  unfoldable pub charge : ℕ → Link → Link
  charge j = with_recovery (λ r. record r {
    rl_time_remaining =
        (r.rl_time_remaining
          + 2 ^ 32
          - u32 (k.jiffies_to_msecs (ticks_between j r.last_poll_jiffies)))
        % 2 ^ 32;
    last_poll_jiffies = j;
  })

  -- The tick by which the recovery has to succeed
  unfoldable pub deadline : Recovery → ℕ
  deadline r = u64 (r.init_jiffies + k.msecs_to_jiffies r.timeout)

  -- time_is_before_eq_jiffies
  abbrev pub reached : ℕ → ℕ → Bool
  reached j a = not (k.time_after a j)

  -- The counters of a recovery that has succeeded after so many milliseconds
  unfoldable pub count_success : ℕ → ℕ → Link → Link
  count_success ms origin l =
      (counters_incr (histogram_counter ms)
        (count_origin origin (counters_incr ctr_recovery_successes l).0)).0

module _ {H : Type 0} (b : Board H) where
  -- sbl_pml_link_down_async_alert
  unfoldable pub pml_link_down_async_alert : ℕ → P H (Unit {0})
  pml_link_down_async_alert origin = do
    v ← read64 b Reg.cfg_llr_sm
    err ← disable_intr_handler b (
        if ltb (get b Field.sm_replay_ct_max v) replay_ct_max_unlimited
        then fault_err_flags b.header
        else rec_fault_err_flags b.header)
    update link_down_async_alert
    tell (Event.async_alert alert_link_down origin)

  -- The label `out` of sbl_pml_recovery_monitor_fallback_timer
  unfoldable pub recovery_out : P H (Unit {0})
  recovery_out s = (
    record s {
      link = set_started false (discard_fec (b.jiffies s.hw) discard_recovery_end s.link);
    },
    tt,
  )

  -- The label `out_fail`
  unfoldable pub recovery_fail : ℕ → P H (Unit {0})
  recovery_fail origin = do pml_link_down_async_alert origin; recovery_out

  -- `mod_timer(..., jiffies + msecs_to_jiffies(SBL_PML_REC_POLL_INTERVAL))`
  unfoldable pub recovery_rearm : P H (Unit {0})
  recovery_rearm s =
      tell
        (Event.timer_set (u64 (b.jiffies s.hw + b.kernel.msecs_to_jiffies recovery_poll_interval)))
        s

  -- The branches of sbl_pml_recovery_monitor_fallback_timer, after the reading of the receive status.
  -- `ms` is the time since the recovery began.
  unfoldable pub recovery_poll_result : Bool → ℕ → Recovery → P H (Unit {0})
  recovery_poll_result good ms r s =
      if good
      then recovery_out (record s { link = count_success b.kernel ms r.down_origin s.link })
      else if reached b.kernel (b.jiffies s.hw) (deadline b.kernel r)
      then recovery_fail r.down_origin s
      else (let (l, allowed) = recovery_rate_test b.kernel s.link in
          if not allowed
          then recovery_fail r.down_origin
              (record s { link = (counters_incr ctr_rate_exceeded l).0 })
          else recovery_rearm (record s { link = l }))

  -- sbl_pml_recovery_monitor_fallback_timer
  unfoldable pub recovery_poll : P H (Unit {0})
  recovery_poll s =
      if not s.link.recovery_started
      then (s, tt)
      else (let j = b.jiffies s.hw in
          let r = s.link.pml.recovery in
          let ms = u32 (b.kernel.jiffies_to_msecs (ticks_between j r.init_jiffies)) in
          let (s', good) = recovery_no_faults b (record s { link = charge b.kernel j s.link }) in
          recovery_poll_result good ms r s')

  -- What sbl_pml_recovery_monitor notes before its rate test
  unfoldable pub recovery_begin : ℕ → P H (Unit {0})
  recovery_begin origin s = (
    record s {
      link =
          with_recovery
            (λ r. record r {
              init_jiffies = b.jiffies s.hw;
              last_poll_jiffies = b.jiffies s.hw;
              down_origin = origin;
              timeout = s.link.blattr.recovery.timeout;
            })
            (set_started true s.link);
    },
    tt,
  )

  -- The start of the monitor, when the rate test allows it
  unfoldable pub recovery_go : P H (Unit {0})
  recovery_go = do
    update (λ l. (counters_incr ctr_recovery_attempts l).0)
    update (λ l. discard_fec l.pml.recovery.init_jiffies discard_recovery_start l)
    pcs_disable_alignment b
    pcs_enable_alignment b
    recovery_rearm

  -- sbl_pml_recovery_monitor
  unfoldable pub recovery_monitor : ℕ → P H (Unit {0})
  recovery_monitor origin s =
      if s.link.recovery_started
      then (s, tt)
      else (let s₁ = (recovery_begin origin s).0 in
          let (l, allowed) = recovery_rate_test b.kernel s₁.link in
          let s₂ = record s₁ { link = l } in
          if not allowed
          then (do
            pml_link_down_async_alert origin
            update (λ m. set_started false (counters_incr ctr_rate_exceeded m).0))
              s₂
          else recovery_go s₂)

  -- sbl_pml_recovery_cancel
  unfoldable pub recovery_cancel : P H (Unit {0})
  recovery_cancel = do tell Event.timer_delete; recovery_out
