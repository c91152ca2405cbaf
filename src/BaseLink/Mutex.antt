-- ===== src/BaseLink/Mutex.antt =====
-- The busy mutex of a link in sbl_link.c.
use ss_sbl.Prelude.{ℕ, ◌+◌, ◌≡◌, Bool-cases, inl, inr, arith, ◌==◌, if◌then◌else◌}
use ss_sbl.BaseLink.{Call, Env, World, note, lock, attempt}
use ss_sbl.BaseLink.Start.{base_link_start}
use ss_sbl.BaseLink.Stop.{base_link_stop, base_link_reset, try_start_fail_cleanup}
use ss_sbl.BaseLink.Frame.{Framed, unlocks}
use ss_sbl.BaseLink.Outcome.{start_locked-kept}
use ss_sbl.BaseLink.Halt.{stop_locked_end}
use ss_sbl.BaseLink.Recover.{reset_locked_end, cleanup_locked_end}

-- One, where mutex_lock_interruptible takes the mutex.
abbrev pub taken : {H : Type 0} → Env H → World H → ℕ
taken env w = if env.mutex_lock w.hw == 0 then 1 else 0

module _ {H : Type 0} (env : Env H) (framed : Framed env) where
  -- The start, the stop, the reset and the cleanup each let go of the mutex exactly once when they
  -- have taken it, whichever path they leave by, and not at all when the wait for it was
  -- interrupted. The calls out of sbl_link.c do not set the link's state, error, configured flag or
  -- debug flags.
  pub mutex_released :
      (w : World H)
      → (unlocks (base_link_start env w).0.log ≡ unlocks w.log + taken env w)
        × (unlocks (base_link_stop env w).0.log ≡ unlocks w.log + taken env w)
        × (unlocks (base_link_reset env w).0.log ≡ unlocks w.log + taken env w)
        × (unlocks (try_start_fail_cleanup env w).log ≡ unlocks w.log + taken env w)
  unfolding base_link_start base_link_stop base_link_reset try_start_fail_cleanup attempt lock note
  mutex_released w = elim (Bool-cases (env.mutex_lock w.hw == 0)) [
    | inl got ↦
        let v = note Call.lock_busy_mtx w in
        rw (got, base_link_start, base_link_stop, base_link_reset, try_start_fail_cleanup)
          (
            omega (arith, (start_locked-kept env framed v).2),
            omega (arith, (stop_locked_end env framed v).3),
            omega (arith, (reset_locked_end env framed v).5),
            omega (arith, (cleanup_locked_end env framed v).4),
          )
    | inr not ↦
        rw (not, base_link_start, base_link_stop, base_link_reset, try_start_fail_cleanup)
          (omega arith, omega arith, omega arith, omega arith)
  ]
