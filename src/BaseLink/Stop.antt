-- ===== src/BaseLink/Stop.antt =====
-- The stop, the reset and the cleanup of a base link (sbl_link.c).
use ss_sbl.Prelude.{ℕ, Bool, true, false, ◌||◌, ◌==◌, if◌then◌else◌, not}
use ss_sbl.Link.{LinkStatus, SerdesStatus, Link, is_up, is_down, is_error}
use ss_sbl.Link.Consts.{
  ebusy, erestartsys, eadv, ebade, enetdown, echrng, elnrng, etime, etimedout, eoverflow, ecanceled,
  enosr, debug_inhibit_cleanup, debug_keep_serdes_up,
}
use ss_sbl.Media.{debug_option}
use ss_sbl.BaseLink.{Call, Env, World, call, call_, note, lock, on_link, attempt}
use ss_sbl.BaseLink.FaultMonitor.{fault_monitor_stop}
use ss_sbl.BaseLink.Start.{unlock_return}

-- `if (!sbl_debug_option(SBL_DEBUG_KEEP_SERDES_UP)) link->blstate = s`
unfoldable pub unless_kept_up : LinkStatus → Link → Link
unfolding debug_option
unless_kept_up s l = if debug_option debug_keep_serdes_up l then l else record l { blstate = s }

-- The state that the end of sbl_base_link_stop leaves.
unfoldable pub stop_state : ℕ → Link → Link
unfolding unless_kept_up
stop_state err l =
    record (if err == 0
      then unless_kept_up LinkStatus.down l
      else record l { blstate = LinkStatus.error }) { blerr = err }

-- What sbl_base_link_reset sets before it resets the hardware.
unfoldable pub reset_state : Link → Link
reset_state l = record l {
  blstate = LinkStatus.unconfigured;
  blerr = 0;
  blconfigured = false;
  pcs_config = false;
  llr_loop_time = 0;
  start_cancelled = false;
  link_info = 0;
  lp_subtype = 0;
}

-- The errors of a start that are cleared: those after which the tuning parameters cannot be trusted,
-- and the others.
unfoldable pub distrusts_tuning : ℕ → Bool
distrusts_tuning err =
    (err == eadv) || (err == ebade) || (err == enetdown) || (err == echrng) || (err == elnrng)

unfoldable pub clears_only : ℕ → Bool
clears_only err =
    (err == etime)
    || (err == etimedout)
    || (err == eoverflow)
    || (err == ecanceled)
    || (err == enosr)

-- What the cleanup sets, so that the link can be started again.
unfoldable pub restartable : Link → Link
restartable l = record l {
  blstate = LinkStatus.down;
  blerr = 0;
  pcs_config = false;
  llr_loop_time = 0;
  start_cancelled = false;
}

module _ {H : Type 0} (env : Env H) where
  -- sbl_base_link_cancel_start
  unfoldable pub base_link_cancel_start : World H → World H
  unfolding note
  base_link_cancel_start w =
      note Call.fec_timer_delete (on_link (λ l. record l { start_cancelled = true }) w)

  -- The label `out` of sbl_base_link_stop. It returns `link->blerr`.
  unfoldable pub stop_out : ℕ → World H → World H × ℕ
  unfolding stop_state note
  stop_out err w = (note Call.unlock_busy_mtx (on_link (stop_state err) w), err)

  -- `if (link->pml_recovery.started) sbl_pml_recovery_cancel()`
  unfoldable pub cancel_recovery : World H → World H
  unfolding call_
  cancel_recovery w = if w.link.recovery_started then call_ env Call.pml_recovery_cancel w else w

  -- The calls of sbl_base_link_stop.
  unfoldable pub stop_stages : World H → World H × ℕ
  unfolding attempt fault_monitor_stop call note cancel_recovery stop_out
  stop_stages = attempt (fault_monitor_stop env) stop_out (λ w.
      attempt (call env Call.serdes_stop) stop_out
        (attempt (call env Call.pml_link_down) stop_out
          (λ v. stop_out 0 (note Call.fec_timer_delete v)))
        (cancel_recovery w))

  -- sbl_base_link_stop, once it has the mutex
  unfoldable pub stop_locked : World H → World H × ℕ
  unfolding unlock_return unless_kept_up stop_stages
  stop_locked w =
      if is_down w.link.blstate
      then unlock_return env 0 w
      else if not (is_up w.link.blstate)
      then unlock_return env ebusy w
      else stop_stages (on_link (unless_kept_up LinkStatus.stopping) w)

  -- sbl_base_link_stop, behind the validations
  unfoldable pub base_link_stop : World H → World H × ℕ
  unfolding attempt lock stop_locked
  base_link_stop = attempt (lock env) (λ err w. (w, erestartsys)) stop_locked

  -- `if (link->intr_err_flgs) { ... }`
  unfoldable pub drop_intr_handlers : World H → World H
  unfolding call_
  drop_intr_handlers w =
      if w.link.intr_err_flgs == 0
      then w
      else on_link (λ l. record l { intr_err_flgs = 0 })
          (call_ env Call.remove_intr_handler (call_ env Call.disable_intr_flags w))

  -- sbl_base_link_reset, once it has the mutex; the results of its calls are only reported.
  unfoldable pub reset_locked : World H → World H × ℕ
  unfolding drop_intr_handlers cancel_recovery call_ note reset_state unlock_return
  reset_locked w =
      let w₁ = on_link (λ l. record l { blstate = LinkStatus.resetting }) w in
      let w₂ = cancel_recovery (drop_intr_handlers w₁) in
      let w₃ = call_ env Call.pml_link_down (call_ env Call.serdes_reset w₂) in
      let w₄ = on_link reset_state (note Call.fec_timer_delete w₃) in
      unlock_return env 0
        (call_ env Call.pml_err_flgs_clear_all (call_ env Call.pml_set_defaults w₄))

  -- sbl_base_link_reset, behind the validations
  unfoldable pub base_link_reset : World H → World H × ℕ
  unfolding attempt lock reset_locked
  base_link_reset = attempt (lock env) (λ err w. (w, erestartsys)) reset_locked

  -- The switch on `link->sstate`.
  unfoldable pub stop_serdes : SerdesStatus → World H → World H
  unfolding call_
  stop_serdes SerdesStatus.running w = call_ env Call.serdes_stop w
  stop_serdes SerdesStatus.autoneg w = call_ env Call.an_serdes_stop w
  stop_serdes _ w = w

  -- `if (link->sstate != SBL_SERDES_STATUS_DOWN) sbl_serdes_reset()`
  unfoldable pub reset_serdes : SerdesStatus → World H → World H
  unfolding call_
  reset_serdes SerdesStatus.down w = w
  reset_serdes _ w = call_ env Call.serdes_reset w

  -- The cleanup of the serdes: stopped, when it runs, and reset, when it is still not down.
  unfoldable pub clean_serdes : World H → World H
  unfolding stop_serdes reset_serdes
  clean_serdes w = let v = stop_serdes w.link.sstate w in reset_serdes v.link.sstate v

  -- The common part of the cases of the switch on `link->blerr`.
  unfoldable pub clear_error : World H → World H
  unfolding restartable call_
  clear_error w =
      call_ env Call.pml_set_defaults (call_ env Call.pml_link_down (on_link restartable w))

  -- The switch on `link->blerr`, in the state ERROR.
  unfoldable pub clean_error : World H → World H
  unfolding distrusts_tuning clears_only clear_error call_
  clean_error w =
      if not (is_error w.link.blstate)
      then w
      else if distrusts_tuning w.link.blerr
      then clear_error (call_ env Call.invalidate_all_tuning_params w)
      else if clears_only w.link.blerr
      then clear_error w
      else w

  -- sbl_base_link_try_start_fail_cleanup, once it has the mutex
  unfoldable pub cleanup_locked : World H → World H × ℕ
  unfolding drop_intr_handlers debug_option clean_serdes clean_error unlock_return
  cleanup_locked w =
      let w₁ = drop_intr_handlers w in
      if debug_option debug_inhibit_cleanup w₁.link
      then unlock_return env 0 w₁
      else unlock_return env 0 (clean_error (clean_serdes w₁))

  -- sbl_base_link_try_start_fail_cleanup, behind the validations; it returns nothing.
  unfoldable pub try_start_fail_cleanup : World H → World H
  unfolding attempt lock cleanup_locked
  try_start_fail_cleanup w = (attempt (lock env) (λ err w. (w, err)) cleanup_locked w).0
