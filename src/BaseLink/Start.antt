-- ===== src/BaseLink/Start.antt =====
-- sbl_base_link_start (sbl_link.c): the stages of bringing a link up, and the labels that a stage
-- which fails goes to.
use ss_sbl.Prelude.{ℕ, Bool, true, false, ◌||◌, ◌==◌, if◌then◌else◌, not, set_bit, ℤ, negsuc}
use ss_sbl.Link.{LinkStatus, SerdesStatus, Link, is_up, is_down}
use ss_sbl.Link.Consts.{
  enetdown, euclean, erestartsys, loopback_local, all_lanes, opt_dfe_always_max_effort,
  debug_inhibit_cleanup, debug_inhibit_reload_fw, debug_force_reload_fw,
}
use ss_sbl.Media.{debug_option, media_validate_config}
use ss_sbl.Timers.{
  init_start_timeout, link_up_begin, link_up_record_timespec, link_start_record_timespec,
}
use ss_sbl.Fec.Settings.{zero_all_fec_counts, thresholds_set, adjustments_set}
use ss_sbl.Fec.Monitor.{fec_up_check}
use ss_sbl.BaseLink.{Call, Env, World, call, call_, note, lock, on_link, attempt}
use ss_sbl.BaseLink.Status.{base_link_get_status}
use ss_sbl.BaseLink.FaultMonitor.{fault_monitor_start, fault_monitor_stop}
use ss_sbl.BaseLink.Detect.{check_fix_fw, get_mode, lp_detect}

-- SBL_LINK_FEC_HPE, the threshold asked for
abbrev pub fec_hpe : ℤ
fec_hpe = negsuc 2

-- Whether the firmware of the serdes is to be loaded again, at the label `out`.
unfoldable pub reload_wanted : Link → Bool
unfolding debug_option
reload_wanted l =
    if debug_option debug_inhibit_cleanup l || debug_option debug_inhibit_reload_fw l
    then false
    else if debug_option debug_force_reload_fw l
    then true
    else l.reload_serdes_fw

module _ {H : Type 0} (env : Env H) where
  -- `if (link->reload_serdes_fw) { ... }` at the label `out`
  unfoldable pub reload_serdes : World H → World H
  unfolding call
  reload_serdes w =
      if w.link.reload_serdes_fw
      then (let (v, err) = call env (Call.serdes_firmware_flash_safe true) w in
          on_link
            (λ l. record l {
              sstate = if err == 0 then SerdesStatus.down else SerdesStatus.error;
              serr = err;
              reload_serdes_fw = false;
            })
            v)
      else w

  -- The label `out`.
  unfoldable pub out : ℕ → World H → World H × ℕ
  unfolding reload_wanted reload_serdes note
  out err w =
      let v = reload_serdes (on_link (λ l. record l { reload_serdes_fw = reload_wanted l }) w) in
      (
        note Call.unlock_busy_mtx
            (on_link (λ l. record l { blstate = LinkStatus.error; blerr = err }) v),
        err,
      )

  -- `if (!sbl_debug_option(SBL_DEBUG_INHIBIT_CLEANUP)) f()`
  unfoldable pub clean : Call → World H → World H
  unfolding debug_option call_
  clean c w = if debug_option debug_inhibit_cleanup w.link then w else call_ env c w

  -- The labels `out_serdes`, `out_pcs` and `out_fm`.
  unfoldable pub out_serdes : ℕ → World H → World H × ℕ
  unfolding clean out
  out_serdes err w = out err (clean Call.serdes_stop w)

  unfoldable pub out_pcs : ℕ → World H → World H × ℕ
  unfolding clean out_serdes
  out_pcs err w = out_serdes err (clean Call.pml_link_down w)

  unfoldable pub out_fm : ℕ → World H → World H × ℕ
  unfolding fault_monitor_stop out_pcs
  out_fm err w = out_pcs err (fault_monitor_stop env w).0

  -- The part that follows the last check: the link is up.
  unfoldable pub success : World H → World H × ℕ
  unfolding note link_up_record_timespec link_start_record_timespec
  success w =
      let t = link_up_record_timespec env.kernel (env.ktime w.hw) w.link.timing in
      let t' = link_start_record_timespec env.kernel (env.ktime w.hw) t in
      (
        note Call.unlock_busy_mtx (
            note Call.fec_timer_set
              (on_link (λ l. record l { timing = t'; blstate = LinkStatus.up; blerr = 0 }) w)),
        0,
      )

  -- The check of the lanes, when the PCS degrades lanes by itself.
  unfoldable pub lanes_check : World H → World H × ℕ
  unfolding call
  lanes_check w =
      let (w₁, degrade) = call env Call.read_auto_lane_degrade w in
      if degrade == 0
      then (w₁, 0)
      else (let (w₂, tx) = call env Call.read_lp_lanes w₁ in
          let (w₃, rx) = call env Call.read_rx_lanes w₂ in
          if not (tx == all_lanes) || not (rx == all_lanes) then (w₃, enetdown) else (w₃, 0))

  unfoldable pub pcs_up_check : World H → World H × ℕ
  unfolding call
  pcs_up_check w = let (v, up) = call env Call.pml_pcs_up w in (v, if up == 0 then enetdown else 0)

  -- sbl_fec_up_check on the link, and what its failure does before `goto out_pcs`
  unfoldable pub start_up_check : World H → World H × ℕ
  unfolding fec_up_check
  start_up_check w =
      let (l, err) =
        fec_up_check env.kernel env.platform (env.up_start w.hw) (env.up_samples w.hw) w.link in
      (record w { link = l }, err)

  unfoldable pub up_check_failed : ℕ → World H → World H × ℕ
  unfolding call_ out_pcs
  up_check_failed err w = out_pcs err (
      on_link
        (λ l. record l {
          blattr = record (l.blattr) {
            options = set_bit opt_dfe_always_max_effort l.blattr.options;
          };
        })
        (call_ env Call.invalidate_tuning_params w))

  -- The setting of the FEC parameters: the counts are zeroed before the first of these calls.
  unfoldable pub start_thresholds : World H → World H × ℕ
  unfolding zero_all_fec_counts thresholds_set base_link_get_status
  start_thresholds w =
      let l = record (w.link) { fec = zero_all_fec_counts w.link.fec } in
      let (l', err) = thresholds_set 0 (base_link_get_status l).link_mode fec_hpe fec_hpe l in
      (record w { link = l' }, err)

  unfoldable pub start_adjustments : World H → World H × ℕ
  unfolding adjustments_set
  start_adjustments w =
      let (f, err) = adjustments_set 100 0 w.link.fec in
      (on_link (λ l. record l { fec = f }) w, err)

  -- What follows sbl_pml_start.
  unfoldable pub start_checks : World H → World H × ℕ
  unfolding attempt start_thresholds start_adjustments start_up_check fault_monitor_start
      pcs_up_check lanes_check out_pcs out_fm up_check_failed success
  start_checks = attempt start_thresholds out_pcs (
      attempt start_adjustments out_pcs (
        attempt start_up_check up_check_failed (
          attempt (fault_monitor_start env) out_pcs
            (attempt pcs_up_check out_fm (attempt lanes_check out_fm success)))))

  -- What follows the detection of the link partner.
  unfoldable pub start_serdes_pml : World H → World H × ℕ
  unfolding attempt call link_up_begin out out_serdes start_checks
  start_serdes_pml w =
      attempt (call env Call.serdes_start) out
        (attempt (call env Call.pml_start) out_serdes start_checks)
        (on_link (λ l. record l { timing = link_up_begin (env.ktime w.hw) l.timing }) w)

  -- The stages, from the check of the firmware on.
  unfoldable pub start_stages : World H → World H × ℕ
  unfolding attempt call check_fix_fw get_mode lp_detect out start_serdes_pml
  start_stages = attempt (check_fix_fw env) out (
      attempt (get_mode env) out (
        attempt (call env Call.pml_pcs_am_start) out
          (attempt (lp_detect env) out start_serdes_pml)))

  -- What comes before the stages, once the start is accepted.
  unfoldable pub start_prepare : World H → World H
  unfolding call_ init_start_timeout
  start_prepare w =
      let v =
        on_link
          (λ l. record l {
            blstate = LinkStatus.starting;
            llr_loop_time =
                if l.blattr.loopback_mode == l.loopback_mode then l.llr_loop_time else 0;
            loopback_mode = l.blattr.loopback_mode;
            timing =
                init_start_timeout env.kernel (env.jiffies w.hw) (env.ktime w.hw)
                  l.blattr.start_timeout l.timing;
          })
          w in
      on_link (λ l. record l { lp_detected = false }) (call_ env Call.pml_set_defaults v)

  -- `mutex_unlock(); return err`
  unfoldable pub unlock_return : ℕ → World H → World H × ℕ
  unfolding note
  unlock_return err w = (note Call.unlock_busy_mtx w, err)

  -- The media check at the beginning: only local loopback is possible without media.
  unfoldable pub media_check : Link → ℕ
  unfolding media_validate_config
  media_check l = if l.blattr.loopback_mode == loopback_local then 0 else media_validate_config l

  -- sbl_base_link_start, once it has the mutex
  unfoldable pub start_locked : World H → World H × ℕ
  unfolding unlock_return media_check start_prepare start_stages
  start_locked w =
      if is_up w.link.blstate
      then unlock_return 0 w
      else if not (is_down w.link.blstate)
      then unlock_return euclean w
      else if not (media_check w.link == 0)
      then unlock_return (media_check w.link) w
      else start_stages (start_prepare w)

  -- sbl_base_link_start, behind the validations
  unfoldable pub base_link_start : World H → World H × ℕ
  unfolding attempt lock start_locked
  base_link_start = attempt (lock env) (λ err w. (w, erestartsys)) start_locked
