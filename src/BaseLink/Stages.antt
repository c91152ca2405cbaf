-- ===== src/BaseLink/Stages.antt =====
-- How the stages of sbl_base_link_start end, one by one (sbl_link.c).
use ss_sbl.Prelude.{
  ℕ, ◌+◌, ◌≡◌, ◌≢◌, ◌⊎◌, refl, ◌∙◌, ap, true, inl, inr, if_rec, arith, ◌==◌, not, ◌||◌,
}
use ss_sbl.Link.{LinkStatus}
use ss_sbl.Link.Consts.{all_lanes, debug_inhibit_cleanup}
use ss_sbl.Media.{debug_option}
use ss_sbl.Fec.Frame.{core-fec_up_check, core-thresholds_set}
use ss_sbl.BaseLink.{Call, Env, World, call, call_, note, attempt}
use ss_sbl.BaseLink.Start.{
  reload_serdes, out, clean, out_serdes, out_pcs, out_fm, success, lanes_check, pcs_up_check,
  start_up_check, up_check_failed, start_thresholds, start_adjustments, start_checks,
  start_serdes_pml, start_stages, fec_hpe,
}
use ss_sbl.Fec.Settings.{zero_all_fec_counts}
use ss_sbl.BaseLink.Status.{base_link_get_status}
use ss_sbl.BaseLink.Frame.{Framed, Kept, unlocks, Ends, Fails, attempt-Ends, call-Kept, call_-Kept}
use ss_sbl.BaseLink.Steps.{
  call-Keeps, Keeps, Left, fault_monitor_start-Keeps, fault_monitor_stop-Keeps, check_fix_fw-Keeps,
  get_mode-Keeps, lp_detect-Keeps,
}

-- The link is up and has no error, or it is in the state ERROR with the error that is returned.
abbrev pub Finished : {H : Type 0} → World H × ℕ → Type 0
Finished r =
    ((r.1 ≡ 0) × (r.0.link.blstate ≡ LinkStatus.up) × (r.0.link.blerr ≡ 0))
    ⊎ ((r.1 ≢ 0) × (r.0.link.blstate ≡ LinkStatus.error) × (r.0.link.blerr ≡ r.1))

-- The end of the stages that began in the world `o`: the mutex has been let go of once.
pub record Ended {H : Type 0} (o : World H) (r : World H × ℕ) : Type 0 where
  pub finished : Finished r
  pub configured : r.0.link.blconfigured ≡ o.link.blconfigured
  pub debug : r.0.link.debug_config ≡ o.link.debug_config
  pub released : unlocks r.0.log ≡ unlocks o.log + 1

module _ {H : Type 0} (env : Env H) (framed : Framed env) (o : World H) where
  reload_serdes-Kept : (w : World H) → Kept o w → Kept o (reload_serdes env w)
  unfolding reload_serdes
  reload_serdes-Kept w q =
      if_rec (λ v. Kept o v) w.link.reload_serdes_fw
        (let r = call-Kept env framed o (Call.serdes_firmware_flash_safe true) refl w q in
          record { same = r.same; count = r.count })
        q

  out-Ended : Fails (Kept o) (Ended o) (out env)
  unfolding out note
  out-Ended = record {
    fails = λ err w ne q.
        let kept = reload_serdes-Kept _ (record { same = q.same; count = q.count }) in
        record {
          finished = inr (ne, refl, refl);
          configured = ap (λ c. c.2) kept.same;
          debug = ap (λ c. c.3) kept.same;
          released = omega (arith, kept.count);
        };
  }

  clean-Kept :
      (c : Call)
      → ((w : World H) → Kept o w → Kept o (call_ env c w))
      → (w : World H) → Kept o w
      → Kept o (clean env c w)
  unfolding clean
  clean-Kept c keeps w q =
      if_rec (λ v. Kept o v) (debug_option debug_inhibit_cleanup w.link) q (keeps w q)

  out_serdes-Ended : Fails (Kept o) (Ended o) (out_serdes env)
  unfolding out_serdes
  out_serdes-Ended = record {
    fails = λ err w ne q.
        out-Ended.fails err _ ne
          (clean-Kept Call.serdes_stop (call_-Kept env framed o Call.serdes_stop refl) w q);
  }

  out_pcs-Ended : Fails (Kept o) (Ended o) (out_pcs env)
  unfolding out_pcs
  out_pcs-Ended = record {
    fails = λ err w ne q.
        out_serdes-Ended.fails err _ ne
          (clean-Kept Call.pml_link_down (call_-Kept env framed o Call.pml_link_down refl) w q);
  }

  out_fm-Ended : Fails (Kept o) (Ended o) (out_fm env)
  unfolding out_fm
  out_fm-Ended = record {
    fails = λ err w ne q.
        out_pcs-Ended.fails err _ ne ((fault_monitor_stop-Keeps env framed o).ends w q).holds;
  }

  up_check_failed-Ended : Fails (Kept o) (Ended o) (up_check_failed env)
  unfolding up_check_failed
  up_check_failed-Ended = record {
    fails = λ err w ne q.
        let r = call_-Kept env framed o Call.invalidate_tuning_params refl w q in
        out_pcs-Ended.fails err _ ne (record { same = r.same; count = r.count });
  }

  success-Ended : Ends (Kept o) (Ended o) (success env)
  unfolding success note
  success-Ended = record {
    ends = λ w q. record {
      finished = inl (refl, refl, refl);
      configured = ap (λ c. c.2) q.same;
      debug = ap (λ c. c.3) q.same;
      released = omega (arith, q.count);
    };
  }

  lanes_check-Keeps : Keeps env framed o (lanes_check env)
  unfolding lanes_check
  lanes_check-Keeps = record {
    ends = λ w q.
        let w₁ = (call env Call.read_auto_lane_degrade w).0 in
        let w₂ = (call env Call.read_lp_lanes w₁).0 in
        let q₁ = call-Kept env framed o Call.read_auto_lane_degrade refl w q in
        let q₂ = call-Kept env framed o Call.read_lp_lanes refl w₁ q₁ in
        let q₃ = call-Kept env framed o Call.read_rx_lanes refl w₂ q₂ in
        if_rec (Left env framed o) ((call env Call.read_auto_lane_degrade w).1 == 0)
          (record { holds = q₁ })
          (if_rec (Left env framed o)
            (not ((call env Call.read_lp_lanes w₁).1 == all_lanes)
              || not ((call env Call.read_rx_lanes w₂).1 == all_lanes))
            (record { holds = q₃ }) (record { holds = q₃ }));
  }

  pcs_up_check-Keeps : Keeps env framed o (pcs_up_check env)
  unfolding pcs_up_check
  pcs_up_check-Keeps = record {
    ends = λ w q. record { holds = call-Kept env framed o Call.pml_pcs_up refl w q };
  }

  start_up_check-Keeps : Keeps env framed o (start_up_check env)
  unfolding start_up_check
  start_up_check-Keeps = record {
    ends = λ w q. record {
      holds = record {
        same =
            core-fec_up_check env.kernel env.platform (env.up_start w.hw) (env.up_samples w.hw)
              w.link
            ∙ q.same;
        count = q.count;
      };
    };
  }

  start_thresholds-Keeps : Keeps env framed o (start_thresholds env)
  unfolding start_thresholds
  start_thresholds-Keeps = record {
    ends = λ w q.
        let l = record (w.link) { fec = zero_all_fec_counts w.link.fec } in
        record {
          holds = record {
            same =
                core-thresholds_set 0 (base_link_get_status l).link_mode fec_hpe fec_hpe l ∙ q.same;
            count = q.count;
          };
        };
  }

  start_adjustments-Keeps : Keeps env framed o (start_adjustments env)
  unfolding start_adjustments
  start_adjustments-Keeps = record {
    ends = λ w q. record { holds = record { same = q.same; count = q.count } };
  }

  start_checks-Ended : Ends (Kept o) (Ended o) (start_checks env)
  unfolding start_checks
  start_checks-Ended = attempt-Ends start_thresholds-Keeps out_pcs-Ended (
      attempt-Ends start_adjustments-Keeps out_pcs-Ended (
        attempt-Ends start_up_check-Keeps up_check_failed-Ended (
          attempt-Ends (fault_monitor_start-Keeps env framed o) out_pcs-Ended (
            attempt-Ends pcs_up_check-Keeps out_fm-Ended
              (attempt-Ends lanes_check-Keeps out_fm-Ended success-Ended)))))

  start_pml-Ended :
      Ends
        (Kept o)
        (Ended o)
        (attempt (call env Call.pml_start) (out_serdes env) (start_checks env))
  start_pml-Ended =
      attempt-Ends (call-Keeps env framed o Call.pml_start refl) out_serdes-Ended start_checks-Ended

  start_serdes_pml-Ended : Ends (Kept o) (Ended o) (start_serdes_pml env)
  unfolding start_serdes_pml
  start_serdes_pml-Ended = record {
    ends = λ w q.
        (attempt-Ends (call-Keeps env framed o Call.serdes_start refl) out-Ended
            start_pml-Ended).ends
          _ (record { same = q.same; count = q.count });
  }

  pub start_stages-Ended : Ends (Kept o) (Ended o) (start_stages env)
  unfolding start_stages
  start_stages-Ended = attempt-Ends (check_fix_fw-Keeps env framed o) out-Ended (
      attempt-Ends (get_mode-Keeps env framed o) out-Ended (
        attempt-Ends (call-Keeps env framed o Call.pml_pcs_am_start refl) out-Ended
          (attempt-Ends (lp_detect-Keeps env framed o) out-Ended start_serdes_pml-Ended)))
