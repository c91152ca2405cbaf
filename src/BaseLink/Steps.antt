-- ===== src/BaseLink/Steps.antt =====
-- What the fault monitor and the first steps of a start leave alone (sbl_link.c).
use ss_sbl.Prelude.{ℕ, zero, suc, ◌+◌, ◌≡◌, refl, Bool, false, if_rec, ◌==◌, not, test_bit}
use ss_sbl.Link.Consts.{media_electrical, media_optical, loopback_local, opt_serdes_lpd}
use ss_sbl.Media.{check_mode_supported}
use ss_sbl.BaseLink.{
  info_fault_mon, info_lp_det, Call, Env, World, call, on_link, attempt, link_info_set,
  link_info_clear,
}
use ss_sbl.BaseLink.FaultMonitor.{
  fault_monitor_start, fault_monitor_watch, fault_monitor_stop, fault_flags, flags_test,
  monitor_out, monitor_out_uninstall, monitor_out_disable, give_up,
}
use ss_sbl.BaseLink.Detect.{
  lp_detect, lp_ask, reload_fw, check_fix_fw, check_fix_fw_from, get_mode, media_mode,
  get_mode_electrical, get_mode_optical,
}
use ss_sbl.BaseLink.Frame.{
  Framed, Kept, Holds, Ends, Fails, attempt-Ends, is_unlock, call-Kept, call_-Kept, info_set-Kept,
  info_clear-Kept,
}

module _ {H : Type 0} (env : Env H) (framed : Framed env) (o : World H) where
  abbrev pub Left : World H × ℕ → Type 0
  Left r = Holds (Kept o) r

  abbrev pub Keeps : (World H → World H × ℕ) → Type 0
  Keeps m = Ends (Kept o) Left m

  abbrev pub FailKeeps : (ℕ → World H → World H × ℕ) → Type 0
  FailKeeps fail = Fails (Kept o) Left fail

  pub call-Keeps : (c : Call) → is_unlock c ≡ false → Keeps (call env c)
  call-Keeps c h = record { ends = λ w q. record { holds = call-Kept env framed o c h w q } }

  flags_test-Keeps : (flags : Bool) → Keeps (flags_test env flags)
  unfolding flags_test
  flags_test-Keeps flags = record {
    ends = λ w q. record { holds = call-Kept env framed o (Call.err_flgs_test flags) refl w q };
  }

  monitor_out-Keeps : FailKeeps (monitor_out env)
  unfolding monitor_out
  monitor_out-Keeps = record {
    fails = λ err w ne q. record { holds = info_clear-Kept env framed o info_fault_mon w q };
  }

  monitor_out_uninstall-Keeps : FailKeeps (monitor_out_uninstall env)
  unfolding monitor_out_uninstall
  monitor_out_uninstall-Keeps = record {
    fails = λ err w ne q.
        monitor_out-Keeps.fails err _ ne
          (call_-Kept env framed o Call.remove_intr_handler refl w q);
  }

  monitor_out_disable-Keeps : (flags : Bool) → FailKeeps (monitor_out_disable env flags)
  unfolding monitor_out_disable
  monitor_out_disable-Keeps flags = record {
    fails = λ err w ne q.
        monitor_out_uninstall-Keeps.fails err _ ne
          (call_-Kept env framed o (Call.disable_intr flags) refl w q);
  }

  watching-Keeps : Keeps (λ w. (on_link (link_info_set info_fault_mon) w, 0))
  watching-Keeps = record {
    ends = λ w q. record { holds = info_set-Kept env framed o info_fault_mon w q };
  }

  fault_monitor_watch-Keeps : (flags : Bool) → Keeps (fault_monitor_watch env flags)
  unfolding fault_monitor_watch
  fault_monitor_watch-Keeps flags = attempt-Ends (flags_test-Keeps flags) monitor_out-Keeps (
      attempt-Ends (call-Keeps (Call.install_intr flags) refl) monitor_out-Keeps (
        attempt-Ends (call-Keeps (Call.enable_intr flags) refl) monitor_out_uninstall-Keeps
          (attempt-Ends (flags_test-Keeps flags) (monitor_out_disable-Keeps flags) watching-Keeps)))

  pub fault_monitor_start-Keeps : Keeps (fault_monitor_start env)
  unfolding fault_monitor_start fault_flags
  fault_monitor_start-Keeps = record {
    ends = λ w q.
        (fault_monitor_watch-Keeps (fault_flags env w).1).ends _
          (call-Kept env framed o Call.read_replay_ct_max refl w q);
  }

  give_up-Keeps : FailKeeps (give_up env)
  unfolding give_up
  give_up-Keeps = record { fails = λ err w ne q. record { holds = q } }

  fault_monitor_unwatch-Keeps :
      (flags : Bool)
      → Keeps (
          attempt (call env (Call.disable_intr flags)) (give_up env) (
            attempt
              (call env Call.remove_intr_handler)
              (give_up env)
              (λ v. (on_link (link_info_clear info_fault_mon) v, 0))))
  fault_monitor_unwatch-Keeps flags =
      attempt-Ends (call-Keeps (Call.disable_intr flags) refl) give_up-Keeps (
        attempt-Ends (call-Keeps Call.remove_intr_handler refl) give_up-Keeps (record {
          ends = λ w q. record { holds = info_clear-Kept env framed o info_fault_mon w q };
        }))

  pub fault_monitor_stop-Keeps : Keeps (fault_monitor_stop env)
  unfolding fault_monitor_stop fault_flags
  fault_monitor_stop-Keeps = record {
    ends = λ w q.
        (fault_monitor_unwatch-Keeps (fault_flags env w).1).ends _
          (call-Kept env framed o Call.read_replay_ct_max refl w q);
  }

  lp_ask-Keeps : Keeps (lp_ask env)
  unfolding lp_ask
  lp_ask-Keeps = record {
    ends = λ w q.
        if_rec Left (test_bit opt_serdes_lpd w.link.blattr.options)
          (record {
            holds =
                let r = call-Kept env framed o Call.serdes_lp_detect refl w q in
                record { same = r.same; count = r.count };
          })
          (record { holds = q });
  }

  pub lp_detect-Keeps : Keeps (lp_detect env)
  unfolding lp_detect
  lp_detect-Keeps = record {
    ends = λ w q.
        if_rec Left w.link.lp_detected (record { holds = q })
          (record {
            holds =
                info_clear-Kept env framed o info_lp_det _
                  (lp_ask-Keeps.ends _ (info_set-Kept env framed o info_lp_det w q)).holds;
          });
  }

  reload_fw-Keeps : FailKeeps (λ err. reload_fw env)
  unfolding reload_fw
  reload_fw-Keeps = record {
    fails = λ err w ne q. record {
      holds =
          let r = call-Kept env framed o (Call.serdes_firmware_flash_safe false) refl w q in
          record { same = r.same; count = r.count };
    };
  }

  check_fix_fw_from-Keeps : (n serdes : ℕ) → Keeps (check_fix_fw_from env n serdes)
  unfolding check_fix_fw_from
  check_fix_fw_from-Keeps zero serdes = record { ends = λ w q. record { holds = q } }
  check_fix_fw_from-Keeps (suc n) serdes = record {
    ends = λ w q.
        (attempt-Ends (call-Keeps (Call.validate_serdes_fw_crc serdes) refl) reload_fw-Keeps
            (check_fix_fw_from-Keeps n (serdes + 1))).ends
          w q;
  }

  pub check_fix_fw-Keeps : Keeps (check_fix_fw env)
  unfolding check_fix_fw
  check_fix_fw-Keeps = record { ends = λ w q. (check_fix_fw_from-Keeps env.num_serdes 0).ends w q }

  get_mode_optical-Keeps : Keeps (get_mode_optical env)
  unfolding get_mode_optical
  get_mode_optical-Keeps = record {
    ends = λ w q. record { holds = record { same = q.same; count = q.count } };
  }

  media_mode-Keeps : Keeps (media_mode env)
  unfolding media_mode get_mode_electrical
  media_mode-Keeps = record {
    ends = λ w q.
        if_rec Left (w.link.mattr.media == media_electrical)
          ((call-Keeps Call.link_autoneg refl).ends w q)
          (if_rec Left (w.link.mattr.media == media_optical) (get_mode_optical-Keeps.ends w q)
            (record { holds = q }));
  }

  pub get_mode-Keeps : Keeps (get_mode env)
  unfolding get_mode
  get_mode-Keeps = record {
    ends = λ w q.
        let r = media_mode env w in
        let kept = (media_mode-Keeps.ends w q).holds in
        if_rec Left (w.link.loopback_mode == loopback_local) (get_mode_optical-Keeps.ends w q) (
          if_rec Left (not (r.1 == 0)) (record { holds = kept })
            (if_rec Left (check_mode_supported r.0.link.link_mode r.0.link)
              (record { holds = kept }) (record { holds = kept })));
  }
