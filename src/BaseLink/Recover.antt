-- ===== src/BaseLink/Recover.antt =====
-- How the reset and the cleanup after a failed start end (sbl_link.c).
use ss_sbl.Prelude.{
  ℕ, ◌+◌, ◌≡◌, refl, ◌∙◌, ap, Bool, true, false, Bool-cases, inl, inr, if_rec, arith, ◌==◌, not,
  if◌then◌else◌, ◌||◌, ◌&&◌,
}
use ss_sbl.Link.{Link, LinkStatus, SerdesStatus, is_error}
use ss_sbl.Link.Consts.{debug_inhibit_cleanup}
use ss_sbl.Media.{debug_option}
use ss_sbl.BaseLink.{Call, Env, World, call_, note, on_link}
use ss_sbl.BaseLink.Start.{unlock_return}
use ss_sbl.BaseLink.Stop.{
  cancel_recovery, drop_intr_handlers, reset_state, reset_locked, stop_serdes, reset_serdes,
  clean_serdes, clear_error, clean_error, cleanup_locked, distrusts_tuning, clears_only,
  restartable,
}
use ss_sbl.BaseLink.Frame.{Framed, Kept, unlocks, call_-Kept}

module _ {H : Type 0} (env : Env H) (framed : Framed env) (o : World H) where
  drop_intr_handlers-Kept : (w : World H) → Kept o w → Kept o (drop_intr_handlers env w)
  unfolding drop_intr_handlers
  drop_intr_handlers-Kept w q =
      let r =
        call_-Kept env framed o Call.remove_intr_handler refl _
          (call_-Kept env framed o Call.disable_intr_flags refl w q) in
      if_rec (λ v. Kept o v) (w.link.intr_err_flgs == 0) q
        (record { same = r.same; count = r.count })

  cancel_recovery-Kept : (w : World H) → Kept o w → Kept o (cancel_recovery env w)
  unfolding cancel_recovery
  cancel_recovery-Kept w q =
      if_rec (λ v. Kept o v) w.link.recovery_started
        (call_-Kept env framed o Call.pml_recovery_cancel refl w q) q

  stop_serdes-Kept : (s : SerdesStatus) (w : World H) → Kept o w → Kept o (stop_serdes env s w)
  unfolding stop_serdes
  stop_serdes-Kept SerdesStatus.running w q = call_-Kept env framed o Call.serdes_stop refl w q
  stop_serdes-Kept SerdesStatus.autoneg w q = call_-Kept env framed o Call.an_serdes_stop refl w q
  stop_serdes-Kept _ w q = q

  reset_serdes-Kept : (s : SerdesStatus) (w : World H) → Kept o w → Kept o (reset_serdes env s w)
  unfolding reset_serdes
  reset_serdes-Kept SerdesStatus.down w q = q
  reset_serdes-Kept _ w q = call_-Kept env framed o Call.serdes_reset refl w q

  clean_serdes-Kept : (w : World H) → Kept o w → Kept o (clean_serdes env w)
  unfolding clean_serdes
  clean_serdes-Kept w q = reset_serdes-Kept _ _ (stop_serdes-Kept w.link.sstate w q)

-- The errors of a start after which the cleanup makes the link ready for another start.
abbrev pub recoverable : ℕ → Bool
recoverable err = distrusts_tuning err || clears_only err

-- Whether the cleanup moves the link to DOWN.
abbrev pub recovers : Link → Bool
recovers l =
    not (debug_option debug_inhibit_cleanup l) && (is_error l.blstate && recoverable l.blerr)

module _ {H : Type 0} (env : Env H) (framed : Framed env) where
  -- sbl_base_link_reset, once it has the mutex, always leaves the link unconfigured, without an
  -- error and with the mutex let go of once, whatever its calls return. The calls out of sbl_link.c
  -- do not set the link's state, error, configured flag or debug flags.
  pub reset_locked_end :
      (w : World H)
      → ((reset_locked env w).1 ≡ 0)
        × ((reset_locked env w).0.link.blstate ≡ LinkStatus.unconfigured)
        × ((reset_locked env w).0.link.blerr ≡ 0)
        × ((reset_locked env w).0.link.blconfigured ≡ false)
        × ((reset_locked env w).0.link.debug_config ≡ w.link.debug_config)
        × (unlocks (reset_locked env w).0.log ≡ unlocks w.log + 1)
  unfolding reset_locked unlock_return note reset_state
  reset_locked_end w =
      let w₁ = on_link (λ l. record l { blstate = LinkStatus.resetting }) w in
      let w₂ = cancel_recovery env (drop_intr_handlers env w₁) in
      let q₂ =
        cancel_recovery-Kept env framed w₁ _
          (drop_intr_handlers-Kept env framed w₁ w₁ (record { same = refl; count = refl })) in
      let q₃ =
        call_-Kept env framed w₁ Call.pml_link_down refl _
          (call_-Kept env framed w₁ Call.serdes_reset refl w₂ q₂) in
      let w₃ = call_ env Call.pml_link_down (call_ env Call.serdes_reset w₂) in
      let w₄ = on_link reset_state (note Call.fec_timer_delete w₃) in
      let q₅ = call_-Kept env framed w₄ Call.pml_err_flgs_clear_all refl _ (
        call_-Kept env framed w₄ Call.pml_set_defaults refl w₄
          (record { same = refl; count = refl })) in
      (
        refl,
        ap (λ c. c.0) q₅.same,
        ap (λ c. c.1) q₅.same,
        ap (λ c. c.2) q₅.same,
        ap (λ c. c.3) q₅.same ∙ ap (λ c. c.3) q₃.same,
        omega (arith, q₅.count, q₃.count),
      )

  clear_error_end :
      (w : World H)
      → ((clear_error env w).link.blstate ≡ LinkStatus.down)
        × ((clear_error env w).link.blerr ≡ 0)
        × ((clear_error env w).link.blconfigured ≡ w.link.blconfigured)
        × ((clear_error env w).link.debug_config ≡ w.link.debug_config)
        × (unlocks (clear_error env w).log ≡ unlocks w.log)
  unfolding clear_error restartable
  clear_error_end w =
      let v = on_link restartable w in
      let q = call_-Kept env framed v Call.pml_set_defaults refl _ (
        call_-Kept env framed v Call.pml_link_down refl v (record { same = refl; count = refl })) in
      (
        ap (λ c. c.0) q.same,
        ap (λ c. c.1) q.same,
        ap (λ c. c.2) q.same,
        ap (λ c. c.3) q.same,
        q.count,
      )

  -- The state and the error that the cleanup leaves, with what it keeps, in a world where the link's
  -- core is that of `w` and the mutex has been let go of as often as in `w`.
  pub record Cleaned (w v : World H) (recovered : Bool) : Type 0 where
    pub state : v.link.blstate ≡ (if recovered then LinkStatus.down else w.link.blstate)
    pub err : v.link.blerr ≡ (if recovered then 0 else w.link.blerr)
    pub configured : v.link.blconfigured ≡ w.link.blconfigured
    pub debug : v.link.debug_config ≡ w.link.debug_config
    pub count : unlocks v.log ≡ unlocks w.log

  Kept-Cleaned : (w v : World H) → Kept w v → Cleaned w v false
  Kept-Cleaned w v q = record {
    state = ap (λ c. c.0) q.same;
    err = ap (λ c. c.1) q.same;
    configured = ap (λ c. c.2) q.same;
    debug = ap (λ c. c.3) q.same;
    count = q.count;
  }

  clear_error-Cleaned : (w v : World H) → Kept w v → Cleaned w (clear_error env v) true
  clear_error-Cleaned w v q =
      let (state, err, configured, debug, count) = clear_error_end v in
      record {
        state = state;
        err = err;
        configured = configured ∙ ap (λ c. c.2) q.same;
        debug = debug ∙ ap (λ c. c.3) q.same;
        count = count ∙ q.count;
      }

  clean_error-Cleaned :
      (w v : World H)
      → Kept w v
      → Cleaned w (clean_error env v) (is_error w.link.blstate && recoverable w.link.blerr)
  unfolding clean_error
  clean_error-Cleaned w v q =
      let state = ap (λ c. is_error c.0) q.same in
      let distrusts = ap (λ c. distrusts_tuning c.1) q.same in
      let clears = ap (λ c. clears_only c.1) q.same in
      elim (Bool-cases (is_error w.link.blstate)) [
        | inr fine ↦ rw (state, fine, clean_error) (Kept-Cleaned w v q)
        | inl bad ↦ elim (Bool-cases (distrusts_tuning w.link.blerr)) [
          | inl d ↦
              rw (state, distrusts, bad, d, clean_error)
                (clear_error-Cleaned w _
                  (call_-Kept env framed w Call.invalidate_all_tuning_params refl v q))
          | inr not_d ↦ elim (Bool-cases (clears_only w.link.blerr)) [
            | inl c ↦
                rw (state, distrusts, clears, bad, not_d, c, clean_error)
                  (clear_error-Cleaned w v q)
            | inr not_c ↦
                rw (state, distrusts, clears, bad, not_d, not_c, clean_error) (Kept-Cleaned w v q)
          ]
        ]
      ]

  -- sbl_base_link_try_start_fail_cleanup, once it has the mutex, makes the link ready for another
  -- start exactly when cleanup is not inhibited and the link is in the state ERROR with one of the
  -- ten errors that the switch names: then the state is DOWN and the error is cleared. Otherwise
  -- both stay as they were. The mutex is let go of once. The calls out of sbl_link.c do not set the
  -- link's state, error, configured flag or debug flags.
  pub cleanup_locked_end :
      (w : World H)
      → ((cleanup_locked env w).0.link.blstate
          ≡ (if recovers w.link then LinkStatus.down else w.link.blstate))
        × ((cleanup_locked env w).0.link.blerr ≡ (if recovers w.link then 0 else w.link.blerr))
        × ((cleanup_locked env w).0.link.blconfigured ≡ w.link.blconfigured)
        × ((cleanup_locked env w).0.link.debug_config ≡ w.link.debug_config)
        × (unlocks (cleanup_locked env w).0.log ≡ unlocks w.log + 1)
  unfolding cleanup_locked unlock_return note debug_option
  cleanup_locked_end w =
      let w₁ = drop_intr_handlers env w in
      let q₁ = drop_intr_handlers-Kept env framed w w (record { same = refl; count = refl }) in
      let inhibit =
        ap (λ c. debug_option debug_inhibit_cleanup (record (w.link) { debug_config = c.3 }))
          q₁.same in
      let c = clean_error-Cleaned w _ (clean_serdes-Kept env framed w w₁ q₁) in
      elim (Bool-cases (debug_option debug_inhibit_cleanup w.link)) [
        | inl on ↦
            rw (inhibit, on, cleanup_locked)
              (
                ap (λ c. c.0) q₁.same,
                ap (λ c. c.1) q₁.same,
                ap (λ c. c.2) q₁.same,
                ap (λ c. c.3) q₁.same,
                omega (arith, q₁.count),
              )
        | inr off ↦
            rw (inhibit, off, cleanup_locked)
              (c.state, c.err, c.configured, c.debug, omega (arith, c.count))
      ]
