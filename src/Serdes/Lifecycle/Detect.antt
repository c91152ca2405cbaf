-- ===== src/Serdes/Lifecycle/Detect.antt =====
-- The detection of the link partner by a quick tuning, sbl_serdes_lp_detect, and the load of the firmware,
-- sbl_serdes_load (drivers/net/ethernet/hpe/sbl/sbl_serdes.c).
use ss_sbl.Prelude.{
  ℕ, zero, suc, ◌+◌, ◌<◌, ◌≡◌, ◌≢◌, refl, ◌∙◌, ◌⊎◌, inl, inr, Bool, true, not, ◌==◌, if◌then◌else◌,
  if_cases, Option, none, some, test_bit, arith,
}
use ss_sbl.Link.{SerdesStatus, Timing}
use ss_sbl.Link.Consts.{
  euclean, etime, ecanceled, etimedout, loopback_local, opt_reload_fw_on_timeout,
  debug_inhibit_spll_reset,
}
use ss_sbl.Media.{debug_option}
use ss_sbl.Serdes.Lifecycle.{Board, State, SerdesCall, is_down, on_link, settle, call, unless_error}
use ss_sbl.Serdes.Lifecycle.Minitune.{minitune_block}
use ss_sbl.Serdes.Lifecycle.Minitune.Ends.{TimePasses, call-Later, call_takes, minitune_block-ends}

module _ {H : Type 0} (b : Board H) where
  -- The labels `out_done` and `out_err`
  unfoldable pub lpd_out_done : ℕ → State H → State H × ℕ
  lpd_out_done err s = (settle SerdesStatus.down 0 s, err)

  unfoldable pub lpd_out_err : ℕ → State H → State H × ℕ
  lpd_out_err err s = (settle SerdesStatus.error err s, err)

  -- The case -ETIMEDOUT
  unfoldable pub lpd_timed_out : State H → State H
  lpd_timed_out s =
      let s' =
        (if not (debug_option debug_inhibit_spll_reset s.link)
          then (call b SerdesCall.reset_plls s).0
          else s) in
      if test_bit opt_reload_fw_on_timeout s'.link.blattr.options
      then on_link (λ l. record l { reload_serdes_fw = true }) s'
      else s'

  abbrev partner_found : State H → State H
  partner_found s = on_link (λ l. record l { lp_detected = true }) s

  -- The cases of the result of sbl_serdes_minitune_block, with what follows where nothing is detected
  unfoldable pub lpd_result : ℕ → State H → Option (State H × ℕ) → Option (State H × ℕ)
  lpd_result err s rest =
      if err == 0
      then some (lpd_out_done 0 (partner_found s))
      else if err == etimedout
      then some (lpd_out_done err (lpd_timed_out s))
      else if err == ecanceled
      then some (lpd_out_done err s)
      else if err == etime
      then rest
      else some (lpd_out_err err s)

  -- Its loop, in so many rounds at most; `fuel` is for the wait in a round.
  unfoldable pub lpd_loop : ℕ → ℕ → State H → Option (State H × ℕ)
  lpd_loop fuel zero s = none
  lpd_loop fuel (suc rounds) s =
      let (s₁, err) = call b SerdesCall.minitune_setup s in
      if not (err == 0) then some (lpd_out_err err s₁) else elim (minitune_block b fuel s₁) [
        | none ↦ none
        | some (s₂, res) ↦
            lpd_result res s₂
              (lpd_loop fuel rounds (record s₂ { lpd_try_count = s₂.lpd_try_count + 1 }))
      ]

  -- sbl_serdes_lp_detect
  unfoldable pub serdes_lp_detect : ℕ → State H → Option (State H × ℕ)
  serdes_lp_detect fuel s =
      if s.link.loopback_mode == loopback_local
      then some (s, 0)
      else if not (is_down s.link.sstate)
      then some (s, euclean)
      else lpd_loop fuel fuel (record (settle SerdesStatus.lpd_mt 0 s) { lpd_try_count = 0 })

  -- sbl_serdes_load; `all_ports` tells that the port is SBL_ALL_PORTS.
  unfoldable pub serdes_load : Bool → Bool → State H → State H × ℕ
  serdes_load all_ports force s =
      let load = λ (v : State H). call b (SerdesCall.firmware_flash force) v in
      if not b.is_hw
      then (s, 0)
      else if all_ports
      then unless_error b (call b SerdesCall.apply_sbus_divider s)
          (λ s₁. unless_error b (call b SerdesCall.sbm_firmware_flash s₁) load)
      else load s

  -- The serdes are down with no error, and a partner is found, or the time is over or the start is
  -- cancelled; or the serdes have the status ERROR and the error that is returned.
  abbrev pub Detected : Option (State H × ℕ) → Type 0
  Detected r =
      (s : State H) × (err : ℕ) × (r ≡ some (s, err))
      × (((s.link.sstate ≡ SerdesStatus.down)
            × (s.link.serr ≡ 0)
            × (((err ≡ 0) × (s.link.lp_detected ≡ true)) ⊎ (err ≡ etimedout) ⊎ (err ≡ ecanceled)))
          ⊎ ((s.link.sstate ≡ SerdesStatus.error) × (s.link.serr ≡ err) × (err ≢ 0)))

  out_err-Detected : (err : ℕ) (s : State H) → err ≢ 0 → Detected (some (lpd_out_err err s))
  unfolding lpd_out_err settle
  out_err-Detected err s n = (_, _, refl, inr (refl, refl, n))

  lpd_result-Detected :
      (err : ℕ) (s : State H) (rest : Option (State H × ℕ))
      → (err ≡ etime → Detected rest)
      → Detected (lpd_result err s rest)
  unfolding lpd_result lpd_out_done settle
  lpd_result-Detected err s rest again =
      if_cases Detected (err == 0) (λ e. (_, _, refl, inl (refl, refl, inl (refl, refl))))
        (λ n.
          if_cases Detected (err == etimedout)
            (λ e. (_, _, refl, inl (refl, refl, inr (inl (ground arith)))))
            (λ m.
              if_cases Detected (err == ecanceled)
                (λ e. (_, _, refl, inl (refl, refl, inr (inr (ground arith)))))
                (λ k.
                  if_cases Detected (err == etime) (λ e. again (ground arith))
                    (λ j. out_err-Detected err s (ground arith)))))

  module _ {t : Timing} (p : TimePasses b t) where
    lpd_loop-Detected :
        (fuel rounds : ℕ) (s : State H)
        → s.link.timing ≡ t
        → p.left s.hw < fuel
        → p.left s.hw < rounds
        → Detected (lpd_loop fuel rounds s)
    unfolding lpd_loop
    lpd_loop-Detected fuel zero s e h r = absurd (omega arith)
    lpd_loop-Detected fuel (suc rounds) s e h r =
        let (s₁, err) = call b SerdesCall.minitune_setup s in
        let set_up = call-Later b p SerdesCall.minitune_setup s in
        let takes = call_takes b p SerdesCall.minitune_setup s in
        let ((s₂, res), q, tuned) =
          minitune_block-ends b p fuel s₁ (set_up.timing ∙ e) (omega (arith, set_up.less, h)) in
        if_cases Detected (not (err == 0)) (λ bad. out_err-Detected err s₁ (ground arith))
          (λ good.
            rw (q, lpd_loop)
              (lpd_result-Detected res s₂ _ (λ z.
                lpd_loop-Detected fuel rounds (record s₂ { lpd_try_count = s₂.lpd_try_count + 1 })
                  (tuned.later.timing ∙ set_up.timing ∙ e)
                  (omega (arith, tuned.later.less, set_up.less, h))
                  (omega (arith, tuned.again z, tuned.later.less, takes, r)))))

    -- sbl_serdes_lp_detect on serdes that are down, and not in local loopback, returns with any fuel above
    -- the time that is left until the start timeout, where pauses and calls take time, no call sets that
    -- timeout again, and the serdes processors give no -ETIME: neither the wait for the signals of the
    -- partner nor the rounds of quick tuning go on after it. It leaves the serdes down with no error, and
    -- returns 0 only with the partner noted as detected, or -ETIMEDOUT or -ECANCELED; or it leaves them in
    -- the status ERROR with the error that it returns.
    pub serdes_lp_detect-Detected :
        (fuel : ℕ) (s : State H)
        → s.link.timing ≡ t
        → s.link.loopback_mode ≢ loopback_local
        → is_down s.link.sstate ≡ true
        → p.left s.hw < fuel
        → Detected (serdes_lp_detect fuel s)
    unfolding serdes_lp_detect settle
    serdes_lp_detect-Detected fuel s e n d h =
        if_cases Detected (s.link.loopback_mode == loopback_local) (λ z. absurd (n (ground arith)))
          (λ z.
            if_cases Detected (not (is_down s.link.sstate)) (λ f. absurd (ground arith))
              (λ f.
                lpd_loop-Detected fuel fuel
                  (record (settle SerdesStatus.lpd_mt 0 s) { lpd_try_count = 0 }) e h h))
