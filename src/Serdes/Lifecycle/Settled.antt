-- ===== src/Serdes/Lifecycle/Settled.antt =====
-- How the operations on the serdes of a port end.
use ss_sbl.Prelude.{
  ℕ, zero, suc, ◌-◌, ◌≤◌, ◌<◌, ◌≡◌, ◌≢◌, refl, ap, subst, ◌⊎◌, inl, inr, Bool, true, false, not,
  ◌&&◌, ◌||◌, ◌==◌, if_rec, if_cases, Option, some, arith,
}
use ss_sbl.Link.{SerdesStatus, is_running}
use ss_sbl.Link.Consts.{
  einval, euclean, ecanceled, etimedout, debug_keep_serdes_up, debug_force_reload_serdes_fw,
  media_electrical, media_optical, an_mode_on, an_mode_fixed, config_aoc, loopback_local,
}
use ss_sbl.Kernel.{time_is_after_jiffies}
use ss_sbl.Timers.{start_timeout}
use ss_sbl.Media.{debug_option}
use ss_sbl.Serdes.Lifecycle.{
  Board, State, SerdesCall, is_down, is_autoneg, settle, call, stop_steps, serdes_stop_out,
  stop_internal, serdes_stop, an_start_out, an_serdes_start, an_stop_out, an_serdes_stop,
  serdes_reset_out, reset_reload, serdes_reset, lock_delay_loop, lock_deadline, optical_lock_delay,
  optics_wait, serdes_start_out, start_after_optics, start_configured, serdes_start, delay_active,
}

-- The operations that do not wait
pub data Op : Type 0 where
  stop an_start an_stop reset : Op

-- The status that an operation leads to, and those from which it is allowed
abbrev pub target : Op → SerdesStatus
target Op.stop = SerdesStatus.down
target Op.an_start = SerdesStatus.autoneg
target Op.an_stop = SerdesStatus.down
target Op.reset = SerdesStatus.down

abbrev pub allowed : Op → SerdesStatus → Bool
allowed Op.stop st = is_running st || is_autoneg st
allowed Op.an_start st = is_down st
allowed Op.an_stop st = is_autoneg st
allowed Op.reset st = true

-- A wait that passes: the number `left` is zero only when the tick `last` has come, and a pause lessens
-- it.
pub record Elapses {H : Type 0} (b : Board H) (last : ℕ) : Type 0 where
  pub left : H → ℕ
  pub over : (h : H) → left h ≡ 0 → time_is_after_jiffies b.kernel (b.jiffies h) last ≡ false
  pub left_pause : (ms : ℕ) (h : H) → left (b.pause ms h) ≤ left h - 1

-- There is a result.
abbrev Returns : {A : Type 0} → Option A → Type 0
Returns {A} o = (r : A) × (o ≡ some r)

module _ {H : Type 0} where
  -- The link has the status and no error, or the status ERROR and the error that is returned.
  abbrev pub Settled : SerdesStatus → State H × ℕ → Type 0
  Settled t (s, err) =
      (s.link.serr ≡ err)
      × (((err ≡ 0) × (s.link.sstate ≡ t)) ⊎ ((err ≢ 0) × (s.link.sstate ≡ SerdesStatus.error)))

  settle-error :
      (t : SerdesStatus) (err : ℕ) (s : State H)
      → err ≢ 0
      → Settled t (settle SerdesStatus.error err s, err)
  unfolding settle
  settle-error t err s n = (refl, inr (n, refl))

  settle-fine : (t : SerdesStatus) (s : State H) → Settled t (settle t 0 s, 0)
  unfolding settle
  settle-fine t s = (refl, inl (refl, refl))

  module _ (b : Board H) where
    unfoldable pub run : Op → State H → State H × ℕ
    run Op.stop s = serdes_stop b s
    run Op.an_start s = an_serdes_start b s
    run Op.an_stop s = an_serdes_stop b s
    run Op.reset s = serdes_reset b s

    serdes_stop_out-Settled : (r : State H × ℕ) → Settled SerdesStatus.down (serdes_stop_out b r)
    unfolding serdes_stop_out
    serdes_stop_out-Settled (s, err) =
        if_cases (Settled SerdesStatus.down) (not (err == 0))
          (λ bad. settle-error SerdesStatus.down err _ (ground arith))
          (λ good. settle-fine SerdesStatus.down s)

    an_start_out-Settled : (r : State H × ℕ) → Settled SerdesStatus.autoneg (an_start_out b r)
    unfolding an_start_out
    an_start_out-Settled (s, err) =
        if_cases (Settled SerdesStatus.autoneg) (not (err == 0))
          (λ bad. settle-error SerdesStatus.autoneg err s (ground arith))
          (λ good. settle-fine SerdesStatus.autoneg s)

    an_stop_out-Settled : (r : State H × ℕ) → Settled SerdesStatus.down (an_stop_out b r)
    unfolding an_stop_out
    an_stop_out-Settled (s, zero) = settle-fine SerdesStatus.down s
    an_stop_out-Settled (s, suc err) =
        if_cases (Settled SerdesStatus.down) (not (suc err == 0))
          (λ bad. settle-error SerdesStatus.down (suc err) s (ground arith))
          (λ good. absurd (ground arith))

    serdes_reset_out-Settled : (r : State H × ℕ) → Settled SerdesStatus.down (serdes_reset_out b r)
    unfolding serdes_reset_out
    serdes_reset_out-Settled (s, err) =
        if_cases (Settled SerdesStatus.down) (not (err == 0))
          (λ bad. settle-error SerdesStatus.down err s (ground arith))
          (λ good. settle-fine SerdesStatus.down s)

    reset_reload-Settled : (r : State H × ℕ) → Settled SerdesStatus.down (reset_reload b r)
    unfolding reset_reload
    reset_reload-Settled (s, err) =
        if_rec (Settled SerdesStatus.down)
          (not (err == 0) || debug_option debug_force_reload_serdes_fw s.link)
          (serdes_reset_out-Settled (call b SerdesCall.flash_safe s))
          (serdes_reset_out-Settled (s, 0))

    serdes_start_out-Settled :
        (r : State H × ℕ) → Settled SerdesStatus.running (serdes_start_out b r)
    unfolding serdes_start_out
    serdes_start_out-Settled (s, err) =
        if_cases (Settled SerdesStatus.running) (not (err == 0))
          (λ bad. settle-error SerdesStatus.running err s (ground arith))
          (λ good. settle-fine SerdesStatus.running s)

    -- The operation has left the port as it was, or it was allowed and has settled.
    abbrev pub Moved : Op → State H → State H × ℕ → Type 0
    Moved op s r = (r.0 ≡ s) ⊎ ((allowed op s.link.sstate ≡ true) × Settled (target op) r)

    -- A stop, a reset, and the start and the stop for autonegotiation leave the port as it was, or they are
    -- allowed in the status of its serdes and lead to the status that they are for with no error, or to
    -- the status ERROR with the error that they return. A reset always does one of the last two.
    pub run-Moved :
        (op : Op) (s : State H) → Moved op s (run op s) × Settled SerdesStatus.down (run Op.reset s)
    unfolding run serdes_stop an_serdes_start an_serdes_stop serdes_reset stop_internal
    run-Moved op s = (moved op, reset_reload-Settled _)
      where
        moved : (o : Op) → Moved o s (run o s)
        moved Op.stop =
            if_cases (Moved Op.stop s) (not (is_running s.link.sstate || is_autoneg s.link.sstate))
              (λ e. inl refl)
              (λ e.
                if_rec (Moved Op.stop s) (debug_option debug_keep_serdes_up s.link) (inl refl)
                  (inr (ground arith, serdes_stop_out-Settled (stop_steps b s))))
        moved Op.an_start =
            if_rec (Moved Op.an_start s) (not (s.link.mattr.media == media_electrical)) (inl refl) (
              if_rec (Moved Op.an_start s)
                (not (s.link.blattr.an_mode == an_mode_on)
                  && not (s.link.blattr.an_mode == an_mode_fixed))
                (inl refl)
                (if_cases (Moved Op.an_start s) (not (is_down s.link.sstate)) (λ e. inl refl)
                  (λ e. inr (ground arith, an_start_out-Settled _))))
        moved Op.an_stop =
            if_cases (Moved Op.an_stop s) (not (is_autoneg s.link.sstate)) (λ e. inl refl)
              (λ e. inr (ground arith, an_stop_out-Settled _))
        moved Op.reset = inr (refl, reset_reload-Settled _)

    -- The start returns, leaves the port as it was where the serdes are not down, and settles otherwise.
    abbrev pub Started : State H → Option (State H × ℕ) → Type 0
    Started s r =
        (s' : State H) × (err : ℕ) × (r ≡ some (s', err))
        × ((is_down s.link.sstate ≡ false → (s' ≡ s) × (err ≡ euclean))
            × (is_down s.link.sstate ≡ true → Settled SerdesStatus.running (s', err)))

    Settled-Started :
        (s : State H) (r : State H × ℕ)
        → is_down s.link.sstate ≡ true
        → Settled SerdesStatus.running r
        → Started s (some r)
    Settled-Started s (s', err) y settled = (s', err, refl, (λ f. absurd (cc (f, y)), λ t. settled))

    module _ {last : ℕ} (e : Elapses b last) where
      lock_delay_loop-ends :
          (fuel : ℕ) (s : State H)
          → e.left s.hw < fuel
          → (r : State H × ℕ) × (lock_delay_loop b fuel last s ≡ some r)
      unfolding lock_delay_loop
      lock_delay_loop-ends zero s h = absurd (omega arith)
      lock_delay_loop-ends (suc fuel) s h =
          if_cases Returns (not (time_is_after_jiffies b.kernel (b.jiffies s.hw) last))
            (λ over. ((s, 0), refl))
            (λ running.
              let some_left : e.left s.hw ≢ 0 =
                λ z. absurd (cc (running, ap not (e.over s.hw z))) in
              if_rec Returns (b.cancelled s.hw) ((s, ecanceled), refl)
                (if_rec Returns (start_timeout b.kernel (b.jiffies s.hw) s.link.timing)
                  ((s, etimedout), refl)
                  (lock_delay_loop-ends fuel
                    (record s { hw = b.pause b.optical_lock_interval s.hw })
                    (omega (arith, e.left_pause b.optical_lock_interval s.hw, some_left, h)))))

      optical_lock_delay-ends :
          (fuel : ℕ) (s : State H)
          → last ≡ lock_deadline b s
          → e.left s.hw < fuel
          → Returns (optical_lock_delay b fuel s)
      unfolding optical_lock_delay
      optical_lock_delay-ends fuel s d h =
          let (r, q) = lock_delay_loop-ends fuel (delay_active b true s) h in
          let q' =
            subst (λ (j : ℕ). lock_delay_loop b fuel j (delay_active b true s) ≡ some r) d q in
          if_rec Returns (not (s.link.blattr.config_target == config_aoc)) ((s, einval), refl)
            (rw q' (_, refl))

      optics_wait-ends :
          (fuel : ℕ) (s : State H)
          → last ≡ lock_deadline b s
          → e.left s.hw < fuel
          → Returns (optics_wait b fuel s)
      unfolding optics_wait
      optics_wait-ends fuel s d h =
          if_rec Returns
            (not (s.link.blattr.loopback_mode == loopback_local)
              && s.link.mattr.media == media_optical)
            (optical_lock_delay-ends fuel s d h) ((s, 0), refl)

      -- sbl_serdes_start returns, with any fuel above the time that is left until the end of the wait for
      -- the optics: where the serdes are not down it changes nothing and returns -EUCLEAN, else they are
      -- left running with no error, or in the status ERROR with the error that it returns.
      pub serdes_start-Started :
          (fuel : ℕ) (s : State H)
          → last ≡ lock_deadline b (call b (SerdesCall.config false) s).0
          → e.left (call b (SerdesCall.config false) s).0.hw < fuel
          → Started s (serdes_start b fuel s)
      unfolding serdes_start start_configured start_after_optics
      serdes_start-Started fuel s d h =
          let c = call b (SerdesCall.config false) s in
          let (r, q) = optics_wait-ends fuel c.0 d h in
          if_cases (Started s) (not (is_down s.link.sstate))
            (λ n. (s, euclean, refl, (λ f. (refl, refl), λ y. absurd (ground arith))))
            (λ y.
              if_rec (Started s) (not (c.1 == 0))
                (Settled-Started s _ (ground arith) (serdes_start_out-Settled _))
                (rw q (Settled-Started s _ (ground arith) (serdes_start_out-Settled _))))
