-- ===== src/BaseLink/Halt.antt =====
-- How the stop, the reset and the cleanup of a base link end (sbl_link.c).
use ss_sbl.Prelude.{
  ℕ, ◌+◌, ◌≡◌, ◌≢◌, ◌⊎◌, refl, ◌∙◌, sym, ap, subst, true, Bool-cases, inl, inr, if_rec, arith, ◌==◌,
  not, if◌then◌else◌,
}
use ss_sbl.Link.{Link, LinkStatus, core, is_up, is_down, is_up-true, is_down-true, is_up-false}
use ss_sbl.Link.Consts.{erestartsys, ebusy, debug_keep_serdes_up}
use ss_sbl.Media.{debug_option}
use ss_sbl.BaseLink.{Call, Env, World, call, note, lock, on_link, attempt}
use ss_sbl.BaseLink.Start.{unlock_return}
use ss_sbl.BaseLink.Stop.{
  unless_kept_up, stop_state, stop_out, cancel_recovery, stop_stages, stop_locked, base_link_stop,
}
use ss_sbl.BaseLink.Frame.{Framed, Kept, unlocks, Ends, Fails, attempt-Ends, call_-Kept}
use ss_sbl.BaseLink.Steps.{call-Keeps, fault_monitor_stop-Keeps}

-- The state that a stop which succeeds leaves: unless the serdes are kept up for debugging, down.
abbrev pub state_stopped : Link → LinkStatus
state_stopped l = if debug_option debug_keep_serdes_up l then LinkStatus.up else LinkStatus.down

-- The link is in the state `s` without an error, or it is in the state ERROR with the error that is returned.
abbrev pub Halted : {H : Type 0} → LinkStatus → World H × ℕ → Type 0
Halted s r =
    ((r.1 ≡ 0) × (r.0.link.blstate ≡ s) × (r.0.link.blerr ≡ 0))
    ⊎ ((r.1 ≢ 0) × (r.0.link.blstate ≡ LinkStatus.error) × (r.0.link.blerr ≡ r.1))

-- The end of the calls of a stop that began in the world `o`.
pub record Stopped {H : Type 0} (o : World H) (r : World H × ℕ) : Type 0 where
  pub halted : Halted (state_stopped o.link) r
  pub configured : r.0.link.blconfigured ≡ o.link.blconfigured
  pub debug : r.0.link.debug_config ≡ o.link.debug_config
  pub released : unlocks r.0.log ≡ unlocks o.log + 1

-- The state in which the calls of a stop run.
abbrev pub KeptUp : {H : Type 0} → World H → Type 0
KeptUp o = debug_option debug_keep_serdes_up o.link ≡ true → o.link.blstate ≡ LinkStatus.up

unless_kept_up-core :
    (s : LinkStatus) (l : Link)
    → ((unless_kept_up s l).blstate
        ≡ (if debug_option debug_keep_serdes_up l then l.blstate else s))
      × ((unless_kept_up s l).blerr ≡ l.blerr)
      × ((unless_kept_up s l).blconfigured ≡ l.blconfigured)
      × ((unless_kept_up s l).debug_config ≡ l.debug_config)
unfolding unless_kept_up
unless_kept_up-core s l = elim (Bool-cases (debug_option debug_keep_serdes_up l)) [
  | inl keep ↦ rw (keep, unless_kept_up) (refl, refl, refl, refl)
  | inr not ↦ rw (not, unless_kept_up) (refl, refl, refl, refl)
]

debug_option_same :
    (flag : ℕ) (l l' : Link)
    → l.debug_config ≡ l'.debug_config
    → debug_option flag l ≡ debug_option flag l'
unfolding debug_option
debug_option_same flag l l' e = rw e refl

module _ {H : Type 0} (env : Env H) (framed : Framed env) (o : World H) (kept_up : KeptUp o) where
  state_kept :
      (l : Link)
      → core l ≡ core o.link
      → (unless_kept_up LinkStatus.down l).blstate ≡ state_stopped o.link
  state_kept l same =
      let opt = debug_option_same debug_keep_serdes_up l o.link (ap (λ c. c.3) same) in
      elim (Bool-cases (debug_option debug_keep_serdes_up o.link)) [
        | inl keep ↦
            (unless_kept_up-core LinkStatus.down l).0
            ∙ rw (opt, keep) (ap (λ c. c.0) same ∙ kept_up keep)
        | inr not ↦ (unless_kept_up-core LinkStatus.down l).0 ∙ rw (opt, not) refl
      ]

  stop_out_good : (w : World H) → Kept o w → Stopped o (stop_out env 0 w)
  unfolding stop_out stop_state note
  stop_out_good w q = record {
    halted = inl (refl, state_kept w.link q.same, refl);
    configured = (unless_kept_up-core LinkStatus.down w.link).2 ∙ ap (λ c. c.2) q.same;
    debug = (unless_kept_up-core LinkStatus.down w.link).3 ∙ ap (λ c. c.3) q.same;
    released = omega (arith, q.count);
  }

  stop_out-Stopped : Fails (Kept o) (Stopped o) (stop_out env)
  unfolding stop_out stop_state note
  stop_out-Stopped = record {
    fails = λ err w ne q. elim (Bool-cases (err == 0)) [
      | inl good ↦ absurd (ground arith)
      | inr bad ↦ record {
        halted = rw (bad) (inr (ne, refl, refl));
        configured = rw (bad) (ap (λ c. c.2) q.same);
        debug = rw (bad) (ap (λ c. c.3) q.same);
        released = omega (arith, q.count);
      }
    ];
  }

  cancel_recovery-Kept : (w : World H) → Kept o w → Kept o (cancel_recovery env w)
  unfolding cancel_recovery
  cancel_recovery-Kept w q =
      if_rec (λ v. Kept o v) w.link.recovery_started
        (call_-Kept env framed o Call.pml_recovery_cancel refl w q) q

  stop_done-Stopped : Ends (Kept o) (Stopped o) (λ v. stop_out env 0 (note Call.fec_timer_delete v))
  unfolding note
  stop_done-Stopped = record {
    ends = λ w q. stop_out_good _ (record { same = q.same; count = omega (arith, q.count) });
  }

  stop_calls-Stopped : Ends (Kept o) (Stopped o) (λ w.
      attempt
        (call env Call.serdes_stop)
        (stop_out env)
        (attempt
          (call env Call.pml_link_down)
          (stop_out env)
          (λ v. stop_out env 0 (note Call.fec_timer_delete v)))
        (cancel_recovery env w))
  stop_calls-Stopped = record {
    ends = λ w q.
        (attempt-Ends (call-Keeps env framed o Call.serdes_stop refl) stop_out-Stopped (
            attempt-Ends (call-Keeps env framed o Call.pml_link_down refl) stop_out-Stopped
              stop_done-Stopped)).ends
          _ (cancel_recovery-Kept w q);
  }

  stop_stages-Stopped : Ends (Kept o) (Stopped o) (stop_stages env)
  unfolding stop_stages
  stop_stages-Stopped =
      attempt-Ends (fault_monitor_stop-Keeps env framed o) stop_out-Stopped stop_calls-Stopped

-- The ways in which a stop of the link in the world `w` can end with the result `r`.
pub data StopEnd {H : Type 0} (env : Env H) (w : World H) (r : World H × ℕ) : Type 0 where
  interrupted : env.mutex_lock w.hw ≢ 0 → r.1 ≡ erestartsys → r.0.link ≡ w.link → StopEnd env w r
  already_down : w.link.blstate ≡ LinkStatus.down → r.1 ≡ 0 → r.0.link ≡ w.link → StopEnd env w r
  refused : w.link.blstate ≢ LinkStatus.up → r.1 ≡ ebusy → r.0.link ≡ w.link → StopEnd env w r
  carried_out : w.link.blstate ≡ LinkStatus.up → Halted (state_stopped w.link) r → StopEnd env w r

module _ {H : Type 0} (env : Env H) (framed : Framed env) where
  stopping : World H → World H
  stopping w = on_link (unless_kept_up LinkStatus.stopping) w

  stopping-KeptUp : (w : World H) → w.link.blstate ≡ LinkStatus.up → KeptUp (stopping w)
  unfolding stopping
  stopping-KeptUp w up keep =
      let (state, err, conf, debug) = unless_kept_up-core LinkStatus.stopping w.link in
      state ∙ rw (sym (debug_option_same debug_keep_serdes_up _ w.link debug) ∙ keep) up

  stages-Stopped :
      (w : World H)
      → w.link.blstate ≡ LinkStatus.up
      → Stopped (stopping w) (stop_stages env (stopping w))
  stages-Stopped w up =
      (stop_stages-Stopped env framed (stopping w) (stopping-KeptUp w up)).ends _
        (record { same = refl; count = refl })

  same_stopped : (w : World H) → state_stopped (stopping w).link ≡ state_stopped w.link
  unfolding stopping
  same_stopped w =
      rw
        (debug_option_same debug_keep_serdes_up (stopping w).link w.link
          (unless_kept_up-core LinkStatus.stopping w.link).3)
        refl

  -- The end of a stop that has the mutex, with what it keeps on every path.
  pub stop_locked_end :
      (w : World H)
      → StopEnd env w (stop_locked env w)
        × ((stop_locked env w).0.link.blconfigured ≡ w.link.blconfigured)
        × ((stop_locked env w).0.link.debug_config ≡ w.link.debug_config)
        × (unlocks (stop_locked env w).0.log ≡ unlocks w.log + 1)
  unfolding stop_locked unlock_return note stopping
  stop_locked_end w = elim (Bool-cases (is_down w.link.blstate)) [
    | inl down ↦
        rw (down, stop_locked)
          (
            StopEnd.already_down (is_down-true w.link.blstate down) refl refl,
            refl,
            refl,
            omega arith,
          )
    | inr not_down ↦ elim (Bool-cases (is_up w.link.blstate)) [
      | inr not_up ↦
          rw (not_down, not_up, stop_locked)
            (StopEnd.refused (is_up-false w.link.blstate not_up) refl refl, refl, refl, omega arith)
      | inl up ↦
          let is_up = is_up-true w.link.blstate up in
          let s = stages-Stopped w is_up in
          let (state, err, conf, debug) = unless_kept_up-core LinkStatus.stopping w.link in
          rw (not_down, up, stop_locked)
            (
              StopEnd.carried_out is_up (
                  subst (λ (x : LinkStatus). Halted x (stop_stages env (stopping w)))
                    (same_stopped w) s.halted),
              s.configured ∙ conf,
              s.debug ∙ debug,
              s.released,
            )
    ]
  ]

  -- Every call of sbl_base_link_stop behind the validations ends in one of these ways: it is
  -- refused and leaves the link record as it was; or the link was up, and then it is down without
  -- an error (up, when debugging keeps the serdes up), or in the state ERROR with the error that is
  -- returned in `blerr`. The calls out of sbl_link.c do not set the link's state, error, configured
  -- flag or debug flags.
  pub base_link_stop_end : (w : World H) → StopEnd env w (base_link_stop env w)
  unfolding base_link_stop attempt lock note
  base_link_stop_end w = elim (Bool-cases (env.mutex_lock w.hw == 0)) [
    | inl got ↦ rw (got, base_link_stop) (from (stop_locked_end (note Call.lock_busy_mtx w)).0)
    | inr not ↦ rw (not, base_link_stop) (StopEnd.interrupted (ground arith) refl refl)
  ]
    where
      from : {r : World H × ℕ} → StopEnd env (note Call.lock_busy_mtx w) r → StopEnd env w r
      from (StopEnd.interrupted a b c) = StopEnd.interrupted a b c
      from (StopEnd.already_down a b c) = StopEnd.already_down a b c
      from (StopEnd.refused a b c) = StopEnd.refused a b c
      from (StopEnd.carried_out a b) = StopEnd.carried_out a b
