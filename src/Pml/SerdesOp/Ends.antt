-- ===== src/Pml/SerdesOp/Ends.antt =====
-- An operation of the serdes comes to an end, and lets go of the mutex.
use ss_sbl.Prelude.{
  ℕ, zero, suc, ◌*◌, ◌≤◌, ◌<◌, ◌≡◌, ◌≢◌, refl, sym, ap, subst, ◌∙◌, ◌⊎◌, inl, inr, Bool, true,
  false, not, ◌||◌, ◌==◌, Option, none, some, ◌∷◌, arith, if_rec, if_cases, List,
}
use ss_sbl.Link.{Timing}
use ss_sbl.Link.Consts.{etimedout, ebusy, einval, erestartsys}
use ss_sbl.Kernel.{time_is_before_jiffies}
use ss_sbl.Timers.{start_timeout}
use ss_sbl.Pml.Regs.{Reg, Field}
use ss_sbl.Pml.{Board, State, Event, get, read64, pause, tell, flush, write64}
use ss_sbl.Pml.Waiting.{RunsOut}
use ss_sbl.Pml.SerdesOp.{
  flags_get_delay, Operation, serdes_op_busy, op_word, serdes_op_begin, op_deadline, serdes_op_poll,
  serdes_op_finish, serdes_op_locked, serdes_op, flags_get_poll_interval,
}

-- There is no place for the result, no timeout, or no interval of polls.
abbrev pub is_bad : Bool → Operation → Bool
is_bad has_place o = not has_place || o.timeout == 0 || flags_get_poll_interval o.flags == 0

false_of_not : {t : Bool} → not t ≡ true → t ≡ false
false_of_not {t = true} e = sym e
false_of_not {t = false} e = refl

true_of_not : {t : Bool} → not t ≡ false → t ≡ true
true_of_not {t = true} e = refl
true_of_not {t = false} e = sym e

module _ {H : Type 0} (b : Board H) where
  -- A reading of the register of the operation, from the hardware state h
  abbrev pub reading : H → H × ℕ
  reading h = b.read Reg.serdes_core_interrupt h

  -- The processor is busy, as this reading shows.
  abbrev pub shows_busy : H → Bool
  shows_busy h = not (get b Field.core_do_interrupt (reading h).1 == 0)

  -- The polls up to the tick `last` end in the hardware state h by a reading that shows the processor done,
  -- or busy when that tick has gone by.
  pub record Last (last : ℕ) (h : H) (err : ℕ) : Type 0 where
    pub from : H
    pub read : h ≡ (reading from).0
    pub why :
        ((err ≡ 0) × (shows_busy from ≡ false))
        ⊎ ((err ≡ etimedout)
            × (shows_busy from ≡ true)
            × (time_is_before_jiffies b.kernel (b.jiffies h) last ≡ true))

  -- A result of the polls, with the events and the link as they were
  abbrev Polled : ℕ → State H → Option (State H × ℕ) → Type 0
  Polled last s r =
      (s' : State H) × (err : ℕ) × (r ≡ some (s', err))
      × Last last s'.hw err
      × (s'.log ≡ s.log)
      × (s'.link ≡ s.link)

  serdes_op_poll-ends :
      {t : Timing} (r : RunsOut b t) (fuel interval : ℕ) (s : State H)
      → r.left s.hw < fuel
      → Polled t.last_start_jiffy s (serdes_op_poll b fuel interval t.last_start_jiffy s)
  unfolding serdes_op_poll serdes_op_busy read64 pause start_timeout
  serdes_op_poll-ends r zero interval s h = absurd (omega arith)
  serdes_op_poll-ends {t} r (suc fuel) interval s h =
      let s' = (serdes_op_busy b s).0 in
      let last = t.last_start_jiffy in
      let less = r.left_read Reg.serdes_core_interrupt s.hw in
      if_cases (Polled last s) (not (shows_busy s.hw))
        (λ done. (
          s',
          0,
          refl,
          record { from = s.hw; read = refl; why = inl (refl, false_of_not done) },
          refl,
          refl,
        ))
        (λ busy.
          if_cases (Polled last s) (time_is_before_jiffies b.kernel (b.jiffies s'.hw) last)
            (λ late. (
              s',
              etimedout,
              refl,
              record { from = s.hw; read = refl; why = inr (refl, true_of_not busy, late) },
              refl,
              refl,
            ))
            (λ early.
              let some_left : r.left s'.hw ≢ 0 = λ z. absurd (cc (early, r.over s'.hw z)) in
              serdes_op_poll-ends r fuel interval (pause b (interval * 1000) s').0
                (omega (arith, less, h, some_left, r.left_pause (interval * 1000) s'.hw))))

  -- From one state to the other, the events and the link stay, and no time is gained.
  abbrev Keeps : {t : Timing} → RunsOut b t → State H → State H → Type 0
  Keeps r s s' = (s'.log ≡ s.log) × (s'.link ≡ s.link) × (r.left s'.hw ≤ r.left s.hw)

  busy-Keeps : {t : Timing} (r : RunsOut b t) (s : State H) → Keeps r s (serdes_op_busy b s).0
  unfolding serdes_op_busy read64
  busy-Keeps r s = (refl, refl, omega (arith, r.left_read Reg.serdes_core_interrupt s.hw))

  begin-Keeps :
      {t : Timing} (r : RunsOut b t) (o : Operation) (s : State H)
      → Keeps r s (serdes_op_begin b o s).0
  unfolding serdes_op_begin write64 flush read64 pause
  begin-Keeps r o s =
      let written = b.write Reg.serdes_core_interrupt (op_word b o) s.hw in
      let flushed = (b.read Reg.serdes_core_interrupt written).0 in
      let w = r.left_write Reg.serdes_core_interrupt (op_word b o) s.hw in
      let f = r.left_read Reg.serdes_core_interrupt written in
      let d = r.left_pause (flags_get_delay o.flags) flushed in
      if_rec (λ (p : State H × Unit {0}). Keeps r s p.0) (not (flags_get_delay o.flags == 0))
        (refl, refl, omega (arith, w, f, d)) (refl, refl, omega (arith, w, f))

  -- The state in which the mutex is held
  abbrev pub held : State H → State H
  held s = (tell Event.lock_serdes_mtx s).0

  -- The state in which the deadline of the operation is set
  abbrev pub begun : Operation → State H → State H
  begun o s = (serdes_op_begin b o (serdes_op_busy b (held s)).0).0

  -- What the end of an operation stores: with 0, the data of a reading, which is the last that is done
  -- to the hardware and comes right after the polls; with an error, nothing.
  pub data Result (last : ℕ) (s : State H) : ℕ → Option ℕ → Type 0 where
    result :
        (h : H)
        → Last last h 0
        → s.hw ≡ (reading h).0
        → Result last s 0 (some (get b Field.core_interrupt_data (reading h).1))
    no_result : (err : ℕ) → err ≡ etimedout → Last last s.hw err → Result last s err none

  -- The ways in which an operation may end: refused before the mutex is taken, refused with it held,
  -- since the processor is busy, or started, in which case the polls end it.
  pub data Outcome (has_place : Bool) (locked : ℕ) (o : Operation) (s s' : State H)
      : ℕ → Option ℕ → Type 0 where
    bad_argument : is_bad has_place o ≡ true → s' ≡ s → Outcome has_place locked o s s' einval none
    interrupted :
        is_bad has_place o ≡ false
        → locked ≢ 0
        → s' ≡ s
        → Outcome has_place locked o s s' erestartsys none
    busy :
        is_bad has_place o ≡ false
        → locked ≡ 0
        → shows_busy s.hw ≡ true
        → s'.log ≡ Event.unlock_serdes_mtx ∷ Event.lock_serdes_mtx ∷ s.log
        → s'.hw ≡ (reading s.hw).0
        → Outcome has_place locked o s s' ebusy none
    started :
        (err : ℕ) (stored : Option ℕ)
        → is_bad has_place o ≡ false
        → locked ≡ 0
        → shows_busy s.hw ≡ false
        → s'.log ≡ Event.unlock_serdes_mtx ∷ Event.lock_serdes_mtx ∷ s.log
        → Result (op_deadline b o (begun o s)) s' err stored
        → Outcome has_place locked o s s' err stored

  -- The operation has returned, without a change of the link.
  pub record Returned (has_place : Bool) (locked : ℕ) (o : Operation) (s : State H)
      (r : Option (State H × (ℕ × Option ℕ))) : Type 0 where
    pub state : State H
    pub err : ℕ
    pub stored : Option ℕ
    pub returns : r ≡ some (state, (err, stored))
    pub keeps_link : state.link ≡ s.link
    pub outcome : Outcome has_place locked o s state err stored

  finish-Result :
      (last : ℕ) (s : State H) (err : ℕ)
      → Last last s.hw err
      → Result last
          (serdes_op_finish b err s).0
          (serdes_op_finish b err s).1.0
          (serdes_op_finish b err s).1.1
  unfolding serdes_op_finish read64
  finish-Result last s zero l = Result.result s.hw l refl
  finish-Result last s (suc err) l = Result.no_result (suc err) (timed l.why) l
    where
      timed :
          ((suc err ≡ 0) × (shows_busy l.from ≡ false))
            ⊎ ((suc err ≡ etimedout)
                × (shows_busy l.from ≡ true)
                × (time_is_before_jiffies b.kernel (b.jiffies s.hw) last ≡ true))
          → suc err ≡ etimedout
      timed (inl (e, n)) = absurd (omega arith)
      timed (inr (e, n, m)) = e

  finish-Keeps :
      (s : State H) (err : ℕ)
      → ((serdes_op_finish b err s).0.log ≡ Event.unlock_serdes_mtx ∷ s.log)
        × ((serdes_op_finish b err s).0.link ≡ s.link)
  unfolding serdes_op_finish read64
  finish-Keeps s zero = (refl, refl)
  finish-Keeps s (suc err) = (refl, refl)

  module _ (has_place : Bool) (locked : ℕ) (o : Operation) (s : State H) where
    -- A refusal before the mutex is taken
    refused :
        (err : ℕ)
        → Outcome has_place locked o s s err none
        → Returned has_place locked o s (some (s, (err, none)))
    refused err w = record {
      state = s;
      err = err;
      stored = none;
      returns = refl;
      keeps_link = refl;
      outcome = w;
    }

    serdes_op_locked-Returned :
        {t : Timing} (r : RunsOut b t) (fuel : ℕ)
        → is_bad has_place o ≡ false
        → locked ≡ 0
        → t.last_start_jiffy ≡ op_deadline b o (begun o s)
        → r.left s.hw < fuel
        → Returned has_place locked o s (serdes_op_locked b fuel o (held s))
    unfolding serdes_op_locked serdes_op_busy read64
    serdes_op_locked-Returned {t} r fuel good free e h =
        let s₁ = (serdes_op_busy b (held s)).0 in
        let (l₁, k₁, less₁) = busy-Keeps r (held s) in
        let (l₂, k₂, less₂) = begin-Keeps r o s₁ in
        let interval = flags_get_poll_interval o.flags in
        let (s₃, err, q, last, l₃, k₃) =
          serdes_op_poll-ends r fuel interval (begun o s) (omega (arith, less₁, less₂, h)) in
        let q' =
          subst (λ (j : ℕ). serdes_op_poll b fuel interval j (begun o s) ≡ some (s₃, err)) e q in
        let last' = subst (λ (j : ℕ). Last j s₃.hw err) e last in
        let (unlocked, kept) = finish-Keeps s₃ err in
        let let_go = λ (es : List Event). Event.unlock_serdes_mtx ∷ es in
        if_cases (Returned has_place locked o s) (shows_busy s.hw)
          (λ is_busy. record {
            state = (tell Event.unlock_serdes_mtx s₁).0;
            err = ebusy;
            stored = none;
            returns = refl;
            keeps_link = k₁;
            outcome = Outcome.busy good free is_busy (ap let_go l₁) refl;
          })
          (λ idle. rw q' (record {
            state = (serdes_op_finish b err s₃).0;
            err = (serdes_op_finish b err s₃).1.0;
            stored = (serdes_op_finish b err s₃).1.1;
            returns = refl;
            keeps_link = kept ∙ k₃ ∙ k₂ ∙ k₁;
            outcome =
                Outcome.started _ _ good free idle (unlocked ∙ ap let_go (l₃ ∙ l₂ ∙ l₁))
                  (finish-Result _ s₃ err last');
          }))

    -- sbl_pml_serdes_op returns, with any fuel above the time that is left until its deadline, and does
    -- not change the link. A bad argument gives -EINVAL and a wait for the mutex that is interrupted
    -- -ERESTARTSYS, both with nothing done. Otherwise the mutex is taken and let go of, once, and a
    -- processor that the first reading shows busy gives -EBUSY after this reading alone. An operation that is
    -- started gives 0 when the last poll shows it done, and then the data of one further reading is
    -- stored, or -ETIMEDOUT when the last poll shows it busy after the deadline; an error stores nothing.
    pub serdes_op-Returned :
        {t : Timing} (r : RunsOut b t) (fuel : ℕ)
        → t.last_start_jiffy ≡ op_deadline b o (begun o s)
        → r.left s.hw < fuel
        → Returned has_place locked o s (serdes_op b fuel has_place locked o s)
    unfolding serdes_op
    serdes_op-Returned r fuel e h =
        if_cases (Returned has_place locked o s) (not has_place)
          (λ z. refused einval (Outcome.bad_argument (ground arith) refl))
          (λ place.
            if_cases (Returned has_place locked o s) (o.timeout == 0)
              (λ z. refused einval (Outcome.bad_argument (ground arith) refl))
              (λ timeout.
                if_cases (Returned has_place locked o s) (flags_get_poll_interval o.flags == 0)
                  (λ z. refused einval (Outcome.bad_argument (ground arith) refl))
                  (λ interval.
                    if_cases (Returned has_place locked o s) (not (locked == 0))
                      (λ z.
                        refused erestartsys
                          (Outcome.interrupted (ground arith) (ground arith) refl))
                      (λ z. serdes_op_locked-Returned r fuel (ground arith) (ground arith) e h))))
