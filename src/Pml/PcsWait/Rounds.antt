-- ===== src/Pml/PcsWait/Rounds.antt =====
-- A round of the waits for the PCS loses time, or ends its loop.
use ss_sbl.Prelude.{
  ℕ, ◌+◌, ◌≤◌, ◌<◌, ◌≡◌, ◌≢◌, refl, ap, ◌∙◌, inl, inr, Bool, true, false, not, Bool-cases,
  if◌then◌else◌, ltb, ◌==◌, arith, if_rec,
}
use ss_sbl.Link.{Link, Timing}
use ss_sbl.Pml.{Board, State, P, timed_out, was_cancelled, now}
use ss_sbl.Pml.Pcs.{pcs_locked, pcs_aligned, pcs_no_faults}
use ss_sbl.Pml.Waiting.{Turn, RunsOut}
use ss_sbl.Pml.PcsWait.{
  FaultTurn, elapsed, short_pause, lock_late, lock_round, align_go_on, align_round, fault_pause,
  fault_free, fault_round,
}
use ss_sbl.Pml.PcsWait.Calm.{
  Calm, Later, pcs_locked-Later, pcs_aligned-Later, pcs_no_faults-Later, Later→Calm, Calm-trans,
  Calm-refl, pause-Calm, short_pause-Calm, lock_late-Calm, align_go_on-Calm,
}

-- The loop goes on after this turn, and not in its next phase.
abbrev pub goes_on : Turn → Bool
goes_on Turn.again = true
goes_on Turn.restart = true
goes_on _ = false

abbrev pub fault_goes_on : FaultTurn → Bool
fault_goes_on (FaultTurn.go count start) = true
fault_goes_on (FaultTurn.done err) = false

module _ {H : Type 0} (b : Board H) {t : Timing} (r : RunsOut b t) where
  -- What a round does: no time is gained, and if the loop goes on some was lost.
  pub record Step (s : State H) (p : State H × Bool) : Type 0 where
    pub same : p.0.link ≡ s.link
    pub less : r.left p.0.hw ≤ r.left s.hw
    pub falls : p.1 ≡ true → r.left p.0.hw < r.left s.hw

  pub not_late : (s : State H) → s.link.timing ≡ t → timed_out b s ≡ false → r.left s.hw ≢ 0
  unfolding timed_out
  not_late s e h z = let o = r.over s.hw z in cc

  pub Later-Step :
      {s s' s'' : State H} (go : Bool)
      → Later b r s s'
      → r.left s'.hw ≢ 0
      → Calm b r s' s''
      → Step s (s'', go)
  Later-Step go l n c = record {
    same = c.same ∙ l.same;
    less = omega (arith, c.less, l.less);
    falls = λ h. omega (arith, c.less, l.less);
  }

  pub stops : {s s' : State H} → Later b r s s' → Step s (s', false)
  stops l = record { same = l.same; less = omega (arith, l.less); falls = λ h. absurd (cc) }

  pub lock_round-Step :
      (start : ℕ) (s : State H)
      → s.link.timing ≡ t
      → Step s ((lock_round b start s).0, goes_on (lock_round b start s).1)
  unfolding lock_round
  lock_round-Step start s e =
      let s₁ = (pcs_locked b s).0 in
      let l₁ = pcs_locked-Later b r s in
      if_rec (λ (m : P H Turn). Step s ((m s₁).0, goes_on (m s₁).1)) (pcs_locked b s).1 (stops l₁)
        (elim (Bool-cases (timed_out b s₁)) [
          | inl late ↦ rw late (stops l₁)
          | inr early ↦
              let pos = not_late s₁ (ap (λ (k : Link). k.timing) l₁.same ∙ e) early in
              rw early (
                if_rec (λ (m : P H Turn). Step s ((m s₁).0, goes_on (m s₁).1)) (was_cancelled b s₁)
                  (stops l₁)
                  (if_rec (λ (m : P H Turn). Step s ((m s₁).0, goes_on (m s₁).1))
                    (ltb 1000 (elapsed b start s₁))
                    (Later-Step (goes_on (lock_late b s₁).1) l₁ pos (lock_late-Calm b r s₁))
                    (Later-Step (goes_on (short_pause b (elapsed b start s₁) s₁).1) l₁ pos
                      (short_pause-Calm b r (elapsed b start s₁) s₁))))
        ])

  pub align_round-Step :
      (start : ℕ) (s : State H)
      → s.link.timing ≡ t
      → Step s ((align_round b start s).0, goes_on (align_round b start s).1)
  unfolding align_round
  align_round-Step start s e =
      let s₁ = (pcs_aligned b s).0 in
      let l₁ = pcs_aligned-Later b r s in
      if_rec (λ (m : P H Turn). Step s ((m s₁).0, goes_on (m s₁).1)) (pcs_aligned b s).1 (stops l₁)
        (elim (Bool-cases (timed_out b s₁)) [
          | inl late ↦ rw late (stops l₁)
          | inr early ↦
              let pos = not_late s₁ (ap (λ (k : Link). k.timing) l₁.same ∙ e) early in
              rw early (
                if_rec (λ (m : P H Turn). Step s ((m s₁).0, goes_on (m s₁).1)) (was_cancelled b s₁)
                  (stops l₁)
                  (Later-Step (goes_on (align_go_on b start s₁).1) l₁ pos
                    (align_go_on-Calm b r start s₁)))
        ])

  pub Before-Step :
      {s s' s'' : State H} (go : Bool)
      → r.left s.hw ≢ 0
      → Later b r s s'
      → Calm b r s' s''
      → Step s (s'', go)
  Before-Step go n l c = record {
    same = c.same ∙ l.same;
    less = omega (arith, c.less, l.less);
    falls = λ h. omega (arith, c.less, l.less);
  }

  pub stays : (s : State H) → Step s (s, false)
  stays s = record { same = refl; less = omega arith; falls = λ h. absurd (cc) }

  pub fault_pause-Calm :
      (count start : ℕ) (s : State H) → Calm b r s (fault_pause b count start s).0
  unfolding fault_pause
  fault_pause-Calm count start s =
      let ms = elapsed b start s in
      pause-Calm b r (if ltb 5000 ms then 1000000 else if ltb 100 ms then 100000 else 10000) s

  pub fault_free-Calm : (count : ℕ) (s : State H) → Calm b r s (fault_free b count s).0
  unfolding fault_free
  fault_free-Calm count s =
      if_rec (λ (m : P H FaultTurn). Calm b r s (m s).0) (count + 1 == 2) (Calm-refl b r s)
        (fault_pause-Calm (count + 1) (now b s) s)

  pub fault_round-Step :
      (count start : ℕ) (s : State H)
      → s.link.timing ≡ t
      → Step s ((fault_round b count start s).0, fault_goes_on (fault_round b count start s).1)
  unfolding fault_round
  fault_round-Step count start s e =
      let s₁ = (pcs_aligned b s).0 in
      let s₂ = (pcs_no_faults b s₁).0 in
      let l₁ = pcs_aligned-Later b r s in
      let c₂ = Later→Calm b r (pcs_no_faults-Later b r s₁) in
      elim (Bool-cases (timed_out b s)) [
        | inl late ↦ rw late (stays s)
        | inr early ↦
            let n = not_late s e early in
            rw early (
              if_rec (λ (m : P H FaultTurn). Step s ((m s).0, fault_goes_on (m s).1))
                (was_cancelled b s) (stays s)
                (if_rec (λ (m : P H FaultTurn). Step s ((m s₁).0, fault_goes_on (m s₁).1))
                  (not (pcs_aligned b s).1) (stops l₁)
                  (if_rec (λ (m : P H FaultTurn). Step s ((m s₂).0, fault_goes_on (m s₂).1))
                    (pcs_no_faults b s₁).1
                    (Before-Step (fault_goes_on (fault_free b count s₂).1) n l₁
                      (Calm-trans b r c₂ (fault_free-Calm count s₂)))
                    (Before-Step (fault_goes_on (fault_pause b 0 start s₂).1) n l₁
                      (Calm-trans b r c₂ (fault_pause-Calm 0 start s₂))))))
      ]
