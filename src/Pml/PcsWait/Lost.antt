-- ===== src/Pml/PcsWait/Lost.antt =====
-- The wait for the faults to clear loses time when the alignment is lost.
use ss_sbl.Prelude.{
  ℕ, zero, suc, ◌<◌, ◌≡◌, ap, subst, ◌∙◌, inl, inr, not, Bool-cases, some, arith, if_rec, some_pair,
}
use ss_sbl.Link.{Link, Timing}
use ss_sbl.Link.Consts.{enolck, info_pcs_f_wait}
use ss_sbl.Pml.{Board, State, P, timed_out, was_cancelled, info_set, info_clear}
use ss_sbl.Pml.Pcs.{pcs_aligned, pcs_no_faults}
use ss_sbl.Pml.Waiting.{RunsOut}
use ss_sbl.Pml.PcsWait.Steps.{flagged-some}
use ss_sbl.Pml.PcsWait.{FaultTurn, fault_turn_cases, fault_round, fault_loop, fault_clear_wait}
use ss_sbl.Pml.PcsWait.Calm.{pcs_aligned-Later, pcs_no_faults-Later, Later→Calm}
use ss_sbl.Pml.PcsWait.Rounds.{not_late, fault_pause-Calm, fault_free-Calm, fault_round-Step}
use ss_sbl.Pml.PcsWait.Loops.{
  fault_loop_ends, Kept, Kept-trans, Calm→Kept, info_set-Kept, info_clear-Kept,
}

module _ {H : Type 0} (b : Board H) {t : Timing} (r : RunsOut b t) where
  -- Where the alignment is lost, time has gone by.
  pub fault_round_lost :
      (count start : ℕ) (s : State H)
      → s.link.timing ≡ t
      → (fault_round b count start s).1 ≡ FaultTurn.done enolck
      → r.left (fault_round b count start s).0.hw < r.left s.hw
  unfolding fault_round
  fault_round_lost count start s e =
      let s₁ = (pcs_aligned b s).0 in
      let s₂ = (pcs_no_faults b s₁).0 in
      let l₁ = pcs_aligned-Later b r s in
      let c₂ = Later→Calm b r (pcs_no_faults-Later b r s₁) in
      elim (Bool-cases (timed_out b s)) [
        | inl late ↦ rw late (λ q. absurd (cc))
        | inr early ↦
            let n = not_late b r s e early in
            rw early (
              if_rec
                (λ (m : P H FaultTurn).
                  (m s).1 ≡ FaultTurn.done enolck → r.left (m s).0.hw < r.left s.hw)
                (was_cancelled b s) (λ q. absurd (cc))
                (if_rec
                  (λ (m : P H FaultTurn).
                    (m s₁).1 ≡ FaultTurn.done enolck → r.left (m s₁).0.hw < r.left s.hw)
                  (not (pcs_aligned b s).1) (λ q. omega (arith, l₁.less))
                  (if_rec
                    (λ (m : P H FaultTurn).
                      (m s₂).1 ≡ FaultTurn.done enolck → r.left (m s₂).0.hw < r.left s.hw)
                    (pcs_no_faults b s₁).1
                    (λ q. omega (arith, l₁.less, c₂.less, (fault_free-Calm b r count s₂).less))
                    (λ q.
                      omega (arith, l₁.less, c₂.less, (fault_pause-Calm b r 0 start s₂).less)))))
      ]

  pub fault_loop_lost :
      (fuel count start : ℕ) (s : State H) {s' : State H}
      → s.link.timing ≡ t
      → fault_loop b fuel count start s ≡ some (s', enolck)
      → r.left s'.hw < r.left s.hw
  unfolding fault_loop
  fault_loop_lost zero count start s e h = absurd (cc)
  fault_loop_lost (suc fuel) count start s {s'} e h =
      let v = (fault_round b count start s).0 in
      let step = fault_round-Step b r count start s e in
      let e' : v.link.timing ≡ t = ap (λ (k : Link). k.timing) step.same ∙ e in
      elim (fault_turn_cases (fault_round b count start s).1) [
        | inl (err, q) ↦
            let p : some (v, err) ≡ some (s', enolck) = rw (q, fault_loop) at h in
            let lost = fault_round_lost count start s e (q ∙ ap FaultTurn.done (some_pair p).1) in
            subst (λ (k : State H). r.left k.hw < r.left s.hw) (some_pair p).0 lost
        | inr (count', start', q) ↦
            let p : fault_loop b fuel count' start' v ≡ some (s', enolck) =
              rw (q, fault_loop) at h in
            omega (arith, step.less, fault_loop_lost fuel count' start' v e' p)
      ]

  pub fault_clear_wait_lost :
      (fuel : ℕ) (s : State H)
      → s.link.timing ≡ t
      → r.left s.hw < fuel
      → (s' : State H) × (err : ℕ) × (fault_clear_wait b fuel s ≡ some (s', err))
        × Kept b r s s'
        × (err ≡ enolck → r.left s'.hw < r.left s.hw)
  unfolding fault_clear_wait
  fault_clear_wait_lost fuel s e h =
      let s₀ = (info_set info_pcs_f_wait s).0 in
      let k = info_set-Kept b r info_pcs_f_wait s in
      let (v, err, q, c) =
        fault_loop_ends b r fuel 0 (b.jiffies s.hw) s₀ (k.same ∙ e) (omega (arith, k.less)) in
      (
        (info_clear info_pcs_f_wait v).0,
        err,
        flagged-some b info_pcs_f_wait (fault_loop b fuel 0 (b.jiffies s.hw)) s q,
        Kept-trans b r k (Kept-trans b r (Calm→Kept b r c) (info_clear-Kept b r info_pcs_f_wait v)),
        λ lost.
            fault_loop_lost fuel 0 (b.jiffies s.hw) s₀ (k.same ∙ e)
              (q ∙ ap (λ (n : ℕ). some (v, n)) lost),
      )
