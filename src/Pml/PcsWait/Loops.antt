-- ===== src/Pml/PcsWait/Loops.antt =====
-- The loops of the waits for the PCS end.
use ss_sbl.Prelude.{
  ℕ, zero, suc, ◌+◌, ◌*◌, ◌≤◌, ◌<◌, ◌≡◌, refl, ap, ◌∙◌, inl, inr, ltb, Option, some, arith, if_rec,
}
use ss_sbl.Link.{Link, Timing}
use ss_sbl.Link.Consts.{info_pcs_a_wait, info_pcs_f_wait}
use ss_sbl.BaseLink.{link_info_set, link_info_clear}
use ss_sbl.Pml.{Board, State, info_set, info_clear}
use ss_sbl.Pml.Waiting.{turn_cases, RunsOut}
use ss_sbl.Pml.PcsWait.{
  Phase, fault_turn_cases, lock_round, align_round, align_loop, flagged, alignment_wait,
  fault_round, fault_loop, fault_clear_wait,
}
use ss_sbl.Pml.PcsWait.Calm.{Calm, Calm-trans}
use ss_sbl.Pml.PcsWait.Rounds.{
  goes_on, fault_goes_on, lock_round-Step, align_round-Step, fault_round-Step,
}

module _ {H : Type 0} (b : Board H) {t : Timing} (r : RunsOut b t) where
  -- The fuel that a phase of the loops needs
  abbrev pub need : Phase → ℕ → ℕ
  need Phase.locking n = 2 * n + 2
  need Phase.aligning n = 2 * n + 1

  -- A wait that ends, with the link as it was and no time gained
  abbrev pub EndsFrom : State H → Option (State H × ℕ) → Type 0
  EndsFrom s o = (s' : State H) × (err : ℕ) × (o ≡ some (s', err)) × Calm b r s s'

  pub Ends-trans :
      {s s' : State H} (o : Option (State H × ℕ)) → Calm b r s s' → EndsFrom s' o → EndsFrom s o
  Ends-trans o c (s'', err, e, d) = (s'', err, e, Calm-trans b r c d)

  pub align_loop_ends :
      (fuel : ℕ) (p : Phase) (start : ℕ) (s : State H)
      → s.link.timing ≡ t
      → need p (r.left s.hw) ≤ fuel
      → EndsFrom s (align_loop b fuel p start s)
  unfolding align_loop
  align_loop_ends zero Phase.locking start s e h = absurd (omega arith)
  align_loop_ends zero Phase.aligning start s e h = absurd (omega arith)
  align_loop_ends (suc fuel) Phase.locking start s e h =
      let s' = (lock_round b start s).0 in
      let step = lock_round-Step b r start s e in
      let e' : s'.link.timing ≡ t = ap (λ (k : Link). k.timing) step.same ∙ e in
      let c : Calm b r s s' = record { same = step.same; less = step.less } in
      elim (turn_cases (lock_round b start s).1) [
        | inl (err, q) ↦ rw (q, align_loop) (s', err, refl, c)
        | inr (inl q) ↦
            let falls = step.falls (ap goes_on q) in
            rw (q, align_loop)
              (Ends-trans _ c (align_loop_ends fuel Phase.locking start s' e' (omega arith)))
        | inr (inr (inl q)) ↦
            rw (q, align_loop)
              (Ends-trans _ c (
                align_loop_ends fuel Phase.aligning (b.jiffies s'.hw) s' e'
                  (omega (arith, step.less))))
        | inr (inr (inr q)) ↦
            let falls = step.falls (ap goes_on q) in
            rw (q, align_loop)
              (Ends-trans _ c
                (align_loop_ends fuel Phase.locking (b.jiffies s'.hw) s' e' (omega arith)))
      ]
  align_loop_ends (suc fuel) Phase.aligning start s e h =
      let s' = (align_round b start s).0 in
      let step = align_round-Step b r start s e in
      let e' : s'.link.timing ≡ t = ap (λ (k : Link). k.timing) step.same ∙ e in
      let c : Calm b r s s' = record { same = step.same; less = step.less } in
      elim (turn_cases (align_round b start s).1) [
        | inl (err, q) ↦ rw (q, align_loop) (s', err, refl, c)
        | inr (inl q) ↦
            let falls = step.falls (ap goes_on q) in
            rw (q, align_loop)
              (Ends-trans _ c (align_loop_ends fuel Phase.aligning start s' e' (omega arith)))
        | inr (inr (inl q)) ↦ rw (q, align_loop) (s', 0, refl, c)
        | inr (inr (inr q)) ↦
            let falls = step.falls (ap goes_on q) in
            rw (q, align_loop)
              (Ends-trans _ c
                (align_loop_ends fuel Phase.locking (b.jiffies s'.hw) s' e' (omega arith)))
      ]

  pub fault_loop_ends :
      (fuel count start : ℕ) (s : State H)
      → s.link.timing ≡ t
      → r.left s.hw < fuel
      → EndsFrom s (fault_loop b fuel count start s)
  unfolding fault_loop
  fault_loop_ends zero count start s e h = absurd (omega arith)
  fault_loop_ends (suc fuel) count start s e h =
      let s' = (fault_round b count start s).0 in
      let step = fault_round-Step b r count start s e in
      let e' : s'.link.timing ≡ t = ap (λ (k : Link). k.timing) step.same ∙ e in
      let c : Calm b r s s' = record { same = step.same; less = step.less } in
      elim (fault_turn_cases (fault_round b count start s).1) [
        | inl (err, q) ↦ rw (q, fault_loop) (s', err, refl, c)
        | inr (count', start', q) ↦
            let falls = step.falls (ap fault_goes_on q) in
            rw (q, fault_loop)
              (Ends-trans _ c (fault_loop_ends fuel count' start' s' e' (omega arith)))
      ]

  -- The timing of the link is as it was, and no time is gained.
  pub record Kept (s s' : State H) : Type 0 where
    pub same : s'.link.timing ≡ s.link.timing
    pub less : r.left s'.hw ≤ r.left s.hw

  pub Kept-trans : {s s' s'' : State H} → Kept s s' → Kept s' s'' → Kept s s''
  Kept-trans c d = record { same = d.same ∙ c.same; less = omega (arith, c.less, d.less) }

  pub Calm→Kept : {s s' : State H} → Calm b r s s' → Kept s s'
  Calm→Kept c = record { same = ap (λ (k : Link). k.timing) c.same; less = c.less }

  abbrev pub EndsKept : State H → Option (State H × ℕ) → Type 0
  EndsKept s o = (s' : State H) × (err : ℕ) × (o ≡ some (s', err)) × Kept s s'

  pub EndsKept-trans :
      {s s' : State H} (o : Option (State H × ℕ)) → Kept s s' → EndsKept s' o → EndsKept s o
  EndsKept-trans o c (s'', err, e, d) = (s'', err, e, Kept-trans c d)

  pub info_set-Kept : (bit : ℕ) (s : State H) → Kept s (info_set bit s).0
  unfolding link_info_set
  info_set-Kept bit s = record {
    same = if_rec (λ (k : Link). k.timing ≡ s.link.timing) (ltb bit 17) refl refl;
    less = omega arith;
  }

  pub info_clear-Kept : (bit : ℕ) (s : State H) → Kept s (info_clear bit s).0
  unfolding link_info_clear
  info_clear-Kept bit s = record {
    same = if_rec (λ (k : Link). k.timing ≡ s.link.timing) (ltb bit 17) refl refl;
    less = omega arith;
  }

  pub flagged_ends :
      (info : ℕ) (wait : State H → Option (State H × ℕ)) (s : State H)
      → EndsFrom (info_set info s).0 (wait (info_set info s).0)
      → EndsKept s (flagged b info wait s)
  unfolding flagged
  flagged_ends info wait s (s', err, q, c) =
      rw (q, flagged)
        (
          (info_clear info s').0,
          err,
          refl,
          Kept-trans (info_set-Kept info s) (Kept-trans (Calm→Kept c) (info_clear-Kept info s')),
        )

  pub alignment_wait_ends :
      (fuel : ℕ) (s : State H)
      → s.link.timing ≡ t
      → 2 * r.left s.hw + 2 ≤ fuel
      → EndsKept s (alignment_wait b fuel s)
  unfolding alignment_wait
  alignment_wait_ends fuel s e h =
      let k = info_set-Kept info_pcs_a_wait s in
      flagged_ends info_pcs_a_wait (align_loop b fuel Phase.locking (b.jiffies s.hw)) s (
        align_loop_ends fuel Phase.locking (b.jiffies s.hw) (info_set info_pcs_a_wait s).0
          (k.same ∙ e) (omega (arith, k.less)))

  pub fault_clear_wait_ends :
      (fuel : ℕ) (s : State H)
      → s.link.timing ≡ t
      → r.left s.hw < fuel
      → EndsKept s (fault_clear_wait b fuel s)
  unfolding fault_clear_wait
  fault_clear_wait_ends fuel s e h =
      let k = info_set-Kept info_pcs_f_wait s in
      flagged_ends info_pcs_f_wait (fault_loop b fuel 0 (b.jiffies s.hw)) s (
        fault_loop_ends fuel 0 (b.jiffies s.hw) (info_set info_pcs_f_wait s).0 (k.same ∙ e)
          (omega (arith, k.less)))
