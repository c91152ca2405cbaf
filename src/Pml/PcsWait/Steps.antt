-- ===== src/Pml/PcsWait/Steps.antt =====
-- The equations of the waits of sbl_pml_pcs.c, and what a result of theirs comes from.
use ss_sbl.Prelude.{
  ℕ, zero, suc, ◌≡◌, refl, sym, ap, ◌∙◌, true, false, ◌==◌, Option, none, some, Option-cases,
  some_pair, inl, inr, ◌⊎◌, Bool-cases,
}
use ss_sbl.Link.Consts.{enolck}
use ss_sbl.Pml.{Board, State, info_set, info_clear}
use ss_sbl.Pml.PcsWait.{flagged, alignment_wait, fault_clear_wait, wait_loop}

module _ {H : Type 0} (b : Board H) where
  pub flagged-some :
      (info : ℕ) (wait : State H → Option (State H × ℕ)) (s : State H) {v : State H} {err : ℕ}
      → wait (info_set info s).0 ≡ some (v, err)
      → flagged b info wait s ≡ some ((info_clear info v).0, err)
  unfolding flagged
  flagged-some info wait s q = rw (q, flagged) refl

  flagged-none :
      (info : ℕ) (wait : State H → Option (State H × ℕ)) (s : State H)
      → wait (info_set info s).0 ≡ none
      → flagged b info wait s ≡ none
  unfolding flagged
  flagged-none info wait s q = rw (q, flagged) refl

  pub flagged_inv :
      (info : ℕ) (wait : State H → Option (State H × ℕ)) (s : State H) {s' : State H} {err : ℕ}
      → flagged b info wait s ≡ some (s', err)
      → (v : State H) × (wait (info_set info s).0 ≡ some (v, err)) × (s' ≡ (info_clear info v).0)
  flagged_inv info wait s {s'} {err} h = elim (Option-cases (wait (info_set info s).0)) [
    | inl out ↦ absurd (cc (flagged-none info wait s out))
    | inr ((v, e), q) ↦
        let p = some_pair (sym (flagged-some info wait s q) ∙ h) in
        (v, q ∙ ap (λ (n : ℕ). some (v, n)) p.1, sym p.0)
  ]

  module _ (fuel rounds : ℕ) (s : State H) where
    wait_loop-none : alignment_wait b fuel s ≡ none → wait_loop b fuel (suc rounds) s ≡ none
    unfolding wait_loop
    wait_loop-none q = rw (q, wait_loop) refl

    module _ {s₁ : State H} where
      pub wait_loop-fail :
          (err : ℕ)
          → alignment_wait b fuel s ≡ some (s₁, suc err)
          → wait_loop b fuel (suc rounds) s ≡ some (s₁, suc err)
      unfolding wait_loop
      wait_loop-fail err q = rw (q, wait_loop) refl

      wait_loop-out :
          alignment_wait b fuel s ≡ some (s₁, 0)
          → fault_clear_wait b fuel s₁ ≡ none
          → wait_loop b fuel (suc rounds) s ≡ none
      unfolding wait_loop
      wait_loop-out q p = rw (q, p, wait_loop) refl

      pub wait_loop-done :
          {s₂ : State H} (err : ℕ)
          → alignment_wait b fuel s ≡ some (s₁, 0)
          → fault_clear_wait b fuel s₁ ≡ some (s₂, err)
          → (err == enolck) ≡ false
          → wait_loop b fuel (suc rounds) s ≡ some (s₂, err)
      unfolding wait_loop
      wait_loop-done err q p other = rw (q, p, other, wait_loop) refl

      pub wait_loop-again :
          {s₂ : State H} (err : ℕ)
          → alignment_wait b fuel s ≡ some (s₁, 0)
          → fault_clear_wait b fuel s₁ ≡ some (s₂, err)
          → (err == enolck) ≡ true
          → wait_loop b fuel (suc rounds) s ≡ wait_loop b fuel rounds s₂
      unfolding wait_loop
      wait_loop-again err q p gone = rw (q, p, gone, wait_loop) refl

      faults_inv :
          {s' : State H}
          → alignment_wait b fuel s ≡ some (s₁, 0)
          → wait_loop b fuel (suc rounds) s ≡ some (s', 0)
          → (fault_clear_wait b fuel s₁ ≡ some (s', 0))
            ⊎ ((s₂ : State H) × (wait_loop b fuel rounds s₂ ≡ some (s', 0)))
      faults_inv q h = elim (Option-cases (fault_clear_wait b fuel s₁)) [
        | inl out ↦ absurd (cc (wait_loop-out q out))
        | inr ((s₂, err), p) ↦ elim (Bool-cases (err == enolck)) [
          | inl gone ↦ inr (s₂, sym (wait_loop-again err q p gone) ∙ h)
          | inr other ↦ inl (p ∙ sym (wait_loop-done err q p other) ∙ h)
        ]
      ]

  -- The loop of sbl_pml_pcs_wait succeeds by a wait for faults to clear that does.
  pub wait_loop_inv :
      (fuel rounds : ℕ) (s : State H) {s' : State H}
      → wait_loop b fuel rounds s ≡ some (s', 0)
      → (s₁ : State H) × (fault_clear_wait b fuel s₁ ≡ some (s', 0))
  unfolding wait_loop
  wait_loop_inv fuel zero s h = absurd (cc)
  wait_loop_inv fuel (suc rounds) s {s'} h = elim (Option-cases (alignment_wait b fuel s)) [
    | inl out ↦ absurd (cc (wait_loop-none fuel rounds s out))
    | inr ((s₁, zero), q) ↦ elim (faults_inv fuel rounds s q h) [
      | inl p ↦ (s₁, p)
      | inr (s₂, p) ↦ wait_loop_inv fuel rounds s₂ p
    ]
    | inr ((s₁, suc err), q) ↦ absurd (cc (wait_loop-fail fuel rounds s err q))
  ]
