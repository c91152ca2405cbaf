-- ===== src/Pml/PcsWait/Ends.antt =====
-- The waits for the PCS come to an end, since the start timeout runs out.
use ss_sbl.Prelude.{
  ℕ, zero, suc, ◌+◌, ◌*◌, ◌≤◌, ◌<◌, ◌≡◌, refl, ◌∙◌, inl, inr, not, Bool-cases, ◌==◌, some, arith,
  if_rec, ==_iff,
}
use ss_sbl.Link.{Timing}
use ss_sbl.Link.Consts.{
  enolck, info_pcs_tx_rf, info_pcs_align_en, info_pcs_tx_am, info_pcs_up, info_pcs_a_wait,
  info_pcs_f_wait,
}
use ss_sbl.Pml.Regs.{Reg, Field}
use ss_sbl.Pml.{Board, State, P, write64, put, info_clear}
use ss_sbl.Pml.Pcs.{pcs_clear_tx_rf}
use ss_sbl.Pml.Waiting.{RunsOut}
use ss_sbl.Pml.PcsWait.Steps.{wait_loop-fail, wait_loop-done, wait_loop-again}
use ss_sbl.Pml.PcsWait.{alignment_wait, wait_loop, wait_out, pcs_wait, all_pcs_err_flgs}
use ss_sbl.Pml.PcsWait.Calm.{modify-Calm, Calm-trans, flush-Calm, start_lock-Calm}
use ss_sbl.Pml.PcsWait.Loops.{
  Kept, Kept-trans, Calm→Kept, EndsKept, info_set-Kept, info_clear-Kept, alignment_wait_ends,
}
use ss_sbl.Pml.PcsWait.Lost.{fault_clear_wait_lost}

module _ {H : Type 0} (b : Board H) {t : Timing} (r : RunsOut b t) where
  -- The rounds of sbl_pml_pcs_wait that are left come to an end, from any state with less time.
  abbrev pub RoundsEnd : ℕ → ℕ → Type 0
  RoundsEnd fuel rounds =
      (s : State H)
      → s.link.timing ≡ t
      → 2 * r.left s.hw + 2 ≤ fuel
      → r.left s.hw < rounds
      → EndsKept b r s (wait_loop b fuel rounds s)

  pub wait_loop_step :
      (fuel rounds : ℕ)
      → RoundsEnd fuel rounds
      → (s : State H) → s.link.timing ≡ t
      → 2 * r.left s.hw + 2 ≤ fuel
      → r.left s.hw < suc rounds
      → (err : ℕ) (s₁ : State H) → alignment_wait b fuel s ≡ some (s₁, err)
      → Kept b r s s₁
      → EndsKept b r s (wait_loop b fuel (suc rounds) s)
  wait_loop_step fuel rounds ih s e h k (suc err) s₁ q kept =
      (s₁, suc err, wait_loop-fail b fuel rounds s err q, kept)
  wait_loop_step fuel rounds ih s e h k zero s₁ q kept =
      let (s₂, err, p, kept', lost) =
        fault_clear_wait_lost b r fuel s₁ (kept.same ∙ e) (omega (arith, kept.less)) in
      let all = Kept-trans b r kept kept' in
      elim (Bool-cases (err == enolck)) [
        | inr other ↦ (s₂, err, wait_loop-done b fuel rounds s err q p other, all)
        | inl gone ↦
            let falls = lost ((==_iff err enolck).0 gone) in
            let (s₃, err', p', kept'') =
              ih s₂ (all.same ∙ e) (omega (arith, all.less)) (omega (arith, kept.less)) in
            (s₃, err', wait_loop-again b fuel rounds s err q p gone ∙ p', Kept-trans b r all kept'')
      ]

  pub wait_loop_ends : (fuel rounds : ℕ) → RoundsEnd fuel rounds
  wait_loop_ends fuel zero s e h k = absurd (omega arith)
  wait_loop_ends fuel (suc rounds) s e h k =
      let (s₁, err, q, kept) = alignment_wait_ends b r fuel s e h in
      wait_loop_step fuel rounds (wait_loop_ends fuel rounds) s e h k err s₁ q kept

  pub write64-Kept : (reg : Reg) (v : ℕ) (s : State H) → Kept b r s (write64 b reg v s).0
  unfolding write64
  write64-Kept reg v s = record { same = refl; less = r.left_write reg v s.hw }

  pub clear_tx_rf-Kept : (s : State H) → Kept b r s (pcs_clear_tx_rf b s).0
  unfolding pcs_clear_tx_rf
  clear_tx_rf-Kept s =
      Kept-trans b r
        (Calm→Kept b r (
          Calm-trans b r (modify-Calm b r Reg.dbg_pcs quiet_value s)
            (flush-Calm b r Reg.dbg_pcs _)))
        (info_clear-Kept b r info_pcs_tx_rf _)
    where
      quiet_value : ℕ → ℕ
      quiet_value v = put b Field.dbg_force_tx_data_rf 0 (put b Field.dbg_force_tx_data 0 v)

  pub wait_out-Kept : (err : ℕ) (s : State H) → Kept b r s (wait_out b err s).0
  unfolding wait_out
  wait_out-Kept err s =
      let k₁ = info_clear-Kept b r info_pcs_align_en s in
      let k₂ = Kept-trans b r k₁ (info_clear-Kept b r info_pcs_a_wait _) in
      let k₃ = Kept-trans b r k₂ (info_clear-Kept b r info_pcs_f_wait _) in
      if_rec (λ (m : P H ℕ). Kept b r s (m (cleared s)).0) (not (err == 0)) k₃
        (Kept-trans b r (Kept-trans b r k₃ (write64-Kept Reg.err_clr all_pcs_err_flgs (cleared s)))
          (Kept-trans b r (info_clear-Kept b r info_pcs_tx_am _) (info_set-Kept b r info_pcs_up _)))
    where
      cleared : State H → State H
      cleared v =
          (info_clear info_pcs_f_wait
            (info_clear info_pcs_a_wait (info_clear info_pcs_align_en v).0).0).0

  -- sbl_pml_pcs_wait returns, with any fuel above twice the time that is left until the start timeout
  -- plus two: whatever the hardware shows and however often the alignment is lost.
  pub pcs_wait_ends :
      (fuel : ℕ) (s : State H)
      → s.link.timing ≡ t
      → 2 * r.left s.hw + 2 ≤ fuel
      → (s' : State H) × (err : ℕ) × (pcs_wait b fuel s ≡ some (s', err))
        × (r.left s'.hw ≤ r.left s.hw)
        × (s'.link.timing ≡ s.link.timing)
  unfolding pcs_wait
  pcs_wait_ends fuel s e h =
      let k = Kept-trans b r (Calm→Kept b r (start_lock-Calm b r s)) (clear_tx_rf-Kept _) in
      let (s', err, q, k') =
        wait_loop_ends fuel fuel _ (k.same ∙ e) (omega (arith, k.less)) (omega (arith, k.less)) in
      let all = Kept-trans b r (Kept-trans b r k k') (wait_out-Kept err s') in
      ((wait_out b err s').0, (wait_out b err s').1, rw (q, pcs_wait) refl, all.less, all.same)
