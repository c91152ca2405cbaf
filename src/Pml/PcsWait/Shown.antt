-- ===== src/Pml/PcsWait/Shown.antt =====
-- What the information on a link shows after sbl_pml_pcs_wait (drivers/net/ethernet/hpe/sbl/sbl_pml_pcs.c).
use ss_sbl.Prelude.{
  ℕ, ◌≡◌, ◌≢◌, refl, ◌∙◌, inl, inr, true, false, Bool-cases, ◌==◌, test_bit, set_bit, clear_bit,
  test_bit-clear_bit, test_bit-clear_bit_ne, test_bit-set_bit, test_bit-set_bit_ne, arith,
}
use ss_sbl.BaseLink.{link_info_set, link_info_clear}
use ss_sbl.Link.Consts.{
  info_pcs_f_wait, info_pcs_a_wait, info_pcs_align_en, info_pcs_up, info_pcs_tx_am,
}
use ss_sbl.Pml.{Board, State, write64}
use ss_sbl.Pml.PcsWait.{wait_out}

-- What sbl_pml_pcs_wait leaves in the information on the link: no stage is shown, and the PCS is shown
-- as up, and no longer as sending only markers, where it has succeeded.
abbrev pub Shown : ℕ → ℕ → Type 0
Shown err info =
    (test_bit info_pcs_align_en info ≡ false)
    × (test_bit info_pcs_a_wait info ≡ false)
    × (test_bit info_pcs_f_wait info ≡ false)
    × (err ≡ 0 → (test_bit info_pcs_up info ≡ true) × (test_bit info_pcs_tx_am info ≡ false))

module _ {H : Type 0} (b : Board H) where
  -- The flags of the stages are cleared.
  stages_cleared :
      (i : ℕ)
      → let c =
          clear_bit info_pcs_f_wait (clear_bit info_pcs_a_wait (clear_bit info_pcs_align_en i)) in
        (test_bit info_pcs_align_en c ≡ false)
        × (test_bit info_pcs_a_wait c ≡ false)
        × (test_bit info_pcs_f_wait c ≡ false)
  stages_cleared i =
      let a = clear_bit info_pcs_align_en i in
      (
        test_bit-clear_bit_ne info_pcs_align_en info_pcs_f_wait (clear_bit info_pcs_a_wait a)
              (omega arith)
            ∙ test_bit-clear_bit_ne info_pcs_align_en info_pcs_a_wait a (omega arith)
            ∙ test_bit-clear_bit info_pcs_align_en i,
        test_bit-clear_bit_ne info_pcs_a_wait info_pcs_f_wait (clear_bit info_pcs_a_wait a)
              (omega arith)
            ∙ test_bit-clear_bit info_pcs_a_wait a,
        test_bit-clear_bit info_pcs_f_wait (clear_bit info_pcs_a_wait a),
      )

  -- The flags that say that the PCS is up do not touch another.
  up_keeps :
      (j i : ℕ)
      → j ≢ info_pcs_up
      → j ≢ info_pcs_tx_am
      → test_bit j (set_bit info_pcs_up (clear_bit info_pcs_tx_am i)) ≡ test_bit j i
  up_keeps j i n m =
      test_bit-set_bit_ne j info_pcs_up (clear_bit info_pcs_tx_am i) n
      ∙ test_bit-clear_bit_ne j info_pcs_tx_am i m

  pub wait_out-Shown :
      (e : ℕ) (v : State H) → Shown (wait_out b e v).1 (wait_out b e v).0.link.link_info
  unfolding wait_out link_info_set link_info_clear write64
  wait_out-Shown e v =
      let c =
        clear_bit info_pcs_f_wait
          (clear_bit info_pcs_a_wait (clear_bit info_pcs_align_en v.link.link_info)) in
      let (a, w, f) = stages_cleared v.link.link_info in
      elim (Bool-cases (e == 0)) [
        | inr failed ↦ rw failed (a, w, f, λ z. absurd (ground arith))
        | inl fine ↦ rw fine (
          up_keeps info_pcs_align_en c (omega arith) (omega arith) ∙ a,
          up_keeps info_pcs_a_wait c (omega arith) (omega arith) ∙ w,
          up_keeps info_pcs_f_wait c (omega arith) (omega arith) ∙ f,
          λ z. (
            test_bit-set_bit info_pcs_up (clear_bit info_pcs_tx_am c),
            test_bit-set_bit_ne info_pcs_tx_am info_pcs_up (clear_bit info_pcs_tx_am c)
                  (omega arith)
                ∙ test_bit-clear_bit info_pcs_tx_am c,
          ),
        )
      ]

  pub wait_out-err : (e : ℕ) (v : State H) → (wait_out b e v).1 ≡ e
  unfolding wait_out
  wait_out-err e v = elim (Bool-cases (e == 0)) [
    | inl fine ↦ rw fine (ground arith)
    | inr failed ↦ rw failed refl
  ]
