-- ===== src/Pml/Intr/Subset.antt =====
-- Which flags the interrupt handler of a port can be enabled and disabled for.
use ss_sbl.Prelude.{
  ℕ, ◌<◌, ◌≡◌, ◌≢◌, ap, ◌∙◌, inl, inr, true, false, ◌==◌, Bool-cases, if_true, if_false, test_bit,
  word_and_not, test_bit-word_and_not, test_bit-zero, word_and_not-zero, word_and-nonzero,
  word_and-common, arith,
}
use ss_sbl.Link.Consts.{einval}
use ss_sbl.Pml.{Board, State, P, IntrOp, return}
use ss_sbl.Pml.Intr.{flags_refused, change_intr_handler, intr_op}

-- Every one of these flags is installed, and there is one.
pub record Installed (flags installed : ℕ) : Type 0 where
  pub all : (k : ℕ) → k < 64 → test_bit k flags ≡ true → test_bit k installed ≡ true
  pub first : ℕ
  pub in_word : first < 64
  pub is_set : test_bit first flags ≡ true

flags_refused-Installed :
    (flags installed : ℕ) → Installed flags installed → flags_refused flags installed ≡ false
unfolding flags_refused
flags_refused-Installed flags installed i =
    let none_left = word_and_not-zero 64 flags installed i.all in
    let some_left =
      word_and-nonzero 64 flags installed i.first i.in_word i.is_set
        (i.all i.first i.in_word i.is_set) in
    ground arith

Installed-flags_refused :
    (flags installed : ℕ) → flags_refused flags installed ≡ false → Installed flags installed
unfolding flags_refused
Installed-flags_refused flags installed h =
    let none_left : word_and_not 64 flags installed ≡ 0 = ground arith in
    let (k, lt, a, c) = word_and-common 64 flags installed (λ z. absurd (ground arith)) in
    record {
      all = λ j l e.
          (let bit = test_bit-word_and_not 64 j flags installed l in
            let zero_bit = ap (test_bit j) none_left ∙ test_bit-zero j in ground arith);
      first = k;
      in_word = lt;
      is_set = a;
    }

not-Installed :
    (flags installed : ℕ) → ¬ Installed flags installed → flags_refused flags installed ≡ true
not-Installed flags installed bad_set = elim (Bool-cases (flags_refused flags installed)) [
  | inl bad ↦ bad
  | inr good ↦ absurd (bad_set (Installed-flags_refused flags installed good))
]

module _ {H : Type 0} (b : Board H) where
  -- While a handler is installed, a request to enable or disable it for some flags reaches the instance
  -- where the flags are all installed and at least one is set, and is refused with -EINVAL, changing
  -- nothing, where they are not.
  pub change_intr_handler_lem :
      (op : IntrOp) (flags : ℕ) (s : State H)
      → s.link.intr_err_flgs ≢ 0
      → (Installed flags s.link.intr_err_flgs
          → change_intr_handler b op flags s ≡ intr_op b op flags s)
        × (¬ Installed flags s.link.intr_err_flgs → change_intr_handler b op flags s ≡ (s, einval))
  unfolding change_intr_handler
  change_intr_handler_lem op flags s n =
      let used : (s.link.intr_err_flgs == 0) ≡ false = ground arith in
      (
        λ i.
            ap (λ (m : P H ℕ). m s)
              (if_false _ _ used
                ∙ if_false (return einval) (intr_op b op flags)
                    (flags_refused-Installed flags s.link.intr_err_flgs i)),
        λ bad_set.
            ap (λ (m : P H ℕ). m s)
              (if_false _ _ used
                ∙ if_true (return einval) (intr_op b op flags)
                    (not-Installed flags s.link.intr_err_flgs bad_set)),
      )
