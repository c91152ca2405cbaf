-- ===== src/Debug.antt =====
-- The debug flags of a port: drivers/net/ethernet/hpe/sbl/sbl_debug.c. They are one atomic word, which
-- several threads update.
mod Tests
use ss_sbl.Prelude.{
  ℕ, zero, suc, ◌<◌, ◌≡◌, ◌≢◌, if_true, if_false, refl, ◌⊎◌, inl, inr, Bool, true, false, not, ◌||◌,
  ◌&&◌, ◌==◌, if◌then◌else◌, List, [], ◌∷◌, Option, none, some, ap, ◌∙◌, arith, test_bit, word_or,
  word_and_not, test_bit-word_or, test_bit-word_and_not, Bool-cases, ==_iff, sym,
}
use ss_sbl.Link.{Link}
use ss_sbl.Link.Consts.{einval}
use ss_sbl.Media.{debug_option}

-- sbl_debug_clear_config
unfoldable pub debug_clear_config : Link → Link
debug_clear_config l = record l { debug_config = 0 }

-- sbl_debug_get_config: the error, and what it stores where it is given a place
unfoldable pub debug_get_config : Bool → Link → ℕ × Option ℕ
debug_get_config has_place l = if not has_place then (einval, none) else (0, some l.debug_config)

-- `(old & ~clear_flags) | set_flags`
unfoldable pub new_config : ℕ → ℕ → ℕ → ℕ
new_config clear set old = word_or 32 (word_and_not 32 old clear) set

-- sbl_debug_update_config. A round of its loop finds the word at its read and at its exchange; between
-- them another thread may have stored a word. The exchange replaces the word that it finds.
unfoldable pub debug_update_config : ℕ → ℕ → List (ℕ × ℕ) → Link → Option Link
debug_update_config clear set [] l = none
debug_update_config clear set ((old, found) ∷ rounds) l =
    let rest = debug_update_config clear set rounds l in
    if found == old then some (record l { debug_config = new_config clear set old }) else rest

-- The exchange that succeeds finds this word.
abbrev pub Found : ℕ → List (ℕ × ℕ) → Type 0
Found w [] = ⊥
Found w ((old, found) ∷ rounds) = ((found ≡ old) × (w ≡ found)) ⊎ ((found ≢ old) × Found w rounds)

new_config-option :
    (clear set w k : ℕ) (l : Link)
    → k < 32
    → debug_option k (record l { debug_config = new_config clear set w })
      ≡ (debug_option k (record l { debug_config = w }) && not (test_bit k clear) || test_bit k set)
unfolding debug_option new_config
new_config-option clear set w k l h =
    test_bit-word_or 32 k (word_and_not 32 w clear) set h
    ∙ ap (λ t. t || test_bit k set) (test_bit-word_and_not 32 k w clear h)

-- An update ends in the first round in which no other thread comes between the read and the exchange.
-- Then a flag is on if the update sets it, or if it was on in the word that the exchange replaces and
-- the update does not clear it: what another thread has stored before is not lost.
pub debug_update_config_lem :
    (clear set w : ℕ) (rounds : List (ℕ × ℕ)) (l : Link)
    → Found w rounds
    → (l' : Link) × (debug_update_config clear set rounds l ≡ some l')
      × ((k : ℕ)
          → k < 32
          → debug_option k l' ≡ (
              debug_option k (record l { debug_config = w }) && not (test_bit k clear)
              || test_bit k set))
unfolding debug_update_config
debug_update_config_lem clear set w [] l f = absurd f
debug_update_config_lem clear set w ((old, found) ∷ rounds) l (inl (e, same)) = (
  record l { debug_config = new_config clear set w },
  if_true _ _ ((==_iff found old).1 e)
      ∙ ap (λ (o : ℕ). some (record l { debug_config = new_config clear set o })) (sym (same ∙ e)),
  λ k h. new_config-option clear set w k l h,
)
debug_update_config_lem clear set w ((old, found) ∷ rounds) l (inr (n, f)) =
    let (l', q, bits) = debug_update_config_lem clear set w rounds l f in
    (l', if_false {b = found == old} _ _ (ground arith) ∙ q, bits)
