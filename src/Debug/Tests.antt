-- ===== src/Debug/Tests.antt =====
-- An update of the debug flags that another thread gets ahead of once.
use ss_sbl.Prelude.{
  ℕ, ◌<◌, ◌≡◌, refl, not, ◌&&◌, ◌||◌, [], ◌∷◌, some, inl, inr, arith, test_bit, word_or,
  word_and_not,
}
use ss_sbl.Link.{Link}
use ss_sbl.Media.{debug_option}
use ss_sbl.Samples.{link_up}
use ss_sbl.Debug.{debug_update_config, debug_update_config_lem, new_config}

-- The word is 1 at the first read; another thread makes it 5.
debug_update_config_lem_example :
    (l' : Link) × (debug_update_config 1 8 ((1, 5) ∷ (5, 5) ∷ []) link_up ≡ some l')
    × ((k : ℕ)
        → k < 32
        → debug_option k l' ≡ (
            debug_option k (record link_up { debug_config = 5 }) && not (test_bit k 1)
            || test_bit k 8))
debug_update_config_lem_example =
    debug_update_config_lem 1 8 5 ((1, 5) ∷ (5, 5) ∷ []) link_up
      (inr (ground arith, inl (refl, refl)))

updated_word : new_config 1 8 5 ≡ 12
unfolding new_config word_or word_and_not
updated_word = refl
