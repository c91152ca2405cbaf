-- ===== src/BaseLink/Frame.antt =====
-- What the calls of sbl_link.c leave alone: the functions of the serdes, the PML block and the
-- firmware do not set `blstate`, `blerr`, `blconfigured` or `debug_config` of the link record, and none of
-- them lets go of the link's busy mutex.
use ss_sbl.Prelude.{
  ℕ, ◌+◌, ◌≡◌, ◌≢◌, refl, ◌∙◌, Bool, true, false, List, [], ◌∷◌, Bool-cases, inl, inr, if_rec,
  arith, ◌==◌, if◌then◌else◌, ltb,
}
use ss_sbl.Link.{Link, core}
use ss_sbl.BaseLink.{
  Call, Env, World, call, call_, on_link, attempt, link_info_set, link_info_clear,
}

abbrev pub is_unlock : Call → Bool
is_unlock Call.unlock_busy_mtx = true
is_unlock _ = false

-- How often the busy mutex was let go of.
abbrev pub unlocks : List Call → ℕ
unlocks [] = 0
unlocks (c ∷ cs) = (if is_unlock c then 1 else 0) + unlocks cs

-- The law that the calls keep.
pub record Framed {H : Type 0} (env : Env H) : Type 0 where
  pub keeps_core : (c : Call) (h : H) (l : Link) → core (env.ops c h l).1 ≡ core l

-- The world `w` is one that calls have made of `o`: they have left the core of the link alone, and
-- have not let go of the mutex.
pub record Kept {H : Type 0} (o w : World H) : Type 0 where
  pub same : core w.link ≡ core o.link
  pub count : unlocks w.log ≡ unlocks o.log

-- The world of a result is one of `Q`.
pub record Holds {H : Type 0} (Q : World H → Type 0) (r : World H × ℕ) : Type 0 where
  pub holds : Q r.0

-- From every world of `Q`, the function `f` gives a result of `P`.
pub record Ends {H : Type 0} (Q : World H → Type 0) (P : World H × ℕ → Type 0)
    (f : World H → World H × ℕ) : Type 0 where
  pub ends : (w : World H) → Q w → P (f w)

-- So does the label `fail`, for every error.
pub record Fails {H : Type 0} (Q : World H → Type 0) (P : World H × ℕ → Type 0)
    (fail : ℕ → World H → World H × ℕ) : Type 0 where
  pub fails : (err : ℕ) (w : World H) → err ≢ 0 → Q w → P (fail err w)

-- What holds of a chain of stages, by what its stages do.
pub attempt-Ends :
    {H : Type 0} {Q : World H → Type 0} {P : World H × ℕ → Type 0} {m : World H → World H × ℕ}
    {fail : ℕ → World H → World H × ℕ} {next : World H → World H × ℕ}
    → Ends Q (Holds Q) m
    → Fails Q P fail
    → Ends Q P next
    → Ends Q P (attempt m fail next)
unfolding attempt
attempt-Ends {m = m} keeps label nexts = record {
  ends = λ w q. elim (Bool-cases ((m w).1 == 0)) [
    | inl good ↦ rw (good, attempt) (nexts.ends (m w).0 (keeps.ends w q).holds)
    | inr bad ↦
        rw (bad, attempt) (label.fails (m w).1 (m w).0 (ground arith) (keeps.ends w q).holds)
  ];
}

module _ {H : Type 0} (env : Env H) (framed : Framed env) (o : World H) where
  pub call-Kept :
      (c : Call) → is_unlock c ≡ false → (w : World H) → Kept o w → Kept o (call env c w).0
  unfolding call
  call-Kept c h w q = record {
    same = framed.keeps_core c w.hw w.link ∙ q.same;
    count = rw h (omega (arith, q.count));
  }

  pub call_-Kept :
      (c : Call) → is_unlock c ≡ false → (w : World H) → Kept o w → Kept o (call_ env c w)
  unfolding call_
  call_-Kept c h w q = let r = call-Kept c h w q in record { same = r.same; count = r.count }

  on_link-Kept :
      (f : Link → Link)
      → ((l : Link) → core (f l) ≡ core l)
      → (w : World H) → Kept o w
      → Kept o (on_link f w)
  on_link-Kept f same w q = record { same = same w.link ∙ q.same; count = q.count }

  pub info_set-Kept : (bit : ℕ) (w : World H) → Kept o w → Kept o (on_link (link_info_set bit) w)
  unfolding link_info_set
  info_set-Kept bit =
      on_link-Kept (link_info_set bit)
        (λ l. if_rec (λ (r : Link). core r ≡ core l) (ltb bit 17) refl refl)

  pub info_clear-Kept :
      (bit : ℕ) (w : World H) → Kept o w → Kept o (on_link (link_info_clear bit) w)
  unfolding link_info_clear
  info_clear-Kept bit =
      on_link-Kept (link_info_clear bit)
        (λ l. if_rec (λ (r : Link). core r ≡ core l) (ltb bit 17) refl refl)
