-- ===== src/Autoneg/Retry.antt =====
-- How often sbl_link_autoneg tries (sbl_link_an.c).
use ss_sbl.Prelude.{
  ℕ, ◌+◌, ◌≡◌, ◌≤◌, ◌<◌, refl, ◌∙◌, ap, Bool, true, false, Bool-cases, inl, inr, not, Option, none,
  some, List, [], ◌∷◌, length, if_rec, ◌==◌, ltb, arith,
}
use ss_sbl.Link.{Link}
use ss_sbl.Link.Consts.{etime, etimedout, ecanceled, eproto}
use ss_sbl.Kernel.{Kernel}
use ss_sbl.Autoneg.Negotiate.{Attempt, Step, leave, again, attempt_step, attempt_result, negotiate}

-- The attempts made, and how many are allowed.
abbrev pub tries : Link → ℕ × ℕ
tries l = (l.an.try_count, l.blattr.an_max_retry)

-- An attempt whose exchange times out, and whose calls do not touch the count of attempts.
pub record TimesOut (a : Attempt) : Type 0 where
  pub exchange_err : (l : Link) → (a.exchange l).1 ≡ etime
  pub exchange_tries : (l : Link) → tries (a.exchange l).0 ≡ tries l
  pub start_tries : (l : Link) → tries (a.serdes_start l).0 ≡ tries l
  pub setup_tries : (l : Link) → tries (a.pml_setup l).0 ≡ tries l
  pub stop_tries : (l : Link) → tries (a.serdes_stop l) ≡ tries l

abbrev pub AllTimeOut : List Attempt → Type 0
AllTimeOut [] = Unit
AllTimeOut (a ∷ rest) = TimesOut a × AllTimeOut rest

abbrev pub gave_up : Option (Link × ℕ) → Bool
gave_up none = false
gave_up (some r) = true

-- The attempt leaves the loop, or it goes round again while attempts are left.
pub data Counts (l : Link) : Step → Type 0 where
  leaves : (l' : Link) (err : ℕ) → Counts l (leave l' err)
  counts :
      (l' : Link)
      → l'.an.try_count ≡ l.an.try_count + 1
      → l'.blattr.an_max_retry ≡ l.blattr.an_max_retry
      → l'.an.try_count < l.blattr.an_max_retry
      → Counts l (again l')

module _ (k : Kernel) (is_hw : Bool) where
  attempt_result-Counts :
      (a : Attempt) (l m : Link) (err : ℕ)
      → TimesOut a
      → err ≡ etime
      → m.an.try_count ≡ l.an.try_count + 1
      → m.blattr.an_max_retry ≡ l.blattr.an_max_retry
      → Counts l (attempt_result k is_hw a (m, err))
  unfolding attempt_result
  attempt_result-Counts a l m err out e count max =
      let not_proto : (err == eproto) ≡ false = ground arith in
      let is_time : (err == etime) ≡ true = ground arith in
      let stop = out.stop_tries m in
      elim (Bool-cases (ltb m.an.try_count m.blattr.an_max_retry)) [
        | inl more ↦
            rw (not_proto, is_time, more, attempt_result)
              (Counts.counts (a.serdes_stop m) (ap (λ t. t.0) stop ∙ count)
                (ap (λ t. t.1) stop ∙ max) (ground (arith, ap (λ t. t.0) stop)))
        | inr last ↦ rw (not_proto, is_time, last, attempt_result) (Counts.leaves m etime)
      ]

  attempt_step-Counts : (a : Attempt) (l : Link) → TimesOut a → Counts l (attempt_step k is_hw a l)
  unfolding attempt_step
  attempt_step-Counts a l out =
      let l₀ = record l { an = record (l.an) { try_count = l.an.try_count + 1 } } in
      let r₁ = a.serdes_start l₀ in
      let r₂ = a.pml_setup r₁.0 in
      let r₃ = a.exchange r₂.0 in
      let same : tries r₃.0 ≡ tries l₀ =
        out.exchange_tries r₂.0 ∙ out.setup_tries r₁.0 ∙ out.start_tries l₀ in
      if_rec (Counts l) a.timed_out (Counts.leaves l₀ etimedout) (
        if_rec (Counts l) a.cancelled (Counts.leaves l₀ ecanceled) (
          if_rec (Counts l) (not (r₁.1 == 0)) (Counts.leaves r₁.0 r₁.1) (
            if_rec (Counts l) (not (r₂.1 == 0)) (Counts.leaves r₂.0 r₂.1) (
              attempt_result-Counts a l r₃.0 r₃.1 out (out.exchange_err r₂.0) (ap (λ t. t.0) same)
                (ap (λ t. t.1) same)))))

  -- The loop ends, if the attempt leaves it, or if what follows does.
  by_step :
      (rest : List Attempt) (l : Link) (s : Step)
      → Counts l s
      → ((l' : Link)
          → l'.an.try_count ≡ l.an.try_count + 1
          → l'.blattr.an_max_retry ≡ l.blattr.an_max_retry
          → l'.an.try_count < l.blattr.an_max_retry
          → gave_up (negotiate k is_hw rest l') ≡ true)
      → gave_up (elim s as (λ _. Option (Link × ℕ)) [
        | leave l' err ↦ some (l', err)
        | again l' ↦ negotiate k is_hw rest l'
      ])
        ≡ true
  by_step rest l _ (Counts.leaves l' err) later = refl
  by_step rest l _ (Counts.counts l' one max more) later = later l' one max more

  -- With a partner that never answers, autonegotiation gives up after the configured number of attempts:
  -- when that many exchanges have timed out, and at least one, the loop has ended.
  pub negotiate_gives_up :
      (a : Attempt) (rest : List Attempt) (l : Link)
      → AllTimeOut (a ∷ rest)
      → l.blattr.an_max_retry ≤ l.an.try_count + length (a ∷ rest)
      → gave_up (negotiate k is_hw (a ∷ rest) l) ≡ true
  unfolding negotiate
  negotiate_gives_up a [] l all enough =
      by_step [] l _ (attempt_step-Counts a l all.0) (λ l' one max more. absurd (omega arith))
  negotiate_gives_up a (b ∷ rest) l all enough =
      by_step (b ∷ rest) l _ (attempt_step-Counts a l all.0)
        (λ l' one max more. negotiate_gives_up b rest l' all.1 (omega arith))
