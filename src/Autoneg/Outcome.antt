-- ===== src/Autoneg/Outcome.antt =====
-- How the loop of sbl_link_autoneg ends (sbl_link_an.c).
use ss_sbl.Prelude.{
  ℕ, ◌+◌, ◌≡◌, ◌≢◌, ◌⊎◌, inl, inr, refl, sym, subst, Bool, true, false, Bool-cases, not, Option,
  none, some, List, [], ◌∷◌, if◌then◌else◌, if_rec, ◌==◌, ltb, test_bit, get_or, set, arith,
}
use ss_sbl.Link.{Link}
use ss_sbl.Link.Consts.{etimedout, ecanceled, eproto, etime, opt_autoneg_100cr4_fixup}
use ss_sbl.Kernel.{Kernel}
use ss_sbl.Autoneg.Resolve.{Matched, ability_match-Matched}
use ss_sbl.Autoneg.{resolve_mode, ability_match, fixup_100cr4, new_timeout}
use ss_sbl.Autoneg.Negotiate.{
  Attempt, Step, leave, again, an_update_timeout, attempt_match, with_fixup, attempt_fixup,
  attempt_result, attempt_step, negotiate,
}

-- One of the four link modes.
abbrev pub IsSpeed : ℕ → Type 0
IsSpeed mode = (mode ≡ 1) ⊎ (mode ≡ 2) ⊎ (mode ≡ 4) ⊎ (mode ≡ 8)

-- A success has found the partner and a link mode that both ends offer.
abbrev pub Negotiated : Link → ℕ → Type 0
Negotiated l err = ((err ≡ 0) × (l.lp_detected ≡ true) × IsSpeed l.link_mode) ⊎ (err ≢ 0)

pub data StepEnds : Step → Type 0 where
  left : (l : Link) (err : ℕ) → Negotiated l err → StepEnds (leave l err)
  repeats : (l : Link) → StepEnds (again l)

pub data Ends : Option (Link × ℕ) → Type 0 where
  goes_on : Ends none
  ended : (l : Link) (err : ℕ) → Negotiated l err → Ends (some (l, err))

resolve_mode-IsSpeed : (tx rx mode : ℕ) → resolve_mode tx rx ≡ some mode → IsSpeed mode
unfolding resolve_mode
resolve_mode-IsSpeed tx rx mode e = ground arith

-- The link as sbl_an_ability_match takes it without hardware: with its own base page for the partner's.
abbrev looped : Bool → Link → Link
looped true l = l
looped false l = record l {
  an = record (l.an) { rx_page = set l.an.rx_page 0 (get_or l.an.tx_page 0 0) };
}

ability_match-looped :
    (is_hw : Bool) (l : Link) → ability_match is_hw l ≡ ability_match true (looped is_hw l)
unfolding ability_match
ability_match-looped true l = refl
ability_match-looped false l = refl

ability_match-IsSpeed :
    (is_hw : Bool) (l : Link)
    → ((ability_match is_hw l).1 ≢ 0) ⊎ IsSpeed (ability_match is_hw l).0.link_mode
ability_match-IsSpeed is_hw l =
    let v = looped is_hw l in
    let tx = get_or v.an.tx_page 0 0 in
    let rx = get_or v.an.rx_page 0 0 in
    rw (ability_match-looped is_hw l) (
      speed (ability_match true v) (resolve_mode tx rx) (resolve_mode-IsSpeed tx rx)
        (ability_match-Matched v))
  where
    speed :
        (r : Link × ℕ) (o : Option ℕ)
        → ((mode : ℕ) → o ≡ some mode → IsSpeed mode)
        → Matched o r
        → (r.1 ≢ 0) ⊎ IsSpeed r.0.link_mode
    speed r none fast e = inl (λ z. absurd (omega arith))
    speed r (some mode) fast (z, e) = inr (subst (λ (x : ℕ). IsSpeed x) (sym e) (fast mode refl))

module _ (k : Kernel) (is_hw : Bool) where
  an_update_timeout-link_mode :
      (jiffies : ℕ) (l : Link) → (an_update_timeout k is_hw jiffies l).link_mode ≡ l.link_mode
  unfolding an_update_timeout
  an_update_timeout-link_mode jiffies l =
      if_rec (λ (m : Link). m.link_mode ≡ l.link_mode) (new_timeout l == 0) refl refl

  attempt_match-StepEnds : (jiffies : ℕ) (l : Link) → StepEnds (attempt_match k is_hw jiffies l)
  unfolding attempt_match
  attempt_match-StepEnds jiffies l =
      let r = ability_match is_hw l in
      elim (Bool-cases (r.1 == 0)) [
        | inr bad ↦ rw (bad, attempt_match) (StepEnds.repeats r.0)
        | inl good ↦ elim (ability_match-IsSpeed is_hw l) [
          | inl ne ↦ absurd (ground arith)
          | inr speed ↦
              rw (good, attempt_match)
                (StepEnds.left _ 0 (
                  inl (
                    refl,
                    refl,
                    subst (λ (x : ℕ). IsSpeed x) (sym (an_update_timeout-link_mode jiffies r.0))
                        speed,
                  )))
        ]
      ]

  attempt_fixup-StepEnds : (a : Attempt) (l : Link) → StepEnds (attempt_fixup k is_hw a l)
  unfolding attempt_fixup
  attempt_fixup-StepEnds a l =
      let fixup = fixup_100cr4 (get_or l.an.tx_page 0 0) (get_or l.an.rx_page 0 0) in
      if_rec StepEnds (not (test_bit opt_autoneg_100cr4_fixup l.blattr.options))
        (attempt_match-StepEnds a.jiffies l)
        (if_rec StepEnds fixup.1 (attempt_match-StepEnds a.jiffies (with_fixup k is_hw fixup.0 l))
          (StepEnds.repeats (a.serdes_stop l)))

  attempt_result-StepEnds : (a : Attempt) (r : Link × ℕ) → StepEnds (attempt_result k is_hw a r)
  unfolding attempt_result
  attempt_result-StepEnds a (l, err) =
      if_rec StepEnds (err == eproto) (attempt_fixup-StepEnds a l) (
        if_rec StepEnds (err == etime)
          (if_rec StepEnds (ltb l.an.try_count l.blattr.an_max_retry) (StepEnds.repeats _)
            (StepEnds.left l etime (inr (omega arith))))
          (elim (Bool-cases (err == 0)) [
            | inl good ↦ rw good (attempt_match-StepEnds a.jiffies l)
            | inr bad ↦ rw bad (StepEnds.left l err (inr (ground arith)))
          ]))

  left_bad :
      (l : Link) (err : ℕ) (s : Step)
      → StepEnds s
      → StepEnds (if not (err == 0) then leave l err else s)
  left_bad l err s rest = elim (Bool-cases (err == 0)) [
    | inl good ↦ rw good rest
    | inr bad ↦ rw bad (StepEnds.left l err (inr (ground arith)))
  ]

  attempt_step-StepEnds : (a : Attempt) (l : Link) → StepEnds (attempt_step k is_hw a l)
  unfolding attempt_step
  attempt_step-StepEnds a l =
      let l₀ = record l { an = record (l.an) { try_count = l.an.try_count + 1 } } in
      let r₁ = a.serdes_start l₀ in
      let r₂ = a.pml_setup r₁.0 in
      if_rec StepEnds a.timed_out (StepEnds.left l₀ etimedout (inr (omega arith))) (
        if_rec StepEnds a.cancelled (StepEnds.left l₀ ecanceled (inr (omega arith))) (
          left_bad r₁.0 r₁.1 _
            (left_bad r₂.0 r₂.1 _ (attempt_result-StepEnds a (a.exchange r₂.0)))))

  -- Whatever the partner sends, where the attempts to negotiate end with 0 the link partner is noted as
  -- there and the link mode is one of the four; every other end is an error.
  pub negotiate-Ends : (attempts : List Attempt) (l : Link) → Ends (negotiate k is_hw attempts l)
  unfolding negotiate
  negotiate-Ends [] l = Ends.goes_on
  negotiate-Ends (a ∷ rest) l =
      from (attempt_step k is_hw a l) (attempt_step-StepEnds a l) (negotiate-Ends rest)
    where
      from :
          (s : Step)
          → StepEnds s
          → ((l' : Link) → Ends (negotiate k is_hw rest l'))
          → Ends (elim s as (λ _. Option (Link × ℕ)) [
            | leave l' err ↦ some (l', err)
            | again l' ↦ negotiate k is_hw rest l'
          ])
      from _ (StepEnds.left l' err fine) later = Ends.ended l' err fine
      from _ (StepEnds.repeats l') later = later l'
