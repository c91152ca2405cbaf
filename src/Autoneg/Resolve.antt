-- ===== src/Autoneg/Resolve.antt =====
-- What the two ends of a link make of each other's base pages (sbl_link_an.c).
use ss_sbl.Prelude.{
  ℕ, zero, suc, ◌+◌, ◌≡◌, ◌≤◌, ◌<◌, ◌⊎◌, inl, inr, refl, ◌∙◌, sym, ap, subst, Bool, true, false,
  Bool-cases, Option-cases, Option, none, some, List, [], ◌∷◌, if_rec, ◌%◌, ◌^◌, ◌-◌, take, drop,
  ◌&&◌, ◌||◌, ◌==◌, test_bit, set_bit, get_or, arith, test_bit-set_bit, test_bit-set_bit_ne,
}
use ss_sbl.Link.{Link}
use ss_sbl.Link.Consts.{mode_bj_100g, enoent}
use ss_sbl.Autoneg.{
  bit_mp, code_oui_extended, both, resolve_mode, ability_match, read_pages, hpe_page,
  save_llr_options, fixup_100cr4, common_from, ability_base, bit_100g_cr4, bit_100g_kr4,
  bit_200g_cr4, bit_100g_cr2, bit_50g_cr, expects_hpe,
}

and_comm : (a b : Bool) → (a && b) ≡ (b && a)
and_comm true true = refl
and_comm true false = refl
and_comm false true = refl
and_comm false false = refl

both_comm : (bit tx rx : ℕ) → both bit tx rx ≡ both bit rx tx
both_comm bit tx rx = and_comm (test_bit bit tx) (test_bit bit rx)

resolve_mode_comm : (tx rx : ℕ) → resolve_mode tx rx ≡ resolve_mode rx tx
unfolding resolve_mode
resolve_mode_comm tx rx =
    rw
      (
        both_comm bit_200g_cr4 tx rx,
        both_comm bit_100g_cr4 tx rx,
        both_comm bit_100g_cr2 tx rx,
        both_comm bit_50g_cr tx rx,
      )
      refl

hpe_page-link_mode : (page : ℕ) (l : Link) → (hpe_page page l).link_mode ≡ l.link_mode
unfolding hpe_page save_llr_options
hpe_page-link_mode page l = ground arith

read_pages-link_mode :
    (pages : List ℕ) (code : ℕ) (expected : Bool) (l : Link)
    → (read_pages pages code expected l).link_mode ≡ l.link_mode
unfolding read_pages
read_pages-link_mode [] code expected l = refl
read_pages-link_mode (page ∷ pages) code expected l =
    if_rec (λ (m : Link). m.link_mode ≡ l.link_mode) (test_bit bit_mp page)
      (read_pages-link_mode pages (page % 2 ^ 11) (expects_hpe (page % 2 ^ 11) page expected) l)
      (if_rec (λ (m : Link). m.link_mode ≡ l.link_mode) ((code == code_oui_extended) && expected)
        (read_pages-link_mode pages code false (hpe_page page l) ∙ hpe_page-link_mode page l)
        (read_pages-link_mode pages code expected l))

-- What a match of the abilities gives, for what sbl_an_ability_match finds.
abbrev pub Matched : Option ℕ → Link × ℕ → Type 0
Matched none r = r.1 ≡ enoent
Matched (some mode) r = (r.1 ≡ 0) × (r.0.link_mode ≡ mode)

pub ability_match-Matched :
    (l : Link)
    → Matched
        (resolve_mode (get_or l.an.tx_page 0 0) (get_or l.an.rx_page 0 0))
        (ability_match true l)
unfolding ability_match
ability_match-Matched l =
    elim (Option-cases (resolve_mode (get_or l.an.tx_page 0 0) (get_or l.an.rx_page 0 0))) [
      | inl nothing ↦ rw (nothing, ability_match) refl
      | inr (mode, found) ↦
          rw (found, ability_match)
            (refl, read_pages-link_mode (take (l.an.rx_count - 1) (drop 1 l.an.rx_page)) 0 false _)
    ]

-- The two ends of a link agree: where each has received the other's base page, both fail to find a
-- match, with -ENOENT, or both succeed and choose the same link mode.
pub ends_agree :
    (l m : Link)
    → get_or l.an.rx_page 0 0 ≡ get_or m.an.tx_page 0 0
    → get_or m.an.rx_page 0 0 ≡ get_or l.an.tx_page 0 0
    → (((ability_match true l).1 ≡ enoent) × ((ability_match true m).1 ≡ enoent))
      ⊎ (((ability_match true l).1 ≡ 0)
          × ((ability_match true m).1 ≡ 0)
          × ((ability_match true l).0.link_mode ≡ (ability_match true m).0.link_mode))
ends_agree l m from_m from_l =
    let tx = get_or l.an.tx_page 0 0 in
    let rx = get_or m.an.tx_page 0 0 in
    let at_l : Matched (resolve_mode tx rx) (ability_match true l) =
      subst (λ (x : ℕ). Matched (resolve_mode tx x) (ability_match true l)) from_m
        (ability_match-Matched l) in
    let at_m₀ : Matched (resolve_mode rx tx) (ability_match true m) =
      subst (λ (x : ℕ). Matched (resolve_mode rx x) (ability_match true m)) from_l
        (ability_match-Matched m) in
    let at_m : Matched (resolve_mode tx rx) (ability_match true m) =
      subst (λ (o : Option ℕ). Matched o (ability_match true m)) (resolve_mode_comm rx tx) at_m₀ in
    agree (resolve_mode tx rx) at_l at_m
  where
    agree :
        (o : Option ℕ)
        → Matched o (ability_match true l)
        → Matched o (ability_match true m)
        → (((ability_match true l).1 ≡ enoent) × ((ability_match true m).1 ≡ enoent))
          ⊎ (((ability_match true l).1 ≡ 0)
              × ((ability_match true m).1 ≡ 0)
              × ((ability_match true l).0.link_mode ≡ (ability_match true m).0.link_mode))
    agree none a b = inl (a, b)
    agree (some mode) (a, a') (b, b') = inr (a, b, a' ∙ sym b')

or_false_left : (a b : Bool) → (a || b) ≡ false → a ≡ false
or_false_left true b h = absurd (ground arith)
or_false_left false b h = refl

or_false_right : (a b : Bool) → (a || b) ≡ false → b ≡ false
or_false_right true b h = absurd (ground arith)
or_false_right false b h = h

common_from_none :
    (n bit k tx rx : ℕ)
    → common_from n bit tx rx ≡ false
    → bit ≤ k
    → k < bit + n
    → both k tx rx ≡ false
unfolding common_from
common_from_none zero bit k tx rx apart lo hi = absurd (omega arith)
common_from_none (suc n) bit k tx rx apart lo hi = elim (Bool-cases (bit == k)) [
  | inl same ↦
      let e : bit ≡ k = ground arith in
      subst (λ (j : ℕ). both j tx rx ≡ false) e (or_false_left _ _ apart)
  | inr later ↦
      common_from_none n (bit + 1) k tx rx (or_false_right _ _ apart) (ground arith) (omega arith)
]

resolve_mode_fixed :
    (tx rx : ℕ)
    → common_from 21 ability_base tx rx ≡ false
    → test_bit bit_100g_cr4 tx ≡ true
    → resolve_mode tx (set_bit bit_100g_cr4 rx) ≡ some mode_bj_100g
unfolding resolve_mode
resolve_mode_fixed tx rx apart cr4 =
    let not_200g : both bit_200g_cr4 tx (set_bit bit_100g_cr4 rx) ≡ false =
      ap (λ (b : Bool). test_bit bit_200g_cr4 tx && b)
        (test_bit-set_bit_ne bit_200g_cr4 bit_100g_cr4 rx (λ e. omega arith))
      ∙ common_from_none 21 ability_base bit_200g_cr4 tx rx apart (omega arith) (omega arith) in
    let is_100g : both bit_100g_cr4 tx (set_bit bit_100g_cr4 rx) ≡ true =
      rw (cr4, test_bit-set_bit bit_100g_cr4 rx) refl in
    rw (not_200g, is_100g, resolve_mode) refl

-- The fixup is applied exactly where the two ends have no ability in common, this port offers 100GBASE-CR4
-- and its partner offers 100GBASE-KR4. Then the match finds 100G over four lanes; and otherwise the
-- partner's page is left as it was.
pub fixup_100cr4_match :
    (tx rx : ℕ)
    → (((fixup_100cr4 tx rx).1 ≡ true)
        × (common_from 21 ability_base tx rx ≡ false)
        × (test_bit bit_100g_cr4 tx ≡ true)
        × (test_bit bit_100g_kr4 rx ≡ true)
        × (resolve_mode tx (fixup_100cr4 tx rx).0 ≡ some mode_bj_100g))
      ⊎ (((fixup_100cr4 tx rx).1 ≡ false)
          × ((fixup_100cr4 tx rx).0 ≡ rx)
          × ((common_from 21 ability_base tx rx ≡ true)
              ⊎ (test_bit bit_100g_cr4 tx ≡ false)
              ⊎ (test_bit bit_100g_kr4 rx ≡ false)))
unfolding fixup_100cr4
fixup_100cr4_match tx rx = elim (Bool-cases (common_from 21 ability_base tx rx)) [
  | inl common ↦ rw (common, fixup_100cr4) (inr (refl, refl, inl refl))
  | inr apart ↦ elim (Bool-cases (test_bit bit_100g_cr4 tx)) [
    | inr without ↦ rw (apart, without, fixup_100cr4) (inr (refl, refl, inr (inl refl)))
    | inl cr4 ↦ elim (Bool-cases (test_bit bit_100g_kr4 rx)) [
      | inr without ↦ rw (apart, cr4, without, fixup_100cr4) (inr (refl, refl, inr (inr refl)))
      | inl kr4 ↦
          rw (apart, cr4, kr4, fixup_100cr4)
            (inl (refl, refl, refl, refl, resolve_mode_fixed tx rx apart cr4))
    ]
  ]
]
