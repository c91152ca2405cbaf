-- ===== src/Autoneg/Pages.antt =====
-- The pages that one end sends, as the other end reads them (sbl_link_an.c).
use ss_sbl.Prelude.{
  ℕ, ◌+◌, ◌/◌, ◌%◌, ◌^◌, ◌≡◌, ◌⊎◌, inl, inr, refl, sym, subst, Bool, true, false, Bool-cases,
  Option, none, some, [], ◌∷◌, ◌&&◌, ◌==◌, test_bit, set_bit, get_or, drop, arith,
}
use ss_sbl.Link.{Link}
use ss_sbl.Link.Consts.{
  opt_enable_ether_llr, mode_bs_200g, mode_bj_100g, mode_cd_100g, mode_cd_50g, an_mode_fixed,
}
use ss_sbl.Media.{debug_option}
use ss_sbl.Fec.Thresholds.{Platform}
use ss_sbl.Autoneg.{
  setup_tx_pages, setup_pages, base_page, oui_page, llr_page, fixed_ability, resolve_mode,
  read_pages, hpe_page, save_llr_options, offers_llr, offers_ether, offers_hpc, bit_np, bit_mp,
  code_oui_extended, or_bit, debug_disable_an_next_pages, bit_200g_cr4, bit_100g_cr4, bit_100g_cr2,
  bit_50g_cr, opt_enable_ifg_hpc_with_llr, oui_hpe,
}

-- The base page that was set up, with or without the bit that announces a next page.
IsBase : Option ℕ → ℕ → Type 0
IsBase ability page = (page ≡ base_page ability) ⊎ (page ≡ set_bit bit_np (base_page ability))

abbrev pub first_page : Link → ℕ
first_page l = get_or l.an.tx_page 0 0

setup_pages-IsBase :
    (p : Platform) (ability : Option ℕ) (l : Link)
    → IsBase ability (first_page (setup_pages p ability l).0)
unfolding setup_pages IsBase
setup_pages-IsBase p ability l = elim (Bool-cases (debug_option debug_disable_an_next_pages l)) [
  | inl off ↦ rw (off, setup_pages) (inl refl)
  | inr on ↦ rw (on, setup_pages) (inr refl)
]

-- The link modes that can be fixed.
data Fixed : ℕ → ℕ → Type 0 where
  bs_200g : Fixed mode_bs_200g bit_200g_cr4
  bj_100g : Fixed mode_bj_100g bit_100g_cr4
  cd_100g : Fixed mode_cd_100g bit_100g_cr2
  cd_50g : Fixed mode_cd_50g bit_50g_cr

resolve_mode-Fixed :
    (mode bit tx rx : ℕ)
    → Fixed mode bit
    → IsBase (some bit) tx
    → IsBase none rx
    → resolve_mode tx rx ≡ some mode
unfolding resolve_mode IsBase base_page test_bit set_bit
resolve_mode-Fixed _ _ tx rx Fixed.bs_200g (inl a) (inl b) = rw (a, b) refl
resolve_mode-Fixed _ _ tx rx Fixed.bs_200g (inl a) (inr b) = rw (a, b) refl
resolve_mode-Fixed _ _ tx rx Fixed.bs_200g (inr a) (inl b) = rw (a, b) refl
resolve_mode-Fixed _ _ tx rx Fixed.bs_200g (inr a) (inr b) = rw (a, b) refl
resolve_mode-Fixed _ _ tx rx Fixed.bj_100g (inl a) (inl b) = rw (a, b) refl
resolve_mode-Fixed _ _ tx rx Fixed.bj_100g (inl a) (inr b) = rw (a, b) refl
resolve_mode-Fixed _ _ tx rx Fixed.bj_100g (inr a) (inl b) = rw (a, b) refl
resolve_mode-Fixed _ _ tx rx Fixed.bj_100g (inr a) (inr b) = rw (a, b) refl
resolve_mode-Fixed _ _ tx rx Fixed.cd_100g (inl a) (inl b) = rw (a, b) refl
resolve_mode-Fixed _ _ tx rx Fixed.cd_100g (inl a) (inr b) = rw (a, b) refl
resolve_mode-Fixed _ _ tx rx Fixed.cd_100g (inr a) (inl b) = rw (a, b) refl
resolve_mode-Fixed _ _ tx rx Fixed.cd_100g (inr a) (inr b) = rw (a, b) refl
resolve_mode-Fixed _ _ tx rx Fixed.cd_50g (inl a) (inl b) = rw (a, b) refl
resolve_mode-Fixed _ _ tx rx Fixed.cd_50g (inl a) (inr b) = rw (a, b) refl
resolve_mode-Fixed _ _ tx rx Fixed.cd_50g (inr a) (inl b) = rw (a, b) refl
resolve_mode-Fixed _ _ tx rx Fixed.cd_50g (inr a) (inr b) = rw (a, b) refl

Fixed-at : {mode bit m b : ℕ} → mode ≡ m → bit ≡ b → Fixed m b → Fixed mode bit
Fixed-at {mode} {bit} {m} {b} p q f =
    subst (λ (x : ℕ). Fixed x bit) (sym p) (subst (λ (x : ℕ). Fixed m x) (sym q) f)

fixed_ability-Fixed : (mode bit : ℕ) → fixed_ability mode ≡ some bit → Fixed mode bit
unfolding fixed_ability
fixed_ability-Fixed mode bit e = elim (Bool-cases (mode == mode_bs_200g)) [
  | inl is ↦ Fixed-at (ground arith) (ground arith) Fixed.bs_200g
  | inr not_bs ↦ elim (Bool-cases (mode == mode_bj_100g)) [
    | inl is ↦ Fixed-at (ground arith) (ground arith) Fixed.bj_100g
    | inr not_bj ↦ elim (Bool-cases (mode == mode_cd_100g)) [
      | inl is ↦ Fixed-at (ground arith) (ground arith) Fixed.cd_100g
      | inr not_cd ↦ elim (Bool-cases (mode == mode_cd_50g)) [
        | inl is ↦ Fixed-at (ground arith) (ground arith) Fixed.cd_50g
        | inr not_50 ↦ absurd (ground arith)
      ]
    ]
  ]
]

-- An end whose autonegotiation is fixed to a supported link mode, facing one that offers every mode,
-- brings both ends to that mode.
pub fixed_mode_chosen :
    (p q : Platform) (l m : Link) {bit : ℕ}
    → l.blattr.an_mode ≡ an_mode_fixed
    → (m.blattr.an_mode == an_mode_fixed) ≡ false
    → fixed_ability l.blattr.link_mode ≡ some bit
    → resolve_mode (first_page (setup_tx_pages p l).0) (first_page (setup_tx_pages q m).0)
      ≡ some l.blattr.link_mode
unfolding setup_tx_pages
fixed_mode_chosen p q l m {bit} fixed on ability =
    let is_fixed : (l.blattr.an_mode == an_mode_fixed) ≡ true = ground arith in
    let tx : IsBase (some bit) (first_page (setup_tx_pages p l).0) =
      rw (is_fixed, ability, setup_tx_pages) (setup_pages-IsBase p (some bit) l) in
    let rx : IsBase none (first_page (setup_tx_pages q m).0) =
      rw (on, setup_tx_pages) (setup_pages-IsBase q none m) in
    resolve_mode-Fixed l.blattr.link_mode bit _ _ (fixed_ability-Fixed _ bit ability) tx rx

-- The subtype that a port on the platform tells its partner: SBL_LP_SUBTYPE_CASSINI_V1, or none.
abbrev pub subtype_of : Platform → ℕ
subtype_of Platform.cassini = 1
subtype_of Platform.rosetta = 0

-- What the bits of an unformatted page tell: the version, whether it is a message page, and the options.
abbrev LlrBits : Platform → ℕ → Bool → Bool → Bool → Type 0
LlrBits p page llr ether hpc =
    (test_bit bit_mp page ≡ false)
    × (page / 2 ^ 16 % 2 ^ 8 ≡ 1)
    × (page / 2 ^ 32 % 8 ≡ subtype_of p)
    × (test_bit 24 page ≡ llr)
    × (test_bit 25 page ≡ ether)
    × (test_bit 26 page ≡ hpc)

llr_page-bits :
    (p : Platform) (llr ether hpc : Bool) → LlrBits p (llr_page p llr ether hpc) llr ether hpc
unfolding llr_page test_bit set_bit
llr_page-bits Platform.cassini true true true = (refl, refl, refl, refl, refl, refl)
llr_page-bits Platform.cassini true true false = (refl, refl, refl, refl, refl, refl)
llr_page-bits Platform.cassini true false true = (refl, refl, refl, refl, refl, refl)
llr_page-bits Platform.cassini true false false = (refl, refl, refl, refl, refl, refl)
llr_page-bits Platform.cassini false true true = (refl, refl, refl, refl, refl, refl)
llr_page-bits Platform.cassini false true false = (refl, refl, refl, refl, refl, refl)
llr_page-bits Platform.cassini false false true = (refl, refl, refl, refl, refl, refl)
llr_page-bits Platform.cassini false false false = (refl, refl, refl, refl, refl, refl)
llr_page-bits Platform.rosetta true true true = (refl, refl, refl, refl, refl, refl)
llr_page-bits Platform.rosetta true true false = (refl, refl, refl, refl, refl, refl)
llr_page-bits Platform.rosetta true false true = (refl, refl, refl, refl, refl, refl)
llr_page-bits Platform.rosetta true false false = (refl, refl, refl, refl, refl, refl)
llr_page-bits Platform.rosetta false true true = (refl, refl, refl, refl, refl, refl)
llr_page-bits Platform.rosetta false true false = (refl, refl, refl, refl, refl, refl)
llr_page-bits Platform.rosetta false false true = (refl, refl, refl, refl, refl, refl)
llr_page-bits Platform.rosetta false false false = (refl, refl, refl, refl, refl, refl)

or_bits :
    (c e h : Bool)
    → (test_bit 0 (or_bit h 2 (or_bit e 1 (or_bit c 0 0))) ≡ c)
      × (test_bit 1 (or_bit h 2 (or_bit e 1 (or_bit c 0 0))) ≡ e)
      × (test_bit 2 (or_bit h 2 (or_bit e 1 (or_bit c 0 0))) ≡ h)
unfolding test_bit set_bit
or_bits true true true = (refl, refl, refl)
or_bits true true false = (refl, refl, refl)
or_bits true false true = (refl, refl, refl)
or_bits true false false = (refl, refl, refl)
or_bits false true true = (refl, refl, refl)
or_bits false true false = (refl, refl, refl)
or_bits false false true = (refl, refl, refl)
or_bits false false false = (refl, refl, refl)

-- The options that an end keeps, from those of its partner and its own.
abbrev pub Options : ℕ → Bool → Bool → Bool → Link → Type 0
Options options llr ether hpc m =
    (test_bit 0 options ≡ (offers_llr m && llr))
    × (test_bit 1 options
        ≡ (offers_llr m && (ether && test_bit opt_enable_ether_llr m.blattr.options)))
    × (test_bit 2 options
        ≡ (offers_llr m && (hpc && test_bit opt_enable_ifg_hpc_with_llr m.blattr.options)))

save_llr_options-llr_page :
    (p : Platform) (llr ether hpc : Bool) (m : Link)
    → m.an.options ≡ 0
    → Options (save_llr_options (llr_page p llr ether hpc) m).an.options llr ether hpc m
unfolding save_llr_options
save_llr_options-llr_page p llr ether hpc m empty =
    let (msg, version, subtype, b24, b25, b26) = llr_page-bits p llr ether hpc in
    elim (Bool-cases (offers_llr m)) [
      | inr keeps ↦ rw (keeps, empty, save_llr_options) (or_bits false false false)
      | inl keeps ↦ rw (keeps, empty, b24, b25, b26, save_llr_options) (or_bits _ _ _)
    ]

oui_page-mp : test_bit bit_mp oui_page ≡ true
unfolding oui_page test_bit set_bit
oui_page-mp = refl

oui_page-code : (oui_page % 2 ^ 11 == code_oui_extended) ≡ true
unfolding oui_page set_bit
oui_page-code = refl

oui_page-hpe : (oui_page / 2 ^ 16 % 2 ^ 24 == oui_hpe) ≡ true
unfolding oui_page set_bit
oui_page-hpe = refl

read_next_pages :
    (p : Platform) (llr ether hpc : Bool) (m : Link)
    → read_pages (oui_page ∷ llr_page p llr ether hpc ∷ []) 0 false m
      ≡ record (save_llr_options (llr_page p llr ether hpc) m) { lp_subtype = subtype_of p + 1 }
unfolding read_pages hpe_page
read_next_pages p llr ether hpc m =
    let (msg, version, subtype, b24, b25, b26) = llr_page-bits p llr ether hpc in
    let is_mp : test_bit bit_mp oui_page ≡ true = oui_page-mp in
    let extended : (oui_page % 2 ^ 11 == code_oui_extended) ≡ true = oui_page-code in
    let hpe : (oui_page / 2 ^ 16 % 2 ^ 24 == oui_hpe) ≡ true = oui_page-hpe in
    let ours : (llr_page p llr ether hpc / 2 ^ 16 % 2 ^ 8 == 1) ≡ true = ground arith in
    rw (is_mp, extended, hpe, msg, ours, subtype, read_pages) refl

-- The next pages that one end sends carry its platform and the LLR options that it offers to the other:
-- the other end finds the subtype, and keeps exactly those options that both ends offer.
pub next_pages_understood :
    (p : Platform) (ability : Option ℕ) (l m : Link)
    → debug_option debug_disable_an_next_pages l ≡ false
    → m.an.options ≡ 0
    → let r = read_pages (drop 1 (setup_pages p ability l).0.an.tx_page) 0 false m in
      (r.lp_subtype ≡ subtype_of p + 1)
      × Options r.an.options (offers_llr l) (offers_ether l) (offers_hpc l) m
unfolding setup_pages
next_pages_understood p ability l m on empty =
    rw (on, setup_pages, read_next_pages p (offers_llr l) (offers_ether l) (offers_hpc l) m)
      (refl, save_llr_options-llr_page p (offers_llr l) (offers_ether l) (offers_hpc l) m empty)
