-- ===== src/Autoneg.antt =====
-- Autonegotiation: the pages that a port sends, the exchange of next pages, and what it makes of the
-- pages of its partner (drivers/net/ethernet/hpe/sbl/sbl_link_an.c, nic/sbl_link_an_nic.c and
-- include/linux/hpe/sbl/sbl_an.h). A page is its 48 bits as a number.
pub mod Exchange
pub mod Resolve
pub mod Pages
pub mod Negotiate
pub mod Outcome
pub mod Retry
mod Tests
use ss_sbl.Prelude.{
  ℕ, zero, suc, ◌+◌, ◌-◌, ◌*◌, ◌/◌, ◌%◌, ◌^◌, Bool, true, false, ◌&&◌, ◌||◌, not, Option, none,
  some, List, [], ◌∷◌, if◌then◌else◌, ◌==◌, test_bit, set_bit, get_or, set, take, drop,
}
use ss_sbl.Link.{Link, Autoneg}
use ss_sbl.Link.Consts.{
  opt_enable_ether_llr, einval, enoent, mode_bs_200g, mode_bj_100g, mode_cd_100g, mode_cd_50g,
  an_mode_fixed, opt_autoneg_timeout_ieee, opt_autoneg_timeout_sshot,
}
use ss_sbl.Media.{debug_option}
use ss_sbl.Fec.Thresholds.{Platform}

-- Bits of the base page: AN_CW_C_SYMMETRIC, AN_CW_NP_MASK, and the technology abilities.
abbrev pub bit_symmetric : ℕ
bit_symmetric = 10

abbrev pub bit_np : ℕ
bit_np = 15

abbrev pub ability_base : ℕ
ability_base = 21

abbrev pub bit_100g_kr4 : ℕ
bit_100g_kr4 = 28

abbrev pub bit_100g_cr4 : ℕ
bit_100g_cr4 = 29

abbrev pub bit_50g_cr : ℕ
bit_50g_cr = 34

abbrev pub bit_100g_cr2 : ℕ
bit_100g_cr2 = 35

abbrev pub bit_200g_cr4 : ℕ
bit_200g_cr4 = 36

-- AN_NP_MP_MASK, the message code and the OUI of HPE
abbrev pub bit_mp : ℕ
bit_mp = 13

abbrev pub code_oui_extended : ℕ
code_oui_extended = 0xB

abbrev pub oui_hpe : ℕ
oui_hpe = 0xEC9B8B

abbrev pub llr_mode_auto : ℕ
llr_mode_auto = 5

abbrev pub opt_enable_ifg_hpc_with_llr : ℕ
opt_enable_ifg_hpc_with_llr = 17

abbrev pub opt_disable_an_llr : ℕ
opt_disable_an_llr = 19

abbrev pub debug_disable_an_next_pages : ℕ
debug_disable_an_next_pages = 19

-- A page of the array after memset to 0xAA.
abbrev pub unused_page : ℕ
unused_page = 0xAAAAAAAAAAAAAAAA

-- The ability that SBL_AN_MODE_FIXED advertises for a link mode.
unfoldable pub fixed_ability : ℕ → Option ℕ
fixed_ability mode =
    if mode == mode_bs_200g
    then some bit_200g_cr4
    else if mode == mode_bj_100g
    then some bit_100g_cr4
    else if mode == mode_cd_100g
    then some bit_100g_cr2
    else if mode == mode_cd_50g
    then some bit_50g_cr
    else none

-- The selector field, the abilities and the pause ability of the base page.
unfoldable pub base_page : Option ℕ → ℕ
base_page (some bit) = set_bit bit_symmetric (set_bit bit 1)
base_page none =
    set_bit bit_symmetric
      (set_bit bit_50g_cr (set_bit bit_100g_cr2 (set_bit bit_100g_cr4 (set_bit bit_200g_cr4 1))))

-- The OUI message page.
unfoldable pub oui_page : ℕ
oui_page = set_bit bit_np (set_bit bit_mp code_oui_extended + oui_hpe * 2 ^ 16)

-- `set_bit` where the flag is set
abbrev pub or_bit : Bool → ℕ → ℕ → ℕ
or_bit flag bit x = if flag then set_bit bit x else x

-- The unformatted page that follows it, with the LLR options and, on Cassini, the subtype that
-- sbl_an_version_read adds.
unfoldable pub llr_page : Platform → Bool → Bool → Bool → ℕ
llr_page Platform.cassini llr ether hpc =
    set_bit 32 (or_bit hpc 26 (or_bit ether 25 (or_bit llr 24 (2 ^ 16))))
llr_page Platform.rosetta llr ether hpc = or_bit hpc 26 (or_bit ether 25 (or_bit llr 24 (2 ^ 16)))

-- `llr_mode == SBL_LLR_MODE_AUTO && !(options & SBL_OPT_DISABLE_AN_LLR)`
abbrev pub offers_llr : Link → Bool
offers_llr l =
    (l.blattr.llr_mode == llr_mode_auto) && not (test_bit opt_disable_an_llr l.blattr.options)

abbrev pub offers_ether : Link → Bool
offers_ether l = offers_llr l && test_bit opt_enable_ether_llr l.blattr.options

abbrev pub offers_hpc : Link → Bool
offers_hpc l = offers_llr l && test_bit opt_enable_ifg_hpc_with_llr l.blattr.options

abbrev with_tx : List ℕ → ℕ → Link → Link
with_tx pages count l = record l { an = record (l.an) { tx_page = pages; tx_count = count } }

-- The pages for a choice of abilities; `none` is all of them.
unfoldable pub setup_pages : Platform → Option ℕ → Link → Link × ℕ
unfolding base_page oui_page llr_page debug_option
setup_pages p ability l =
    if debug_option debug_disable_an_next_pages l
    then (with_tx (base_page ability ∷ unused_page ∷ unused_page ∷ []) 1 l, 0)
    else (
      with_tx
          (set_bit bit_np (base_page ability)
            ∷ oui_page
            ∷ llr_page p (offers_llr l) (offers_ether l) (offers_hpc l)
            ∷ [])
          3 l,
      0,
    )

-- sbl_an_setup_tx_pages
unfoldable pub setup_tx_pages : Platform → Link → Link × ℕ
unfolding fixed_ability setup_pages
setup_tx_pages p l =
    if l.blattr.an_mode == an_mode_fixed
    then elim (fixed_ability l.blattr.link_mode) [
      | none ↦ (with_tx (1 ∷ unused_page ∷ unused_page ∷ []) l.an.tx_count l, einval)
      | some bit ↦ setup_pages p (some bit) l
    ]
    else setup_pages p none l

-- Is the ability in both base pages?
abbrev pub both : ℕ → ℕ → ℕ → Bool
both bit tx rx = test_bit bit tx && test_bit bit rx

-- The link mode in sbl_an_ability_match, `none` where no mode matches.
unfoldable pub resolve_mode : ℕ → ℕ → Option ℕ
resolve_mode tx rx =
    if both bit_200g_cr4 tx rx
    then some mode_bs_200g
    else if both bit_100g_cr4 tx rx
    then some mode_bj_100g
    else if both bit_100g_cr2 tx rx
    then some mode_cd_100g
    else if both bit_50g_cr tx rx
    then some mode_cd_50g
    else none

-- sbl_an_save_llr_options, given the page
unfoldable pub save_llr_options : ℕ → Link → Link
save_llr_options page l = if not (offers_llr l) then l else record l {
  an = record (l.an) {
    options = or_bit (test_bit 26 page && test_bit opt_enable_ifg_hpc_with_llr l.blattr.options) 2 (
        or_bit (test_bit 25 page && test_bit opt_enable_ether_llr l.blattr.options) 1
          (or_bit (test_bit 24 page) 0 l.an.options));
  };
}

-- The unformatted page of HPE: the version, the options and the subtype.
unfoldable pub hpe_page : ℕ → Link → Link
unfolding save_llr_options
hpe_page page l =
    if page / 2 ^ 16 % 2 ^ 8 == 1
    then record (save_llr_options page l) { lp_subtype = page / 2 ^ 32 % 8 + 1 }
    else l

-- Whether a message page announces a page of HPE.
unfoldable pub expects_hpe : ℕ → ℕ → Bool → Bool
expects_hpe code page expected =
    if code == code_oui_extended then page / 2 ^ 16 % 2 ^ 24 == oui_hpe else expected

-- The loop over the next pages in sbl_an_ability_match.
unfoldable pub read_pages : List ℕ → ℕ → Bool → Link → Link
unfolding hpe_page expects_hpe
read_pages [] code expected l = l
read_pages (page ∷ pages) code expected l =
    if test_bit bit_mp page
    then read_pages pages (page % 2 ^ 11) (expects_hpe (page % 2 ^ 11) page expected) l
    else if (code == code_oui_extended) && expected
    then read_pages pages code false (hpe_page page l)
    else read_pages pages code expected l

-- sbl_an_ability_match
unfoldable pub ability_match : Bool → Link → Link × ℕ
unfolding resolve_mode read_pages
ability_match is_hw l =
    let rx = if is_hw then l.an.rx_page else set l.an.rx_page 0 (get_or l.an.tx_page 0 0) in
    let l' = record l { an = record (l.an) { rx_page = rx } } in
    elim (resolve_mode (get_or l.an.tx_page 0 0) (get_or rx 0 0)) [
      | none ↦ (l', enoent)
      | some mode ↦ (
        read_pages (take (l.an.rx_count - 1) (drop 1 rx)) 0 false
            (record l' { link_mode = mode; lp_subtype = 1 }),
        0,
      )
    ]

-- Is there a common ability among the `n` that begin with this bit?
unfoldable pub common_from : ℕ → ℕ → ℕ → ℕ → Bool
common_from zero bit tx rx = false
common_from (suc n) bit tx rx = both bit tx rx || common_from n (bit + 1) tx rx

-- sbl_an_100cr4_fixup on the base pages: the partner's page, and whether the fixup was applied.
unfoldable pub fixup_100cr4 : ℕ → ℕ → ℕ × Bool
unfolding common_from
fixup_100cr4 tx rx =
    if common_from 21 ability_base tx rx
    then (rx, false)
    else if not (test_bit bit_100g_cr4 tx)
    then (rx, false)
    else if not (test_bit bit_100g_kr4 rx)
    then (rx, false)
    else (set_bit bit_100g_cr4 rx, true)

-- The timeouts that sbl_an_update_timeout sets, 0 where it sets none.
abbrev by_speed : ℕ → ℕ → ℕ → ℕ → ℕ → ℕ
by_speed mode g200 g100 g50 old =
    if mode == mode_bs_200g
    then g200
    else if (mode == mode_bj_100g) || (mode == mode_cd_100g)
    then g100
    else if mode == mode_cd_50g
    then g50
    else old

unfoldable pub new_timeout : Link → ℕ
new_timeout l =
    let sshot =
      if test_bit opt_autoneg_timeout_sshot l.blattr.options
      then by_speed l.link_mode 22000 10000 8000 0
      else 0 in
    if test_bit opt_autoneg_timeout_ieee l.blattr.options
    then by_speed l.link_mode 4000 2250 1125 sshot
    else sshot
