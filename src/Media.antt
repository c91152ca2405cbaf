-- ===== src/Media.antt =====
-- The cable of a link: drivers/net/ethernet/hpe/sbl/sbl_media.c.
pub mod Lengths
pub mod Config
pub mod Loop
use ss_sbl.Prelude.{
  ℕ, ◌+◌, ◌*◌, ◌/◌, ◌^◌, Bool, true, false, ◌&&◌, ◌||◌, Option, none, some, ℤ, if◌then◌else◌, ◌==◌,
  test_bit, not,
}
use ss_sbl.Link.{LinkStatus, MediaAttr, BaseLinkAttr, Link, Inst, is_idle, is_idle_or_stopping}
use ss_sbl.Link.Consts.{
  einval, euclean, ebadrqc, emediumtype, media_attr_magic, media_electrical, media_optical,
  config_pec, config_aoc, mode_bs_200g, mode_bj_100g, mode_cd_100g, mode_cd_50g, loopback_off,
  loopback_invalid, opt_allow_media_bad_mode, opt_allow_media_bad_len, debug_allow_media_bad_mode,
  debug_allow_media_bad_len, info_headshell_reset, ns_per_m, optical_ns_per_m,
  optical_tranceiver_delay, asic_tx_delay, asic_rx_delay,
}
use ss_sbl.Link.Port.{on_port}
use ss_sbl.Kernel.{u32, u64}
use ss_sbl.Media.Lengths.{len_cm?, is_some}

-- sbl_debug_option for a single flag (sbl_debug.c)
unfoldable pub debug_option : ℕ → Link → Bool
debug_option flag l = test_bit flag l.debug_config

-- The part of sbl_media_config behind the validations; `none` is a null pointer.
unfoldable pub media_config_link : Option MediaAttr → Link → Link × ℕ
media_config_link none l = (l, einval)
media_config_link (some mattr) l =
    if not (mattr.magic == media_attr_magic)
    then (l, einval)
    else if not (is_idle l.blstate)
    then (l, euclean)
    else (
      record l {
        mattr = mattr;
        mconfigured = true;
        blstate = if l.blconfigured then LinkStatus.down else l.blstate;
        llr_loop_time = 0;
      },
      0,
    )

-- sbl_media_config
unfoldable pub media_config : Option Inst → ℤ → Option MediaAttr → Option Inst × ℕ
unfolding media_config_link on_port
media_config sbl port mattr = on_port sbl port (λ e. e) (media_config_link mattr)

abbrev pub no_media : MediaAttr
no_media = record { magic = 0; media = 0; len = 0; info = 0; vendor = 0 }

-- The part of sbl_media_unconfig behind the validations.
unfoldable pub media_unconfig_link : Link → Link × ℕ
media_unconfig_link l =
    if not (is_idle_or_stopping l.blstate)
    then (l, euclean)
    else (record l { mattr = no_media; mconfigured = false; blstate = LinkStatus.unconfigured }, 0)

-- sbl_media_unconfig
unfoldable pub media_unconfig : Option Inst → ℤ → Option Inst × ℕ
unfolding media_unconfig_link on_port
media_unconfig sbl port = on_port sbl port (λ e. e) media_unconfig_link

-- The flag of `info` that the switch of sbl_media_check_mode_supported picks for a link mode, as a
-- bit number; an unknown mode has none.
unfoldable pub info_mode_bit : ℕ → Option ℕ
info_mode_bit mode =
    if mode == mode_bs_200g
    then some 0
    else if mode == mode_bj_100g
    then some 1
    else if mode == mode_cd_100g
    then some 2
    else if mode == mode_cd_50g
    then some 3
    else none

-- link->mattr.info & info_mode_bit
abbrev pub info_has : Option ℕ → ℕ → Bool
info_has none info = false
info_has (some bit) info = test_bit bit info

-- sbl_media_check_mode_supported
unfoldable pub check_mode_supported : ℕ → Link → Bool
unfolding info_mode_bit debug_option
check_mode_supported mode l =
    if l.mattr.info == 0
    then true
    else if info_has (info_mode_bit mode) l.mattr.info
    then true
    else (test_bit opt_allow_media_bad_mode l.blattr.options
        || debug_option debug_allow_media_bad_mode l)

-- sbl_media_check_headshell_reset_supported
unfoldable pub check_headshell_reset_supported : Link → Bool
check_headshell_reset_supported l =
    if l.mattr.info == 0 then false else test_bit info_headshell_reset l.mattr.info

-- sbl_media_check_len_supported
unfoldable pub check_len_supported : ℕ → Link → Bool
unfolding debug_option
check_len_supported len l =
    if is_some (len_cm? len)
    then true
    else (test_bit opt_allow_media_bad_len l.blattr.options
        || debug_option debug_allow_media_bad_len l)

abbrev pub some_or_zero : Option ℕ → ℕ
some_or_zero none = 0
some_or_zero (some n) = n

-- sbl_media_get_len_cm
unfoldable pub get_len_cm : ℕ → Link → ℕ
unfolding check_len_supported
get_len_cm len l = if check_len_supported len l then some_or_zero (len_cm? len) else 0

-- What sbl_media_calc_loop_time makes of the length, in `u32` arithmetic up to the last sum.
unfoldable pub loop_time_of : ℕ → ℕ → ℕ
loop_time_of media len =
    (if media == media_electrical
      then u32 (u32 (2 * len) * ns_per_m) / 100
      else u32 (u32 (u32 (2 * len) * optical_ns_per_m) / 100 + 4 * optical_tranceiver_delay))
    + 2 * (asic_tx_delay + asic_rx_delay)

-- The part of sbl_media_calc_loop_time behind the validations, given a place for the result: the
-- error and what that place then holds.
unfoldable pub calc_loop_time : Link → ℕ × ℕ
unfolding get_len_cm loop_time_of
calc_loop_time l =
    if (l.blattr.loopback_mode == loopback_off) || (l.blattr.loopback_mode == loopback_invalid)
    then if get_len_cm l.mattr.len l == 0
      then (ebadrqc, 0)
      else (0, loop_time_of l.mattr.media (get_len_cm l.mattr.len l))
    else (0, loop_time_of l.mattr.media 0)

-- sbl_media_get_loop_time_ns. The validations inside sbl_media_calc_loop_time pass, for its instance
-- and port are those in use here.
unfoldable pub get_loop_time_ns : Bool → Link → ℕ
unfolding check_len_supported calc_loop_time
get_loop_time_ns measurement_only l =
    if not l.mconfigured
    then 0
    else if not (l.llr_loop_time == 0)
    then l.llr_loop_time
    else if measurement_only
    then 0
    else if not (check_len_supported l.mattr.len l)
    then 0
    else if (calc_loop_time l).0 == 0
    then (calc_loop_time l).1
    else 0

-- sbl_media_validate_config
unfoldable pub media_validate_config : Link → ℕ
media_validate_config l =
    if not (l.mconfigured && l.blconfigured)
    then euclean
    else if (l.mattr.media == media_electrical) && (l.blattr.config_target == config_pec)
    then 0
    else if (l.mattr.media == media_optical) && (l.blattr.config_target == config_aoc)
    then 0
    else emediumtype
