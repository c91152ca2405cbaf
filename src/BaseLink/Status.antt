-- ===== src/BaseLink/Status.antt =====
-- The configuration, the status and the flags of a base link (sbl_link.c).
use ss_sbl.Prelude.{
  ℕ, ◌≡◌, ◌≢◌, Bool, true, false, not, Option, none, some, ℤ, arith, if◌then◌else◌, ◌==◌, set_bit,
  clear_bit, test_bit, test_bit-set_bit, test_bit-clear_bit, test_bit-set_bit_ne,
  test_bit-clear_bit_ne, ◌<◌,
}
use ss_sbl.Link.{LinkStatus, SerdesStatus, BaseLinkAttr, Link, Inst, is_idle, is_running}
use ss_sbl.Link.Consts.{
  einval, euclean, link_attr_magic, loopback_local, opt_use_saved_params, opt_lane_degrade,
  opt_disable_pml_recovery,
}
use ss_sbl.Link.Port.{on_port}
use ss_sbl.BaseLink.{link_info_set, link_info_clear}

-- sbl_get_lp_subtype, behind the validations; `buffer` tells that the pointer is not null.
unfoldable pub get_lp_subtype : Bool → Link → Link × (ℕ × Option ℕ)
get_lp_subtype buffer l = (l, if not buffer then (einval, none) else (0, some l.lp_subtype))

-- The part of sbl_base_link_config behind the validations; `none` is a null pointer.
unfoldable pub base_link_config_link : Option BaseLinkAttr → Link → Link × ℕ
base_link_config_link none l = (l, einval)
base_link_config_link (some blattr) l =
    if not (blattr.magic == link_attr_magic)
    then (l, einval)
    else if not (is_idle l.blstate)
    then (l, euclean)
    else (
      record l {
        blattr = blattr;
        blconfigured = true;
        blstate =
            if blattr.loopback_mode == loopback_local
            then LinkStatus.down
            else if l.mconfigured
            then LinkStatus.down
            else l.blstate;
      },
      0,
    )

-- sbl_base_link_config
unfoldable pub base_link_config : Option Inst → ℤ → Option BaseLinkAttr → Option Inst × ℕ
unfolding base_link_config_link on_port
base_link_config sbl port blattr = on_port sbl port (λ e. e) (base_link_config_link blattr)

-- sbl_ignore_save_tuning_param, sbl_enable_opt_lane_degrade and sbl_disable_pml_recovery
unfoldable pub set_option : ℕ → Bool → Link → Link
set_option bit on l = record l {
  blattr = record (l.blattr) {
    options = if on then set_bit bit l.blattr.options else clear_bit bit l.blattr.options;
  };
}

unfoldable pub ignore_save_tuning_param : Bool → Link → Link
unfolding set_option
ignore_save_tuning_param ignore l = set_option opt_use_saved_params (not ignore) l

unfoldable pub enable_opt_lane_degrade : Bool → Link → Link
unfolding set_option
enable_opt_lane_degrade enable l = set_option opt_lane_degrade enable l

unfoldable pub disable_pml_recovery : Bool → Link → Link
unfolding set_option
disable_pml_recovery disable l = set_option opt_disable_pml_recovery disable l

-- sbl_set_degraded_flag, sbl_clear_degraded_flag and sbl_get_degraded_flag
unfoldable pub set_degraded_flag : Link → Link
set_degraded_flag l = record l { is_degraded = true }

unfoldable pub clear_degraded_flag : Link → Link
clear_degraded_flag l = record l { is_degraded = false }

unfoldable pub get_degraded_flag : Link → Bool
get_degraded_flag l = l.is_degraded

-- sbl_base_link_enable_start
unfoldable pub base_link_enable_start : Link → Link
base_link_enable_start l = record l { start_cancelled = false }

-- sbl_base_link_start_cancelled
unfoldable pub base_link_start_cancelled : Link → Bool
base_link_start_cancelled l = l.start_cancelled

-- What sbl_base_link_get_status gives through those of its pointers that are not null.
pub record Status : Type 0 where
  pub blstate : LinkStatus
  pub blerr : ℕ
  pub sstate : SerdesStatus
  pub serr : ℕ
  pub media_type : ℕ
  pub link_mode : ℕ

-- sbl_base_link_get_status, behind the validations
unfoldable pub base_link_get_status : Link → Status
base_link_get_status l = record {
  blstate = l.blstate;
  blerr = l.blerr;
  sstate = l.sstate;
  serr = l.serr;
  media_type = l.mattr.media;
  link_mode = if is_running l.sstate then l.link_mode else l.blattr.link_mode;
}

-- Setting an option of the link leaves every other option as it was, and the option reads back; and so
-- for a bit of the link info, among the seventeen that there are.
pub flags_read_back :
    (bit other : ℕ) (on : Bool) (l : Link)
    → bit < 17
    → other ≢ bit
    → (test_bit bit (set_option bit on l).blattr.options ≡ on)
      × (test_bit other (set_option bit on l).blattr.options ≡ test_bit other l.blattr.options)
      × (test_bit bit (link_info_set bit l).link_info ≡ true)
      × (test_bit bit (link_info_clear bit l).link_info ≡ false)
      × (test_bit other (link_info_set bit l).link_info ≡ test_bit other l.link_info)
      × (test_bit other (link_info_clear bit l).link_info ≡ test_bit other l.link_info)
unfolding set_option link_info_set link_info_clear
flags_read_back bit other on l hb ne =
    let o = l.blattr.options in
    let i = l.link_info in
    ground (
      arith,
      test_bit-set_bit bit o,
      test_bit-clear_bit bit o,
      test_bit-set_bit_ne other bit o ne,
      test_bit-clear_bit_ne other bit o ne,
      test_bit-set_bit bit i,
      test_bit-clear_bit bit i,
      test_bit-set_bit_ne other bit i ne,
      test_bit-clear_bit_ne other bit i ne,
    )
