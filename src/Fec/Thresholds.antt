-- ===== src/Fec/Thresholds.antt =====
-- Where the FEC thresholds come from: the tables of sbl_link.c for a link's mode and media, and what
-- nic/sbl_fec_nic.c and sw/sbl_fec_sw.c take of the parameters.
use ss_sbl.Prelude.{ℕ, Bool, not, ◌/◌, Option, none, some, ◌||◌, if◌then◌else◌, ◌==◌}
use ss_sbl.Link.{Link, FecPrmts, is_running}
use ss_sbl.Link.Consts.{
  enavail, media_electrical, media_optical, loopback_local, mode_bs_200g, mode_bj_100g,
  mode_cd_100g, mode_cd_50g,
}

-- A switch over the link mode with a value for each, and 0 in its default case.
abbrev by_mode : ℕ → ℕ → ℕ → ℕ → ℕ → ℕ
by_mode mode bs_200g bj_100g cd_100g cd_50g =
    if mode == mode_bs_200g
    then bs_200g
    else if mode == mode_bj_100g
    then bj_100g
    else if mode == mode_cd_100g
    then cd_100g
    else if mode == mode_cd_50g
    then cd_50g
    else 0

-- sbl_link_get_ucw_thresh_hpe
unfoldable pub ucw_thresh_hpe : Link → ℕ
ucw_thresh_hpe l = by_mode l.link_mode 21 11 11 5

-- sbl_link_get_ucw_thresh_ieee
unfoldable pub ucw_thresh_ieee : Link → ℕ
unfolding ucw_thresh_hpe
ucw_thresh_ieee l = ucw_thresh_hpe l

-- The test for an electrical link that the corrected codeword tables share.
abbrev pub is_electrical : Link → Bool
is_electrical l = (l.mattr.media == media_electrical) || (l.loopback_mode == loopback_local)

-- sbl_link_get_ccw_thresh_hpe
unfoldable pub ccw_thresh_hpe : Link → ℕ
ccw_thresh_hpe l =
    if is_electrical l
    then by_mode l.link_mode 21250000 10312500 10625000 5312500
    else if l.mattr.media == media_optical
    then by_mode l.link_mode 85000000 41250000 42500000 21250000
    else 0

-- sbl_link_get_ccw_thresh_ieee
unfoldable pub ccw_thresh_ieee : Link → ℕ
ccw_thresh_ieee l = by_mode l.link_mode 42500000 21250000 21250000 10625000

-- sbl_link_get_stp_ccw_thresh_hpe
unfoldable pub stp_ccw_thresh_hpe : Link → ℕ
stp_ccw_thresh_hpe l =
    if is_electrical l
    then by_mode l.link_mode 2125 1031 1062 531
    else if l.mattr.media == media_optical
    then by_mode l.link_mode 8500 4125 4250 2125
    else 0

-- sbl_link_get_stp_ccw_thresh_ieee
unfoldable pub stp_ccw_thresh_ieee : Link → ℕ
stp_ccw_thresh_ieee l = by_mode l.link_mode 4250 2125 2125 1062

-- sbl_link_get_fec_thresholds of nic/sbl_link_nic.c: the error, and the thresholds for the uncorrected
-- and the corrected codewords and for the warning of a lane
unfoldable pub get_fec_thresholds : Link → ℕ × Option (ℕ × ℕ × ℕ)
get_fec_thresholds l =
    if not (is_running l.sstate)
    then (enavail, none)
    else if l.link_mode == mode_bs_200g
    then (0, some (21, 21250000, 21250000 / 8))
    else if l.link_mode == mode_bj_100g
    then (0, some (11, 10312500, 10312500 / 8))
    else if l.link_mode == mode_cd_100g
    then (0, some (11, 10625000, 10625000 / 4))
    else if l.link_mode == mode_cd_50g
    then (0, some (5, 5312500, 5312500 / 2))
    else (enavail, none)

-- The builds of the driver.
pub data Platform : Type 0 where
  cassini : Platform
  rosetta : Platform

-- sbl_fec_ucw_bad_get: the threshold and the high water mark.
unfoldable pub ucw_bad_get : Platform → FecPrmts → ℕ × ℕ
ucw_bad_get Platform.cassini f = (21, f.ucw_hwm)
ucw_bad_get Platform.rosetta f = (f.ucw_thresh, f.ucw_hwm)

-- sbl_fec_ccw_bad_get; the flag picks the threshold for saved tuning parameters.
unfoldable pub ccw_bad_get : Platform → FecPrmts → Bool → ℕ × ℕ
ccw_bad_get Platform.cassini f use_stp = (21250000, f.ccw_hwm)
ccw_bad_get Platform.rosetta f use_stp =
    (if use_stp then f.stp_ccw_thresh else f.ccw_thresh, f.ccw_hwm)
