-- ===== src/Fec/Tables.antt =====
-- The thresholds that nic/sbl_link_nic.c tells are those of the tables of sbl_link.c.
use ss_sbl.Prelude.{ℕ, ◌≡◌, refl, ◌⊎◌, inl, inr, true, false, none, some}
use ss_sbl.Link.{Link, is_running}
use ss_sbl.Link.Consts.{enavail, mode_bs_200g, mode_bj_100g, mode_cd_100g, mode_cd_50g}
use ss_sbl.Fec.Thresholds.{get_fec_thresholds, ucw_thresh_hpe, ccw_thresh_hpe, is_electrical}
use ss_sbl.Fec.Settings.{fecl_warn_of}

-- One of the four modes
abbrev pub Known : ℕ → Type 0
Known m = (m ≡ mode_bs_200g) ⊎ (m ≡ mode_bj_100g) ⊎ (m ≡ mode_cd_100g) ⊎ (m ≡ mode_cd_50g)

-- On an electrical link in a known mode whose serdes run, the thresholds that are told are those that
-- the tables of the link give for the FEC monitor, and the warning that it derives from them. Where the
-- serdes do not run there is no threshold, and -ENAVAIL is returned.
pub get_fec_thresholds-tables :
    (l : Link)
    → is_electrical l ≡ true
    → Known l.link_mode
    → (is_running l.sstate ≡ true
        → get_fec_thresholds l ≡ (
          0,
          some (ucw_thresh_hpe l, ccw_thresh_hpe l, fecl_warn_of l.link_mode (ccw_thresh_hpe l)),
        ))
      × (is_running l.sstate ≡ false → get_fec_thresholds l ≡ (enavail, none))
unfolding get_fec_thresholds ucw_thresh_hpe ccw_thresh_hpe fecl_warn_of
get_fec_thresholds-tables l e (inl m) = (λ r. rw (r, e, m) refl, λ r. rw r refl)
get_fec_thresholds-tables l e (inr (inl m)) = (λ r. rw (r, e, m) refl, λ r. rw r refl)
get_fec_thresholds-tables l e (inr (inr (inl m))) = (λ r. rw (r, e, m) refl, λ r. rw r refl)
get_fec_thresholds-tables l e (inr (inr (inr m))) = (λ r. rw (r, e, m) refl, λ r. rw r refl)
