-- ===== src/BaseLink/Detect.antt =====
-- The first steps of starting a link: the firmware of the serdes, the link mode, and the link partner
-- (sbl_link.c).
use ss_sbl.Prelude.{ℕ, zero, suc, ◌+◌, Bool, true, false, ◌==◌, if◌then◌else◌, test_bit, not}
use ss_sbl.Link.{SerdesStatus, Link}
use ss_sbl.Link.Consts.{
  enomedium, emediumtype, etime, loopback_local, media_electrical, media_optical, an_mode_off,
  opt_serdes_lpd,
}
use ss_sbl.Media.{check_mode_supported}
use ss_sbl.BaseLink.{
  Call, Env, World, call, on_link, attempt, link_info_set, link_info_clear, info_lp_det,
}

module _ {H : Type 0} (env : Env H) where
  -- The `if` on SBL_OPT_SERDES_LPD in sbl_base_link_lp_detect.
  unfoldable pub lp_ask : World H → World H × ℕ
  unfolding call
  lp_ask w =
      if test_bit opt_serdes_lpd w.link.blattr.options
      then (let (v, e) = call env Call.serdes_lp_detect w in
          (on_link (λ l. record l { lp_detected = if e == 0 then true else l.lp_detected }) v, e))
      else (w, 0)

  -- sbl_base_link_lp_detect
  unfoldable pub lp_detect : World H → World H × ℕ
  unfolding lp_ask link_info_set link_info_clear
  lp_detect w =
      if w.link.lp_detected
      then (w, 0)
      else (let w₁ = on_link (link_info_set info_lp_det) w in
          let (w₂, err) = lp_ask w₁ in (on_link (link_info_clear info_lp_det) w₂, err))

  -- The label `reload_fw` of sbl_base_link_check_fix_fw.
  unfoldable pub reload_fw : World H → World H × ℕ
  unfolding call
  reload_fw w =
      let (v, err) = call env (Call.serdes_firmware_flash_safe false) w in
      (
        on_link (λ l. record l { sstate = if err == 0 then l.sstate else SerdesStatus.error }) v,
        err,
      )

  -- The loop of sbl_base_link_check_fix_fw: `n` serdes are left, and the next is number `serdes`.
  unfoldable pub check_fix_fw_from : ℕ → ℕ → World H → World H × ℕ
  unfolding attempt call reload_fw
  check_fix_fw_from zero serdes w = (w, 0)
  check_fix_fw_from (suc n) serdes w =
      attempt (call env (Call.validate_serdes_fw_crc serdes)) (λ err. reload_fw)
        (check_fix_fw_from n (serdes + 1)) w

  -- sbl_base_link_check_fix_fw
  unfoldable pub check_fix_fw : World H → World H × ℕ
  unfolding check_fix_fw_from
  check_fix_fw w = check_fix_fw_from env.num_serdes 0 w

  -- sbl_link_get_mode_electrical
  unfoldable pub get_mode_electrical : World H → World H × ℕ
  unfolding call
  get_mode_electrical w = call env Call.link_autoneg w

  -- sbl_link_get_mode_optical
  unfoldable pub get_mode_optical : World H → World H × ℕ
  get_mode_optical w = (on_link (λ l. record l { link_mode = l.blattr.link_mode }) w, 0)

  -- The switch on the media in sbl_base_link_get_mode.
  unfoldable pub media_mode : World H → World H × ℕ
  unfolding get_mode_electrical get_mode_optical
  media_mode w =
      if w.link.mattr.media == media_electrical
      then get_mode_electrical w
      else if w.link.mattr.media == media_optical
      then get_mode_optical w
      else (w, enomedium)

  -- sbl_base_link_get_mode
  unfoldable pub get_mode : World H → World H × ℕ
  unfolding media_mode check_mode_supported get_mode_optical
  get_mode w =
      if w.link.loopback_mode == loopback_local
      then get_mode_optical w
      else (let (v, err) = media_mode w in
          if not (err == 0)
          then (v, err)
          else if check_mode_supported v.link.link_mode v.link
          then (v, 0)
          else (v, emediumtype))

  -- sbl_base_link_an_timed_out
  unfoldable pub an_timed_out : ℕ → Link → Bool
  an_timed_out err l =
      if not (err == etime)
      then false
      else if not (l.mattr.media == media_electrical)
      then false
      else if l.blattr.an_mode == an_mode_off
      then false
      else true
