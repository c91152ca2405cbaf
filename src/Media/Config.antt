-- ===== src/Media/Config.antt =====
-- What configuring and unconfiguring the media (sbl_media.c) does to a link's readiness to start.
use ss_sbl.Prelude.{◌≡◌, ◌↔◌, ◌⊎◌, true, some, arith}
use ss_sbl.Link.{LinkStatus, MediaAttr, Link, is_idle}
use ss_sbl.Link.Consts.{
  media_attr_magic, media_electrical, media_optical, config_pec, config_aoc, euclean,
}
use ss_sbl.Media.{media_config_link, media_unconfig_link, media_validate_config}

-- The media goes with the kind of link that is configured.
abbrev pub Suits : MediaAttr → Link → Type 0
Suits m l =
    ((m.media ≡ media_electrical) × (l.blattr.config_target ≡ config_pec))
    ⊎ ((m.media ≡ media_optical) × (l.blattr.config_target ≡ config_aoc))

-- Media attributes with the right magic number, given to an idle link whose base link is configured,
-- are accepted, take the link to DOWN and drop the measured loop time; and the start of the link then
-- finds the configuration suitable exactly when the media goes with the configured kind of link.
pub validate-media_config :
    (m : MediaAttr) (l : Link)
    → m.magic ≡ media_attr_magic
    → is_idle l.blstate ≡ true
    → l.blconfigured ≡ true
    → ((media_config_link (some m) l).1 ≡ 0)
      × ((media_config_link (some m) l).0.blstate ≡ LinkStatus.down)
      × ((media_config_link (some m) l).0.llr_loop_time ≡ 0)
      × ((media_validate_config (media_config_link (some m) l).0 ≡ 0) ↔ Suits m l)
unfolding media_config_link media_validate_config
validate-media_config m l hm hs hb =
    (ground arith, ground arith, ground arith, (λ e. ground arith, λ e. ground arith))

-- Whatever the link was, after a successful sbl_media_unconfig it is UNCONFIGURED and a start without
-- local loopback is refused for want of configuration; a refused one leaves the link as it was.
pub validate-media_unconfig :
    (l : Link)
    → (((media_unconfig_link l).1 ≡ 0)
        × ((media_unconfig_link l).0.blstate ≡ LinkStatus.unconfigured)
        × (media_validate_config (media_unconfig_link l).0 ≡ euclean))
      ⊎ (((media_unconfig_link l).1 ≡ euclean) × ((media_unconfig_link l).0 ≡ l))
unfolding media_unconfig_link media_validate_config
validate-media_unconfig l = ground arith
