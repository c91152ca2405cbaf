-- ===== src/Autoneg/Negotiate.antt =====
-- sbl_link_autoneg (sbl_link_an.c): the attempts to negotiate, and when they end.
use ss_sbl.Prelude.{
  ℕ, ◌+◌, Bool, true, false, not, Option, none, some, List, [], ◌∷◌, ◌||◌, if◌then◌else◌, ◌==◌, ltb,
  test_bit, get_or, set,
}
use ss_sbl.Link.{Link, SerdesStatus}
use ss_sbl.Link.Consts.{
  einval, ebusy, etimedout, ecanceled, eproto, etime, enotuniq, an_mode_off, an_mode_on,
  an_mode_fixed, loopback_off, opt_autoneg_100cr4_fixup,
}
use ss_sbl.Kernel.{Kernel}
use ss_sbl.Timers.{update_start_timeout}
use ss_sbl.Fec.Thresholds.{Platform}
use ss_sbl.BaseLink.{link_info_clear}
use ss_sbl.Autoneg.{setup_tx_pages, ability_match, fixup_100cr4, new_timeout}

abbrev pub info_pcs_aneg : ℕ
info_pcs_aneg = 1

-- What one attempt finds: whether the start timeout has passed and whether the start was cancelled, the
-- starts of the serdes and of the PML block, the exchange of pages, the stop of the serdes, and the ticks
-- when the timeout is set.
pub record Attempt : Type 0 where
  pub timed_out : Bool
  pub cancelled : Bool
  pub serdes_start : Link → Link × ℕ
  pub pml_setup : Link → Link × ℕ
  pub exchange : Link → Link × ℕ
  pub serdes_stop : Link → Link
  pub jiffies : ℕ

-- The port around the attempts, as the functions of the PML block and of the serdes change its link:
-- `busy` tells that the PCS or autonegotiation is enabled; the others are sbl_pml_install_intr_handler,
-- sbl_an_serdes_stop, sbl_pml_disable_intr_handler and sbl_pml_remove_intr_handler, all for the flags of
-- autonegotiation, and sbl_pml_err_flgs_clear_all.
pub record Port : Type 0 where
  pub busy : Bool
  pub install_intr_handler : Link → Link × ℕ
  pub an_serdes_stop : Link → Link
  pub disable_intr_handler : Link → Link
  pub remove_intr_handler : Link → Link
  pub err_flgs_clear_all : Link → Link

-- How an attempt leaves the loop: by `break`, with the error, or by `continue`.
pub data Step : Type 0 where
  leave : Link → ℕ → Step
  again : Link → Step

module _ (k : Kernel) (is_hw : Bool) where
  -- sbl_an_update_timeout, at the ticks `jiffies`
  unfoldable pub an_update_timeout : ℕ → Link → Link
  unfolding new_timeout update_start_timeout
  an_update_timeout jiffies l = if new_timeout l == 0 then l else record l {
    timing =
        update_start_timeout k jiffies (new_timeout l)
          (record (l.timing) { an_timeout_active = true });
  }

  -- The part from sbl_an_ability_match on.
  unfoldable pub attempt_match : ℕ → Link → Step
  unfolding ability_match an_update_timeout
  attempt_match jiffies l =
      let (l', err) = ability_match is_hw l in
      if not (err == 0)
      then again l'
      else leave (record (an_update_timeout jiffies l') { lp_detected = true }) 0

  -- The partner's base page after the fixup.
  abbrev pub with_fixup : ℕ → Link → Link
  with_fixup page l = record l {
    an = record (l.an) { rx_page = set l.an.rx_page 0 page; fixup_applied = true };
  }

  -- The branch for -EPROTO.
  unfoldable pub attempt_fixup : Attempt → Link → Step
  unfolding fixup_100cr4 attempt_match
  attempt_fixup a l =
      let (page, fixed) = fixup_100cr4 (get_or l.an.tx_page 0 0) (get_or l.an.rx_page 0 0) in
      if not (test_bit opt_autoneg_100cr4_fixup l.blattr.options)
      then attempt_match a.jiffies l
      else if fixed
      then attempt_match a.jiffies (with_fixup page l)
      else again (a.serdes_stop l)

  -- What is done about the result of the exchange.
  unfoldable pub attempt_result : Attempt → Link × ℕ → Step
  unfolding attempt_fixup attempt_match
  attempt_result a (l, err) =
      if err == eproto
      then attempt_fixup a l
      else if err == etime
      then (if ltb l.an.try_count l.blattr.an_max_retry
          then again (a.serdes_stop l)
          else leave l etime)
      else if not (err == 0)
      then leave l err
      else attempt_match a.jiffies l

  -- One round of the loop.
  unfoldable pub attempt_step : Attempt → Link → Step
  unfolding attempt_result
  attempt_step a l =
      let l₀ = record l { an = record (l.an) { try_count = l.an.try_count + 1 } } in
      let (l₁, err₁) = a.serdes_start l₀ in
      let (l₂, err₂) = a.pml_setup l₁ in
      if a.timed_out
      then leave l₀ etimedout
      else if a.cancelled
      then leave l₀ ecanceled
      else if not (err₁ == 0)
      then leave l₁ err₁
      else if not (err₂ == 0)
      then leave l₂ err₂
      else attempt_result a (a.exchange l₂)

  -- The loop, with what its attempts find; `none` where they are over and it goes on.
  unfoldable pub negotiate : List Attempt → Link → Option (Link × ℕ)
  unfolding attempt_step
  negotiate [] l = none
  negotiate (a ∷ rest) l = elim (attempt_step a l) [
    | leave l' err ↦ some (l', err)
    | again l' ↦ negotiate rest l'
  ]

  -- The label `out` of sbl_link_autoneg.
  unfoldable pub autoneg_out : Port → Link → ℕ → Option (Link × ℕ)
  unfolding link_info_clear
  autoneg_out port l err = some (link_info_clear info_pcs_aneg (port.err_flgs_clear_all l), err)

  -- What follows the loop: the serdes are stopped, where they still negotiate, and the handler is disabled
  -- and removed.
  unfoldable pub autoneg_cleanup : Port → Option (Link × ℕ) → Option (Link × ℕ)
  unfolding autoneg_out
  autoneg_cleanup port none = none
  autoneg_cleanup port (some (l, err)) =
      let l' : Link = elim l.sstate [ SerdesStatus.autoneg ↦ port.an_serdes_stop l | _ ↦ l ] in
      autoneg_out port (port.remove_intr_handler (port.disable_intr_handler l')) err

  -- What sbl_link_autoneg does once the pages are set up.
  unfoldable pub autoneg_try : Port → List Attempt → Link → Option (Link × ℕ)
  unfolding autoneg_out autoneg_cleanup negotiate
  autoneg_try port attempts l =
      let (l', err) = port.install_intr_handler l in
      let started = record l' { an = record (l'.an) { fixup_applied = false; try_count = 0 } } in
      if not (err == 0)
      then autoneg_out port l' err
      else autoneg_cleanup port (negotiate attempts started)

  -- sbl_link_autoneg, behind the validations
  unfoldable pub link_autoneg : Platform → Port → List Attempt → Link → Option (Link × ℕ)
  unfolding autoneg_try autoneg_out setup_tx_pages
  link_autoneg p port attempts l =
      let l₀ = record l { an = record (l.an) { options = 0 }; link_mode = l.blattr.link_mode } in
      let (l₁, err) = setup_tx_pages p l₀ in
      if l.blattr.an_mode == an_mode_off
      then some (l₀, 0)
      else if not ((l.blattr.an_mode == an_mode_on) || (l.blattr.an_mode == an_mode_fixed))
      then some (l₀, einval)
      else if not (l.blattr.loopback_mode == loopback_off)
      then some (l₀, enotuniq)
      else if port.busy
      then autoneg_out port l₀ ebusy
      else if not (err == 0)
      then autoneg_out port l₁ err
      else autoneg_try port attempts l₁
