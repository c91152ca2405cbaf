-- ===== src/Pml/Mac.antt =====
-- The MAC of a port: drivers/net/ethernet/hpe/sbl/sbl_pml_mac.c.
use ss_sbl.Prelude.{ℕ, ◌==◌, [], ◌∷◌, if◌then◌else◌, test_bit}
use ss_sbl.Link.{Link}
use ss_sbl.Link.Consts.{
  opt_enable_ifg_config, opt_fabric_link, ifg_config_hpc, ifg_config_ieee_200g,
  ifg_config_ieee_100g, mode_bs_200g, mode_bj_100g, mode_cd_100g, info_mac_op,
}
use ss_sbl.Pml.Regs.{Reg, Field, ErrFlag, flags_word}
use ss_sbl.Pml.{
  Board, P, return, ◌>>=◌, ◌>>◌, update, gets, info_set, info_clear, read64, write64, modify, flush,
  get, put,
}

-- The mode of the inter-frame gap and its adjustment, by the configuration and by the link mode
unfoldable pub ifg_by_config : ℕ → ℕ × ℕ
ifg_by_config c =
    if c == ifg_config_hpc
    then (0, 3)
    else if c == ifg_config_ieee_200g
    then (1, 0)
    else if c == ifg_config_ieee_100g
    then (1, 1)
    else (1, 2)

unfoldable pub ifg_by_mode : ℕ → ℕ × ℕ
ifg_by_mode m =
    if m == mode_bs_200g
    then (1, 0)
    else if m == mode_bj_100g
    then (1, 1)
    else if m == mode_cd_100g
    then (1, 1)
    else (1, 2)

-- What sbl_pml_mac_get_mode finds, once it has set the configuration of the link.
unfoldable pub ifg_of : Link → ℕ × ℕ
unfolding ifg_by_config ifg_by_mode
ifg_of l =
    if test_bit opt_enable_ifg_config l.blattr.options
    then ifg_by_config l.pml.ifg_config
    else if test_bit opt_fabric_link l.blattr.options
    then (0, 3)
    else ifg_by_mode l.link_mode

module _ {H : Type 0} (b : Board H) where
  -- sbl_pml_mac_get_mode
  unfoldable pub mac_get_mode : P H (ℕ × ℕ)
  mac_get_mode = do
    update (λ l. record l { pml = record (l.pml) { ifg_config = l.blattr.ifg_config } })
    gets ifg_of

  -- sbl_pml_mac_config
  unfoldable pub mac_config : P H ℕ
  mac_config = do
    mode ← mac_get_mode
    modify b Reg.cfg_tx_mac (λ v. put b Field.tx_mac_operational 0 (
        put b Field.tx_mac_short_preamble 0 (
          put b Field.tx_mac_ifg_adjustment mode.1 (
            put b Field.tx_mac_ifg_mode mode.0
              (put b Field.tx_mac_pcs_credits (b.header.field_dflt Field.tx_mac_pcs_credits) v)))))
    flush b Reg.cfg_tx_mac
    modify b Reg.cfg_rx_mac (λ v.
        put b Field.rx_mac_operational 0
          (put b Field.rx_mac_filter_illegal_size 1 (put b Field.rx_mac_short_preamble 0 v)))
    flush b Reg.cfg_rx_mac
    return 0

  -- sbl_pml_mac_start
  unfoldable pub mac_start : P H (Unit {0})
  mac_start = do
    modify b Reg.cfg_tx_mac (put b Field.tx_mac_operational 1)
    flush b Reg.cfg_tx_mac
    modify b Reg.cfg_rx_mac (put b Field.rx_mac_operational 1)
    flush b Reg.cfg_rx_mac
    write64 b Reg.err_clr (flags_word b.header (ErrFlag.mac_tx_dp_err ∷ ErrFlag.mac_rx_dp_err ∷ []))
    flush b Reg.err_clr
    info_set info_mac_op

  -- sbl_pml_mac_stop
  unfoldable pub mac_stop : P H (Unit {0})
  mac_stop = do
    modify b Reg.cfg_rx_mac (put b Field.rx_mac_operational 0)
    flush b Reg.cfg_rx_mac
    modify b Reg.cfg_tx_mac (put b Field.tx_mac_operational 0)
    flush b Reg.cfg_tx_mac
    info_clear info_mac_op

  -- sbl_pml_mac_hw_status, for a caller that asks for all of it
  pub mac_hw_status : P H (ℕ × ℕ × ℕ × ℕ)
  mac_hw_status = do
    tx ← read64 b Reg.cfg_tx_mac
    rx ← read64 b Reg.cfg_rx_mac
    return (
      get b Field.tx_mac_operational tx,
      get b Field.rx_mac_operational rx,
      get b Field.tx_mac_ifg_mode tx,
      get b Field.tx_mac_ifg_adjustment tx,
    )

  -- sbl_pml_mac_hpc_set
  unfoldable pub mac_hpc_set : P H (Unit {0})
  mac_hpc_set = do
    modify b Reg.cfg_tx_mac
        (λ v. put b Field.tx_mac_ifg_adjustment 3 (put b Field.tx_mac_ifg_mode 0 v))
    flush b Reg.cfg_tx_mac
