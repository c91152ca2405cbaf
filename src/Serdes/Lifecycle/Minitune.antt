-- ===== src/Serdes/Lifecycle/Minitune.antt =====
-- The wait of a quick tuning for the signal of a link partner: sbl_serdes_minitune_block, with the masks of
-- the serdes that a link mode uses (drivers/net/ethernet/hpe/sbl/sbl_serdes_fn.c). A scan of the serdes
-- reads no register of a serdes that is not used or has already shown its signal.
pub mod Ends
use ss_sbl.Prelude.{
  ℕ, zero, suc, ◌+◌, ◌*◌, ◌==◌, Bool, not, ◌&&◌, ◌||◌, if◌then◌else◌, Option, none, some, test_bit,
  set_bit,
}
use ss_sbl.Link.{Link}
use ss_sbl.Link.Consts.{
  ebade, etime, ecanceled, etimedout, mode_bs_200g, mode_bj_100g, mode_cd_100g, mode_cd_50g,
  loopback_local,
}
use ss_sbl.Kernel.{u32, u64, time_is_after_jiffies}
use ss_sbl.Timers.{start_timeout}
use ss_sbl.Serdes.Lifecycle.{Board, State, SerdesCall, call}

-- The bits SERDES_CORE_STATUS_RX_IDLE_DETECT_MASK and SERDES_CORE_STATUS_RX_SIG_OK_MASK
abbrev pub rx_idle_detect_bit : ℕ
rx_idle_detect_bit = 32

abbrev pub rx_sig_ok_bit : ℕ
rx_sig_ok_bit = 4

-- SPICO_INT_CM4_HAL_READ, SPICO_INT_CM4_HAL_WRITE, SPICO_INT_DATA_EID_FILTER_SEL and
-- SPICO_INT_DATA_EID_FILTER_OFF
abbrev pub spico_hal_read : ℕ
spico_hal_read = 0x2C

abbrev pub spico_hal_write : ℕ
spico_hal_write = 0x6C

abbrev pub eid_filter_sel : ℕ
eid_filter_sel = 0x11C

abbrev pub eid_filter_off : ℕ
eid_filter_off = 0

-- The first of the serdes i, ..., whose lane source is 0
unfoldable pub mask_50g : (ℕ → ℕ) → ℕ → ℕ → ℕ
mask_50g source zero i = 0
mask_50g source (suc n) i =
    let rest = mask_50g source n (i + 1) in if source i == 0 then set_bit i 0 else rest

-- Those whose lane source is 0 or 1
unfoldable pub mask_100g : (ℕ → ℕ) → ℕ → ℕ → ℕ → ℕ
mask_100g source zero i mask = mask
mask_100g source (suc n) i mask =
    mask_100g source n (i + 1) (if source i == 0 || source i == 1 then set_bit i mask else mask)

unfoldable pub mask_of : (ℕ → ℕ) → ℕ → ℕ → ℕ
mask_of source num_serdes mode =
    if mode == mode_cd_50g
    then mask_50g source num_serdes 0
    else if mode == mode_cd_100g
    then mask_100g source num_serdes 0 0
    else if mode == mode_bs_200g || mode == mode_bj_100g
    then 0xF
    else 0

module _ {H : Type 0} (b : Board H) where
  -- get_serdes_tx_mask and get_serdes_rx_mask
  unfoldable pub serdes_tx_mask : Link → ℕ
  serdes_tx_mask l = mask_of b.tx_lane_source b.num_serdes l.link_mode

  unfoldable pub serdes_rx_mask : Link → ℕ
  serdes_rx_mask l =
      if l.loopback_mode == loopback_local
      then serdes_tx_mask l
      else mask_of b.rx_lane_source b.num_serdes l.link_mode

  -- rx_serdes_required_for_link_mode
  unfoldable pub rx_serdes_required : Link → ℕ → Bool
  rx_serdes_required l serdes = test_bit serdes (serdes_rx_mask l)

  abbrev pub has_signal : ℕ → Bool
  has_signal status =
      not (test_bit rx_idle_detect_bit status) && not (test_bit rx_sig_ok_bit status)

  -- The loop over the serdes i, ..., that looks for their signals, with the mask of those that have one
  unfoldable pub sig_ok_scan : ℕ → ℕ → ℕ → State H → State H × ℕ
  sig_ok_scan zero i mask s = (s, mask)
  sig_ok_scan (suc n) i mask s =
      let (h, status) = b.core_status i s.hw in
      let skip = sig_ok_scan n (i + 1) mask s in
      let look =
        sig_ok_scan n (i + 1) (if has_signal status then set_bit i mask else mask)
          (record s { hw = h }) in
      if not (rx_serdes_required s.link i) || test_bit i mask then skip else look

  -- The wait for them, up to the tick `last`
  unfoldable pub sig_ok_wait : ℕ → ℕ → ℕ → State H → Option (State H × ℕ)
  sig_ok_wait zero last mask s = none
  sig_ok_wait (suc fuel) last mask s =
      let (s₁, mask₁) = sig_ok_scan b.num_serdes 0 mask s in
      let s₂ = record s₁ { hw = b.pause b.lpd_poll_interval s₁.hw } in
      let rest = sig_ok_wait fuel last mask₁ s₂ in
      if mask₁ == serdes_rx_mask s₁.link
      then some (s₁, mask₁)
      else if b.cancelled s₁.hw
      then some (s₁, mask₁)
      else if start_timeout b.kernel (b.jiffies s₁.hw) s₁.link.timing
      then some (s₁, mask₁)
      else if time_is_after_jiffies b.kernel (b.jiffies s₂.hw) last
      then rest
      else some (s₂, mask₁)

  abbrev pub spico_int : ℕ → ℕ → ℕ → State H → State H × (ℕ × ℕ)
  spico_int serdes code value s =
      let (h, r) = b.spico_int serdes code value s.hw in (record s { hw = h }, r)

  -- The loop over the serdes i, ..., that disables their filters of the electrical idle
  unfoldable pub filters_off : ℕ → ℕ → State H → State H × ℕ
  filters_off zero i s = (s, 0)
  filters_off (suc n) i s =
      let (s₁, (err₁, value)) = spico_int i spico_hal_read eid_filter_sel s in
      let (s₂, (err₂, result)) = spico_int i spico_hal_write eid_filter_off s₁ in
      let skip = filters_off n (i + 1) s in
      let next = filters_off n (i + 1) s₂ in
      if not (rx_serdes_required s.link i)
      then skip
      else if not (err₁ == 0)
      then (s₁, err₁)
      else if not (err₂ == 0)
      then (s₂, err₂)
      else if not (result == spico_hal_read)
      then (s₂, ebade)
      else next

  -- What follows sbl_serdes_dfe_tune_wait, with its error
  unfoldable pub minitune_result : ℕ → ℕ → State H × ℕ → State H × ℕ
  minitune_result required mask (s, err) =
      if b.cancelled s.hw
      then (s, ecanceled)
      else if start_timeout b.kernel (b.jiffies s.hw) s.link.timing
      then (s, etimedout)
      else if not (mask == required)
      then (s, etime)
      else (s, err)

  -- What follows the wait for the signals of the serdes `required`
  unfoldable pub minitune_tuned : ℕ → ℕ → State H → State H × ℕ
  minitune_tuned required mask s =
      let (s', err) = filters_off b.num_serdes 0 s in
      if not (err == 0)
      then (s', err)
      else minitune_result required mask (call b SerdesCall.dfe_tune_wait s')

  -- `last_jiffy`
  unfoldable pub lpd_deadline : State H → ℕ
  lpd_deadline s = u64 (b.jiffies s.hw + b.kernel.msecs_to_jiffies (u32 (1000 * b.lpd_timeout)))

  -- sbl_serdes_minitune_block
  unfoldable pub minitune_block : ℕ → State H → Option (State H × ℕ)
  minitune_block fuel s = elim (sig_ok_wait fuel (lpd_deadline s) 0 s) [
    | none ↦ none
    | some (s', mask) ↦ some (minitune_tuned (serdes_rx_mask s.link) mask s')
  ]
