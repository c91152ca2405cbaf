-- ===== src/Serdes/Lifecycle.antt =====
-- The states of the serdes of a port: sbl_serdes_start, sbl_serdes_stop, sbl_serdes_reset,
-- sbl_an_serdes_start and sbl_an_serdes_stop (drivers/net/ethernet/hpe/sbl/sbl_serdes.c), and the tuning
-- parameters that are saved. The functions of sbl_serdes_fn.c that they call are calls with a result.
pub mod Settled
pub mod Minitune
pub mod Detect
mod Tests
use ss_sbl.Prelude.{
  ℕ, zero, suc, ◌+◌, ◌*◌, ◌==◌, Bool, true, false, not, ◌&&◌, ◌||◌, if◌then◌else◌, Option, none,
  some, List, [], ◌∷◌, map, test_bit,
}
use ss_sbl.Link.{Link, SerdesStatus, Timing, is_running}
use ss_sbl.Link.Consts.{
  einval, enodata, ebade, euclean, ecanceled, etimedout, media_electrical, media_optical,
  config_aoc, loopback_local, an_mode_on, an_mode_fixed, opt_reset_clear_params,
  opt_reload_fw_on_timeout, debug_inhibit_spll_reset, debug_keep_serdes_up,
  debug_force_reload_serdes_fw,
}
use ss_sbl.Kernel.{Kernel, u64, u32, time_is_after_jiffies}
use ss_sbl.Timers.{start_timeout, start_timeout_ensure_remaining}
use ss_sbl.Media.{debug_option}

-- The calls, with the serdes that they are for: sbl_port_stop_pcal, sbl_set_tx_rx_enable (off),
-- sbl_spico_reset, sbl_serdes_config for autonegotiation or not, sbl_serdes_tuning, sbl_reset_serdes_plls,
-- sbl_serdes_soft_reset, sbl_serdes_firmware_flash_safe, sbl_serdes_minitune_setup,
-- sbl_serdes_dfe_tune_wait, sbl_apply_sbus_divider, sbl_sbm_firmware_flash and
-- sbl_serdes_firmware_flash, with `force`
pub data SerdesCall : Type 0 where
  stop_pcal spico_reset tuning reset_plls flash_safe : SerdesCall
  minitune_setup dfe_tune_wait apply_sbus_divider sbm_firmware_flash : SerdesCall
  firmware_flash : Bool → SerdesCall
  disable soft_reset : ℕ → SerdesCall
  config : Bool → SerdesCall

-- struct sbl_tuning_params; the parameters of a serdes are its fourteen arrays.
pub record TuningParams : Type 0 where
  pub magic : ℕ
  pub version : ℕ
  pub tp_state_hash0 : ℕ
  pub tp_state_hash1 : ℕ
  pub params : List (List (List ℕ))

-- The instance around the port. A call may change the link, and gives a result; `pause` sleeps so many
-- milliseconds; `core_status` reads SBL_PML_SERDES_CORE_STATUS of a serdes, and `spico_int` is
-- sbl_serdes_spico_int with a code and its data, which gives an error and a result. The lane sources are
-- those of the serdes of the port in switch_info, where they are 0 to 3. The last six are fields of
-- link->blattr.
pub record Board (H : Type 0) : Type 0 where
  pub kernel : Kernel
  pub num_serdes : ℕ
  pub is_hw : Bool
  pub jiffies : H → ℕ
  pub cancelled : H → Bool
  pub pause : ℕ → H → H
  pub call : SerdesCall → H → Link → H × Link × ℕ
  pub core_status : ℕ → H → H × ℕ
  pub spico_int : ℕ → ℕ → ℕ → H → H × (ℕ × ℕ)
  pub tx_lane_source : ℕ → ℕ
  pub rx_lane_source : ℕ → ℕ
  pub optical_lock_delay : ℕ
  pub optical_lock_interval : ℕ
  pub dfe_timeout : ℕ
  pub dfe_pre_delay : ℕ
  pub lpd_timeout : ℕ
  pub lpd_poll_interval : ℕ

pub record State (H : Type 0) : Type 0 where
  pub hw : H
  pub link : Link
  pub tuning_params : TuningParams
  pub optical_delay_active : Bool
  pub lpd_try_count : ℕ

abbrev pub is_down : SerdesStatus → Bool
is_down SerdesStatus.down = true
is_down _ = false

abbrev pub is_autoneg : SerdesStatus → Bool
is_autoneg SerdesStatus.autoneg = true
is_autoneg _ = false

-- SBL_TUNING_PARAM_MAGIC and SBL_TUNING_PARAM_VERSION
abbrev pub tuning_param_magic : ℕ
tuning_param_magic = 0x74736d70

abbrev pub tuning_param_version : ℕ
tuning_param_version = 2

-- What sbl_serdes_reset clears of them
unfoldable pub clear_params : TuningParams → TuningParams
clear_params t = record t {
  tp_state_hash0 = 0;
  tp_state_hash1 = 0;
  params = map (map (map (λ x. 0))) t.params;
}

module _ {H : Type 0} where
  abbrev pub on_link : (Link → Link) → State H → State H
  on_link f s = record s { link = f s.link }

  -- `link->sstate = status; link->serr = err;`
  unfoldable pub settle : SerdesStatus → ℕ → State H → State H
  settle status err = on_link (λ l. record l { sstate = status; serr = err })

  -- sbl_serdes_get_tuning_params, sbl_serdes_set_tuning_params and sbl_serdes_invalidate_tuning_params
  unfoldable pub get_tuning_params : State H → ℕ × Option TuningParams
  get_tuning_params s =
      if not (s.tuning_params.magic == tuning_param_magic)
      then (enodata, none)
      else (0, some s.tuning_params)

  unfoldable pub set_tuning_params : TuningParams → State H → State H × ℕ
  set_tuning_params t s =
      if not (t.magic == tuning_param_magic)
      then (s, einval)
      else if not (t.version == tuning_param_version)
      then (s, einval)
      else (record s { tuning_params = t }, 0)

  unfoldable pub invalidate_tuning_params : State H → State H × ℕ
  invalidate_tuning_params s = (
    record s {
      tuning_params = record (s.tuning_params) {
        magic = 0;
        tp_state_hash0 = 0;
        tp_state_hash1 = 0;
      };
    },
    0,
  )

  -- sbl_serdes_invalidate_all_tuning_params, on the ports of the instance
  unfoldable pub invalidate_all_tuning_params : List (State H) → List (State H)
  invalidate_all_tuning_params [] = []
  invalidate_all_tuning_params (s ∷ ports) =
      (invalidate_tuning_params s).0 ∷ invalidate_all_tuning_params ports

  module _ (b : Board H) where
    unfoldable pub call : SerdesCall → State H → State H × ℕ
    call c s = let (h, l, err) = b.call c s.hw s.link in (record s { hw = h; link = l }, err)

    -- The loop over the serdes i, ..., that ends with an error; `err` is the error before it, which is left
    -- where there are no serdes.
    unfoldable pub for_serdes : (ℕ → SerdesCall) → ℕ → ℕ → ℕ → State H → State H × ℕ
    for_serdes c zero i err s = (s, err)
    for_serdes c (suc n) i before s =
        let (s', err) = call (c i) s in
        let rest = for_serdes c n (i + 1) err s' in if not (err == 0) then (s', err) else rest

    -- `if (err) goto out;`
    unfoldable pub unless_error : State H × ℕ → (State H → State H × ℕ) → State H × ℕ
    unless_error (s, err) next = if not (err == 0) then (s, err) else next s

    -- The steps of sbl_serdes_stop_internal, and its label `out`
    unfoldable pub stop_steps : State H → State H × ℕ
    stop_steps s = unless_error (call SerdesCall.stop_pcal s) (λ s₁.
        unless_error (for_serdes SerdesCall.disable b.num_serdes 0 0 s₁)
          (λ s₂. call SerdesCall.spico_reset s₂))

    unfoldable pub serdes_stop_out : State H × ℕ → State H × ℕ
    serdes_stop_out (s, err) =
        if not (err == 0)
        then (
          settle SerdesStatus.error err (on_link (λ l. record l { reload_serdes_fw = true }) s),
          err,
        )
        else (settle SerdesStatus.down 0 s, 0)

    unfoldable pub stop_internal : State H → State H × ℕ
    stop_internal s = serdes_stop_out (stop_steps s)

    -- sbl_serdes_stop
    unfoldable pub serdes_stop : State H → State H × ℕ
    serdes_stop s =
        if not (is_running s.link.sstate || is_autoneg s.link.sstate)
        then (s, euclean)
        else if debug_option debug_keep_serdes_up s.link
        then (s, 0)
        else stop_internal s

    -- sbl_an_serdes_start, and its label `out_err`
    unfoldable pub an_start_out : State H × ℕ → State H × ℕ
    an_start_out (s, err) =
        if not (err == 0)
        then (settle SerdesStatus.error err s, err)
        else (settle SerdesStatus.autoneg 0 s, 0)

    unfoldable pub an_serdes_start : State H → State H × ℕ
    an_serdes_start s =
        if not (s.link.mattr.media == media_electrical)
        then (s, einval)
        else if not (s.link.blattr.an_mode == an_mode_on)
            && not (s.link.blattr.an_mode == an_mode_fixed)
        then (s, einval)
        else if not (is_down s.link.sstate)
        then (s, euclean)
        else an_start_out (unless_error (stop_internal s) (λ s₁. call (SerdesCall.config true) s₁))

    -- sbl_an_serdes_stop
    unfoldable pub an_stop_out : State H × ℕ → State H × ℕ
    an_stop_out (s, err) =
        if not (err == 0)
        then (settle SerdesStatus.error err s, err)
        else (settle SerdesStatus.down err s, err)

    unfoldable pub an_serdes_stop : State H → State H × ℕ
    an_serdes_stop s =
        if not (is_autoneg s.link.sstate) then (s, euclean) else an_stop_out (stop_internal s)

    -- sbl_serdes_reset: its label `out_success`, and its end
    unfoldable pub serdes_reset_out : State H × ℕ → State H × ℕ
    serdes_reset_out (s, err) =
        if not (err == 0)
        then (settle SerdesStatus.error err s, err)
        else (settle SerdesStatus.down 0 s, 0)

    -- What follows the soft resets, with their error: the firmware is loaded again where one has failed or
    -- the debug option forces it.
    unfoldable pub reset_reload : State H × ℕ → State H × ℕ
    reset_reload (s, err) =
        if not (err == 0) || debug_option debug_force_reload_serdes_fw s.link
        then serdes_reset_out (call SerdesCall.flash_safe s)
        else serdes_reset_out (s, 0)

    -- Its beginning, up to the soft resets; the error of sbl_port_stop_pcal is reported, and only counts
    -- where there are no serdes.
    unfoldable pub reset_begin : State H → State H × ℕ
    reset_begin s =
        let s₁ = on_link (λ l. record l { sstate = SerdesStatus.resetting }) s in
        let s₂ =
          (if test_bit opt_reset_clear_params s₁.link.blattr.options
            then record s₁ { tuning_params = clear_params s₁.tuning_params }
            else s₁) in
        call SerdesCall.stop_pcal s₂

    unfoldable pub serdes_reset : State H → State H × ℕ
    serdes_reset s =
        let (s', err) = reset_begin s in
        reset_reload (for_serdes SerdesCall.soft_reset b.num_serdes 0 err s')

    -- The loop of sbl_serdes_optical_lock_delay, up to the tick `last`
    unfoldable pub lock_delay_loop : ℕ → ℕ → State H → Option (State H × ℕ)
    lock_delay_loop zero last s = none
    lock_delay_loop (suc fuel) last s =
        let rest =
          lock_delay_loop fuel last (record s { hw = b.pause b.optical_lock_interval s.hw }) in
        if not (time_is_after_jiffies b.kernel (b.jiffies s.hw) last)
        then some (s, 0)
        else if b.cancelled s.hw
        then some (s, ecanceled)
        else if start_timeout b.kernel (b.jiffies s.hw) s.link.timing
        then some (s, etimedout)
        else rest

    abbrev pub delay_active : Bool → State H → State H
    delay_active v s = record s { optical_delay_active = v }

    -- `last_jiffy`
    unfoldable pub lock_deadline : State H → ℕ
    lock_deadline s = u64 (b.jiffies s.hw + b.kernel.msecs_to_jiffies b.optical_lock_delay)

    -- sbl_serdes_optical_lock_delay
    unfoldable pub optical_lock_delay : ℕ → State H → Option (State H × ℕ)
    optical_lock_delay fuel s =
        if not (s.link.blattr.config_target == config_aoc)
        then some (s, einval)
        else elim (lock_delay_loop fuel (lock_deadline s) (delay_active true s)) [
          | none ↦ none
          | some (s', err) ↦ some (delay_active false s', err)
        ]

    -- The wait for the optics in sbl_serdes_start, where there are some
    unfoldable pub optics_wait : ℕ → State H → Option (State H × ℕ)
    optics_wait fuel s =
        if not (s.link.blattr.loopback_mode == loopback_local)
          && s.link.mattr.media == media_optical
        then optical_lock_delay fuel s
        else some (s, 0)

    -- The label `out` of sbl_serdes_start
    unfoldable pub serdes_start_out : State H × ℕ → State H × ℕ
    serdes_start_out (s, err) =
        if not (err == 0)
        then (settle SerdesStatus.error err s, err)
        else (settle SerdesStatus.running 0 s, 0)

    -- What sbl_serdes_start does about a tuning that has failed
    unfoldable pub tuning_failed : ℕ → State H → State H
    tuning_failed err s =
        let s' =
          (if not (debug_option debug_inhibit_spll_reset s.link)
            then (call SerdesCall.reset_plls s).0
            else s) in
        if err == etimedout
        then (if test_bit opt_reload_fw_on_timeout s'.link.blattr.options
            then on_link (λ l. record l { reload_serdes_fw = true }) s'
            else s')
        else s

    -- The tuning, with time for two cycles of it
    unfoldable pub start_tuning : State H → State H × ℕ
    start_tuning s =
        let remaining = u32 (2 * (b.dfe_timeout + b.dfe_pre_delay)) in
        let s₁ =
          on_link
            (λ l. record l {
              timing = start_timeout_ensure_remaining b.kernel (b.jiffies s.hw) remaining l.timing;
              sstate = SerdesStatus.tuning;
            })
            s in
        let (s₂, err) = call SerdesCall.tuning s₁ in (tuning_failed err s₂, err)

    -- What follows the wait for the optics
    unfoldable pub start_after_optics : State H × ℕ → State H × ℕ
    start_after_optics r = serdes_start_out (unless_error r start_tuning)

    -- What follows sbl_serdes_config
    unfoldable pub start_configured : ℕ → State H × ℕ → Option (State H × ℕ)
    start_configured fuel (s, err) =
        if not (err == 0)
        then some (
            serdes_start_out (
              (if err == ebade then on_link (λ l. record l { reload_serdes_fw = true }) s else s),
              err,
            ))
        else elim (optics_wait fuel s) [ none ↦ none | some r ↦ some (start_after_optics r) ]

    -- sbl_serdes_start
    unfoldable pub serdes_start : ℕ → State H → Option (State H × ℕ)
    serdes_start fuel s =
        if not (is_down s.link.sstate)
        then some (s, euclean)
        else start_configured fuel (call (SerdesCall.config false) s)
