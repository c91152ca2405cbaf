-- ===== src/Fec/Rates.antt =====
-- The rates of sbl_fec.c: two readings of the counters and the difference per second.
use ss_sbl.Prelude.{
  ℕ, ◌+◌, ◌-◌, ◌*◌, ◌/◌, ◌^◌, ◌≤◌, ◌<◌, ◌≡◌, ◌≢◌, false, ◌&&◌, List, [], ◌∷◌, arith, ltb, leb,
  if◌then◌else◌, replicate,
}
use native.Mathlib.Nat.{div-add-mod', mod-lt, mod-eq_of_lt}
use ss_sbl.Link.{FecCntrs, FecPrmts}
use ss_sbl.Link.Consts.{einprogress, eintr}
use ss_sbl.Kernel.{Kernel, u64, ticks_between, time_is_after_jiffies}

-- The registers that sbl_fec_counts_get reads.
pub data FecReg : Type 0 where
  fecl_errors : ℕ → FecReg
  corrected_cw : FecReg
  uncorrected_cw : FecReg
  llr_tx_replay_event : FecReg

-- The counters cleared by memset: sbl_fec_counts_zero.
abbrev pub zero_cntrs : FecCntrs
zero_cntrs = record { ccw = 0; ucw = 0; llr_tx_replay = 0; fecl = replicate 8 0; time = 0 }

-- sbl_fec_counts_get
unfoldable pub counts_get : (FecReg → ℕ) → ℕ → FecCntrs
counts_get read jiffies = record {
  fecl =
      read (fecl_errors 0)
      ∷ read (fecl_errors 1)
      ∷ read (fecl_errors 2)
      ∷ read (fecl_errors 3)
      ∷ read (fecl_errors 4)
      ∷ read (fecl_errors 5)
      ∷ read (fecl_errors 6)
      ∷ read (fecl_errors 7)
      ∷ [];
  ccw = read corrected_cw;
  ucw = read uncorrected_cw;
  llr_tx_replay = read llr_tx_replay_event;
  time = jiffies;
}

-- What the hardware and the clock show to one call of sbl_fec_rates_update: the ticks at its test of
-- the window, the registers, and the ticks when they are read.
pub record Sample : Type 0 where
  pub jiffies : ℕ
  pub read : FecReg → ℕ
  pub read_jiffies : ℕ

div_floor : (n d : ℕ) → 0 < d → (n / d * d ≤ n) × (n < (n / d + 1) * d)
div_floor n d h = (omega (arith, div-add-mod' n d), omega (arith, div-add-mod' n d, mod-lt n h))

module _ (k : Kernel) where
  -- sbl_fec_rate_calc
  unfoldable pub rate_calc : ℕ → ℕ → ℕ → ℕ
  rate_calc curr prev tdiff = if ltb curr prev then 0 else u64 ((curr - prev) * k.hz) / tdiff

  -- The loop over the lane counters.
  unfoldable pub lane_rates : List ℕ → List ℕ → ℕ → List ℕ
  unfolding rate_calc
  lane_rates [] ps tdiff = []
  lane_rates (c ∷ cs) [] tdiff = []
  lane_rates (c ∷ cs) (p ∷ ps) tdiff = rate_calc c p tdiff ∷ lane_rates cs ps tdiff

  -- The rates of one window.
  unfoldable pub rates_of : FecCntrs → FecCntrs → FecCntrs
  unfolding rate_calc lane_rates
  rates_of curr prev =
      let tdiff = ticks_between curr.time prev.time in
      record {
        ccw = rate_calc curr.ccw prev.ccw tdiff;
        ucw = rate_calc curr.ucw prev.ucw tdiff;
        llr_tx_replay = rate_calc curr.llr_tx_replay prev.llr_tx_replay tdiff;
        fecl = lane_rates curr.fecl prev.fecl tdiff;
        time = k.jiffies_to_msecs tdiff;
      }

  -- sbl_fec_rates_update; `discard` is link->fec_discard_time.
  unfoldable pub rates_update : ℕ → Sample → ℕ → FecPrmts → FecPrmts × ℕ
  unfolding time_is_after_jiffies counts_get rates_of
  rates_update window s discard f =
      if time_is_after_jiffies k s.jiffies (u64 (f.curr_cnts.time + k.msecs_to_jiffies window))
      then (record f { rates = zero_cntrs }, einprogress)
      else let curr = counts_get s.read s.read_jiffies in
        let prev = f.curr_cnts in
        if leb prev.time discard && ltb discard curr.time
        then (record f { curr_cnts = curr; prev_cnts = prev; rates = zero_cntrs }, eintr)
        else (record f { curr_cnts = curr; prev_cnts = prev; rates = rates_of curr prev }, 0)

  -- A rate is the events of the window per second, rounded down, where the counter has not gone
  -- backwards and the product with HZ fits in 64 bits.
  pub rate_calc_floor :
      (curr prev tdiff : ℕ)
      → 0 < tdiff
      → prev ≤ curr
      → (curr - prev) * k.hz < 2 ^ 64
      → (rate_calc curr prev tdiff * tdiff ≤ (curr - prev) * k.hz)
        × ((curr - prev) * k.hz < (rate_calc curr prev tdiff + 1) * tdiff)
  unfolding rate_calc
  rate_calc_floor curr prev tdiff ht hp hw =
      let small : u64 ((curr - prev) * k.hz) ≡ (curr - prev) * k.hz = mod-eq_of_lt hw in
      let forward : ltb curr prev ≡ false = ground arith in
      rw (forward, small) (div_floor ((curr - prev) * k.hz) tdiff ht)

  -- When sbl_fec_rates_update reports success the time by which it divides is not zero: the window
  -- of at least one tick has passed since the last reading. (The ticks between the test of the window
  -- and the reading of the registers, and those of the window, are less than a quarter of the
  -- counter's range.)
  pub rates_update_divides :
      (window discard : ℕ) (s : Sample) (f : FecPrmts)
      → f.curr_cnts.time < 2 ^ 64
      → s.jiffies < 2 ^ 64
      → s.read_jiffies < 2 ^ 64
      → ticks_between s.read_jiffies s.jiffies < 2 ^ 62
      → 0 < k.msecs_to_jiffies window
      → k.msecs_to_jiffies window < 2 ^ 62
      → (rates_update window s discard f).1 ≡ 0
      → ticks_between
          (rates_update window s discard f).0.curr_cnts.time
          (rates_update window s discard f).0.prev_cnts.time
        ≢ 0
  unfolding rates_update
  rates_update_divides window discard s f hc hj hr hd h0 hw e =
      ground
        (arith, k.time_after_wraps (u64 (f.curr_cnts.time + k.msecs_to_jiffies window)) s.jiffies)
