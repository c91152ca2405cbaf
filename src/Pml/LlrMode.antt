-- ===== src/Pml/LlrMode.antt =====
-- The choice of the LLR mode and the measurement of the loop time: sbl_pml_llr_detect,
-- sbl_pml_llr_mode_get and sbl_pml_llr_measure_loop_time_ns (sbl_pml_llr.c).
pub mod Measure
use ss_sbl.Prelude.{
  ℕ, zero, suc, ◌+◌, ◌==◌, ltb, leb, Bool, true, false, not, ◌||◌, ◌&&◌, if◌then◌else◌, test_bit,
  set_bit, Option, none, some,
}
use ss_sbl.Link.{Link}
use ss_sbl.Link.Consts.{
  etimedout, ecanceled, enodata, ebadrqc, opt_fabric_link, opt_enable_ether_llr,
  opt_enable_ifg_hpc_with_llr, ifg_config_hpc, llr_mode_off, llr_mode_monitor, llr_mode_on,
  llr_mode_auto, info_llr_detect, info_llr_measure, debug_allow_loop_time_fail,
}
use ss_sbl.Kernel.{u64}
use ss_sbl.Media.{debug_option, calc_loop_time}
use ss_sbl.Pml.Regs.{Reg, Field}
use ss_sbl.Pml.{
  Board, State, P, return, ◌>>=◌, ◌>>◌, the_link, update, gets, info_set, info_clear, read64,
  write64, flush, get, pause, timed_out, was_cancelled,
}

-- SBL_PML_LLR_MIN_LOOP_TIME, SBL_PML_LLR_MAX_LOOP_TIME and SBL_PML_LLR_TIMING_LOOPS
abbrev pub min_loop_time : ℕ
min_loop_time = 60

abbrev pub max_loop_time : ℕ
max_loop_time = 3000

abbrev pub timing_loops : ℕ
timing_loops = 10

-- AN_OPT_LLR, AN_OPT_ETHER_LLR and AN_OPT_HPC_WITH_LLR, by bit number
abbrev pub an_opt_llr : ℕ
an_opt_llr = 0

abbrev pub an_opt_ether_llr : ℕ
an_opt_ether_llr = 1

abbrev pub an_opt_hpc_with_llr : ℕ
an_opt_hpc_with_llr = 2

-- `llr_options |= SBL_PML_LLR_OPTION_HPC_WIH_LLR; ifg_config = SBL_IFG_CONFIG_HPC`
abbrev pub with_hpc : Link → Link
with_hpc l = record l {
  pml = record (l.pml) { llr_options = set_bit 0 l.pml.llr_options; ifg_config = ifg_config_hpc };
}

abbrev pub with_llr_mode : ℕ → Link → Link
with_llr_mode mode l = record l { pml = record (l.pml) { llr_mode = mode } }

-- A reading of the loop time that counts: not zero, and within the bounds. A time that is not zero
-- and out of bounds is passed over.
abbrev pub in_bounds : ℕ → ℕ → ℕ → Bool
in_bounds lo hi t = not (t == 0) && leb lo t && leb t hi

-- The fastest time so far, after one more reading
unfoldable pub take_time : ℕ → ℕ → ℕ → ℕ → ℕ
take_time lo hi t best = if in_bounds lo hi t && ltb t best then t else best

-- The check of the result, from the loop's error and its fastest time, with the bounds
unfoldable pub measure_result : ℕ → ℕ × ℕ → Link → ℕ × ℕ
measure_result hi (err, best) l =
    if not (err == 0)
    then (err, best)
    else if best == max_loop_time
    then (if debug_option debug_allow_loop_time_fail l then (enodata, best) else (0, hi))
    else (0, best)

-- The bounds of the loop time: the calculated time and 100 ns more where the length is known.
unfoldable pub measure_bounds : Link → ℕ × (ℕ × ℕ)
measure_bounds l =
    if l.mattr.len == 0
    then (0, (min_loop_time, max_loop_time))
    else (let (err, t) = calc_loop_time l in (err, (t, t + 100)))

module _ {H : Type 0} (b : Board H) where
  -- One measurement: start it, give it time, and read it.
  unfoldable pub measure_once : P H ℕ
  measure_once = do
    write64 b Reg.sts_llr_loop_time 0
    flush b Reg.sts_llr_loop_time
    pause b 50
    v ← read64 b Reg.sts_llr_loop_time
    return (get b Field.sts_loop_time v)

  -- The loop of sbl_pml_llr_measure_loop_time_ns: `n` measurements are left, and `best` is the fastest
  -- time so far. It returns the error and the fastest time.
  unfoldable pub measure_loop : ℕ → ℕ → ℕ → ℕ → State H → State H × (ℕ × ℕ)
  measure_loop lo hi zero best s = (s, (0, best))
  measure_loop lo hi (suc n) best s =
      let (s', t) = measure_once s in
      let p = if t == 0 then (pause b 200000 s').0 else s' in
      let rest = measure_loop lo hi n (take_time lo hi t best) p in
      if timed_out b s
      then (s, (etimedout, best))
      else if was_cancelled b s
      then (s, (ecanceled, best))
      else rest

  -- The loop and the check of the result, for a lower and an upper bound
  unfoldable pub measure_within : ℕ → ℕ → P H ℕ
  measure_within lo hi = do
    l ← the_link
    r ← measure_loop lo hi timing_loops max_loop_time
    update (λ k. record k { llr_loop_time = (measure_result hi r l).1 })
    info_clear info_llr_measure
    return ((measure_result hi r l).0)

  -- What follows the choice of the bounds. The return on an error of the calculation leaves
  -- SBL_LINK_INFO_LLR_MEASURE set.
  unfoldable pub measure_from : ℕ × (ℕ × ℕ) → P H ℕ
  measure_from (zero, (lo, hi)) = measure_within lo hi
  measure_from (suc err, bounds) = return (suc err)

  -- sbl_pml_llr_measure_loop_time_ns, which is given &link->llr_loop_time
  unfoldable pub measure_loop_time : P H ℕ
  measure_loop_time = do
    info_set info_llr_measure
    update (λ l. record l { llr_loop_time = max_loop_time })
    l ← the_link
    measure_from (measure_bounds l)

  -- The loop of sbl_pml_llr_detect, up to the tick `last`; it returns the error and the mode. An error
  -- of 1 stands for the -1 that it starts with.
  unfoldable pub detect_loop : ℕ → ℕ → State H → Option (State H × (ℕ × ℕ))
  detect_loop zero last s = none
  detect_loop (suc fuel) last s =
      let (s', v) = read64 b Reg.sts_llr_loop_time (pause b 100000 s).0 in
      let t = get b Field.sts_loop_time v in
      let rest = detect_loop fuel last s' in
      if timed_out b s
      then some (s, (etimedout, llr_mode_off))
      else if was_cancelled b s
      then some (s, (ecanceled, llr_mode_off))
      else if in_bounds min_loop_time max_loop_time t
      then some (s', (0, llr_mode_on))
      else if b.kernel.time_after last (b.jiffies s'.hw)
      then rest
      else some (s', (1, llr_mode_off))

  -- sbl_pml_llr_detect, which is given &link->llr_mode
  unfoldable pub llr_detect : ℕ → State H → Option (State H × ℕ)
  llr_detect fuel s =
      let last = u64 (b.jiffies s.hw + b.kernel.msecs_to_jiffies 1000) in
      let s₁ = (update (with_llr_mode llr_mode_off) (info_set info_llr_detect s).0).0 in
      let s₂ = (flush b Reg.sts_llr_loop_time (write64 b Reg.sts_llr_loop_time 0 s₁).0).0 in
      elim (detect_loop fuel last s₂) [
        | none ↦ none
        | some (s₃, (err, mode)) ↦
            some ((info_clear info_llr_detect (update (with_llr_mode mode) s₃).0).0, err)
      ]

  -- The labels `out_off`, `out_on` and `out_err` of sbl_pml_llr_mode_get, which is given
  -- &link->llr_mode
  unfoldable pub mode_out : ℕ → ℕ → P H ℕ
  mode_out mode err = do update (with_llr_mode mode); return err

  -- `goto out_on`, with HPC where `hpc` tells so
  unfoldable pub mode_on : Bool → P H ℕ
  mode_on hpc = do update (λ l. if hpc then with_hpc l else l); mode_out llr_mode_on 0

  -- What follows the detection of a loop
  unfoldable pub mode_detected : ℕ → P H ℕ
  mode_detected err = do
    l ← the_link
    if err == 0
        then (if l.pml.llr_mode == llr_mode_off
            then mode_out llr_mode_off 0
            else mode_on (test_bit opt_enable_ifg_hpc_with_llr l.blattr.options))
        else if err == ecanceled || err == etimedout
        then mode_out llr_mode_off err
        else mode_out llr_mode_off 0

  -- The case SBL_LLR_MODE_AUTO
  unfoldable pub mode_auto : ℕ → State H → Option (State H × ℕ)
  mode_auto fuel s =
      let o = s.link.blattr.options in
      let a = s.link.an.options in
      if test_bit opt_fabric_link o
      then some (mode_on false s)
      else if not (test_bit opt_enable_ether_llr o)
      then some (mode_out llr_mode_off 0 s)
      else if test_bit an_opt_llr a
      then some (
          (if test_bit an_opt_ether_llr a
              then mode_on (test_bit an_opt_hpc_with_llr a)
              else mode_out llr_mode_off 0)
            s)
      else elim (llr_detect fuel s) [ none ↦ none | some (s', err) ↦ some (mode_detected err s') ]

  -- sbl_pml_llr_mode_get
  unfoldable pub llr_mode_get : ℕ → State H → Option (State H × ℕ)
  llr_mode_get fuel s =
      let m = s.link.blattr.llr_mode in
      if m == llr_mode_monitor
      then some (mode_out llr_mode_monitor 0 s)
      else if m == llr_mode_on
      then some (mode_on false s)
      else if m == llr_mode_auto
      then mode_auto fuel s
      else if m == llr_mode_off
      then some (mode_out llr_mode_off 0 s)
      else some (mode_out llr_mode_off ebadrqc s)
