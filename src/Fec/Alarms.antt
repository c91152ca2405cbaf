-- ===== src/Fec/Alarms.antt =====
-- When the FEC monitor of sbl_fec.c takes a link down, and when it does not.
use ss_sbl.Prelude.{
  ℕ, ◌+◌, ◌*◌, ◌/◌, ◌^◌, ◌<◌, ◌≡◌, ◌↔◌, Bool, true, false, ◌&&◌, arith, ltb, if◌then◌else◌, length,
  get_or, get_or-set_self, max,
}
use ss_sbl.Link.{Link}
use ss_sbl.Link.Consts.{
  num_counters, ctr_ucw_err, ctr_ccw_err, debug_ignore_high_fec_ucw, debug_ignore_high_fec_ccw,
}
use ss_sbl.Kernel.{u32}
use ss_sbl.Media.{debug_option}
use ss_sbl.Counters.{counters_read}
use ss_sbl.Fec.Thresholds.{Platform, ucw_bad_get, ccw_bad_get}
use ss_sbl.Fec.Settings.{thresholds_clear}
use ss_sbl.Fec.Checks.{
  adjusted, over_threshold, raise_ucw_hwm, raise_ccw_hwm, ccw_rate_bad, ucw_rate_bad,
}

-- A rate is over a threshold that is in use.
abbrev pub Over : ℕ → ℕ → Type 0
Over rate bad = (0 < bad) × (bad < rate)

-- The same as a test.
abbrev pub is_over : ℕ → ℕ → Bool
is_over rate bad = ltb 0 bad && ltb bad rate

-- How a test that a rate is bad leaves its counter.
abbrev pub Counted : ℕ → ℕ → ℕ → Link → Link → Type 0
Counted counter rate bad l l' =
    counters_read counter l'
    ≡ (if is_over rate bad then u32 (counters_read counter l + 1) else counters_read counter l)

-- What a test on the rate `rate` of the link `l` promises, of the link and the verdict `r`.
abbrev pub Verdict : ℕ → ℕ → ℕ → ℕ → Link → Link × Bool → Type 0
Verdict rate bad counter ignore l r =
    ((r.1 ≡ true) ↔ (Over rate bad × (debug_option ignore l ≡ false)))
    × Counted counter rate bad l r.0

-- An adjusted threshold, for a threshold and a percentage of 32 bits each, is the percentage of it.
adjusted_lem : (bad adj : ℕ) → bad < 2 ^ 32 → adj < 2 ^ 32 → adjusted bad adj ≡ bad * adj / 100
adjusted_lem bad adj hb ha = grind arith

over_threshold-Counted :
    (rate bad counter ignore : ℕ) (l l' : Link)
    → length l.counters ≡ num_counters
    → counter < num_counters
    → l'.counters ≡ l.counters
    → Counted counter rate bad l (over_threshold rate bad counter ignore l').0
unfolding over_threshold counters_read
over_threshold-Counted rate bad counter ignore l l' hc h e =
    ground (arith, get_or-set_self l'.counters counter (u32 (get_or l'.counters counter 0 + 1)) 0)

-- The end of a test, on a link `l'` that has the counters and the debug options of `l`.
over_threshold-Verdict :
    (rate bad counter ignore : ℕ) (l l' : Link)
    → length l.counters ≡ num_counters
    → counter < num_counters
    → l'.counters ≡ l.counters
    → l'.debug_config ≡ l.debug_config
    → Verdict rate bad counter ignore l (over_threshold rate bad counter ignore l')
unfolding over_threshold
over_threshold-Verdict rate bad counter ignore l l' hc h e d = (
  (λ p. ground arith, λ p. ground arith),
  over_threshold-Counted rate bad counter ignore l l' hc h e,
)

fec-over_threshold :
    (rate bad counter ignore : ℕ) (l : Link)
    → (over_threshold rate bad counter ignore l).0.fec ≡ l.fec
unfolding over_threshold
fec-over_threshold rate bad counter ignore l = ground arith

-- What a raised high water mark leaves alone, and the mark itself, for a rate of 32 bits.
raise_ucw_hwm_lem :
    (p : Platform) (l : Link)
    → l.fec.rates.ucw < 2 ^ 32
    → let l' = raise_ucw_hwm (ucw_bad_get p l.fec).1 l in
      (l'.counters ≡ l.counters)
      × (l'.debug_config ≡ l.debug_config)
      × (l'.fec.ucw_hwm ≡ max l.fec.ucw_hwm l.fec.rates.ucw)
unfolding raise_ucw_hwm ucw_bad_get
raise_ucw_hwm_lem Platform.cassini l h = ground arith
raise_ucw_hwm_lem Platform.rosetta l h = ground arith

raise_ccw_hwm_lem :
    (p : Platform) (use_stp : Bool) (l : Link)
    → l.fec.rates.ccw < 2 ^ 32
    → let l' = raise_ccw_hwm (ccw_bad_get p l.fec use_stp).1 l in
      (l'.counters ≡ l.counters)
      × (l'.debug_config ≡ l.debug_config)
      × (l'.fec.ccw_hwm ≡ max l.fec.ccw_hwm l.fec.rates.ccw)
unfolding raise_ccw_hwm ccw_bad_get
raise_ccw_hwm_lem Platform.cassini s l h = ground arith
raise_ccw_hwm_lem Platform.rosetta s l h = ground arith

-- sbl_fec_ucw_rate_bad fails exactly when the percentage of the threshold is not zero, the rate is
-- over it and the debug option does not say to ignore it; it counts an error exactly when the rate is
-- over a threshold that is not zero, ignored or not; and it raises the high water mark to the rate.
-- Threshold, percentage and rate are of 32 bits, and the counters are there.
pub ucw_rate_bad_lem :
    (p : Platform) (adj : ℕ) (l : Link)
    → length l.counters ≡ num_counters
    → l.fec.rates.ucw < 2 ^ 32
    → (ucw_bad_get p l.fec).0 < 2 ^ 32
    → adj < 2 ^ 32
    → Verdict l.fec.rates.ucw
        ((ucw_bad_get p l.fec).0 * adj / 100)
        ctr_ucw_err
        debug_ignore_high_fec_ucw
        l
        (ucw_rate_bad p adj l)
      × ((ucw_rate_bad p adj l).0.fec.ucw_hwm ≡ max l.fec.ucw_hwm l.fec.rates.ucw)
unfolding ucw_rate_bad
ucw_rate_bad_lem p adj l hc hr hb ha =
    let bad = (ucw_bad_get p l.fec).0 in
    let (same, dbg, mark) = raise_ucw_hwm_lem p l hr in
    rw (← adjusted_lem bad adj hb ha) (
      over_threshold-Verdict l.fec.rates.ucw (adjusted bad adj) ctr_ucw_err
          debug_ignore_high_fec_ucw l (raise_ucw_hwm (ucw_bad_get p l.fec).1 l) hc (omega arith)
          same dbg,
      rw fec-over_threshold mark,
    )

-- sbl_fec_ccw_rate_bad fails, counts and raises its high water mark in the same way, by the
-- percentage of the threshold that it is told to use.
pub ccw_rate_bad_lem :
    (p : Platform) (adj : ℕ) (use_stp : Bool) (l : Link)
    → length l.counters ≡ num_counters
    → l.fec.rates.ccw < 2 ^ 32
    → (ccw_bad_get p l.fec use_stp).0 < 2 ^ 32
    → adj < 2 ^ 32
    → Verdict l.fec.rates.ccw
        ((ccw_bad_get p l.fec use_stp).0 * adj / 100)
        ctr_ccw_err
        debug_ignore_high_fec_ccw
        l
        (ccw_rate_bad p adj use_stp l)
      × ((ccw_rate_bad p adj use_stp l).0.fec.ccw_hwm ≡ max l.fec.ccw_hwm l.fec.rates.ccw)
unfolding ccw_rate_bad
ccw_rate_bad_lem p adj use_stp l hc hr hb ha =
    let bad = (ccw_bad_get p l.fec use_stp).0 in
    let (same, dbg, mark) = raise_ccw_hwm_lem p use_stp l hr in
    rw (← adjusted_lem bad adj hb ha) (
      over_threshold-Verdict l.fec.rates.ccw (adjusted bad adj) ctr_ccw_err
          debug_ignore_high_fec_ccw l (raise_ccw_hwm (ccw_bad_get p l.fec use_stp).1 l) hc
          (omega arith) same dbg,
      rw fec-over_threshold mark,
    )

-- Clearing the thresholds stops the test for uncorrected codewords on Rosetta. On Cassini it changes
-- nothing: the verdict is that of the thresholds that were there before.
pub ucw_rate_bad-thresholds_clear :
    (adj : ℕ) (l : Link)
    → let cleared = record l { fec = thresholds_clear l.fec } in
      ((ucw_rate_bad Platform.rosetta adj cleared).1 ≡ false)
      × ((ucw_rate_bad Platform.cassini adj cleared).1 ≡ (ucw_rate_bad Platform.cassini adj l).1)
unfolding ucw_rate_bad ucw_bad_get raise_ucw_hwm over_threshold thresholds_clear
ucw_rate_bad-thresholds_clear adj l = (ground arith, ground arith)
