-- ===== src/Serdes/Lifecycle/Minitune/Ends.antt =====
-- The wait of a quick tuning ends, and once the start timeout has passed it is not asked for again.
use ss_sbl.Prelude.{
  ℕ, zero, suc, ◌+◌, ◌-◌, ◌≤◌, ◌<◌, ◌≡◌, ◌≢◌, refl, ◌∙◌, true, not, ◌||◌, ◌==◌, if◌then◌else◌,
  if_rec, if_cases, Option, some, test_bit, set_bit, arith,
}
use ss_sbl.Link.{Link, Timing}
use ss_sbl.Link.Consts.{etime}
use ss_sbl.Kernel.{time_is_after_jiffies}
use ss_sbl.Timers.{start_timeout}
use ss_sbl.Serdes.Lifecycle.{Board, State, SerdesCall, call}
use ss_sbl.Serdes.Lifecycle.Minitune.{
  serdes_rx_mask, rx_serdes_required, has_signal, sig_ok_scan, sig_ok_wait, spico_hal_read,
  spico_hal_write, eid_filter_sel, eid_filter_off, filters_off, minitune_result, minitune_tuned,
  lpd_deadline, minitune_block,
}

-- Time that passes until the start timeout: the number `left` is zero only when the timeout has passed;
-- nothing raises it, and a pause and a call, which take some time, lessen it. A call does not set the
-- timeout again, and an operation of the serdes processors has no error -ETIME.
pub record TimePasses {H : Type 0} (b : Board H) (t : Timing) : Type 0 where
  pub left : H → ℕ
  pub over : (h : H) → left h ≡ 0 → start_timeout b.kernel (b.jiffies h) t ≡ true
  pub left_status : (serdes : ℕ) (h : H) → left (b.core_status serdes h).0 ≤ left h
  pub left_spico : (serdes code v : ℕ) (h : H) → left (b.spico_int serdes code v h).0 ≤ left h
  pub left_pause : (ms : ℕ) (h : H) → left (b.pause ms h) ≤ left h - 1
  pub left_call : (c : SerdesCall) (h : H) (l : Link) → left (b.call c h l).0 ≤ left h - 1
  pub call_timing : (c : SerdesCall) (h : H) (l : Link) → (b.call c h l).1.timing ≡ l.timing
  pub spico_error : (serdes code v : ℕ) (h : H) → (b.spico_int serdes code v h).1.0 ≢ etime

module _ {H : Type 0} (b : Board H) {t : Timing} (p : TimePasses b t) where
  -- From one state to the other no time is gained, and the start timeout stays.
  pub record Later (s s' : State H) : Type 0 where
    pub less : p.left s'.hw ≤ p.left s.hw
    pub timing : s'.link.timing ≡ s.link.timing

  now_Later : (s : State H) → Later s s
  now_Later s = record { less = omega arith; timing = refl }

  pub then_Later : {s s' s'' : State H} → Later s s' → Later s' s'' → Later s s''
  then_Later x y = record { less = omega (arith, x.less, y.less); timing = y.timing ∙ x.timing }

  pub call-Later : (c : SerdesCall) (s : State H) → Later s (call b c s).0
  unfolding call
  call-Later c s = record {
    less = omega (arith, p.left_call c s.hw s.link);
    timing = p.call_timing c s.hw s.link;
  }

  pub call_takes : (c : SerdesCall) (s : State H) → p.left (call b c s).0.hw ≤ p.left s.hw - 1
  unfolding call
  call_takes c s = p.left_call c s.hw s.link

  sig_ok_scan-Later : (n i mask : ℕ) (s : State H) → Later s (sig_ok_scan b n i mask s).0
  unfolding sig_ok_scan
  sig_ok_scan-Later zero i mask s = now_Later s
  sig_ok_scan-Later (suc n) i mask s =
      let (h, status) = b.core_status i s.hw in
      let read : Later s (record s { hw = h }) = record {
        less = p.left_status i s.hw;
        timing = refl;
      } in
      if_rec (λ (r : State H × ℕ). Later s r.0)
        (not (rx_serdes_required b s.link i) || test_bit i mask)
        (sig_ok_scan-Later n (i + 1) mask s)
        (then_Later read (
          sig_ok_scan-Later n (i + 1) (if has_signal b status then set_bit i mask else mask)
            (record s { hw = h })))

  -- A function that waits has come to a result.
  abbrev Waited : State H → Option (State H × ℕ) → Type 0
  Waited s r = (s' : State H) × (mask : ℕ) × (r ≡ some (s', mask)) × Later s s'

  sig_ok_wait-ends :
      (fuel last mask : ℕ) (s : State H)
      → s.link.timing ≡ t
      → p.left s.hw < fuel
      → Waited s (sig_ok_wait b fuel last mask s)
  unfolding sig_ok_wait
  sig_ok_wait-ends zero last mask s e h = absurd (omega arith)
  sig_ok_wait-ends (suc fuel) last mask s e h =
      let (s₁, mask₁) = sig_ok_scan b b.num_serdes 0 mask s in
      let scanned = sig_ok_scan-Later b.num_serdes 0 mask s in
      let s₂ = record s₁ { hw = b.pause b.lpd_poll_interval s₁.hw } in
      let slept = p.left_pause b.lpd_poll_interval s₁.hw in
      let paused : Later s s₂ =
        then_Later scanned (record { less = omega (arith, slept); timing = refl }) in
      let same : s₁.link.timing ≡ t = scanned.timing ∙ e in
      if_rec (Waited s) (mask₁ == serdes_rx_mask b s₁.link) (s₁, mask₁, refl, scanned)
        (if_rec (Waited s) (b.cancelled s₁.hw) (s₁, mask₁, refl, scanned)
          (if_cases (Waited s) (start_timeout b.kernel (b.jiffies s₁.hw) s₁.link.timing)
            (λ late. (s₁, mask₁, refl, scanned))
            (λ early.
              let some_left : p.left s₁.hw ≢ 0 = λ z. absurd (cc (early, same, p.over s₁.hw z)) in
              if_rec (Waited s) (time_is_after_jiffies b.kernel (b.jiffies s₂.hw) last)
                (let (s', m, q, later) =
                    sig_ok_wait-ends fuel last mask₁ s₂ (paused.timing ∙ e)
                      (omega (arith, slept, scanned.less, some_left, h)) in
                  (s', m, q, then_Later paused later))
                (s₂, mask₁, refl, paused))))

  -- A result without the error -ETIME, or one before the start timeout has passed
  pub record Tuned (s : State H) (r : State H × ℕ) : Type 0 where
    pub later : Later s r.0
    pub again : r.1 ≡ etime → p.left r.0.hw ≢ 0

  -- The filters: no -ETIME at all
  filters_off-Later :
      (n i : ℕ) (s : State H) → Later s (filters_off b n i s).0 × ((filters_off b n i s).1 ≢ etime)
  unfolding filters_off
  filters_off-Later zero i s = (now_Later s, λ e. absurd (omega arith))
  filters_off-Later (suc n) i s =
      let (h₁, r₁) = b.spico_int i spico_hal_read eid_filter_sel s.hw in
      let (h₂, r₂) = b.spico_int i spico_hal_write eid_filter_off h₁ in
      let P : State H × ℕ → Type 0 = λ r. Later s r.0 × (r.1 ≢ etime) in
      let less₁ = p.left_spico i spico_hal_read eid_filter_sel s.hw in
      let less₂ = p.left_spico i spico_hal_write eid_filter_off h₁ in
      let one : Later s (record s { hw = h₁ }) = record { less = less₁; timing = refl } in
      let two : Later s (record s { hw = h₂ }) = record {
        less = omega (arith, less₁, less₂);
        timing = refl;
      } in
      if_rec P (not (rx_serdes_required b s.link i)) (filters_off-Later n (i + 1) s) (
        if_rec P (not (r₁.0 == 0)) (one, p.spico_error i spico_hal_read eid_filter_sel s.hw)
          (if_rec P (not (r₂.0 == 0)) (two, p.spico_error i spico_hal_write eid_filter_off h₁)
            (if_rec P (not (r₂.1 == spico_hal_read)) (two, λ e. absurd (omega arith))
              (let (later, never) = filters_off-Later n (i + 1) (record s { hw = h₂ }) in
                (then_Later two later, never)))))

  minitune_result-Tuned :
      (required mask err : ℕ) (s : State H)
      → s.link.timing ≡ t
      → Tuned s (minitune_result b required mask (s, err))
  unfolding minitune_result
  minitune_result-Tuned required mask err s e =
      if_rec (Tuned s) (b.cancelled s.hw)
        (record { later = now_Later s; again = λ z. absurd (omega arith) })
        (if_cases (Tuned s) (start_timeout b.kernel (b.jiffies s.hw) s.link.timing)
          (λ late. record { later = now_Later s; again = λ z. absurd (omega arith) })
          (λ early.
            let some_left : p.left s.hw ≢ 0 = λ z. absurd (cc (early, e, p.over s.hw z)) in
            if_rec (Tuned s) (not (mask == required))
              (record { later = now_Later s; again = λ z. some_left })
              (record { later = now_Later s; again = λ z. some_left })))

  minitune_tuned-Tuned :
      (required mask : ℕ) (s : State H)
      → s.link.timing ≡ t
      → Tuned s (minitune_tuned b required mask s)
  unfolding minitune_tuned
  minitune_tuned-Tuned required mask s e =
      let s' = (filters_off b b.num_serdes 0 s).0 in
      let (later, never) = filters_off-Later b.num_serdes 0 s in
      let called = then_Later later (call-Later SerdesCall.dfe_tune_wait s') in
      let (s'', err) = call b SerdesCall.dfe_tune_wait s' in
      if_rec (Tuned s) (not ((filters_off b b.num_serdes 0 s).1 == 0))
        (record { later = later; again = λ z. absurd (never z) })
        (let tuned = minitune_result-Tuned required mask err s'' (called.timing ∙ e) in
          record { later = then_Later called tuned.later; again = tuned.again })

  -- sbl_serdes_minitune_block returns, and not with -ETIME when no time is left.
  pub minitune_block-ends :
      (fuel : ℕ) (s : State H)
      → s.link.timing ≡ t
      → p.left s.hw < fuel
      → (r : State H × ℕ) × (minitune_block b fuel s ≡ some r) × Tuned s r
  unfolding minitune_block
  minitune_block-ends fuel s e h =
      let (s', mask, q, later) = sig_ok_wait-ends fuel (lpd_deadline b s) 0 s e h in
      let tuned = minitune_tuned-Tuned (serdes_rx_mask b s.link) mask s' (later.timing ∙ e) in
      (
        minitune_tuned b (serdes_rx_mask b s.link) mask s',
        rw (q, minitune_block) refl,
        record { later = then_Later later tuned.later; again = tuned.again },
      )
