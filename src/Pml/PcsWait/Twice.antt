-- ===== src/Pml/PcsWait/Twice.antt =====
-- What a wait of sbl_pml_pcs_wait leaves behind (drivers/net/ethernet/hpe/sbl/sbl_pml_pcs.c).
use ss_sbl.Prelude.{
  ℕ, zero, suc, ◌+◌, ◌≡◌, ◌≢◌, refl, sym, ap, subst, some_pair, ◌∙◌, ◌⊎◌, inl, inr, true,
  Bool-cases, Option-cases, ◌==◌, ==_iff, none, some, arith,
}
use ss_sbl.Link.Consts.{info_pcs_f_wait}
use ss_sbl.Pml.{Board, State, pause, timed_out, was_cancelled, now, info_set, info_clear, write64}
use ss_sbl.Pml.Regs.{Reg}
use ss_sbl.Pml.Pcs.{pcs_aligned, pcs_no_faults, pcs_start_lock, pcs_clear_tx_rf}
use ss_sbl.Pml.PcsWait.Steps.{flagged_inv, wait_loop_inv}
use ss_sbl.Pml.PcsWait.{
  FaultTurn, fault_turn_cases, fault_pause, fault_free, fault_round, fault_loop, fault_clear_wait,
  required_no_fault_count, all_pcs_err_flgs, wait_loop, wait_out, pcs_wait,
}
use ss_sbl.Pml.PcsWait.Shown.{Shown, wait_out-Shown, wait_out-err}

module _ {H : Type 0} (b : Board H) where
  -- Of two readings from the state u on, the first shows the PCS aligned and the second no fault, and
  -- they leave the state v.
  pub record Good (u v : State H) : Type 0 where
    pub aligned : (pcs_aligned b u).1 ≡ true
    pub clear : (pcs_no_faults b (pcs_aligned b u).0).1 ≡ true
    pub after : v ≡ (pcs_no_faults b (pcs_aligned b u).0).0

  -- The state s comes after a good pair of readings and a pause.
  abbrev pub Once : State H → Type 0
  Once s = (u : State H) × (v : State H) × (us : ℕ) × Good u v × (s ≡ (pause b us v).0)

  -- A good pair of readings, a pause, and another good pair, which leaves the state s
  abbrev pub Twice : State H → Type 0
  Twice s = (u : State H) × Once u × Good u s

  -- What a round does when no other has come between it and the `count` good ones before it.
  abbrev Turned : ℕ → State H → State H → FaultTurn → Type 0
  Turned count s s' (FaultTurn.done err) =
      err ≡ 0 → (count + 1 ≡ required_no_fault_count) × Good s s'
  Turned count s s' (FaultTurn.go count' start) =
      (count' ≡ 0) ⊎ ((count' ≡ count + 1) × (count + 1 ≢ required_no_fault_count) × Once s')

  fault_pause-Once :
      (c start : ℕ) (s v : State H)
      → Good s v
      → c + 1 ≢ required_no_fault_count
      → Turned c s (fault_pause b (c + 1) start v).0 (fault_pause b (c + 1) start v).1
  unfolding fault_pause
  fault_pause-Once c start s v g more = inr (refl, more, (s, v, _, g, refl))

  fault_pause-zero :
      (c start : ℕ) (s v : State H)
      → Turned c s (fault_pause b 0 start v).0 (fault_pause b 0 start v).1
  unfolding fault_pause
  fault_pause-zero c start s v = inl refl

  fault_free-Turned :
      (count : ℕ) (s v : State H)
      → Good s v
      → Turned count s (fault_free b count v).0 (fault_free b count v).1
  unfolding fault_free
  fault_free-Turned count s v g = elim (Bool-cases (count + 1 == required_no_fault_count)) [
    | inl last ↦ rw last (λ z. ((==_iff (count + 1) required_no_fault_count).0 last, g))
    | inr more ↦ rw more (
        fault_pause-Once count (now b v) s v g
          (λ e. absurd (cc (more, (==_iff (count + 1) required_no_fault_count).1 e))))
  ]

  fault_round-Turned :
      (count start : ℕ) (s : State H)
      → Turned count s (fault_round b count start s).0 (fault_round b count start s).1
  unfolding fault_round
  fault_round-Turned count start s =
      let s₁ = (pcs_aligned b s).0 in
      elim (Bool-cases (timed_out b s)) [
        | inl late ↦ rw late (λ z. absurd (omega arith))
        | inr early ↦ rw early (elim (Bool-cases (was_cancelled b s)) [
          | inl cancelled ↦ rw cancelled (λ z. absurd (omega arith))
          | inr wanted ↦ rw wanted (elim (Bool-cases (pcs_aligned b s).1) [
            | inr lost ↦ rw lost (λ z. absurd (omega arith))
            | inl aligned ↦ rw aligned (elim (Bool-cases (pcs_no_faults b s₁).1) [
              | inr fault ↦ rw fault (fault_pause-zero count start s (pcs_no_faults b s₁).0)
              | inl clear ↦ rw clear (
                  fault_free-Turned count s (pcs_no_faults b s₁).0
                    (record { aligned = aligned; clear = clear; after = refl }))
            ])
          ])
        ])
      ]

  module _ (fuel count start : ℕ) (s : State H) where
    fault_loop-done :
        (err : ℕ)
        → (fault_round b count start s).1 ≡ FaultTurn.done err
        → fault_loop b (suc fuel) count start s ≡ some ((fault_round b count start s).0, err)
    unfolding fault_loop
    fault_loop-done err q = rw (q, fault_loop) refl

    fault_loop-go :
        (count' start' : ℕ)
        → (fault_round b count start s).1 ≡ FaultTurn.go count' start'
        → fault_loop b (suc fuel) count start s
          ≡ fault_loop b fuel count' start' (fault_round b count start s).0
    unfolding fault_loop
    fault_loop-go count' start' q = rw (q, fault_loop) refl

  -- The last round of the loop: the second good pair of readings
  last_round :
      (count : ℕ) (s s' : State H)
      → (count ≡ 0) ⊎ ((count ≡ 1) × Once s)
      → (count + 1 ≡ required_no_fault_count) × Good s s'
      → Twice s'
  last_round count s s' (inl z) (e, g) = absurd (omega arith)
  last_round count s s' (inr (o, once)) (e, g) = (s, once, g)

  next_count :
      (count count' : ℕ) (s s' : State H)
      → (count ≡ 0) ⊎ ((count ≡ 1) × Once s)
      → (count' ≡ 0) ⊎ ((count' ≡ count + 1) × (count + 1 ≢ required_no_fault_count) × Once s')
      → (count' ≡ 0) ⊎ ((count' ≡ 1) × Once s')
  next_count count count' s s' c (inl z) = inl z
  next_count count count' s s' (inl z) (inr (e, n, once)) = inr (omega arith, once)
  next_count count count' s s' (inr (o, once')) (inr (e, n, once)) = absurd (omega arith)

  fault_loop-Twice :
      (fuel count start : ℕ) (s : State H) {s' : State H}
      → fault_loop b fuel count start s ≡ some (s', 0)
      → (count ≡ 0) ⊎ ((count ≡ 1) × Once s)
      → Twice s'
  unfolding fault_loop
  fault_loop-Twice zero count start s h c = absurd (cc)
  fault_loop-Twice (suc fuel) count start s {s'} h c =
      let v = (fault_round b count start s).0 in
      let turned = fault_round-Turned count start s in
      elim (fault_turn_cases (fault_round b count start s).1) [
        | inl (err, q) ↦
            let p = some_pair (sym (fault_loop-done fuel count start s err q) ∙ h) in
            let t : Turned count s v (FaultTurn.done err) = subst (Turned count s v) q turned in
            subst Twice p.0 (last_round count s v c (t p.1))
        | inr (count', start', q) ↦
            let t : Turned count s v (FaultTurn.go count' start') =
              subst (Turned count s v) q turned in
            fault_loop-Twice fuel count' start' v
              (sym (fault_loop-go fuel count start s count' start' q) ∙ h)
              (next_count count count' s v c t)
      ]

  -- A result of the wait for faults to clear comes from its loop.
  fault_clear_wait-Twice :
      (fuel : ℕ) (s : State H) {s' : State H}
      → fault_clear_wait b fuel s ≡ some (s', 0)
      → (v : State H) × Twice v × (s' ≡ (info_clear info_pcs_f_wait v).0)
  unfolding fault_clear_wait
  fault_clear_wait-Twice fuel s h =
      let (v, q, e) = flagged_inv b info_pcs_f_wait (fault_loop b fuel 0 (b.jiffies s.hw)) s h in
      (v, fault_loop-Twice fuel 0 (b.jiffies s.hw) (info_set info_pcs_f_wait s).0 q (inl refl), e)

  pcs_wait-none :
      (fuel : ℕ) (s : State H)
      → wait_loop b fuel fuel (pcs_clear_tx_rf b (pcs_start_lock b s).0).0 ≡ none
      → pcs_wait b fuel s ≡ none
  unfolding pcs_wait
  pcs_wait-none fuel s q = rw (q, pcs_wait) refl

  pcs_wait-some :
      (fuel : ℕ) (s : State H) {v : State H} {e : ℕ}
      → wait_loop b fuel fuel (pcs_clear_tx_rf b (pcs_start_lock b s).0).0 ≡ some (v, e)
      → pcs_wait b fuel s ≡ some (wait_out b e v)
  unfolding pcs_wait
  pcs_wait-some fuel s q = rw (q, pcs_wait) refl

  pcs_wait_inv :
      (fuel : ℕ) (s : State H) {s' : State H} {err : ℕ}
      → pcs_wait b fuel s ≡ some (s', err)
      → (v : State H) × (e : ℕ) × (wait_loop b fuel fuel
            (pcs_clear_tx_rf b (pcs_start_lock b s).0).0
          ≡ some (v, e))
        × ((wait_out b e v).0 ≡ s')
        × ((wait_out b e v).1 ≡ err)
  pcs_wait_inv fuel s h =
      elim (Option-cases (wait_loop b fuel fuel (pcs_clear_tx_rf b (pcs_start_lock b s).0).0)) [
        | inl out ↦ absurd (cc (pcs_wait-none fuel s out))
        | inr ((v, e), q) ↦
            let p = some_pair (sym (pcs_wait-some fuel s q) ∙ h) in (v, e, q, p.0, p.1)
      ]

  wait_out-hw : (v : State H) → (wait_out b 0 v).0.hw ≡ b.write Reg.err_clr all_pcs_err_flgs v.hw
  unfolding wait_out write64
  wait_out-hw v = refl

  -- The wait ends on two good pairs of readings: from the state after them, the hardware has only had
  -- its error flags cleared.
  abbrev pub EndsOnTwo : State H → Type 0
  EndsOnTwo s' = (v : State H) × Twice v × (s'.hw ≡ b.write Reg.err_clr all_pcs_err_flgs v.hw)

  wait_out-EndsOnTwo :
      (fuel rounds : ℕ) (s v : State H)
      → wait_loop b fuel rounds s ≡ some (v, 0)
      → EndsOnTwo (wait_out b 0 v).0
  wait_out-EndsOnTwo fuel rounds s v q =
      let (s₁, cleared) = wait_loop_inv b fuel rounds s q in
      let (u, twice, same) = fault_clear_wait-Twice fuel s₁ cleared in
      (
        u,
        twice,
        wait_out-hw v ∙ ap (λ (k : State H). b.write Reg.err_clr all_pcs_err_flgs k.hw) same,
      )

  -- After sbl_pml_pcs_wait no stage of it is shown in the information on the link, whatever it returns.
  -- Where it returns 0 the link shows the PCS as up and no longer as sending only alignment markers, and
  -- the last that was done to the hardware before the final clear of the error flags is two pairs of
  -- readings, each aligned and then free of faults, with nothing but a pause between the pairs.
  pub pcs_wait_result :
      (fuel : ℕ) (s : State H) {s' : State H} {err : ℕ}
      → pcs_wait b fuel s ≡ some (s', err)
      → Shown err s'.link.link_info × (err ≡ 0 → EndsOnTwo s')
  pcs_wait_result fuel s {s'} {err} h =
      let (v, e, q, es, ee) = pcs_wait_inv fuel s h in
      (
        subst (λ (k : State H). Shown err k.link.link_info) es
            (subst (λ (n : ℕ). Shown n (wait_out b e v).0.link.link_info) ee
              (wait_out-Shown b e v)),
        λ z.
            (let none_left : e ≡ 0 = sym (wait_out-err b e v) ∙ ee ∙ z in
              let q₀ = q ∙ ap (λ (n : ℕ). some (v, n)) none_left in
              subst EndsOnTwo (ap (λ (n : ℕ). (wait_out b n v).0) (sym none_left) ∙ es)
                (wait_out-EndsOnTwo fuel fuel _ v q₀)),
      )
