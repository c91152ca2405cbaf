-- ===== src/Pml/Handler/Origin.antt =====
-- The origin for which the interrupt handler takes the link down, and what it does about it.
use ss_sbl.Prelude.{
  ℕ, ◌≡◌, ◌∙◌, refl, Bool, true, false, not, ◌&&◌, ◌||◌, ◌==◌, ltb, if◌then◌else◌, List, [], ◌∷◌,
  ◌++◌, last_or, test_bit, arith, Bool-cases, inl, inr,
}
use ss_sbl.Link.{Link}
use ss_sbl.Link.Consts.{
  replay_ct_max_unlimited, opt_disable_pml_recovery, debug_ignore_hiser, debug_ignore_align,
  debug_remote_fault_recovery,
}
use ss_sbl.Media.{debug_option}
use ss_sbl.Pml.Regs.{Reg, Field, ErrFlag}
use ss_sbl.Pml.{Board, State, get, read64}
use ss_sbl.Pml.Recovery.{
  origin_link_down, origin_local_fault, origin_remote_fault, origin_align, origin_hiser,
  origin_llr_max, origin_degrade_failure,
}
use ss_sbl.Pml.Handler.{
  is_raised, failure_alert, origin_failure, origin_after_hiser, origin_after_llr, origin_of_fault,
  find_origin,
}

-- `o`, if there is a cause for it
abbrev pub cause : Bool → ℕ → List ℕ
cause true o = o ∷ []
cause false o = []

module _ {H : Type 0} (b : Board H) (l : Link) (flags sm sts : ℕ) where
  -- The first that applies of the faults of the receive status
  abbrev pub fault_causes : List ℕ
  fault_causes =
      let aligned = not (get b Field.sts_align_status sts == 0) in
      let local = not (get b Field.sts_local_fault sts == 0) in
      let remote = not (get b Field.sts_fault sts == 0) in
      cause (not aligned && not (debug_option debug_ignore_align l)) origin_align
      ++ (cause (aligned && local) origin_local_fault
          ++ (cause
                (aligned
                  && not local
                  && remote
                  && (test_bit opt_disable_pml_recovery l.blattr.options
                      || debug_option debug_remote_fault_recovery l))
                origin_remote_fault
              ++ cause (aligned && not local && not remote) origin_link_down))

  -- The causes to take the link down, in the order in which a later one overrides those before it
  abbrev pub causes : List ℕ
  causes =
      cause
        (is_raised b ErrFlag.pcs_tx_degrade_failure flags
          || is_raised b ErrFlag.pcs_rx_degrade_failure flags)
        origin_degrade_failure
      ++ (cause (is_raised b ErrFlag.pcs_hi_ser flags && not (debug_option debug_ignore_hiser l))
            origin_hiser
          ++ (cause
                (is_raised b ErrFlag.llr_replay_at_max flags
                  && ltb (get b Field.sm_replay_ct_max sm) replay_ct_max_unlimited)
                origin_llr_max
              ++ (if is_raised b ErrFlag.pcs_link_down flags then fault_causes else [])))

  -- The origin as the handler computes it, from the readings of the registers
  abbrev pub handler_origin : ℕ
  handler_origin =
      let o = origin_after_llr b sm flags (origin_after_hiser b l flags (origin_failure b flags)) in
      if is_raised b ErrFlag.pcs_link_down flags then origin_of_fault b l sts o else o

  handler_origin-causes : handler_origin ≡ last_or 0 causes
  unfolding origin_after_llr origin_after_hiser origin_failure origin_of_fault failure_alert
  handler_origin-causes = ground arith

module _ {H : Type 0} (b : Board H) (flags : ℕ) (s : State H) where
  -- The readings of the handler: the LLR configuration, and then the receive status
  abbrev pub sm_reading : ℕ
  sm_reading = (read64 b Reg.cfg_llr_sm s).1

  abbrev pub sts_reading : ℕ
  sts_reading = (read64 b Reg.sts_rx_pcs (read64 b Reg.cfg_llr_sm s).0).1

  find_origin-handler :
      (find_origin b flags s).1 ≡ handler_origin b s.link flags sm_reading sts_reading
  unfolding find_origin read64
  find_origin-handler = elim (Bool-cases (is_raised b ErrFlag.pcs_link_down flags)) [
    | inl down ↦ rw down refl
    | inr up ↦ rw up refl
  ]

  -- The interrupt handler finds as the origin for taking the link down the last of the causes that apply
  -- to the raised flags and to its readings, in the order: a side has lost all its lanes, a high error
  -- rate that is not ignored, the replay count at its maximum where it has one, and the first fault of
  -- the receive status that counts; and it finds none where none applies.
  pub find_origin-causes :
      (find_origin b flags s).1 ≡ last_or 0 (causes b s.link flags sm_reading sts_reading)
  find_origin-causes =
      find_origin-handler ∙ handler_origin-causes b s.link flags sm_reading sts_reading
