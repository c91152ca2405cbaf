-- ===== src/Pml/PcsWait.antt =====
-- The waits for the PCS to lock, to align and to be free of faults: drivers/net/ethernet/hpe/sbl/
-- sbl_pml_pcs.c. Sleeps are in microseconds; the milliseconds that have elapsed fit an `int`.
pub mod Steps
pub mod Calm
pub mod Rounds
pub mod Loops
pub mod Lost
pub mod Ends
pub mod Shown
pub mod Twice
use ss_sbl.Prelude.{
  ℕ, zero, suc, ◌+◌, ◌==◌, ltb, Bool, true, false, not, if◌then◌else◌, Option, none, some, ◌≡◌, ◌⊎◌,
  inl, inr, refl,
}
use ss_sbl.Link.{Link}
use ss_sbl.Link.Consts.{
  etimedout, ecanceled, eadv, enolck, info_pcs_tx_am, info_pcs_align_en, info_pcs_a_wait,
  info_pcs_f_wait, info_pcs_up,
}
use ss_sbl.Kernel.{ticks_between}
use ss_sbl.Pml.Regs.{Reg, Field}
use ss_sbl.Pml.Pcs.{
  pcs_locked, pcs_aligned, pcs_no_faults, pcs_high_serdes_error, pcs_start_lock, pcs_stop_lock,
  pcs_clear_tx_rf,
}
use ss_sbl.Pml.{
  Board, State, P, return, ask, ◌>>=◌, ◌>>◌, info_set, info_clear, write64, now, pause, timed_out,
  was_cancelled,
}
use ss_sbl.Pml.Waiting.{Turn}

-- SBL_PML_ALL_PCS_ERR_FLGS
abbrev pub all_pcs_err_flgs : ℕ
all_pcs_err_flgs = 0x0001fff800000000

-- SBL_PML_PCS_ALIGN_TIMEOUT and SBL_PML_REQUIRED_NO_FAULT_COUNT
abbrev pub pcs_align_timeout : ℕ
pcs_align_timeout = 1000

abbrev pub required_no_fault_count : ℕ
required_no_fault_count = 2

-- The two loops of sbl_pml_pcs_alignment_wait
pub data Phase : Type 0 where
  locking aligning : Phase

-- A round of sbl_pml_pcs_fault_clear_wait: the function returns, or the loop goes on with its count
-- and its start.
pub data FaultTurn : Type 0 where
  done : ℕ → FaultTurn
  go : ℕ → ℕ → FaultTurn

pub fault_turn_cases :
    (t : FaultTurn)
    → ((err : ℕ) × (t ≡ FaultTurn.done err))
      ⊎ ((count : ℕ) × (start : ℕ) × (t ≡ FaultTurn.go count start))
fault_turn_cases (FaultTurn.done err) = inl (err, refl)
fault_turn_cases (FaultTurn.go count start) = inr (count, start, refl)

module _ {H : Type 0} (b : Board H) where
  -- `elapsed = jiffies_to_msecs(jiffies - start_jiffy)`
  unfoldable pub elapsed : ℕ → State H → ℕ
  elapsed start s = b.kernel.jiffies_to_msecs (ticks_between (b.jiffies s.hw) start)

  -- sbl_port_check_eyes
  unfoldable pub check_eyes : P H ℕ
  check_eyes s = let (h, err) = b.check_eyes s.hw in (record s { hw = h }, err)

  -- `if (elapsed > 50) msleep(100); else usleep_range(10000, 11000);`
  unfoldable pub short_pause : ℕ → P H Turn
  short_pause ms = do pause b (if ltb 50 ms then 100000 else 10000); return Turn.again

  -- The part of the loop for the lock that comes when a second has gone by.
  unfoldable pub lock_late : P H Turn
  lock_late = do
    bad ← pcs_high_serdes_error b
    if bad then return (Turn.stop eadv) else (do
      err ← check_eyes
      if not (err == 0)
          then return (Turn.stop err)
          else (do pcs_stop_lock b; pcs_start_lock b; pause b 1000000; return Turn.again))

  -- A round of the first loop of sbl_pml_pcs_alignment_wait
  unfoldable pub lock_round : ℕ → P H Turn
  lock_round start = do
    locked ← pcs_locked b
    late ← ask (timed_out b)
    cancelled ← ask (was_cancelled b)
    ms ← ask (elapsed start)
    if locked
        then return Turn.onward
        else if late
        then return (Turn.stop etimedout)
        else if cancelled
        then return (Turn.stop ecanceled)
        else if ltb 1000 ms
        then lock_late
        else short_pause ms

  -- `sbl_pml_pcs_stop_lock(); sbl_pml_pcs_start_lock(); goto restart;`
  unfoldable pub relock : P H Turn
  relock = do pcs_stop_lock b; pcs_start_lock b; return Turn.restart

  -- What follows in the second loop when the PCS is neither aligned nor out of time.
  unfoldable pub align_go_on : ℕ → P H Turn
  align_go_on start = do
    locked ← pcs_locked b
    ms ← ask (elapsed start)
    if not locked
        then return Turn.restart
        else if ltb pcs_align_timeout ms
        then relock
        else short_pause ms

  -- A round of the second loop
  unfoldable pub align_round : ℕ → P H Turn
  align_round start = do
    aligned ← pcs_aligned b
    late ← ask (timed_out b)
    cancelled ← ask (was_cancelled b)
    if aligned
        then return Turn.onward
        else if late
        then return (Turn.stop etimedout)
        else if cancelled
        then return (Turn.stop ecanceled)
        else align_go_on start

  -- The two loops. The first begins at the label `restart`.
  unfoldable pub align_loop : ℕ → Phase → ℕ → State H → Option (State H × ℕ)
  align_loop zero p start s = none
  align_loop (suc fuel) Phase.locking start s =
      let (s', turn) = lock_round start s in
      elim turn [
        | Turn.stop err ↦ some (s', err)
        | Turn.again ↦ align_loop fuel Phase.locking start s'
        | Turn.onward ↦ align_loop fuel Phase.aligning (b.jiffies s'.hw) s'
        | Turn.restart ↦ align_loop fuel Phase.locking (b.jiffies s'.hw) s'
      ]
  align_loop (suc fuel) Phase.aligning start s =
      let (s', turn) = align_round start s in
      elim turn [
        | Turn.stop err ↦ some (s', err)
        | Turn.again ↦ align_loop fuel Phase.aligning start s'
        | Turn.onward ↦ some (s', 0)
        | Turn.restart ↦ align_loop fuel Phase.locking (b.jiffies s'.hw) s'
      ]

  -- A wait that shows a flag in the link's information while it lasts.
  unfoldable pub flagged : ℕ → (State H → Option (State H × ℕ)) → State H → Option (State H × ℕ)
  flagged info wait s = elim (wait (info_set info s).0) [
    | none ↦ none
    | some (s', err) ↦ some ((info_clear info s').0, err)
  ]

  -- sbl_pml_pcs_alignment_wait
  unfoldable pub alignment_wait : ℕ → State H → Option (State H × ℕ)
  alignment_wait fuel s = flagged info_pcs_a_wait (align_loop fuel Phase.locking (b.jiffies s.hw)) s

  -- The wait at the end of a round of sbl_pml_pcs_fault_clear_wait
  unfoldable pub fault_pause : ℕ → ℕ → P H FaultTurn
  fault_pause count start = do
    ms ← ask (elapsed start)
    pause b (if ltb 5000 ms then 1000000 else if ltb 100 ms then 100000 else 10000)
    return (FaultTurn.go count start)

  -- A reading without faults: the count goes up, and the polling is fast again.
  unfoldable pub fault_free : ℕ → P H FaultTurn
  fault_free count = do
    start ← ask (now b)
    if count + 1 == required_no_fault_count
        then return (FaultTurn.done 0)
        else fault_pause (count + 1) start

  unfoldable pub fault_round : ℕ → ℕ → P H FaultTurn
  fault_round count start = do
    late ← ask (timed_out b)
    cancelled ← ask (was_cancelled b)
    if late
        then return (FaultTurn.done etimedout)
        else if cancelled
        then return (FaultTurn.done ecanceled)
        else (do
          aligned ← pcs_aligned b
          if not aligned then return (FaultTurn.done enolck) else (do
            clear ← pcs_no_faults b
            if clear then fault_free count else fault_pause 0 start))

  unfoldable pub fault_loop : ℕ → ℕ → ℕ → State H → Option (State H × ℕ)
  fault_loop zero count start s = none
  fault_loop (suc fuel) count start s =
      let (s', turn) = fault_round count start s in
      elim turn [
        | FaultTurn.done err ↦ some (s', err)
        | FaultTurn.go count' start' ↦ fault_loop fuel count' start' s'
      ]

  -- sbl_pml_pcs_fault_clear_wait
  unfoldable pub fault_clear_wait : ℕ → State H → Option (State H × ℕ)
  fault_clear_wait fuel s = flagged info_pcs_f_wait (fault_loop fuel 0 (b.jiffies s.hw)) s

  -- The loop of sbl_pml_pcs_wait: when the alignment is lost, it begins again. `fuel` is for each wait.
  unfoldable pub wait_loop : ℕ → ℕ → State H → Option (State H × ℕ)
  wait_loop fuel zero s = none
  wait_loop fuel (suc rounds) s = elim (alignment_wait fuel s) [
    | none ↦ none
    | some (s₁, zero) ↦ elim (fault_clear_wait fuel s₁) [
      | none ↦ none
      | some (s₂, err) ↦ elim (err == enolck) [
        | true ↦ wait_loop fuel rounds s₂
        | false ↦ some (s₂, err)
      ]
    ]
    | some (s₁, suc err) ↦ some (s₁, suc err)
  ]

  -- The label `out` of sbl_pml_pcs_wait
  unfoldable pub wait_out : ℕ → P H ℕ
  wait_out err = do
    info_clear info_pcs_align_en
    info_clear info_pcs_a_wait
    info_clear info_pcs_f_wait
    if not (err == 0) then return err else (do
      write64 b Reg.err_clr all_pcs_err_flgs
      info_clear info_pcs_tx_am
      info_set info_pcs_up
      return 0)

  -- sbl_pml_pcs_wait
  unfoldable pub pcs_wait : ℕ → State H → Option (State H × ℕ)
  pcs_wait fuel s = elim (wait_loop fuel fuel (pcs_clear_tx_rf b (pcs_start_lock b s).0).0) [
    | none ↦ none
    | some (s', err) ↦ some (wait_out err s')
  ]
