-- ===== src/BaseLink/FaultMonitor.antt =====
-- The watch for faults of a link that is up (sbl_link.c).
use ss_sbl.Prelude.{ℕ, Bool, ltb, not, ◌==◌, if◌then◌else◌}
use ss_sbl.Link.Consts.{enetdown, replay_ct_max_unlimited}
use ss_sbl.BaseLink.{
  Call, Env, World, call, call_, on_link, attempt, link_info_set, link_info_clear, info_fault_mon,
}

module _ {H : Type 0} (env : Env H) where
  -- The flags to watch for, by the replay limit of the LLR: whether they are those of the recoverable
  -- faults.
  unfoldable pub fault_flags : World H → World H × Bool
  unfolding call
  fault_flags w =
      let (w', n) = call env Call.read_replay_ct_max w in (w', not (ltb n replay_ct_max_unlimited))

  -- The labels `out`, `out_uninstall` and `out_disable` of sbl_link_fault_monitor_start.
  unfoldable pub monitor_out : ℕ → World H → World H × ℕ
  unfolding link_info_clear
  monitor_out err w = (on_link (link_info_clear info_fault_mon) w, err)

  unfoldable pub monitor_out_uninstall : ℕ → World H → World H × ℕ
  unfolding monitor_out call_
  monitor_out_uninstall err w = monitor_out err (call_ env Call.remove_intr_handler w)

  unfoldable pub monitor_out_disable : Bool → ℕ → World H → World H × ℕ
  unfolding monitor_out_uninstall call_
  monitor_out_disable flags err w =
      monitor_out_uninstall err (call_ env (Call.disable_intr flags) w)

  -- `if (sbl_pml_err_flgs_test()) { err = -ENETDOWN; goto }`
  unfoldable pub flags_test : Bool → World H → World H × ℕ
  unfolding call
  flags_test flags w =
      let (w', set) = call env (Call.err_flgs_test flags) w in
      (w', if set == 0 then 0 else enetdown)

  -- sbl_link_fault_monitor_start, once it has the flags
  unfoldable pub fault_monitor_watch : Bool → World H → World H × ℕ
  unfolding attempt call flags_test monitor_out_disable link_info_set
  fault_monitor_watch flags = attempt (flags_test flags) monitor_out (
      attempt (call env (Call.install_intr flags)) monitor_out (
        attempt (call env (Call.enable_intr flags)) monitor_out_uninstall (
          attempt (flags_test flags) (monitor_out_disable flags)
            (λ w. (on_link (link_info_set info_fault_mon) w, 0)))))

  -- sbl_link_fault_monitor_start
  unfoldable pub fault_monitor_start : World H → World H × ℕ
  unfolding fault_flags fault_monitor_watch
  fault_monitor_start w = let (w', flags) = fault_flags w in fault_monitor_watch flags w'

  -- `return err`
  unfoldable pub give_up : ℕ → World H → World H × ℕ
  give_up err w = (w, err)

  -- sbl_link_fault_monitor_stop
  unfoldable pub fault_monitor_stop : World H → World H × ℕ
  unfolding fault_flags attempt call give_up link_info_clear
  fault_monitor_stop w =
      let (w', flags) = fault_flags w in
      attempt (call env (Call.disable_intr flags)) give_up
        (attempt (call env Call.remove_intr_handler) give_up
          (λ v. (on_link (link_info_clear info_fault_mon) v, 0)))
        w'
