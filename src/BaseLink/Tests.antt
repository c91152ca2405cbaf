-- ===== src/BaseLink/Tests.antt =====
-- Runs of the base link's operations on a port where every call succeeds.
use ss_sbl.Prelude.{
  ℕ, ◌+◌, ◌≡◌, refl, true, false, List, [], ◌∷◌, some, arith, if◌then◌else◌, test_bit, set_bit,
}
use ss_sbl.Link.{LinkStatus}
use ss_sbl.Samples.{port, port-Framed, world_down, world_up, link_down, copper, edge_200g}
use ss_sbl.Fec.Settings.{ucw_of, ccw_of}
use ss_sbl.Fec.Thresholds.{ucw_bad_get, ccw_bad_get}
use ss_sbl.Fec.Checks.{over_threshold, raise_ucw_hwm, raise_ccw_hwm}
use ss_sbl.BaseLink.{World}
use ss_sbl.BaseLink.Start.{base_link_start}
use ss_sbl.BaseLink.Stop.{base_link_stop, base_link_reset, try_start_fail_cleanup, cleanup_locked}
use ss_sbl.BaseLink.Frame.{unlocks}
use ss_sbl.BaseLink.Outcome.{StartEnd, base_link_start_end}
use ss_sbl.BaseLink.Halt.{StopEnd, base_link_stop_end}
use ss_sbl.BaseLink.Recover.{recovers, cleanup_locked_end}
use ss_sbl.BaseLink.Mutex.{taken, mutex_released}
use ss_sbl.BaseLink.Lifecycle.{Op, run, run_all, Move}
use ss_sbl.BaseLink.Lifecycle.Moves.{run_moves}
use ss_sbl.BaseLink.Lifecycle.Traces.{IsConfigured, has_start, run_all-IsConfigured, run_all_up}

abbrev world_failed : World ℕ
world_failed = record world_down {
  link = record link_down { blstate = LinkStatus.error; blerr = 100 };
}

abbrev fresh : World ℕ
fresh = record world_down {
  link = record link_down {
    blstate = LinkStatus.unconfigured;
    blconfigured = false;
    mconfigured = false;
  };
}

abbrev bring_up : List Op
bring_up = Op.media_config (some copper) ∷ Op.link_config (some edge_200g) ∷ Op.start ∷ []

run_moves_example : Move Op.start LinkStatus.down (run port Op.start world_down).link.blstate
run_moves_example = run_moves port port-Framed Op.start world_down

base_link_start_end_example : StartEnd port world_down (base_link_start port world_down)
base_link_start_end_example = base_link_start_end port port-Framed world_down

base_link_stop_end_example : StopEnd port world_up (base_link_stop port world_up)
base_link_stop_end_example = base_link_stop_end port port-Framed world_up

cleanup_locked_end_example :
    ((cleanup_locked port world_failed).0.link.blstate
      ≡ (if recovers world_failed.link then LinkStatus.down else LinkStatus.error))
    × ((cleanup_locked port world_failed).0.link.blerr
        ≡ (if recovers world_failed.link then 0 else 100))
    × ((cleanup_locked port world_failed).0.link.blconfigured ≡ true)
    × ((cleanup_locked port world_failed).0.link.debug_config ≡ 0)
    × (unlocks (cleanup_locked port world_failed).0.log ≡ unlocks [] + 1)
cleanup_locked_end_example = cleanup_locked_end port port-Framed world_failed

mutex_released_example :
    (unlocks (base_link_start port world_down).0.log ≡ unlocks [] + taken port world_down)
    × (unlocks (base_link_stop port world_down).0.log ≡ unlocks [] + taken port world_down)
    × (unlocks (base_link_reset port world_down).0.log ≡ unlocks [] + taken port world_down)
    × (unlocks (try_start_fail_cleanup port world_down).log ≡ unlocks [] + taken port world_down)
mutex_released_example = mutex_released port port-Framed world_down

run_all-IsConfigured_example : IsConfigured (run_all port bring_up fresh).link
run_all-IsConfigured_example =
    run_all-IsConfigured port port-Framed bring_up fresh (λ ne. absurd (ne refl))

-- The start brings the link up.
comes_up : (run_all port bring_up fresh).link.blstate ≡ LinkStatus.up
unfolding run_all test_bit set_bit ucw_of ccw_of over_threshold ucw_bad_get ccw_bad_get
    raise_ucw_hwm raise_ccw_hwm
comes_up = refl

run_all_up_example : has_start bring_up ≡ true
run_all_up_example =
    run_all_up port port-Framed bring_up fresh (λ e. absurd (ground arith)) comes_up
