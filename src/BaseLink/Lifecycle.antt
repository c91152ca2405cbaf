-- ===== src/BaseLink/Lifecycle.antt =====
-- The life of a base link: the operations on one port of sbl_link.c, sbl_media.c and sbl_fec.c, and the
-- moves between the states of enum sbl_base_link_status that each of them makes.
pub mod Moves
pub mod Traces
use ss_sbl.Prelude.{ℕ, ◌≡◌, ◌≢◌, Bool, true, false, List, [], ◌∷◌, Option}
use ss_sbl.Link.{Link, LinkStatus, MediaAttr, BaseLinkAttr, is_idle_or_stopping}
use ss_sbl.Fec.Rates.{Sample}
use ss_sbl.Fec.Monitor.{fec_timer_work}
use ss_sbl.Media.{media_config_link, media_unconfig_link}
use ss_sbl.BaseLink.{Env, World, on_link}
use ss_sbl.BaseLink.Status.{base_link_config_link, base_link_enable_start}
use ss_sbl.BaseLink.Start.{base_link_start}
use ss_sbl.BaseLink.Stop.{
  base_link_cancel_start, base_link_stop, base_link_reset, try_start_fail_cleanup,
}

-- An operation on the port, with its arguments; `timer` is a run of the work of the FEC timer.
pub data Op : Type 0 where
  media_config : Option MediaAttr → Op
  media_unconfig : Op
  link_config : Option BaseLinkAttr → Op
  enable_start start cancel_start stop reset cleanup : Op
  timer : Bool → Sample → Op

-- The operation, behind the validations.
unfoldable pub run : {H : Type 0} → Env H → Op → World H → World H
unfolding media_config_link media_unconfig_link base_link_config_link base_link_enable_start
    base_link_start base_link_cancel_start base_link_stop base_link_reset try_start_fail_cleanup
    fec_timer_work
run env (Op.media_config m) w = on_link (λ l. (media_config_link m l).0) w
run env Op.media_unconfig w = on_link (λ l. (media_unconfig_link l).0) w
run env (Op.link_config b) w = on_link (λ l. (base_link_config_link b l).0) w
run env Op.enable_start w = on_link base_link_enable_start w
run env Op.start w = (base_link_start env w).0
run env Op.cancel_start w = base_link_cancel_start env w
run env Op.stop w = (base_link_stop env w).0
run env Op.reset w = (base_link_reset env w).0
run env Op.cleanup w = try_start_fail_cleanup env w
run env (Op.timer aligned s) w =
    on_link (λ l. (fec_timer_work env.kernel env.platform aligned s l).0) w

-- A sequence of operations, the first of them first.
unfoldable pub run_all : {H : Type 0} → Env H → List Op → World H → World H
unfolding run
run_all env [] w = w
run_all env (a ∷ rest) w = run_all env rest (run env a w)

-- The state machine: the moves that an operation may make. Any of them may leave the state alone.
pub data Move : Op → LinkStatus → LinkStatus → Type 0 where
  stay : (a : Op) (s : LinkStatus) → Move a s s
  media_configured :
      (m : Option MediaAttr) → Move (Op.media_config m) LinkStatus.unconfigured LinkStatus.down
  media_removed :
      (s : LinkStatus)
      → is_idle_or_stopping s ≡ true
      → Move Op.media_unconfig s LinkStatus.unconfigured
  configured :
      (b : Option BaseLinkAttr) → Move (Op.link_config b) LinkStatus.unconfigured LinkStatus.down
  came_up : Move Op.start LinkStatus.down LinkStatus.up
  start_failed : Move Op.start LinkStatus.down LinkStatus.error
  stopped : Move Op.stop LinkStatus.up LinkStatus.down
  stop_failed : Move Op.stop LinkStatus.up LinkStatus.error
  reset : (s : LinkStatus) → Move Op.reset s LinkStatus.unconfigured
  recovered : Move Op.cleanup LinkStatus.error LinkStatus.down
  alerted : (aligned : Bool) (s : Sample) → Move (Op.timer aligned s) LinkStatus.up LinkStatus.error
