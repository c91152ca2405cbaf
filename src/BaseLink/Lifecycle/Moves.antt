-- ===== src/BaseLink/Lifecycle/Moves.antt =====
-- Every operation on a base link makes a move of the state machine, and keeps a configured link
-- configured.
use ss_sbl.Prelude.{
  ◌≡◌, ◌⊎◌, refl, sym, ap, subst, Bool, true, Bool-cases, inl, inr, if_rec, arith, ◌==◌, not,
  if◌then◌else◌, Option, none, some,
}
use ss_sbl.Link.{
  Link, LinkStatus, MediaAttr, BaseLinkAttr, is_idle, is_idle_or_stopping, is_up, is_error,
  is_up-true,
}
use ss_sbl.Link.Consts.{media_attr_magic, link_attr_magic, loopback_local}
use ss_sbl.Media.{media_config_link, media_unconfig_link}
use ss_sbl.Fec.Rates.{Sample}
use ss_sbl.Fec.Frame.{fec_timer_work-Watched, fec_timer_work_idle}
use ss_sbl.BaseLink.{Call, Env, World, note, lock, attempt}
use ss_sbl.BaseLink.Status.{base_link_config_link, base_link_enable_start}
use ss_sbl.BaseLink.Start.{base_link_start}
use ss_sbl.BaseLink.Stop.{
  base_link_cancel_start, base_link_stop, base_link_reset, try_start_fail_cleanup,
}
use ss_sbl.BaseLink.Frame.{Framed}
use ss_sbl.BaseLink.Outcome.{StartEnd, base_link_start_end}
use ss_sbl.BaseLink.Halt.{StopEnd, base_link_stop_end, state_stopped}
use ss_sbl.BaseLink.Recover.{reset_locked_end, cleanup_locked_end, recovers}
use ss_sbl.BaseLink.Lifecycle.{Op, run, Move}

is_idle_cases :
    (s : LinkStatus) → is_idle s ≡ true → (s ≡ LinkStatus.unconfigured) ⊎ (s ≡ LinkStatus.down)
is_idle_cases LinkStatus.unconfigured h = inl refl
is_idle_cases LinkStatus.down h = inr refl
is_idle_cases _ h = absurd (ground arith)

is_error-true : (s : LinkStatus) → is_error s ≡ true → s ≡ LinkStatus.error
is_error-true LinkStatus.error h = refl
is_error-true _ h = absurd (ground arith)

-- A move from equations on its ends.
Move-at : {a : Op} {s t s' t' : LinkStatus} → s ≡ s' → t ≡ t' → Move a s' t' → Move a s t
Move-at {a} {s} {t} {s'} {t'} p q m =
    subst (λ (x : LinkStatus). Move a x t) (sym p)
      (subst (λ (x : LinkStatus). Move a s' x) (sym q) m)

media_config_moves :
    (m : Option MediaAttr) (l : Link)
    → Move (Op.media_config m) l.blstate (media_config_link m l).0.blstate
unfolding media_config_link
media_config_moves none l = Move.stay _ _
media_config_moves (some m) l = elim (Bool-cases (m.magic == media_attr_magic)) [
  | inr bad ↦ rw (bad, media_config_link) (Move.stay _ _)
  | inl good ↦ elim (Bool-cases (is_idle l.blstate)) [
    | inr busy ↦ rw (good, busy, media_config_link) (Move.stay _ _)
    | inl idle ↦ elim (Bool-cases l.blconfigured) [
      | inr not ↦ rw (good, idle, not, media_config_link) (Move.stay _ _)
      | inl conf ↦ elim (is_idle_cases l.blstate idle) [
        | inl un ↦
            rw (good, idle, conf, media_config_link)
              (Move-at un refl (Move.media_configured (some m)))
        | inr down ↦ rw (good, idle, conf, media_config_link) (Move-at down refl (Move.stay _ _))
      ]
    ]
  ]
]

media_unconfig_moves :
    (l : Link) → Move Op.media_unconfig l.blstate (media_unconfig_link l).0.blstate
unfolding media_unconfig_link
media_unconfig_moves l = elim (Bool-cases (is_idle_or_stopping l.blstate)) [
  | inr busy ↦ rw (busy, media_unconfig_link) (Move.stay _ _)
  | inl idle ↦ rw (idle, media_unconfig_link) (Move.media_removed l.blstate idle)
]

idle_to_down :
    (b : BaseLinkAttr) (s : LinkStatus)
    → is_idle s ≡ true
    → Move (Op.link_config (some b)) s LinkStatus.down
idle_to_down b s idle = elim (is_idle_cases s idle) [
  | inl un ↦ Move-at un refl (Move.configured (some b))
  | inr down ↦ Move-at down refl (Move.stay _ _)
]

link_config_moves :
    (b : Option BaseLinkAttr) (l : Link)
    → Move (Op.link_config b) l.blstate (base_link_config_link b l).0.blstate
unfolding base_link_config_link
link_config_moves none l = Move.stay _ _
link_config_moves (some b) l = elim (Bool-cases (b.magic == link_attr_magic)) [
  | inr bad ↦ rw (bad, base_link_config_link) (Move.stay _ _)
  | inl good ↦ elim (Bool-cases (is_idle l.blstate)) [
    | inr busy ↦ rw (good, busy, base_link_config_link) (Move.stay _ _)
    | inl idle ↦
        rw (good, idle, base_link_config_link)
          (if_rec (λ (s : LinkStatus). Move (Op.link_config (some b)) l.blstate s)
            (b.loopback_mode == loopback_local) (idle_to_down b l.blstate idle)
            (if_rec (λ (s : LinkStatus). Move (Op.link_config (some b)) l.blstate s) l.mconfigured
              (idle_to_down b l.blstate idle) (Move.stay _ _)))
  ]
]

module _ {H : Type 0} (env : Env H) (framed : Framed env) where
  start_moves : (w : World H) → Move Op.start w.link.blstate (base_link_start env w).0.link.blstate
  start_moves w = elim (base_link_start_end env framed w) [
    | StartEnd.interrupted a b c ↦ Move-at refl (ap (λ l. l.blstate) c) (Move.stay _ _)
    | StartEnd.already_up a b c ↦ Move-at refl (ap (λ l. l.blstate) c) (Move.stay _ _)
    | StartEnd.refused a b c ↦ Move-at refl (ap (λ l. l.blstate) c) (Move.stay _ _)
    | StartEnd.carried_out down (inl (a, up, b)) ↦ Move-at down up Move.came_up
    | StartEnd.carried_out down (inr (a, err, b)) ↦ Move-at down err Move.start_failed
  ]

  stopped_moves : (l : Link) → Move Op.stop LinkStatus.up (state_stopped l)
  stopped_moves l = if_rec (λ s. Move Op.stop LinkStatus.up s) _ (Move.stay _ _) Move.stopped

  stop_moves : (w : World H) → Move Op.stop w.link.blstate (base_link_stop env w).0.link.blstate
  stop_moves w = elim (base_link_stop_end env framed w) [
    | StopEnd.interrupted a b c ↦ Move-at refl (ap (λ l. l.blstate) c) (Move.stay _ _)
    | StopEnd.already_down a b c ↦ Move-at refl (ap (λ l. l.blstate) c) (Move.stay _ _)
    | StopEnd.refused a b c ↦ Move-at refl (ap (λ l. l.blstate) c) (Move.stay _ _)
    | StopEnd.carried_out up (inl (a, s, b)) ↦ Move-at up s (stopped_moves w.link)
    | StopEnd.carried_out up (inr (a, err, b)) ↦ Move-at up err Move.stop_failed
  ]

  reset_moves : (w : World H) → Move Op.reset w.link.blstate (base_link_reset env w).0.link.blstate
  unfolding base_link_reset attempt lock note
  reset_moves w = elim (Bool-cases (env.mutex_lock w.hw == 0)) [
    | inl got ↦
        rw (got, base_link_reset)
          (Move-at refl (reset_locked_end env framed (note Call.lock_busy_mtx w)).1 (Move.reset _))
    | inr not ↦ rw (not, base_link_reset) (Move.stay _ _)
  ]

  recovers_error : (l : Link) → recovers l ≡ true → l.blstate ≡ LinkStatus.error
  recovers_error l h = is_error-true l.blstate (ground arith)

  cleaned_moves :
      (l : Link) → Move Op.cleanup l.blstate (if recovers l then LinkStatus.down else l.blstate)
  cleaned_moves l = elim (Bool-cases (recovers l)) [
    | inl back ↦ rw back (Move-at (recovers_error l back) refl Move.recovered)
    | inr left ↦ rw left (Move.stay _ _)
  ]

  cleanup_moves :
      (w : World H) → Move Op.cleanup w.link.blstate (try_start_fail_cleanup env w).link.blstate
  unfolding try_start_fail_cleanup attempt lock note
  cleanup_moves w = elim (Bool-cases (env.mutex_lock w.hw == 0)) [
    | inl got ↦
        rw (got, try_start_fail_cleanup)
          (Move-at refl (cleanup_locked_end env framed (note Call.lock_busy_mtx w)).0
            (cleaned_moves w.link))
    | inr not ↦ rw (not, try_start_fail_cleanup) (Move.stay _ _)
  ]

  timer_moves :
      (aligned : Bool) (s : Sample) (w : World H)
      → Move (Op.timer aligned s) w.link.blstate (run env (Op.timer aligned s) w).link.blstate
  unfolding run
  timer_moves aligned s w = elim (Bool-cases (is_up w.link.blstate)) [
    | inl up ↦ elim (fec_timer_work-Watched env.kernel env.platform aligned s w.link up).state [
      | inl same ↦ Move-at refl same (Move.stay _ _)
      | inr err ↦ Move-at (is_up-true w.link.blstate up) err (Move.alerted aligned s)
    ]
    | inr not_up ↦
        Move-at refl
          (ap (λ l. l.blstate)
            (fec_timer_work_idle env.kernel env.platform aligned s w.link not_up))
          (Move.stay _ _)
  ]

  -- Each operation on a base link moves its state only along an edge of the state machine that is
  -- the operation's own: only a start brings a link up, from DOWN, and only the cleanup leads from
  -- ERROR to DOWN. The calls out of sbl_link.c do not set the link's state, error, configured flag
  -- or debug flags.
  pub run_moves : (a : Op) (w : World H) → Move a w.link.blstate (run env a w).link.blstate
  unfolding run base_link_enable_start base_link_cancel_start note
  run_moves (Op.media_config m) w = media_config_moves m w.link
  run_moves Op.media_unconfig w = media_unconfig_moves w.link
  run_moves (Op.link_config b) w = link_config_moves b w.link
  run_moves Op.enable_start w = Move.stay _ _
  run_moves Op.start w = start_moves w
  run_moves Op.cancel_start w = Move.stay _ _
  run_moves Op.stop w = stop_moves w
  run_moves Op.reset w = reset_moves w
  run_moves Op.cleanup w = cleanup_moves w
  run_moves (Op.timer aligned s) w = timer_moves aligned s w
