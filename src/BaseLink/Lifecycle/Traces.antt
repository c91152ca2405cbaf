-- ===== src/BaseLink/Lifecycle/Traces.antt =====
-- What holds after any sequence of operations on a base link.
use ss_sbl.Prelude.{
  ℕ, ◌≡◌, ◌≢◌, ◌⊎◌, refl, ◌∙◌, ap, Bool, true, false, Bool-cases, inl, inr, if_rec, arith, ◌==◌,
  not, if◌then◌else◌, Option, none, some, List, [], ◌∷◌,
}
use ss_sbl.Link.{Link, LinkStatus, MediaAttr, BaseLinkAttr, is_up}
use ss_sbl.Media.{media_config_link, media_unconfig_link}
use ss_sbl.Fec.Rates.{Sample}
use ss_sbl.Fec.Monitor.{fec_timer_work}
use ss_sbl.Fec.Frame.{fec_timer_work-Watched, fec_timer_work_idle}
use ss_sbl.BaseLink.{Call, Env, World, note, lock, attempt}
use ss_sbl.BaseLink.Status.{base_link_config_link, base_link_enable_start}
use ss_sbl.BaseLink.Start.{base_link_start}
use ss_sbl.BaseLink.Stop.{
  base_link_cancel_start, base_link_stop, base_link_reset, try_start_fail_cleanup,
}
use ss_sbl.BaseLink.Frame.{Framed}
use ss_sbl.BaseLink.Outcome.{start_locked-kept}
use ss_sbl.BaseLink.Halt.{stop_locked_end}
use ss_sbl.BaseLink.Recover.{cleanup_locked_end, reset_locked_end}
use ss_sbl.BaseLink.Lifecycle.{Op, run, run_all, Move}
use ss_sbl.BaseLink.Lifecycle.Moves.{run_moves}

-- A link that is in any state but UNCONFIGURED has been configured.
abbrev pub IsConfigured : Link → Type 0
IsConfigured l = l.blstate ≢ LinkStatus.unconfigured → l.blconfigured ≡ true

-- The operations that may lead out of UNCONFIGURED.
abbrev pub configures : Op → Bool
configures (Op.media_config m) = true
configures (Op.link_config b) = true
configures _ = false

abbrev pub is_start : Op → Bool
is_start Op.start = true
is_start _ = false

-- Is there a start among the operations?
abbrev pub has_start : List Op → Bool
has_start [] = false
has_start (a ∷ ops) = if is_start a then true else has_start ops

Move-source :
    (a : Op) (s t : LinkStatus)
    → Move a s t
    → configures a ≡ false
    → t ≢ LinkStatus.unconfigured
    → s ≢ LinkStatus.unconfigured
Move-source _ _ _ (Move.stay a s) h ne e = ne e
Move-source _ _ _ (Move.media_configured m) h ne e = absurd (ground arith)
Move-source _ _ _ (Move.media_removed s i) h ne e = ne refl
Move-source _ _ _ (Move.configured b) h ne e = absurd (ground arith)
Move-source _ _ _ Move.came_up h ne e = absurd (ground arith)
Move-source _ _ _ Move.start_failed h ne e = absurd (ground arith)
Move-source _ _ _ Move.stopped h ne e = absurd (ground arith)
Move-source _ _ _ Move.stop_failed h ne e = absurd (ground arith)
Move-source _ _ _ (Move.reset s) h ne e = ne refl
Move-source _ _ _ Move.recovered h ne e = absurd (ground arith)
Move-source _ _ _ (Move.alerted al s) h ne e = absurd (ground arith)

Move-to_up :
    (a : Op) (s t : LinkStatus)
    → Move a s t
    → t ≡ LinkStatus.up
    → s ≢ LinkStatus.up
    → is_start a ≡ true
Move-to_up _ _ _ (Move.stay a s) e ne = absurd (ne e)
Move-to_up _ _ _ (Move.media_configured m) e ne = absurd (ground arith)
Move-to_up _ _ _ (Move.media_removed s i) e ne = absurd (ground arith)
Move-to_up _ _ _ (Move.configured b) e ne = absurd (ground arith)
Move-to_up _ _ _ Move.came_up e ne = refl
Move-to_up _ _ _ Move.start_failed e ne = absurd (ground arith)
Move-to_up _ _ _ Move.stopped e ne = absurd (ground arith)
Move-to_up _ _ _ Move.stop_failed e ne = absurd (ground arith)
Move-to_up _ _ _ (Move.reset s) e ne = absurd (ground arith)
Move-to_up _ _ _ Move.recovered e ne = absurd (ground arith)
Move-to_up _ _ _ (Move.alerted al s) e ne = absurd (ground arith)

media_config_link-IsConfigured :
    (m : Option MediaAttr) (l : Link) → IsConfigured l → IsConfigured (media_config_link m l).0
unfolding media_config_link
media_config_link-IsConfigured none l inv = inv
media_config_link-IsConfigured (some m) l inv = elim (Bool-cases l.blconfigured) [
  | inl conf ↦ ground arith
  | inr not ↦ ground arith
]

base_link_config_link-IsConfigured :
    (b : Option BaseLinkAttr) (l : Link)
    → IsConfigured l
    → IsConfigured (base_link_config_link b l).0
unfolding base_link_config_link
base_link_config_link-IsConfigured none l inv = inv
base_link_config_link-IsConfigured (some b) l inv = ground arith

module _ {H : Type 0} (env : Env H) (framed : Framed env) where
  start_configured :
      (w : World H) → (base_link_start env w).0.link.blconfigured ≡ w.link.blconfigured
  unfolding base_link_start attempt lock note
  start_configured w = elim (Bool-cases (env.mutex_lock w.hw == 0)) [
    | inl got ↦
        rw (got, base_link_start) (start_locked-kept env framed (note Call.lock_busy_mtx w)).0
    | inr not ↦ rw (not, base_link_start) refl
  ]

  stop_configured : (w : World H) → (base_link_stop env w).0.link.blconfigured ≡ w.link.blconfigured
  unfolding base_link_stop attempt lock note
  stop_configured w = elim (Bool-cases (env.mutex_lock w.hw == 0)) [
    | inl got ↦ rw (got, base_link_stop) (stop_locked_end env framed (note Call.lock_busy_mtx w)).1
    | inr not ↦ rw (not, base_link_stop) refl
  ]

  cleanup_configured :
      (w : World H) → (try_start_fail_cleanup env w).link.blconfigured ≡ w.link.blconfigured
  unfolding try_start_fail_cleanup attempt lock note
  cleanup_configured w = elim (Bool-cases (env.mutex_lock w.hw == 0)) [
    | inl got ↦
        rw (got, try_start_fail_cleanup)
          (cleanup_locked_end env framed (note Call.lock_busy_mtx w)).2
    | inr not ↦ rw (not, try_start_fail_cleanup) refl
  ]

  timer_configured :
      (aligned : Bool) (s : Sample) (l : Link)
      → (fec_timer_work env.kernel env.platform aligned s l).0.blconfigured ≡ l.blconfigured
  timer_configured aligned s l = elim (Bool-cases (is_up l.blstate)) [
    | inl is ↦ (fec_timer_work-Watched env.kernel env.platform aligned s l is).configured
    | inr not ↦
        ap (λ m. m.blconfigured) (fec_timer_work_idle env.kernel env.platform aligned s l not)
  ]

  -- An operation that keeps the configured flag, and does not lead out of UNCONFIGURED.
  run_kept-IsConfigured :
      (a : Op) (w : World H)
      → configures a ≡ false
      → (run env a w).link.blconfigured ≡ w.link.blconfigured
      → IsConfigured w.link
      → IsConfigured (run env a w).link
  run_kept-IsConfigured a w h same inv ne =
      same ∙ inv (Move-source a _ _ (run_moves env framed a w) h ne)

  base_link_reset-IsConfigured :
      (w : World H) → IsConfigured w.link → IsConfigured (base_link_reset env w).0.link
  unfolding base_link_reset attempt lock note
  base_link_reset-IsConfigured w inv = elim (Bool-cases (env.mutex_lock w.hw == 0)) [
    | inl got ↦
        rw (got, base_link_reset)
          (λ ne. absurd (ne (reset_locked_end env framed (note Call.lock_busy_mtx w)).1))
    | inr not ↦ rw (not, base_link_reset) inv
  ]

  run-IsConfigured : (a : Op) (w : World H) → IsConfigured w.link → IsConfigured (run env a w).link
  unfolding run base_link_enable_start base_link_cancel_start note media_unconfig_link
  run-IsConfigured (Op.media_config m) w inv = media_config_link-IsConfigured m w.link inv
  run-IsConfigured Op.media_unconfig w inv =
      run_kept-IsConfigured Op.media_unconfig w refl (unconfig w.link) inv
    where
      unconfig : (l : Link) → (media_unconfig_link l).0.blconfigured ≡ l.blconfigured
      unconfig l = if_rec (λ (r : Link × ℕ). r.0.blconfigured ≡ l.blconfigured) _ refl refl
  run-IsConfigured (Op.link_config b) w inv = base_link_config_link-IsConfigured b w.link inv
  run-IsConfigured Op.enable_start w inv = inv
  run-IsConfigured Op.start w inv = run_kept-IsConfigured Op.start w refl (start_configured w) inv
  run-IsConfigured Op.cancel_start w inv = inv
  run-IsConfigured Op.stop w inv = run_kept-IsConfigured Op.stop w refl (stop_configured w) inv
  run-IsConfigured Op.reset w inv = base_link_reset-IsConfigured w inv
  run-IsConfigured Op.cleanup w inv =
      run_kept-IsConfigured Op.cleanup w refl (cleanup_configured w) inv
  run-IsConfigured (Op.timer aligned s) w inv =
      run_kept-IsConfigured (Op.timer aligned s) w refl (timer_configured aligned s w.link) inv

  -- Whatever operations are made on a link, in any order, a link that is in any state but
  -- UNCONFIGURED has been configured: if that is so at first, it stays so. The calls out of
  -- sbl_link.c do not set the link's state, error, configured flag or debug flags.
  pub run_all-IsConfigured :
      (ops : List Op) (w : World H) → IsConfigured w.link → IsConfigured (run_all env ops w).link
  unfolding run_all
  run_all-IsConfigured [] w inv = inv
  run_all-IsConfigured (a ∷ ops) w inv =
      run_all-IsConfigured ops (run env a w) (run-IsConfigured a w inv)

  is_up_or_not : (s : LinkStatus) → (s ≡ LinkStatus.up) ⊎ (s ≢ LinkStatus.up)
  is_up_or_not LinkStatus.up = inl refl
  is_up_or_not _ = inr (λ e. absurd (ground arith))

  -- A link that is not up, and after some operations is up, has been started in between: neither a
  -- configuration nor a cleanup brings a link up. The calls out of sbl_link.c do not set the link's
  -- state, error, configured flag or debug flags.
  pub run_all_up :
      (ops : List Op) (w : World H)
      → w.link.blstate ≢ LinkStatus.up
      → (run_all env ops w).link.blstate ≡ LinkStatus.up
      → has_start ops ≡ true
  unfolding run_all
  run_all_up [] w ne e = absurd (ne e)
  run_all_up (a ∷ ops) w ne e = elim (is_up_or_not (run env a w).link.blstate) [
    | inl now ↦ rw (Move-to_up a _ _ (run_moves env framed a w) now ne) refl
    | inr still ↦
        if_rec (λ (b : Bool). b ≡ true) (is_start a) refl (run_all_up ops (run env a w) still e)
  ]
