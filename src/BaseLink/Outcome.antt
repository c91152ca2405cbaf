-- ===== src/BaseLink/Outcome.antt =====
-- How sbl_base_link_start ends, on each of its paths (sbl_link.c).
use ss_sbl.Prelude.{ℕ, ◌+◌, ◌≡◌, ◌≢◌, refl, Bool-cases, inl, inr, arith, ◌==◌, not}
use ss_sbl.Link.{LinkStatus, is_up, is_down, is_up-true, is_up-false, is_down-true}
use ss_sbl.Link.Consts.{erestartsys}
use ss_sbl.BaseLink.{Call, Env, World, note, lock, attempt}
use ss_sbl.BaseLink.Start.{
  start_stages, start_prepare, unlock_return, media_check, start_locked, base_link_start,
}
use ss_sbl.BaseLink.Frame.{Framed, Kept, unlocks, call_-Kept}
use ss_sbl.BaseLink.Stages.{Ended, Finished, start_stages-Ended}

-- The ways in which a start of the link in the world `w` can end with the result `r`: the wait for the
-- mutex was interrupted; the link was up already; the start was refused, because the link was not
-- down or its configuration did not suit the media; or the link was down, and the start has been
-- carried out and has finished.
pub data StartEnd {H : Type 0} (env : Env H) (w : World H) (r : World H × ℕ) : Type 0 where
  interrupted : env.mutex_lock w.hw ≢ 0 → r.1 ≡ erestartsys → r.0.link ≡ w.link → StartEnd env w r
  already_up : w.link.blstate ≡ LinkStatus.up → r.1 ≡ 0 → r.0.link ≡ w.link → StartEnd env w r
  refused : w.link.blstate ≢ LinkStatus.up → r.1 ≢ 0 → r.0.link ≡ w.link → StartEnd env w r
  carried_out : w.link.blstate ≡ LinkStatus.down → Finished r → StartEnd env w r

module _ {H : Type 0} (env : Env H) (framed : Framed env) where
  -- The world in which the stages begin, seen as the one that the calls keep.
  begun : World H → World H
  begun w = record w { link = record (w.link) { blstate = LinkStatus.starting } }

  start_prepare-Kept : (w : World H) → Kept (begun w) (start_prepare env w)
  unfolding start_prepare begun
  start_prepare-Kept w =
      let r =
        call_-Kept env framed (begun w) Call.pml_set_defaults refl _
          (record { same = refl; count = refl }) in
      record { same = r.same; count = r.count }

  stages-Ended : (w : World H) → Ended (begun w) (start_stages env (start_prepare env w))
  stages-Ended w = (start_stages-Ended env framed (begun w)).ends _ (start_prepare-Kept w)

  start_locked-end : (w : World H) → StartEnd env w (start_locked env w)
  unfolding start_locked unlock_return note
  start_locked-end w = elim (Bool-cases (is_up w.link.blstate)) [
    | inl up ↦ rw (up, start_locked) (StartEnd.already_up (is_up-true w.link.blstate up) refl refl)
    | inr not_up ↦ elim (Bool-cases (is_down w.link.blstate)) [
      | inr not_down ↦
          rw (not_up, not_down, start_locked)
            (StartEnd.refused (is_up-false w.link.blstate not_up) (omega arith) refl)
      | inl down ↦ elim (Bool-cases (media_check env w.link == 0)) [
        | inr unsuited ↦
            rw (not_up, down, unsuited, start_locked)
              (StartEnd.refused (is_up-false w.link.blstate not_up) (ground arith) refl)
        | inl suited ↦
            rw (not_up, down, suited, start_locked)
              (StartEnd.carried_out (is_down-true w.link.blstate down) (stages-Ended w).finished)
      ]
    ]
  ]

  -- Every call of sbl_base_link_start behind the validations ends in one of these ways: it is refused
  -- and leaves the link record as it was, or the link was down and is now up without an error, or the
  -- link was down and is now in the state ERROR, with the error that is returned in `blerr`. The calls of the serdes, the PML block and the firmware may do
  -- anything but set the link's state, its error, its configured flag or its debug flags.
  pub base_link_start_end : (w : World H) → StartEnd env w (base_link_start env w)
  unfolding base_link_start attempt lock note
  base_link_start_end w = elim (Bool-cases (env.mutex_lock w.hw == 0)) [
    | inl got ↦ rw (got, base_link_start) (from (start_locked-end (note Call.lock_busy_mtx w)))
    | inr not ↦ rw (not, base_link_start) (StartEnd.interrupted (ground arith) refl refl)
  ]
    where
      from : {r : World H × ℕ} → StartEnd env (note Call.lock_busy_mtx w) r → StartEnd env w r
      from (StartEnd.interrupted a b c) = StartEnd.interrupted a b c
      from (StartEnd.already_up a b c) = StartEnd.already_up a b c
      from (StartEnd.refused a b c) = StartEnd.refused a b c
      from (StartEnd.carried_out a b) = StartEnd.carried_out a b

  pub start_locked-kept :
      (w : World H)
      → ((start_locked env w).0.link.blconfigured ≡ w.link.blconfigured)
        × ((start_locked env w).0.link.debug_config ≡ w.link.debug_config)
        × (unlocks (start_locked env w).0.log ≡ unlocks w.log + 1)
  unfolding start_locked unlock_return note begun
  start_locked-kept w =
      let e = stages-Ended w in
      elim (Bool-cases (is_up w.link.blstate)) [
        | inl up ↦ rw (up, start_locked) (refl, refl, omega arith)
        | inr not_up ↦ elim (Bool-cases (is_down w.link.blstate)) [
          | inr not_down ↦ rw (not_up, not_down, start_locked) (refl, refl, omega arith)
          | inl down ↦ elim (Bool-cases (media_check env w.link == 0)) [
            | inr unsuited ↦ rw (not_up, down, unsuited, start_locked) (refl, refl, omega arith)
            | inl suited ↦
                rw (not_up, down, suited, start_locked) (e.configured, e.debug, e.released)
          ]
        ]
      ]
