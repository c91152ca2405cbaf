-- ===== src/Pml/LlrMode/Measure.antt =====
-- The measured loop time lies within its bounds.
use ss_sbl.Prelude.{
  ℕ, zero, suc, ◌≤◌, ◌<◌, ◌≡◌, ◌≢◌, refl, sym, subst, ◌⊎◌, inl, inr, ltb, leb, ◌==◌, not, ◌&&◌,
  Bool-cases, if◌then◌else◌, arith,
}
use ss_sbl.Link.{Link}
use ss_sbl.Link.Consts.{info_llr_measure, debug_allow_loop_time_fail}
use ss_sbl.Media.{get_len_cm, check_len_supported, debug_option, calc_loop_time}
use ss_sbl.BaseLink.{link_info_clear, link_info_set}
use ss_sbl.Pml.{Board, State, timed_out, was_cancelled, pause}
use ss_sbl.Pml.LlrMode.{
  measure_within, measure_from, take_time, measure_once, measure_loop, measure_result,
  measure_bounds, measure_loop_time, max_loop_time, timing_loops,
}

-- The fastest time so far is the one before it, or lies within the bounds and is faster.
abbrev Faster : ℕ → ℕ → ℕ → ℕ → Type 0
Faster lo hi best t = (t ≡ best) ⊎ ((lo ≤ t) × (t ≤ hi) × (t < best))

take_time-Faster : (lo hi t best : ℕ) → Faster lo hi best (take_time lo hi t best)
unfolding take_time
take_time-Faster lo hi t best =
    elim (Bool-cases ((not (t == 0) && leb lo t && leb t hi) && ltb t best)) [
      | inl better ↦ rw better (inr (ground arith, ground arith, ground arith))
      | inr worse ↦ rw worse (inl refl)
    ]

Faster-trans : (lo hi best t u : ℕ) → Faster lo hi best t → Faster lo hi t u → Faster lo hi best u
Faster-trans lo hi best t u (inl e) f = subst (λ (n : ℕ). Faster lo hi n u) e f
Faster-trans lo hi best t u (inr (a, c, d)) (inl e) =
    subst (Faster lo hi best) (sym e) (inr (a, c, d))
Faster-trans lo hi best t u (inr (a, c, d)) (inr (x, y, z)) = inr (x, y, omega arith)

between :
    (lo hi best : ℕ)
    → Faster lo hi max_loop_time best
    → best ≢ max_loop_time
    → (lo ≤ best) × (best ≤ hi)
between lo hi best (inl e) n = absurd (n e)
between lo hi best (inr (a, c, d)) n = (a, c)

-- The time lies within the bounds.
abbrev pub Within : ℕ → ℕ → ℕ → Type 0
Within lo hi t = (lo ≤ t) × (t ≤ hi)

-- The link as the measurement starts
abbrev started : Link → Link
started l = record (link_info_set info_llr_measure l) { llr_loop_time = max_loop_time }

module _ {H : Type 0} (b : Board H) where
  measure_loop-Faster :
      (lo hi n best : ℕ) (s : State H) → Faster lo hi best (measure_loop b lo hi n best s).1.1
  unfolding measure_loop
  measure_loop-Faster lo hi zero best s = inl refl
  measure_loop-Faster lo hi (suc n) best s = elim (Bool-cases (timed_out b s)) [
    | inl late ↦ rw late (inl refl)
    | inr early ↦ rw early (elim (Bool-cases (was_cancelled b s)) [
      | inl cancelled ↦ rw cancelled (inl refl)
      | inr wanted ↦ rw wanted (
          Faster-trans lo hi best (take_time lo hi (measure_once b s).1 best) _
            (take_time-Faster lo hi (measure_once b s).1 best)
            (measure_loop-Faster lo hi n (take_time lo hi (measure_once b s).1 best) (
              if (measure_once b s).1 == 0
              then (pause b 200000 (measure_once b s).0).0
              else (measure_once b s).0)))
    ])
  ]

  measure_result-bounds :
      (lo hi best err : ℕ) (l : Link)
      → lo ≤ hi
      → Faster lo hi max_loop_time best
      → (measure_result hi (err, best) l).0 ≡ 0
      → (lo ≤ (measure_result hi (err, best) l).1) × ((measure_result hi (err, best) l).1 ≤ hi)
  unfolding measure_result
  measure_result-bounds lo hi best err l o f = elim (Bool-cases (err == 0)) [
    | inl good ↦ rw good (elim (Bool-cases (best == max_loop_time)) [
      | inl none_seen ↦
          rw none_seen (elim (Bool-cases (debug_option debug_allow_loop_time_fail l)) [
            | inl wanted ↦ rw wanted (λ e. absurd (ground arith))
            | inr skipped ↦ rw skipped (λ e. (o, ground arith))
          ])
      | inr seen ↦ rw seen (λ e. between lo hi best f (ground arith))
    ])
    | inr bad ↦ rw bad (λ e. absurd (ground arith))
  ]

  result_pair :
      (lo hi : ℕ) (r : ℕ × ℕ) (l : Link)
      → lo ≤ hi
      → Faster lo hi max_loop_time r.1
      → (measure_result hi r l).0 ≡ 0
      → Within lo hi (measure_result hi r l).1
  result_pair lo hi (err, best) l o f = measure_result-bounds lo hi best err l o f

  measure_bounds-ordered : (l : Link) → (measure_bounds l).1.0 ≤ (measure_bounds l).1.1
  unfolding measure_bounds
  measure_bounds-ordered l = elim (Bool-cases (l.mattr.len == 0)) [
    | inl unknown ↦ rw unknown (ground arith)
    | inr known ↦ rw known (ground arith)
  ]

  measure_bounds-started : (l : Link) → measure_bounds (started l) ≡ measure_bounds l
  unfolding measure_bounds calc_loop_time get_len_cm check_len_supported link_info_set
  measure_bounds-started l = refl

  measure_within-bounds :
      (lo hi : ℕ)
      → lo ≤ hi
      → (s : State H) → (measure_within b lo hi s).1 ≡ 0
      → Within lo hi (measure_within b lo hi s).0.link.llr_loop_time
  unfolding measure_within link_info_clear
  measure_within-bounds lo hi o s =
      result_pair lo hi (measure_loop b lo hi timing_loops max_loop_time s).1 s.link o
        (measure_loop-Faster lo hi timing_loops max_loop_time s)

  measure_from-bounds :
      (bounds : ℕ × (ℕ × ℕ))
      → bounds.1.0 ≤ bounds.1.1
      → (s : State H) → (measure_from b bounds s).1 ≡ 0
      → Within bounds.1.0 bounds.1.1 (measure_from b bounds s).0.link.llr_loop_time
  unfolding measure_from
  measure_from-bounds (zero, (lo, hi)) o s e = measure_within-bounds lo hi o s e
  measure_from-bounds (suc err, bounds) o s e = absurd (ground arith)

  -- Where the measurement succeeds, the loop time lies within the bounds: 60 ns and 3000 ns where the
  -- length of the medium is not known, else the time calculated from it and 100 ns more.
  pub measure_loop_time-bounds :
      (s : State H)
      → (measure_loop_time b s).1 ≡ 0
      → Within
          (measure_bounds s.link).1.0
          (measure_bounds s.link).1.1
          (measure_loop_time b s).0.link.llr_loop_time
  unfolding measure_loop_time
  measure_loop_time-bounds s = rw (← measure_bounds-started s.link) (
      measure_from-bounds (measure_bounds (started s.link))
        (measure_bounds-ordered (started s.link)) (record s { link = started s.link }))
