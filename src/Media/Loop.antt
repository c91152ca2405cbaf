-- ===== src/Media/Loop.antt =====
-- The loop time that sbl_media.c works out from the cable length.
use ss_sbl.Prelude.{
  ℕ, ◌+◌, ◌*◌, ◌/◌, ◌≤◌, ◌≡◌, ◌≢◌, ◌⊎◌, inl, inr, Bool, true, false, Option, none, some, arith,
  refl, if◌then◌else◌, ◌==◌,
}
use ss_sbl.Link.{Link}
use ss_sbl.Link.Consts.{media_electrical, optical_tranceiver_delay, asic_tx_delay, asic_rx_delay}
use ss_sbl.Media.{get_len_cm, loop_time_of, calc_loop_time, get_loop_time_ns}
use ss_sbl.Media.Lengths.{len_cm?, len_cm?_bounds}

Option-cases : (o : Option ℕ) → (o ≡ none) ⊎ ((a : ℕ) × (o ≡ some a))
Option-cases none = inl refl
Option-cases (some a) = inr (a, refl)

-- sbl_media_get_len_cm answers 0, also where an option lets an unknown length pass, or a length of
-- 25 to 10000 cm.
get_len_cm_bounds :
    (len : ℕ) (l : Link)
    → (get_len_cm len l ≡ 0) ⊎ ((25 ≤ get_len_cm len l) × (get_len_cm len l ≤ 10000))
unfolding get_len_cm
get_len_cm_bounds len l = elim (Option-cases (len_cm? len)) [
  | inl e ↦ ground arith
  | inr (cm, e) ↦ ground (arith, len_cm?_bounds len e)
]

-- For every length that sbl_media_get_len_cm can give, the 32-bit products do not wrap: the loop time
-- is that of the cable, there and back, in whole nanoseconds, with the delays of the transceivers of
-- an optical cable and of the two ASICs, and it lies between 232 and 1372 ns.
pub loop_time_of_exact :
    (media len : ℕ)
    → len ≤ 10000
    → (loop_time_of media len
        ≡ (if media == media_electrical
            then 2 * len * 4 / 100
            else 2 * len * 5 / 100 + 4 * optical_tranceiver_delay)
          + 2 * (asic_tx_delay + asic_rx_delay))
      × (232 ≤ loop_time_of media len)
      × (loop_time_of media len ≤ 1372)
unfolding loop_time_of
loop_time_of_exact media len h = ground arith

calc_loop_time_bounds :
    (l : Link)
    → ((calc_loop_time l).0 ≢ 0) ⊎ ((232 ≤ (calc_loop_time l).1) × ((calc_loop_time l).1 ≤ 1372))
unfolding calc_loop_time
calc_loop_time_bounds l = ground (
  arith,
  get_len_cm_bounds l.mattr.len l,
  loop_time_of_exact l.mattr.media (get_len_cm l.mattr.len l),
  loop_time_of_exact l.mattr.media 0,
)

-- sbl_media_get_loop_time_ns gives the measured time where there is one; otherwise it gives 0, or,
-- where no measurement is asked for, a time of 232 to 1372 ns. The media is configured.
pub get_loop_time_ns_cases :
    (measurement_only : Bool) (l : Link)
    → l.mconfigured ≡ true
    → ((l.llr_loop_time ≢ 0) × (get_loop_time_ns measurement_only l ≡ l.llr_loop_time))
      ⊎ ((l.llr_loop_time ≡ 0) × (get_loop_time_ns measurement_only l ≡ 0))
      ⊎ ((l.llr_loop_time ≡ 0)
          × (measurement_only ≡ false)
          × (232 ≤ get_loop_time_ns measurement_only l)
          × (get_loop_time_ns measurement_only l ≤ 1372))
unfolding get_loop_time_ns
get_loop_time_ns_cases m l h = ground (arith, calc_loop_time_bounds l)
