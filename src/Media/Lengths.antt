-- ===== src/Media/Lengths.antt =====
-- The cable lengths of enum sbl_link_len, which are the flags from bit 0 on, and the length in
-- centimetres that sbl_media_get_len_cm gives for each.
use ss_sbl.Prelude.{
  ℕ, ◌*◌, ◌≤◌, ◌≡◌, Bool, true, false, List, [], ◌∷◌, Option, none, some, arith, ◌==◌,
  if◌then◌else◌,
}

-- By the bit number of the flag: backplane, 0.3 m, 0.4 m and so on to 100 m.
abbrev pub lengths_cm : List ℕ
lengths_cm =
    25 ∷ 30 ∷ 40 ∷ 75 ∷ 80 ∷ 100 ∷ 110 ∷ 115 ∷ 120 ∷ 140 ∷ 142 ∷ 150 ∷ 160 ∷ 164 ∷ 170 ∷ 180 ∷ 190
    ∷ 191 ∷ 200 ∷ 210 ∷ 213 ∷ 220 ∷ 230 ∷ 239 ∷ 240 ∷ 250 ∷ 260 ∷ 262 ∷ 270 ∷ 280 ∷ 290 ∷ 299 ∷ 300
    ∷ 400 ∷ 500 ∷ 600 ∷ 700 ∷ 800 ∷ 1000 ∷ 1400 ∷ 1500 ∷ 1900 ∷ 2500 ∷ 3000 ∷ 3500 ∷ 5000 ∷ 7500
    ∷ 10000 ∷ []

-- The case of `switch (len)` that is reached, `flag` being the first label of those left.
unfoldable pub len_case : ℕ → ℕ → List ℕ → Option ℕ
len_case len flag [] = none
len_case len flag (cm ∷ cms) = if len == flag then some cm else len_case len (2 * flag) cms

-- The length for a value of enum sbl_link_len, `none` in the default case.
unfoldable pub len_cm? : ℕ → Option ℕ
unfolding len_case
len_cm? len = len_case len 1 lengths_cm

abbrev pub is_some : Option ℕ → Bool
is_some none = false
is_some (some cm) = true

-- Every number of the list is a length of 25 to 10000 cm.
abbrev InRange : List ℕ → Type 0
InRange [] = Unit
InRange (cm ∷ cms) = (25 ≤ cm) × (cm ≤ 10000) × InRange cms

lengths_cm-InRange : InRange lengths_cm
lengths_cm-InRange = omega arith

len_case_bounds :
    (len flag : ℕ) (cms : List ℕ) {cm : ℕ}
    → InRange cms
    → len_case len flag cms ≡ some cm
    → (25 ≤ cm) × (cm ≤ 10000)
unfolding len_case
len_case_bounds len flag [] {cm = v} r h = ground arith
len_case_bounds len flag (c ∷ cms) {cm = v} r h =
    ground (arith, len_case_bounds len (2 * flag) cms {cm = v} r.2)

pub len_cm?_bounds : (len : ℕ) {cm : ℕ} → len_cm? len ≡ some cm → (25 ≤ cm) × (cm ≤ 10000)
unfolding len_cm?
len_cm?_bounds len h = len_case_bounds len 1 lengths_cm lengths_cm-InRange h
