-- ===== src/Pml/Lanes/Active.antt =====
-- The lanes of the 100G mode.
use ss_sbl.Prelude.{
  ℕ, zero, suc, ◌+◌, ◌*◌, ◌/◌, ◌^◌, ◌<◌, ◌≡◌, refl, ap, ◌∙◌, Bool, true, false, ◌||◌, ◌&&◌, ◌==◌,
  ltb, leb, Bool-cases, inl, inr, if◌then◌else◌, arith, test_bit, test_bit-word_or, test_bit-zero,
  ==_iff,
}
use ss_sbl.Link.Consts.{mode_cd_100g, loopback_local}
use ss_sbl.Pml.Lanes.{Lanes, add_lane, lanes_100g, lanes_per_port, no_lanes, determine_active_lanes}

test_bit-power : (i k : ℕ) → test_bit k (2 ^ i) ≡ (k == i)
unfolding test_bit
test_bit-power zero zero = refl
test_bit-power zero (suc k) = test_bit-zero k ∙ ground arith
test_bit-power (suc i) zero = ground arith
test_bit-power (suc i) (suc k) = ap (test_bit k) (omega arith) ∙ test_bit-power i k ∙ ground arith

four_fold : (i : ℕ) → 3 * 2 ^ (2 * suc i) ≡ 4 * (3 * 2 ^ (2 * i))
four_fold i =
    let e : 2 * suc i ≡ suc (suc (2 * i)) = omega arith in ap (λ (n : ℕ). 3 * 2 ^ n) e ∙ omega arith

test_bit-pair : (i k : ℕ) → test_bit k (3 * 2 ^ (2 * i)) ≡ (k / 2 == i)
unfolding test_bit
test_bit-pair zero zero = refl
test_bit-pair zero (suc zero) = refl
test_bit-pair zero (suc (suc k)) = test_bit-zero k ∙ ground arith
test_bit-pair (suc i) zero = let e = four_fold i in ground arith
test_bit-pair (suc i) (suc zero) = let e = four_fold i in ground arith
test_bit-pair (suc i) (suc (suc k)) =
    let e = four_fold i in ap (test_bit k) (omega (arith, e)) ∙ test_bit-pair i k ∙ ground arith

-- One more lane, where `c` tells that it is in use
add_if : Bool → ℕ → Lanes → Lanes
add_if c i s = if c then add_lane i s else s

add_if-rx :
    (c : Bool) (i k : ℕ) (s : Lanes)
    → k < 32
    → test_bit k (add_if c i s).rx ≡ (test_bit k s.rx || (k == i) && c)
unfolding add_if add_lane
add_if-rx true i k s h =
    test_bit-word_or 32 k s.rx (2 ^ i) h
    ∙ ap (λ t. test_bit k s.rx || t) (test_bit-power i k)
    ∙ ground arith
add_if-rx false i k s h = ground arith

add_if-fec :
    (c : Bool) (i k : ℕ) (s : Lanes)
    → k < 32
    → test_bit k (add_if c i s).fec ≡ (test_bit k s.fec || (k / 2 == i) && c)
unfolding add_if add_lane
add_if-fec true i k s h =
    test_bit-word_or 32 k s.fec (3 * 2 ^ (2 * i)) h
    ∙ ap (λ t. test_bit k s.fec || t) (test_bit-pair i k)
    ∙ ground arith
add_if-fec false i k s h = ground arith

-- A lane that the loop comes by, and that is in use
abbrev visited : (ℕ → ℕ) → ℕ → ℕ → ℕ → Bool
visited source n i k = leb i k && ltb k (i + n) && ltb (source k) 2

visited_step :
    (source : ℕ → ℕ) (n i k : ℕ) (t : Bool)
    → ((t || (k == i) && ltb (source i) 2) || visited source n (i + 1) k)
      ≡ (t || visited source (suc n) i k)
visited_step source n i k t = elim (Bool-cases (k == i)) [
  | inl e ↦ let p = ap source ((==_iff k i).0 e) in ground arith
  | inr n ↦ ground arith
]

lanes_100g-rx :
    (source : ℕ → ℕ) (n i k : ℕ) (s : Lanes)
    → k < 32
    → test_bit k (lanes_100g source n i s).rx ≡ (test_bit k s.rx || visited source n i k)
unfolding lanes_100g add_if
lanes_100g-rx source zero i k s h = ground arith
lanes_100g-rx source (suc n) i k s h =
    lanes_100g-rx source n (i + 1) k (add_if (ltb (source i) 2) i s) h
    ∙ ap (λ t. t || visited source n (i + 1) k) (add_if-rx (ltb (source i) 2) i k s h)
    ∙ visited_step source n i k (test_bit k s.rx)

lanes_100g-fec :
    (source : ℕ → ℕ) (n i k : ℕ) (s : Lanes)
    → k < 32
    → test_bit k (lanes_100g source n i s).fec ≡ (test_bit k s.fec || visited source n i (k / 2))
unfolding lanes_100g add_if
lanes_100g-fec source zero i k s h = ground arith
lanes_100g-fec source (suc n) i k s h =
    lanes_100g-fec source n (i + 1) k (add_if (ltb (source i) 2) i s) h
    ∙ ap (λ t. t || visited source n (i + 1) (k / 2)) (add_if-fec (ltb (source i) 2) i k s h)
    ∙ visited_step source n i (k / 2) (test_bit k s.fec)

-- The lane is one of the four, and its source is 0 or 1.
abbrev pub in_use : (ℕ → ℕ) → ℕ → Bool
in_use source k = ltb k 4 && ltb (source k) 2

lanes_100g-in_use :
    (source : ℕ → ℕ) (k : ℕ)
    → k < 32
    → (test_bit k (lanes_100g source lanes_per_port 0 no_lanes).rx ≡ in_use source k)
      × (test_bit k (lanes_100g source lanes_per_port 0 no_lanes).fec ≡ in_use source (k / 2))
lanes_100g-in_use source k h =
    let none = test_bit-zero k in
    let rx = lanes_100g-rx source 4 0 k no_lanes h in
    let fec = lanes_100g-fec source 4 0 k no_lanes h in
    (ground (arith, rx, none), ground (arith, fec, none))

-- The serdes whose lanes count: those of the transmitter in local loopback
abbrev pub sources : (ℕ → ℕ) → (ℕ → ℕ) → ℕ → ℕ → ℕ
sources tx rx loopback = if loopback == loopback_local then tx else rx

-- In the 100G mode a lane is an active receive lane just where it is one of the four and its source, the
-- transmitter's in local loopback and the receiver's otherwise, is 0 or 1; and each of these lanes, and
-- no other, has its two FEC lanes. What was active before does not count.
pub determine_active_lanes-100g :
    (tx rx : ℕ → ℕ) (loopback k : ℕ) (s : Lanes)
    → k < 32
    → (test_bit k (determine_active_lanes tx rx mode_cd_100g loopback s).0.rx
        ≡ in_use (sources tx rx loopback) k)
      × (test_bit k (determine_active_lanes tx rx mode_cd_100g loopback s).0.fec
          ≡ in_use (sources tx rx loopback) (k / 2))
unfolding determine_active_lanes
determine_active_lanes-100g tx rx loopback k s h = elim (Bool-cases (loopback == loopback_local)) [
  | inl local ↦ rw local (lanes_100g-in_use tx k h)
  | inr other ↦ rw other (lanes_100g-in_use rx k h)
]
