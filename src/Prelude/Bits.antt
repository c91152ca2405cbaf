-- ===== src/Prelude/Bits.antt =====
-- Flag words: `x & (1 << k)`, `x | (1 << k)` and `x & ~(1 << k)` by recursion on k, and their laws.
use Prim.Native.Nat.{ℕ, zero, suc, ◌+◌, ◌-◌, ◌*◌, ◌/◌, ◌%◌, ◌<◌, max}
use mathlib.Core.Path.{◌≡◌, refl, ap, ◌∙◌}
use mathlib.Core.Logic.{◌≢◌, inl, inr}
use mathlib.Core.Bool.{Bool, true, false, not, ◌&&◌, ◌||◌}
use native.Mathlib.Omega.{arith}
use ss_sbl.Prelude.Tests.{◌==◌, Bool-cases}

-- Is bit k of x set?
unfoldable pub test_bit : ℕ → ℕ → Bool
test_bit zero x = x % 2 == 1
test_bit (suc k) x = test_bit k (x / 2)

-- x with bit k set.
unfoldable pub set_bit : ℕ → ℕ → ℕ
set_bit zero x = x / 2 * 2 + 1
set_bit (suc k) x = set_bit k (x / 2) * 2 + x % 2

-- x with bit k cleared.
unfoldable pub clear_bit : ℕ → ℕ → ℕ
clear_bit zero x = x / 2 * 2
clear_bit (suc k) x = clear_bit k (x / 2) * 2 + x % 2

pub test_bit-set_bit : (k x : ℕ) → test_bit k (set_bit k x) ≡ true
unfolding test_bit set_bit
test_bit-set_bit zero x = ground arith
test_bit-set_bit (suc k) x = ap (test_bit k) (omega arith) ∙ test_bit-set_bit k (x / 2)

pub test_bit-clear_bit : (k x : ℕ) → test_bit k (clear_bit k x) ≡ false
unfolding test_bit clear_bit
test_bit-clear_bit zero x = ground arith
test_bit-clear_bit (suc k) x = ap (test_bit k) (omega arith) ∙ test_bit-clear_bit k (x / 2)

pub test_bit-set_bit_ne : (j k x : ℕ) → j ≢ k → test_bit j (set_bit k x) ≡ test_bit j x
unfolding test_bit set_bit
test_bit-set_bit_ne zero zero x h = absurd (h refl)
test_bit-set_bit_ne zero (suc k) x h = ground arith
test_bit-set_bit_ne (suc j) zero x h = ap (test_bit j) (omega arith)
test_bit-set_bit_ne (suc j) (suc k) x h =
    ap (test_bit j) (omega arith) ∙ test_bit-set_bit_ne j k (x / 2) (λ e. h (ap suc e))

pub test_bit-clear_bit_ne : (j k x : ℕ) → j ≢ k → test_bit j (clear_bit k x) ≡ test_bit j x
unfolding test_bit clear_bit
test_bit-clear_bit_ne zero zero x h = absurd (h refl)
test_bit-clear_bit_ne zero (suc k) x h = ground arith
test_bit-clear_bit_ne (suc j) zero x h = ap (test_bit j) (omega arith)
test_bit-clear_bit_ne (suc j) (suc k) x h =
    ap (test_bit j) (omega arith) ∙ test_bit-clear_bit_ne j k (x / 2) (λ e. h (ap suc e))

-- The first `w` bits of `x & y` and of `x & ~y`, and of `x | y`.
unfoldable pub word_and : ℕ → ℕ → ℕ → ℕ
word_and zero x y = 0
word_and (suc w) x y = (x % 2 + y % 2) / 2 + 2 * word_and w (x / 2) (y / 2)

unfoldable pub word_and_not : ℕ → ℕ → ℕ → ℕ
word_and_not zero x y = 0
word_and_not (suc w) x y = (x % 2 - y % 2) + 2 * word_and_not w (x / 2) (y / 2)

unfoldable pub word_or : ℕ → ℕ → ℕ → ℕ
word_or zero x y = 0
word_or (suc w) x y = max (x % 2) (y % 2) + 2 * word_or w (x / 2) (y / 2)

pub test_bit-word_and :
    (w k x y : ℕ) → k < w → test_bit k (word_and w x y) ≡ (test_bit k x && test_bit k y)
unfolding test_bit word_and
test_bit-word_and zero k x y h = absurd (omega arith)
test_bit-word_and (suc w) zero x y h = ground arith
test_bit-word_and (suc w) (suc k) x y h =
    ap (test_bit k) (ground arith) ∙ test_bit-word_and w k (x / 2) (y / 2) (omega arith)

pub test_bit-word_and_not :
    (w k x y : ℕ) → k < w → test_bit k (word_and_not w x y) ≡ (test_bit k x && not (test_bit k y))
unfolding test_bit word_and_not
test_bit-word_and_not zero k x y h = absurd (omega arith)
test_bit-word_and_not (suc w) zero x y h = ground arith
test_bit-word_and_not (suc w) (suc k) x y h =
    ap (test_bit k) (ground arith) ∙ test_bit-word_and_not w k (x / 2) (y / 2) (omega arith)

pub test_bit-word_or :
    (w k x y : ℕ) → k < w → test_bit k (word_or w x y) ≡ (test_bit k x || test_bit k y)
unfolding test_bit word_or
test_bit-word_or zero k x y h = absurd (omega arith)
test_bit-word_or (suc w) zero x y h = ground arith
test_bit-word_or (suc w) (suc k) x y h =
    ap (test_bit k) (ground arith) ∙ test_bit-word_or w k (x / 2) (y / 2) (omega arith)

pub test_bit-zero : (k : ℕ) → test_bit k 0 ≡ false
unfolding test_bit
test_bit-zero zero = ground arith
test_bit-zero (suc k) = ap (test_bit k) (omega arith) ∙ test_bit-zero k

-- A word whose first `w` bits are all clear is zero in them: `x & y` and `x & ~y` with no bit left.
pub word_and_not-zero :
    (w x y : ℕ)
    → ((k : ℕ) → k < w → test_bit k x ≡ true → test_bit k y ≡ true)
    → word_and_not w x y ≡ 0
unfolding test_bit word_and_not
word_and_not-zero zero x y h = refl
word_and_not-zero (suc w) x y h =
    let ih = word_and_not-zero w (x / 2) (y / 2) (λ k l e. h (suc k) (omega arith) e) in
    let first = h zero (omega arith) in ground arith

pub word_and-nonzero :
    (w x y k : ℕ) → k < w → test_bit k x ≡ true → test_bit k y ≡ true → word_and w x y ≢ 0
word_and-nonzero w x y k h ex ey z =
    let e = test_bit-word_and w k x y h in
    let f = ap (test_bit k) z ∙ test_bit-zero k in ground arith

-- A word `x & y` that is not zero has a bit that is set in both.
pub word_and-common :
    (w x y : ℕ)
    → word_and w x y ≢ 0
    → (k : ℕ) × (k < w) × (test_bit k x ≡ true) × (test_bit k y ≡ true)
unfolding test_bit word_and
word_and-common zero x y n = absurd (n refl)
word_and-common (suc w) x y n = elim (Bool-cases ((x % 2 == 1) && (y % 2 == 1))) [
  | inl both ↦ (zero, omega arith, ground arith, ground arith)
  | inr other ↦
      let (k, h, a, b) = word_and-common w (x / 2) (y / 2) (λ z. n (ground arith)) in
      (suc k, omega arith, a, b)
]
