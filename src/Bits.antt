-- ===== src/Bits.antt =====
-- The bits of a number, and what the machine operations of the sources do to them.
-- `test_bit` reads one bit; `bit_or`, shifts and cuts to a width are described through it.
pub mod Shift
pub mod Fields
use Prim.Native.Nat.{digits, bitwise, bit_and-bitwise, bit_or-bitwise}
use native.Mathlib.Nat.{le_refl, pow-suc, one-le-pow, pow-le-pow_right}
use ghost_media.Base.{
  ℕ, zero, suc, ◌+◌, ◌*◌, ◌/◌, ◌%◌, ◌^◌, ◌≤◌, ◌<◌, min, max, bit_and, bit_or, ◌≡◌, refl, arith,
}

-- Bit k of n, by halving.
abbrev pub test_bit : ℕ → ℕ → ℕ
test_bit n zero = n % 2
test_bit n (suc k) = test_bit (n / 2) k

module _ (base : ℕ → ℕ) (digit : ℕ → ℕ → ℕ) where
  -- Any two amounts of fuel that cover the first number give the same digits.
  enough_digits : (f g a b : ℕ) → a ≤ f → a ≤ g → digits base digit f a b ≡ digits base digit g a b
  enough_digits zero zero zero b p q = refl
  enough_digits zero zero (suc a) b p q = refl
  enough_digits zero (suc g) zero b p q = refl
  enough_digits zero (suc g) (suc a) b p q = absurd (omega arith)
  enough_digits (suc f) zero zero b p q = refl
  enough_digits (suc f) zero (suc a) b p q = absurd (omega arith)
  enough_digits (suc f) (suc g) zero b p q = refl
  enough_digits (suc f) (suc g) (suc a) b p q =
      rw (enough_digits f g (suc a / 2) (b / 2) (omega arith) (omega arith))

  lowest_digit :
      (a b : ℕ)
      → bitwise base digit (suc a) b
        ≡ bitwise base digit (suc a / 2) (b / 2) * 2 + digit (suc a % 2) (b % 2)
  lowest_digit a b =
      omega (arith, enough_digits a (suc a / 2) (suc a / 2) (b / 2) (omega arith) (le_refl _))

-- The lowest digit of a disjunction, and the rest.
pub bit_or-halves : (a b : ℕ) → bit_or a b ≡ bit_or (a / 2) (b / 2) * 2 + max (a % 2) (b % 2)
bit_or-halves zero b = simp bit_or-bitwise (omega arith)
bit_or-halves (suc a) b = simp bit_or-bitwise (lowest_digit (λ y. y) max a b)

pub bit_and-halves : (a b : ℕ) → bit_and a b ≡ bit_and (a / 2) (b / 2) * 2 + min (a % 2) (b % 2)
bit_and-halves zero b = simp bit_and-bitwise (omega arith)
bit_and-halves (suc a) b = simp bit_and-bitwise (lowest_digit (λ y. 0) min a b)

pub test_bit-or : (a b k : ℕ) → test_bit (bit_or a b) k ≡ max (test_bit a k) (test_bit b k)
test_bit-or a b zero = omega (arith, bit_or-halves a b)
test_bit-or a b (suc k) =
    let half : bit_or a b / 2 ≡ bit_or (a / 2) (b / 2) = omega (arith, bit_or-halves a b) in
    rw half (test_bit-or (a / 2) (b / 2) k)

pub test_bit-and : (a b k : ℕ) → test_bit (bit_and a b) k ≡ min (test_bit a k) (test_bit b k)
test_bit-and a b zero = omega (arith, bit_and-halves a b)
test_bit-and a b (suc k) =
    let half : bit_and a b / 2 ≡ bit_and (a / 2) (b / 2) = omega (arith, bit_and-halves a b) in
    rw half (test_bit-and (a / 2) (b / 2) k)

pub test_bit-lt : (n k : ℕ) → test_bit n k < 2
test_bit-lt n zero = omega arith
test_bit-lt n (suc k) = test_bit-lt (n / 2) k

pub test_bit-zero : (k : ℕ) → test_bit 0 k ≡ 0
test_bit-zero zero = refl
test_bit-zero (suc k) = test_bit-zero k

-- A bit past the width of a number is 0.
pub test_bit-past : (n width k : ℕ) → n < 2 ^ width → width ≤ k → test_bit n k ≡ 0
test_bit-past n zero k fits past =
    let none_set : n ≡ 0 = omega arith in rw none_set (test_bit-zero k)
test_bit-past n (suc width) zero fits past = absurd (omega arith)
test_bit-past n (suc width) (suc k) fits past =
    test_bit-past (n / 2) width k (omega (arith, pow-suc 2 width)) (omega arith)

-- A disjunction is no wider than its operands.
pub bit_or-lt : (width a b : ℕ) → a < 2 ^ width → b < 2 ^ width → bit_or a b < 2 ^ width
bit_or-lt zero a b p q =
    let first : a ≡ 0 = omega arith in
    let second : b ≡ 0 = omega arith in rw (first, second) (omega arith)
bit_or-lt (suc width) a b p q =
    let double = pow-suc 2 width in
    let halves : bit_or (a / 2) (b / 2) < 2 ^ width =
      bit_or-lt width (a / 2) (b / 2) (omega arith) (omega arith) in
    omega (arith, bit_or-halves a b)

pub two-pow-lt : (k width : ℕ) → k < width → 2 ^ k < 2 ^ width
two-pow-lt k width h =
    omega (arith, pow-suc 2 k, one-le-pow k 2, pow-le-pow_right {n = 2} (omega arith) h)
