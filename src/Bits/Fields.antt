-- ===== src/Bits/Fields.antt =====
-- `|` of fields that do not overlap, and `&` with one bit or a mask of ones, as arithmetic.
use native.Mathlib.Nat.{pow-suc, one-le-pow}
use ghost_media.Base.{
  ℕ, zero, suc, ◌+◌, ◌-◌, ◌*◌, ◌/◌, ◌%◌, ◌^◌, ◌≤◌, ◌<◌, bit_and, bit_or, ◌≡◌, refl, arith,
}
use ghost_media.Bits.{test_bit, bit_or-halves, bit_and-halves}
use ghost_media.Bits.Shift.{mul-two-pow_suc, mod-two-pow_suc}

bit_or-zero_below : (bound a : ℕ) → a ≤ bound → bit_or a 0 ≡ a
bit_or-zero_below bound zero h = refl
bit_or-zero_below zero (suc a) h = absurd (omega arith)
bit_or-zero_below (suc bound) (suc a) h =
    omega (arith, bit_or-halves (suc a) 0, bit_or-zero_below bound (suc a / 2) (omega arith))

pub bit_or-zero : (a : ℕ) → bit_or a 0 ≡ a
bit_or-zero a = bit_or-zero_below a a (omega arith)

bit_and-zero_below : (bound a : ℕ) → a ≤ bound → bit_and a 0 ≡ 0
bit_and-zero_below bound zero h = refl
bit_and-zero_below zero (suc a) h = absurd (omega arith)
bit_and-zero_below (suc bound) (suc a) h =
    omega (arith, bit_and-halves (suc a) 0, bit_and-zero_below bound (suc a / 2) (omega arith))

pub bit_and-zero : (a : ℕ) → bit_and a 0 ≡ 0
bit_and-zero a = bit_and-zero_below a a (omega arith)

-- A field below bit k joins a value above it by addition.
pub bit_or-add : (k q r : ℕ) → r < 2 ^ k → bit_or (q * 2 ^ k) r ≡ q * 2 ^ k + r
bit_or-add zero q r fits =
    let none_low : r ≡ 0 = omega arith in rw (none_low, bit_or-zero) (omega arith)
bit_or-add (suc k) q r fits =
    let wide = mul-two-pow_suc q k in
    let half : q * 2 ^ suc k / 2 ≡ q * 2 ^ k = omega arith in
    let low : q * 2 ^ suc k % 2 ≡ 0 = omega arith in
    let small : r / 2 < 2 ^ k = omega (arith, pow-suc 2 k) in
    rw (bit_or-halves, half, low, bit_or-add k q (r / 2) small) (omega arith)

-- `a & (1 << k)` is the bit k, in place.
pub bit_and-pow : (k a : ℕ) → bit_and a (2 ^ k) ≡ test_bit a k * 2 ^ k
bit_and-pow zero a = omega (arith, bit_and-halves a 1, bit_and-zero (a / 2))
bit_and-pow (suc k) a =
    let half : 2 ^ suc k / 2 ≡ 2 ^ k = omega (arith, pow-suc 2 k) in
    let low : 2 ^ suc k % 2 ≡ 0 = omega (arith, pow-suc 2 k) in
    rw (bit_and-halves, half, low, bit_and-pow k (a / 2))
      (omega (arith, mul-two-pow_suc (test_bit (a / 2) k) k))

-- A mask of k ones keeps the remainder by 2 ^ k.
pub bit_and-ones : (k a : ℕ) → bit_and a (2 ^ k - 1) ≡ a % 2 ^ k
bit_and-ones zero a = rw bit_and-zero (omega arith)
bit_and-ones (suc k) a =
    let double = pow-suc 2 k in
    let pos = one-le-pow k 2 (omega arith) in
    let half : (2 ^ suc k - 1) / 2 ≡ 2 ^ k - 1 = omega arith in
    let low : (2 ^ suc k - 1) % 2 ≡ 1 = omega arith in
    rw (bit_and-halves, half, low, bit_and-ones k (a / 2)) (omega (arith, mod-two-pow_suc a k))
