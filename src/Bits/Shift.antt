-- ===== src/Bits/Shift.antt =====
-- Bits of a number that is shifted, or cut to a width.
use native.Mathlib.Nat.{pow-suc, one-le-pow, div-div-eq-div-mul}
use native.Mathlib.Nat.{div-add-mod, mod-lt, mul-add-mod_self_left, mod-eq_of_lt}
use ghost_media.Base.{
  ℕ, zero, suc, ◌+◌, ◌-◌, ◌*◌, ◌/◌, ◌%◌, ◌^◌, ◌≤◌, ◌<◌, ◌≡◌, ◌≢◌, refl, ap, ◌∙◌, sym, arith,
}
use ghost_media.Bits.{test_bit, test_bit-zero}

pub mul-two-pow_suc : (x s : ℕ) → x * 2 ^ suc s ≡ x * 2 ^ s * 2
mul-two-pow_suc x s = omega (arith, ap (λ (t : ℕ). x * t) (pow-suc 2 s))

half_shl : (x s : ℕ) → x * 2 ^ suc s / 2 ≡ x * 2 ^ s
half_shl x s = omega (arith, mul-two-pow_suc x s)

pub test_bit-shl_low : (x s k : ℕ) → k < s → test_bit (x * 2 ^ s) k ≡ 0
test_bit-shl_low x zero k h = elim h [ ]
test_bit-shl_low x (suc s) zero h = omega (arith, mul-two-pow_suc x s)
test_bit-shl_low x (suc s) (suc k) h = rw (half_shl x s) (test_bit-shl_low x s k (omega arith))

pub test_bit-shl_high : (x s k : ℕ) → s ≤ k → test_bit (x * 2 ^ s) k ≡ test_bit x (k - s)
test_bit-shl_high x zero k h =
    let same : x * 2 ^ 0 ≡ x = omega arith in
    let start : k - 0 ≡ k = omega arith in rw (same, start)
test_bit-shl_high x (suc s) zero h = absurd (omega arith)
test_bit-shl_high x (suc s) (suc k) h =
    let step : suc k - suc s ≡ k - s = omega arith in
    rw (half_shl x s, step) (test_bit-shl_high x s k (omega arith))

pub test_bit-shr : (x s k : ℕ) → test_bit (x / 2 ^ s) k ≡ test_bit x (s + k)
test_bit-shr x zero k =
    let same : x / 2 ^ 0 ≡ x = omega arith in
    let start : 0 + k ≡ k = omega arith in rw (same, start)
test_bit-shr x (suc s) k =
    let halves : x / 2 ^ suc s ≡ x / 2 / 2 ^ s =
      ap (λ (t : ℕ). x / t) (omega (arith, pow-suc 2 s)) ∙ sym (div-div-eq-div-mul x 2 (2 ^ s)) in
    let next : suc s + k ≡ suc (s + k) = omega arith in rw (halves, next) (test_bit-shr (x / 2) s k)

-- Cutting at twice the modulus keeps one more low bit.
pub mod-double : (x m : ℕ) → 0 < m → x % (2 * m) ≡ 2 * (x / 2 % m) + x % 2
mod-double x m h =
    let q : ℕ = x / 2 / m in
    let r : ℕ = x / 2 % m in
    let split : m * q + r ≡ x / 2 = div-add-mod (x / 2) m in
    let low : r < m = mod-lt (x / 2) h in
    let whole : x ≡ 2 * m * q + (2 * r + x % 2) = omega arith in
    ap (λ (t : ℕ). t % (2 * m)) whole
    ∙ mul-add-mod_self_left (2 * m) q (2 * r + x % 2)
    ∙ mod-eq_of_lt (omega arith)

pub mod-two-pow_suc : (x n : ℕ) → x % 2 ^ suc n ≡ 2 * (x / 2 % 2 ^ n) + x % 2
mod-two-pow_suc x n =
    let double : 2 ^ suc n ≡ 2 * 2 ^ n = omega (arith, pow-suc 2 n) in
    ap (λ (t : ℕ). x % t) double ∙ mod-double x (2 ^ n) (omega (arith, one-le-pow n 2))

pub test_bit-mod : (x n k : ℕ) → k < n → test_bit (x % 2 ^ n) k ≡ test_bit x k
test_bit-mod x zero k h = elim h [ ]
test_bit-mod x (suc n) zero h = omega (arith, mod-two-pow_suc x n)
test_bit-mod x (suc n) (suc k) h =
    let half : x % 2 ^ suc n / 2 ≡ x / 2 % 2 ^ n = omega (arith, mod-two-pow_suc x n) in
    rw half (test_bit-mod (x / 2) n k (omega arith))

pub test_bit-pow_self : (s : ℕ) → test_bit (2 ^ s) s ≡ 1
test_bit-pow_self zero = refl
test_bit-pow_self (suc s) =
    let half : 2 ^ suc s / 2 ≡ 2 ^ s = omega (arith, pow-suc 2 s) in rw half (test_bit-pow_self s)

pub test_bit-pow_ne : (s k : ℕ) → s ≢ k → test_bit (2 ^ s) k ≡ 0
test_bit-pow_ne zero zero ne = absurd (ne refl)
test_bit-pow_ne zero (suc k) ne = test_bit-zero k
test_bit-pow_ne (suc s) zero ne = omega (arith, pow-suc 2 s)
test_bit-pow_ne (suc s) (suc k) ne =
    let half : 2 ^ suc s / 2 ≡ 2 ^ s = omega (arith, pow-suc 2 s) in
    rw half (test_bit-pow_ne s k (λ e. ne (ap suc e)))
