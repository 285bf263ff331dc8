-- ===== src/Crypto/Sha256/Rotate.antt =====
-- What `rotate_right` does to the bits of a word.
use native.Mathlib.Nat.{pow-suc}
use ghost_media.Base.{
  ℕ, zero, suc, ◌+◌, ◌-◌, ◌*◌, ◌/◌, ◌%◌, ◌^◌, ◌<◌, ◌≤◌, ◌≡◌, ap, ◌∙◌, max, arith, ltb, Bool-cases,
  inl, inr,
}
use ghost_media.Bits.{test_bit, test_bit-or, test_bit-zero}
use ghost_media.Bits.Shift.{test_bit-shl_low, test_bit-shl_high, test_bit-shr, test_bit-mod}
use ghost_media.Wire.{shl32}
use ghost_media.Crypto.Sha256.{rotate_right}

no_high_bit : (m k v : ℕ) → v < 2 ^ m → m ≤ k → test_bit v k ≡ 0
no_high_bit zero k v h l = let none : v ≡ 0 = omega arith in rw none (test_bit-zero k)
no_high_bit (suc m) zero v h l = absurd (omega arith)
no_high_bit (suc m) (suc k) v h l =
    no_high_bit m k (v / 2) (omega (arith, pow-suc 2 m)) (omega arith)

-- Bit k of a word turned right by 1 to 31 is the bit that stood that much higher, round the end.
pub rotate_right_lem :
    (value shift k : ℕ)
    → value < 2 ^ 32
    → 0 < shift
    → shift < 32
    → k < 32
    → test_bit (rotate_right value shift) k ≡ test_bit value ((k + shift) % 32)
unfolding rotate_right
rotate_right_lem v s k h pos below small =
    test_bit-or (v / 2 ^ s) (shl32 v (32 - s)) k
    ∙ ap (λ t. max t (test_bit (shl32 v (32 - s)) k)) (test_bit-shr v s k)
    ∙ ap (λ t. max (test_bit v (s + k)) t) (test_bit-mod (v * 2 ^ (32 - s)) 32 k small)
    ∙ elim (Bool-cases (ltb (k + s) 32)) [
      | inl inside ↦
          let place : (k + s) % 32 ≡ s + k = ground (arith, inside) in
          rw (place, test_bit-shl_low v (32 - s) k (ground (arith, inside))) (omega arith)
      | inr around ↦
          let place : (k + s) % 32 ≡ k - (32 - s) = ground (arith, around) in
          rw
            (
              place,
              test_bit-shl_high v (32 - s) k (ground (arith, around)),
              no_high_bit 32 (s + k) v h (ground (arith, around)),
            )
            (omega arith)
    ]
