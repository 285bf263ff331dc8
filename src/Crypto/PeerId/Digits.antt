-- ===== src/Crypto/PeerId/Digits.antt =====
-- Numbers as their digits, and the bits that a shift takes from a number.
use ghost_media.Base.{
  ℕ, zero, suc, ◌+◌, ◌*◌, ◌/◌, ◌%◌, ◌^◌, ◌<◌, ◌≡◌, refl, ap, ◌∙◌, bit_or, Bool, true, ◌&&◌, List,
  [], ◌∷◌, ◌++◌, map, ltb, arith,
}
use ghost_media.Bits.Fields.{bit_or-add}
use ghost_media.Wire.{shl32}

-- The number that digits write after the number `start`.
unfoldable pub value_from : (base start : ℕ) → List ℕ → ℕ
value_from base start [] = start
value_from base start (d ∷ ds) = value_from base (start * base + d) ds

unfoldable pub all_below : ℕ → List ℕ → Bool
all_below bound [] = true
all_below bound (d ∷ ds) = ltb d bound && all_below bound ds

pub value_from-snoc :
    (base start : ℕ) (ds : List ℕ) (d : ℕ)
    → value_from base start (ds ++ d ∷ []) ≡ value_from base start ds * base + d
unfolding value_from
value_from-snoc base start [] d = refl
value_from-snoc base start (x ∷ ds) d = value_from-snoc base (start * base + x) ds d

pub all_below-snoc :
    (bound : ℕ) (ds : List ℕ) (d : ℕ)
    → all_below bound ds ≡ true
    → d < bound
    → all_below bound (ds ++ d ∷ []) ≡ true
unfolding all_below
all_below-snoc bound [] d e h = ground (arith, h)
all_below-snoc bound (x ∷ ds) d e h =
    ground (arith, e, all_below-snoc bound ds d (ground (arith, e)) h)

pub map-snoc : (f : ℕ → ℕ) (ds : List ℕ) (d : ℕ) → map f (ds ++ d ∷ []) ≡ map f ds ++ f d ∷ []
map-snoc f [] d = refl
map-snoc f (x ∷ ds) d = ap (λ t. f x ∷ t) (map-snoc f ds d)

-- A claim on the shift counts that occur.
below_8 : (P : ℕ → Type 0) → P 0 → P 1 → P 2 → P 3 → P 4 → P 5 → P 6 → P 7 → (j : ℕ) → j < 8 → P j
below_8 P a b c d e f g h zero l = a
below_8 P a b c d e f g h (suc zero) l = b
below_8 P a b c d e f g h (suc (suc zero)) l = c
below_8 P a b c d e f g h (suc (suc (suc zero))) l = d
below_8 P a b c d e f g h (suc (suc (suc (suc zero)))) l = e
below_8 P a b c d e f g h (suc (suc (suc (suc (suc zero))))) l = f
below_8 P a b c d e f g h (suc (suc (suc (suc (suc (suc zero)))))) l = g
below_8 P a b c d e f g h (suc (suc (suc (suc (suc (suc (suc zero))))))) l = h
below_8 P a b c d e f g h (suc (suc (suc (suc (suc (suc (suc (suc j)))))))) l = absurd (omega arith)

-- The bits of a number that the buffer still has, and the number above them.
pub five_bits : (n j : ℕ) → j < 8 → n % 2 ^ 32 / 2 ^ j % 32 ≡ n / 2 ^ j % 32
five_bits n =
    below_8 (λ (j : ℕ). n % 2 ^ 32 / 2 ^ j % 32 ≡ n / 2 ^ j % 32) (omega arith) (omega arith)
      (omega arith) (omega arith) (omega arith) (omega arith) (omega arith) (omega arith)

pub above_five : (n j : ℕ) → j < 8 → n / 2 ^ (j + 5) * 32 + n / 2 ^ j % 32 ≡ n / 2 ^ j
above_five n =
    below_8 (λ (j : ℕ). n / 2 ^ (j + 5) * 32 + n / 2 ^ j % 32 ≡ n / 2 ^ j) (omega arith)
      (omega arith) (omega arith) (omega arith) (omega arith) (omega arith) (omega arith)
      (omega arith)

pub taken_above :
    (n byte : ℕ) → byte < 256 → (j : ℕ) → j < 8 → n / 2 ^ j ≡ (n * 256 + byte) / 2 ^ (j + 8)
taken_above n byte h =
    below_8 (λ (j : ℕ). n / 2 ^ j ≡ (n * 256 + byte) / 2 ^ (j + 8)) (omega arith) (omega arith)
      (omega arith) (omega arith) (omega arith) (omega arith) (omega arith) (omega arith)

pub taken_below :
    (n byte b : ℕ)
    → byte < 256
    → b ≡ n % 2 ^ 32
    → bit_or (shl32 b 8) byte ≡ (n * 256 + byte) % 2 ^ 32
taken_below n byte b h e =
    let high : shl32 b 8 ≡ n % 2 ^ 24 * 2 ^ 8 = omega arith in
    rw high (bit_or-add 8 (n % 2 ^ 24) byte h ∙ omega arith)

pub last_digit : (n : ℕ) → n / 2 ^ 1 * 32 + n % 2 ^ 32 * 2 ^ 4 % 2 ^ 32 % 32 ≡ 16 * n
last_digit n = omega arith
