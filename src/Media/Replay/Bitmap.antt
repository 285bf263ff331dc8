-- ===== src/Media/Replay/Bitmap.antt =====
-- What the bitmap operations of shared/core/gm_media.cpp do to each bit.
use native.Mathlib.Nat.{mod-eq_of_lt, mod-lt, one-le-pow}
use native.Mathlib.Decide.{ℕ_discrete}
use ghost_media.Base.{
  ℕ, zero, suc, ◌+◌, ◌*◌, ◌/◌, ◌%◌, ◌^◌, ◌≤◌, ◌<◌, ◌≡◌, refl, ◌∙◌, arith, bit_or, List, length, set,
  length-set, get_or-set_self, get_or-set_ne, get_or-past, ltb, leb, ◌==◌, not, ◌&&◌, if◌then◌else◌,
}
use ghost_media.Bits.{test_bit, test_bit-or, test_bit-lt, test_bit-zero, bit_or-lt, two-pow-lt}
use ghost_media.Bits.Shift.{test_bit-pow_self, test_bit-pow_ne}
use ghost_media.Bits.Fields.{bit_and-pow}
use ghost_media.Media.Replay.{shl64, word, get_bit, set_bit, clear_words, clear_bitmap}

-- Bit b of the bitmap, as a number.
abbrev pub mark : List ℕ → ℕ → ℕ
mark bitmap b = test_bit (word bitmap (b / 64)) (b % 64)

-- Sixteen words of 64 bits.
pub record IsBitmap (bitmap : List ℕ) : Type 0 where
  pub sized : length bitmap ≡ 16
  pub narrow : (i : ℕ) → word bitmap i < 2 ^ 64

shl64-one : (k : ℕ) → k < 64 → shl64 1 k ≡ 2 ^ k
shl64-one k h =
    let same : 1 * 2 ^ k ≡ 2 ^ k = omega arith in rw same (mod-eq_of_lt (two-pow-lt k 64 h))

bit_or_none : (t p : ℕ) → t < 2 → 1 ≤ p → not (t * p == 0) ≡ (t == 1)
bit_or_none zero p h q = let none_set : 0 * p ≡ 0 = omega arith in rw none_set
bit_or_none (suc zero) p h q = ground arith
bit_or_none (suc (suc t)) p h q = absurd (omega arith)

pub get_bit-mark : (bitmap : List ℕ) (b : ℕ) → get_bit bitmap b ≡ (mark bitmap b == 1)
unfolding get_bit
get_bit-mark bitmap b =
    rw (shl64-one (b % 64) (mod-lt b (omega arith)), bit_and-pow (b % 64) (word bitmap (b / 64)))
      (bit_or_none (mark bitmap b) (2 ^ (b % 64)) (test_bit-lt (word bitmap (b / 64)) (b % 64))
        (one-le-pow (b % 64) 2 (omega arith)))

-- The words of a bitmap after `set_bit`.
word-set_bit :
    (bitmap : List ℕ) (b i : ℕ)
    → length bitmap ≡ 16
    → b < 1024
    → word (set_bit bitmap b) i
      ≡ (if b / 64 == i then bit_or (word bitmap i) (2 ^ (b % 64)) else word bitmap i)
unfolding set_bit
word-set_bit bitmap b i sized h =
    rw (shl64-one (b % 64) (mod-lt b (omega arith))) (elim (ℕ_discrete (b / 64) i) [
      | yes e ↦ rw (← e) (
          get_or-set_self bitmap (b / 64) (bit_or (word bitmap (b / 64)) (2 ^ (b % 64))) 0
            (omega arith)
          ∙ ground arith)
      | no ne ↦
          get_or-set_ne bitmap (b / 64) i (bit_or (word bitmap (b / 64)) (2 ^ (b % 64))) 0 ne
          ∙ ground arith
    ])

-- `set_bit` sets its bit, and no other.
pub mark-set_bit :
    (bitmap : List ℕ) (b c : ℕ)
    → length bitmap ≡ 16
    → b < 1024
    → mark (set_bit bitmap b) c ≡ (if b == c then 1 else mark bitmap c)
mark-set_bit bitmap b c sized h = rw (word-set_bit bitmap b (c / 64) sized h) (
    ground (
      arith,
      test_bit-or (word bitmap (c / 64)) (2 ^ (b % 64)) (c % 64),
      test_bit-lt (word bitmap (c / 64)) (c % 64),
      test_bit-pow_self (b % 64),
      test_bit-pow_ne (b % 64) (c % 64),
    ))

pub set_bit-IsBitmap :
    (bitmap : List ℕ) (b : ℕ) → IsBitmap bitmap → b < 1024 → IsBitmap (set_bit bitmap b)
set_bit-IsBitmap bitmap b v h = record {
  sized = unfold set_bit in length-set bitmap _ _ ∙ v.sized;
  narrow = λ i. rw (word-set_bit bitmap b i v.sized h) (
      ground (
        arith,
        v.narrow i,
        bit_or-lt 64 (word bitmap i) (2 ^ (b % 64)) (v.narrow i)
            (two-pow-lt (b % 64) 64 (mod-lt b (omega arith))),
      ));
}

length-clear_words :
    (left index : ℕ) (bitmap : List ℕ) → length (clear_words left index bitmap) ≡ length bitmap
unfolding clear_words
length-clear_words zero index bitmap = refl
length-clear_words (suc left) index bitmap =
    length-clear_words left (suc index) (set bitmap index 0) ∙ length-set bitmap index 0

-- The loop clears the words that it passes, and leaves the others.
word-clear_words :
    (left index : ℕ) (bitmap : List ℕ) (i : ℕ)
    → index + left ≤ length bitmap
    → word (clear_words left index bitmap) i
      ≡ (if leb index i && ltb i (index + left) then 0 else word bitmap i)
unfolding clear_words
word-clear_words zero index bitmap i h = ground arith
word-clear_words (suc left) index bitmap i h =
    word-clear_words left (suc index) (set bitmap index 0) i (rw length-set (omega arith))
    ∙ ground (arith, get_or-set_self bitmap index 0 0, get_or-set_ne bitmap index i 0 0)

word-clear_bitmap :
    (bitmap : List ℕ) (i : ℕ) → length bitmap ≡ 16 → word (clear_bitmap bitmap) i ≡ 0
unfolding clear_bitmap
word-clear_bitmap bitmap i sized =
    word-clear_words 16 0 bitmap i (omega arith) ∙ ground (arith, get_or-past bitmap i 0)

pub clear_bitmap-IsBitmap : (bitmap : List ℕ) → length bitmap ≡ 16 → IsBitmap (clear_bitmap bitmap)
clear_bitmap-IsBitmap bitmap sized = record {
  sized = unfold clear_bitmap in length-clear_words 16 0 bitmap ∙ sized;
  narrow = λ i. omega (arith, word-clear_bitmap bitmap i sized);
}

pub mark-clear_bitmap :
    (bitmap : List ℕ) (c : ℕ) → length bitmap ≡ 16 → mark (clear_bitmap bitmap) c ≡ 0
mark-clear_bitmap bitmap c sized =
    rw (word-clear_bitmap bitmap (c / 64) sized) (test_bit-zero (c % 64))
