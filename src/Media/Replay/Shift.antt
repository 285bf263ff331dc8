-- ===== src/Media/Replay/Shift.antt =====
-- `shift_bitmap_left` of shared/core/gm_media.cpp moves every bit up, across the words.
use native.Mathlib.Nat.{mod-lt, div-le_self}
use ghost_media.Base.{
  ℕ, zero, suc, ◌+◌, ◌-◌, ◌*◌, ◌/◌, ◌%◌, ◌^◌, ◌≤◌, ◌<◌, ◌≡◌, inl, inr, refl, ◌∙◌, arith, List,
  length, set, length-set, get_or-set_self, get_or-set_ne, ltb, leb, if◌then◌else◌, Bool-cases,
}
use ghost_media.Bits.{test_bit, test_bit-or, test_bit-past, test_bit-zero, bit_or-lt}
use ghost_media.Bits.Shift.{test_bit-shl_low, test_bit-shl_high, test_bit-shr, test_bit-mod}
use ghost_media.Media.Replay.{shl64, word, shifted_word, shift_words, shift_bitmap_left}
use ghost_media.Media.Replay.Bitmap.{mark, IsBitmap, clear_bitmap-IsBitmap, mark-clear_bitmap}

-- A word that is already stored is not read again.
shifted_word-set :
    (ws bs : ℕ) (bitmap : List ℕ) (index i v : ℕ)
    → i < index
    → shifted_word ws bs (set bitmap index v) i ≡ shifted_word ws bs bitmap i
unfolding shifted_word
shifted_word-set ws bs bitmap index i v h = rw (
  get_or-set_ne bitmap index (i - ws) v 0 (omega arith),
  get_or-set_ne bitmap index (i - ws - 1) v 0 (omega arith),
)

length-shift_words :
    (ws bs left : ℕ) (bitmap : List ℕ) → length (shift_words ws bs left bitmap) ≡ length bitmap
unfolding shift_words
length-shift_words ws bs zero bitmap = refl
length-shift_words ws bs (suc left) bitmap =
    length-shift_words ws bs left (set bitmap left (shifted_word ws bs bitmap left))
    ∙ length-set bitmap left (shifted_word ws bs bitmap left)

word-shift_words :
    (ws bs left : ℕ) (bitmap : List ℕ) (i : ℕ)
    → left ≤ length bitmap
    → word (shift_words ws bs left bitmap) i
      ≡ (if ltb i left then shifted_word ws bs bitmap i else word bitmap i)
unfolding shift_words
word-shift_words ws bs zero bitmap i h = ground arith
word-shift_words ws bs (suc left) bitmap i h =
    let stored : ℕ = shifted_word ws bs bitmap left in
    word-shift_words ws bs left (set bitmap left stored) i (rw length-set (omega arith))
    ∙ ground (
      arith,
      shifted_word-set ws bs bitmap left i stored,
      get_or-set_self bitmap left stored 0,
      get_or-set_ne bitmap left i stored 0,
    )

shl64-lt : (x k : ℕ) → shl64 x k < 2 ^ 64
shl64-lt x k = mod-lt (x * 2 ^ k) (omega arith)

shifted_word-lt :
    (ws bs : ℕ) (bitmap : List ℕ) (i : ℕ) → IsBitmap bitmap → shifted_word ws bs bitmap i < 2 ^ 64
unfolding shifted_word
shifted_word-lt ws bs bitmap i v = ground (
  arith,
  shl64-lt (word bitmap (i - ws)) bs,
  v.narrow (i - ws - 1),
  div-le_self (word bitmap (i - ws - 1)) (2 ^ (64 - bs)),
  bit_or-lt 64 (shl64 (word bitmap (i - ws)) bs) (word bitmap (i - ws - 1) / 2 ^ (64 - bs)),
)

-- The bits of a stored word: those of the word below it by `ws`, and the carry from one further
-- down.
bit_of_low : (x bs k : ℕ) → k < 64 → k < bs → test_bit (shl64 x bs) k ≡ 0
bit_of_low x bs k h l = test_bit-mod (x * 2 ^ bs) 64 k h ∙ test_bit-shl_low x bs k l

bit_of_high : (x bs k : ℕ) → k < 64 → bs ≤ k → test_bit (shl64 x bs) k ≡ test_bit x (k - bs)
bit_of_high x bs k h l = test_bit-mod (x * 2 ^ bs) 64 k h ∙ test_bit-shl_high x bs k l

bit_of_carry : (x bs k : ℕ) → x < 2 ^ 64 → bs ≤ k → bs ≤ 64 → test_bit (x / 2 ^ (64 - bs)) k ≡ 0
bit_of_carry x bs k narrow h l =
    test_bit-shr x (64 - bs) k ∙ test_bit-past x 64 (64 - bs + k) narrow (omega arith)

test_bit-shifted_word :
    (ws bs : ℕ) (bitmap : List ℕ) (i k : ℕ)
    → IsBitmap bitmap
    → k < 64
    → bs < 64
    → test_bit (shifted_word ws bs bitmap i) k ≡ (
        if ltb i ws
        then 0
        else if leb bs k
        then test_bit (word bitmap (i - ws)) (k - bs)
        else if ltb ws i
        then test_bit (word bitmap (i - ws - 1)) (64 - bs + k)
        else 0)
unfolding shifted_word
test_bit-shifted_word ws bs bitmap i k v hk hb = ground (
  arith,
  test_bit-zero k,
  bit_of_low (word bitmap (i - ws)) bs k hk,
  bit_of_high (word bitmap (i - ws)) bs k hk,
  bit_of_carry (word bitmap (i - ws - 1)) bs k (v.narrow (i - ws - 1)),
  test_bit-shr (word bitmap (i - ws - 1)) (64 - bs) k,
  test_bit-or (shl64 (word bitmap (i - ws)) bs) (word bitmap (i - ws - 1) / 2 ^ (64 - bs)) k,
)

pub shift_bitmap_left-IsBitmap :
    (bitmap : List ℕ) (shift : ℕ) → IsBitmap bitmap → IsBitmap (shift_bitmap_left bitmap shift)
unfolding shift_bitmap_left
shift_bitmap_left-IsBitmap bitmap shift v = elim (Bool-cases (leb 1024 shift)) [
  | inl far ↦ rw far (clear_bitmap-IsBitmap bitmap v.sized)
  | inr near ↦ rw near (record {
    sized = length-shift_words (shift / 64) (shift % 64) 16 bitmap ∙ v.sized;
    narrow = λ i.
        rw (word-shift_words (shift / 64) (shift % 64) 16 bitmap i (omega (arith, v.sized)))
          (ground (arith, v.narrow i, shifted_word-lt (shift / 64) (shift % 64) bitmap i v));
  })
]

same_place :
    (bitmap : List ℕ) (i k b : ℕ)
    → i ≡ b / 64
    → k ≡ b % 64
    → test_bit (word bitmap i) k ≡ mark bitmap b
same_place bitmap i k b p q = rw (p, q)

-- Bit c of the shifted bitmap is bit `c - shift` of the old one, or 0 where there is none.
pub mark-shift_bitmap_left :
    (bitmap : List ℕ) (shift c : ℕ)
    → IsBitmap bitmap
    → c < 1024
    → mark (shift_bitmap_left bitmap shift) c ≡ (if ltb c shift then 0 else mark bitmap (c - shift))
unfolding shift_bitmap_left
mark-shift_bitmap_left bitmap shift c v h = elim (Bool-cases (leb 1024 shift)) [
  | inl far ↦ rw far (mark-clear_bitmap bitmap c v.sized ∙ ground arith)
  | inr near ↦
      rw
        (
          near,
          word-shift_words (shift / 64) (shift % 64) 16 bitmap (c / 64) (omega (arith, v.sized)),
        )
        (ground (
          arith,
          test_bit-shifted_word (shift / 64) (shift % 64) bitmap (c / 64) (c % 64) v,
          same_place bitmap (c / 64 - shift / 64) (c % 64 - shift % 64) (c - shift),
          same_place bitmap (c / 64 - shift / 64 - 1) (64 - shift % 64 + c % 64) (c - shift),
        ))
]
