-- ===== src/Crypto/Sha256.antt =====
-- SHA-256 of a short message, as shared/core/gm_crypto.cpp computes it.
pub mod Rotate
use ghost_media.Base.{
  ℕ, zero, suc, ◌+◌, ◌-◌, ◌*◌, ◌/◌, ◌%◌, ◌^◌, bit_and, bit_or, bit_xor, List, [], ◌∷◌, ◌++◌,
  replicate, length, get_or, set,
}
use ghost_media.Wire.{copy_at, read_u32_be, write_u32_be, shl32, byte_of}

abbrev pub add32 : ℕ → ℕ → ℕ
add32 x y = (x + y) % 2 ^ 32

unfoldable pub rotate_right : ℕ → ℕ → ℕ
rotate_right value shift = bit_or (value / 2 ^ shift) (shl32 value (32 - shift))

unfoldable pub initial_state : List ℕ
initial_state =
    0x6a09e667 ∷ 0xbb67ae85 ∷ 0x3c6ef372 ∷ 0xa54ff53a ∷ 0x510e527f ∷ 0x9b05688c ∷ 0x1f83d9ab
    ∷ 0x5be0cd19 ∷ []

unfoldable pub round_constants : List ℕ
round_constants =
    0x428a2f98 ∷ 0x71374491 ∷ 0xb5c0fbcf ∷ 0xe9b5dba5 ∷ 0x3956c25b ∷ 0x59f111f1 ∷ 0x923f82a4
    ∷ 0xab1c5ed5 ∷ 0xd807aa98 ∷ 0x12835b01 ∷ 0x243185be ∷ 0x550c7dc3 ∷ 0x72be5d74 ∷ 0x80deb1fe
    ∷ 0x9bdc06a7 ∷ 0xc19bf174 ∷ 0xe49b69c1 ∷ 0xefbe4786 ∷ 0x0fc19dc6 ∷ 0x240ca1cc ∷ 0x2de92c6f
    ∷ 0x4a7484aa ∷ 0x5cb0a9dc ∷ 0x76f988da ∷ 0x983e5152 ∷ 0xa831c66d ∷ 0xb00327c8 ∷ 0xbf597fc7
    ∷ 0xc6e00bf3 ∷ 0xd5a79147 ∷ 0x06ca6351 ∷ 0x14292967 ∷ 0x27b70a85 ∷ 0x2e1b2138 ∷ 0x4d2c6dfc
    ∷ 0x53380d13 ∷ 0x650a7354 ∷ 0x766a0abb ∷ 0x81c2c92e ∷ 0x92722c85 ∷ 0xa2bfe8a1 ∷ 0xa81a664b
    ∷ 0xc24b8b70 ∷ 0xc76c51a3 ∷ 0xd192e819 ∷ 0xd6990624 ∷ 0xf40e3585 ∷ 0x106aa070 ∷ 0x19a4c116
    ∷ 0x1e376c08 ∷ 0x2748774c ∷ 0x34b0bcb5 ∷ 0x391c0cb3 ∷ 0x4ed8aa4a ∷ 0x5b9cca4f ∷ 0x682e6ff3
    ∷ 0x748f82ee ∷ 0x78a5636f ∷ 0x84c87814 ∷ 0x8cc70208 ∷ 0x90befffa ∷ 0xa4506ceb ∷ 0xbef9a3f7
    ∷ 0xc67178f2 ∷ []

abbrev pub word : List ℕ → ℕ → ℕ
word words index = get_or words index 0

-- The first 16 words of the schedule, those of the block at `offset`.
unfoldable pub block_words : (left index : ℕ) → List ℕ → ℕ → List ℕ
block_words zero index message offset = []
block_words (suc left) index message offset =
    read_u32_be message (offset + index * 4) ∷ block_words left (index + 1) message offset

unfoldable pub small_sigma0 : ℕ → ℕ
unfolding rotate_right
small_sigma0 x = bit_xor (bit_xor (rotate_right x 7) (rotate_right x 18)) (x / 2 ^ 3)

unfoldable pub small_sigma1 : ℕ → ℕ
unfolding rotate_right
small_sigma1 x = bit_xor (bit_xor (rotate_right x 17) (rotate_right x 19)) (x / 2 ^ 10)

-- The loop that extends the schedule from `index` on; the words after `index` are still unused.
unfoldable pub extend_schedule : (left index : ℕ) → List ℕ → List ℕ
unfolding small_sigma0 small_sigma1
extend_schedule zero index schedule = schedule
extend_schedule (suc left) index schedule = extend_schedule left (index + 1) (
    schedule
    ++ add32
        (add32 (add32 (word schedule (index - 16)) (small_sigma0 (word schedule (index - 15))))
          (word schedule (index - 7)))
        (small_sigma1 (word schedule (index - 2)))
      ∷ [])

-- `~x` on uint32_t.
abbrev pub not32 : ℕ → ℕ
not32 x = 2 ^ 32 - 1 - x

unfoldable pub choice : ℕ → ℕ → ℕ → ℕ
choice x y z = bit_xor (bit_and x y) (bit_and (not32 x) z)

unfoldable pub majority : ℕ → ℕ → ℕ → ℕ
majority x y z = bit_xor (bit_xor (bit_and x y) (bit_and x z)) (bit_and y z)

unfoldable pub sum0 : ℕ → ℕ
unfolding rotate_right
sum0 x = bit_xor (bit_xor (rotate_right x 2) (rotate_right x 13)) (rotate_right x 22)

unfoldable pub sum1 : ℕ → ℕ
unfolding rotate_right
sum1 x = bit_xor (bit_xor (rotate_right x 6) (rotate_right x 11)) (rotate_right x 25)

unfoldable pub shift_working : List ℕ → (temp1 temp2 : ℕ) → List ℕ
shift_working w temp1 temp2 =
    add32 temp1 temp2
    ∷ word w 0
    ∷ word w 1
    ∷ word w 2
    ∷ add32 (word w 3) temp1
    ∷ word w 4
    ∷ word w 5
    ∷ word w 6
    ∷ []

unfoldable pub one_round : List ℕ → (constant scheduled : ℕ) → List ℕ
unfolding choice majority sum0 sum1 shift_working
one_round w constant scheduled =
    let temp1 =
      add32
        (add32
          (add32 (add32 (word w 7) (sum1 (word w 4))) (choice (word w 4) (word w 5) (word w 6)))
          constant)
        scheduled in
    let temp2 = add32 (sum0 (word w 0)) (majority (word w 0) (word w 1) (word w 2)) in
    shift_working w temp1 temp2

unfoldable pub run_rounds : (left index : ℕ) → List ℕ → List ℕ → List ℕ
unfolding one_round round_constants
run_rounds zero index schedule working = working
run_rounds (suc left) index schedule working =
    run_rounds left (index + 1) schedule
      (one_round working (word round_constants index) (word schedule index))

-- The last loop of a block, over the eight words of the state.
unfoldable pub add_words : List ℕ → List ℕ → List ℕ
add_words [] working = []
add_words (s ∷ state) [] = s ∷ state
add_words (s ∷ state) (w ∷ working) = add32 s w ∷ add_words state working

unfoldable pub sha256_transform : List ℕ → (offset : ℕ) → List ℕ → List ℕ
unfolding block_words extend_schedule run_rounds add_words
sha256_transform message offset state =
    add_words state
      (run_rounds 64 0 (extend_schedule 48 16 (block_words 16 0 message offset)) state)

abbrev pub padded_size : ℕ → ℕ
padded_size n = (n + 1 + 8 + 63) / 64 * 64

-- The loop that writes the length in bits at the end, from `index` on.
unfoldable pub write_length : (left index : ℕ) → List ℕ → (end bit_size : ℕ) → List ℕ
write_length zero index padded end bit_size = padded
write_length (suc left) index padded end bit_size =
    write_length left (index + 1) (set padded (end - 1 - index) (byte_of bit_size (index * 8))) end
      bit_size

-- The message in the array of 128 bytes, which has room for an input of up to 119.
unfoldable pub pad_message : List ℕ → List ℕ
unfolding write_length
pad_message input =
    let copied = copy_at (replicate 128 0) 0 input in
    let marked = set copied (length input) 0x80 in
    write_length 8 0 marked (padded_size (length input)) (length input * 8 % 2 ^ 64)

unfoldable pub run_blocks : (left offset : ℕ) → List ℕ → List ℕ → List ℕ
unfolding sha256_transform
run_blocks zero offset message state = state
run_blocks (suc left) offset message state =
    run_blocks left (offset + 64) message (sha256_transform message offset state)

-- The loop that writes the words of the state from `index` on.
unfoldable pub write_words : (index : ℕ) → List ℕ → List ℕ → List ℕ
write_words index [] out = out
write_words index (x ∷ words) out = write_words (index + 1) words (write_u32_be out (index * 4) x)

unfoldable pub sha256_fixed : List ℕ → List ℕ → List ℕ
unfolding pad_message run_blocks initial_state write_words
sha256_fixed input out_digest =
    write_words 0 (run_blocks (padded_size (length input) / 64) 0 (pad_message input) initial_state)
      out_digest
