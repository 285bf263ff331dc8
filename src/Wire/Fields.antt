-- ===== src/Wire/Fields.antt =====
-- Reading a big-endian field undoes writing it, and the other way round.
use ghost_media.Base.{
  ℕ, ◌+◌, ◌*◌, ◌/◌, ◌%◌, ◌^◌, ◌<◌, bit_or, ◌≡◌, refl, ap, ◌∙◌, List, [], ◌∷◌, arith,
}
use ghost_media.Bits.Fields.{bit_or-add, bit_and-ones}
use ghost_media.Wire.{byte_at, byte_of, read_u16_be, read_u32_be, read_u64_be, shl32}

pub byte_of_lem : (value shift : ℕ) → byte_of value shift ≡ value / 2 ^ shift % 256
unfolding byte_of
byte_of_lem value shift = rw (bit_and-ones 8 (value / 2 ^ shift)) (omega arith)

-- Bytes as a number, the first one highest.
abbrev pub join : List ℕ → ℕ → ℕ
join [] value = value
join (b ∷ bs) value = join bs (value * 256 + b)

-- One more byte at the low end, by `|`.
or_low_byte : (whole q b k : ℕ) → whole ≡ q * 2 ^ k → b < 2 ^ k → bit_or whole b ≡ q * 2 ^ k + b
or_low_byte whole q b k e h = ap (λ (t : ℕ). bit_or t b) e ∙ bit_or-add k q b h

join_u16 : (a b : ℕ) → a < 256 → b < 256 → bit_or (a * 2 ^ 8) b % 2 ^ 16 ≡ join (a ∷ b ∷ []) 0
join_u16 a b ha hb = omega (arith, or_low_byte (a * 2 ^ 8) a b 8 refl hb)

join_u32 :
    (a b c d : ℕ)
    → a < 256
    → b < 256
    → c < 256
    → d < 256
    → bit_or (bit_or (bit_or (shl32 a 24) (shl32 b 16)) (shl32 c 8)) d ≡ join (a ∷ b ∷ c ∷ d ∷ []) 0
join_u32 a b c d ha hb hc hd =
    let two : bit_or (shl32 a 24) (shl32 b 16) ≡ a * 2 ^ 24 + shl32 b 16 =
      or_low_byte (shl32 a 24) a (shl32 b 16) 24 (omega arith) (omega arith) in
    let three =
      or_low_byte (bit_or (shl32 a 24) (shl32 b 16)) (a * 256 + b) (shl32 c 8) 16 (omega arith)
        (omega arith) in
    let four =
      or_low_byte (bit_or (bit_or (shl32 a 24) (shl32 b 16)) (shl32 c 8)) ((a * 256 + b) * 256 + c)
        d 8 (omega arith) hd in
    omega (arith, two, three, four)

join_u64_step :
    (value b : ℕ) → value < 2 ^ 56 → b < 256 → bit_or (value * 2 ^ 8 % 2 ^ 64) b ≡ value * 256 + b
join_u64_step value b hv hb = or_low_byte (value * 2 ^ 8 % 2 ^ 64) value b 8 (omega arith) hb

join_u64 :
    (a b c d e f g h : ℕ)
    → (a < 256) × (b < 256) × (c < 256) × (d < 256) × (e < 256) × (f < 256) × (g < 256) × (h < 256)
    → (let step = λ (value next : ℕ). bit_or (value * 2 ^ 8 % 2 ^ 64) next in
        step (step (step (step (step (step (step (step 0 a) b) c) d) e) f) g) h)
      ≡ join (a ∷ b ∷ c ∷ d ∷ e ∷ f ∷ g ∷ h ∷ []) 0
join_u64 a b c d e f g h p = rw (
  join_u64_step 0 a (omega arith) p.0,
  join_u64_step (0 * 256 + a) b (omega arith) p.1,
  join_u64_step (join (a ∷ b ∷ []) 0) c (omega arith) p.2,
  join_u64_step (join (a ∷ b ∷ c ∷ []) 0) d (omega arith) p.3,
  join_u64_step (join (a ∷ b ∷ c ∷ d ∷ []) 0) e (omega arith) p.4,
  join_u64_step (join (a ∷ b ∷ c ∷ d ∷ e ∷ []) 0) f (omega arith) p.5,
  join_u64_step (join (a ∷ b ∷ c ∷ d ∷ e ∷ f ∷ []) 0) g (omega arith) p.6,
  join_u64_step (join (a ∷ b ∷ c ∷ d ∷ e ∷ f ∷ g ∷ []) 0) h (omega arith) p.7,
)

-- Every element is a byte; past the end `byte_at` reads 0.
abbrev pub AreBytes : List ℕ → Type 0
AreBytes bytes = (i : ℕ) → byte_at bytes i < 256

-- Four bytes that hold a value, big-endian.
abbrev pub Holds32 : List ℕ → ℕ → ℕ → Type 0
Holds32 bytes offset value =
    (byte_at bytes offset ≡ byte_of value 24)
    × (byte_at bytes (offset + 1) ≡ byte_of value 16)
    × (byte_at bytes (offset + 2) ≡ byte_of value 8)
    × (byte_at bytes (offset + 3) ≡ byte_of value 0)

abbrev pub Holds64 : List ℕ → ℕ → ℕ → Type 0
Holds64 bytes offset value =
    (byte_at bytes (offset + 0) ≡ byte_of value 56)
    × (byte_at bytes (offset + 1) ≡ byte_of value 48)
    × (byte_at bytes (offset + 2) ≡ byte_of value 40)
    × (byte_at bytes (offset + 3) ≡ byte_of value 32)
    × (byte_at bytes (offset + 4) ≡ byte_of value 24)
    × (byte_at bytes (offset + 5) ≡ byte_of value 16)
    × (byte_at bytes (offset + 6) ≡ byte_of value 8)
    × (byte_at bytes (offset + 7) ≡ byte_of value 0)

byte_of-lt : (value shift : ℕ) → byte_of value shift < 256
byte_of-lt value shift = omega (arith, byte_of_lem value shift)

module _ (bytes : List ℕ) (offset value : ℕ) where
  pub read_u32_be_written :
      value < 2 ^ 32 → Holds32 bytes offset value → read_u32_be bytes offset ≡ value
  unfolding read_u32_be
  read_u32_be_written h e =
      rw (e.0, e.1, e.2, e.3)
        (join_u32 _ _ _ _ (byte_of-lt value 24) (byte_of-lt value 16) (byte_of-lt value 8)
            (byte_of-lt value 0)
          ∙ omega (
            arith,
            byte_of_lem value 24,
            byte_of_lem value 16,
            byte_of_lem value 8,
            byte_of_lem value 0,
          ))

  pub read_u64_be_written :
      value < 2 ^ 64 → Holds64 bytes offset value → read_u64_be bytes offset ≡ value
  unfolding read_u64_be
  read_u64_be_written h e =
      rw (e.0, e.1, e.2, e.3, e.4, e.5, e.6, e.7)
        (join_u64 _ _ _ _ _ _ _ _ (
          byte_of-lt value 56,
          byte_of-lt value 48,
          byte_of-lt value 40,
          byte_of-lt value 32,
          byte_of-lt value 24,
          byte_of-lt value 16,
          byte_of-lt value 8,
          byte_of-lt value 0,
        )
          ∙ omega (
            arith,
            byte_of_lem value 56,
            byte_of_lem value 48,
            byte_of_lem value 40,
            byte_of_lem value 32,
            byte_of_lem value 24,
            byte_of_lem value 16,
            byte_of_lem value 8,
            byte_of_lem value 0,
          ))

-- What is read is what the bytes hold.
module _ (bytes : List ℕ) (offset : ℕ) (all : AreBytes bytes) where
  abbrev here : ℕ → ℕ
  here i = byte_at bytes (offset + i)

  pub Holds32-read : Holds32 bytes offset (read_u32_be bytes offset)
  Holds32-read =
      let value : ℕ = read_u32_be bytes offset in
      let joined : value ≡ join (byte_at bytes offset ∷ here 1 ∷ here 2 ∷ here 3 ∷ []) 0 =
        unfold read_u32_be in
        join_u32 _ _ _ _ (all offset) (all (offset + 1)) (all (offset + 2)) (all (offset + 3)) in
      omega (
        arith,
        all offset,
        all (offset + 1),
        all (offset + 2),
        all (offset + 3),
        joined,
        byte_of_lem value 24,
        byte_of_lem value 16,
        byte_of_lem value 8,
        byte_of_lem value 0,
      )

  pub Holds64-read : Holds64 bytes offset (read_u64_be bytes offset)
  Holds64-read =
      let value : ℕ = read_u64_be bytes offset in
      let joined : value
          ≡ join (here 0 ∷ here 1 ∷ here 2 ∷ here 3 ∷ here 4 ∷ here 5 ∷ here 6 ∷ here 7 ∷ []) 0 =
        unfold read_u64_be in
        join_u64 _ _ _ _ _ _ _ _ (
          all (offset + 0),
          all (offset + 1),
          all (offset + 2),
          all (offset + 3),
          all (offset + 4),
          all (offset + 5),
          all (offset + 6),
          all (offset + 7),
        ) in
      omega (
        arith,
        all (offset + 0),
        all (offset + 1),
        all (offset + 2),
        all (offset + 3),
        all (offset + 4),
        all (offset + 5),
        all (offset + 6),
        all (offset + 7),
        joined,
        byte_of_lem value 56,
        byte_of_lem value 48,
        byte_of_lem value 40,
        byte_of_lem value 32,
        byte_of_lem value 24,
        byte_of_lem value 16,
        byte_of_lem value 8,
        byte_of_lem value 0,
      )

pub read_u16_be-zero :
    (bytes : List ℕ) (offset : ℕ)
    → AreBytes bytes
    → read_u16_be bytes offset ≡ 0
    → (byte_at bytes offset ≡ 0) × (byte_at bytes (offset + 1) ≡ 0)
unfolding read_u16_be
read_u16_be-zero bytes offset all zeros =
    let joined =
      join_u16 (byte_at bytes offset) (byte_at bytes (offset + 1)) (all offset)
        (all (offset + 1)) in
    omega (arith, zeros, joined, all offset, all (offset + 1))
