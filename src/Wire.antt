-- ===== src/Wire.antt =====
-- Big-endian fields in a byte buffer: `read_u16_be` to `read_u64_be` and `write_u16_be` to
-- `write_u64_be` of shared/core/gm_media.cpp (gm_core.cpp and gm_crypto.cpp have the same for
-- 32 bits), and `memcpy` and `memset` into a buffer.
pub mod Fields
use ghost_media.Base.{
  ℕ, zero, suc, ◌+◌, ◌-◌, ◌*◌, ◌/◌, ◌%◌, ◌^◌, bit_and, bit_or, List, ◌++◌, get_or, set, take, drop,
  replicate, length,
}

abbrev pub byte_at : List ℕ → ℕ → ℕ
byte_at bytes index = get_or bytes index 0

-- `memcpy(buffer + offset, source, source.size)`, inside the buffer.
abbrev pub copy_at : List ℕ → ℕ → List ℕ → List ℕ
copy_at buffer offset source = take offset buffer ++ source ++ drop (offset + length source) buffer

-- `memset(buffer, 0, count)`.
abbrev pub zero_fill : List ℕ → ℕ → List ℕ
zero_fill buffer count = replicate count 0 ++ drop count buffer

-- One byte of a value: `static_cast<uint8_t>((value >> shift) & 0xffu)`.
unfoldable pub byte_of : ℕ → ℕ → ℕ
byte_of value shift = bit_and (value / 2 ^ shift) 0xff % 2 ^ 8

abbrev pub write_u16_be : List ℕ → ℕ → ℕ → List ℕ
write_u16_be buffer offset value =
    let first = set buffer offset (byte_of value 8) in set first (offset + 1) (byte_of value 0)

abbrev pub write_u32_be : List ℕ → ℕ → ℕ → List ℕ
write_u32_be buffer offset value =
    let first = set buffer offset (byte_of value 24) in
    let second = set first (offset + 1) (byte_of value 16) in
    let third = set second (offset + 2) (byte_of value 8) in
    set third (offset + 3) (byte_of value 0)

-- The loop of `write_u64_be` from `index` on, with `left` rounds to go.
abbrev pub write_u64_bytes : (left index : ℕ) → List ℕ → ℕ → ℕ → List ℕ
write_u64_bytes zero index buffer offset value = buffer
write_u64_bytes (suc left) index buffer offset value =
    write_u64_bytes left (index + 1) (set buffer (offset + (7 - index)) (byte_of value (index * 8)))
      offset value

abbrev pub write_u64_be : List ℕ → ℕ → ℕ → List ℕ
write_u64_be buffer offset value = write_u64_bytes 8 0 buffer offset value

unfoldable pub read_u16_be : List ℕ → ℕ → ℕ
read_u16_be bytes offset =
    bit_or (byte_at bytes offset * 2 ^ 8) (byte_at bytes (offset + 1)) % 2 ^ 16

-- `x << k` on uint32_t.
abbrev pub shl32 : ℕ → ℕ → ℕ
shl32 x k = x * 2 ^ k % 2 ^ 32

unfoldable pub read_u32_be : List ℕ → ℕ → ℕ
read_u32_be bytes offset =
    bit_or
      (bit_or (bit_or (shl32 (byte_at bytes offset) 24) (shl32 (byte_at bytes (offset + 1)) 16))
        (shl32 (byte_at bytes (offset + 2)) 8))
      (byte_at bytes (offset + 3))

-- The loop of `read_u64_be` from `index` on, with `left` rounds to go.
pub read_u64_bytes : (left index : ℕ) → List ℕ → ℕ → ℕ → ℕ
read_u64_bytes zero index bytes offset value = value
read_u64_bytes (suc left) index bytes offset value =
    read_u64_bytes left (index + 1) bytes offset
      (bit_or (value * 2 ^ 8 % 2 ^ 64) (byte_at bytes (offset + index)))

unfoldable pub read_u64_be : List ℕ → ℕ → ℕ
unfolding read_u64_bytes
read_u64_be bytes offset = read_u64_bytes 8 0 bytes offset 0
