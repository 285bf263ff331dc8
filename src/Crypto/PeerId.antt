-- ===== src/Crypto/PeerId.antt =====
-- `gm_identity_encode_peer_id` of shared/core/gm_crypto.cpp: the base-32 text of an identity.
pub mod Digits
pub mod Value
pub mod Injective
use ghost_media.Base.{
  ℕ, zero, suc, ◌+◌, ◌-◌, ◌/◌, ◌^◌, bit_and, bit_or, true, false, not, Option, none, some, List, [],
  ◌∷◌, ◌++◌, ltb, leb, ◌==◌, if◌then◌else◌, length, drop,
}
use ghost_media.Abi.{
  Status, ok, bad_argument, bad_message, buffer_too_small, internal, Bytes, null, memory, size,
  contents, has_readable_data,
}
use ghost_media.Text.{codes}
use ghost_media.Wire.{byte_at, shl32}

abbrev pub peer_id_base32_bytes : ℕ
peer_id_base32_bytes = 52

abbrev pub spki_digest_bytes : ℕ
spki_digest_bytes = 32

unfoldable pub letter : ℕ → ℕ
letter index = byte_at (codes "abcdefghijklmnopqrstuvwxyz234567") index

-- What the loops keep: the letters written from the start of the output on, whose number is
-- `output_index`, and the bits that wait.
pub record Encoder : Type 0 where
  pub letters : List ℕ
  pub bit_buffer : ℕ
  pub bits_available : ℕ

unfoldable pub emit : Encoder → ℕ → ℕ → Encoder
unfolding letter
emit e index left = record {
  letters = e.letters ++ letter index ∷ [];
  bit_buffer = e.bit_buffer;
  bits_available = left;
}

-- The `while` loop; a round takes five bits, so the fuel `bits_available` is enough.
unfoldable pub drain : (fuel : ℕ) → Encoder → Encoder
unfolding emit
drain zero e = e
drain (suc fuel) e =
    let left = e.bits_available - 5 in
    let next = drain fuel (emit e (bit_and (e.bit_buffer / 2 ^ left) 0x1f) left) in
    if leb 5 e.bits_available then next else e

unfoldable pub take_byte : Encoder → ℕ → Encoder
unfolding drain
take_byte e byte = drain (e.bits_available + 8) record {
  letters = e.letters;
  bit_buffer = bit_or (shl32 e.bit_buffer 8) byte;
  bits_available = e.bits_available + 8;
}

unfoldable pub take_bytes : Encoder → List ℕ → Encoder
unfolding take_byte
take_bytes e [] = e
take_bytes e (byte ∷ rest) = take_bytes (take_byte e byte) rest

-- The bits that remain, with zeros below them.
unfoldable pub finish : Encoder → Encoder
unfolding emit
finish e =
    if not (e.bits_available == 0)
    then emit e (bit_and (shl32 e.bit_buffer (5 - e.bits_available)) 0x1f) e.bits_available
    else e

unfoldable pub encode_letters : List ℕ → List ℕ
unfolding take_bytes finish
encode_letters digest =
    let end =
      finish (take_bytes record { letters = []; bit_buffer = 0; bits_available = 0 } digest) in
    end.letters

pub record PeerIdResult : Type 0 where
  pub status : Status
  pub output : Bytes
  pub written : Option ℕ

unfoldable pub write_letters : List ℕ → List ℕ → PeerIdResult
write_letters letters output = record {
  status = if length letters == peer_id_base32_bytes then ok else internal;
  output = memory (letters ++ 0 ∷ drop (length letters + 1) output);
  written = some (peer_id_base32_bytes + 1);
}

unfoldable pub encode_peer_id : Bytes → Bytes → Option ℕ → PeerIdResult
unfolding encode_letters write_letters
encode_peer_id digest output none = record {
  status = bad_argument;
  output = output;
  written = none;
}
encode_peer_id digest output (some old) =
    if not (has_readable_data digest)
    then record { status = bad_argument; output = output; written = some old }
    else if not (has_readable_data output)
    then record { status = bad_argument; output = output; written = some old }
    else if not (size digest == spki_digest_bytes)
    then record { status = bad_message; output = output; written = some (peer_id_base32_bytes + 1) }
    else if ltb (size output) (peer_id_base32_bytes + 1)
    then record {
      status = buffer_too_small;
      output = output;
      written = some (peer_id_base32_bytes + 1);
    }
    else elim output [
      | null n ↦ record {
        status = bad_argument;
        output = null n;
        written = some (peer_id_base32_bytes + 1);
      }
      | memory bytes ↦ write_letters (encode_letters (contents digest)) bytes
    ]
