-- ===== src/Media/Header/Canonical.antt =====
-- A received header is the only encoding of its fields: what the sender authenticated and what
-- `gm_media_build_aad` rebuilds from the decoded header are the same 64 bytes.
use mathlib.Core.Path.{fun_ext}
use ghost_media.Base.{
  ℕ, zero, suc, ◌+◌, ◌≤◌, ◌≡◌, refl, ap, ◌∙◌, le→ltb, true, false, some, List, [], ◌∷◌, ◌++◌,
  length, length-drop, take, drop, arith, ltb,
}
use ghost_media.Abi.{ok, memory}
use ghost_media.Wire.{byte_at, byte_of, read_u16_be}
use ghost_media.Wire.Fields.{AreBytes, Holds32-read, Holds64-read, read_u16_be-zero}
use ghost_media.Media.Header.{
  MediaHeader, validate_media_header_fields, write_header, encode_header, read_header, decode_bytes,
  decode_header, has_magic, all_zero_from,
}
use ghost_media.Media.Header.Layout.{tabulate, take-tabulate, layout, write_header-layout}

get_or-drop : (k : ℕ) (xs : List ℕ) (i : ℕ) → byte_at (drop k xs) i ≡ byte_at xs (k + i)
get_or-drop zero xs i = ap (byte_at xs) (omega arith)
get_or-drop (suc k) [] i = refl
get_or-drop (suc k) (x ∷ xs) i =
    let next : suc k + i ≡ suc (k + i) = omega arith in rw next (get_or-drop k xs i)

take-drop-tabulate :
    (n k : ℕ) (xs : List ℕ)
    → k + n ≤ length xs
    → take n (drop k xs) ≡ tabulate n (λ i. byte_at xs (k + i))
take-drop-tabulate n k xs h =
    take-tabulate n (drop k xs) (rw (length-drop k xs) (omega arith))
    ∙ ap (tabulate n) (fun_ext (get_or-drop k xs))

-- What a successful decoding has checked.
record Checked (c : ℕ) (d : List ℕ) (h : MediaHeader) : Type 0 where
  long : 80 ≤ length d
  magic : has_magic d ≡ true
  reserved : all_zero_from 8 56 d ≡ true
  fields : h ≡ read_header c d
  valid : validate_media_header_fields h ≡ true

decoded-Checked :
    (d : List ℕ) (out h : MediaHeader)
    → decode_header (memory d) (some out) ≡ record { status = ok; header = some h }
    → Checked out.struct_size d h
unfolding decode_header decode_bytes
decoded-Checked d out h e = record {
  long = ground arith;
  magic = ground arith;
  reserved = ground arith;
  fields = ground arith;
  valid = ground arith;
}

zero_bytes : (byte_of 0 0 ≡ 0) × (byte_of 0 8 ≡ 0)
unfolding byte_of
zero_bytes = (refl, refl)

module _ (c : ℕ) (d : List ℕ) (h : MediaHeader) (all : AreBytes d) (seen : Checked c d h) where
  -- The bytes that are not part of a field are the ones that the encoder writes.
  fixed_bytes :
      (byte_at d 0 ≡ b'G')
      × (byte_at d 1 ≡ b'M')
      × (byte_at d 2 ≡ b'A')
      × (byte_at d 3 ≡ b'1')
      × (byte_at d 4 ≡ 1)
      × (read_u16_be d 6 ≡ 0)
      × (byte_at d 29 ≡ 0)
      × (byte_at d 30 ≡ 0)
      × (byte_at d 31 ≡ 0)
  fixed_bytes = let magic = seen.magic in unfold has_magic in ground (arith, magic)

  reserved_bytes :
      (byte_at d 56 ≡ 0)
      × (byte_at d 57 ≡ 0)
      × (byte_at d 58 ≡ 0)
      × (byte_at d 59 ≡ 0)
      × (byte_at d 60 ≡ 0)
      × (byte_at d 61 ≡ 0)
      × (byte_at d 62 ≡ 0)
      × (byte_at d 63 ≡ 0)
  unfolding all_zero_from
  reserved_bytes = ground (arith, seen.reserved)

  layout-read :
      (rest : List ℕ)
      → layout (read_header c d) (λ i. byte_at d (8 + i)) rest ≡ tabulate 64 (byte_at d) ++ rest
  layout-read rest =
      let flags = read_u16_be-zero d 6 all fixed_bytes.5 in
      ground (
        arith,
        fixed_bytes,
        reserved_bytes,
        flags,
        zero_bytes,
        all 5,
        all 28,
        Holds32-read d 24 all,
        Holds32-read d 32 all,
        Holds64-read d 36 all,
        Holds64-read d 44 all,
        Holds32-read d 52 all,
      )

  write_header-read : (output : List ℕ) → write_header h output ≡ take 64 d ++ drop 64 output
  write_header-read output =
      rw (seen.fields, take-tabulate 64 d (omega (arith, seen.long)))
        (write_header-layout (read_header c d) (λ i. byte_at d (8 + i)) output
            (take-drop-tabulate 16 8 d (omega (arith, seen.long)))
          ∙ layout-read (drop 64 output))

-- A datagram of bytes that decodes has in its first 64 bytes exactly what the encoder writes for
-- the decoded header, into any buffer with room for it.
pub encode-decode :
    (datagram output : List ℕ) (out h : MediaHeader) (old : ℕ)
    → AreBytes datagram
    → decode_header (memory datagram) (some out) ≡ record { status = ok; header = some h }
    → 64 ≤ length output
    → encode_header (some h) (memory output) (some old) ≡ record {
      status = ok;
      output = memory (take 64 datagram ++ drop 64 output);
      written = some 64;
    }
unfolding encode_header
encode-decode datagram output out h old all decoded room =
    let seen = decoded-Checked datagram out h decoded in
    let fits : ltb (length output) 64 ≡ false = le→ltb 64 (length output) room in
    rw (seen.valid, write_header-read out.struct_size datagram h all seen output, fits)
