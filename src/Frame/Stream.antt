-- ===== src/Frame/Stream.antt =====
-- Frames on a stream: what `gm_control_peek_frame` sees of a frame that was encoded.
use ghost_media.Base.{
  ℕ, zero, suc, ◌+◌, ◌≤◌, ◌<◌, ◌≡◌, refl, some, List, [], ◌∷◌, ◌++◌, length, length-append,
  length-take, take, drop, leb, leb→le, Bool, true, false, inl, inr, arith,
}
use ghost_media.Abi.{has_readable_data, ok, need_more_data, Bytes, memory, size}
use ghost_media.Wire.{byte_of}
use ghost_media.Wire.Fields.{read_u32_be_written}
use ghost_media.Json.{
  Refusal, no_data, malformed, too_large, Answer, done, ◌>>◌, demand, JsonValue, Answer-cases,
}
use ghost_media.Json.Parser.{parse_json}
use ghost_media.Message.Parse.{validate_json_text}
use ghost_media.Frame.{FrameInfo, encode_frame, peek_frame}

-- A text with its length before it.
abbrev pub frame : List ℕ → List ℕ
frame bytes =
    let n = length bytes in byte_of n 24 ∷ byte_of n 16 ∷ byte_of n 8 ∷ byte_of n 0 ∷ bytes

demanded :
    {A : Type 0} (a b c : Bool) (r s t : Refusal) (k : Answer A) (x : A)
    → (demand a r >> (demand b s >> (demand c t >> k))) ≡ done x
    → (b ≡ true) × (c ≡ true)
demanded true true true r s t k x e = (refl, refl)
demanded true true false r s t k x e = cc
demanded true false c r s t k x e = cc
demanded false b c r s t k x e = cc

parsed_size :
    (json_text : Bytes) (root : JsonValue)
    → parse_json json_text ≡ done root
    → (2 ≤ size json_text) × (size json_text ≤ 12288)
unfolding parse_json
parsed_size json_text root e =
    let both =
      demanded (has_readable_data json_text) (leb 2 (size json_text)) (leb (size json_text) 12288)
        no_data malformed too_large _ root e in
    (leb→le _ _ both.0, leb→le _ _ both.1)

valid_size :
    (json_text : Bytes)
    → validate_json_text json_text ≡ ok
    → (2 ≤ size json_text) × (size json_text ≤ 12288)
unfolding validate_json_text
valid_size json_text e = elim (Answer-cases (parse_json json_text)) [
  | inl (root, found) ↦ parsed_size json_text root found
  | inr (r, found) ↦ ground (arith, e, found)
]

peek-frame :
    (bytes rest : List ℕ) (out : FrameInfo)
    → 32 ≤ out.struct_size
    → 2 ≤ length bytes
    → length bytes ≤ 12288
    → peek_frame (memory (frame bytes ++ rest)) (some out) ≡ record {
      status = ok;
      info = some (record {
        struct_size = out.struct_size;
        abi_version = 1;
        payload_length = length bytes;
        frame_size = 4 + length bytes;
        complete = 1;
      });
    }
unfolding peek_frame
peek-frame bytes rest out big low high = ground (
  arith,
  length-append bytes rest,
  read_u32_be_written (frame bytes ++ rest) 0 (length bytes) (omega arith) (refl, refl, refl, refl),
)

encode-frame :
    (bytes buffer : List ℕ) (old : ℕ)
    → validate_json_text (memory bytes) ≡ ok
    → 4 + length bytes ≤ length buffer
    → encode_frame (memory bytes) (memory buffer) (some old) ≡ record {
      status = ok;
      output = memory (frame bytes ++ drop (4 + length bytes) buffer);
      written = some (4 + length bytes);
    }
unfolding encode_frame
encode-frame bytes (a ∷ b ∷ c ∷ d ∷ buffer) old valid room =
    let unary : 4 + length bytes ≡ suc (suc (suc (suc (length bytes)))) = omega arith in
    rw (valid, unary) (ground (arith, room))
encode-frame bytes (a ∷ b ∷ c ∷ []) old valid room = absurd (omega arith)
encode-frame bytes (a ∷ b ∷ []) old valid room = absurd (omega arith)
encode-frame bytes (a ∷ []) old valid room = absurd (omega arith)
encode-frame bytes [] old valid room = absurd (omega arith)

-- A part of a frame that is too short for the whole.
peek-part :
    (bytes : List ℕ) (k : ℕ) (out : FrameInfo)
    → 32 ≤ out.struct_size
    → 2 ≤ length bytes
    → length bytes ≤ 12288
    → k < 4 + length bytes
    → (peek_frame (memory (take k (frame bytes))) (some out)).status ≡ need_more_data
unfolding peek_frame
peek-part bytes zero out big low high short = ground arith
peek-part bytes (suc zero) out big low high short = ground arith
peek-part bytes (suc (suc zero)) out big low high short = ground arith
peek-part bytes (suc (suc (suc zero))) out big low high short = ground arith
peek-part bytes (suc (suc (suc (suc k)))) out big low high short = ground (
  arith,
  length-take k bytes,
  read_u32_be_written (take (suc (suc (suc (suc k)))) (frame bytes)) 0 (length bytes) (omega arith)
      (refl, refl, refl, refl),
)

-- A valid text is framed into any buffer with room for it: its length in four bytes and the text,
-- the rest of the buffer staying as it was. A reader sees a complete frame of that length at the
-- start of any stream that begins with the frame, and is told to wait on every proper prefix of it.
pub peek-encode :
    (bytes buffer rest : List ℕ) (old k : ℕ) (out : FrameInfo)
    → validate_json_text (memory bytes) ≡ ok
    → 4 + length bytes ≤ length buffer
    → 32 ≤ out.struct_size
    → k < 4 + length bytes
    → (encode_frame (memory bytes) (memory buffer) (some old) ≡ record {
      status = ok;
      output = memory (frame bytes ++ drop (4 + length bytes) buffer);
      written = some (4 + length bytes);
    })
      × (peek_frame (memory (frame bytes ++ rest)) (some out) ≡ record {
        status = ok;
        info = some (record {
          struct_size = out.struct_size;
          abi_version = 1;
          payload_length = length bytes;
          frame_size = 4 + length bytes;
          complete = 1;
        });
      })
      × ((peek_frame (memory (take k (frame bytes))) (some out)).status ≡ need_more_data)
peek-encode bytes buffer rest old k out valid room big short =
    let (low, high) = valid_size (memory bytes) valid in
    (
      encode-frame bytes buffer old valid room,
      peek-frame bytes rest out big low high,
      peek-part bytes k out big low high short,
    )
