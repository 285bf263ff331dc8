-- ===== src/Media/Header.antt =====
-- The 64-byte media header of shared/core/gm_media.cpp, its validation, encoding and decoding.
pub mod Layout
pub mod RoundTrip
pub mod Canonical
use ghost_media.Base.{
  ℕ, zero, suc, ◌+◌, ◌%◌, ◌^◌, Bool, true, false, not, ◌&&◌, ◌||◌, Option, none, some, List, ltb,
  leb, ◌==◌, if◌then◌else◌, set, take, drop, replicate,
}
use ghost_media.Abi.{
  Status, ok, bad_argument, bad_message, buffer_too_small, Bytes, null, memory, size, contents,
  has_readable_data, abi_version, sizeof_media_header,
}
use ghost_media.Wire.{
  byte_at, copy_at, zero_fill, write_u16_be, write_u32_be, write_u64_be, read_u16_be, read_u32_be,
  read_u64_be,
}

pub record MediaHeader : Type 0 where
  pub struct_size : ℕ
  pub abi_version : ℕ
  pub kind : ℕ
  pub session_id : List ℕ
  pub stream_id : ℕ
  pub direction : ℕ
  pub key_epoch : ℕ
  pub sequence : ℕ
  pub media_timestamp : ℕ
  pub payload_length : ℕ

abbrev pub audio_kind : ℕ
audio_kind = 1

abbrev pub path_challenge_kind : ℕ
path_challenge_kind = 2

abbrev pub path_response_kind : ℕ
path_response_kind = 3

abbrev pub feedback_kind : ℕ
feedback_kind = 4

abbrev pub win_to_apple : ℕ
win_to_apple = 1

abbrev pub apple_to_win : ℕ
apple_to_win = 2

abbrev pub media_header_bytes : ℕ
media_header_bytes = 64

abbrev pub media_tag_bytes : ℕ
media_tag_bytes = 16

abbrev pub media_min_datagram_bytes : ℕ
media_min_datagram_bytes = 80

abbrev pub media_max_datagram_bytes : ℕ
media_max_datagram_bytes = 1500

abbrev pub media_max_payload_bytes : ℕ
media_max_payload_bytes = 1420

abbrev pub feedback_payload_bytes : ℕ
feedback_payload_bytes = 32

abbrev pub session_id_bytes : ℕ
session_id_bytes = 16

-- The `switch` on the kind.
unfoldable pub kind_allows : MediaHeader → Bool
kind_allows h =
    if h.kind == audio_kind
    then h.direction == win_to_apple && ltb 0 h.payload_length
    else if h.kind == path_challenge_kind
    then h.direction == win_to_apple && h.media_timestamp == 0 && h.payload_length == 12
    else if h.kind == path_response_kind
    then h.direction == apple_to_win && h.media_timestamp == 0 && h.payload_length == 12
    else if h.kind == feedback_kind
    then h.direction == apple_to_win
      && h.media_timestamp == 0
      && h.payload_length == feedback_payload_bytes
    else false

unfoldable pub validate_media_header_fields : MediaHeader → Bool
unfolding kind_allows
validate_media_header_fields h =
    if ltb h.struct_size sizeof_media_header
      || not (h.abi_version == abi_version)
      || h.stream_id == 0
      || h.key_epoch == 0
      || ltb media_max_payload_bytes h.payload_length
    then false
    else kind_allows h

-- The writes of `gm_media_encode_header`, in their order.
abbrev pub write_header : MediaHeader → List ℕ → List ℕ
write_header h output =
    let cleared = zero_fill output media_header_bytes in
    let magic = set (set (set (set cleared 0 b'G') 1 b'M') 2 b'A') 3 b'1' in
    let version = set magic 4 1 in
    let kind = set version 5 (h.kind % 2 ^ 8) in
    let flags = write_u16_be kind 6 0 in
    let session = copy_at flags 8 h.session_id in
    let stream = write_u32_be session 24 h.stream_id in
    let direction = set stream 28 (h.direction % 2 ^ 8) in
    let epoch = write_u32_be direction 32 h.key_epoch in
    let sequence = write_u64_be epoch 36 h.sequence in
    let timestamp = write_u64_be sequence 44 h.media_timestamp in
    write_u32_be timestamp 52 h.payload_length

pub record EncodeResult : Type 0 where
  pub status : Status
  pub output : Bytes
  pub written : Option ℕ

-- The arguments are the header, the output buffer and the place of the count.
unfoldable pub encode_header : Option MediaHeader → Bytes → Option ℕ → EncodeResult
encode_header none output written = record {
  status = bad_argument;
  output = output;
  written = written;
}
encode_header (some h) output none = record {
  status = bad_argument;
  output = output;
  written = none;
}
encode_header (some h) output (some old) =
    if not (has_readable_data output)
    then record { status = bad_argument; output = output; written = some old }
    else if not (validate_media_header_fields h)
    then record { status = bad_message; output = output; written = some media_header_bytes }
    else if ltb (size output) media_header_bytes
    then record { status = buffer_too_small; output = output; written = some media_header_bytes }
    else elim output [
      | null n ↦ record {
        status = bad_argument;
        output = null n;
        written = some media_header_bytes;
      }
      | memory bytes ↦ record {
        status = ok;
        output = memory (write_header h bytes);
        written = some media_header_bytes;
      }
    ]

-- The header that `memset` leaves, with the caller's size.
abbrev pub blank : ℕ → MediaHeader
blank caller_size = record {
  struct_size = caller_size;
  abi_version = abi_version;
  kind = 0;
  session_id = replicate session_id_bytes 0;
  stream_id = 0;
  direction = 0;
  key_epoch = 0;
  sequence = 0;
  media_timestamp = 0;
  payload_length = 0;
}

unfoldable pub has_magic : List ℕ → Bool
has_magic bytes =
    byte_at bytes 0 == b'G'
    && byte_at bytes 1 == b'M'
    && byte_at bytes 2 == b'A'
    && byte_at bytes 3 == b'1'
    && byte_at bytes 4 == 1
    && read_u16_be bytes 6 == 0
    && byte_at bytes 29 == 0
    && byte_at bytes 30 == 0
    && byte_at bytes 31 == 0

-- The loop over the reserved bytes from `index` on.
unfoldable pub all_zero_from : (left index : ℕ) → List ℕ → Bool
all_zero_from zero index bytes = true
all_zero_from (suc left) index bytes =
    byte_at bytes index == 0 && all_zero_from left (index + 1) bytes

abbrev pub read_header : ℕ → List ℕ → MediaHeader
read_header caller_size bytes = record {
  struct_size = caller_size;
  abi_version = abi_version;
  kind = byte_at bytes 5;
  session_id = take session_id_bytes (drop 8 bytes);
  stream_id = read_u32_be bytes 24;
  direction = byte_at bytes 28;
  key_epoch = read_u32_be bytes 32;
  sequence = read_u64_be bytes 36;
  media_timestamp = read_u64_be bytes 44;
  payload_length = read_u32_be bytes 52;
}

pub record DecodeResult : Type 0 where
  pub status : Status
  pub header : Option MediaHeader

-- The bytes of a datagram, behind the argument checks.
unfoldable pub decode_bytes : ℕ → List ℕ → ℕ → DecodeResult
decode_bytes caller_size bytes datagram_size =
    if ltb datagram_size media_min_datagram_bytes || ltb media_max_datagram_bytes datagram_size
    then record { status = bad_message; header = some (blank caller_size) }
    else if not (has_magic bytes) || not (all_zero_from 8 56 bytes)
    then record { status = bad_message; header = some (blank caller_size) }
    else (let header = read_header caller_size bytes in
        if not (media_header_bytes + header.payload_length + media_tag_bytes == datagram_size)
          || not (validate_media_header_fields header)
        then record { status = bad_message; header = some header }
        else record { status = ok; header = some header })

unfoldable pub decode_header : Bytes → Option MediaHeader → DecodeResult
unfolding decode_bytes
decode_header datagram none = record { status = bad_argument; header = none }
decode_header datagram (some out) =
    if ltb out.struct_size sizeof_media_header || not (has_readable_data datagram)
    then record { status = bad_argument; header = some out }
    else decode_bytes out.struct_size (contents datagram) (size datagram)
