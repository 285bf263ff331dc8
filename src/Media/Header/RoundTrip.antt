-- ===== src/Media/Header/RoundTrip.antt =====
-- Encoding a media header and decoding it, both ways round.
use ghost_media.Base.{
  ℕ, ◌+◌, ◌^◌, ◌≤◌, ◌<◌, ◌≡◌, refl, true, some, List, [], ◌++◌, length, drop, arith,
}
use ghost_media.Abi.{ok, memory}
use ghost_media.Wire.{byte_at, byte_of, read_u16_be}
use ghost_media.Wire.Fields.{read_u32_be_written, read_u64_be_written}
use ghost_media.Media.Header.{
  MediaHeader, validate_media_header_fields, encode_header, read_header, decode_bytes,
  decode_header, has_magic, all_zero_from,
}
use ghost_media.Media.Header.Layout.{
  tabulate, eq-tabulate, layout, length-layout, write_header-layout,
}

-- The fields hold what their C types can hold.
pub record FitsTypes (h : MediaHeader) : Type 0 where
  pub session : length h.session_id ≡ 16
  pub stream : h.stream_id < 2 ^ 32
  pub epoch : h.key_epoch < 2 ^ 32
  pub sequence : h.sequence < 2 ^ 64
  pub timestamp : h.media_timestamp < 2 ^ 64

-- A valid header has a known kind and direction, and a payload that fits a datagram.
valid_ranges :
    (h : MediaHeader)
    → validate_media_header_fields h ≡ true
    → (h.kind < 256) × (h.direction < 256) × (h.payload_length ≤ 1420)
unfolding validate_media_header_fields
valid_ranges h valid = ground arith

valid_of_decoded :
    (h : MediaHeader) (c : ℕ)
    → validate_media_header_fields h ≡ true
    → 72 ≤ c
    → validate_media_header_fields (record h { struct_size = c; abi_version = 1 }) ≡ true
unfolding validate_media_header_fields
valid_of_decoded h c valid big = ground arith

module _ (h : MediaHeader) (session : ℕ → ℕ) (rest : List ℕ) where
  layout-has_magic : has_magic (layout h session rest) ≡ true
  unfolding has_magic read_u16_be byte_of
  layout-has_magic = refl

  layout-all_zero : all_zero_from 8 56 (layout h session rest) ≡ true
  unfolding all_zero_from
  layout-all_zero = refl

  read_header-layout :
      (c : ℕ)
      → FitsTypes h
      → validate_media_header_fields h ≡ true
      → h.session_id ≡ tabulate 16 session
      → read_header c (layout h session rest) ≡ record h { struct_size = c; abi_version = 1 }
  read_header-layout c fits valid e =
      let (small_kind, small_direction, small_payload) = valid_ranges h valid in
      ground (
        arith,
        e,
        read_u32_be_written (layout h session rest) 24 h.stream_id fits.stream
            (refl, refl, refl, refl),
        read_u32_be_written (layout h session rest) 32 h.key_epoch fits.epoch
            (refl, refl, refl, refl),
        read_u64_be_written (layout h session rest) 36 h.sequence fits.sequence
            (refl, refl, refl, refl, refl, refl, refl, refl),
        read_u64_be_written (layout h session rest) 44 h.media_timestamp fits.timestamp
            (refl, refl, refl, refl, refl, refl, refl, refl),
        read_u32_be_written (layout h session rest) 52 h.payload_length (omega arith)
            (refl, refl, refl, refl),
      )

  decode_bytes-layout :
      (c : ℕ)
      → FitsTypes h
      → validate_media_header_fields h ≡ true
      → h.session_id ≡ tabulate 16 session
      → 72 ≤ c
      → length rest ≡ h.payload_length + 16
      → decode_bytes c (layout h session rest) (length (layout h session rest))
        ≡ record { status = ok; header = some (record h { struct_size = c; abi_version = 1 }) }
  unfolding decode_bytes
  decode_bytes-layout c fits valid e big whole =
      let small_payload = (valid_ranges h valid).2 in
      let read_length =
        read_u32_be_written (layout h session rest) 52 h.payload_length (omega arith)
          (refl, refl, refl, refl) in
      rw
        (
          layout-has_magic,
          layout-all_zero,
          read_header-layout c fits valid e,
          valid_of_decoded h c valid big,
          length-layout h session rest,
        )
        (rw read_length (ground arith))

-- A valid header whose fields fit their types is written into the first 64 bytes of any buffer
-- that is large enough, the rest of the buffer staying as it was; and a datagram of those 64 bytes
-- and a body of the announced length plus the tag decodes to the header again, with the size field
-- of the caller's struct.
pub decode-encode :
    (h out : MediaHeader) (output body : List ℕ) (old : ℕ)
    → FitsTypes h
    → validate_media_header_fields h ≡ true
    → 72 ≤ out.struct_size
    → 64 ≤ length output
    → length body ≡ h.payload_length + 16
    → (header : List ℕ) × (length header ≡ 64)
      × (encode_header (some h) (memory output) (some old)
          ≡ record { status = ok; output = memory (header ++ drop 64 output); written = some 64 })
      × (decode_header (memory (header ++ body)) (some out) ≡ record {
        status = ok;
        header = some (record h { struct_size = out.struct_size; abi_version = 1 });
      })
unfolding encode_header decode_header
decode-encode h out output body old fits valid big room whole =
    let session : ℕ → ℕ = byte_at h.session_id in
    let e : h.session_id ≡ tabulate 16 session = eq-tabulate 16 h.session_id fits.session in
    (
      layout h session [],
      refl,
      rw (valid, write_header-layout h session output e) (ground arith),
      rw (decode_bytes-layout h session body out.struct_size fits valid e big whole) (ground arith),
    )
