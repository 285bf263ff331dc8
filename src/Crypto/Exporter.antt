-- ===== src/Crypto/Exporter.antt =====
-- `gm_crypto_build_exporter_context` of shared/core/gm_crypto.cpp: what the media keys of a stream
-- are bound to.
pub mod Binding
use ghost_media.Base.{
  ℕ, ◌+◌, ◌%◌, ◌^◌, true, false, not, ◌&&◌, ◌||◌, Option, none, some, List, [], ◌∷◌, ◌++◌, ltb,
  ◌==◌, if◌then◌else◌, length, take, replicate, set,
}
use ghost_media.Abi.{
  Status, ok, bad_argument, bad_message, buffer_too_small, internal, abi_version, Bytes, null,
  memory, size, has_readable_data,
}
use ghost_media.Text.{codes}
use ghost_media.Wire.{copy_at, write_u32_be}
use ghost_media.Crypto.Sha256.{sha256_fixed}

pub record ContextInput : Type 0 where
  pub struct_size : ℕ
  pub abi_version : ℕ
  pub stream_id : ℕ
  pub direction : ℕ
  pub key_epoch : ℕ
  pub session_id : List ℕ
  pub sender_spki_digest : List ℕ
  pub receiver_spki_digest : List ℕ

-- On LP64.
abbrev pub sizeof_context_input : ℕ
sizeof_context_input = 104

abbrev pub tls_exporter_context_bytes : ℕ
tls_exporter_context_bytes = 32

-- The array and the offset behind what was appended.
pub record Cursor : Type 0 where
  pub destination : List ℕ
  pub offset : ℕ

unfoldable pub append_bytes : Cursor → List ℕ → ℕ → Cursor
append_bytes c source count = record {
  destination = copy_at c.destination c.offset (take count source);
  offset = c.offset + count;
}

unfoldable pub append_u32_be : Cursor → ℕ → Cursor
append_u32_be c value = record {
  destination = write_u32_be c.destination c.offset value;
  offset = c.offset + 4;
}

unfoldable pub append_byte : Cursor → ℕ → Cursor
append_byte c value = record {
  destination = set c.destination c.offset (value % 2 ^ 8);
  offset = c.offset + 1;
}

unfoldable pub context_preimage : ContextInput → Cursor
unfolding append_bytes append_u32_be append_byte
context_preimage input =
    let prefix =
      append_bytes record { destination = replicate 101 0; offset = 0 } (codes "ghostmedia/1") 12 in
    let session = append_bytes prefix input.session_id 16 in
    let stream = append_u32_be session input.stream_id in
    let direction = append_byte stream input.direction in
    let epoch = append_u32_be direction input.key_epoch in
    let sender = append_bytes epoch input.sender_spki_digest 32 in
    append_bytes sender input.receiver_spki_digest 32

pub record ContextResult : Type 0 where
  pub status : Status
  pub output : Bytes
  pub written : Option ℕ

abbrev refused : Status → Bytes → ContextResult
refused status output = record {
  status = status;
  output = output;
  written = some tls_exporter_context_bytes;
}

unfoldable pub build_exporter_context : Option ContextInput → Bytes → Option ℕ → ContextResult
unfolding context_preimage sha256_fixed
build_exporter_context none output written = record {
  status = bad_argument;
  output = output;
  written = written;
}
build_exporter_context (some input) output none = record {
  status = bad_argument;
  output = output;
  written = none;
}
build_exporter_context (some input) output (some old) =
    if not (has_readable_data output)
      || ltb input.struct_size sizeof_context_input
      || not (input.abi_version == abi_version)
    then record { status = bad_argument; output = output; written = some old }
    else if input.stream_id == 0
        || input.key_epoch == 0
        || not (input.direction == 1) && not (input.direction == 2)
    then refused bad_message output
    else if ltb (size output) tls_exporter_context_bytes
    then refused buffer_too_small output
    else elim output [
      | null n ↦ refused bad_argument (null n)
      | memory bytes ↦
          let end = context_preimage input in
          if not (end.offset == length end.destination)
          then refused internal (memory bytes)
          else record {
            status = ok;
            output = memory (sha256_fixed end.destination bytes);
            written = some tls_exporter_context_bytes;
          }
    ]
