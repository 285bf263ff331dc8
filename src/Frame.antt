-- ===== src/Frame.antt =====
-- Control frames and the version of shared/core/gm_core.cpp: a frame is the length of a JSON text
-- in four bytes, and the text.
pub mod Stream
use Prim.Native.String.{String}
use ghost_media.Base.{ℕ, ◌+◌, not, ◌||◌, Option, none, some, List, ltb, if◌then◌else◌}
use ghost_media.Abi.{
  Status, ok, bad_argument, bad_message, state_conflict, limit_exceeded, buffer_too_small,
  unauthorized, need_more_data, unsupported_version, internal, Bytes, null, memory, size, contents,
  has_readable_data, abi_version,
}
use ghost_media.Wire.{copy_at, write_u32_be, read_u32_be}
use ghost_media.Message.Parse.{validate_json_text}

abbrev pub frame_header_bytes : ℕ
frame_header_bytes = 4

abbrev pub frame_min_payload_bytes : ℕ
frame_min_payload_bytes = 2

abbrev pub frame_max_payload_bytes : ℕ
frame_max_payload_bytes = 65536

pub record EncodeResult : Type 0 where
  pub status : Status
  pub output : Bytes
  pub written : Option ℕ

-- Behind the validation of the text.
abbrev pub encode_valid : Bytes → Bytes → EncodeResult
encode_valid json_text output =
    let required = frame_header_bytes + size json_text in
    if ltb (size output) required
    then record { status = buffer_too_small; output = output; written = some required }
    else elim output [
      | null n ↦ record { status = bad_argument; output = null n; written = some required }
      | memory bytes ↦ record {
        status = ok;
        output = memory (
            copy_at (write_u32_be bytes 0 (size json_text)) frame_header_bytes
              (contents json_text));
        written = some required;
      }
    ]

-- The arguments are the text, the output buffer and the place of the count.
unfoldable pub encode_frame : Bytes → Bytes → Option ℕ → EncodeResult
encode_frame json_text output none = record {
  status = bad_argument;
  output = output;
  written = none;
}
encode_frame json_text output (some old) =
    if not (has_readable_data output)
    then record { status = bad_argument; output = output; written = some old }
    else elim (validate_json_text json_text) [
      | ok ↦ encode_valid json_text output
      | other ↦ record { status = other; output = output; written = some old }
    ]

pub record FrameInfo : Type 0 where
  pub struct_size : ℕ
  pub abi_version : ℕ
  pub payload_length : ℕ
  pub frame_size : ℕ
  pub complete : ℕ

-- The size of `gm_control_frame_info` on LP64.
abbrev pub sizeof_control_frame_info : ℕ
sizeof_control_frame_info = 32

pub record PeekResult : Type 0 where
  pub status : Status
  pub info : Option FrameInfo

abbrev info_of : (caller_size payload_length frame_size complete : ℕ) → FrameInfo
info_of caller_size payload_length frame_size complete = record {
  struct_size = caller_size;
  abi_version = abi_version;
  payload_length = payload_length;
  frame_size = frame_size;
  complete = complete;
}

-- Behind the test that the header is there.
unfoldable pub peek_payload : (caller_size : ℕ) → Bytes → PeekResult
peek_payload caller_size input =
    let payload_length = read_u32_be (contents input) 0 in
    let frame_size = frame_header_bytes + payload_length in
    if ltb payload_length frame_min_payload_bytes || ltb frame_max_payload_bytes payload_length
    then record { status = bad_message; info = some (info_of caller_size 0 0 0) }
    else if ltb (size input) frame_size
    then record {
      status = need_more_data;
      info = some (info_of caller_size payload_length frame_size 0);
    }
    else record { status = ok; info = some (info_of caller_size payload_length frame_size 1) }

unfoldable pub peek_frame : Bytes → Option FrameInfo → PeekResult
unfolding peek_payload
peek_frame input none = record { status = bad_argument; info = none }
peek_frame input (some out) =
    if ltb out.struct_size sizeof_control_frame_info || not (has_readable_data input)
    then record { status = bad_argument; info = some out }
    else if ltb (size input) frame_header_bytes
    then record { status = need_more_data; info = some (info_of out.struct_size 0 0 0) }
    else peek_payload out.struct_size input

unfoldable pub status_string : Status → String
status_string ok = "GM_OK"
status_string bad_argument = "GM_BAD_ARGUMENT"
status_string bad_message = "GM_BAD_MESSAGE"
status_string state_conflict = "GM_STATE_CONFLICT"
status_string limit_exceeded = "GM_LIMIT_EXCEEDED"
status_string buffer_too_small = "GM_BUFFER_TOO_SMALL"
status_string unauthorized = "GM_UNAUTHORIZED"
status_string need_more_data = "GM_NEED_MORE_DATA"
status_string unsupported_version = "GM_UNSUPPORTED_VERSION"
status_string internal = "GM_INTERNAL"
