-- ===== src/Message/Parse.antt =====
-- `parse_message_impl` of shared/core/gm_control.cpp: from a text to a message.
use ghost_media.Base.{
  ℕ, Bool, true, false, ◌&&◌, ◌||◌, Option, some, List, [], ◌∷◌, leb, ◌==◌, if◌then◌else◌,
  replicate,
}
use ghost_media.Abi.{Status, ok, Bytes, size, abi_version, sizeof_audio_profile}
use ghost_media.Text.{codes}
use ghost_media.Json.{
  no_data, malformed, too_large, other_version, status_of, Answer, done, failed, ◌>>=◌, ◌>>◌,
  demand, JsonValue, string,
}
use ghost_media.Json.Parser.{parse_json}
use ghost_media.Message.{MessageInfo, Parsed, parsed, refused}
use ghost_media.Message.Access.{find_member, get_required_string, get_required_u32}
use ghost_media.Message.Fields.{copy_string_field, is_type_string}
use ghost_media.Message.Profile.{is_text, u32_max}
use ghost_media.Message.Request.{validate_request}
use ghost_media.Message.Response.{validate_result, validate_error}
use ghost_media.Message.Event.{validate_event}

abbrev pub sizeof_control_message_info : ℕ
sizeof_control_message_info = 928

abbrev pub control_message_max_bytes : ℕ
control_message_max_bytes = 8192

-- `*out_info` after `memset`, with its sizes and versions.
abbrev pub empty_info : (caller_size : ℕ) → MessageInfo
empty_info caller_size = record {
  struct_size = caller_size;
  abi_version = abi_version;
  kind = 0;
  id = 0;
  mutating = 0;
  udp_port = 0;
  stream_id = 0;
  key_epoch = 0;
  playout_target_ms = 0;
  has_reason = 0;
  versions_count = 0;
  versions = replicate 8 0;
  profile = record {
    struct_size = sizeof_audio_profile;
    abi_version = abi_version;
    codec = 0;
    sample_rate_hz = 0;
    channels = 0;
    frames_per_packet = 0;
    channel_layout = 0;
    packet_interval_us = 0;
    payload_bytes = 0;
  };
  type = replicate 65 0;
  role = replicate 33 0;
  client_name = replicate 129 0;
  server_id = replicate 37 0;
  boot_id = replicate 37 0;
  session_id = replicate 33 0;
  token = replicate 65 0;
  reason = replicate 65 0;
  state = replicate 65 0;
  path_state = replicate 65 0;
  output_state = replicate 65 0;
  session_stream_state = replicate 65 0;
  transport_state = replicate 65 0;
  first_media_timestamp = replicate 21 0;
  monotonic_ns = replicate 21 0;
}

abbrev is_hello : Option JsonValue → Bool
is_hello (some (string type)) = is_text type "session.hello"
is_hello _ = false

unfoldable pub enforce_v1_message_size : Bytes → JsonValue → Answer (Unit {0})
enforce_v1_message_size json_text root =
    demand
      (is_hello (find_member root (codes "type")) || leb (size json_text) control_message_max_bytes)
      too_large

-- The messages that carry an id.
unfoldable pub validate_numbered : JsonValue → List ℕ → MessageInfo → Answer MessageInfo
validate_numbered root type info = get_required_u32 root (codes "id") 1 u32_max >>= λ id.
    if is_text type "result"
    then validate_result root (record info { id = id })
    else if is_text type "error"
    then validate_error root (record info { id = id })
    else validate_request root (record info { id = id }) type

-- `type->rfind(prefix, 0u) == 0u`.
unfoldable pub begins_with : List ℕ → List ℕ → Bool
begins_with text [] = true
begins_with [] (c ∷ prefix) = false
begins_with (x ∷ text) (c ∷ prefix) = x == c && begins_with text prefix

unfoldable pub validate_typed : JsonValue → List ℕ → MessageInfo → Answer MessageInfo
unfolding validate_numbered begins_with
validate_typed root type info =
    if begins_with type (codes "event.")
    then validate_event root info type
    else validate_numbered root type info

unfoldable pub validate_message : Bytes → (caller_size : ℕ) → JsonValue → Answer MessageInfo
unfolding enforce_v1_message_size validate_typed
validate_message json_text caller_size root = do
  enforce_v1_message_size json_text root
  version ← get_required_u32 root (codes "v") 1 255
  type ← get_required_string root (codes "type")
  demand (is_type_string type) malformed
  demand (version == 1) other_version
  let info = record (empty_info caller_size) { type = copy_string_field 65 type }
  validate_typed root type info

-- With the size that the caller's struct claims.
unfoldable pub parse_message_impl : (caller_size : ℕ) → Bytes → Answer MessageInfo
unfolding validate_message
parse_message_impl caller_size json_text = do
  demand (leb sizeof_control_message_info caller_size) no_data
  root ← parse_json json_text
  validate_message json_text caller_size root

unfoldable pub as_parsed : Answer MessageInfo → Parsed
as_parsed (done m) = parsed m
as_parsed (failed r) = refused (status_of r)

-- `gm_control_parse_message` as the session calls it.
unfoldable pub parse_message : Bytes → Parsed
unfolding parse_message_impl
parse_message json_text = as_parsed (parse_message_impl sizeof_control_message_info json_text)

-- `gm_control_validate_json_text`.
unfoldable pub validate_json_text : Bytes → Status
unfolding enforce_v1_message_size
validate_json_text json_text =
    elim (parse_json json_text >>= λ root. enforce_v1_message_size json_text root) [
      | done u ↦ ok
      | failed r ↦ status_of r
    ]
