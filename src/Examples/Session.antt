-- ===== src/Examples/Session.antt =====
-- Instances of the theorems on control sessions.
use ghost_media.Base.{ℕ, ◌≡◌, ◌≢◌, refl, some, List, [], ◌∷◌, ◌++◌, true, replicate, arith}
use ghost_media.Abi.{ok, Bytes, memory}
use ghost_media.Message.{MessageInfo, parsed}
use ghost_media.Message.Parse.{parse_message, as_parsed, begins_with, empty_info}
use ghost_media.Message.Access.{
  find_member, object_has_exact_keys, get_required_u32, get_required_string, get_required_object,
  get_required_array,
}
use ghost_media.Message.Fields.{
  is_type_string, is_decimal, copy_string_field, is_lower_hex_session_id,
}
use ghost_media.Message.Profile.{is_text, validate_versions, parse_profile}
use ghost_media.Message.Request.{
  stream_start_request, session_hello_request, transport_bind_request, stream_open_request,
  validate_request,
}
use ghost_media.Json.{same_string}
use ghost_media.Json.Utf8.{after_character}
use ghost_media.Json.Parser.{parse_json, parse_name}
use ghost_media.Json.Lexer.{next_piece, next_digit}
use ghost_media.Text.{
  codes, is_lower_uuid_text, is_lower_session_id_text, copy_c_string, same_prefix,
}
use ghost_media.Session.{
  SessionConfig, Session, Action, empty_profile, no_token, no_decimal, active_stream_matches, init,
}
use ghost_media.Session.Ingest.{ingest_valid, mark_valid, handle, is_request}
use ghost_media.Session.Requests.{
  dispatch, on_session_hello, on_transport_bind, on_stream_open, on_stream_start,
}
use ghost_media.Session.Invariant.{IsSession}
use ghost_media.Session.Outcomes.{Means}
use ghost_media.Session.Runs.{Call, text, path, reported, step, after}
use ghost_media.Session.Protocol.{
  serve, reached, serve-Means, reached-IsSession, served_once, stream_needs_path,
}

abbrev uuid : List ℕ
uuid = codes "00112233-4455-6677-8899-aabbccddeeff" ++ 0 ∷ []

abbrev sample_id : List ℕ
sample_id = codes "00112233445566778899aabbccddeeff" ++ 0 ∷ []

-- The texts of a peer that opens a stream and starts it.
abbrev hello_text : Bytes
hello_text = memory (
    codes
      "{\"v\":1,\"id\":1,\"type\":\"session.hello\",\"role\":\"win-client\",\"client_name\":\"pc\",\"versions\":[1],\"udp_port\":5000}")

abbrev bind_text : Bytes
bind_text = memory (
    codes
      "{\"v\":1,\"id\":2,\"type\":\"transport.bind\",\"session_id\":\"00112233445566778899aabbccddeeff\",\"udp_port\":5000}")

abbrev open_text : Bytes
open_text = memory (
    codes
      "{\"v\":1,\"id\":3,\"type\":\"stream.open\",\"kind\":\"audio\",\"direction\":\"win_to_apple\",\"profile\":{\"codec\":\"opus\",\"sample_rate_hz\":48000,\"channels\":2,\"channel_layout\":\"stereo\",\"frames_per_packet\":480},\"playout_target_ms\":60}")

abbrev start_text : Bytes
start_text = memory (
    codes
      "{\"v\":1,\"id\":4,\"type\":\"stream.start\",\"stream_id\":1,\"first_media_timestamp\":\"4800\"}")

abbrev start_message : MessageInfo
start_message = record (empty_info 928) {
  kind = 4;
  id = 4;
  mutating = 1;
  stream_id = 1;
  type = codes "stream.start" ++ replicate 53 0;
  first_media_timestamp = codes "4800" ++ replicate 17 0;
}

abbrev config : SessionConfig
config = record {
  struct_size = 152;
  abi_version = 1;
  role = 1;
  apple_udp_port = 7000;
  stream_id = 0;
  key_epoch = 0;
  max_audio_subscribers = 1;
  playout_target_ms_min = 15;
  playout_target_ms_max = 120;
  output_available = 1;
  server_id = uuid;
  boot_id = uuid;
  session_id = sample_id;
}

abbrev fresh : Session
fresh = record {
  struct_size = 320;
  abi_version = 1;
  role = 1;
  state = 1;
  last_request_id = 0;
  windows_udp_port = 0;
  apple_udp_port = 7000;
  stream_id = 0;
  next_stream_id = 1;
  key_epoch = 0;
  initial_key_epoch = 1;
  last_rekey_epoch = 0;
  last_closed_stream_id = 0;
  playout_target_ms = 0;
  last_update_ns = 0;
  valid_requests = 0;
  rejected_requests = 0;
  actions_emitted = 0;
  state_conflicts = 0;
  protocol_errors = 0;
  streams_started = 0;
  streams_stopped = 0;
  streams_closed = 0;
  rekeys_committed = 0;
  path_validated = 0;
  output_available = 1;
  profile = empty_profile;
  server_id = uuid;
  boot_id = uuid;
  session_id = sample_id;
  first_media_timestamp = no_decimal;
}

abbrev old_session : Session
old_session = record fresh { state = 0; apple_udp_port = 1; next_stream_id = 9 }

abbrev no_action_yet : Action
no_action_yet = record {
  struct_size = 640;
  abi_version = 1;
  kind = 0;
  response_id = 0;
  status = ok;
  session_state = 0;
  udp_port = 0;
  stream_id = 0;
  key_epoch = 0;
  playout_target_ms = 0;
  packet_interval_us = 0;
  terminal = 0;
  profile = empty_profile;
  server_id = uuid;
  boot_id = uuid;
  session_id = sample_id;
  token = no_token;
  state = no_token;
  path_state = no_token;
  output_state = no_token;
  session_stream_state = no_token;
  transport_state = no_token;
  first_media_timestamp = no_decimal;
  monotonic_ns = no_decimal;
}

set_up : init (some config) (some old_session) ≡ record { status = ok; session = some fresh }
unfolding init is_lower_uuid_text is_lower_session_id_text copy_c_string
set_up = refl

-- A handshake up to an open stream whose path is validated.
abbrev opening : List Call
opening = text hello_text 10 ∷ text bind_text 20 ∷ text open_text 30 ∷ path 1 1 ∷ []

serve-Means_example :
    Means fresh
      (serve fresh no_action_yet hello_text 10)
      (serve fresh no_action_yet hello_text 10).status
serve-Means_example = serve-Means fresh no_action_yet hello_text 10

reached-IsSession_example : IsSession (reached fresh no_action_yet opening)
reached-IsSession_example =
    reached-IsSession config old_session fresh no_action_yet opening (omega arith) (omega arith)
      set_up

served_once_example :
    let first = serve fresh no_action_yet hello_text 10 in
    (serve (reached first.session first.action (path 1 1 ∷ [])) no_action_yet hello_text 50).status
    ≢ ok
served_once_example = served_once fresh no_action_yet no_action_yet hello_text 10 50 (path 1 1 ∷ [])

start_parsed : parse_message start_text ≡ parsed start_message
unfolding parse_message as_parsed parse_json after_character parse_name next_piece next_digit
    same_string find_member object_has_exact_keys get_required_u32 get_required_string is_text
    is_type_string begins_with stream_start_request is_decimal copy_string_field validate_request
start_parsed = refl

started : (serve (reached fresh no_action_yet opening) no_action_yet start_text 40).status ≡ ok
unfolding parse_message as_parsed parse_json after_character parse_name next_piece next_digit
    same_string find_member object_has_exact_keys get_required_u32 get_required_string is_text
    is_type_string begins_with stream_start_request is_decimal copy_string_field validate_request
    session_hello_request transport_bind_request stream_open_request is_lower_hex_session_id
    validate_versions parse_profile get_required_object get_required_array after step ingest_valid
    mark_valid active_stream_matches handle is_request dispatch on_session_hello on_transport_bind
    same_prefix on_stream_open on_stream_start
started = refl

stream_needs_path_example :
    reported opening start_message.stream_id (reached fresh no_action_yet opening).key_epoch ≡ true
stream_needs_path_example =
    stream_needs_path config old_session fresh no_action_yet no_action_yet opening start_text 40
      start_message set_up start_parsed refl started
