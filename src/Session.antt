-- ===== src/Session.antt =====
-- The control session of shared/core/gm_state.cpp: its state, and the helpers that fill an action
-- and count. The requests and the entry points stand in the child modules.
pub mod Decimal
pub mod Requests
pub mod Ingest
pub mod Cases
pub mod Invariant
pub mod Outcomes
pub mod Effects
pub mod Runs
pub mod Parsing
pub mod Protocol
use ghost_media.Base.{
  ℕ, ◌+◌, ◌%◌, ◌^◌, Bool, true, false, not, ◌&&◌, ◌||◌, Option, none, some, List, ltb, leb, ◌==◌,
  if◌then◌else◌, replicate,
}
use ghost_media.Abi.{
  Status, ok, bad_argument, bad_message, state_conflict, abi_version, sizeof_audio_profile,
  sizeof_control_session, sizeof_control_session_config, sizeof_control_action,
}
use ghost_media.Audio.{AudioProfile}
use ghost_media.Text.{copy_c_string, is_lower_uuid_text, is_lower_session_id_text}

pub record SessionConfig : Type 0 where
  pub struct_size : ℕ
  pub abi_version : ℕ
  pub role : ℕ
  pub apple_udp_port : ℕ
  pub stream_id : ℕ
  pub key_epoch : ℕ
  pub max_audio_subscribers : ℕ
  pub playout_target_ms_min : ℕ
  pub playout_target_ms_max : ℕ
  pub output_available : ℕ
  pub server_id : List ℕ
  pub boot_id : List ℕ
  pub session_id : List ℕ

pub record Session : Type 0 where
  pub struct_size : ℕ
  pub abi_version : ℕ
  pub role : ℕ
  pub state : ℕ
  pub last_request_id : ℕ
  pub windows_udp_port : ℕ
  pub apple_udp_port : ℕ
  pub stream_id : ℕ
  pub next_stream_id : ℕ
  pub key_epoch : ℕ
  pub initial_key_epoch : ℕ
  pub last_rekey_epoch : ℕ
  pub last_closed_stream_id : ℕ
  pub playout_target_ms : ℕ
  pub last_update_ns : ℕ
  pub valid_requests : ℕ
  pub rejected_requests : ℕ
  pub actions_emitted : ℕ
  pub state_conflicts : ℕ
  pub protocol_errors : ℕ
  pub streams_started : ℕ
  pub streams_stopped : ℕ
  pub streams_closed : ℕ
  pub rekeys_committed : ℕ
  pub path_validated : ℕ
  pub output_available : ℕ
  pub profile : AudioProfile
  pub server_id : List ℕ
  pub boot_id : List ℕ
  pub session_id : List ℕ
  pub first_media_timestamp : List ℕ

pub record Action : Type 0 where
  pub struct_size : ℕ
  pub abi_version : ℕ
  pub kind : ℕ
  pub response_id : ℕ
  pub status : Status
  pub session_state : ℕ
  pub udp_port : ℕ
  pub stream_id : ℕ
  pub key_epoch : ℕ
  pub playout_target_ms : ℕ
  pub packet_interval_us : ℕ
  pub terminal : ℕ
  pub profile : AudioProfile
  pub server_id : List ℕ
  pub boot_id : List ℕ
  pub session_id : List ℕ
  pub token : List ℕ
  pub state : List ℕ
  pub path_state : List ℕ
  pub output_state : List ℕ
  pub session_stream_state : List ℕ
  pub transport_state : List ℕ
  pub first_media_timestamp : List ℕ
  pub monotonic_ns : List ℕ

-- The states, in the order of their numbers.
abbrev pub closed : ℕ
closed = 0

abbrev pub tls_ready : ℕ
tls_ready = 1

abbrev pub hello : ℕ
hello = 2

abbrev pub bound : ℕ
bound = 3

abbrev pub stream_opened : ℕ
stream_opened = 4

abbrev pub streaming : ℕ
streaming = 5

-- The kinds of actions.
abbrev pub no_action : ℕ
no_action = 0

abbrev pub path_validated_action : ℕ
path_validated_action = 20

abbrev pub send_error_result : ℕ
send_error_result = 100

abbrev pub send_error_close : ℕ
send_error_close = 101

-- `++counter` on uint64_t.
abbrev pub incr64 : ℕ → ℕ
incr64 counter = (counter + 1) % 2 ^ 64

-- `char[65]` and `char[21]` fields after `memset`.
abbrev pub no_token : List ℕ
no_token = replicate 65 0

abbrev pub no_decimal : List ℕ
no_decimal = replicate 21 0

unfoldable pub fill_action : Action → Session → ℕ → ℕ → Status → ℕ → Action
fill_action action session kind response_id status terminal = record {
  struct_size = action.struct_size;
  abi_version = abi_version;
  kind = kind;
  response_id = response_id;
  status = status;
  session_state = session.state;
  udp_port = session.apple_udp_port;
  stream_id = session.stream_id;
  key_epoch = session.key_epoch;
  playout_target_ms = session.playout_target_ms;
  packet_interval_us = session.profile.packet_interval_us;
  terminal = terminal;
  profile = session.profile;
  server_id = copy_c_string 37 session.server_id;
  boot_id = copy_c_string 37 session.boot_id;
  session_id = copy_c_string 33 session.session_id;
  token = no_token;
  state = no_token;
  path_state = no_token;
  output_state = no_token;
  session_stream_state = no_token;
  transport_state = no_token;
  first_media_timestamp = copy_c_string 21 session.first_media_timestamp;
  monotonic_ns = no_decimal;
}

-- What an operation leaves: its status, the session and the action.
pub record Outcome : Type 0 where
  pub status : Status
  pub session : Session
  pub action : Action

abbrev pub is_conflict : Status → Bool
is_conflict state_conflict = true
is_conflict _ = false

-- The error counters.
unfoldable pub count_error : Session → Status → Session
count_error session status =
    if is_conflict status
    then record session {
      state_conflicts = incr64 session.state_conflicts;
      rejected_requests = incr64 session.rejected_requests;
    }
    else record session {
      protocol_errors = incr64 session.protocol_errors;
      rejected_requests = incr64 session.rejected_requests;
    }

-- `fill_error_action`, and the return of its status that follows each call.
unfoldable pub fill_error_action : Session → Action → ℕ → Status → Bool → Outcome
unfolding count_error fill_action
fill_error_action session action response_id status close_session =
    let counted = count_error session status in
    let left = if close_session then record counted { state = closed } else counted in
    record {
      status = status;
      session = record left { actions_emitted = incr64 left.actions_emitted };
      action =
          fill_action action left (if close_session then send_error_close else send_error_result)
            response_id status (if close_session then 1 else 0);
    }

unfoldable pub reject_conflict : Session → Action → ℕ → Outcome
unfolding fill_error_action
reject_conflict session action response_id =
    fill_error_action session action response_id state_conflict false

-- `commit_action`; the caller of it returns GM_OK.
unfoldable pub commit_action : Session → Action → ℕ → ℕ → Outcome
unfolding fill_action
commit_action session action kind message_id =
    let counted = record session { valid_requests = incr64 session.valid_requests } in
    record {
      status = ok;
      session = record counted { actions_emitted = incr64 counted.actions_emitted };
      action =
          fill_action action counted kind message_id ok (if counted.state == closed then 1 else 0);
    }

abbrev pub is_open : ℕ → Bool
is_open state = state == stream_opened || state == streaming

unfoldable pub active_stream_matches : Session → ℕ → Bool
active_stream_matches session stream_id =
    not (session.stream_id == 0) && session.stream_id == stream_id && is_open session.state

abbrev pub same_profile : AudioProfile → AudioProfile → Bool
same_profile left right =
    left.codec == right.codec
    && left.sample_rate_hz == right.sample_rate_hz
    && left.channels == right.channels
    && left.frames_per_packet == right.frames_per_packet
    && left.channel_layout == right.channel_layout
    && left.packet_interval_us == right.packet_interval_us
    && left.payload_bytes == right.payload_bytes

-- `stream_id_or_default` and `key_epoch_or_default`.
abbrev pub or_one : ℕ → ℕ
or_one configured = if configured == 0 then 1 else configured

-- A profile after `memset`, with its size and version.
abbrev pub empty_profile : AudioProfile
empty_profile = record {
  struct_size = sizeof_audio_profile;
  abi_version = abi_version;
  codec = 0;
  sample_rate_hz = 0;
  channels = 0;
  frames_per_packet = 0;
  channel_layout = 0;
  packet_interval_us = 0;
  payload_bytes = 0;
}

abbrev pub apple_output_server : ℕ
apple_output_server = 1

-- The ranges of the second test of `gm_control_session_init`.
unfoldable pub is_valid_config : SessionConfig → Bool
is_valid_config c =
    c.role == apple_output_server
    && not (c.apple_udp_port == 0)
    && leb c.apple_udp_port 65535
    && not (c.max_audio_subscribers == 0)
    && leb c.playout_target_ms_min c.playout_target_ms_max
    && leb 15 c.playout_target_ms_min
    && leb c.playout_target_ms_max 120
    && leb c.output_available 1
    && is_lower_uuid_text c.server_id
    && is_lower_uuid_text c.boot_id
    && is_lower_session_id_text c.session_id

unfoldable pub initial_session : (caller_size : ℕ) → SessionConfig → Session
initial_session caller_size c = record {
  struct_size = caller_size;
  abi_version = abi_version;
  role = c.role;
  state = tls_ready;
  last_request_id = 0;
  windows_udp_port = 0;
  apple_udp_port = c.apple_udp_port;
  stream_id = 0;
  next_stream_id = or_one c.stream_id;
  key_epoch = 0;
  initial_key_epoch = or_one c.key_epoch;
  last_rekey_epoch = 0;
  last_closed_stream_id = 0;
  playout_target_ms = 0;
  last_update_ns = 0;
  valid_requests = 0;
  rejected_requests = 0;
  actions_emitted = 0;
  state_conflicts = 0;
  protocol_errors = 0;
  streams_started = 0;
  streams_stopped = 0;
  streams_closed = 0;
  rekeys_committed = 0;
  path_validated = 0;
  output_available = c.output_available;
  profile = empty_profile;
  server_id = copy_c_string 37 c.server_id;
  boot_id = copy_c_string 37 c.boot_id;
  session_id = copy_c_string 33 c.session_id;
  first_media_timestamp = no_decimal;
}

pub record InitResult : Type 0 where
  pub status : Status
  pub session : Option Session

unfoldable pub init : Option SessionConfig → Option Session → InitResult
unfolding is_valid_config initial_session
init none session = record { status = bad_argument; session = session }
init (some c) none = record { status = bad_argument; session = none }
init (some c) (some s) =
    if ltb c.struct_size sizeof_control_session_config
      || ltb s.struct_size sizeof_control_session
      || not (c.abi_version == abi_version)
    then record { status = bad_argument; session = some s }
    else if not (is_valid_config c)
    then record { status = bad_argument; session = some s }
    else record { status = ok; session = some (initial_session s.struct_size c) }
