-- ===== src/Message/Response.antt =====
-- `validate_error` and `validate_result` of shared/core/gm_control.cpp; a function for each shape of
-- a result.
use ghost_media.Base.{ℕ, List, [], ◌∷◌, leb, ◌==◌, if◌then◌else◌, length}
use ghost_media.Text.{codes}
use ghost_media.Json.{malformed, Answer, done, failed, ◌>>=◌, ◌>>◌, demand, JsonValue}
use ghost_media.Message.{MessageInfo, response_result, response_error}
use ghost_media.Message.Access.{
  object_has_exact_keys, get_required_string, get_required_object, get_required_bool,
  get_required_u32,
}
use ghost_media.Message.Fields.{
  copy_string_field, is_lower_hex_session_id, is_lower_uuid, is_decimal, is_token, is_reason_string,
  is_endpoint_state, is_known_error_code,
}
use ghost_media.Message.Profile.{
  is_text, u32_max, parse_profile, validate_capabilities, validate_limits,
}

module _ (root : JsonValue) (info : MessageInfo) where
  unfoldable pub validate_error : Answer MessageInfo
  validate_error = do
    demand (object_has_exact_keys root (codes "v" ∷ codes "id" ∷ codes "type" ∷ codes "error" ∷ []))
        malformed
    error ← get_required_object root (codes "error")
    demand (object_has_exact_keys error (codes "code" ∷ codes "message" ∷ codes "retryable" ∷ []))
        malformed
    code ← get_required_string error (codes "code")
    demand (is_known_error_code code) malformed
    message ← get_required_string error (codes "message")
    demand (leb (length message) 256) malformed
    retryable ← get_required_bool error (codes "retryable")
    done (record info { kind = response_error })

-- The shapes of `result`, each with its keys and what it checks.
module _ (result : JsonValue) (info : MessageInfo) where
  abbrev hello_keys : List (List ℕ)
  hello_keys =
      codes "version"
      ∷ codes "role"
      ∷ codes "server_id"
      ∷ codes "session_id"
      ∷ codes "boot_id"
      ∷ codes "udp_port"
      ∷ codes "capabilities"
      ∷ codes "limits"
      ∷ []

  unfoldable pub hello_result : Answer MessageInfo
  hello_result = do
    version ← get_required_u32 result (codes "version") 1 255
    demand (version == 1) malformed
    role ← get_required_string result (codes "role")
    demand (is_text role "apple-output-server") malformed
    server_id ← get_required_string result (codes "server_id")
    demand (is_lower_uuid server_id) malformed
    session_id ← get_required_string result (codes "session_id")
    demand (is_lower_hex_session_id session_id) malformed
    boot_id ← get_required_string result (codes "boot_id")
    demand (is_lower_uuid boot_id) malformed
    udp_port ← get_required_u32 result (codes "udp_port") 1 65535
    capabilities ← get_required_object result (codes "capabilities")
    validate_capabilities capabilities
    limits ← get_required_object result (codes "limits")
    validate_limits limits
    done (record info {
      udp_port = udp_port;
      kind = response_result;
      role = copy_string_field 33 role;
      server_id = copy_string_field 37 server_id;
      boot_id = copy_string_field 37 boot_id;
      session_id = copy_string_field 33 session_id;
    })

  unfoldable pub bind_result : Answer MessageInfo
  bind_result = do
    udp_port ← get_required_u32 result (codes "udp_port") 1 65535
    path_state ← get_required_string result (codes "path_state")
    demand (is_text path_state "bound") malformed
    done (record info {
      udp_port = udp_port;
      path_state = copy_string_field 65 path_state;
      kind = response_result;
    })

  unfoldable pub open_result : Answer MessageInfo
  open_result = do
    stream_id ← get_required_u32 result (codes "stream_id") 1 u32_max
    key_epoch ← get_required_u32 result (codes "key_epoch") 1 u32_max
    profile ← get_required_object result (codes "profile")
    audio ← parse_profile profile
    packet_interval_us ← get_required_u32 result (codes "packet_interval_us") 0 u32_max
    path_state ← get_required_string result (codes "path_state")
    demand (is_text path_state "probing") malformed
    demand (packet_interval_us == audio.packet_interval_us) malformed
    done (record info {
      stream_id = stream_id;
      key_epoch = key_epoch;
      profile = audio;
      path_state = copy_string_field 65 path_state;
      kind = response_result;
    })

  -- A state, with the stream and the epoch where they are given.
  abbrev state_result_of : MessageInfo → Answer MessageInfo
  state_result_of read = do
    state ← get_required_string result (codes "state")
    demand (is_reason_string state) malformed
    done (record read { state = copy_string_field 65 state; kind = response_result })

  unfoldable pub rekey_result : Answer MessageInfo
  rekey_result = do
    stream_id ← get_required_u32 result (codes "stream_id") 1 u32_max
    key_epoch ← get_required_u32 result (codes "key_epoch") 1 u32_max
    state_result_of (record info { stream_id = stream_id; key_epoch = key_epoch })

  unfoldable pub stream_result : Answer MessageInfo
  stream_result = do
    stream_id ← get_required_u32 result (codes "stream_id") 1 u32_max
    state_result_of (record info { stream_id = stream_id })

  unfoldable pub state_result : Answer MessageInfo
  state_result = state_result_of info

  unfoldable pub status_result : Answer MessageInfo
  status_result = do
    output_state ← get_required_string result (codes "output_state")
    demand (is_endpoint_state output_state) malformed
    session_stream_state ← get_required_string result (codes "session_stream_state")
    demand (is_reason_string session_stream_state) malformed
    transport_state ← get_required_string result (codes "transport_state")
    demand (is_reason_string transport_state) malformed
    feedback_age_ms ← get_required_u32 result (codes "feedback_age_ms") 0 6000
    done (record info {
      output_state = copy_string_field 65 output_state;
      session_stream_state = copy_string_field 65 session_stream_state;
      transport_state = copy_string_field 65 transport_state;
      kind = response_result;
    })

  unfoldable pub ping_result : Answer MessageInfo
  ping_result = do
    token ← get_required_string result (codes "token")
    demand (is_token token) malformed
    monotonic_ns ← get_required_string result (codes "monotonic_ns")
    demand (is_decimal monotonic_ns) malformed
    done (record info {
      token = copy_string_field 65 token;
      monotonic_ns = copy_string_field 21 monotonic_ns;
      kind = response_result;
    })

  unfoldable pub any_result : Answer MessageInfo
  unfolding hello_result bind_result open_result rekey_result stream_result state_result
      status_result ping_result
  any_result =
      if object_has_exact_keys result hello_keys
      then hello_result
      else if object_has_exact_keys result (codes "udp_port" ∷ codes "path_state" ∷ [])
      then bind_result
      else if object_has_exact_keys result (
          codes "stream_id"
          ∷ codes "key_epoch"
          ∷ codes "profile"
          ∷ codes "packet_interval_us"
          ∷ codes "path_state"
          ∷ [])
      then open_result
      else if object_has_exact_keys result
          (codes "stream_id" ∷ codes "key_epoch" ∷ codes "state" ∷ [])
      then rekey_result
      else if object_has_exact_keys result (codes "stream_id" ∷ codes "state" ∷ [])
      then stream_result
      else if object_has_exact_keys result (codes "state" ∷ [])
      then state_result
      else if object_has_exact_keys result (
          codes "output_state"
          ∷ codes "session_stream_state"
          ∷ codes "transport_state"
          ∷ codes "feedback_age_ms"
          ∷ [])
      then status_result
      else if object_has_exact_keys result (codes "token" ∷ codes "monotonic_ns" ∷ [])
      then ping_result
      else failed malformed

unfoldable pub validate_result : JsonValue → MessageInfo → Answer MessageInfo
unfolding any_result
validate_result root info = do
  demand (object_has_exact_keys root (codes "v" ∷ codes "id" ∷ codes "type" ∷ codes "result" ∷ []))
      malformed
  result ← get_required_object root (codes "result")
  any_result result info
