-- ===== src/Message/Request.antt =====
-- `validate_request` of shared/core/gm_control.cpp, one function for each type of request.
use ghost_media.Base.{ℕ, ◌||◌, Option, none, some, List, [], ◌∷◌, leb, if◌then◌else◌, length}
use ghost_media.Text.{codes}
use ghost_media.Json.{malformed, Answer, done, failed, ◌>>=◌, ◌>>◌, demand, JsonValue}
use ghost_media.Message.{
  MessageInfo, session_hello, transport_bind, stream_open, stream_start, stream_stop, stream_close,
  stream_rekey, status_get, ping, session_close,
}
use ghost_media.Message.Access.{
  find_member, object_has_exact_keys, get_required_string, get_required_object, get_required_array,
  get_required_u32, get_optional_string,
}
use ghost_media.Message.Fields.{
  copy_string_field, is_lower_hex_session_id, is_decimal, is_token, is_reason_string,
}
use ghost_media.Message.Profile.{is_text, u32_max, parse_profile, validate_versions}

-- The keys that every request has.
abbrev pub with_keys : List (List ℕ) → List (List ℕ)
with_keys keys = codes "v" ∷ codes "id" ∷ codes "type" ∷ keys

module _ (root : JsonValue) (info : MessageInfo) where
  unfoldable pub session_hello_request : Answer MessageInfo
  unfolding object_has_exact_keys
  session_hello_request = do
    demand
        (object_has_exact_keys root (
          with_keys
            (codes "role" ∷ codes "client_name" ∷ codes "versions" ∷ codes "udp_port" ∷ [])))
        malformed
    role ← get_required_string root (codes "role")
    demand (is_text role "win-client") malformed
    client_name ← get_required_string root (codes "client_name")
    demand (leb (length client_name) 128) malformed
    versions ← get_required_array root (codes "versions")
    udp_port ← get_required_u32 root (codes "udp_port") 1 65535
    checked ← validate_versions versions (record info { udp_port = udp_port })
    done (record checked {
      kind = session_hello;
      mutating = 1;
      role = copy_string_field 33 role;
      client_name = copy_string_field 129 client_name;
    })

  unfoldable pub transport_bind_request : Answer MessageInfo
  transport_bind_request = do
    demand (object_has_exact_keys root (with_keys (codes "session_id" ∷ codes "udp_port" ∷ [])))
        malformed
    session_id ← get_required_string root (codes "session_id")
    demand (is_lower_hex_session_id session_id) malformed
    udp_port ← get_required_u32 root (codes "udp_port") 1 65535
    done (record info {
      udp_port = udp_port;
      kind = transport_bind;
      mutating = 1;
      session_id = copy_string_field 33 session_id;
    })

  unfoldable pub stream_open_request : Answer MessageInfo
  stream_open_request = do
    demand
        (object_has_exact_keys root (
          with_keys
            (codes "kind" ∷ codes "direction" ∷ codes "profile" ∷ codes "playout_target_ms" ∷ [])))
        malformed
    kind ← get_required_string root (codes "kind")
    demand (is_text kind "audio") malformed
    direction ← get_required_string root (codes "direction")
    demand (is_text direction "win_to_apple") malformed
    profile ← get_required_object root (codes "profile")
    playout_target_ms ← get_required_u32 root (codes "playout_target_ms") 15 120
    audio ← parse_profile profile
    done (record info {
      playout_target_ms = playout_target_ms;
      profile = audio;
      kind = stream_open;
      mutating = 1;
    })

  unfoldable pub stream_start_request : Answer MessageInfo
  stream_start_request = do
    demand
        (object_has_exact_keys root
          (with_keys (codes "stream_id" ∷ codes "first_media_timestamp" ∷ [])))
        malformed
    stream_id ← get_required_u32 root (codes "stream_id") 1 u32_max
    first_media_timestamp ← get_required_string root (codes "first_media_timestamp")
    demand (is_decimal first_media_timestamp) malformed
    done (record info {
      stream_id = stream_id;
      kind = stream_start;
      mutating = 1;
      first_media_timestamp = copy_string_field 21 first_media_timestamp;
    })

  -- `stream.stop` and `stream.close`, by their kinds.
  unfoldable pub stream_end_request : ℕ → Answer MessageInfo
  stream_end_request kind = do
    demand (object_has_exact_keys root (with_keys (codes "stream_id" ∷ []))) malformed
    stream_id ← get_required_u32 root (codes "stream_id") 1 u32_max
    done (record info { stream_id = stream_id; kind = kind; mutating = 1 })

  unfoldable pub stream_rekey_request : Answer MessageInfo
  stream_rekey_request = do
    demand (object_has_exact_keys root (with_keys (codes "stream_id" ∷ codes "key_epoch" ∷ [])))
        malformed
    stream_id ← get_required_u32 root (codes "stream_id") 1 u32_max
    key_epoch ← get_required_u32 root (codes "key_epoch") 1 u32_max
    done (record info {
      stream_id = stream_id;
      key_epoch = key_epoch;
      kind = stream_rekey;
      mutating = 1;
    })

  unfoldable pub status_get_request : Answer MessageInfo
  status_get_request = do
    demand (object_has_exact_keys root (with_keys [])) malformed
    done (record info { kind = status_get; mutating = 0 })

  unfoldable pub ping_request : Answer MessageInfo
  ping_request = do
    demand (object_has_exact_keys root (with_keys (codes "token" ∷ []))) malformed
    token ← get_required_string root (codes "token")
    demand (is_token token) malformed
    done (record info { kind = ping; mutating = 0; token = copy_string_field 65 token })

  abbrev with_reason : Option (List ℕ) → Answer MessageInfo
  with_reason none = done info
  with_reason (some reason) = do
    demand (is_reason_string reason) malformed
    done (record info { has_reason = 1; reason = copy_string_field 65 reason })

  abbrev reason_keys : Option JsonValue → List (List ℕ)
  reason_keys none = with_keys []
  reason_keys (some v) = with_keys (codes "reason" ∷ [])

  unfoldable pub session_close_request : Answer MessageInfo
  session_close_request = do
    demand (object_has_exact_keys root (reason_keys (find_member root (codes "reason")))) malformed
    reason ← get_optional_string root (codes "reason")
    explained ← with_reason reason
    done (record explained { kind = session_close; mutating = 1 })

  unfoldable pub validate_request : List ℕ → Answer MessageInfo
  unfolding session_hello_request transport_bind_request stream_open_request stream_start_request
      stream_end_request stream_rekey_request status_get_request ping_request session_close_request
  validate_request type =
      if is_text type "session.hello"
      then session_hello_request
      else if is_text type "transport.bind"
      then transport_bind_request
      else if is_text type "stream.open"
      then stream_open_request
      else if is_text type "stream.start"
      then stream_start_request
      else if is_text type "stream.stop" || is_text type "stream.close"
      then stream_end_request (if is_text type "stream.stop" then stream_stop else stream_close)
      else if is_text type "stream.rekey"
      then stream_rekey_request
      else if is_text type "status.get"
      then status_get_request
      else if is_text type "ping"
      then ping_request
      else if is_text type "session.close"
      then session_close_request
      else failed malformed
