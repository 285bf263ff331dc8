-- ===== src/Message/Event.antt =====
-- `validate_event` of shared/core/gm_control.cpp, one function for each type of event.
use ghost_media.Base.{ℕ, List, [], ◌∷◌, if◌then◌else◌}
use ghost_media.Text.{codes}
use ghost_media.Json.{malformed, Answer, done, failed, ◌>>=◌, ◌>>◌, demand, JsonValue}
use ghost_media.Message.{
  MessageInfo, event_stream_started, event_stream_stopped, event_output_state,
  event_session_expiring,
}
use ghost_media.Message.Access.{object_has_exact_keys, get_required_string, get_required_u32}
use ghost_media.Message.Fields.{copy_string_field, is_decimal, is_reason_string, is_endpoint_state}
use ghost_media.Message.Profile.{is_text, u32_max}

module _ (root : JsonValue) (info : MessageInfo) where
  unfoldable pub stream_started_event : Answer MessageInfo
  stream_started_event = do
    demand
        (object_has_exact_keys root
          (codes "v" ∷ codes "type" ∷ codes "stream_id" ∷ codes "first_media_timestamp" ∷ []))
        malformed
    stream_id ← get_required_u32 root (codes "stream_id") 1 u32_max
    first_media_timestamp ← get_required_string root (codes "first_media_timestamp")
    demand (is_decimal first_media_timestamp) malformed
    done (record info {
      stream_id = stream_id;
      kind = event_stream_started;
      first_media_timestamp = copy_string_field 21 first_media_timestamp;
    })

  unfoldable pub stream_stopped_event : Answer MessageInfo
  stream_stopped_event = do
    demand
        (object_has_exact_keys root
          (codes "v" ∷ codes "type" ∷ codes "stream_id" ∷ codes "reason" ∷ []))
        malformed
    stream_id ← get_required_u32 root (codes "stream_id") 1 u32_max
    reason ← get_required_string root (codes "reason")
    demand (is_reason_string reason) malformed
    done (record info {
      stream_id = stream_id;
      kind = event_stream_stopped;
      has_reason = 1;
      reason = copy_string_field 65 reason;
    })

  unfoldable pub output_state_event : Answer MessageInfo
  output_state_event = do
    demand
        (object_has_exact_keys root
          (codes "v" ∷ codes "type" ∷ codes "state" ∷ codes "reason" ∷ []))
        malformed
    state ← get_required_string root (codes "state")
    demand (is_endpoint_state state) malformed
    reason ← get_required_string root (codes "reason")
    demand (is_reason_string reason) malformed
    done (record info {
      kind = event_output_state;
      has_reason = 1;
      state = copy_string_field 65 state;
      reason = copy_string_field 65 reason;
    })

  unfoldable pub session_expiring_event : Answer MessageInfo
  session_expiring_event = do
    demand
        (object_has_exact_keys root
          (codes "v" ∷ codes "type" ∷ codes "reason" ∷ codes "deadline_monotonic_ns" ∷ []))
        malformed
    reason ← get_required_string root (codes "reason")
    demand (is_reason_string reason) malformed
    deadline_monotonic_ns ← get_required_string root (codes "deadline_monotonic_ns")
    demand (is_decimal deadline_monotonic_ns) malformed
    done (record info {
      kind = event_session_expiring;
      has_reason = 1;
      reason = copy_string_field 65 reason;
      monotonic_ns = copy_string_field 21 deadline_monotonic_ns;
    })

  unfoldable pub validate_event : List ℕ → Answer MessageInfo
  unfolding stream_started_event stream_stopped_event output_state_event session_expiring_event
  validate_event type =
      if is_text type "event.stream.started"
      then stream_started_event
      else if is_text type "event.stream.stopped"
      then stream_stopped_event
      else if is_text type "event.output.state"
      then output_state_event
      else if is_text type "event.session.expiring"
      then session_expiring_event
      else failed malformed
