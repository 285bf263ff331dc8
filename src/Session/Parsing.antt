-- ===== src/Session/Parsing.antt =====
-- What the parser of shared/core/gm_control.cpp guarantees to the session.
use ghost_media.Base.{ℕ, refl, inl, inr, Bool, true, false, if◌then◌else◌, ◌≡◌, ◌≢◌, List, arith}
use ghost_media.Json.{Refusal, Answer, done, failed, JsonValue, Answer-cases}
use ghost_media.Message.{MessageInfo, parsed, stream_rekey, stream_stop, stream_close}
use ghost_media.Message.Access.{get_required_u32, get_required_object, get_required_string}
use ghost_media.Message.Fields.{copy_string_field}
use ghost_media.Text.{codes}
use ghost_media.Message.Profile.{validate_versions, is_text}
use ghost_media.Message.Request.{
  session_hello_request, transport_bind_request, stream_open_request, stream_start_request,
  stream_end_request, stream_rekey_request, status_get_request, ping_request, session_close_request,
  validate_request,
}
use ghost_media.Message.Response.{
  validate_error, hello_result, bind_result, open_result, rekey_result, stream_result, state_result,
  status_result, ping_result, any_result, validate_result,
}
use ghost_media.Message.Event.{
  stream_started_event, stream_stopped_event, output_state_event, session_expiring_event,
  validate_event,
}
use ghost_media.Message.Parse.{
  validate_numbered, validate_typed, validate_message, parse_message_impl, as_parsed, parse_message,
  empty_info, sizeof_control_message_info,
}
use ghost_media.Abi.{Bytes}
use ghost_media.Json.Parser.{parse_json}
use ghost_media.Session.Outcomes.{Refuses}
use ghost_media.Session.Invariant.{IsRequest}

ended :
    (type : List ℕ)
    → (if is_text type "stream.stop" then stream_stop else stream_close) ≢ stream_rekey
ended type = ground arith

nothing : {m : MessageInfo} {r : Refusal} → failed r ≡ done m → IsRequest m
nothing e = cc

either :
    {m : MessageInfo} (b : Bool) (x y : Answer MessageInfo)
    → (x ≡ done m → IsRequest m)
    → (y ≡ done m → IsRequest m)
    → (if b then x else y) ≡ done m
    → IsRequest m
either true x y p q = p
either false x y p q = q

module _ (root : JsonValue) (info m : MessageInfo) (fresh : info.key_epoch ≡ 0) where
  hello-IsRequest : session_hello_request root info ≡ done m → IsRequest m
  unfolding session_hello_request validate_versions
  hello-IsRequest e = ground (arith, e)

  bind-IsRequest : transport_bind_request root info ≡ done m → IsRequest m
  unfolding transport_bind_request
  bind-IsRequest e = ground (arith, e)

  open-IsRequest : stream_open_request root info ≡ done m → IsRequest m
  unfolding stream_open_request
  open-IsRequest e = ground (arith, e)

  start-IsRequest : stream_start_request root info ≡ done m → IsRequest m
  unfolding stream_start_request
  start-IsRequest e = ground (arith, e)

  status-IsRequest : status_get_request root info ≡ done m → IsRequest m
  unfolding status_get_request
  status-IsRequest e = ground (arith, e)

  ping-IsRequest : ping_request root info ≡ done m → IsRequest m
  unfolding ping_request
  ping-IsRequest e = ground (arith, e)

  session_close-IsRequest : session_close_request root info ≡ done m → IsRequest m
  unfolding session_close_request
  session_close-IsRequest e = ground (arith, e)

  end-IsRequest :
      (kind : ℕ) → kind ≢ stream_rekey → stream_end_request root info kind ≡ done m → IsRequest m
  unfolding stream_end_request
  end-IsRequest kind ne e = ground (arith, e, ne)

  rekey-IsRequest : stream_rekey_request root info ≡ done m → IsRequest m
  unfolding stream_rekey_request get_required_u32
  rekey-IsRequest e = ground (arith, e)

  hello_result-IsRequest : hello_result root info ≡ done m → IsRequest m
  unfolding hello_result
  hello_result-IsRequest e = ground (arith, e)

  bind_result-IsRequest : bind_result root info ≡ done m → IsRequest m
  unfolding bind_result
  bind_result-IsRequest e = ground (arith, e)

  open_result-IsRequest : open_result root info ≡ done m → IsRequest m
  unfolding open_result get_required_u32
  open_result-IsRequest e = ground (arith, e)

  rekey_result-IsRequest : rekey_result root info ≡ done m → IsRequest m
  unfolding rekey_result get_required_u32
  rekey_result-IsRequest e = ground (arith, e)

  stream_result-IsRequest : stream_result root info ≡ done m → IsRequest m
  unfolding stream_result
  stream_result-IsRequest e = ground (arith, e)

  state_result-IsRequest : state_result root info ≡ done m → IsRequest m
  unfolding state_result
  state_result-IsRequest e = ground (arith, e)

  status_result-IsRequest : status_result root info ≡ done m → IsRequest m
  unfolding status_result
  status_result-IsRequest e = ground (arith, e)

  ping_result-IsRequest : ping_result root info ≡ done m → IsRequest m
  unfolding ping_result
  ping_result-IsRequest e = ground (arith, e)

  any_result-IsRequest : any_result root info ≡ done m → IsRequest m
  unfolding any_result
  any_result-IsRequest = either _ _ _ hello_result-IsRequest (
      either _ _ _ bind_result-IsRequest (
        either _ _ _ open_result-IsRequest (
          either _ _ _ rekey_result-IsRequest (
            either _ _ _ stream_result-IsRequest (
              either _ _ _ state_result-IsRequest (
                either _ _ _ status_result-IsRequest
                  (either _ _ _ ping_result-IsRequest nothing)))))))

  validate_error-IsRequest : validate_error root info ≡ done m → IsRequest m
  unfolding validate_error
  validate_error-IsRequest e = ground (arith, e)

  stream_started-IsRequest : stream_started_event root info ≡ done m → IsRequest m
  unfolding stream_started_event
  stream_started-IsRequest e = ground (arith, e)

  stream_stopped-IsRequest : stream_stopped_event root info ≡ done m → IsRequest m
  unfolding stream_stopped_event
  stream_stopped-IsRequest e = ground (arith, e)

  output_state-IsRequest : output_state_event root info ≡ done m → IsRequest m
  unfolding output_state_event
  output_state-IsRequest e = ground (arith, e)

  session_expiring-IsRequest : session_expiring_event root info ≡ done m → IsRequest m
  unfolding session_expiring_event
  session_expiring-IsRequest e = ground (arith, e)

  validate_event-IsRequest : (type : List ℕ) → validate_event root info type ≡ done m → IsRequest m
  unfolding validate_event
  validate_event-IsRequest type = either _ _ _ stream_started-IsRequest (
      either _ _ _ stream_stopped-IsRequest
        (either _ _ _ output_state-IsRequest (either _ _ _ session_expiring-IsRequest nothing)))

  validate_request-IsRequest :
      (type : List ℕ) → validate_request root info type ≡ done m → IsRequest m
  unfolding validate_request
  validate_request-IsRequest type = either _ _ _ hello-IsRequest (
      either _ _ _ bind-IsRequest (
        either _ _ _ open-IsRequest (
          either _ _ _ start-IsRequest (
            either _ _ _ (end-IsRequest _ (ended type)) (
              either _ _ _ rekey-IsRequest (
                either _ _ _ status-IsRequest
                  (either _ _ _ ping-IsRequest (either _ _ _ session_close-IsRequest nothing))))))))

module _ (root : JsonValue) (info m : MessageInfo) (fresh : info.key_epoch ≡ 0) where
  validate_result-IsRequest : validate_result root info ≡ done m → IsRequest m
  unfolding validate_result
  validate_result-IsRequest e = elim (Answer-cases (get_required_object root (codes "result"))) [
    | inl (result, found) ↦ ground (arith, e, found, any_result-IsRequest result info m fresh)
    | inr (r, found) ↦ ground (arith, e, found)
  ]

module _ (root : JsonValue) (info m : MessageInfo) (fresh : info.key_epoch ≡ 0) where
  validate_numbered-IsRequest :
      (type : List ℕ) → validate_numbered root type info ≡ done m → IsRequest m
  unfolding validate_numbered
  validate_numbered-IsRequest type e =
      grind
        (arith, e, validate_result-IsRequest, validate_error-IsRequest, validate_request-IsRequest)

  validate_typed-IsRequest : (type : List ℕ) → validate_typed root type info ≡ done m → IsRequest m
  unfolding validate_typed
  validate_typed-IsRequest type =
      either _ _ _ (validate_event-IsRequest root info m fresh type)
        (validate_numbered-IsRequest type)

validate_message-IsRequest :
    (json_text : Bytes) (root : JsonValue) (m : MessageInfo)
    → validate_message json_text sizeof_control_message_info root ≡ done m
    → IsRequest m
unfolding validate_message
validate_message-IsRequest json_text root m e =
    elim (Answer-cases (get_required_string root (codes "type"))) [
      | inl (type, found) ↦
          let info : MessageInfo = record (empty_info sizeof_control_message_info) {
            type = copy_string_field 65 type;
          } in
          ground (arith, e, found, validate_typed-IsRequest root info m refl type)
      | inr (r, found) ↦ ground (arith, e, found)
    ]

-- Every text that parses gives a message with a key epoch of 32 bits, which is not 0 if it asks
-- for a rekey.
pub parse_message-IsRequest :
    (json_text : Bytes) (m : MessageInfo) → parse_message json_text ≡ parsed m → IsRequest m
unfolding parse_message as_parsed parse_message_impl
parse_message-IsRequest json_text m e = elim (Answer-cases (parse_json json_text)) [
  | inl (root, found) ↦ ground (arith, e, found, validate_message-IsRequest json_text root m)
  | inr (r, found) ↦ ground (arith, e, found)
]

pub parse_message-Refuses : Refuses parse_message
unfolding parse_message as_parsed
parse_message-Refuses json_text status e = ground (arith, e)
