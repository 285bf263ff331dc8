-- ===== src/Session/Ingest.antt =====
-- The entry points of the control session in shared/core/gm_state.cpp.
use ghost_media.Base.{
  ℕ, Bool, true, false, not, ◌&&◌, ◌||◌, Option, none, some, ltb, leb, ◌==◌, if◌then◌else◌,
}
use ghost_media.Abi.{
  Status, ok, bad_argument, bad_message, state_conflict, Bytes, abi_version, sizeof_control_session,
  sizeof_control_action, sizeof_control_metrics,
}
use ghost_media.Message.{MessageInfo, Parsed, parsed, refused, session_hello, session_close}
use ghost_media.Session.{
  Session, Action, Outcome, closed, tls_ready, incr64, no_action, path_validated_action,
  fill_action, fill_error_action, reject_conflict, active_stream_matches,
}
use ghost_media.Session.Requests.{dispatch, literal}

-- `ensure_request`: the message must be a request with a higher number than the last one.
unfoldable pub is_request : Session → MessageInfo → Bool
is_request s m = leb session_hello m.kind && leb m.kind session_close && ltb s.last_request_id m.id

-- The part of `gm_control_session_ingest` behind the parser.
unfoldable pub handle : Session → Action → MessageInfo → ℕ → Outcome
handle s a m now_ns =
    if not (is_request s m)
    then fill_error_action s a m.id bad_message true
    else (let seen = record s { last_request_id = m.id; last_update_ns = now_ns } in
        if not (m.kind == session_hello) && seen.state == tls_ready
        then reject_conflict seen a m.id
        else dispatch seen a m now_ns)

pub record IngestResult : Type 0 where
  pub status : Status
  pub session : Option Session
  pub action : Option Action

abbrev pub returned : Outcome → IngestResult
returned o = record { status = o.status; session = some o.session; action = some o.action }

abbrev pub is_valid_pair : Session → Action → Bool
is_valid_pair s a =
    leb sizeof_control_session s.struct_size
    && leb sizeof_control_action a.struct_size
    && s.abi_version == abi_version

module _ (parse_message : Bytes → Parsed) where
  -- Behind the argument checks.
  unfoldable pub ingest_valid : Session → Action → Bytes → ℕ → Outcome
  ingest_valid s a json_text now_ns =
      let cleared = fill_action a s no_action 0 ok 0 in
      if s.state == closed
      then fill_error_action s cleared 0 state_conflict false
      else elim (parse_message json_text) [
        | refused status ↦ fill_error_action s cleared 0 status true
        | parsed m ↦ handle s cleared m now_ns
      ]

  unfoldable pub ingest : Option Session → Bytes → ℕ → Option Action → IngestResult
  ingest none json_text now_ns action = record {
    status = bad_argument;
    session = none;
    action = action;
  }
  ingest (some s) json_text now_ns none = record {
    status = bad_argument;
    session = some s;
    action = none;
  }
  ingest (some s) json_text now_ns (some a) =
      if is_valid_pair s a
      then returned (ingest_valid s a json_text now_ns)
      else record { status = bad_argument; session = some s; action = some a }

-- `gm_control_session_mark_path_validated` behind its argument checks.
unfoldable pub mark_valid : Session → (stream_id key_epoch : ℕ) → Action → Outcome
mark_valid s stream_id key_epoch a =
    let cleared = fill_action a s no_action 0 ok 0 in
    if not (active_stream_matches s stream_id) || not (s.key_epoch == key_epoch)
    then fill_error_action s cleared 0 state_conflict false
    else (let validated = record s { path_validated = 1 } in
        let filled = fill_action cleared validated path_validated_action 0 ok 0 in
        record {
          status = ok;
          session = record validated { actions_emitted = incr64 validated.actions_emitted };
          action = record filled { path_state = literal "validated" };
        })

unfoldable pub mark_path_validated :
    Option Session → (stream_id key_epoch : ℕ) → Option Action → IngestResult
mark_path_validated none stream_id key_epoch action = record {
  status = bad_argument;
  session = none;
  action = action;
}
mark_path_validated (some s) stream_id key_epoch none = record {
  status = bad_argument;
  session = some s;
  action = none;
}
mark_path_validated (some s) stream_id key_epoch (some a) =
    if is_valid_pair s a
    then returned (mark_valid s stream_id key_epoch a)
    else record { status = bad_argument; session = some s; action = some a }

pub record Metrics : Type 0 where
  pub struct_size : ℕ
  pub abi_version : ℕ
  pub valid_requests : ℕ
  pub rejected_requests : ℕ
  pub actions_emitted : ℕ
  pub state_conflicts : ℕ
  pub protocol_errors : ℕ
  pub streams_started : ℕ
  pub streams_stopped : ℕ
  pub streams_closed : ℕ
  pub rekeys_committed : ℕ

pub record MetricsResult : Type 0 where
  pub status : Status
  pub metrics : Option Metrics

unfoldable pub get_metrics : Option Session → Option Metrics → MetricsResult
get_metrics none out = record { status = bad_argument; metrics = out }
get_metrics (some s) none = record { status = bad_argument; metrics = none }
get_metrics (some s) (some out) =
    if ltb s.struct_size sizeof_control_session
      || ltb out.struct_size sizeof_control_metrics
      || not (s.abi_version == abi_version)
    then record { status = bad_argument; metrics = some out }
    else record {
      status = ok;
      metrics = some (record {
        struct_size = out.struct_size;
        abi_version = abi_version;
        valid_requests = s.valid_requests;
        rejected_requests = s.rejected_requests;
        actions_emitted = s.actions_emitted;
        state_conflicts = s.state_conflicts;
        protocol_errors = s.protocol_errors;
        streams_started = s.streams_started;
        streams_stopped = s.streams_stopped;
        streams_closed = s.streams_closed;
        rekeys_committed = s.rekeys_committed;
      });
    }
