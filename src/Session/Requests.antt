-- ===== src/Session/Requests.antt =====
-- The cases of the `switch` in `gm_control_session_ingest`, one function for each request.
use Prim.Native.String.{String}
use ghost_media.Base.{
  ℕ, ◌+◌, ◌-◌, ◌%◌, ◌^◌, true, not, ◌&&◌, ◌||◌, List, ltb, leb, ◌==◌, if◌then◌else◌,
}
use ghost_media.Abi.{bad_message}
use ghost_media.Message.{
  MessageInfo, session_hello, transport_bind, stream_open, stream_start, stream_stop, stream_close,
  stream_rekey, status_get, ping, session_close,
}
use ghost_media.Session.Decimal.{print_u64}
use ghost_media.Text.{copy_c_string, codes, copy_literal, same_c_string, same_prefix}
use ghost_media.Session.{
  Session, Action, Outcome, closed, tls_ready, hello, bound, stream_opened, streaming, incr64,
  fill_error_action, reject_conflict, commit_action, active_stream_matches, is_open, same_profile,
  empty_profile, no_decimal,
}

-- A literal in a `char[65]` field.
abbrev pub literal : String → List ℕ
literal text = copy_literal 65 (codes text)

-- `copy_literal(out_action->state, ...)` and the like, on the action of an outcome.
abbrev pub with_state : Outcome → List ℕ → Outcome
with_state o text = record o { action = record (o.action) { state = text } }

abbrev pub with_path_state : Outcome → List ℕ → Outcome
with_path_state o text = record o { action = record (o.action) { path_state = text } }

module _ (s : Session) (a : Action) (m : MessageInfo) where
  unfoldable pub conflict : Outcome
  unfolding reject_conflict
  conflict = reject_conflict s a m.id

  unfoldable pub on_session_hello : Outcome
  unfolding conflict commit_action
  on_session_hello =
      if not (s.state == tls_ready)
      then conflict
      else with_state
          (commit_action (record s { windows_udp_port = m.udp_port; state = hello }) a 1 m.id)
          (literal "hello")

  unfoldable pub on_transport_bind : Outcome
  unfolding conflict commit_action
  on_transport_bind =
      if ltb s.state hello
        || not (same_prefix 33 m.session_id s.session_id)
        || not (m.udp_port == s.windows_udp_port)
      then conflict
      else with_path_state
          (commit_action (if s.state == hello then record s { state = bound } else s) a 2 m.id)
          (literal "bound")

  unfoldable pub on_stream_open : Outcome
  unfolding conflict commit_action
  on_stream_open =
      if s.state == bound
      then with_path_state
          (commit_action
            (record s {
              stream_id = s.next_stream_id;
              key_epoch = s.initial_key_epoch;
              profile = m.profile;
              playout_target_ms = m.playout_target_ms;
              path_validated = 0;
              state = stream_opened;
            })
            a 3 m.id)
          (literal "probing")
      else if is_open s.state
          && same_profile s.profile m.profile
          && s.playout_target_ms == m.playout_target_ms
      then with_path_state (commit_action s a 3 m.id) (literal "probing")
      else conflict

  -- The session that `stream.start` commits.
  abbrev started : Session
  started = record s {
    first_media_timestamp = copy_c_string 21 m.first_media_timestamp;
    streams_started =
        if not (s.state == streaming) then incr64 s.streams_started else s.streams_started;
    state = streaming;
  }

  with_start : Outcome → Outcome
  with_start o = record o {
    action = record (o.action) {
      state = literal "started";
      first_media_timestamp = copy_c_string 21 m.first_media_timestamp;
    };
  }

  unfoldable pub on_stream_start : Outcome
  unfolding conflict commit_action active_stream_matches with_start
  on_stream_start =
      if not (active_stream_matches s m.stream_id) || s.path_validated == 0
      then conflict
      else if s.state == streaming
          && not (same_c_string s.first_media_timestamp m.first_media_timestamp)
      then conflict
      else with_start (commit_action started a 4 m.id)

  unfoldable pub on_stream_stop : Outcome
  unfolding conflict commit_action active_stream_matches
  on_stream_stop =
      if not (active_stream_matches s m.stream_id)
      then conflict
      else with_state
          (commit_action
            (record s {
              streams_stopped =
                  if s.state == streaming then incr64 s.streams_stopped else s.streams_stopped;
              state = stream_opened;
            })
            a 5 m.id)
          (literal "stopped")

  -- What closing the stream resets, with the stream that is remembered as closed.
  abbrev without_stream : ℕ → Session
  without_stream closed_id = record s {
    last_closed_stream_id = closed_id;
    stream_id = 0;
    key_epoch = 0;
    last_rekey_epoch = 0;
    playout_target_ms = 0;
    path_validated = 0;
    profile = empty_profile;
    first_media_timestamp = no_decimal;
    streams_closed = incr64 s.streams_closed;
  }

  with_closed : Outcome → Outcome
  with_closed o = record o {
    action = record (o.action) { stream_id = m.stream_id; state = literal "closed" };
  }

  unfoldable pub on_stream_close : Outcome
  unfolding conflict commit_action active_stream_matches with_closed
  on_stream_close =
      if active_stream_matches s m.stream_id
      then with_closed (
          commit_action
            (record (without_stream m.stream_id) {
              next_stream_id =
                  if leb s.next_stream_id m.stream_id && not (m.stream_id == 2 ^ 32 - 1)
                  then m.stream_id + 1
                  else s.next_stream_id;
              state = bound;
            })
            a 6 m.id)
      else if s.state == bound && m.stream_id == s.last_closed_stream_id
      then with_closed (commit_action s a 6 m.id)
      else conflict

  unfoldable pub on_stream_rekey : Outcome
  unfolding conflict commit_action active_stream_matches
  on_stream_rekey =
      if not (active_stream_matches s m.stream_id)
      then conflict
      else if m.key_epoch == (s.key_epoch + 1) % 2 ^ 32
      then with_state
          (commit_action
            (record s {
              key_epoch = m.key_epoch;
              last_rekey_epoch = m.key_epoch;
              path_validated = 0;
              rekeys_committed = incr64 s.rekeys_committed;
            })
            a 7 m.id)
          (literal "rekeying")
      else if m.key_epoch == s.key_epoch && m.key_epoch == s.last_rekey_epoch
      then with_state (commit_action s a 7 m.id) (literal "rekeying")
      else conflict

  with_status : Outcome → Outcome
  with_status o = record o {
    action = record (o.action) {
      output_state =
          if not (s.output_available == 0) then literal "available" else literal "unavailable";
      transport_state = if leb bound s.state then literal "bound" else literal "unbound";
      session_stream_state =
          if s.state == streaming
          then literal "started"
          else if s.state == stream_opened
          then literal "open"
          else literal "none";
    };
  }

  unfoldable pub on_status_get : Outcome
  unfolding conflict commit_action with_status
  on_status_get = if ltb s.state hello then conflict else with_status (commit_action s a 8 m.id)

  with_pong : ℕ → Outcome → Outcome
  with_pong now_ns o = record o {
    action = record (o.action) {
      token = copy_c_string 65 m.token;
      monotonic_ns =
          if now_ns == 0 then copy_literal 21 (codes "0") else copy_literal 21 (print_u64 now_ns);
    };
  }

  unfoldable pub on_ping : ℕ → Outcome
  unfolding conflict commit_action with_pong
  on_ping now_ns =
      if ltb s.state hello then conflict else with_pong now_ns (commit_action s a 9 m.id)

  unfoldable pub on_session_close : Outcome
  unfolding commit_action active_stream_matches
  on_session_close =
      with_state
        (commit_action
          (record (if active_stream_matches s s.stream_id then without_stream s.stream_id else s) {
            state = closed;
          })
          a 10 m.id)
        (literal "closed")

  -- The `switch`.
  unfoldable pub dispatch : ℕ → Outcome
  dispatch now_ns =
      if m.kind == session_hello
      then on_session_hello
      else if m.kind == transport_bind
      then on_transport_bind
      else if m.kind == stream_open
      then on_stream_open
      else if m.kind == stream_start
      then on_stream_start
      else if m.kind == stream_stop
      then on_stream_stop
      else if m.kind == stream_close
      then on_stream_close
      else if m.kind == stream_rekey
      then on_stream_rekey
      else if m.kind == status_get
      then on_status_get
      else if m.kind == ping
      then on_ping now_ns
      else if m.kind == session_close
      then on_session_close
      else fill_error_action s a m.id bad_message true
