-- ===== src/Session/Outcomes.antt =====
-- What each status of `gm_control_session_ingest` means for the session.
use ghost_media.Base.{
  ℕ, ◌<◌, ◌≤◌, ◌≡◌, ◌≢◌, refl, Bool, true, false, not, ◌&&◌, ◌||◌, ◌==◌, if◌then◌else◌, arith,
}
use ghost_media.Abi.{Status, ok, bad_message, state_conflict, Bytes}
use ghost_media.Message.{MessageInfo, Parsed, refused}
use ghost_media.Session.{
  Session, Action, Outcome, fill_error_action, reject_conflict, closed, streaming, incr64, is_open,
}
use ghost_media.Session.Requests.{
  conflict, on_session_hello, on_transport_bind, on_stream_open, on_stream_start, on_stream_stop,
  on_stream_close, on_stream_rekey, on_status_get, on_ping, on_session_close,
}
use ghost_media.Session.Cases.{Answers, handle_cases, ingest_cases, seen, cleared}
use ghost_media.Session.Ingest.{handle, ingest_valid, is_request}

-- What a session was set up with.
pub record SameConfig (s t : Session) : Type 0 where
  pub struct_size : t.struct_size ≡ s.struct_size
  pub abi_version : t.abi_version ≡ s.abi_version
  pub role : t.role ≡ s.role
  pub apple_udp_port : t.apple_udp_port ≡ s.apple_udp_port
  pub initial_key_epoch : t.initial_key_epoch ≡ s.initial_key_epoch
  pub output_available : t.output_available ≡ s.output_available
  pub server_id : t.server_id ≡ s.server_id
  pub boot_id : t.boot_id ≡ s.boot_id
  pub session_id : t.session_id ≡ s.session_id

-- The transport and the stream of a session, with what was counted of its streams.
pub record SameStream (s t : Session) : Type 0 where
  pub windows_udp_port : t.windows_udp_port ≡ s.windows_udp_port
  pub stream_id : t.stream_id ≡ s.stream_id
  pub next_stream_id : t.next_stream_id ≡ s.next_stream_id
  pub key_epoch : t.key_epoch ≡ s.key_epoch
  pub last_rekey_epoch : t.last_rekey_epoch ≡ s.last_rekey_epoch
  pub last_closed_stream_id : t.last_closed_stream_id ≡ s.last_closed_stream_id
  pub playout_target_ms : t.playout_target_ms ≡ s.playout_target_ms
  pub path_validated : t.path_validated ≡ s.path_validated
  pub profile : t.profile ≡ s.profile
  pub first_media_timestamp : t.first_media_timestamp ≡ s.first_media_timestamp
  pub streams_started : t.streams_started ≡ s.streams_started
  pub streams_stopped : t.streams_stopped ≡ s.streams_stopped
  pub streams_closed : t.streams_closed ≡ s.streams_closed
  pub rekeys_committed : t.rekeys_committed ≡ s.rekeys_committed

-- One more, if the condition holds.
abbrev pub counted_if : Bool → ℕ → ℕ
counted_if b counter = if b then incr64 counter else counter

-- The streams that the request of the kind `kind` started (4), stopped (5), closed (6, 10), and
-- the rekeys that it committed (7): only a request that is not a repetition counts.
pub record CountedStreams (s t : Session) (kind : ℕ) : Type 0 where
  pub started :
      t.streams_started ≡ counted_if (kind == 4 && not (s.state == streaming)) s.streams_started
  pub stopped : t.streams_stopped ≡ counted_if (kind == 5 && s.state == streaming) s.streams_stopped
  pub closed :
      t.streams_closed
      ≡ counted_if
          ((kind == 6 || kind == 10) && is_open s.state && not (s.stream_id == 0))
          s.streams_closed
  pub rekeyed :
      t.rekeys_committed
      ≡ counted_if (kind == 7 && not (t.key_epoch == s.key_epoch)) s.rekeys_committed

-- A success: one more valid request and action, under a new highest request number.
pub record Served (s : Session) (o : Outcome) : Type 0 where
  pub good : o.status ≡ ok
  pub config : SameConfig s o.session
  pub ordered : s.last_request_id < o.session.last_request_id
  pub echoed : o.action.response_id ≡ o.session.last_request_id
  pub valid : o.session.valid_requests ≡ incr64 s.valid_requests
  pub rejected : o.session.rejected_requests ≡ s.rejected_requests
  pub conflicts : o.session.state_conflicts ≡ s.state_conflicts
  pub errors : o.session.protocol_errors ≡ s.protocol_errors
  pub emitted : o.session.actions_emitted ≡ incr64 s.actions_emitted
  pub streams : CountedStreams s o.session o.action.kind

-- A conflict: counted and reported, and no effect on the protocol.
pub record Conflicted (s : Session) (o : Outcome) : Type 0 where
  pub bad : o.status ≡ state_conflict
  pub config : SameConfig s o.session
  pub stream : SameStream s o.session
  pub state : o.session.state ≡ s.state
  pub ordered : s.last_request_id ≤ o.session.last_request_id
  pub going : o.action.terminal ≡ 0
  pub valid : o.session.valid_requests ≡ s.valid_requests
  pub rejected : o.session.rejected_requests ≡ incr64 s.rejected_requests
  pub conflicts : o.session.state_conflicts ≡ incr64 s.state_conflicts
  pub errors : o.session.protocol_errors ≡ s.protocol_errors
  pub emitted : o.session.actions_emitted ≡ incr64 s.actions_emitted

-- A protocol error: counted and reported, and the session is closed.
pub record Failed (s : Session) (o : Outcome) : Type 0 where
  pub not_ok : o.status ≢ ok
  pub not_conflict : o.status ≢ state_conflict
  pub config : SameConfig s o.session
  pub stream : SameStream s o.session
  pub shut : o.session.state ≡ closed
  pub final : o.action.terminal ≡ 1
  pub number : o.session.last_request_id ≡ s.last_request_id
  pub time : o.session.last_update_ns ≡ s.last_update_ns
  pub valid : o.session.valid_requests ≡ s.valid_requests
  pub rejected : o.session.rejected_requests ≡ incr64 s.rejected_requests
  pub conflicts : o.session.state_conflicts ≡ s.state_conflicts
  pub errors : o.session.protocol_errors ≡ incr64 s.protocol_errors
  pub emitted : o.session.actions_emitted ≡ incr64 s.actions_emitted

-- What an outcome means, by its status.
abbrev pub Means : Session → Outcome → Status → Type 0
Means s o ok = Served s o
Means s o state_conflict = Conflicted s o
Means s o _ = Failed s o

refuse-Conflicted :
    (s : Session) (a : Action) (id : ℕ)
    → Conflicted s (fill_error_action s a id state_conflict false)
unfolding fill_error_action
refuse-Conflicted s a id = ground arith

close-Means :
    (s : Session) (a : Action) (id : ℕ) (status : Status)
    → status ≢ ok
    → status ≢ state_conflict
    → Means s (fill_error_action s a id status true) status
unfolding fill_error_action
close-Means s a id ok p q = absurd (p refl)
close-Means s a id state_conflict p q = absurd (q refl)
close-Means s a id _ p q = ground arith

module _ (s : Session) (a : Action) (m : MessageInfo) (now_ns : ℕ)
    (new : s.last_request_id < m.id) where
  abbrev Meant : Outcome → Type 0
  Meant o = Means s o o.status

  abbrev entered : Session
  entered = seen s m now_ns

  conflict-Means : Meant (conflict entered a m)
  unfolding conflict fill_error_action
  conflict-Means = ground arith

  hello-Means : Meant (on_session_hello entered a m)
  unfolding on_session_hello
  hello-Means = ground arith

  bind-Means : Meant (on_transport_bind entered a m)
  unfolding on_transport_bind
  bind-Means = ground arith

  open-Means : Meant (on_stream_open entered a m)
  unfolding on_stream_open
  open-Means = ground arith

  start-Means : Meant (on_stream_start entered a m)
  unfolding on_stream_start
  start-Means = ground arith

  stop-Means : Meant (on_stream_stop entered a m)
  unfolding on_stream_stop
  stop-Means = ground arith

  stream_close-Means : Meant (on_stream_close entered a m)
  unfolding on_stream_close
  stream_close-Means = ground arith

  rekey-Means : Meant (on_stream_rekey entered a m)
  unfolding on_stream_rekey
  rekey-Means = ground arith

  status-Means : Meant (on_status_get entered a m)
  unfolding on_status_get
  status-Means = ground arith

  ping-Means : Meant (on_ping entered a m now_ns)
  unfolding on_ping
  ping-Means = ground arith

  session_close-Means : Meant (on_session_close entered a m)
  unfolding on_session_close
  session_close-Means = ground arith

  early-Means : Meant (reject_conflict entered a m.id)
  unfolding reject_conflict fill_error_action
  early-Means = ground arith

  Answers-mean : Answers Meant entered a m now_ns
  Answers-mean = record {
    session_hello = hello-Means;
    transport_bind = bind-Means;
    stream_open = open-Means;
    stream_start = start-Means;
    stream_stop = stop-Means;
    stream_close = stream_close-Means;
    stream_rekey = λ _. rekey-Means;
    status_get = status-Means;
    ping = ping-Means;
    session_close = session_close-Means;
  }

in_order : (s : Session) (m : MessageInfo) → is_request s m ≡ true → s.last_request_id < m.id
unfolding is_request
in_order s m e = ground arith

handle-Means :
    (s : Session) (a : Action) (m : MessageInfo) (now_ns : ℕ)
    → Means s (handle s a m now_ns) (handle s a m now_ns).status
unfolding fill_error_action
handle-Means s a m now_ns =
    handle_cases (λ o. Means s o o.status) s a m now_ns
      (λ _. close-Means s a m.id bad_message (λ e. cc) (λ e. cc))
      (λ e. early-Means s a m now_ns (in_order s m e))
      (λ e. Answers-mean s a m now_ns (in_order s m e))

closed-Means :
    (s : Session) (a : Action)
    → Means s (fill_error_action s a 0 state_conflict false) state_conflict
unfolding fill_error_action
closed-Means s a = ground arith

-- A parser that refuses a text gives a status other than success and conflict.
abbrev pub Refuses : (Bytes → Parsed) → Type 0
Refuses parse_message =
    (json_text : Bytes) (status : Status)
    → parse_message json_text ≡ refused status
    → (status ≢ ok) × (status ≢ state_conflict)

-- With a parser that refuses by error statuses, the status of a call tells what became of the
-- session.
pub ingest-Means :
    (parse_message : Bytes → Parsed) (s : Session) (a : Action) (json_text : Bytes) (now_ns : ℕ)
    → Refuses parse_message
    → Means s
        (ingest_valid parse_message s a json_text now_ns)
        (ingest_valid parse_message s a json_text now_ns).status
unfolding fill_error_action
ingest-Means parse_message s a json_text now_ns refuses =
    ingest_cases (λ o. Means s o o.status) parse_message s a json_text now_ns
      (λ _. closed-Means s (cleared s a))
      (λ status e.
        let not_fine = refuses json_text status e in
        close-Means s (cleared s a) 0 status not_fine.0 not_fine.1)
      (λ m e. handle-Means s (cleared s a) m now_ns)
