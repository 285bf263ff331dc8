-- ===== src/Session/Invariant.antt =====
-- The well-formedness of a control session, and that every operation keeps it.
use ghost_media.Base.{ℕ, ◌^◌, ◌≤◌, ◌<◌, ◌≡◌, ◌⊎◌, Bool, true, false, some, arith}
use ghost_media.Abi.{Status, ok, bad_message, state_conflict, Bytes}
use ghost_media.Message.{MessageInfo, Parsed, parsed, stream_rekey}
use ghost_media.Session.{
  Session, SessionConfig, Action, fill_error_action, reject_conflict, init, active_stream_matches,
}
use ghost_media.Session.Requests.{
  on_session_hello, on_transport_bind, on_stream_open, on_stream_start, on_stream_stop,
  on_stream_close, on_stream_rekey, on_status_get, on_ping, on_session_close,
}
use ghost_media.Session.Cases.{handle_cases, ingest_cases, seen, cleared}
use ghost_media.Session.Ingest.{handle, ingest_valid, mark_valid}

-- A session that is not closed has a stream exactly in the two open states. The stream has the
-- next free number and a non-zero key epoch; without a stream all its fields are reset. Numbers
-- and epochs fit 32 bits.
pub record IsSession (s : Session) : Type 0 where
  pub state_known : s.state ≤ 5
  pub next_positive : 1 ≤ s.next_stream_id
  pub next_fits : s.next_stream_id < 2 ^ 32
  pub initial_positive : 1 ≤ s.initial_key_epoch
  pub initial_fits : s.initial_key_epoch < 2 ^ 32
  pub epoch_fits : s.key_epoch < 2 ^ 32
  pub flag : s.path_validated ≤ 1
  pub idle :
      1 ≤ s.state
      → s.state ≤ 3
      → (s.stream_id ≡ 0) × (s.key_epoch ≡ 0) × (s.path_validated ≡ 0) × (s.last_rekey_epoch ≡ 0)
  pub active : 4 ≤ s.state → (s.stream_id ≡ s.next_stream_id) × (1 ≤ s.key_epoch)
  pub rekeyed : 4 ≤ s.state → (s.last_rekey_epoch ≡ 0) ⊎ (s.last_rekey_epoch ≡ s.key_epoch)

-- What the parser guarantees of a request: a rekey names a non-zero epoch of 32 bits.
pub record IsRequest (m : MessageInfo) : Type 0 where
  pub rekey_positive : m.kind ≡ stream_rekey → 1 ≤ m.key_epoch
  pub epoch_fits : m.key_epoch < 2 ^ 32

module _ (s : Session) (a : Action) (m : MessageInfo) (v : IsSession s) where
  hello_keeps : IsSession (on_session_hello s a m).session
  unfolding on_session_hello
  hello_keeps = ground arith

  bind_keeps : IsSession (on_transport_bind s a m).session
  unfolding on_transport_bind
  bind_keeps = ground arith

  open_keeps : IsSession (on_stream_open s a m).session
  unfolding on_stream_open
  open_keeps = ground arith

  start_keeps : IsSession (on_stream_start s a m).session
  unfolding on_stream_start
  start_keeps = ground arith

  stop_keeps : IsSession (on_stream_stop s a m).session
  unfolding on_stream_stop
  stop_keeps = ground arith

  close_keeps : IsSession (on_stream_close s a m).session
  unfolding on_stream_close
  close_keeps = ground arith

  rekey_keeps : m.kind ≡ stream_rekey → IsRequest m → IsSession (on_stream_rekey s a m).session
  unfolding on_stream_rekey
  rekey_keeps k r = ground arith

  status_keeps : IsSession (on_status_get s a m).session
  unfolding on_status_get
  status_keeps = ground arith

  ping_keeps : (now_ns : ℕ) → IsSession (on_ping s a m now_ns).session
  unfolding on_ping
  ping_keeps now_ns = ground arith

  session_close_keeps : IsSession (on_session_close s a m).session
  unfolding on_session_close
  session_close_keeps = ground arith

error_keeps :
    (s : Session) (a : Action) (id : ℕ) (status : Status) (close : Bool)
    → IsSession s
    → IsSession (fill_error_action s a id status close).session
unfolding fill_error_action
error_keeps s a id status close v = ground arith

module _ (s : Session) (a : Action) (m : MessageInfo) (now_ns : ℕ) (v : IsSession s) where
  seen-IsSession : IsSession (seen s m now_ns)
  seen-IsSession = ground arith

  handle-IsSession : IsRequest m → IsSession (handle s a m now_ns).session
  handle-IsSession r =
      let w : IsSession (seen s m now_ns) = seen-IsSession in
      handle_cases (λ o. IsSession o.session) s a m now_ns
        (λ _. error_keeps s a m.id bad_message true v)
        (λ _. unfold reject_conflict in error_keeps (seen s m now_ns) a m.id state_conflict false w)
        (λ _. record {
          session_hello = hello_keeps (seen s m now_ns) a m w;
          transport_bind = bind_keeps (seen s m now_ns) a m w;
          stream_open = open_keeps (seen s m now_ns) a m w;
          stream_start = start_keeps (seen s m now_ns) a m w;
          stream_stop = stop_keeps (seen s m now_ns) a m w;
          stream_close = close_keeps (seen s m now_ns) a m w;
          stream_rekey = λ k. rekey_keeps (seen s m now_ns) a m w k r;
          status_get = status_keeps (seen s m now_ns) a m w;
          ping = ping_keeps (seen s m now_ns) a m w now_ns;
          session_close = session_close_keeps (seen s m now_ns) a m w;
        })

-- Whatever text arrives, a well-formed session stays well formed, if the parser keeps its promise
-- about that text.
pub ingest-IsSession :
    (parse_message : Bytes → Parsed) (s : Session) (a : Action) (json_text : Bytes) (now_ns : ℕ)
    → IsSession s
    → ((m : MessageInfo) → parse_message json_text ≡ parsed m → IsRequest m)
    → IsSession (ingest_valid parse_message s a json_text now_ns).session
ingest-IsSession parse_message s a json_text now_ns v promise =
    ingest_cases (λ o. IsSession o.session) parse_message s a json_text now_ns
      (λ _. error_keeps s (cleared s a) 0 state_conflict false v)
      (λ status _. error_keeps s (cleared s a) 0 status true v)
      (λ m e. handle-IsSession s (cleared s a) m now_ns v (promise m e))

-- Whatever stream and key epoch are reported as validated, a well-formed session stays well formed.
pub mark-IsSession :
    (s : Session) (stream_id key_epoch : ℕ) (a : Action)
    → IsSession s
    → IsSession (mark_valid s stream_id key_epoch a).session
unfolding mark_valid fill_error_action active_stream_matches
mark-IsSession s stream_id key_epoch a v = ground arith

-- A session that `gm_control_session_init` sets up is well formed, for a stream id and an epoch of
-- 32 bits in the configuration.
pub init-IsSession :
    (c : SessionConfig) (old s : Session)
    → c.stream_id < 2 ^ 32
    → c.key_epoch < 2 ^ 32
    → init (some c) (some old) ≡ record { status = ok; session = some s }
    → IsSession s
unfolding init
init-IsSession c old s h k e = ground arith
