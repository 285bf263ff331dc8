-- ===== src/Session/Protocol.antt =====
-- The control session of shared/core/gm_state.cpp with the parser of shared/core/gm_control.cpp:
-- what a peer can bring about by sending texts.
use ghost_media.Base.{ℕ, ◌<◌, ◌^◌, ◌≡◌, ◌≢◌, refl, true, some, Option, List, arith, ◌⊎◌, inl, inr}
use ghost_media.Abi.{Status, ok, Bytes}
use ghost_media.Message.{MessageInfo, parsed, refused, stream_start}
use ghost_media.Message.Parse.{parse_message}
use ghost_media.Session.{Session, SessionConfig, Action, Outcome, init, fill_error_action}
use ghost_media.Session.Ingest.{IngestResult, ingest_valid, ingest}
use ghost_media.Session.Invariant.{IsSession, init-IsSession}
use ghost_media.Session.Outcomes.{Means, ingest-Means}
use ghost_media.Session.Parsing.{parse_message-IsRequest, parse_message-Refuses}
use ghost_media.Session.Runs.{
  Call, reported, after, presented_again, start_reported, after-IsSession,
}

-- `gm_control_session_ingest`, and its part behind the argument checks.
unfoldable pub session_ingest : Option Session → Bytes → ℕ → Option Action → IngestResult
session_ingest = ingest parse_message

abbrev pub serve : Session → Action → Bytes → ℕ → Outcome
serve = ingest_valid parse_message

-- The session after some calls.
abbrev pub reached : Session → Action → List Call → Session
reached = after parse_message

-- The status of a call tells what became of the session. With `ok` the request was served under a
-- new highest number: valid requests and actions were counted, and a stream that it started,
-- stopped or closed, or a rekey that it committed, exactly if it was no repetition. With a conflict
-- nothing changed but the number and the time of the last request, and the counters of conflicts,
-- rejected requests and actions, which went up by one. With any other status the session is closed,
-- and else nothing changed but the counters of errors, rejected requests and actions, which went up
-- by one. No call changes what the session was set up with. Counters have 64 bits and wrap.
pub serve-Means :
    (s : Session) (a : Action) (json_text : Bytes) (now_ns : ℕ)
    → Means s (serve s a json_text now_ns) (serve s a json_text now_ns).status
serve-Means s a json_text now_ns =
    ingest-Means parse_message s a json_text now_ns parse_message-Refuses

-- A session that was set up with a stream id and a key epoch of 32 bits stays well formed through
-- any calls: texts of any bytes, at any times, and reports of validated paths.
pub reached-IsSession :
    (c : SessionConfig) (old s : Session) (a : Action) (calls : List Call)
    → c.stream_id < 2 ^ 32
    → c.key_epoch < 2 ^ 32
    → init (some c) (some old) ≡ record { status = ok; session = some s }
    → IsSession (reached s a calls)
reached-IsSession c old s a calls h k e =
    after-IsSession parse_message s a calls parse_message-IsRequest (init-IsSession c old s h k e)

parse_message-cases :
    (json_text : Bytes)
    → ((m : MessageInfo) × (parse_message json_text ≡ parsed m))
      ⊎ ((r : Status) × (parse_message json_text ≡ refused r))
parse_message-cases json_text =
    elim (parse_message json_text)
      as (λ p. ((m : MessageInfo) × (p ≡ parsed m)) ⊎ ((r : Status) × (p ≡ refused r))) [
        | parsed m ↦ inl (m, refl)
        | refused r ↦ inr (r, refl)
      ]

refused_not_served :
    (s : Session) (a : Action) (json_text : Bytes) (now_ns : ℕ) (r : Status)
    → parse_message json_text ≡ refused r
    → (serve s a json_text now_ns).status ≢ ok
unfolding ingest_valid fill_error_action
refused_not_served s a json_text now_ns r e = ground (arith, e, parse_message-Refuses json_text r e)

-- A text that has been presented once is not served later in the same session, whatever it holds,
-- whatever the first answer was and whatever calls come in between.
pub served_once :
    (s : Session) (a b : Action) (json_text : Bytes) (now_ns later_ns : ℕ) (calls : List Call)
    → let first = serve s a json_text now_ns in
      (serve (reached first.session first.action calls) b json_text later_ns).status ≢ ok
served_once s a b json_text now_ns later_ns calls = elim (parse_message-cases json_text) [
  | inl (m, e) ↦ presented_again parse_message s a b json_text now_ns later_ns calls m e
  | inr (r, e) ↦
      let first : Outcome = serve s a json_text now_ns in
      refused_not_served (reached first.session first.action calls) b json_text later_ns r e
]

init-path :
    (c : SessionConfig) (old s : Session)
    → init (some c) (some old) ≡ record { status = ok; session = some s }
    → s.path_validated ≡ 0
unfolding init
init-path c old s e = ground arith

-- In a session that was set up and has taken some calls, a `stream.start` is served only if one of
-- the calls reported the path of that stream as validated, under the key epoch that is current now.
pub stream_needs_path :
    (c : SessionConfig) (old s : Session) (a b : Action) (calls : List Call) (json_text : Bytes)
    (now_ns : ℕ) (m : MessageInfo)
    → init (some c) (some old) ≡ record { status = ok; session = some s }
    → parse_message json_text ≡ parsed m
    → m.kind ≡ stream_start
    → (serve (reached s a calls) b json_text now_ns).status ≡ ok
    → reported calls m.stream_id (reached s a calls).key_epoch ≡ true
stream_needs_path c old s a b calls json_text now_ns m e p k good =
    start_reported parse_message s a b calls json_text now_ns m (init-path c old s e) p k good
