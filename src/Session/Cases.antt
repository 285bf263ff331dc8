-- ===== src/Session/Cases.antt =====
-- Reasoning about a request by the branch that answers it.
use ghost_media.Base.{ℕ, ◌≡◌, refl, true, false, not, ◌&&◌, ◌==◌, leb, if_cases, arith}
use ghost_media.Abi.{Status, ok, bad_message, state_conflict, Bytes}
use ghost_media.Message.{
  MessageInfo, Parsed, parsed, refused, session_hello, transport_bind, stream_open, stream_start,
  stream_stop, stream_close, stream_rekey, status_get, ping, session_close,
}
use ghost_media.Session.{
  Session, Action, Outcome, closed, tls_ready, no_action, fill_action, fill_error_action,
  reject_conflict,
}
use ghost_media.Session.Requests.{
  on_session_hello, on_transport_bind, on_stream_open, on_stream_start, on_stream_stop,
  on_stream_close, on_stream_rekey, on_status_get, on_ping, on_session_close, dispatch,
}
use ghost_media.Session.Ingest.{handle, ingest_valid, is_request}

-- The session as it enters the `switch`.
abbrev pub seen : Session → MessageInfo → ℕ → Session
seen s m now_ns = record s { last_request_id = m.id; last_update_ns = now_ns }

-- The action as `gm_control_session_ingest` fills it first.
abbrev pub cleared : Session → Action → Action
cleared s a = fill_action a s no_action 0 ok 0

-- What has to be shown of the ten answers.
pub record Answers {ℓ} (P : Outcome → Type ℓ) (s : Session) (a : Action) (m : MessageInfo)
    (now_ns : ℕ) : Type ℓ where
  pub session_hello : P (on_session_hello s a m)
  pub transport_bind : P (on_transport_bind s a m)
  pub stream_open : P (on_stream_open s a m)
  pub stream_start : P (on_stream_start s a m)
  pub stream_stop : P (on_stream_stop s a m)
  pub stream_close : P (on_stream_close s a m)
  pub stream_rekey : m.kind ≡ stream_rekey → P (on_stream_rekey s a m)
  pub status_get : P (on_status_get s a m)
  pub ping : P (on_ping s a m now_ns)
  pub session_close : P (on_session_close s a m)

module _ {ℓ} (P : Outcome → Type ℓ) (s : Session) (a : Action) (m : MessageInfo) (now_ns : ℕ) where
  is_kind : (k : ℕ) → (m.kind == k) ≡ true → m.kind ≡ k
  is_kind k e = ground arith

  dispatch_cases :
      Answers P s a m now_ns
      → ((leb 1 m.kind && leb m.kind 10) ≡ false → P (fill_error_action s a m.id bad_message true))
      → P (dispatch s a m now_ns)
  unfolding dispatch
  dispatch_cases h unknown =
      if_cases P (m.kind == session_hello) _ _ (λ _. h.session_hello)
        λ n0.
          if_cases P (m.kind == transport_bind) _ _ (λ _. h.transport_bind)
            λ n1.
              if_cases P (m.kind == stream_open) _ _ (λ _. h.stream_open)
                λ n2.
                  if_cases P (m.kind == stream_start) _ _ (λ _. h.stream_start)
                    λ n3.
                      if_cases P (m.kind == stream_stop) _ _ (λ _. h.stream_stop)
                        λ n4.
                          if_cases P (m.kind == stream_close) _ _ (λ _. h.stream_close)
                            λ n5.
                              if_cases P (m.kind == stream_rekey) _ _
                                (λ e. h.stream_rekey (is_kind stream_rekey e))
                                λ n6.
                                  if_cases P (m.kind == status_get) _ _ (λ _. h.status_get)
                                    λ n7.
                                      if_cases P (m.kind == ping) _ _ (λ _. h.ping)
                                        λ n8.
                                          if_cases P (m.kind == session_close) _ _
                                            (λ _. h.session_close) λ n9. unknown (ground arith)

module _ {ℓ} (P : Outcome → Type ℓ) (s : Session) (a : Action) (m : MessageInfo) (now_ns : ℕ) where
  known_kind : is_request s m ≡ true → (leb 1 m.kind && leb m.kind 10) ≡ true
  unfolding is_request
  known_kind good = ground arith

  -- An answer to a message by its branch: not a request in order, a first request other than
  -- `session.hello`, or one of the ten requests.
  pub handle_cases :
      (is_request s m ≡ false → P (fill_error_action s a m.id bad_message true))
      → (is_request s m ≡ true → P (reject_conflict (seen s m now_ns) a m.id))
      → (is_request s m ≡ true → Answers P (seen s m now_ns) a m now_ns)
      → P (handle s a m now_ns)
  unfolding handle
  handle_cases bad early answers =
      if_cases P (not (is_request s m)) _ _ (λ e. bad (ground (arith, e)))
        λ e.
          let good : is_request s m ≡ true = ground (arith, e) in
          if_cases P (not (m.kind == session_hello) && s.state == tls_ready) _ _ (λ _. early good)
            λ _.
              dispatch_cases P (seen s m now_ns) a m now_ns (answers good)
                (λ unknown. absurd (ground (arith, known_kind good, unknown)))

module _ {ℓ} (P : Outcome → Type ℓ) (parse_message : Bytes → Parsed) (s : Session) (a : Action)
    (json_text : Bytes) (now_ns : ℕ) where
  -- An answer to a text by its branch: a closed session, a refused text, or a message.
  pub ingest_cases :
      (s.state ≡ closed → P (fill_error_action s (cleared s a) 0 state_conflict false))
      → ((status : Status)
          → parse_message json_text ≡ refused status
          → P (fill_error_action s (cleared s a) 0 status true))
      → ((m : MessageInfo)
          → parse_message json_text ≡ parsed m
          → P (handle s (cleared s a) m now_ns))
      → P (ingest_valid parse_message s a json_text now_ns)
  unfolding ingest_valid
  ingest_cases shut bad message =
      if_cases P (s.state == closed) _ _ (λ e. shut (ground arith))
        λ _. by_parse (parse_message json_text) refl
    where
      by_parse :
          (r : Parsed)
          → parse_message json_text ≡ r
          → P (elim r [
            | refused status ↦ fill_error_action s (cleared s a) 0 status true
            | parsed m ↦ handle s (cleared s a) m now_ns
          ])
      by_parse (refused status) e = bad status e
      by_parse (parsed m) e = message m e

-- From one property of the answers to a weaker one.
pub Answers-mono {ℓ κ} :
    (P : Outcome → Type ℓ) (Q : Outcome → Type κ) (s : Session) (a : Action) (m : MessageInfo)
    (now_ns : ℕ)
    → ((o : Outcome) → P o → Q o)
    → Answers P s a m now_ns
    → Answers Q s a m now_ns
Answers-mono P Q s a m now_ns weaken h = record {
  session_hello = weaken _ h.session_hello;
  transport_bind = weaken _ h.transport_bind;
  stream_open = weaken _ h.stream_open;
  stream_start = weaken _ h.stream_start;
  stream_stop = weaken _ h.stream_stop;
  stream_close = weaken _ h.stream_close;
  stream_rekey = λ k. weaken _ (h.stream_rekey k);
  status_get = weaken _ h.status_get;
  ping = weaken _ h.ping;
  session_close = weaken _ h.session_close;
}
