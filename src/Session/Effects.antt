-- ===== src/Session/Effects.antt =====
-- What one call can do to the request number, the state and the validated path of a session.
use native.Mathlib.Decide.{ℕ_discrete}
use ghost_media.Base.{ℕ, ◌≤◌, ◌<◌, ◌≡◌, ◌≢◌, ◌⊎◌, inl, inr, refl, subst, Bool, true, arith}
use ghost_media.Abi.{Status, ok, bad_message, Bytes}
use ghost_media.Message.{MessageInfo, Parsed, parsed, stream_start}
use ghost_media.Session.{Session, Action, Outcome, fill_error_action, reject_conflict, closed}
use ghost_media.Session.Requests.{
  on_session_hello, on_transport_bind, on_stream_open, on_stream_start, on_stream_stop,
  on_stream_close, on_stream_rekey, on_status_get, on_ping, on_session_close, dispatch,
}
use ghost_media.Session.Cases.{Answers, Answers-mono, handle_cases, ingest_cases, seen, cleared}
use ghost_media.Session.Ingest.{handle, ingest_valid, is_request}

-- The request number does not fall; a closed session stays closed; and a path that counts as
-- validated is the one that counted before, of the same stream and epoch.
pub record Follows (s t : Session) : Type 0 where
  pub number : s.last_request_id ≤ t.last_request_id
  pub shut : s.state ≡ closed → t.state ≡ closed
  pub path :
      (t.path_validated ≡ 0)
      ⊎ ((t.path_validated ≡ s.path_validated)
          × (t.stream_id ≡ s.stream_id)
          × (t.key_epoch ≡ s.key_epoch))

error-Follows :
    (s : Session) (a : Action) (id : ℕ) (status : Status) (close : Bool)
    → Follows s (fill_error_action s a id status close).session
unfolding fill_error_action
error-Follows s a id status close = ground arith

module _ (s : Session) (a : Action) (m : MessageInfo) (now_ns : ℕ) (new : s.last_request_id < m.id)
    (live : s.state ≢ closed) where
  abbrev entered : Session
  entered = seen s m now_ns

  -- A served or conflicting request leaves its own number as the last one.
  pub record Counts (o : Outcome) : Type 0 where
    pub follows : Follows s o.session
    pub spent : o.session.last_request_id ≡ m.id

  hello-Counts : Counts (on_session_hello entered a m)
  unfolding on_session_hello
  hello-Counts = ground arith

  bind-Counts : Counts (on_transport_bind entered a m)
  unfolding on_transport_bind
  bind-Counts = ground arith

  open-Counts : Counts (on_stream_open entered a m)
  unfolding on_stream_open
  open-Counts = ground arith

  start-Counts : Counts (on_stream_start entered a m)
  unfolding on_stream_start
  start-Counts = ground arith

  stop-Counts : Counts (on_stream_stop entered a m)
  unfolding on_stream_stop
  stop-Counts = ground arith

  stream_close-Counts : Counts (on_stream_close entered a m)
  unfolding on_stream_close
  stream_close-Counts = ground arith

  rekey-Counts : Counts (on_stream_rekey entered a m)
  unfolding on_stream_rekey
  rekey-Counts = ground arith

  status-Counts : Counts (on_status_get entered a m)
  unfolding on_status_get
  status-Counts = ground arith

  ping-Counts : Counts (on_ping entered a m now_ns)
  unfolding on_ping
  ping-Counts = ground arith

  session_close-Counts : Counts (on_session_close entered a m)
  unfolding on_session_close
  session_close-Counts = ground arith

  early-Counts : Counts (reject_conflict entered a m.id)
  unfolding reject_conflict fill_error_action
  early-Counts = ground arith

  Answers-count : Answers Counts entered a m now_ns
  Answers-count = record {
    session_hello = hello-Counts;
    transport_bind = bind-Counts;
    stream_open = open-Counts;
    stream_start = start-Counts;
    stream_stop = stop-Counts;
    stream_close = stream_close-Counts;
    stream_rekey = λ _. rekey-Counts;
    status_get = status-Counts;
    ping = ping-Counts;
    session_close = session_close-Counts;
  }

-- A message that can not be served any more.
abbrev pub IsSpent : Session → MessageInfo → Type 0
IsSpent s m = (s.state ≡ closed) ⊎ (m.id ≤ s.last_request_id)

module _ (s : Session) (a : Action) (m : MessageInfo) (now_ns : ℕ) where
  in_order : is_request s m ≡ true → s.last_request_id < m.id
  unfolding is_request
  in_order e = ground arith

  bad_closes : (fill_error_action s a m.id bad_message true).session.state ≡ closed
  unfolding fill_error_action
  bad_closes = refl

  abbrev Handled : Outcome → Type 0
  Handled o = Follows s o.session × IsSpent o.session m

  counted :
      (live : s.state ≢ closed) (new : s.last_request_id < m.id) (o : Outcome)
      → Counts s a m now_ns new live o
      → Handled o
  counted live new o c = (c.follows, inr (omega (arith, c.spent)))

  -- Whatever becomes of a message, it is spent.
  pub handle-Handled :
      s.state ≢ closed
      → Follows s (handle s a m now_ns).session × IsSpent (handle s a m now_ns).session m
  handle-Handled live =
      handle_cases Handled s a m now_ns
        (λ _. (error-Follows s a m.id bad_message true, inl bad_closes))
        (λ e. counted live (in_order e) _ (early-Counts s a m now_ns (in_order e) live))
        (λ e.
          Answers-mono (Counts s a m now_ns (in_order e) live) Handled
            (entered s a m now_ns (in_order e) live) a m now_ns (counted live (in_order e))
            (Answers-count s a m now_ns (in_order e) live))

module _ (parse_message : Bytes → Parsed) (s : Session) (a : Action) (json_text : Bytes)
    (now_ns : ℕ) where
  closed-Follows :
      s.state ≡ closed → Follows s (ingest_valid parse_message s a json_text now_ns).session
  unfolding ingest_valid fill_error_action
  closed-Follows shut = ground (arith, shut)

  abbrev answer : Outcome
  answer = ingest_valid parse_message s a json_text now_ns

  pub ingest-Follows : Follows s answer.session
  ingest-Follows = elim (ℕ_discrete s.state closed) [
    | yes shut ↦ closed-Follows shut
    | no live ↦
        ingest_cases (λ o. Follows s o.session) parse_message s a json_text now_ns
          (λ shut. absurd (live shut)) (λ status _. error-Follows s (cleared s a) 0 status true)
          (λ m _. (handle-Handled s (cleared s a) m now_ns live).0)
  ]

  pub ingest-IsSpent :
      (m : MessageInfo) → parse_message json_text ≡ parsed m → IsSpent answer.session m
  ingest-IsSpent m e = elim (ℕ_discrete s.state closed) [
    | yes shut ↦ inl (ingest-Follows.shut shut)
    | no live ↦
        ingest_cases (λ o. IsSpent o.session m) parse_message s a json_text now_ns
          (λ shut. absurd (live shut)) (λ status r. absurd (cc r))
          (λ n r.
            let same : n ≡ m = cc in
            subst (λ k. IsSpent (handle s (cleared s a) n now_ns).session k) same
              (handle-Handled s (cleared s a) n now_ns live).1)
  ]

-- A spent message is not served: neither by a closed session nor out of order.
pub spent_refused :
    (parse_message : Bytes → Parsed) (s : Session) (a : Action) (json_text : Bytes) (now_ns : ℕ)
    (m : MessageInfo)
    → parse_message json_text ≡ parsed m
    → IsSpent s m
    → (ingest_valid parse_message s a json_text now_ns).status ≢ ok
unfolding ingest_valid handle is_request fill_error_action
spent_refused parse_message s a json_text now_ns m e (inl shut) = ground (arith, shut)
spent_refused parse_message s a json_text now_ns m e (inr old) = ground (arith, e)

-- A stream starts only where its path counts as validated.
pub start_needs_path :
    (parse_message : Bytes → Parsed) (s : Session) (a : Action) (json_text : Bytes) (now_ns : ℕ)
    (m : MessageInfo)
    → parse_message json_text ≡ parsed m
    → m.kind ≡ stream_start
    → (ingest_valid parse_message s a json_text now_ns).status ≡ ok
    → (s.path_validated ≢ 0) × (s.stream_id ≡ m.stream_id)
unfolding ingest_valid handle fill_error_action reject_conflict dispatch on_stream_start
start_needs_path parse_message s a json_text now_ns m e k good = ground (arith, e)
