-- ===== src/Session/Runs.antt =====
-- Sequences of calls on one session: texts that arrive and paths that are reported as validated.
use ghost_media.Base.{
  ℕ, ◌≡◌, ◌≢◌, ◌⊎◌, inl, refl, Bool, true, false, ◌&&◌, ◌||◌, ◌==◌, List, [], ◌∷◌, arith,
}
use ghost_media.Abi.{ok, Bytes}
use ghost_media.Message.{MessageInfo, Parsed, parsed, stream_start}
use ghost_media.Session.{Session, Action, Outcome, fill_error_action, active_stream_matches}
use ghost_media.Session.Ingest.{ingest_valid, mark_valid}
use ghost_media.Session.Invariant.{IsSession, IsRequest, ingest-IsSession, mark-IsSession}
use ghost_media.Session.Effects.{
  IsSpent, ingest-Follows, ingest-IsSpent, spent_refused, start_needs_path,
}

pub data Call : Type 0 where
  text : Bytes → (now_ns : ℕ) → Call
  path : (stream_id key_epoch : ℕ) → Call

-- Did a call of the run report this stream and epoch as validated?
unfoldable pub reported : List Call → ℕ → ℕ → Bool
reported [] stream_id key_epoch = false
reported (text t now_ns ∷ calls) stream_id key_epoch = reported calls stream_id key_epoch
reported (path i e ∷ calls) stream_id key_epoch =
    i == stream_id && e == key_epoch || reported calls stream_id key_epoch

mark-number :
    (s : Session) (i e : ℕ) (a : Action)
    → ((mark_valid s i e a).session.last_request_id ≡ s.last_request_id)
      × ((mark_valid s i e a).session.state ≡ s.state)
unfolding mark_valid fill_error_action
mark-number s i e a = ground arith

-- The flag is set for the reported stream and epoch only.
mark-path :
    (s : Session) (i e : ℕ) (a : Action)
    → let t = (mark_valid s i e a).session in
      (t.stream_id ≡ s.stream_id)
      × (t.key_epoch ≡ s.key_epoch)
      × ((t.path_validated ≡ s.path_validated) ⊎ ((i ≡ s.stream_id) × (e ≡ s.key_epoch)))
unfolding mark_valid fill_error_action active_stream_matches
mark-path s i e a = ground arith

or_false : (b : Bool) → (b || false) ≡ b
or_false true = refl
or_false false = refl

module _ (parse_message : Bytes → Parsed) where
  -- A call on the session and the action of the call before it.
  unfoldable pub step : Session → Action → Call → Outcome
  step s a (text t now_ns) = ingest_valid parse_message s a t now_ns
  step s a (path i e) = mark_valid s i e a

  unfoldable pub after : Session → Action → List Call → Session
  after s a [] = s
  after s a (c ∷ calls) = after (step s a c).session (step s a c).action calls

  step-IsSpent :
      (m : MessageInfo) (s : Session) (a : Action) (c : Call)
      → IsSpent s m
      → IsSpent (step s a c).session m
  unfolding step
  step-IsSpent m s a (text t now_ns) h =
      let f = ingest-Follows parse_message s a t now_ns in ground (arith, f.number, f.shut)
  step-IsSpent m s a (path i e) h = ground (arith, mark-number s i e a)

  after-IsSpent :
      (m : MessageInfo) (s : Session) (a : Action) (calls : List Call)
      → IsSpent s m
      → IsSpent (after s a calls) m
  unfolding after
  after-IsSpent m s a [] h = h
  after-IsSpent m s a (c ∷ calls) h =
      after-IsSpent m (step s a c).session (step s a c).action calls (step-IsSpent m s a c h)

  -- A text that has been presented once is never served again in its session, whatever the first
  -- answer was and whatever calls come in between.
  pub presented_again :
      (s : Session) (a b : Action) (json_text : Bytes) (now_ns later_ns : ℕ) (calls : List Call)
      (m : MessageInfo)
      → parse_message json_text ≡ parsed m
      → let first = ingest_valid parse_message s a json_text now_ns in
        (ingest_valid parse_message
          (after first.session first.action calls)
          b
          json_text
          later_ns).status
        ≢ ok
  presented_again s a b json_text now_ns later_ns calls m e =
      let first : Outcome = ingest_valid parse_message s a json_text now_ns in
      spent_refused parse_message (after first.session first.action calls) b json_text later_ns m e
        (after-IsSpent m first.session first.action calls
          (ingest-IsSpent parse_message s a json_text now_ns m e))

  -- The flag of a validated path, against the calls so far (the last one first).
  abbrev Backed : List Call → Session → Type 0
  Backed calls s = (s.path_validated ≡ 0) ⊎ (reported calls s.stream_id s.key_epoch ≡ true)

  step-Backed :
      (past : List Call) (s : Session) (a : Action) (c : Call)
      → Backed past s
      → Backed (c ∷ past) (step s a c).session
  unfolding step reported
  step-Backed past s a (text t now_ns) h =
      let f = ingest-Follows parse_message s a t now_ns in ground (arith, f.path)
  step-Backed past s a (path i e) h = ground (arith, mark-path s i e a)

  after-Backed :
      (past : List Call) (s : Session) (a : Action) (calls : List Call)
      → Backed past s
      → let t = after s a calls in
        (t.path_validated ≡ 0)
        ⊎ ((reported calls t.stream_id t.key_epoch || reported past t.stream_id t.key_epoch) ≡ true)
  unfolding after reported
  after-Backed past s a [] h = h
  after-Backed past s a (text u now_ns ∷ calls) h =
      let o : Outcome = step s a (text u now_ns) in
      after-Backed (text u now_ns ∷ past) o.session o.action calls
        (step-Backed past s a (text u now_ns) h)
  after-Backed past s a (path i e ∷ calls) h =
      let o : Outcome = step s a (path i e) in
      ground (
        arith,
        after-Backed (path i e ∷ past) o.session o.action calls (step-Backed past s a (path i e) h),
      )

  -- From a session without a validated path, a `stream.start` is served after some calls only if
  -- one of them reported the path of that very stream under the key epoch that is then current.
  pub start_reported :
      (s : Session) (a b : Action) (calls : List Call) (json_text : Bytes) (now_ns : ℕ)
      (m : MessageInfo)
      → s.path_validated ≡ 0
      → parse_message json_text ≡ parsed m
      → m.kind ≡ stream_start
      → (ingest_valid parse_message (after s a calls) b json_text now_ns).status ≡ ok
      → reported calls m.stream_id (after s a calls).key_epoch ≡ true
  unfolding reported
  start_reported s a b calls json_text now_ns m fresh e k good =
      let needs = start_needs_path parse_message (after s a calls) b json_text now_ns m e k good in
      let backed = after-Backed [] s a calls (inl fresh) in
      ground
        (arith, needs, backed, or_false (reported calls m.stream_id (after s a calls).key_epoch))

  -- Every run of calls on a well-formed session ends in a well-formed session, if the parser keeps
  -- its promise about rekeys.
  pub after-IsSession :
      (s : Session) (a : Action) (calls : List Call)
      → ((t : Bytes) (m : MessageInfo) → parse_message t ≡ parsed m → IsRequest m)
      → IsSession s
      → IsSession (after s a calls)
  unfolding after step
  after-IsSession s a [] promise v = v
  after-IsSession s a (text t now_ns ∷ calls) promise v =
      let o : Outcome = ingest_valid parse_message s a t now_ns in
      after-IsSession o.session o.action calls promise
        (ingest-IsSession parse_message s a t now_ns v (promise t))
  after-IsSession s a (path i e ∷ calls) promise v =
      let o : Outcome = mark_valid s i e a in
      after-IsSession o.session o.action calls promise (mark-IsSession s i e a v)
