-- ===== src/Runtime/Tls/Draining.antt =====
-- Draining sends on what the connection has written.
use mathlib.Core.List.{append_assoc, append-nil}
use ghost_media.Base.{
  ℕ, zero, suc, true, ◌≤◌, ◌≡◌, refl, sym, ap, ◌∙◌, some, List, [], ◌∷◌, ◌++◌, length, take, drop,
  take-append-drop, leb, ◌==◌, arith, Bool-cases, inl, inr, length-append, ◌≢◌, ◌+◌,
}
use ghost_media.Abi.{Status, ok, internal}
use ghost_media.Runtime.Tls.{
  Tls, Link, Result, after, apply_deadline, drain_from, drain_encrypted_output,
}

-- The buffer as OpenSSL documents it, and the socket as Runtime.Sockets.Delivery has it: `output`
-- is what the connection has written and nobody has read, `delivered` what the socket took. What is
-- read leaves the front of the buffer; sending takes a front of what it is given, all of it if it
-- reports ok; and nothing else touches the two.
pub record IsBuffer {W : Type 0} (tls : Tls W) (link : Link W) (output delivered : W → List ℕ)
    : Type 0 where
  pub counted : (w : W) → tls.pending w ≡ length (output w)
  pub reads : (w : W) → (tls.read_output w).0 ++ output (tls.read_output w).1 ≡ output w
  pub read_keeps : (w : W) → delivered (tls.read_output w).1 ≡ delivered w
  pub clock_keeps :
      (w : W) → (output (link.clock w).1 ≡ output w) × (delivered (link.clock w).1 ≡ delivered w)
  pub timeout_keeps :
      (w : W) (t : ℕ)
      → (output (link.set_io_timeout w t).1 ≡ output w)
        × (delivered (link.set_io_timeout w t).1 ≡ delivered w)
  pub send_keeps : (w : W) (b : List ℕ) → output (link.send_all w b).1 ≡ output w
  pub sends_front :
      (w : W) (b : List ℕ) → (n : ℕ) × (delivered (link.send_all w b).1 ≡ delivered w ++ take n b)
  pub sends_whole :
      (w : W) (b : List ℕ)
      → (link.send_all w b).0 ≡ ok
      → delivered (link.send_all w b).1 ≡ delivered w ++ b

-- The call ended; the socket took `sent`, a front of what was written, in order and after what it
-- had taken, and if the status is ok that is all of it and nothing is left in the buffer.
pub record Drained {W : Type 0} (output delivered : W → List ℕ) (w : W) (o : Result W)
    : Type 0 where
  pub status : Status
  pub world : W
  pub ended : o ≡ some (status, world)
  pub sent : List ℕ
  pub unsent : List ℕ
  pub split : sent ++ unsent ≡ output w
  pub taken : delivered world ≡ delivered w ++ sent
  pub whole : status ≡ ok → (unsent ≡ []) × (output world ≡ [])

no_bytes : (xs : List ℕ) → length xs ≡ 0 → xs ≡ []
no_bytes [] e = refl
no_bytes (x ∷ xs) e = absurd (omega arith)

module _ {W : Type 0} (output delivered : W → List ℕ) where
  -- The call ended before anything more was sent.
  stopped :
      (w v : W) (status : Status)
      → delivered v ≡ delivered w
      → (status ≡ ok → (output w ≡ []) × (output v ≡ []))
      → Drained output delivered w (some (status, v))
  stopped w v status kept whole = record {
    status = status;
    world = v;
    ended = refl;
    sent = [];
    unsent = output w;
    split = refl;
    taken = kept ∙ sym (append-nil (delivered w));
    whole = whole;
  }

  -- After a round that sent `b`.
  round :
      (w v : W) (b : List ℕ) (o : Result W)
      → b ++ output v ≡ output w
      → delivered v ≡ delivered w ++ b
      → Drained output delivered v o
      → Drained output delivered w o
  round w v b o h k d = record {
    status = d.status;
    world = d.world;
    ended = d.ended;
    sent = b ++ d.sent;
    unsent = d.unsent;
    split = append_assoc b d.sent d.unsent ∙ ap (λ t. b ++ t) d.split ∙ h;
    taken = d.taken ∙ ap (λ t. t ++ d.sent) k ∙ append_assoc (delivered w) b d.sent;
    whole = d.whole;
  }

module _ {W : Type 0} (tls : Tls W) (link : Link W) (output delivered : W → List ℕ)
    (laws : IsBuffer tls link output delivered) where
  apply_deadline_keeps :
      (deadline : ℕ) (w : W)
      → (output (apply_deadline tls link deadline w).1 ≡ output w)
        × (delivered (apply_deadline tls link deadline w).1 ≡ delivered w)
  unfolding apply_deadline
  apply_deadline_keeps deadline w =
      let asked = laws.clock_keeps w in
      elim (Bool-cases (leb deadline (link.clock w).0)) [
        | inl late ↦ rw (late, apply_deadline) asked
        | inr early ↦
            let set = laws.timeout_keeps (link.clock w).1 in
            rw (early, apply_deadline) ((set _).0 ∙ asked.0, (set _).1 ∙ asked.1)
      ]

  after-Drained :
      (w : W) (r : Status × W) (next : W → Result W)
      → (r.0 ≢ ok → Drained output delivered w (some r))
      → (r.0 ≡ ok → Drained output delivered w (next r.1))
      → Drained output delivered w (after tls link r next)
  unfolding after
  after-Drained w (ok, v) next h k = k refl
  after-Drained w (other, v) next h k = h (λ e. cc e)

  -- A send that failed took a front of what was read.
  send_failed :
      (w v : W) (b : List ℕ)
      → b ++ output v ≡ output w
      → delivered v ≡ delivered w
      → (link.send_all v b).0 ≢ ok
      → Drained output delivered w (some (link.send_all v b))
  send_failed w v b h k ne =
      let (n, took) = laws.sends_front v b in
      record {
        status = (link.send_all v b).0;
        world = (link.send_all v b).1;
        ended = refl;
        sent = take n b;
        unsent = drop n b ++ output v;
        split =
            sym (append_assoc (take n b) (drop n b) (output v))
            ∙ ap (λ t. t ++ output v) (take-append-drop n b)
            ∙ h;
        taken = took ∙ ap (λ t. t ++ take n b) k;
        whole = λ e. absurd (ne e);
      }

  -- A round that read the bytes `b`; `rest` is the rest of the loop.
  round-Drained :
      (w v : W) (b : List ℕ) (deadline : ℕ) (next : W → Result W)
      → b ++ output v ≡ output w
      → delivered v ≡ delivered w
      → ((u : W) → output u ≡ output v → Drained output delivered u (next u))
      → Drained output delivered w (
          after tls link
            (apply_deadline tls link deadline v)
            (λ timed. after tls link (link.send_all timed b) next))
  round-Drained w v b deadline next h k rest =
      let timed = apply_deadline tls link deadline v in
      let kept = apply_deadline_keeps deadline v in
      let split : b ++ output timed.1 ≡ output w = ap (λ t. b ++ t) kept.0 ∙ h in
      let before : delivered timed.1 ≡ delivered w = kept.1 ∙ k in
      after-Drained w timed _
        (λ late. stopped output delivered w timed.1 timed.0 before (λ e. absurd (late e)))
        (λ _.
          let sent = link.send_all timed.1 b in
          let left : output sent.1 ≡ output timed.1 = laws.send_keeps timed.1 b in
          after-Drained w sent next (λ failed. send_failed w timed.1 b split before failed)
            (λ good.
              round output delivered w sent.1 b _ (ap (λ t. b ++ t) left ∙ split)
                (laws.sends_whole timed.1 b good ∙ ap (λ t. t ++ b) before)
                (rest sent.1 (left ∙ kept.0))))

  nothing_left : (w : W) → (tls.pending w == 0) ≡ true → Drained output delivered w (some (ok, w))
  nothing_left w none_left =
      let empty : output w ≡ [] = no_bytes (output w) (ground (arith, none_left, laws.counted w)) in
      stopped output delivered w w ok refl (λ _. (empty, empty))

  drain_from-Drained :
      (fuel deadline : ℕ) (w : W)
      → tls.pending w ≤ fuel
      → Drained output delivered w (drain_from tls link fuel deadline w)
  unfolding drain_from
  drain_from-Drained zero deadline w h =
      let none_left : (tls.pending w == 0) ≡ true = ground (arith, h) in
      rw (none_left, drain_from) (nothing_left w none_left)
  drain_from-Drained (suc fuel) deadline w h = elim (Bool-cases (tls.pending w == 0)) [
    | inl none_left ↦ rw (none_left, drain_from) (nothing_left w none_left)
    | inr some_left ↦
        let read = tls.read_output w in
        elim (Bool-cases (length read.0 == 0)) [
          | inl failed ↦
              rw (some_left, failed, drain_from)
                (stopped output delivered w read.1 internal (laws.read_keeps w) (λ e. cc e))
          | inr some_bytes ↦
              let size : length read.0 + length (output read.1) ≡ tls.pending w =
                sym (length-append read.0 (output read.1))
                ∙ ap (λ t. length t) (laws.reads w)
                ∙ sym (laws.counted w) in
              rw (some_left, some_bytes, drain_from)
                (round-Drained w read.1 read.0 deadline _ (laws.reads w) (laws.read_keeps w)
                  (λ u same.
                    drain_from-Drained fuel deadline u (
                      ground
                        (arith, some_bytes, size, h, laws.counted u, ap (λ t. length t) same))))
        ]
  ]

  -- Under the laws of the buffer and the socket, draining ends: the loop never lacks fuel. What the
  -- socket took is a front of what the connection had written, in order; if the status is ok it is
  -- all of that, and nothing is left in the buffer.
  pub drain_encrypted_output-Drained :
      (deadline : ℕ) (w : W)
      → Drained output delivered w (drain_encrypted_output tls link deadline w)
  unfolding drain_encrypted_output
  drain_encrypted_output-Drained deadline w =
      drain_from-Drained (tls.pending w) deadline w (omega arith)
