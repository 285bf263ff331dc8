-- ===== src/Runtime/Tls/Handshake.antt =====
-- What a handshake that succeeds has established.
use ghost_media.Base.{
  ℕ, zero, suc, ◌≡◌, refl, ap₂, Bool, true, false, none, some, List, [], ◌∷◌, leb, ◌==◌, arith,
  Bool-cases, inl, inr,
}
use ghost_media.Abi.{Status, ok}
use ghost_media.Text.{codes}
use ghost_media.Runtime.Tls.{
  Progress, complete, want_read, want_write, broken, Tls, Link, same_bytes,
  negotiated_required_alpn, after, drain_encrypted_output, receive_encrypted_input, judge, conclude,
  resume, proceed, handshake_from, handshake, Result, after_loop,
}

pub same_bytes_equal : (xs ys : List ℕ) → same_bytes xs ys ≡ true → xs ≡ ys
unfolding same_bytes
same_bytes_equal [] [] e = refl
same_bytes_equal [] (y ∷ ys) e = cc e
same_bytes_equal (x ∷ xs) [] e = cc e
same_bytes_equal (x ∷ xs) (y ∷ ys) e =
    ap₂ (λ a b. a ∷ b) (ground (arith, e)) (same_bytes_equal xs ys (ground (arith, e)))

-- If the status is ok, the peer's certificate was verified and the protocol is the right one.
abbrev pub Established : {W : Type 0} → Tls W → Result W → Type 0
Established tls none = Unit {0}
Established tls (some r) =
    r.0 ≡ ok → (tls.verified r.1 ≡ true) × (tls.alpn r.1 ≡ codes "ghostmedia/1")

module _ {W : Type 0} (tls : Tls W) (link : Link W) where
  after-Established :
      (r : Status × W) (next : W → Result W)
      → ((w : W) → Established tls (next w))
      → Established tls (after tls link r next)
  unfolding after
  after-Established (ok, w) next h = h w
  after-Established (other, w) next h = λ e. cc e

  after_loop-Established :
      (r : Result W) (next : W → Result W)
      → ((w : W) → Established tls (next w))
      → Established tls (after_loop tls link r next)
  unfolding after_loop
  after_loop-Established none next h = tt
  after_loop-Established (some r) next h = after-Established r next h

  resume-Established :
      (status : Status) (total : ℕ) (world : W) (next : (total : ℕ) → W → Result W)
      → ((total : ℕ) (w : W) → Established tls (next total w))
      → Established tls
          (resume tls link record { status = status; total = total; world = world } next)
  unfolding resume
  resume-Established ok total world next h = h total world
  resume-Established other total world next h = λ e. cc e

  judge-Established : (w : W) → Established tls (judge tls link w)
  unfolding judge negotiated_required_alpn
  judge-Established w = elim (Bool-cases (tls.verified w)) [
    | inr unverified ↦ rw (unverified, judge) (λ e. cc e)
    | inl verified ↦ elim (Bool-cases (same_bytes (tls.alpn w) (codes "ghostmedia/1"))) [
      | inr other ↦ rw (verified, other, judge) (λ e. cc e)
      | inl same ↦ λ e. (verified, same_bytes_equal (tls.alpn w) (codes "ghostmedia/1") same)
    ]
  ]

  conclude-Established : (timeout_ms : ℕ) (w : W) → Established tls (conclude tls link timeout_ms w)
  unfolding conclude
  conclude-Established timeout_ms w = elim (Bool-cases (timeout_ms == 0)) [
    | inl unset ↦ rw (unset, conclude) (judge-Established w)
    | inr given ↦
        rw (given, conclude)
          (after-Established (link.set_io_timeout w timeout_ms) (judge tls link) judge-Established)
  ]

  proceed-Established :
      (progress : Progress) (timeout_ms deadline total : ℕ) (next : (total : ℕ) → W → Result W)
      (w : W)
      → ((total : ℕ) (w : W) → Established tls (next total w))
      → Established tls (proceed tls link progress timeout_ms deadline total next w)
  unfolding proceed
  proceed-Established complete timeout_ms deadline total next w h =
      conclude-Established timeout_ms w
  proceed-Established want_write timeout_ms deadline total next w h = h total w
  proceed-Established want_read timeout_ms deadline total next w h =
      let step = receive_encrypted_input tls link deadline total w in
      resume-Established step.status step.total step.world next h
  proceed-Established broken timeout_ms deadline total next w h = λ e. cc e

  handshake_from-Established :
      (rounds timeout_ms deadline total : ℕ) (w : W)
      → Established tls (handshake_from tls link rounds timeout_ms deadline total w)
  unfolding handshake_from
  handshake_from-Established zero timeout_ms deadline total w = λ e. cc e
  handshake_from-Established (suc rounds) timeout_ms deadline total w =
      elim (Bool-cases (leb deadline (link.clock w).0)) [
        | inl late ↦ rw (late, handshake_from) (λ e. cc e)
        | inr early ↦
            let stepped = tls.do_handshake (link.clock w).1 in
            rw (early, handshake_from)
              (after_loop-Established (drain_encrypted_output tls link deadline stepped.1) _
                (λ drained.
                  proceed-Established stepped.0 timeout_ms deadline total _ drained (λ received v.
                    handshake_from-Established rounds timeout_ms deadline received v)))
      ]

  -- A handshake that reports ok has verified the peer's certificate and agreed on the protocol
  -- ghostmedia/1.
  pub handshake-Established :
      (is_usable : Bool) (timeout_ms deadline : ℕ) (w : W)
      → Established tls (handshake tls link is_usable timeout_ms deadline w)
  unfolding handshake
  handshake-Established false timeout_ms deadline w = λ e. cc e
  handshake-Established true timeout_ms deadline w =
      handshake_from-Established 256 timeout_ms deadline 0 w
