-- ===== src/Runtime/Sockets/Delivery.antt =====
-- What the loops that send and receive deliver.
use ghost_media.Base.{
  ℕ, zero, suc, ◌+◌, ◌-◌, ◌≤◌, ◌≡◌, refl, sym, ap, ◌∙◌, false, Option, some, List, [], ◌∷◌, ◌++◌,
  ltb, ◌==◌, length, take, drop, take_all, length-drop, arith, Bool-cases, Option-cases, inl, inr,
}
use mathlib.Core.List.{append_assoc, append-nil}
use ghost_media.Abi.{Status, ok, internal, memory}
use ghost_media.Runtime.Sockets.{TcpSocket}
use ghost_media.Runtime.Process.{
  send_on, receive_on, Kernel, Process, give, call, set_error, set_last, send_call,
}
use ghost_media.Runtime.Sockets.Transfer.{send_from, send_all_on, tcp_send_all}

-- What POSIX promises of `send` and `recv`: no more bytes than were offered or than fit, and the
-- bytes are as many as their number says.
pub record IsStreamKernel {S : Type 0} (kernel : Kernel S) : Type 0 where
  pub sends_offered :
      (s : S) (d n : ℕ) (chunk : List ℕ)
      → (kernel s (send_on d chunk)).0.result ≡ some n
      → n ≤ length chunk
  pub receives_room :
      (s : S) (d n capacity : ℕ)
      → (kernel s (receive_on d capacity)).0.result ≡ some n
      → n ≤ capacity
  pub receives_bytes :
      (s : S) (d n capacity : ℕ)
      → (kernel s (receive_on d capacity)).0.result ≡ some n
      → length (kernel s (receive_on d capacity)).0.bytes ≡ n

-- The call ended; the kernel has taken the first `count` bytes of the message, in order and after
-- what it had taken, and if the status is ok that is the whole message.
pub record Sent {S : Type 0} (bytes before : List ℕ) (o : Option (Status × Process S))
    : Type 0 where
  pub status : Status
  pub process : Process S
  pub ended : o ≡ some (status, process)
  pub count : ℕ
  pub taken : process.sent ≡ before ++ take count bytes
  pub whole : status ≡ ok → take count bytes ≡ bytes

take-nil : (n : ℕ) → take {A = ℕ} n [] ≡ []
take-nil zero = refl
take-nil (suc n) = refl

take-more : (k n : ℕ) (xs : List ℕ) → take k xs ++ take n (drop k xs) ≡ take (k + n) xs
take-more zero n xs = let count : n ≡ 0 + n = omega arith in ap (λ t. take t xs) count
take-more (suc k) n [] = take-nil n ∙ sym (take-nil (suc k + n))
take-more (suc k) n (x ∷ xs) =
    let count : suc (k + n) ≡ suc k + n = omega arith in
    ap (◌∷◌ x) (take-more k n xs) ∙ ap (λ t. take t (x ∷ xs)) count

module _ {S : Type 0} where
  ended_whole :
      (bytes before : List ℕ) (total : ℕ) (p : Process S)
      → length bytes ≤ total
      → total ≤ length bytes
      → p.sent ≡ before ++ take total bytes
      → Sent bytes before (some (ok, p))
  ended_whole bytes before total p h k e = record {
    status = ok;
    process = p;
    ended = refl;
    count = total;
    taken = e;
    whole = λ ok_status. take_all total bytes (omega arith);
  }

  ended_short :
      (bytes before : List ℕ) (total : ℕ) (p : Process S)
      → p.sent ≡ before ++ take total bytes
      → Sent bytes before (some (internal, p))
  ended_short bytes before total p e = record {
    status = internal;
    process = p;
    ended = refl;
    count = total;
    taken = e;
    whole = λ ok_status. cc ok_status;
  }

module _ {S : Type 0} (kernel : Kernel S) (lawful : IsStreamKernel kernel) where
  send_from-Sent :
      (fuel d : ℕ) (bytes before : List ℕ) (total : ℕ) (p : Process S)
      → length bytes ≤ total + fuel
      → total ≤ length bytes
      → p.sent ≡ before ++ take total bytes
      → Sent bytes before (send_from kernel fuel d bytes total p)
  unfolding send_from give call set_error set_last send_call
  send_from-Sent zero d bytes before total p enough inside e =
      let done : ltb total (length bytes) ≡ false = ground (arith, enough) in
      rw (done, send_from) (ended_whole bytes before total p (omega arith) inside e)
  send_from-Sent (suc fuel) d bytes before total p enough inside e =
      let chunk = drop total bytes in
      let reply = (kernel p.os (send_on d chunk)).0 in
      elim (Bool-cases (ltb total (length bytes))) [
        | inr done ↦
            rw (done, send_from) (ended_whole bytes before total p (ground (arith, done)) inside e)
        | inl more ↦ elim (Option-cases reply.result) [
          | inl failed ↦
              rw (more, failed, send_from)
                (ended_short bytes before total _ (append-nil p.sent ∙ e))
          | inr (sent, got) ↦
              let room : sent ≤ length bytes - total =
                omega
                  (arith, lawful.sends_offered p.os d sent chunk got, length-drop total bytes) in
              let next : p.sent ++ take sent chunk ≡ before ++ take (total + sent) bytes =
                ap (λ t. t ++ take sent chunk) e
                ∙ append_assoc before (take total bytes) (take sent chunk)
                ∙ ap (λ t. before ++ t) (take-more total sent bytes) in
              elim (Bool-cases (sent == 0)) [
                | inl stuck ↦
                    rw (more, got, stuck, send_from)
                      (ended_short bytes before (total + sent) _ next)
                | inr some_bytes ↦
                    rw (more, got, some_bytes, send_from)
                      (send_from-Sent fuel d bytes before (total + sent) _
                        (ground (arith, some_bytes)) (omega arith) next)
              ]
        ]
      ]

  -- Under the laws of `send`, sending ends, and all bytes were taken once and in order if it
  -- reports ok; otherwise a front of them was.
  pub tcp_send_all-Sent :
      (s : TcpSocket) (d : ℕ) (bytes : List ℕ) (p : Process S)
      → s.value ≡ some d
      → Sent bytes p.sent (tcp_send_all kernel (some s) (memory bytes) p)
  unfolding tcp_send_all send_all_on
  tcp_send_all-Sent s d bytes p e =
      rw (e, tcp_send_all, send_all_on)
        (send_from-Sent (length bytes) d bytes p.sent 0 p (omega arith) (omega arith)
          (sym (append-nil p.sent)))
