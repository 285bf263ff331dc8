-- ===== src/Runtime/Sockets/Filling.antt =====
-- What receiving an exact number of bytes delivers.
use mathlib.Core.List.{append_assoc, append-nil}
use ghost_media.Base.{
  ℕ, zero, suc, ◌+◌, ◌-◌, ◌≤◌, ◌≡◌, refl, sym, ap, ap₂, ◌∙◌, false, Option, some, List, [], ◌++◌,
  ltb, ◌==◌, length, drop, take-append, drop-append, drop-drop, length-drop, length-append, arith,
  ltb→lt, Bool-cases, Option-cases, inl, inr,
}
use ghost_media.Abi.{ok, internal}
use ghost_media.Wire.{copy_at}
use ghost_media.Runtime.Process.{
  receive_on, Kernel, Process, give, call, set_error, set_last, note_received,
}
use ghost_media.Runtime.Sockets.Transfer.{receive_at, receive_exact_from, Receipt}
use ghost_media.Runtime.Sockets.Delivery.{IsStreamKernel}

-- The call ended; the front of the output is what the kernel handed over, in order, the rest is as
-- before, and if the status is ok the whole output is filled.
pub record Filled {S : Type 0} (output before : List ℕ) (o : Option (Receipt × Process S))
    : Type 0 where
  pub receipt : Receipt
  pub process : Process S
  pub ended : o ≡ some (receipt, process)
  pub taken : List ℕ
  pub handed : process.received ≡ before ++ taken
  pub front : receipt.buffer ≡ taken ++ drop (length taken) output
  pub whole : receipt.status ≡ ok → length taken ≡ length output

module _ {S : Type 0} where
  ended_full :
      (output before taken : List ℕ) (count : ℕ) (p : Process S)
      → length taken ≡ length output
      → p.received ≡ before ++ taken
      → Filled output before (
          some (
            record { status = ok; buffer = taken ++ drop (length taken) output; count = count },
            p,
          ))
  ended_full output before taken count p h e = record {
    receipt = record { status = ok; buffer = taken ++ drop (length taken) output; count = count };
    process = p;
    ended = refl;
    taken = taken;
    handed = e;
    front = refl;
    whole = λ ok_status. h;
  }

  ended_part :
      (output before taken : List ℕ) (count : ℕ) (p : Process S)
      → p.received ≡ before ++ taken
      → Filled output before (
          some (
            record {
              status = internal;
              buffer = taken ++ drop (length taken) output;
              count = count;
            },
            p,
          ))
  ended_part output before taken count p e = record {
    receipt = record {
      status = internal;
      buffer = taken ++ drop (length taken) output;
      count = count;
    };
    process = p;
    ended = refl;
    taken = taken;
    handed = e;
    front = refl;
    whole = λ ok_status. cc ok_status;
  }

-- The output after one more receipt.
copied_behind :
    (output taken more : List ℕ)
    → copy_at (taken ++ drop (length taken) output) (length taken) more
      ≡ (taken ++ more) ++ drop (length (taken ++ more)) output
copied_behind output taken more =
    ap₂ (λ a b. a ++ more ++ b) (take-append taken (drop (length taken) output))
      (drop-append taken (drop (length taken) output) (length more)
        ∙ drop-drop (length taken) (length more) output
        ∙ ap (λ n. drop n output) (sym (length-append taken more)))

module _ {S : Type 0} (kernel : Kernel S) (lawful : IsStreamKernel kernel) where
  receive_exact_from-Filled :
      (fuel d : ℕ) (output before taken : List ℕ) (p : Process S)
      → length output ≤ length taken + fuel
      → length taken ≤ length output
      → p.received ≡ before ++ taken
      → Filled output before
          (receive_exact_from kernel fuel d (taken ++ drop (length taken) output) (length taken) p)
  unfolding receive_exact_from receive_at give call set_error set_last note_received
  receive_exact_from-Filled zero d output before taken p enough inside e =
      let same : length (taken ++ drop (length taken) output) ≡ length output = omega (
        arith,
        length-append taken (drop (length taken) output),
        length-drop (length taken) output,
      ) in
      let done : ltb (length taken) (length (taken ++ drop (length taken) output)) ≡ false =
        ground (arith, enough, same) in
      rw (done, receive_exact_from)
        (ended_full output before taken (length taken) p (omega arith) e)
  receive_exact_from-Filled (suc fuel) d output before taken p enough inside e =
      let b = taken ++ drop (length taken) output in
      let same : length b ≡ length output = omega (
        arith,
        length-append taken (drop (length taken) output),
        length-drop (length taken) output,
      ) in
      let reply = (kernel p.os (receive_on d (length b - length taken))).0 in
      elim (Bool-cases (ltb (length taken) (length b))) [
        | inr done ↦
            rw (done, receive_exact_from)
              (ended_full output before taken (length taken) p (ground (arith, done, same)) e)
        | inl more ↦ elim (Option-cases reply.result) [
          | inl failed ↦
              rw (more, failed, receive_exact_from, receive_at)
                (ended_part output before taken (length taken) _ e)
          | inr (n, got) ↦ elim (Bool-cases (n == 0)) [
            | inl closed ↦
                rw (more, got, closed, receive_exact_from, receive_at)
                  (ended_part output before taken (length taken) _ e)
            | inr some_bytes ↦
                (let len : length reply.bytes ≡ n =
                    lawful.receives_bytes p.os d n (length b - length taken) got in
                  let room : n ≤ length b - length taken =
                    lawful.receives_room p.os d n (length b - length taken) got in
                  let count : length taken + n ≡ length (taken ++ reply.bytes) =
                    omega (arith, length-append taken reply.bytes, len) in
                  rw (more, got, some_bytes, receive_exact_from, receive_at)
                    (rw (copied_behind output taken reply.bytes, count)
                      (receive_exact_from-Filled fuel d output before (taken ++ reply.bytes) _
                        (ground (arith, some_bytes, count))
                        (omega (arith, count, room, same, ltb→lt _ _ more))
                        (ap (λ t. t ++ reply.bytes) e ∙ append_assoc before taken reply.bytes))))
          ]
        ]
      ]

  -- Under the laws of `recv`, receiving ends, and the output holds, from its front on, what the
  -- kernel handed over, in order and each byte once; if it reports ok the whole output is filled.
  pub receive_exact-Filled :
      (d : ℕ) (output : List ℕ) (p : Process S)
      → Filled output p.received (receive_exact_from kernel (length output) d output 0 p)
  receive_exact-Filled d output p =
      receive_exact_from-Filled (length output) d output p.received [] p (omega arith) (omega arith)
        (sym (append-nil p.received))
