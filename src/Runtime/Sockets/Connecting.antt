-- ===== src/Runtime/Sockets/Connecting.antt =====
-- Connecting loses no descriptor of those that it tries.
use ghost_media.Base.{
  ℕ, ◌≡◌, refl, Bool, true, false, not, ◌||◌, Option, none, some, List, [], ◌∷◌, leb, ◌==◌,
}
use ghost_media.Wire.{byte_at}
use ghost_media.Runtime.Process.{
  open_for, connect_to, pending_error, look_up, free_addresses, Kernel, M, give, call, last_errno,
  said, code_of, set_last, ◌>>◌,
}
use ghost_media.Runtime.Owned.{
  Leaves, leaves-then, leaves-if, leaves-bool, leaves-give, leaves-call, leaves-set_last,
  leaves-last_errno, open-then,
}
use ghost_media.Runtime.Sockets.{
  Platform, succeeded, WaitResult, ready, timeout, error, operation_in_progress, now,
}
use ghost_media.Runtime.Sockets.Open.{
  sock_stream, bad, refused, Attempt, connected, next_address, timed_out, give_up, finish_connect,
  check_pending, connect_waited, start_connect, try_address, try_addresses, connect_end,
  connect_found, lookup_code, tcp_connect,
}
use ghost_media.Runtime.Sockets.Leaks.{leaves-refused}
use ghost_media.Runtime.Sockets.Ownership.{
  Settled, quiet-then, and_then-Quiet, now-Quiet, set_timeouts-Quiet, set_nonblocking-Quiet,
  wait_for_socket-Quiet, close-then, tcp_value, leaves-make_handle,
}

-- The descriptors that are open after a round of the connection loop.
abbrev with_attempt : Attempt → List ℕ → List ℕ
with_attempt (connected d) x = d ∷ x
with_attempt (next_address code) x = x
with_attempt (timed_out code) x = x

abbrev Tried : List ℕ → Attempt → List ℕ → Type 0
Tried x a y = y ≡ with_attempt a x

module _ {S : Type 0} (kernel : Kernel S) (platform : Platform) where
  leaves-give_up :
      (d code : ℕ) (x : List ℕ) → Leaves (give_up kernel platform d code) (d ∷ x) (Tried x)
  unfolding give_up
  leaves-give_up d code x =
      close-then kernel (Tried x) d _ x (leaves-give (Tried x) (next_address code) x refl)

  leaves-finish_connect :
      (d timeout_ms : ℕ) (x : List ℕ)
      → Leaves (finish_connect kernel platform d timeout_ms) (d ∷ x) (Tried x)
  unfolding finish_connect
  leaves-finish_connect d timeout_ms x =
      quiet-then (Tried x) _ _ (d ∷ x) (set_nonblocking-Quiet kernel platform d false) (λ blocking.
        quiet-then (Tried x) _ _ (d ∷ x)
          (and_then-Quiet kernel blocking _ (set_timeouts-Quiet kernel platform d timeout_ms))
          (λ configured. quiet-then (Tried x) last_errno _ (d ∷ x) leaves-last_errno (λ code.
            leaves-if (Tried x) (not configured) _ _ (d ∷ x) (λ e. leaves-give_up d code x)
              (λ e. leaves-give (Tried x) (connected d) (d ∷ x) refl))))

  leaves-check_pending :
      (d timeout_ms : ℕ) (x : List ℕ)
      → Leaves (check_pending kernel platform d timeout_ms) (d ∷ x) (Tried x)
  unfolding check_pending
  leaves-check_pending d timeout_ms x =
      quiet-then (Tried x) (call kernel (pending_error d)) _ (d ∷ x)
        (leaves-call kernel (pending_error d))
        (λ reply.
          leaves-if (Tried x) (not (succeeded reply.result) || not (reply.value == 0)) _ _ (d ∷ x)
            (λ e. leaves-give_up d _ x) (λ e. leaves-finish_connect d timeout_ms x))

  leaves-connect_waited :
      (d timeout_ms : ℕ) (w : WaitResult) (code : ℕ) (x : List ℕ)
      → Leaves (connect_waited kernel platform d timeout_ms w code) (d ∷ x) (Tried x)
  unfolding connect_waited
  leaves-connect_waited d timeout_ms ready code x = leaves-check_pending d timeout_ms x
  leaves-connect_waited d timeout_ms timeout code x = close-then kernel (Tried x) d _ x (
      quiet-then (Tried x) _ _ x (leaves-set_last (said "connect timed out"))
        (λ u. leaves-give (Tried x) (timed_out code) x refl))
  leaves-connect_waited d timeout_ms error code x = leaves-give_up d code x

  leaves-start_connect :
      (fuel d address timeout_ms deadline : ℕ) (x : List ℕ)
      → Leaves (start_connect kernel platform fuel d address timeout_ms deadline) (d ∷ x) (Tried x)
  unfolding start_connect
  leaves-start_connect fuel d address timeout_ms deadline x =
      quiet-then (Tried x) (call kernel (connect_to d address)) _ (d ∷ x)
        (leaves-call kernel (connect_to d address))
        (λ reply.
          leaves-if (Tried x) (succeeded reply.result) _ _ (d ∷ x)
            (λ e. leaves-finish_connect d timeout_ms x)
            (λ e.
              leaves-if (Tried x) (not (operation_in_progress platform reply.errno)) _ _ (d ∷ x)
                (λ f. leaves-give_up d reply.errno x)
                (λ f.
                  quiet-then (Tried x) _ _ (d ∷ x)
                    (wait_for_socket-Quiet kernel platform fuel d true deadline reply.errno)
                    (λ w. leaves-connect_waited d timeout_ms w.result w.error_code x))))

  leaves-try_address :
      (fuel address timeout_ms deadline : ℕ) (x : List ℕ)
      → Leaves (try_address kernel platform fuel address timeout_ms deadline) x (Tried x)
  unfolding try_address
  leaves-try_address fuel address timeout_ms deadline x =
      open-then (Tried x) kernel (open_for address) _ _ x
        (quiet-then (Tried x) last_errno _ x leaves-last_errno
          (λ code. leaves-give (Tried x) (next_address code) x refl))
        (λ d.
          quiet-then (Tried x) _ _ (d ∷ x) (set_nonblocking-Quiet kernel platform d true)
            (λ changed. quiet-then (Tried x) last_errno _ (d ∷ x) leaves-last_errno (λ failure.
              leaves-if (Tried x) (not changed) _ _ (d ∷ x) (λ e. leaves-give_up d failure x)
                (λ e. leaves-start_connect fuel d address timeout_ms deadline x))))

  leaves-try_addresses :
      (fuel : ℕ) (addresses : List ℕ) (timeout_ms deadline last_code : ℕ) (x : List ℕ)
      → Leaves
          (try_addresses kernel platform fuel addresses timeout_ms deadline last_code)
          x
          (Tried x)
  unfolding try_addresses
  leaves-try_addresses fuel [] timeout_ms deadline last_code x =
      leaves-give (Tried x) (next_address last_code) x refl
  leaves-try_addresses fuel (address ∷ rest) timeout_ms deadline last_code x =
      quiet-then (Tried x) (now kernel) _ x (now-Quiet kernel) (λ time.
        leaves-bool (Tried x) (leb deadline time) _ _ x
          (leaves-give (Tried x) (next_address last_code) x refl)
          (leaves-then (λ a. with_attempt a x) (Tried x) _ _ x
            (leaves-try_address fuel address timeout_ms deadline x)
            (λ attempt. elim attempt as (λ a. Leaves (go_on a) (with_attempt a x) (Tried x)) [
              | next_address code ↦ leaves-try_addresses fuel rest timeout_ms deadline code x
              | connected d ↦ leaves-give (Tried x) (connected d) (d ∷ x) refl
              | timed_out code ↦ leaves-give (Tried x) (timed_out code) x refl
            ])))
    where
      go_on : Attempt → M S Attempt
      go_on attempt = elim attempt [
        | next_address code ↦ try_addresses kernel platform fuel rest timeout_ms deadline code
        | connected d ↦ give (connected d)
        | timed_out code ↦ give (timed_out code)
      ]

  leaves-connect_end :
      (timeout_ms : ℕ) (a : Attempt) (x : List ℕ)
      → Leaves (connect_end kernel platform timeout_ms a) (with_attempt a x) (Settled tcp_value x)
  unfolding connect_end
  leaves-connect_end timeout_ms (connected d) x = leaves-make_handle kernel d timeout_ms x
  leaves-connect_end timeout_ms (next_address code) x =
      leaves-refused tcp_value _ x (leaves-set_last _)
  leaves-connect_end timeout_ms (timed_out code) x =
      leaves-give (Settled tcp_value x) refused x (refl, refl)

  leaves-connect_found :
      (fuel : ℕ) (addresses : List ℕ) (timeout_ms : ℕ) (x : List ℕ)
      → Leaves (connect_found kernel platform fuel addresses timeout_ms) x (Settled tcp_value x)
  unfolding connect_found
  leaves-connect_found fuel addresses timeout_ms x =
      quiet-then (Settled tcp_value x) (now kernel) _ x (now-Quiet kernel) (λ start.
        leaves-then (λ a. with_attempt a x) (Settled tcp_value x) _ _ x
          (leaves-try_addresses fuel addresses timeout_ms _ 0 x)
          (λ attempt.
            quiet-then (Settled tcp_value x) (call kernel (free_addresses addresses)) _
              (with_attempt attempt x) (leaves-call kernel (free_addresses addresses))
              (λ freed. leaves-connect_end timeout_ms attempt x)))

  leaves-unresolved :
      (code : ℕ) (x : List ℕ)
      → Leaves {S = S}
          (set_last (code_of "getaddrinfo" code) >> give refused)
          x
          (Settled tcp_value x)
  leaves-unresolved code x = leaves-refused tcp_value _ x (leaves-set_last _)

  -- Connecting that succeeds leaves open the handle's descriptor and none of those that it tried
  -- before; connecting that fails leaves none.
  pub tcp_connect-Settled :
      (fuel : ℕ) (host : Option (List ℕ)) (port timeout_ms : ℕ) (out_given : Bool) (x : List ℕ)
      → Leaves
          (tcp_connect kernel platform fuel host port timeout_ms out_given)
          x
          (Settled tcp_value x)
  unfolding tcp_connect
  tcp_connect-Settled fuel none port timeout_ms out_given x =
      leaves-give (Settled tcp_value x) bad x (refl, refl)
  tcp_connect-Settled fuel (some host) port timeout_ms out_given x =
      leaves-if (Settled tcp_value x)
        (byte_at host 0 == 0 || port == 0 || timeout_ms == 0 || not out_given) (give bad) _ x
        (λ bad_call. leaves-give (Settled tcp_value x) bad x (refl, refl))
        (λ good_call.
          quiet-then (Settled tcp_value x) (call kernel (look_up host port sock_stream)) _ x
            (leaves-call kernel (look_up host port sock_stream))
            (λ found.
              leaves-if (Settled tcp_value x) (not (lookup_code found.result == 0))
                (set_last (code_of "getaddrinfo" (lookup_code found.result)) >> give refused) _ x
                (λ e. leaves-unresolved (lookup_code found.result) x)
                (λ e. leaves-connect_found fuel found.addresses timeout_ms x)))
