-- ===== src/Runtime/Sockets/Leaks.antt =====
-- The calls that open sockets lose no descriptor.
use ghost_media.Base.{ℕ, refl, Bool, true, false, not, ◌||◌, Option, none, some, List, ◌∷◌, ◌==◌}
use ghost_media.Runtime.Process.{
  open_socket, accept_on, bind_any, listen_on, set_option, Kernel, M, ◌>>◌, give, set_error,
}
use ghost_media.Runtime.Owned.{
  Leaves, leaves-if, leaves-give, leaves-set_error, leaves-set_last, open-then,
}
use ghost_media.Runtime.Sockets.{Platform, TcpSocket, WaitResult, ready, timeout, error}
use ghost_media.Runtime.Sockets.Open.{
  af_inet, sock_stream, sock_dgram, bad, refused, start_listening, tcp_listen_ipv4,
  configure_accepted, accept_ready, accept_waited, accept_from, tcp_accept, bind_udp, udp_bind_ipv4,
}
use ghost_media.Runtime.Sockets.Ownership.{
  Settled, Quiet, quiet-then, succeeds-Quiet, and_then-Quiet, now-Quiet, set_timeouts-Quiet,
  set_nonblocking-Quiet, wait_for_socket-Quiet, leaves-abandon, tcp_value, udp_value,
  leaves-make_handle, leaves-make_udp_handle,
}

module _ {S : Type 0} where
  pub leaves-refused :
      {H : Type 0} (value : H → Option ℕ) (m : M S (Unit {0})) (x : List ℕ)
      → Quiet m
      → Leaves (m >> give refused) x (Settled value x)
  leaves-refused value m x quiet =
      quiet-then (Settled value x) m (λ u. give refused) x quiet
        (λ u. leaves-give (Settled value x) refused x (refl, refl))

module _ {S : Type 0} (kernel : Kernel S) (platform : Platform) where
  leaves-start_listening :
      (d port timeout_ms : ℕ) (x : List ℕ)
      → Leaves (start_listening kernel platform d port timeout_ms) (d ∷ x) (Settled tcp_value x)
  unfolding start_listening
  leaves-start_listening d port timeout_ms x =
      quiet-then (Settled tcp_value x) _ _ (d ∷ x) (succeeds-Quiet kernel (bind_any d port))
        (λ bound.
          quiet-then (Settled tcp_value x) _ _ (d ∷ x)
            (and_then-Quiet kernel bound _ (succeeds-Quiet kernel (listen_on d 1)))
            (λ listening.
              quiet-then (Settled tcp_value x) _ _ (d ∷ x)
                (and_then-Quiet kernel listening _ (set_nonblocking-Quiet kernel platform d true))
                (λ done.
                  leaves-if (Settled tcp_value x) (not done) _ _ (d ∷ x)
                    (λ e. leaves-abandon kernel tcp_value "listen" d x)
                    (λ e. leaves-make_handle kernel d timeout_ms x))))

  -- Listening that succeeds leaves open the handle's descriptor and no other that it opened;
  -- listening that fails leaves none.
  pub tcp_listen_ipv4-Settled :
      (port timeout_ms : ℕ) (out_given : Bool) (x : List ℕ)
      → Leaves (tcp_listen_ipv4 kernel platform port timeout_ms out_given) x (Settled tcp_value x)
  unfolding tcp_listen_ipv4
  tcp_listen_ipv4-Settled port timeout_ms out_given x =
      leaves-if (Settled tcp_value x) (timeout_ms == 0 || not out_given) (give bad) _ x
        (λ bad_call. leaves-give (Settled tcp_value x) bad x (refl, refl))
        (λ good_call.
          open-then (Settled tcp_value x) kernel (open_socket af_inet sock_stream) _ _ x
            (leaves-refused tcp_value (set_error "socket") x (leaves-set_error "socket"))
            (λ d.
              quiet-then (Settled tcp_value x) _ _ (d ∷ x)
                (succeeds-Quiet kernel (set_option d "SO_REUSEADDR" 1))
                (λ reused.
                  quiet-then (Settled tcp_value x) _ _ (d ∷ x)
                    (and_then-Quiet kernel reused _
                      (set_timeouts-Quiet kernel platform d timeout_ms))
                    (λ configured.
                      leaves-if (Settled tcp_value x) (not configured) _ _ (d ∷ x)
                        (λ e. leaves-abandon kernel tcp_value "setsockopt" d x)
                        (λ e. leaves-start_listening d port timeout_ms x)))))

  leaves-configure_accepted :
      (d timeout_ms : ℕ) (x : List ℕ)
      → Leaves (configure_accepted kernel platform d timeout_ms) (d ∷ x) (Settled tcp_value x)
  unfolding configure_accepted
  leaves-configure_accepted d timeout_ms x =
      quiet-then (Settled tcp_value x) _ _ (d ∷ x) (set_nonblocking-Quiet kernel platform d false)
        (λ blocking.
          quiet-then (Settled tcp_value x) _ _ (d ∷ x)
            (and_then-Quiet kernel blocking _ (set_timeouts-Quiet kernel platform d timeout_ms))
            (λ configured.
              leaves-if (Settled tcp_value x) (not configured) _ _ (d ∷ x)
                (λ e. leaves-abandon kernel tcp_value "setsockopt" d x)
                (λ e. leaves-make_handle kernel d timeout_ms x)))

  leaves-accept_waited :
      (listener timeout_ms : ℕ) (w : WaitResult) (code : ℕ) (x : List ℕ)
      → Leaves (accept_waited kernel platform listener timeout_ms w code) x (Settled tcp_value x)
  unfolding accept_waited accept_ready
  leaves-accept_waited listener timeout_ms timeout code x =
      leaves-refused tcp_value _ x (leaves-set_last _)
  leaves-accept_waited listener timeout_ms error code x =
      leaves-refused tcp_value _ x (leaves-set_last _)
  leaves-accept_waited listener timeout_ms ready code x =
      open-then (Settled tcp_value x) kernel (accept_on listener) _ _ x
        (leaves-refused tcp_value (set_error "accept") x (leaves-set_error "accept"))
        (λ d. leaves-configure_accepted d timeout_ms x)

  leaves-accept_from :
      (fuel : ℕ) (listener : Option ℕ) (timeout_ms : ℕ) (out_given : Bool) (x : List ℕ)
      → Leaves
          (accept_from kernel platform fuel listener timeout_ms out_given)
          x
          (Settled tcp_value x)
  unfolding accept_from
  leaves-accept_from fuel none timeout_ms out_given x =
      leaves-give (Settled tcp_value x) bad x (refl, refl)
  leaves-accept_from fuel (some listener) timeout_ms out_given x =
      leaves-if (Settled tcp_value x) (timeout_ms == 0 || not out_given) (give bad) _ x
        (λ bad_call. leaves-give (Settled tcp_value x) bad x (refl, refl))
        (λ good_call. quiet-then (Settled tcp_value x) _ _ x (now-Quiet kernel) (λ start.
          quiet-then (Settled tcp_value x) _ _ x
            (wait_for_socket-Quiet kernel platform fuel listener false _ 0)
            (λ w. leaves-accept_waited listener timeout_ms w.result w.error_code x)))

  -- Accepting that succeeds leaves open the new handle's descriptor and no other that it opened;
  -- accepting that fails leaves none.
  pub tcp_accept-Settled :
      (fuel : ℕ) (listener : Option TcpSocket) (timeout_ms : ℕ) (out_given : Bool) (x : List ℕ)
      → Leaves
          (tcp_accept kernel platform fuel listener timeout_ms out_given)
          x
          (Settled tcp_value x)
  unfolding tcp_accept
  tcp_accept-Settled fuel none timeout_ms out_given x =
      leaves-give (Settled tcp_value x) bad x (refl, refl)
  tcp_accept-Settled fuel (some listener) timeout_ms out_given x =
      leaves-accept_from fuel listener.value timeout_ms out_given x

  leaves-bind_udp :
      (d port timeout_ms : ℕ) (x : List ℕ)
      → Leaves (bind_udp kernel platform d port timeout_ms) (d ∷ x) (Settled udp_value x)
  unfolding bind_udp
  leaves-bind_udp d port timeout_ms x =
      quiet-then (Settled udp_value x) _ _ (d ∷ x) (succeeds-Quiet kernel (bind_any d port))
        (λ bound.
          leaves-if (Settled udp_value x) (not bound) _ _ (d ∷ x)
            (λ e. leaves-abandon kernel udp_value "UDP bind" d x)
            (λ e. leaves-make_udp_handle kernel d timeout_ms x))

  -- Binding that succeeds leaves open the handle's descriptor and no other that it opened; binding
  -- that fails leaves none.
  pub udp_bind_ipv4-Settled :
      (port timeout_ms : ℕ) (out_given : Bool) (x : List ℕ)
      → Leaves (udp_bind_ipv4 kernel platform port timeout_ms out_given) x (Settled udp_value x)
  unfolding udp_bind_ipv4
  udp_bind_ipv4-Settled port timeout_ms out_given x =
      leaves-if (Settled udp_value x) (timeout_ms == 0 || not out_given) (give bad) _ x
        (λ bad_call. leaves-give (Settled udp_value x) bad x (refl, refl))
        (λ good_call.
          open-then (Settled udp_value x) kernel (open_socket af_inet sock_dgram) _ _ x
            (leaves-refused udp_value (set_error "UDP socket") x (leaves-set_error "UDP socket"))
            (λ d.
              quiet-then (Settled udp_value x) _ _ (d ∷ x)
                (succeeds-Quiet kernel (set_option d "SO_REUSEADDR" 1))
                (λ reused.
                  quiet-then (Settled udp_value x) _ _ (d ∷ x)
                    (and_then-Quiet kernel reused _
                      (set_timeouts-Quiet kernel platform d timeout_ms))
                    (λ configured.
                      leaves-if (Settled udp_value x) (not configured) _ _ (d ∷ x)
                        (λ e. leaves-abandon kernel udp_value "UDP setsockopt" d x)
                        (λ e. leaves-bind_udp d port timeout_ms x)))))
