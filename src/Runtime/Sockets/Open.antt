-- ===== src/Runtime/Sockets/Open.antt =====
-- Sockets that are opened and closed, of runtime/core/socket_provider.cpp: listening, accepting,
-- connecting and binding.
use ghost_media.Base.{
  ℕ, ◌+◌, ◌-◌, ◌*◌, ◌^◌, Bool, true, false, not, ◌||◌, Option, none, some, List, [], ◌∷◌, leb, ◌==◌,
  if◌then◌else◌,
}
use ghost_media.Abi.{internal, bad_argument}
use ghost_media.Wire.{byte_at}
use ghost_media.Runtime.Process.{
  open_socket, open_for, set_option, bind_any, listen_on, accept_on, connect_to, pending_error,
  look_up, free_addresses, code_of, said, Kernel, M, ◌>>=◌, ◌>>◌, give, call, open_call, last_errno,
  set_error, set_last,
}
use ghost_media.Runtime.Sockets.{
  Platform, TcpSocket, UdpSocket, untouched, null_handle, Opening, succeeded, socket_runtime,
  WaitResult, ready, timeout, error, operation_in_progress, and_then, succeeds, now, close_socket,
  set_timeouts, set_nonblocking, wait_for_socket, make_handle, make_udp_handle, abandon,
}

-- The protocol families and socket kinds that the code names.
abbrev pub af_inet : ℕ
af_inet = 2

abbrev pub sock_stream : ℕ
sock_stream = 1

abbrev pub sock_dgram : ℕ
sock_dgram = 2

abbrev pub refused : {H : Type 0} → Opening H
refused = record { status = internal; out = null_handle }

abbrev pub bad : {H : Type 0} → Opening H
bad = record { status = bad_argument; out = untouched }

-- The `int` that `getaddrinfo` returns.
abbrev pub lookup_code : Option ℕ → ℕ
lookup_code none = 2 ^ 32 - 1
lookup_code (some code) = code

-- How the connection loop goes on after an address.
pub data Attempt : Type 0 where
  connected : ℕ → Attempt
  next_address : (last_code : ℕ) → Attempt
  timed_out : (last_code : ℕ) → Attempt

module _ {S : Type 0} (kernel : Kernel S) (platform : Platform) where
  unfoldable pub start_listening : ℕ → (port timeout_ms : ℕ) → M S (Opening TcpSocket)
  unfolding succeeds and_then set_nonblocking abandon make_handle
  start_listening d port timeout_ms = do
    bound ← succeeds kernel (bind_any d port)
    listening ← and_then kernel bound (succeeds kernel (listen_on d 1))
    done ← and_then kernel listening (set_nonblocking kernel platform d true)
    if not done then abandon kernel "listen" d else make_handle kernel d timeout_ms

  unfoldable pub tcp_listen_ipv4 : (port timeout_ms : ℕ) → Bool → M S (Opening TcpSocket)
  unfolding open_call succeeds and_then set_timeouts abandon start_listening
  tcp_listen_ipv4 port timeout_ms out_given =
      if timeout_ms == 0 || not out_given
      then give bad
      else if not socket_runtime
      then (do set_last (said "socket runtime initialization failed"); give refused)
      else (do
        descriptor ← open_call kernel (open_socket af_inet sock_stream)
        elim descriptor [
          | none ↦ do set_error "socket"; give refused
          | some d ↦ do
            reused ← succeeds kernel (set_option d "SO_REUSEADDR" 1)
            configured ← and_then kernel reused (set_timeouts kernel platform d timeout_ms)
            if not configured
                then abandon kernel "setsockopt" d
                else start_listening d port timeout_ms
        ])

  unfoldable pub configure_accepted : ℕ → ℕ → M S (Opening TcpSocket)
  unfolding set_nonblocking and_then set_timeouts abandon make_handle
  configure_accepted d timeout_ms = do
    blocking ← set_nonblocking kernel platform d false
    configured ← and_then kernel blocking (set_timeouts kernel platform d timeout_ms)
    if not configured then abandon kernel "setsockopt" d else make_handle kernel d timeout_ms

  unfoldable pub accept_ready : ℕ → ℕ → M S (Opening TcpSocket)
  unfolding open_call configure_accepted
  accept_ready listener timeout_ms = do
    accepted ← open_call kernel (accept_on listener)
    elim accepted [
      | none ↦ do set_error "accept"; give refused
      | some d ↦ configure_accepted d timeout_ms
    ]

  unfoldable pub accept_waited : ℕ → ℕ → WaitResult → ℕ → M S (Opening TcpSocket)
  unfolding accept_ready
  accept_waited listener timeout_ms timeout code = do
    set_last (said "accept timed out")
    give refused
  accept_waited listener timeout_ms error code = do set_last (code_of "select" code); give refused
  accept_waited listener timeout_ms ready code = accept_ready listener timeout_ms

  unfoldable pub accept_from : (fuel : ℕ) → Option ℕ → ℕ → Bool → M S (Opening TcpSocket)
  unfolding now wait_for_socket accept_waited
  accept_from fuel none timeout_ms out_given = give bad
  accept_from fuel (some listener) timeout_ms out_given =
      if timeout_ms == 0 || not out_given then give bad else (do
        start ← now kernel
        waited ← wait_for_socket kernel platform fuel listener false (start + timeout_ms * 1000) 0
        accept_waited listener timeout_ms waited.result waited.error_code)

  unfoldable pub tcp_accept : (fuel : ℕ) → Option TcpSocket → ℕ → Bool → M S (Opening TcpSocket)
  unfolding accept_from
  tcp_accept fuel none timeout_ms out_given = give bad
  tcp_accept fuel (some listener) timeout_ms out_given =
      accept_from fuel listener.value timeout_ms out_given

  -- `last_code = code; close_socket(candidate); continue;`
  unfoldable pub give_up : ℕ → ℕ → M S Attempt
  unfolding close_socket
  give_up d code = do close_socket kernel (some d); give (next_address code)

  unfoldable pub finish_connect : ℕ → ℕ → M S Attempt
  unfolding set_nonblocking and_then set_timeouts give_up last_errno
  finish_connect d timeout_ms = do
    blocking ← set_nonblocking kernel platform d false
    configured ← and_then kernel blocking (set_timeouts kernel platform d timeout_ms)
    code ← last_errno
    if not configured then give_up d code else give (connected d)

  unfoldable pub check_pending : ℕ → ℕ → M S Attempt
  unfolding give_up finish_connect
  check_pending d timeout_ms = do
    reply ← call kernel (pending_error d)
    if not (succeeded reply.result) || not (reply.value == 0)
        then give_up d (if not (succeeded reply.result) then reply.errno else reply.value)
        else finish_connect d timeout_ms

  unfoldable pub connect_waited : ℕ → ℕ → WaitResult → ℕ → M S Attempt
  unfolding check_pending give_up close_socket
  connect_waited d timeout_ms ready code = check_pending d timeout_ms
  connect_waited d timeout_ms timeout code = do
    close_socket kernel (some d)
    set_last (said "connect timed out")
    give (timed_out code)
  connect_waited d timeout_ms error code = give_up d code

  unfoldable pub start_connect : (fuel d address timeout_ms deadline : ℕ) → M S Attempt
  unfolding finish_connect operation_in_progress give_up wait_for_socket connect_waited
  start_connect fuel d address timeout_ms deadline = do
    reply ← call kernel (connect_to d address)
    if succeeded reply.result
        then finish_connect d timeout_ms
        else if not (operation_in_progress platform reply.errno)
        then give_up d reply.errno
        else (do
          waited ← wait_for_socket kernel platform fuel d true deadline reply.errno
          connect_waited d timeout_ms waited.result waited.error_code)

  -- One round of the loop over the addresses, behind its test of the clock.
  unfoldable pub try_address : (fuel address timeout_ms deadline : ℕ) → M S Attempt
  unfolding open_call set_nonblocking give_up start_connect last_errno
  try_address fuel address timeout_ms deadline = do
    candidate ← open_call kernel (open_for address)
    elim candidate [
      | none ↦ do code ← last_errno; give (next_address code)
      | some d ↦ do
        changed ← set_nonblocking kernel platform d true
        failure ← last_errno
        if not changed then give_up d failure else start_connect fuel d address timeout_ms deadline
    ]

  unfoldable pub try_addresses :
      (fuel : ℕ) → List ℕ → (timeout_ms deadline last_code : ℕ) → M S Attempt
  unfolding try_address now
  try_addresses fuel [] timeout_ms deadline last_code = give (next_address last_code)
  try_addresses fuel (address ∷ rest) timeout_ms deadline last_code = do
    time ← now kernel
    elim (leb deadline time) [
      | true ↦ give (next_address last_code)
      | false ↦ do
        attempt ← try_address fuel address timeout_ms deadline
        elim attempt [
          | next_address code ↦ try_addresses fuel rest timeout_ms deadline code
          | connected d ↦ give (connected d)
          | timed_out code ↦ give (timed_out code)
        ]
    ]

  unfoldable pub connect_end : ℕ → Attempt → M S (Opening TcpSocket)
  unfolding make_handle
  connect_end timeout_ms (connected d) = make_handle kernel d timeout_ms
  connect_end timeout_ms (next_address code) = do set_last (code_of "connect" code); give refused
  connect_end timeout_ms (timed_out code) = give refused

  unfoldable pub connect_found : (fuel : ℕ) → List ℕ → ℕ → M S (Opening TcpSocket)
  unfolding now try_addresses connect_end
  connect_found fuel addresses timeout_ms = do
    start ← now kernel
    attempt ← try_addresses fuel addresses timeout_ms (start + timeout_ms * 1000) 0
    freed ← call kernel (free_addresses addresses)
    connect_end timeout_ms attempt

  unfoldable pub tcp_connect :
      (fuel : ℕ) → Option (List ℕ) → (port timeout_ms : ℕ) → Bool → M S (Opening TcpSocket)
  unfolding connect_found
  tcp_connect fuel none port timeout_ms out_given = give bad
  tcp_connect fuel (some host) port timeout_ms out_given =
      if byte_at host 0 == 0 || port == 0 || timeout_ms == 0 || not out_given
      then give bad
      else if not socket_runtime
      then (do set_last (said "socket runtime initialization failed"); give refused)
      else (do
        found ← call kernel (look_up host port sock_stream)
        if not (lookup_code found.result == 0)
            then (do set_last (code_of "getaddrinfo" (lookup_code found.result)); give refused)
            else connect_found fuel found.addresses timeout_ms)

  unfoldable pub bind_udp : ℕ → (port timeout_ms : ℕ) → M S (Opening UdpSocket)
  unfolding succeeds abandon make_udp_handle
  bind_udp d port timeout_ms = do
    bound ← succeeds kernel (bind_any d port)
    if not bound then abandon kernel "UDP bind" d else make_udp_handle kernel d timeout_ms

  unfoldable pub udp_bind_ipv4 : (port timeout_ms : ℕ) → Bool → M S (Opening UdpSocket)
  unfolding open_call succeeds and_then set_timeouts abandon bind_udp
  udp_bind_ipv4 port timeout_ms out_given =
      if timeout_ms == 0 || not out_given
      then give bad
      else if not socket_runtime
      then (do set_last (said "socket runtime initialization failed"); give refused)
      else (do
        descriptor ← open_call kernel (open_socket af_inet sock_dgram)
        elim descriptor [
          | none ↦ do set_error "UDP socket"; give refused
          | some d ↦ do
            reused ← succeeds kernel (set_option d "SO_REUSEADDR" 1)
            configured ← and_then kernel reused (set_timeouts kernel platform d timeout_ms)
            if not configured then abandon kernel "UDP setsockopt" d else bind_udp d port timeout_ms
        ])

  unfoldable pub tcp_socket_destroy : Option TcpSocket → M S (Unit {0})
  unfolding close_socket
  tcp_socket_destroy none = give tt
  tcp_socket_destroy (some s) = close_socket kernel s.value

  unfoldable pub udp_socket_destroy : Option UdpSocket → M S (Unit {0})
  unfolding close_socket
  udp_socket_destroy none = give tt
  udp_socket_destroy (some s) = close_socket kernel s.value
