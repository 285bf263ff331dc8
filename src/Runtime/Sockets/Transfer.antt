-- ===== src/Runtime/Sockets/Transfer.antt =====
-- Bytes over sockets, of runtime/core/socket_provider.cpp: `gm_runtime_tcp_send_all`,
-- `gm_runtime_tcp_receive`, `gm_runtime_tcp_receive_exact` and the two UDP calls.
use ghost_media.Base.{
  ℕ, zero, suc, ◌+◌, ◌-◌, Bool, true, false, not, ◌||◌, Option, none, some, List, [], ◌∷◌, ltb,
  ◌==◌, if◌then◌else◌, length, drop,
}
use ghost_media.Abi.{Status, ok, internal, bad_argument, Bytes, null, memory}
use ghost_media.Wire.{byte_at, copy_at}
use ghost_media.Media.Header.{media_min_datagram_bytes, media_max_datagram_bytes}
use ghost_media.Runtime.Process.{
  receive_on, send_to, look_up, free_addresses, said, Kernel, M, ◌>>=◌, ◌>>◌, give, call, set_error,
  set_last, out_of_fuel, send_call, note_received,
}
use ghost_media.Runtime.Sockets.{TcpSocket, UdpSocket, succeeded}
use ghost_media.Runtime.Sockets.Open.{sock_dgram}

-- The descriptor of a handle that can be used.
abbrev pub tcp_descriptor : Option TcpSocket → Option ℕ
tcp_descriptor none = none
tcp_descriptor (some s) = s.value

abbrev pub udp_descriptor : Option UdpSocket → Option ℕ
udp_descriptor none = none
udp_descriptor (some s) = s.value

-- What a receiving call leaves in its output and behind `received`.
pub record Receipt : Type 0 where
  pub status : Status
  pub buffer : List ℕ
  pub count : ℕ

module _ {S : Type 0} (kernel : Kernel S) where
  -- The loop of `gm_runtime_tcp_send_all` from `sent_total` on; each round sends at least a byte.
  unfoldable pub send_from : (fuel d : ℕ) → List ℕ → (sent_total : ℕ) → M S Status
  send_from zero d bytes sent_total = elim (ltb sent_total (length bytes)) [
    | true ↦ out_of_fuel
    | false ↦ give ok
  ]
  send_from (suc fuel) d bytes sent_total = elim (ltb sent_total (length bytes)) [
    | false ↦ give ok
    | true ↦ do
      reply ← send_call kernel d (drop sent_total bytes)
      elim reply.result [
        | none ↦ do set_error "send"; give internal
        | some sent ↦ elim (sent == 0) [
          | true ↦ do set_last (said "send returned zero bytes"); give internal
          | false ↦ send_from fuel d bytes (sent_total + sent)
        ]
      ]
  ]

  unfoldable pub send_all_on : Option ℕ → Bytes → M S Status
  unfolding send_from
  send_all_on none bytes = give bad_argument
  send_all_on (some d) (null n) = if n == 0 then give ok else give bad_argument
  send_all_on (some d) (memory bytes) = send_from (length bytes) d bytes 0

  unfoldable pub tcp_send_all : Option TcpSocket → Bytes → M S Status
  unfolding send_all_on
  tcp_send_all connection bytes = send_all_on (tcp_descriptor connection) bytes

  -- `gm_runtime_tcp_receive` into the output from `offset` on, behind its argument checks.
  unfoldable pub receive_at : ℕ → List ℕ → (offset : ℕ) → M S Receipt
  receive_at d output offset = do
    reply ← call kernel (receive_on d (length output - offset))
    elim reply.result [
      | none ↦ do set_error "recv"; give record { status = internal; buffer = output; count = 0 }
      | some received ↦ elim (received == 0) [
        | true ↦ do
          set_last (said "peer closed the TCP connection")
          give record { status = internal; buffer = output; count = 0 }
        | false ↦ do
          note_received reply.bytes
          give record { status = ok; buffer = copy_at output offset reply.bytes; count = received }
      ]
    ]

  -- With none for an output or a count that the call leaves alone.
  unfoldable pub receive_on_socket : Option ℕ → Bytes → Bool → M S (Option Receipt × Status)
  unfolding receive_at
  receive_on_socket none output received_given = give (none, bad_argument)
  receive_on_socket (some d) (null n) received_given = give (none, bad_argument)
  receive_on_socket (some d) (memory output) received_given =
      if length output == 0 || not received_given
      then give (none, bad_argument)
      else (do receipt ← receive_at d output 0; give (some receipt, receipt.status))

  unfoldable pub tcp_receive : Option TcpSocket → Bytes → Bool → M S (Option Receipt × Status)
  unfolding receive_on_socket
  tcp_receive connection output received_given =
      receive_on_socket (tcp_descriptor connection) output received_given

  -- The loop of `gm_runtime_tcp_receive_exact` from `received_total` on.
  unfoldable pub receive_exact_from : (fuel d : ℕ) → List ℕ → (received_total : ℕ) → M S Receipt
  unfolding receive_at
  receive_exact_from zero d output received_total = elim (ltb received_total (length output)) [
    | true ↦ out_of_fuel
    | false ↦ give record { status = ok; buffer = output; count = received_total }
  ]
  receive_exact_from (suc fuel) d output received_total =
      elim (ltb received_total (length output)) [
        | false ↦ give record { status = ok; buffer = output; count = received_total }
        | true ↦ do
          receipt ← receive_at d output received_total
          elim receipt.status [
            | ok ↦ receive_exact_from fuel d receipt.buffer (received_total + receipt.count)
            | other ↦
                give record { status = other; buffer = receipt.buffer; count = received_total }
          ]
      ]

  unfoldable pub receive_exact_on : Option ℕ → Bytes → M S (Option Receipt × Status)
  unfolding receive_exact_from
  receive_exact_on none output = give (none, bad_argument)
  receive_exact_on (some d) (null n) = if n == 0 then give (none, ok) else give (none, bad_argument)
  receive_exact_on (some d) (memory output) = do
    receipt ← receive_exact_from (length output) d output 0
    give (some receipt, receipt.status)

  unfoldable pub tcp_receive_exact : Option TcpSocket → Bytes → M S (Option Receipt × Status)
  unfolding receive_exact_on
  tcp_receive_exact connection output = receive_exact_on (tcp_descriptor connection) output

  unfoldable pub send_to_first : ℕ → List ℕ → List ℕ → M S Status
  send_to_first d datagram [] = do set_error "UDP getaddrinfo"; give internal
  send_to_first d datagram (address ∷ rest) = do
    reply ← call kernel (send_to d datagram address)
    freed ← call kernel (free_addresses (address ∷ rest))
    elim reply.result [
      | none ↦ do set_error "UDP sendto"; give internal
      | some sent ↦
          if sent == length datagram then give ok else (do set_error "UDP sendto"; give internal)
    ]

  unfoldable pub send_to_host : ℕ → List ℕ → (port : ℕ) → List ℕ → M S Status
  unfolding send_to_first
  send_to_host d host port datagram = do
    found ← call kernel (look_up host port sock_dgram)
    if not (succeeded found.result)
        then (do set_error "UDP getaddrinfo"; give internal)
        else send_to_first d datagram found.addresses

  unfoldable pub udp_send_on : Option ℕ → Option (List ℕ) → (port : ℕ) → Bytes → M S Status
  unfolding send_to_host
  udp_send_on (some d) (some host) port (memory datagram) =
      if byte_at host 0 == 0
        || port == 0
        || ltb (length datagram) media_min_datagram_bytes
        || ltb media_max_datagram_bytes (length datagram)
      then give bad_argument
      else send_to_host d host port datagram
  udp_send_on _ _ port _ = give bad_argument

  unfoldable pub udp_send_to : Option UdpSocket → Option (List ℕ) → (port : ℕ) → Bytes → M S Status
  unfolding udp_send_on
  udp_send_to s host port datagram = udp_send_on (udp_descriptor s) host port datagram
