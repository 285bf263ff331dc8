-- ===== src/Runtime/Sockets/Addresses.antt =====
-- The calls of runtime/core/socket_provider.cpp that ask for addresses, the UDP receive, and
-- `tcp_socket_set_io_timeout`.
use Prim.Native.String.{String}
use ghost_media.Base.{
  ℕ, Bool, not, ◌||◌, Option, none, some, List, [], ◌∷◌, ltb, ◌==◌, if◌then◌else◌, length, get_or,
}
use ghost_media.Abi.{Status, ok, internal, bad_argument, Bytes, memory}
use ghost_media.Wire.{copy_at}
use ghost_media.Media.Header.{media_min_datagram_bytes, media_max_datagram_bytes}
use ghost_media.Runtime.Process.{
  socket_name, peer_name, print_address, receive_from, Reply, Kernel, M, ◌>>=◌, ◌>>◌, give, call,
  set_error,
}
use ghost_media.Runtime.Sockets.{Platform, TcpSocket, UdpSocket, succeeded, is_valid, set_timeouts}
use ghost_media.Runtime.Sockets.Open.{af_inet}
use ghost_media.Runtime.Sockets.Transfer.{tcp_descriptor, udp_descriptor}

abbrev pub inet_addrstrlen : ℕ
inet_addrstrlen = 16

-- What a query leaves behind its pointers; none where it leaves them alone.
pub record Located : Type 0 where
  pub status : Status
  pub host : Option (List ℕ)
  pub port : Option ℕ

abbrev located_badly : Located
located_badly = record { status = bad_argument; host = none; port = none }

pub record Datagram : Type 0 where
  pub status : Status
  pub output : Bytes
  pub received : Option ℕ
  pub source_host : Option (List ℕ)
  pub source_port : Option ℕ

abbrev address_of : Reply → ℕ
address_of reply = get_or reply.addresses 0 0

module _ {S : Type 0} (kernel : Kernel S) where
  unfoldable pub local_port : String → Option ℕ → Bool → M S Located
  local_port operation none port_given = give located_badly
  local_port operation (some d) port_given = if not port_given then give located_badly else (do
    reply ← call kernel (socket_name d)
    if not (succeeded reply.result) || not (reply.family == af_inet)
        then (do set_error operation; give record { status = internal; host = none; port = none })
        else give record { status = ok; host = none; port = some reply.value })

  unfoldable pub tcp_local_port : Option TcpSocket → Bool → M S Located
  unfolding local_port
  tcp_local_port s port_given = local_port "getsockname" (tcp_descriptor s) port_given

  unfoldable pub udp_local_port : Option UdpSocket → Bool → M S Located
  unfolding local_port
  udp_local_port s port_given = local_port "UDP getsockname" (udp_descriptor s) port_given

  abbrev unnamed : Located
  unnamed = record { status = internal; host = some (0 ∷ []); port = some 0 }

  unfoldable pub peer_of : ℕ → (host_capacity : ℕ) → M S Located
  peer_of d host_capacity = do
    reply ← call kernel (peer_name d)
    if not (succeeded reply.result) || not (reply.family == af_inet)
        then (do set_error "getpeername"; give unnamed)
        else (do
          text ← call kernel (print_address (address_of reply) host_capacity)
          if not (is_valid text.result)
              then (do set_error "getpeername"; give unnamed)
              else give record { status = ok; host = some text.bytes; port = some reply.value })

  unfoldable pub peer_ipv4_on : Option ℕ → Bool → (host_capacity : ℕ) → Bool → M S Located
  unfolding peer_of
  peer_ipv4_on none host_given host_capacity port_given = give located_badly
  peer_ipv4_on (some d) host_given host_capacity port_given =
      if not host_given || ltb host_capacity inet_addrstrlen || not port_given
      then give located_badly
      else peer_of d host_capacity

  unfoldable pub tcp_peer_ipv4 : Option TcpSocket → Bool → (host_capacity : ℕ) → Bool → M S Located
  unfolding peer_ipv4_on
  tcp_peer_ipv4 s host_given host_capacity port_given =
      peer_ipv4_on (tcp_descriptor s) host_given host_capacity port_given

  abbrev nothing : Status → List ℕ → Datagram
  nothing status output = record {
    status = status;
    output = memory output;
    received = some 0;
    source_host = some (0 ∷ []);
    source_port = some 0;
  }

  -- The datagram was received into the output; its source decides the rest.
  unfoldable pub name_source : Reply → ℕ → List ℕ → (host_capacity : ℕ) → M S Datagram
  name_source reply count output host_capacity =
      if not (reply.family == af_inet)
      then (do set_error "UDP source address"; give (nothing internal output))
      else (do
        text ← call kernel (print_address (address_of reply) host_capacity)
        if not (is_valid text.result)
            then (do set_error "UDP source address"; give (nothing internal output))
            else give record {
              status = ok;
              output = memory output;
              received = some count;
              source_host = some text.bytes;
              source_port = some reply.value;
            })

  unfoldable pub receive_datagram : ℕ → List ℕ → (host_capacity : ℕ) → M S Datagram
  unfolding name_source
  receive_datagram d output host_capacity = do
    reply ← call kernel (receive_from d (length output))
    elim reply.result [
      | none ↦ do set_error "UDP recvfrom"; give (nothing internal output)
      | some count ↦ name_source reply count (copy_at output 0 reply.bytes) host_capacity
    ]

  -- `pointers_given`: none of the three other pointers is null.
  unfoldable pub udp_receive_on : Option ℕ → Bytes → Bool → (host_capacity : ℕ) → M S Datagram
  unfolding receive_datagram
  udp_receive_on (some d) (memory output) pointers_given host_capacity =
      if ltb (length output) media_min_datagram_bytes
        || ltb media_max_datagram_bytes (length output)
        || not pointers_given
        || ltb host_capacity inet_addrstrlen
      then give record {
        status = bad_argument;
        output = memory output;
        received = none;
        source_host = none;
        source_port = none;
      }
      else receive_datagram d output host_capacity
  udp_receive_on _ output pointers_given host_capacity = give record {
    status = bad_argument;
    output = output;
    received = none;
    source_host = none;
    source_port = none;
  }

  unfoldable pub udp_receive_from :
      Option UdpSocket → Bytes → Bool → (host_capacity : ℕ) → M S Datagram
  unfolding udp_receive_on
  udp_receive_from s output pointers_given host_capacity =
      udp_receive_on (udp_descriptor s) output pointers_given host_capacity

  unfoldable pub set_io_timeout_on : Platform → Option ℕ → ℕ → M S Status
  unfolding set_timeouts
  set_io_timeout_on platform none timeout_ms = give bad_argument
  set_io_timeout_on platform (some d) timeout_ms =
      if timeout_ms == 0 then give bad_argument else (do
        configured ← set_timeouts kernel platform d timeout_ms
        if not configured then (do set_error "setsockopt"; give internal) else give ok)

  unfoldable pub tcp_socket_set_io_timeout : Platform → Option TcpSocket → ℕ → M S Status
  unfolding set_io_timeout_on
  tcp_socket_set_io_timeout platform s timeout_ms =
      set_io_timeout_on platform (tcp_descriptor s) timeout_ms
