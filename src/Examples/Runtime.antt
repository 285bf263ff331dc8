-- ===== src/Examples/Runtime.antt =====
-- Instances of the theorems on sockets and certificates, with a small kernel.
use ghost_media.Base.{
  if◌then◌else◌, ltb, ◌-◌, ◌==◌, ℕ, suc, ◌+◌, ◌≡◌, ◌↔◌, refl, min, true, false, Option, none, some,
  List, [], ◌∷◌, length, replicate, length-replicate, arith, ◌++◌, take, drop, take-append-drop,
  take_all, ap, sym,
}
use ghost_media.Abi.{ok, memory}
use ghost_media.Runtime.Certificate.{
  X509, negative, positive, key_usage, client_auth, server_auth, other_nid, valid,
  certificate_profile,
}
use ghost_media.Runtime.Certificate.Profile.{IsIdentity, certificate_profile_lem}
use ghost_media.Text.{codes}
use ghost_media.Runtime.Tls.{Tls, Link, complete, want_read, handshake, drain_encrypted_output}
use ghost_media.Runtime.Tls.Handshake.{Established, handshake-Established}
use ghost_media.Runtime.Tls.Ends.{Ends}
use ghost_media.Runtime.Tls.Draining.{IsBuffer, Drained, drain_encrypted_output-Drained}
use ghost_media.Runtime.Pair.{Peer, PairLibrary, Outputs, exporter_pair_with_pins}
use ghost_media.Runtime.Pair.Agreement.{Agrees, Sized, exporter_pair_with_pins-Agrees}
use ghost_media.Runtime.Process.{
  clock_now, send_on, receive_on, select_on, accept_on, open_socket, open_for, Reply, no_error,
  Process, Kernel,
}
use ghost_media.Runtime.Owned.{After}
use ghost_media.Runtime.Sockets.{Platform, TcpSocket}
use ghost_media.Runtime.Sockets.Open.{tcp_listen_ipv4, tcp_accept, tcp_connect, udp_bind_ipv4}
use ghost_media.Runtime.Sockets.Transfer.{tcp_send_all, receive_exact_from}
use ghost_media.Runtime.Sockets.Ownership.{Settled, tcp_value, udp_value}
use ghost_media.Runtime.Sockets.Leaks.{
  tcp_listen_ipv4-Settled, tcp_accept-Settled, udp_bind_ipv4-Settled,
}
use ghost_media.Runtime.Sockets.Connecting.{tcp_connect-Settled}
use ghost_media.Runtime.Sockets.Delivery.{IsStreamKernel, Sent, tcp_send_all-Sent}
use ghost_media.Runtime.Sockets.Filling.{Filled, receive_exact-Filled}

abbrev answer : Option ℕ → List ℕ → Reply
answer result bytes = record {
  result = result;
  errno = 4;
  value = 0;
  family = 2;
  bytes = bytes;
  addresses = 1 ∷ 2 ∷ [];
}

-- A kernel with a clock for its state. It takes up to three bytes and hands over up to two, its
-- waits are interrupted up to time 3, and it opens descriptor 7.
toy : Kernel ℕ
toy time clock_now = (answer (some time) [], time)
toy time (send_on d chunk) = (answer (some (min 3 (length chunk))) [], time)
toy time (receive_on d capacity) =
    (answer (some (min 2 capacity)) (replicate (min 2 capacity) 9), time)
toy time (select_on d writable timeout_us) =
    if ltb time 3 then (answer none [], time + 1) else (answer (some 0) [], time + timeout_us)
toy time (open_socket family kind) = (answer (some 7) [], time)
toy time (open_for address) = (answer (some 7) [], time)
toy time (accept_on d) = (answer (some 8) [], time)
toy time _ = (answer (some 0) [], time)

abbrev platform : Platform
platform = record {
  fd_setsize = 1024;
  o_nonblock = 2048;
  eintr = 4;
  einval = 22;
  einprogress = 115;
  ewouldblock = 11;
  has_no_sigpipe = true;
}

abbrev process : Process ℕ
process = record {
  os = 0;
  errno = 0;
  last_error = no_error;
  held = 3 ∷ [];
  sent = 1 ∷ [];
  received = [];
}

abbrev socket : TcpSocket
socket = record { value = some 3; opened_at = 0; default_timeout_ms = 10 }

toy-IsStreamKernel : IsStreamKernel toy
unfolding toy
toy-IsStreamKernel = record {
  sends_offered = λ s d n chunk e. ground (arith, e);
  receives_room = λ s d n capacity e. ground (arith, e);
  receives_bytes =
      λ s d n capacity e. ground (arith, e, length-replicate {A = ℕ} (min 2 capacity) 9);
}

abbrev signals_left : ℕ → ℕ
signals_left time = 3 - time

tcp_send_all-Sent_example :
    Sent
      (5 ∷ 6 ∷ 7 ∷ 8 ∷ [])
      (1 ∷ [])
      (tcp_send_all toy (some socket) (memory (5 ∷ 6 ∷ 7 ∷ 8 ∷ [])) process)
tcp_send_all-Sent_example =
    tcp_send_all-Sent toy toy-IsStreamKernel socket 3 (5 ∷ 6 ∷ 7 ∷ 8 ∷ []) process refl

receive_exact-Filled_example :
    Filled (0 ∷ 0 ∷ 0 ∷ []) [] (receive_exact_from toy 3 3 (0 ∷ 0 ∷ 0 ∷ []) 0 process)
receive_exact-Filled_example =
    receive_exact-Filled toy toy-IsStreamKernel 3 (0 ∷ 0 ∷ 0 ∷ []) process

tcp_listen_ipv4-Settled_example :
    After (Settled tcp_value (3 ∷ [])) (tcp_listen_ipv4 toy platform 4000 10 true process)
tcp_listen_ipv4-Settled_example =
    tcp_listen_ipv4-Settled toy platform 4000 10 true (3 ∷ []) process refl

tcp_accept-Settled_example :
    After (Settled tcp_value (3 ∷ [])) (tcp_accept toy platform 20000 (some socket) 10 true process)
tcp_accept-Settled_example =
    tcp_accept-Settled toy platform 20000 (some socket) 10 true (3 ∷ []) process refl

tcp_connect-Settled_example :
    After
      (Settled tcp_value (3 ∷ []))
      (tcp_connect toy platform 20000 (some (104 ∷ 0 ∷ [])) 4000 10 true process)
tcp_connect-Settled_example =
    tcp_connect-Settled toy platform 20000 (some (104 ∷ 0 ∷ [])) 4000 10 true (3 ∷ []) process refl

udp_bind_ipv4-Settled_example :
    After (Settled udp_value (3 ∷ [])) (udp_bind_ipv4 toy platform 4000 10 true process)
udp_bind_ipv4-Settled_example =
    udp_bind_ipv4-Settled toy platform 4000 10 true (3 ∷ []) process refl

abbrev identity : X509
identity = record {
  der_size = 350;
  version = 2;
  not_before_to_now = negative;
  not_after_to_now = positive;
  validity_days = some 397;
  validity_seconds = 10;
  serial_length = 16;
  has_subject_alt_name = false;
  same_names = true;
  key_is_ed25519 = some true;
  verifies = true;
  signature_is_ed25519 = true;
  constraints_ca = some false;
  constraints_critical = true;
  usage = some record { bytes = 1; bit = λ k. k == 0 };
  usage_critical = true;
  extended_usage = some (server_auth ∷ client_auth ∷ []);
  extensions =
      record { nid = key_usage; critical = true }
      ∷ record { nid = other_nid 82; critical = false }
      ∷ [];
}

identity_valid : certificate_profile (some identity) ≡ valid
unfolding certificate_profile
identity_valid = refl

certificate_profile_lem_example :
    (certificate_profile (some identity) ≡ valid) ↔ IsIdentity identity
certificate_profile_lem_example = certificate_profile_lem identity

-- A library whose handshake takes two calls; the world counts the calls.
abbrev library : Tls ℕ
library = record {
  do_handshake = λ w. (if ltb w 3 then want_read else complete, suc w);
  verified = λ w. true;
  alpn = λ w. codes "ghostmedia/1";
  pending = λ w. 0;
  read_output = λ w. ([], w);
  write_input = λ w bytes. (true, w);
}

abbrev link : Link ℕ
link = record {
  clock = λ w. (w, w);
  set_io_timeout = λ w t. (ok, w);
  send_all = λ w bytes. (ok, w);
  receive = λ w. ((ok, 1 ∷ 2 ∷ []), w);
}

handshake_done : handshake library link true 5 100 0 ≡ some (ok, 4)
unfolding handshake
handshake_done = refl

handshake-Established_example : Established library (handshake library link true 5 100 0)
handshake-Established_example = handshake-Established library link true 5 100 0

-- A connection that has written some bytes, and those that its socket took.
record Stream : Type 0 where
  written : List ℕ
  delivered : List ℕ

abbrev filled_library : Tls Stream
filled_library = record {
  do_handshake = λ w. (complete, w);
  verified = λ w. true;
  alpn = λ w. codes "ghostmedia/1";
  pending = λ w. length w.written;
  read_output = λ w. (take 2 w.written, record w { written = drop 2 w.written });
  write_input = λ w bytes. (true, w);
}

abbrev quiet_link : Link Stream
quiet_link = record {
  clock = λ w. (0, w);
  set_io_timeout = λ w t. (ok, w);
  send_all = λ w bytes. (ok, record w { delivered = w.delivered ++ bytes });
  receive = λ w. ((ok, []), w);
}

abbrev written : Stream → List ℕ
written w = w.written

abbrev delivered : Stream → List ℕ
delivered w = w.delivered

filled-IsBuffer : IsBuffer filled_library quiet_link written delivered
filled-IsBuffer = record {
  counted = λ w. refl;
  reads = λ w. take-append-drop 2 w.written;
  read_keeps = λ w. refl;
  clock_keeps = λ w. (refl, refl);
  timeout_keeps = λ w t. (refl, refl);
  send_keeps = λ w b. refl;
  sends_front = λ w b. (length b, ap (λ t. w.delivered ++ t) (sym (take_all (length b) b refl)));
  sends_whole = λ w b e. refl;
}

abbrev greeting : Stream
greeting = record { written = 22 ∷ 3 ∷ 4 ∷ []; delivered = 1 ∷ [] }

drain_encrypted_output-Drained_example :
    Drained written delivered greeting
      (drain_encrypted_output filled_library quiet_link 100 greeting)
drain_encrypted_output-Drained_example =
    drain_encrypted_output-Drained filled_library quiet_link written delivered filled-IsBuffer 100
      greeting

greeting_sent :
    drain_encrypted_output filled_library quiet_link 100 greeting
    ≡ some (ok, record { written = []; delivered = 1 ∷ 22 ∷ 3 ∷ 4 ∷ [] })
unfolding drain_encrypted_output
greeting_sent = refl

abbrev exporting : List ℕ → Peer ℕ
exporting context = record {
  do_handshake = λ w. (complete, suc w);
  verified = λ w. true;
  alpn = λ w. codes "ghostmedia/1";
  export = λ w. ((true, context), w);
}

abbrev pair : PairLibrary ℕ
pair = record { connect = λ s c. some 0; client = exporting; server = exporting }

-- Arrays with the bytes of an earlier call.
abbrev used : Outputs
used = record { client = replicate 64 7; server = replicate 64 8 }

used-Sized : Sized used
used-Sized = record { client = refl; server = refl }

exporter_pair_with_pins-Agrees_example :
    Agrees (exporting (replicate 32 3)) (exporting (replicate 32 3)) (
      exporter_pair_with_pins pair
        (memory (replicate 32 1))
        (memory (replicate 32 2))
        (memory (replicate 32 3))
        used)
exporter_pair_with_pins-Agrees_example =
    exporter_pair_with_pins-Agrees pair (memory (replicate 32 1)) (memory (replicate 32 2))
      (memory (replicate 32 3)) used used-Sized
