-- ===== src/Runtime/Tls.antt =====
-- `TlsSession::handshake` and `tls13_exporter_pair_with_pins` of runtime/core/tls_provider.cpp. The
-- TLS library and the socket of a session are parameters over an unknown state.
pub mod Draining
pub mod Handshake
pub mod Ends
use ghost_media.Base.{
  ℕ, zero, suc, ◌+◌, ◌-◌, ◌*◌, ◌/◌, ◌%◌, ◌^◌, max, Bool, true, false, not, ◌&&◌, ◌||◌, Option, none,
  some, List, [], ◌∷◌, ltb, leb, ◌==◌, if◌then◌else◌, length, replicate,
}
use ghost_media.Abi.{
  Status, ok, bad_argument, limit_exceeded, unauthorized, internal, Bytes, null, memory, size,
}
use ghost_media.Text.{codes}

-- What `SSL_do_handshake` and `SSL_get_error` report.
pub data Progress : Type 0 where
  complete want_read want_write broken : Progress

-- OpenSSL's calls on a connection and its two memory buffers. An empty list stands for a call of
-- `BIO_read` that fails.
pub record Tls (W : Type 0) : Type 0 where
  pub do_handshake : W → Progress × W
  pub verified : W → Bool
  pub alpn : W → List ℕ
  pub pending : W → ℕ
  pub read_output : W → List ℕ × W
  pub write_input : W → List ℕ → Bool × W

-- The calls of Runtime/Sockets on the session's socket, and the clock in microseconds.
pub record Link (W : Type 0) : Type 0 where
  pub clock : W → ℕ × W
  pub set_io_timeout : W → ℕ → Status × W
  pub send_all : W → List ℕ → Status × W
  pub receive : W → (Status × List ℕ) × W

abbrev pub maximum_pre_handshake_bytes : ℕ
maximum_pre_handshake_bytes = 32 * 1024

unfoldable pub same_bytes : List ℕ → List ℕ → Bool
same_bytes [] [] = true
same_bytes (x ∷ xs) (y ∷ ys) = x == y && same_bytes xs ys
same_bytes _ _ = false

-- What a call leaves; none if the fuel of a loop ran out.
abbrev pub Result : Type 0 → Type 0
Result W = Option (Status × W)

-- The status, the bytes that were received so far, and the state.
pub record Step (W : Type 0) : Type 0 where
  pub status : Status
  pub total : ℕ
  pub world : W

module _ {W : Type 0} (tls : Tls W) (link : Link W) where
  unfoldable pub negotiated_required_alpn : W → Bool
  unfolding same_bytes
  negotiated_required_alpn w = same_bytes (tls.alpn w) (codes "ghostmedia/1")

  -- With the deadline given.
  unfoldable pub apply_deadline : (deadline : ℕ) → W → Status × W
  apply_deadline deadline w =
      let (time, asked) = link.clock w in
      if leb deadline time
      then (limit_exceeded, asked)
      else link.set_io_timeout asked (max 1 ((deadline - time) / 1000) % 2 ^ 32)

  unfoldable pub after : Status × W → (W → Result W) → Result W
  after (ok, w) next = next w
  after (other, w) next = some (other, w)

  unfoldable pub after_loop : Result W → (W → Result W) → Result W
  unfolding after
  after_loop none next = none
  after_loop (some r) next = after r next

  -- The loop that sends what the connection has written; each round takes a byte at least, or ends.
  unfoldable pub drain_from : (fuel deadline : ℕ) → W → Result W
  unfolding after apply_deadline
  drain_from zero deadline w = elim (tls.pending w == 0) [ true ↦ some (ok, w) | false ↦ none ]
  drain_from (suc fuel) deadline w = elim (tls.pending w == 0) [
    | true ↦ some (ok, w)
    | false ↦
        let (bytes, taken) = tls.read_output w in
        elim (length bytes == 0) [
          | true ↦ some (internal, taken)
          | false ↦
              after (apply_deadline deadline taken)
                (λ timed. after (link.send_all timed bytes) (λ sent. drain_from fuel deadline sent))
        ]
  ]

  unfoldable pub drain_encrypted_output : (deadline : ℕ) → W → Result W
  unfolding drain_from
  drain_encrypted_output deadline w = drain_from (tls.pending w) deadline w

  unfoldable pub feed : List ℕ → (total : ℕ) → W → Step W
  feed bytes total w =
      if ltb maximum_pre_handshake_bytes (total + length bytes)
      then record { status = limit_exceeded; total = total + length bytes; world = w }
      else (let (whole, written) = tls.write_input w bytes in
          record {
            status = if whole then ok else internal;
            total = total + length bytes;
            world = written;
          })

  unfoldable pub take_received : (total : ℕ) → (Status × List ℕ) × W → Step W
  unfolding feed
  take_received total ((ok, bytes), w) = feed bytes total w
  take_received total ((other, bytes), w) = record { status = other; total = total; world = w }

  unfoldable pub receive_timed : (total : ℕ) → Status × W → Step W
  unfolding take_received
  receive_timed total (ok, w) = take_received total (link.receive w)
  receive_timed total (other, w) = record { status = other; total = total; world = w }

  unfoldable pub receive_encrypted_input : (deadline total : ℕ) → W → Step W
  unfolding apply_deadline receive_timed
  receive_encrypted_input deadline total w = receive_timed total (apply_deadline deadline w)

  unfoldable pub judge : W → Result W
  unfolding negotiated_required_alpn
  judge w = some (if tls.verified w && negotiated_required_alpn w then ok else unauthorized, w)

  -- The handshake is complete.
  unfoldable pub conclude : (default_timeout_ms : ℕ) → W → Result W
  unfolding after judge
  conclude default_timeout_ms w =
      if default_timeout_ms == 0
      then judge w
      else after (link.set_io_timeout w default_timeout_ms) judge

  unfoldable pub resume : Step W → ((total : ℕ) → W → Result W) → Result W
  resume step next = elim step.status [
    | ok ↦ next step.total step.world
    | other ↦ some (other, step.world)
  ]

  -- A round behind the library's call; `next` is the next one.
  unfoldable pub proceed :
      Progress
      → (default_timeout_ms deadline total : ℕ) → ((total : ℕ) → W → Result W)
      → W
      → Result W
  unfolding conclude receive_encrypted_input resume
  proceed complete default_timeout_ms deadline total next w = conclude default_timeout_ms w
  proceed want_write default_timeout_ms deadline total next w = next total w
  proceed want_read default_timeout_ms deadline total next w =
      resume (receive_encrypted_input deadline total w) next
  proceed broken default_timeout_ms deadline total next w = some (unauthorized, w)

  unfoldable pub handshake_from : (rounds default_timeout_ms deadline total : ℕ) → W → Result W
  unfolding after_loop drain_encrypted_output proceed
  handshake_from zero default_timeout_ms deadline total w = some (limit_exceeded, w)
  handshake_from (suc rounds) default_timeout_ms deadline total w =
      let (time, asked) = link.clock w in
      elim (leb deadline time) [
        | true ↦ some (limit_exceeded, asked)
        | false ↦
            let (progress, stepped) = tls.do_handshake asked in
            after_loop (drain_encrypted_output deadline stepped) (
              proceed progress default_timeout_ms deadline total
                (λ received. handshake_from rounds default_timeout_ms deadline received))
      ]

  -- `is_usable`: the session has a connection and a socket.
  unfoldable pub handshake : (is_usable : Bool) → (default_timeout_ms deadline : ℕ) → W → Result W
  unfolding handshake_from
  handshake false default_timeout_ms deadline w = some (bad_argument, w)
  handshake true default_timeout_ms deadline w = handshake_from 256 default_timeout_ms deadline 0 w
