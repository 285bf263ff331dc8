-- ===== src/Runtime/Sockets.antt =====
-- The helpers of runtime/core/socket_provider.cpp, for POSIX: options, waiting, handles.
pub mod Open
pub mod Transfer
pub mod Addresses
pub mod Delivery
pub mod Filling
pub mod Waiting
pub mod Ownership
pub mod Leaks
pub mod Connecting
use Prim.Native.String.{String}
use ghost_media.Base.{
  ℕ, zero, suc, ◌+◌, ◌-◌, ◌*◌, ◌/◌, ◌%◌, ◌^◌, bit_and, bit_or, Bool, true, false, not, ◌&&◌, ◌||◌,
  Option, none, some, leb, ltb, ◌==◌, if◌then◌else◌,
}
use ghost_media.Abi.{Status, ok, internal, bad_argument}
use ghost_media.Runtime.Process.{
  Request, clock_now, allocate, set_option, get_flags, set_flags, select_on, close_it, Reply,
  LastError, code_of, said, Kernel, M, ◌>>=◌, ◌>>◌, give, call, drop_held, set_error, set_last,
  out_of_fuel,
}

-- Constants of the platform's headers, and whether it has SO_NOSIGPIPE (`__APPLE__`).
pub record Platform : Type 0 where
  pub fd_setsize : ℕ
  pub o_nonblock : ℕ
  pub eintr : ℕ
  pub einval : ℕ
  pub einprogress : ℕ
  pub ewouldblock : ℕ
  pub has_no_sigpipe : Bool

-- `value` is none for `kInvalidSocket`; times are in microseconds.
pub record TcpSocket : Type 0 where
  pub value : Option ℕ
  pub opened_at : ℕ
  pub default_timeout_ms : ℕ

pub record UdpSocket : Type 0 where
  pub value : Option ℕ
  pub default_timeout_ms : ℕ

-- What a call left behind its out-pointer.
pub data Out (H : Type 0) : Type 0 where
  untouched : Out H
  null_handle : Out H
  handle : H → Out H

pub record Opening (H : Type 0) : Type 0 where
  pub status : Status
  pub out : Out H

-- An `int` result that is 0.
abbrev pub succeeded : Option ℕ → Bool
succeeded none = false
succeeded (some n) = n == 0

abbrev pub is_valid : Option ℕ → Bool
is_valid none = false
is_valid (some d) = true

abbrev pub or_zero : Option ℕ → ℕ
or_zero none = 0
or_zero (some n) = n

-- `ensure_socket_runtime`.
abbrev pub socket_runtime : Bool
socket_runtime = true

pub data WaitResult : Type 0 where
  ready timeout error : WaitResult

pub record Waited : Type 0 where
  pub result : WaitResult
  pub error_code : ℕ

unfoldable pub operation_in_progress : Platform → ℕ → Bool
operation_in_progress platform code = code == platform.einprogress || code == platform.ewouldblock

module _ {S : Type 0} (kernel : Kernel S) where
  -- `a && b` of two calls, and `steady_clock::now`.
  unfoldable pub and_then : Bool → M S Bool → M S Bool
  and_then true m = m
  and_then false m = give false

  unfoldable pub succeeds : Request → M S Bool
  succeeds request = do reply ← call kernel request; give (succeeded reply.result)

  unfoldable pub now : M S ℕ
  now = do reply ← call kernel clock_now; give (or_zero reply.result)

  unfoldable pub close_socket : Option ℕ → M S (Unit {0})
  close_socket none = give tt
  close_socket (some d) = do reply ← call kernel (close_it d); drop_held d

  -- A `timeval` as its microseconds.
  unfoldable pub set_timeouts : Platform → ℕ → ℕ → M S Bool
  unfolding succeeds and_then
  set_timeouts platform d timeout_ms =
      let timeout = timeout_ms / 1000 * 1000000 + timeout_ms % 1000 * 1000 in
      do
        receive ← succeeds (set_option d "SO_RCVTIMEO" timeout)
        both ← and_then receive (succeeds (set_option d "SO_SNDTIMEO" timeout))
        elim platform.has_no_sigpipe [
          | false ↦ give both
          | true ↦ and_then both (succeeds (set_option d "SO_NOSIGPIPE" 1))
        ]

  abbrev pub new_flags : Platform → Bool → ℕ → ℕ
  new_flags platform true flags = bit_or flags platform.o_nonblock
  new_flags platform false flags = bit_and flags (2 ^ 32 - 1 - platform.o_nonblock)

  unfoldable pub set_nonblocking : Platform → ℕ → Bool → M S Bool
  unfolding succeeds
  set_nonblocking platform d enabled = do
    reply ← call kernel (get_flags d)
    elim reply.result [
      | none ↦ give false
      | some flags ↦ succeeds (set_flags d (new_flags platform enabled flags))
    ]

  -- The loop of `wait_for_socket` once the clock showed `time`; `fuel` bounds the waits.
  unfoldable pub wait_from : Platform → (fuel d : ℕ) → Bool → (deadline code time : ℕ) → M S Waited
  unfolding now
  wait_from platform zero d writable deadline code time = out_of_fuel
  wait_from platform (suc fuel) d writable deadline code time = elim (leb deadline time) [
    | true ↦ give record { result = timeout; error_code = code }
    | false ↦ do
      reply ← call kernel (select_on d writable (deadline - time))
      elim reply.result [
        | some n ↦ give record { result = if ltb 0 n then ready else timeout; error_code = code }
        | none ↦ elim (reply.errno == platform.eintr) [
          | true ↦ do next ← now; wait_from platform fuel d writable deadline reply.errno next
          | false ↦ give record { result = error; error_code = reply.errno }
        ]
      ]
  ]

  unfoldable pub wait_for_socket : Platform → (fuel d : ℕ) → Bool → (deadline code : ℕ) → M S Waited
  unfolding wait_from now
  wait_for_socket platform fuel d writable deadline code =
      if leb platform.fd_setsize d
      then give record { result = error; error_code = platform.einval }
      else (do time ← now; wait_from platform fuel d writable deadline code time)

  -- The caller has set the out-pointer to null.
  unfoldable pub make_handle : ℕ → ℕ → M S (Opening TcpSocket)
  unfolding close_socket now
  make_handle d timeout_ms = do
    memory ← call kernel allocate
    elim memory.result [
      | none ↦ do
        close_socket (some d)
        set_last (said "socket handle allocation failed")
        give record { status = internal; out = null_handle }
      | some address ↦ do
        time ← now
        give record {
          status = ok;
          out = handle record { value = some d; opened_at = time; default_timeout_ms = timeout_ms };
        }
    ]

  unfoldable pub make_udp_handle : ℕ → ℕ → M S (Opening UdpSocket)
  unfolding close_socket
  make_udp_handle d timeout_ms = do
    memory ← call kernel allocate
    elim memory.result [
      | none ↦ do
        close_socket (some d)
        set_last (said "UDP socket handle allocation failed")
        give record { status = internal; out = null_handle }
      | some address ↦ give record {
        status = ok;
        out = handle record { value = some d; default_timeout_ms = timeout_ms };
      }
    ]

  -- `set_error(operation, socket_error()); close_socket(d); return GM_INTERNAL;`
  unfoldable pub abandon : {H : Type 0} → String → ℕ → M S (Opening H)
  unfolding close_socket
  abandon operation d = do
    set_error operation
    close_socket (some d)
    give record { status = internal; out = null_handle }
