-- ===== src/Runtime/Process.antt =====
-- A process that calls the POSIX kernel, as runtime/core/socket_provider.cpp does. The kernel is a
-- parameter: a function from its unknown state and a request to its reply and next state.
use Prim.Native.String.{String}
use ghost_media.Base.{ℕ, ◌==◌, Bool, Option, none, some, List, [], ◌∷◌, ◌++◌, take, if◌then◌else◌}

-- The calls. A socket is opened for IPv4 or IPv6 (a family), for a stream or for datagrams.
pub data Request : Type 0 where
  clock_now : Request
  allocate : Request
  open_socket : (family kind : ℕ) → Request
  open_for : (address : ℕ) → Request
  set_option : ℕ → String → ℕ → Request
  get_flags : ℕ → Request
  set_flags : ℕ → ℕ → Request
  bind_any : ℕ → (port : ℕ) → Request
  listen_on : ℕ → (backlog : ℕ) → Request
  accept_on : ℕ → Request
  connect_to : ℕ → (address : ℕ) → Request
  pending_error : ℕ → Request
  select_on : ℕ → (writable : Bool) → (timeout_us : ℕ) → Request
  look_up : (host : List ℕ) → (port kind : ℕ) → Request
  free_addresses : List ℕ → Request
  send_on : ℕ → List ℕ → Request
  receive_on : ℕ → (capacity : ℕ) → Request
  send_to : ℕ → List ℕ → (address : ℕ) → Request
  receive_from : ℕ → (capacity : ℕ) → Request
  socket_name : ℕ → Request
  peer_name : ℕ → Request
  print_address : (address capacity : ℕ) → Request
  close_it : ℕ → Request

-- `result` is none for -1 (and for a null pointer); `errno` is what a
-- failed call leaves, `value` what it stores through a pointer to an integer, `family` and `addresses`
-- the address that it stores, of a family and with a port in `value`, or those that it found.
pub record Reply : Type 0 where
  pub result : Option ℕ
  pub errno : ℕ
  pub value : ℕ
  pub bytes : List ℕ
  pub family : ℕ
  pub addresses : List ℕ

-- `last_error`, by what it is composed of.
pub data LastError : Type 0 where
  no_error : LastError
  said : String → LastError
  code_of : String → ℕ → LastError

-- The kernel, the thread's variables, and three records of what was done, which no code reads:
-- the descriptors that were opened and not closed, the bytes that the kernel took to send and those
-- that it handed over.
pub record Process (S : Type 0) : Type 0 where
  pub os : S
  pub errno : ℕ
  pub last_error : LastError
  pub held : List ℕ
  pub sent : List ℕ
  pub received : List ℕ

abbrev pub Kernel : Type 0 → Type 0
Kernel S = S → Request → Reply × S

-- none: the fuel of a loop ran out.
abbrev pub M : Type 0 → Type 0 → Type 0
M S A = Process S → Option (A × Process S)

unfoldable pub forget : ℕ → List ℕ → List ℕ
forget d [] = []
forget d (x ∷ xs) = if x == d then xs else x ∷ forget d xs

-- The first bytes of a chunk, as many as a call says.
abbrev pub front : Option ℕ → List ℕ → List ℕ
front none chunk = []
front (some n) chunk = take n chunk

module _ {S : Type 0} where
  infixl 5 ◌>>=◌ ◌>>◌
  abbrev pub continue :
      {A B : Type 0} → Option (A × Process S) → (A → M S B) → Option (B × Process S)
  continue none f = none
  continue (some out) f = f out.0 out.1

  abbrev pub ◌>>=◌ : {A B : Type 0} → M S A → (A → M S B) → M S B
  ◌>>=◌ m f p = continue (m p) f

  abbrev pub ◌>>◌ : {B : Type 0} → M S (Unit {0}) → M S B → M S B
  m >> k = m >>= λ _. k

  unfoldable pub give : {A : Type 0} → A → M S A
  give a p = some (a, p)

  unfoldable pub set_last : LastError → M S (Unit {0})
  set_last e p = some (tt, record p { last_error = e })

  -- `set_error(operation, socket_error())`.
  unfoldable pub set_error : String → M S (Unit {0})
  set_error operation p = some (tt, record p { last_error = code_of operation p.errno })

  unfoldable pub call : Kernel S → Request → M S Reply
  call kernel request p =
      let (reply, os) = kernel p.os request in
      some (reply, record p { os = os; errno = reply.errno })

  -- A call that opens a descriptor.
  unfoldable pub own : Option ℕ → M S (Option ℕ)
  own none p = some (none, p)
  own (some d) p = some (some d, record p { held = d ∷ p.held })

  -- What never ends.
  unfoldable pub out_of_fuel : {A : Type 0} → M S A
  out_of_fuel p = none

  unfoldable pub last_errno : M S ℕ
  last_errno p = some (p.errno, p)

  unfoldable pub open_call : Kernel S → Request → M S (Option ℕ)
  unfolding call own
  open_call kernel request = do reply ← call kernel request; own reply.result

  unfoldable pub drop_held : ℕ → M S (Unit {0})
  unfolding forget
  drop_held d p = some (tt, record p { held = forget d p.held })

  -- `send`: of the bytes that the kernel is given it takes as many as it says.
  unfoldable pub send_call : Kernel S → ℕ → List ℕ → M S Reply
  send_call kernel d chunk p =
      let (reply, os) = kernel p.os (send_on d chunk) in
      some (
        reply,
        record p { os = os; errno = reply.errno; sent = p.sent ++ front reply.result chunk },
      )

  unfoldable pub note_received : List ℕ → M S (Unit {0})
  note_received bytes p = some (tt, record p { received = p.received ++ bytes })
