-- ===== src/Runtime/Sockets/Ownership.antt =====
-- No descriptor is lost: what the calls of Runtime/Sockets/Open.antt leave open.
use Prim.Native.String.{String}
use ghost_media.Base.{
  ℕ, zero, suc, ◌-◌, ◌≡◌, refl, Bool, true, false, Option, some, List, ◌∷◌, leb, ◌==◌,
}
use ghost_media.Abi.{Status, ok}
use ghost_media.Runtime.Process.{
  Request, clock_now, allocate, set_option, get_flags, set_flags, select_on, close_it, Kernel, M,
  ◌>>=◌, give, call, set_error, set_last,
}
use ghost_media.Runtime.Owned.{
  Leaves, with_own, leaves-then, leaves-if, leaves-bool, leaves-option, leaves-give, leaves-call,
  leaves-set_error, leaves-set_last, leaves-out_of_fuel, leaves-drop_held,
}
use ghost_media.Runtime.Sockets.{
  Platform, TcpSocket, UdpSocket, Out, handle, Opening, succeeded, is_valid, or_zero, new_flags,
  and_then, succeeds, now, close_socket, set_timeouts, set_nonblocking, wait_from, wait_for_socket,
  make_handle, make_udp_handle, abandon,
}

abbrev pub is_ok : Status → Bool
is_ok ok = true
is_ok _ = false

-- The descriptors open with the handle, if there is one, and whether there is one.
abbrev pub with_out : {H : Type 0} → (H → Option ℕ) → Out H → List ℕ → List ℕ
with_out value (handle h) x = with_own (value h) x
with_out value _ x = x

abbrev pub has_handle : {H : Type 0} → (H → Option ℕ) → Out H → Bool
has_handle value (handle h) = is_valid (value h)
has_handle value _ = false

-- The call succeeded exactly if it gave a handle with a descriptor, and of the descriptors that it
-- opened only that one is still open.
abbrev pub Settled : {H : Type 0} → (H → Option ℕ) → List ℕ → Opening H → List ℕ → Type 0
Settled value x r y = (y ≡ with_out value r.out x) × (is_ok r.status ≡ has_handle value r.out)

abbrev pub Quiet : {S A : Type 0} → M S A → Type 0
Quiet {A = A} m = (x : List ℕ) → Leaves m x (λ (a : A) y. y ≡ x)

module _ {S : Type 0} where
  pub quiet-then :
      {A B : Type 0} (Q : B → List ℕ → Type 0) (m : M S A) (k : A → M S B) (x : List ℕ)
      → Quiet m
      → ((a : A) → Leaves (k a) x Q)
      → Leaves (m >>= k) x Q
  quiet-then Q m k x quiet rest = leaves-then (λ a. x) Q m k x (quiet x) rest

  pub give-Quiet : {A : Type 0} (a : A) → Quiet {S = S} (give a)
  give-Quiet a x = leaves-give (λ b y. y ≡ x) a x refl

abbrev pub tcp_value : TcpSocket → Option ℕ
tcp_value s = s.value

abbrev pub udp_value : UdpSocket → Option ℕ
udp_value s = s.value

module _ {S : Type 0} (kernel : Kernel S) where
  pub succeeds-Quiet : (r : Request) → Quiet (succeeds kernel r)
  unfolding succeeds
  succeeds-Quiet r x =
      quiet-then (λ b y. y ≡ x) (call kernel r) (λ reply. give (succeeded reply.result)) x
        (leaves-call kernel r) (λ reply. give-Quiet (succeeded reply.result) x)

  pub and_then-Quiet : (b : Bool) (m : M S Bool) → Quiet m → Quiet (and_then kernel b m)
  unfolding and_then
  and_then-Quiet true m quiet = quiet
  and_then-Quiet false m quiet = give-Quiet false

  pub now-Quiet : Quiet (now kernel)
  unfolding now
  now-Quiet x =
      quiet-then (λ b y. y ≡ x) (call kernel clock_now) (λ reply. give (or_zero reply.result)) x
        (leaves-call kernel clock_now) (λ reply. give-Quiet (or_zero reply.result) x)

  no_sigpipe-Quiet :
      (has_option : Bool) (d : ℕ) (both : Bool)
      → Quiet (elim has_option as (λ b. M S Bool) [
        | false ↦ give both
        | true ↦ and_then kernel both (succeeds kernel (set_option d "SO_NOSIGPIPE" 1))
      ])
  no_sigpipe-Quiet false d both = give-Quiet both
  no_sigpipe-Quiet true d both = and_then-Quiet both _ (succeeds-Quiet _)

  pub set_timeouts-Quiet :
      (platform : Platform) (d timeout_ms : ℕ) → Quiet (set_timeouts kernel platform d timeout_ms)
  unfolding set_timeouts
  set_timeouts-Quiet platform d timeout_ms x =
      quiet-then (λ b y. y ≡ x) _ _ x (succeeds-Quiet _)
        (λ r.
          quiet-then (λ b y. y ≡ x) _ _ x (and_then-Quiet r _ (succeeds-Quiet _))
            (λ both. no_sigpipe-Quiet platform.has_no_sigpipe d both x))

  pub set_nonblocking-Quiet :
      (platform : Platform) (d : ℕ) (enabled : Bool)
      → Quiet (set_nonblocking kernel platform d enabled)
  unfolding set_nonblocking
  set_nonblocking-Quiet platform d enabled x =
      quiet-then (λ b y. y ≡ x) (call kernel (get_flags d)) _ x (leaves-call kernel (get_flags d))
        (λ reply.
          leaves-option _ reply.result _ _ x (give-Quiet false x)
            (λ flags. succeeds-Quiet (set_flags d (new_flags kernel platform enabled flags)) x))

  wait_from-Quiet :
      (platform : Platform) (fuel d : ℕ) (writable : Bool) (deadline code time : ℕ)
      → Quiet (wait_from kernel platform fuel d writable deadline code time)
  unfolding wait_from
  wait_from-Quiet platform zero d writable deadline code time x =
      leaves-out_of_fuel (λ b y. y ≡ x) x
  wait_from-Quiet platform (suc fuel) d writable deadline code time x =
      leaves-bool (λ b y. y ≡ x) (leb deadline time) _ _ x (give-Quiet _ x)
        (quiet-then (λ b y. y ≡ x) (call kernel (select_on d writable (deadline - time))) _ x
          (leaves-call kernel _)
          (λ reply.
            leaves-option _ reply.result _ _ x
              (leaves-bool _ (reply.errno == platform.eintr) _ _ x
                (quiet-then (λ b y. y ≡ x) (now kernel) _ x now-Quiet
                  (λ next. wait_from-Quiet platform fuel d writable deadline reply.errno next x))
                (give-Quiet _ x))
              (λ n. give-Quiet _ x)))

  pub wait_for_socket-Quiet :
      (platform : Platform) (fuel d : ℕ) (writable : Bool) (deadline code : ℕ)
      → Quiet (wait_for_socket kernel platform fuel d writable deadline code)
  unfolding wait_for_socket
  wait_for_socket-Quiet platform fuel d writable deadline code x =
      leaves-if (λ b y. y ≡ x) (leb platform.fd_setsize d) _ _ x (λ e. give-Quiet _ x)
        (λ e.
          quiet-then (λ b y. y ≡ x) (now kernel) _ x now-Quiet
            (λ time. wait_from-Quiet platform fuel d writable deadline code time x))

  pub leaves-close_socket :
      (d : ℕ) (x : List ℕ) → Leaves (close_socket kernel (some d)) (d ∷ x) (λ u y. y ≡ x)
  unfolding close_socket
  leaves-close_socket d x =
      quiet-then (λ u y. y ≡ x) (call kernel (close_it d)) _ (d ∷ x)
        (leaves-call kernel (close_it d)) (λ reply. leaves-drop_held d x)

  -- `close_socket`, then the rest.
  pub close-then :
      {B : Type 0} (Q : B → List ℕ → Type 0) (d : ℕ) (k : Unit {0} → M S B) (x : List ℕ)
      → Leaves (k tt) x Q
      → Leaves (close_socket kernel (some d) >>= k) (d ∷ x) Q
  close-then Q d k x rest =
      leaves-then (λ u. x) Q (close_socket kernel (some d)) k (d ∷ x) (leaves-close_socket d x)
        (λ u. rest)

  pub leaves-abandon :
      {H : Type 0} (value : H → Option ℕ) (operation : String) (d : ℕ) (x : List ℕ)
      → Leaves (abandon kernel {H = H} operation d) (d ∷ x) (Settled value x)
  unfolding abandon
  leaves-abandon value operation d x =
      quiet-then (Settled value x) (set_error operation) _ (d ∷ x) (leaves-set_error operation)
        (λ u. close-then (Settled value x) d _ x (leaves-give (Settled value x) _ x (refl, refl)))

  pub leaves-make_handle :
      (d timeout_ms : ℕ) (x : List ℕ)
      → Leaves (make_handle kernel d timeout_ms) (d ∷ x) (Settled tcp_value x)
  unfolding make_handle
  leaves-make_handle d timeout_ms x =
      quiet-then (Settled tcp_value x) (call kernel allocate) _ (d ∷ x)
        (leaves-call kernel allocate)
        (λ memory.
          leaves-option _ memory.result _ _ (d ∷ x)
            (close-then (Settled tcp_value x) d _ x (
              quiet-then (Settled tcp_value x) (set_last _) _ x (leaves-set_last _)
                (λ u. leaves-give (Settled tcp_value x) _ x (refl, refl))))
            (λ address.
              quiet-then (Settled tcp_value x) (now kernel) _ (d ∷ x) now-Quiet
                (λ time. leaves-give (Settled tcp_value x) _ (d ∷ x) (refl, refl))))

  pub leaves-make_udp_handle :
      (d timeout_ms : ℕ) (x : List ℕ)
      → Leaves (make_udp_handle kernel d timeout_ms) (d ∷ x) (Settled udp_value x)
  unfolding make_udp_handle
  leaves-make_udp_handle d timeout_ms x =
      quiet-then (Settled udp_value x) (call kernel allocate) _ (d ∷ x)
        (leaves-call kernel allocate)
        (λ memory.
          leaves-option _ memory.result _ _ (d ∷ x)
            (close-then (Settled udp_value x) d _ x (
              quiet-then (Settled udp_value x) (set_last _) _ x (leaves-set_last _)
                (λ u. leaves-give (Settled udp_value x) _ x (refl, refl))))
            (λ address. leaves-give (Settled udp_value x) _ (d ∷ x) (refl, refl)))
