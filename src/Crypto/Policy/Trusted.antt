-- ===== src/Crypto/Policy/Trusted.antt =====
-- What the policy for the peer's certificate and connection accepts.
use ghost_media.Base.{
  ℕ, zero, suc, ◌≤◌, ◌≡◌, ◌↔◌, Bool, true, false, not, ◌||◌, some, List, [], ◌∷◌, ◌==◌, arith, refl,
}
use ghost_media.Abi.{ok}
use ghost_media.Crypto.{all_zero, flag_is_bool}
use ghost_media.Crypto.Policy.Protocol.{
  zeros_replicate, replicate_zeros, has_alpn-bytes, bytes-has_alpn,
}
use ghost_media.Crypto.Policy.{
  Observation, flags, are_flags, validate_bool_flags, has_alpn, fails_policy, peer_policy_validate,
  IsTrusted,
}

-- The tests that an accepted observation has passed.
record Passed (o : Observation) : Type 0 where
  sized : 88 ≤ o.struct_size
  versioned : o.abi_version ≡ 1
  boolean : are_flags (flags o) ≡ true
  unused : all_zero o.reserved ≡ true
  protocol : has_alpn o ≡ true
  policy : fails_policy o ≡ false
  connect : 1 ≤ o.trust_record_connect
  in_force : o.trust_record_revoked ≡ 0

accepted-Passed : (o : Observation) → peer_policy_validate (some o) ≡ ok → Passed o
unfolding peer_policy_validate validate_bool_flags
accepted-Passed o e = record {
  sized = ground (arith, e);
  versioned = ground (arith, e);
  boolean = ground (arith, e);
  unused = ground (arith, e);
  protocol = ground (arith, e);
  policy = ground (arith, e);
  connect = ground (arith, e);
  in_force = ground (arith, e);
}

or_false : {a b : Bool} → (a || b) ≡ false → (a ≡ false) × (b ≡ false)
or_false {a = true} e = cc
or_false {a = false} e = (refl, e)

nth : List ℕ → ℕ → ℕ
nth [] n = 0
nth (x ∷ xs) zero = x
nth (x ∷ xs) (suc n) = nth xs n

boolean_at : (xs : List ℕ) (n : ℕ) → are_flags xs ≡ true → flag_is_bool (nth xs n) ≡ true
unfolding are_flags nth
boolean_at [] n e = refl
boolean_at (x ∷ xs) zero e = ground (arith, e)
boolean_at (x ∷ xs) (suc n) e = boolean_at xs n (ground (arith, e))

is_value : (n m : ℕ) → not (n == m) ≡ false → n ≡ m
is_value n m e = ground (arith, e)

one_flag : (n : ℕ) → (n == 0) ≡ false → flag_is_bool n ≡ true → n ≡ 1
one_flag n e h = ground (arith, e, h)

accepted-IsTrusted : (o : Observation) → peer_policy_validate (some o) ≡ ok → IsTrusted o
unfolding fails_policy flags nth
accepted-IsTrusted o e =
    let p = accepted-Passed o e in
    let c19 = or_false p.policy in
    let c18 = or_false c19.0 in
    let c17 = or_false c18.0 in
    let c16 = or_false c17.0 in
    let c15 = or_false c16.0 in
    let c14 = or_false c15.0 in
    let c13 = or_false c14.0 in
    let c12 = or_false c13.0 in
    let c11 = or_false c12.0 in
    let c10 = or_false c11.0 in
    let c9 = or_false c10.0 in
    let c8 = or_false c9.0 in
    let c7 = or_false c8.0 in
    let c6 = or_false c7.0 in
    let c5 = or_false c6.0 in
    let c4 = or_false c5.0 in
    let c3 = or_false c4.0 in
    let c2 = or_false c3.0 in
    let c1 = or_false c2.0 in
    record {
      sized = p.sized;
      versioned = p.versioned;
      unused = zeros_replicate o.reserved p.unused;
      protocol = has_alpn-bytes o p.protocol;
      tls_1_3 = is_value _ _ c1.0;
      one_certificate = is_value _ _ c1.1;
      some_leaf = ground (arith, c2.1);
      small_leaf = ground (arith, c3.1);
      self_signed = one_flag _ c4.1 (boolean_at (flags o) 0 p.boolean);
      key = one_flag _ c5.1 (boolean_at (flags o) 1 p.boolean);
      signature = one_flag _ c6.1 (boolean_at (flags o) 2 p.boolean);
      no_ca = is_value _ _ c7.1;
      signs = one_flag _ c8.1 (boolean_at (flags o) 4 p.boolean);
      client = one_flag _ c9.1 (boolean_at (flags o) 5 p.boolean);
      server = one_flag _ c10.1 (boolean_at (flags o) 6 p.boolean);
      understood = is_value _ _ c11.1;
      current = one_flag _ c12.1 (boolean_at (flags o) 8 p.boolean);
      clock = one_flag _ c13.1 (boolean_at (flags o) 9 p.boolean);
      no_system_trust = is_value _ _ c14.1;
      no_public_ca = is_value _ _ c15.1;
      no_resumption = is_value _ _ c16.1;
      no_early_data = is_value _ _ c17.1;
      no_compression = is_value _ _ c18.1;
      no_renegotiation = is_value _ _ c19.1;
      may_connect = ground (arith, p.connect, (boolean_at (flags o) 16 p.boolean));
      in_force = p.in_force;
    }

trusted_accepted : (o : Observation) → IsTrusted o → peer_policy_validate (some o) ≡ ok
unfolding peer_policy_validate validate_bool_flags are_flags flags fails_policy
trusted_accepted o t =
    ground (arith, t, bytes-has_alpn o t.protocol, replicate_zeros o.reserved t.unused)

-- The policy accepts an observation exactly if it is of a connection that may be used: of the right
-- size and version, the name of the protocol being the twelve bytes ghostmedia/1 and a NUL, over
-- TLS 1.3, with one self-signed Ed25519 certificate of 1 to 8192 bytes that a trusted clock finds
-- valid and that has the usages of a peer, without other trust, resumption, early data, compression
-- or renegotiation, for a peer that may connect and is not revoked, and with zeros in the reserved
-- bytes.
pub peer_policy_validate_lem :
    (o : Observation) → (peer_policy_validate (some o) ≡ ok) ↔ IsTrusted o
peer_policy_validate_lem o = (accepted-IsTrusted o, trusted_accepted o)
