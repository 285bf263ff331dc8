-- ===== src/Crypto/Policy.antt =====
-- `gm_tls_peer_policy_validate` of shared/core/gm_crypto.cpp.
pub mod Protocol
pub mod Trusted
use ghost_media.Base.{
  ℕ, ◌≤◌, ◌<◌, ◌≡◌, ◌↔◌, Bool, true, false, not, ◌&&◌, ◌||◌, Option, none, some, List, [], ◌∷◌, ltb,
  ◌==◌, if◌then◌else◌, arith, ◌++◌, length, replicate,
}
use ghost_media.Abi.{Status, ok, bad_argument, bad_message, unauthorized, abi_version}
use ghost_media.Text.{codes, bounded_c_string, same_c_string}
use ghost_media.Wire.{byte_at}
use ghost_media.Media.Header.Layout.{tabulate}
use ghost_media.Crypto.{all_zero, flag_is_bool}

pub record Observation : Type 0 where
  pub struct_size : ℕ
  pub abi_version : ℕ
  pub tls_version : ℕ
  pub peer_certificate_count : ℕ
  pub leaf_der_size : ℕ
  pub alpn : List ℕ
  pub leaf_self_signed : ℕ
  pub public_key_ed25519 : ℕ
  pub signature_ed25519 : ℕ
  pub basic_constraints_ca : ℕ
  pub key_usage_digital_signature : ℕ
  pub eku_client_auth : ℕ
  pub eku_server_auth : ℕ
  pub unknown_critical_extension : ℕ
  pub within_validity : ℕ
  pub local_clock_trusted : ℕ
  pub system_trust_used : ℕ
  pub public_ca_path_used : ℕ
  pub psk_or_ticket_used : ℕ
  pub early_data_used : ℕ
  pub compression_used : ℕ
  pub renegotiation_used : ℕ
  pub trust_record_connect : ℕ
  pub trust_record_revoked : ℕ
  pub reserved : List ℕ

-- On LP64.
abbrev pub sizeof_observation : ℕ
sizeof_observation = 88

unfoldable pub flags : Observation → List ℕ
flags o =
    o.leaf_self_signed ∷ o.public_key_ed25519 ∷ o.signature_ed25519 ∷ o.basic_constraints_ca
    ∷ o.key_usage_digital_signature ∷ o.eku_client_auth ∷ o.eku_server_auth
    ∷ o.unknown_critical_extension ∷ o.within_validity ∷ o.local_clock_trusted ∷ o.system_trust_used
    ∷ o.public_ca_path_used ∷ o.psk_or_ticket_used ∷ o.early_data_used ∷ o.compression_used
    ∷ o.renegotiation_used ∷ o.trust_record_connect ∷ o.trust_record_revoked ∷ []

unfoldable pub are_flags : List ℕ → Bool
are_flags [] = true
are_flags (flag ∷ rest) = flag_is_bool flag && are_flags rest

unfoldable pub validate_bool_flags : Observation → Status
unfolding are_flags flags all_zero
validate_bool_flags o =
    if not (are_flags (flags o))
    then bad_argument
    else if not (all_zero o.reserved)
    then bad_argument
    else ok

abbrev is_twelve : Option ℕ → Bool
is_twelve none = false
is_twelve (some n) = n == 12

unfoldable pub has_alpn : Observation → Bool
unfolding bounded_c_string same_c_string
has_alpn o = is_twelve (bounded_c_string o.alpn 33) && same_c_string o.alpn (codes "ghostmedia/1")

-- The long test, by its failures.
unfoldable pub fails_policy : Observation → Bool
fails_policy o =
    not (o.tls_version == 0x0304)
    || not (o.peer_certificate_count == 1)
    || o.leaf_der_size == 0
    || ltb 8192 o.leaf_der_size
    || o.leaf_self_signed == 0
    || o.public_key_ed25519 == 0
    || o.signature_ed25519 == 0
    || not (o.basic_constraints_ca == 0)
    || o.key_usage_digital_signature == 0
    || o.eku_client_auth == 0
    || o.eku_server_auth == 0
    || not (o.unknown_critical_extension == 0)
    || o.within_validity == 0
    || o.local_clock_trusted == 0
    || not (o.system_trust_used == 0)
    || not (o.public_ca_path_used == 0)
    || not (o.psk_or_ticket_used == 0)
    || not (o.early_data_used == 0)
    || not (o.compression_used == 0)
    || not (o.renegotiation_used == 0)

unfoldable pub peer_policy_validate : Option Observation → Status
unfolding validate_bool_flags has_alpn fails_policy
peer_policy_validate none = bad_argument
peer_policy_validate (some o) =
    if ltb o.struct_size sizeof_observation || not (o.abi_version == abi_version)
    then bad_argument
    else elim (validate_bool_flags o) [
      | ok ↦
          if not (has_alpn o)
          then bad_message
          else if fails_policy o
          then bad_message
          else if o.trust_record_connect == 0 || not (o.trust_record_revoked == 0)
          then unauthorized
          else ok
      | other ↦ other
    ]

-- A connection that may be used: TLS 1.3 and the protocol's own name, one self-signed Ed25519
-- certificate of the right size and usages, valid by a trusted clock; no other trust path, no
-- resumption, early data, compression or renegotiation; and a peer with the right to connect.
pub record IsTrusted (o : Observation) : Type 0 where
  pub sized : 88 ≤ o.struct_size
  pub versioned : o.abi_version ≡ 1
  pub unused : o.reserved ≡ replicate (length o.reserved) 0
  pub protocol : tabulate 13 (byte_at o.alpn) ≡ codes "ghostmedia/1" ++ 0 ∷ []
  pub tls_1_3 : o.tls_version ≡ 0x0304
  pub one_certificate : o.peer_certificate_count ≡ 1
  pub some_leaf : 1 ≤ o.leaf_der_size
  pub small_leaf : o.leaf_der_size ≤ 8192
  pub self_signed : o.leaf_self_signed ≡ 1
  pub key : o.public_key_ed25519 ≡ 1
  pub signature : o.signature_ed25519 ≡ 1
  pub no_ca : o.basic_constraints_ca ≡ 0
  pub signs : o.key_usage_digital_signature ≡ 1
  pub client : o.eku_client_auth ≡ 1
  pub server : o.eku_server_auth ≡ 1
  pub understood : o.unknown_critical_extension ≡ 0
  pub current : o.within_validity ≡ 1
  pub clock : o.local_clock_trusted ≡ 1
  pub no_system_trust : o.system_trust_used ≡ 0
  pub no_public_ca : o.public_ca_path_used ≡ 0
  pub no_resumption : o.psk_or_ticket_used ≡ 0
  pub no_early_data : o.early_data_used ≡ 0
  pub no_compression : o.compression_used ≡ 0
  pub no_renegotiation : o.renegotiation_used ≡ 0
  pub may_connect : o.trust_record_connect ≡ 1
  pub in_force : o.trust_record_revoked ≡ 0
