-- ===== src/Examples/Crypto.antt =====
-- Instances of the theorems on identities, trust and media keys.
use ghost_media.Base.{
  ℕ, ◌+◌, ◌^◌, ◌%◌, ◌==◌, ◌&&◌, ◌≡◌, ◌↔◌, refl, some, true, List, [], ◌∷◌, ◌++◌, replicate, arith,
  if◌then◌else◌,
}
use ghost_media.Abi.{ok, memory}
use ghost_media.Text.{codes}
use ghost_media.Bits.{test_bit}
use ghost_media.Crypto.{all_zero}
use ghost_media.Crypto.Trust.{TrustRecord, authorizes, IsTrustRecord, authorizes_lem}
use ghost_media.Crypto.Policy.{Observation, peer_policy_validate, IsTrusted}
use ghost_media.Crypto.Policy.Trusted.{peer_policy_validate_lem}
use ghost_media.Crypto.PeerId.{encode_peer_id}
use ghost_media.Crypto.PeerId.Digits.{all_below}
use ghost_media.Crypto.PeerId.Value.{IsPeerId, encode_peer_id-IsPeerId}
use ghost_media.Crypto.PeerId.Injective.{encode_letters_injective}
use ghost_media.Crypto.Sha256.{rotate_right}
use ghost_media.Crypto.Sha256.Rotate.{rotate_right_lem}
use ghost_media.Crypto.Exporter.{ContextInput, context_preimage}
use ghost_media.Crypto.Exporter.Binding.{IsContextInput, SameBinding, context_preimage_injective}
use ghost_media.Crypto.Keys.{
  DirectionalKeys, split_exporter_output, split_exporter_output-IsSplit, IsSplit,
}

abbrev peer : TrustRecord
peer = record {
  struct_size = 56;
  abi_version = 1;
  peer_spki_digest = replicate 32 9;
  permissions = 5;
  revoked = 0;
  reserved = 0 ∷ 0 ∷ 0 ∷ [];
}

peer-IsTrustRecord : IsTrustRecord peer
unfolding all_zero
peer-IsTrustRecord = record {
  sized = omega arith;
  versioned = refl;
  flag = omega arith;
  unused = refl;
}

authorizes_lem_example : authorizes (some peer) (2 ^ 2) (some 7) ≡ record {
  status = ok;
  out_authorized = some (if peer.revoked == 0 && test_bit peer.permissions 2 == 1 then 1 else 0);
}
authorizes_lem_example = authorizes_lem peer 2 7 peer-IsTrustRecord (omega arith)

-- The bit of the system's audio is set, that of the microphone is not.
audio_granted : authorizes (some peer) 4 (some 7) ≡ record { status = ok; out_authorized = some 1 }
unfolding authorizes
audio_granted = refl

microphone_refused :
    authorizes (some peer) 8 (some 7) ≡ record { status = ok; out_authorized = some 0 }
unfolding authorizes
microphone_refused = refl

abbrev connection : Observation
connection = record {
  struct_size = 88;
  abi_version = 1;
  tls_version = 0x0304;
  peer_certificate_count = 1;
  leaf_der_size = 400;
  alpn = codes "ghostmedia/1" ++ replicate 21 0;
  leaf_self_signed = 1;
  public_key_ed25519 = 1;
  signature_ed25519 = 1;
  basic_constraints_ca = 0;
  key_usage_digital_signature = 1;
  eku_client_auth = 1;
  eku_server_auth = 1;
  unknown_critical_extension = 0;
  within_validity = 1;
  local_clock_trusted = 1;
  system_trust_used = 0;
  public_ca_path_used = 0;
  psk_or_ticket_used = 0;
  early_data_used = 0;
  compression_used = 0;
  renegotiation_used = 0;
  trust_record_connect = 1;
  trust_record_revoked = 0;
  reserved = 0 ∷ 0 ∷ [];
}

connection_accepted : peer_policy_validate (some connection) ≡ ok
unfolding peer_policy_validate
connection_accepted = refl

peer_policy_validate_lem_example :
    (peer_policy_validate (some connection) ≡ ok) ↔ IsTrusted connection
peer_policy_validate_lem_example = peer_policy_validate_lem connection

abbrev digest : List ℕ
digest = 255 ∷ 1 ∷ replicate 30 77

digest_bytes : all_below 256 digest ≡ true
unfolding all_below
digest_bytes = refl

encode_peer_id-IsPeerId_example :
    IsPeerId digest
      (replicate 60 3)
      (encode_peer_id (memory digest) (memory (replicate 60 3)) (some 0))
encode_peer_id-IsPeerId_example =
    encode_peer_id-IsPeerId digest (replicate 60 3) 0 digest_bytes refl (omega arith)

encode_letters_injective_example : digest ≡ 255 ∷ 1 ∷ replicate 30 77
encode_letters_injective_example =
    encode_letters_injective digest (255 ∷ 1 ∷ replicate 30 77) digest_bytes digest_bytes refl refl
      refl

rotate_right_lem_example :
    test_bit (rotate_right 0x80000001 7) 25 ≡ test_bit 0x80000001 ((25 + 7) % 32)
rotate_right_lem_example =
    rotate_right_lem 0x80000001 7 25 (omega arith) (omega arith) (omega arith) (omega arith)

abbrev context : ℕ → ContextInput
context struct_size = record {
  struct_size = struct_size;
  abi_version = 1;
  stream_id = 3;
  direction = 1;
  key_epoch = 2;
  session_id = replicate 16 8;
  sender_spki_digest = replicate 32 1;
  receiver_spki_digest = replicate 32 2;
}

context-IsContextInput : (n : ℕ) → IsContextInput (context n)
context-IsContextInput n = record {
  stream_fits = omega arith;
  epoch_fits = omega arith;
  direction_fits = omega arith;
  session_sized = refl;
  sender_sized = refl;
  receiver_sized = refl;
}

same_preimage : context_preimage (context 104) ≡ context_preimage (context 120)
unfolding context_preimage
same_preimage = refl

context_preimage_injective_example : SameBinding (context 104) (context 120)
context_preimage_injective_example =
    context_preimage_injective (context 104) (context 120) (context-IsContextInput 104)
      (context-IsContextInput 120) same_preimage

abbrev blank_keys : DirectionalKeys
blank_keys = record { struct_size = 80; abi_version = 0; media_key = []; path_key = [] }

abbrev exported : List ℕ
exported = replicate 32 5 ++ replicate 32 6

split_exporter_output-IsSplit_example :
    IsSplit exported (split_exporter_output (memory exported) (some blank_keys))
split_exporter_output-IsSplit_example =
    split_exporter_output-IsSplit exported blank_keys refl (omega arith)
