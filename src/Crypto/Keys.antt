-- ===== src/Crypto/Keys.antt =====
-- The directional keys and the inputs of the AEAD: `gm_crypto_split_exporter_output`,
-- `gm_media_build_aad` and `gm_crypto_validate_aead_inputs` of shared/core/gm_crypto.cpp.
use ghost_media.Base.{
  ℕ, ◌≡◌, ◌≤◌, not, ◌||◌, Option, none, some, List, ◌++◌, ltb, ◌==◌, if◌then◌else◌, length, take,
  drop, arith, ap, ◌∙◌, take-append-drop, take_all, length-take, length-drop,
}
use ghost_media.Abi.{
  Status, ok, bad_argument, bad_message, abi_version, Bytes, memory, size, contents,
  has_readable_data,
}
use ghost_media.Media.Nonce.{media_nonce_bytes}
use ghost_media.Media.Header.{
  media_header_bytes, media_tag_bytes, media_max_payload_bytes, MediaHeader, EncodeResult,
  encode_header,
}

pub record DirectionalKeys : Type 0 where
  pub struct_size : ℕ
  pub abi_version : ℕ
  pub media_key : List ℕ
  pub path_key : List ℕ

-- On LP64.
abbrev pub sizeof_directional_keys : ℕ
sizeof_directional_keys = 80

abbrev pub crypto_key_bytes : ℕ
crypto_key_bytes = 32

abbrev pub tls_exporter_output_bytes : ℕ
tls_exporter_output_bytes = 64

pub record SplitResult : Type 0 where
  pub status : Status
  pub keys : Option DirectionalKeys

unfoldable pub split_exporter_output : Bytes → Option DirectionalKeys → SplitResult
split_exporter_output output none = record { status = bad_argument; keys = none }
split_exporter_output output (some k) =
    if ltb k.struct_size sizeof_directional_keys || not (has_readable_data output)
    then record { status = bad_argument; keys = some k }
    else if not (size output == tls_exporter_output_bytes)
    then record { status = bad_message; keys = some k }
    else record {
      status = ok;
      keys = some record {
        struct_size = k.struct_size;
        abi_version = abi_version;
        media_key = take crypto_key_bytes (contents output);
        path_key = take crypto_key_bytes (drop crypto_key_bytes (contents output));
      };
    }

unfoldable pub build_aad : Option MediaHeader → Bytes → Option ℕ → EncodeResult
unfolding encode_header
build_aad header output written = encode_header header output written

unfoldable pub validate_aead_inputs : (key nonce aad payload tag : Bytes) → Status
validate_aead_inputs key nonce aad payload tag =
    if not (has_readable_data key)
      || not (has_readable_data nonce)
      || not (has_readable_data aad)
      || not (has_readable_data payload)
      || not (has_readable_data tag)
    then bad_argument
    else if not (size key == crypto_key_bytes)
        || not (size nonce == media_nonce_bytes)
        || not (size aad == media_header_bytes)
        || not (size tag == media_tag_bytes)
        || ltb media_max_payload_bytes (size payload)
    then bad_message
    else ok

-- What splitting gives: the status ok and keys of 32 bytes that together are the whole output.
pub record IsSplit (output : List ℕ) (r : SplitResult) : Type 0 where
  pub accepted : r.status ≡ ok
  pub new : DirectionalKeys
  pub given : r.keys ≡ some new
  pub together : new.media_key ++ new.path_key ≡ output
  pub media_sized : length new.media_key ≡ 32
  pub path_sized : length new.path_key ≡ 32

-- The output of the exporter, of 64 bytes, is split into two keys of 32 bytes that together are the
-- whole output.
pub split_exporter_output-IsSplit :
    (output : List ℕ) (k : DirectionalKeys)
    → length output ≡ 64
    → 80 ≤ k.struct_size
    → IsSplit output (split_exporter_output (memory output) (some k))
unfolding split_exporter_output
split_exporter_output-IsSplit output k e h =
    let rest : length (drop 32 output) ≡ 32 = omega (arith, length-drop 32 output, e) in
    record {
      accepted = ground (arith, e, h);
      new = record {
        struct_size = k.struct_size;
        abi_version = abi_version;
        media_key = take 32 output;
        path_key = take 32 (drop 32 output);
      };
      given = ground (arith, e, h);
      together =
          ap (λ t. take 32 output ++ t) (take_all 32 (drop 32 output) rest)
          ∙ take-append-drop 32 output;
      media_sized = length-take 32 output ∙ omega (arith, e);
      path_sized = length-take 32 (drop 32 output) ∙ omega (arith, rest);
    }
