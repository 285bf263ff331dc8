-- ===== src/Runtime/AesGcm.antt =====
-- runtime/core/aes_gcm_provider.cpp: the checks around OpenSSL's AES-256-GCM, whose calls on a
-- cipher context are a parameter.
pub mod Release
use ghost_media.Base.{
  ℕ, ◌-◌, ◌^◌, Bool, true, false, not, ◌&&◌, ◌||◌, Option, none, some, List, [], ◌∷◌, ltb, ◌==◌,
  if◌then◌else◌, length, replicate,
}
use ghost_media.Abi.{
  Status, ok, bad_argument, bad_message, internal, Bytes, memory, size, contents, has_readable_data,
}
use ghost_media.Crypto.Keys.{crypto_key_bytes}
use ghost_media.Media.Nonce.{media_nonce_bytes}
use ghost_media.Media.Header.{media_header_bytes, media_tag_bytes, media_max_payload_bytes}

-- `begin` makes and initialises a context for a key and a nonce. The updates return the bytes that
-- they wrote, and `finish` how many bytes it wrote. none stands for a call that fails.
pub record Cipher (C : Type 0) : Type 0 where
  pub begin : (key nonce : List ℕ) → Option C
  pub update_aad : C → List ℕ → Option C
  pub update : C → List ℕ → Option (List ℕ × C)
  pub finish : C → Option (ℕ × C)
  pub get_tag : C → Option (List ℕ)
  pub set_tag : C → List ℕ → Option C

abbrev pub int_max : ℕ
int_max = 2 ^ 31 - 1

unfoldable pub validate_common : (key nonce aad payload tag : Bytes) → Status
validate_common key nonce aad payload tag =
    if not (has_readable_data key)
      || not (has_readable_data nonce)
      || not (has_readable_data aad)
      || not (has_readable_data payload)
      || not (has_readable_data tag)
    then bad_argument
    else if not (size key == crypto_key_bytes)
        || not (size nonce == media_nonce_bytes)
        || not (size tag == media_tag_bytes)
        || ltb media_header_bytes (size aad)
        || ltb media_max_payload_bytes (size payload)
        || ltb int_max (size aad)
        || ltb int_max (size payload)
    then bad_message
    else ok

-- The status, the caller's vector and, for encryption, the tag; decryption has none to give.
pub record Ciphered : Type 0 where
  pub status : Status
  pub text : List ℕ
  pub tag : List ℕ

module _ {C : Type 0} (cipher : Cipher C) where
  -- `size != 0u && Update(...) != 1`, and the bytes of an update that wrote as many as it was given.
  unfoldable pub add_aad : C → List ℕ → Option C
  add_aad c [] = some c
  add_aad c (a ∷ aad) = cipher.update_aad c (a ∷ aad)

  unfoldable pub of_length : ℕ → Option (List ℕ × C) → Option (List ℕ × C)
  of_length n none = none
  of_length n (some (out, c)) = if length out == n then some (out, c) else none

  unfoldable pub transform : C → List ℕ → Option (List ℕ × C)
  unfolding of_length
  transform c [] = some ([], c)
  transform c (x ∷ xs) = of_length (length (x ∷ xs)) (cipher.update c (x ∷ xs))

  unfoldable pub give_tag : List ℕ → (old_tag : List ℕ) → Option (List ℕ) → Ciphered
  give_tag text old_tag none = record { status = internal; text = []; tag = old_tag }
  give_tag text old_tag (some tag) = record { status = ok; text = text; tag = tag }

  unfoldable pub finish_encrypt : List ℕ → (old_tag : List ℕ) → Option (ℕ × C) → Ciphered
  unfolding give_tag
  finish_encrypt text old_tag none = record { status = internal; text = []; tag = old_tag }
  finish_encrypt text old_tag (some (count, c)) =
      if not (count == 0)
      then record { status = internal; text = []; tag = old_tag }
      else give_tag text old_tag (cipher.get_tag c)

  unfoldable pub encrypt_text : (old_tag : List ℕ) → Option (List ℕ × C) → Ciphered
  unfolding finish_encrypt
  encrypt_text old_tag none = record { status = internal; text = []; tag = old_tag }
  encrypt_text old_tag (some (text, c)) = finish_encrypt text old_tag (cipher.finish c)

  unfoldable pub encrypt_bound : List ℕ → (old old_tag : List ℕ) → Option C → Ciphered
  unfolding transform encrypt_text
  encrypt_bound plaintext old old_tag none = record { status = internal; text = old; tag = old_tag }
  encrypt_bound plaintext old old_tag (some c) = encrypt_text old_tag (transform c plaintext)

  unfoldable pub encrypt_begun : (aad plaintext old old_tag : List ℕ) → Option C → Ciphered
  unfolding add_aad encrypt_bound
  encrypt_begun aad plaintext old old_tag none = record {
    status = internal;
    text = old;
    tag = old_tag;
  }
  encrypt_begun aad plaintext old old_tag (some c) =
      encrypt_bound plaintext old old_tag (add_aad c aad)

  unfoldable pub aes256_gcm_encrypt :
      (key nonce aad plaintext : Bytes) → (old old_tag : List ℕ) → Ciphered
  unfolding validate_common encrypt_begun
  aes256_gcm_encrypt key nonce aad plaintext old old_tag =
      elim (validate_common key nonce aad plaintext (memory old_tag)) [
        | ok ↦
            encrypt_begun (contents aad) (contents plaintext) old old_tag
              (cipher.begin (contents key) (contents nonce))
        | other ↦ record { status = other; text = old; tag = old_tag }
      ]

  -- The last step: the library compares the tag.
  unfoldable pub finish_decrypt : List ℕ → Option (ℕ × C) → Ciphered
  finish_decrypt text none = record { status = bad_message; text = []; tag = [] }
  finish_decrypt text (some (count, c)) =
      if not (count == 0)
      then record { status = internal; text = []; tag = [] }
      else record { status = ok; text = text; tag = [] }

  unfoldable pub decrypt_tagged : List ℕ → Option C → Ciphered
  unfolding finish_decrypt
  decrypt_tagged text none = record { status = internal; text = []; tag = [] }
  decrypt_tagged text (some c) = finish_decrypt text (cipher.finish c)

  unfoldable pub decrypt_text : (tag : List ℕ) → Option (List ℕ × C) → Ciphered
  unfolding decrypt_tagged
  decrypt_text tag none = record { status = internal; text = []; tag = [] }
  decrypt_text tag (some (text, c)) = decrypt_tagged text (cipher.set_tag c tag)

  unfoldable pub decrypt_bound : (ciphertext tag old : List ℕ) → Option C → Ciphered
  unfolding transform decrypt_text
  decrypt_bound ciphertext tag old none = record { status = internal; text = old; tag = [] }
  decrypt_bound ciphertext tag old (some c) = decrypt_text tag (transform c ciphertext)

  unfoldable pub decrypt_begun : (aad ciphertext tag old : List ℕ) → Option C → Ciphered
  unfolding add_aad decrypt_bound
  decrypt_begun aad ciphertext tag old none = record { status = internal; text = old; tag = [] }
  decrypt_begun aad ciphertext tag old (some c) = decrypt_bound ciphertext tag old (add_aad c aad)

  unfoldable pub aes256_gcm_decrypt : (key nonce aad ciphertext tag : Bytes) → List ℕ → Ciphered
  unfolding validate_common decrypt_begun
  aes256_gcm_decrypt key nonce aad ciphertext tag old =
      elim (validate_common key nonce aad ciphertext tag) [
        | ok ↦
            decrypt_begun (contents aad) (contents ciphertext) (contents tag) old
              (cipher.begin (contents key) (contents nonce))
        | other ↦ record { status = other; text = old; tag = [] }
      ]
