-- ===== src/Runtime/AesGcm/Release.antt =====
-- What decryption releases, and that what the core accepts the provider accepts.
use ghost_media.Base.{
  ℕ, ◌≡◌, ◌≢◌, ◌⊎◌, inl, inr, refl, ap, ◌∙◌, Option, none, some, List, [], ◌∷◌, length, ◌==◌, arith,
  Bool-cases,
}
use ghost_media.Abi.{Status, ok, Bytes, contents}
use ghost_media.Crypto.Keys.{validate_aead_inputs}
use ghost_media.Runtime.AesGcm.{
  Cipher, Ciphered, validate_common, of_length, transform, finish_decrypt, decrypt_tagged,
  decrypt_text, decrypt_bound, add_aad, decrypt_begun, aes256_gcm_decrypt,
}

-- The status is ok, as many bytes are released as there were, and the library has accepted the tag
-- on some context; or it is not ok and the vector is as before or empty.
pub record Accepted {C : Type 0} (cipher : Cipher C) (text : List ℕ) (ciphertext tag : List ℕ)
    : Type 0 where
  pub sized : length text ≡ length ciphertext
  pub context : C
  pub tagged : C
  pub checked : C
  pub has_tag : cipher.set_tag context tag ≡ some tagged
  pub verifies : cipher.finish tagged ≡ some (0, checked)

abbrev pub Released : {C : Type 0} → Cipher C → (ciphertext tag old : List ℕ) → Ciphered → Type 0
Released cipher ciphertext tag old r =
    ((r.status ≡ ok) × Accepted cipher r.text ciphertext tag)
    ⊎ ((r.status ≢ ok) × ((r.text ≡ old) ⊎ (r.text ≡ [])))

abbrev Sized : {C : Type 0} → ℕ → Option (List ℕ × C) → Type 0
Sized n none = Unit {0}
Sized n (some p) = length p.0 ≡ n

module _ {C : Type 0} (cipher : Cipher C) where
  of_length-Sized : (n : ℕ) (o : Option (List ℕ × C)) → Sized n (of_length cipher n o)
  unfolding of_length
  of_length-Sized n none = tt
  of_length-Sized n (some (out, c)) = elim (Bool-cases (length out == n)) [
    | inl same ↦ rw (same, of_length) (ground (arith, same))
    | inr other ↦ rw (other, of_length) tt
  ]

  transform-Sized : (c : C) (xs : List ℕ) → Sized (length xs) (transform cipher c xs)
  unfolding transform
  transform-Sized c [] = refl
  transform-Sized c (x ∷ xs) = of_length-Sized (length (x ∷ xs)) (cipher.update c (x ∷ xs))

  module _ (ciphertext tag old : List ℕ) where
    finished :
        (text : List ℕ) (c tagged : C) (o : Option (ℕ × C))
        → length text ≡ length ciphertext
        → cipher.set_tag c tag ≡ some tagged
        → cipher.finish tagged ≡ o
        → Released cipher ciphertext tag old (finish_decrypt cipher text o)
    unfolding finish_decrypt
    finished text c tagged none h e f = inr (λ g. cc g, inr refl)
    finished text c tagged (some (count, end)) h e f = elim (Bool-cases (count == 0)) [
      | inr written ↦ rw (written, finish_decrypt) (inr (λ g. cc g, inr refl))
      | inl silent ↦
          let nought : count ≡ 0 = ground (arith, silent) in
          rw (silent, finish_decrypt)
            (inl (
              refl,
              record {
                sized = h;
                context = c;
                tagged = tagged;
                checked = end;
                has_tag = e;
                verifies = f ∙ ap (λ (n : ℕ). some (n, end)) nought;
              },
            ))
    ]

    tagged-Released :
        (text : List ℕ) (c : C) (o : Option C)
        → length text ≡ length ciphertext
        → cipher.set_tag c tag ≡ o
        → Released cipher ciphertext tag old (decrypt_tagged cipher text o)
    unfolding decrypt_tagged
    tagged-Released text c none h e = inr (λ g. cc g, inr refl)
    tagged-Released text c (some tagged) h e =
        finished text c tagged (cipher.finish tagged) h e refl

    text-Released :
        (o : Option (List ℕ × C))
        → Sized (length ciphertext) o
        → Released cipher ciphertext tag old (decrypt_text cipher tag o)
    unfolding decrypt_text
    text-Released none h = inr (λ g. cc g, inr refl)
    text-Released (some (text, c)) h = tagged-Released text c (cipher.set_tag c tag) h refl

    bound-Released :
        (o : Option C)
        → Released cipher ciphertext tag old (decrypt_bound cipher ciphertext tag old o)
    unfolding decrypt_bound
    bound-Released none = inr (λ g. cc g, inl refl)
    bound-Released (some c) =
        text-Released (transform cipher c ciphertext) (transform-Sized c ciphertext)

    begun-Released :
        (aad : List ℕ) (o : Option C)
        → Released cipher ciphertext tag old (decrypt_begun cipher aad ciphertext tag old o)
    unfolding decrypt_begun
    begun-Released aad none = inr (λ g. cc g, inl refl)
    begun-Released aad (some c) = bound-Released (add_aad cipher c aad)

  checked-Released :
      (status : Status) (ciphertext tag old : List ℕ) (r : Ciphered)
      → Released cipher ciphertext tag old r
      → Released cipher ciphertext tag old
          (elim status [ ok ↦ r | other ↦ record { status = other; text = old; tag = [] } ])
  checked-Released ok ciphertext tag old r h = h
  checked-Released other ciphertext tag old r h = inr (λ g. cc g, inl refl)

  -- Decryption that reports ok releases as many bytes as it was given, after the library accepted
  -- the tag; decryption that fails leaves the caller's vector as it was or empty.
  pub aes256_gcm_decrypt-Released :
      (key nonce aad ciphertext tag : Bytes) (old : List ℕ)
      → Released cipher
          (contents ciphertext)
          (contents tag)
          old
          (aes256_gcm_decrypt cipher key nonce aad ciphertext tag old)
  unfolding aes256_gcm_decrypt
  aes256_gcm_decrypt-Released key nonce aad ciphertext tag old =
      checked-Released (validate_common key nonce aad ciphertext tag) (contents ciphertext)
        (contents tag) old _
        (begun-Released (contents ciphertext) (contents tag) old (contents aad)
          (cipher.begin (contents key) (contents nonce)))

-- Inputs that the core's check accepts pass the provider's check.
pub validate_common-accepts :
    (key nonce aad payload tag : Bytes)
    → validate_aead_inputs key nonce aad payload tag ≡ ok
    → validate_common key nonce aad payload tag ≡ ok
unfolding validate_common validate_aead_inputs
validate_common-accepts key nonce aad payload tag e = ground (arith, e)
