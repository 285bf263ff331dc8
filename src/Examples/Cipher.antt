-- ===== src/Examples/Cipher.antt =====
-- Instances of the theorems on AES-GCM, with a toy cipher.
use ghost_media.Base.{
  ℕ, ◌+◌, ◌==◌, ◌≡◌, refl, if◌then◌else◌, none, some, List, [], ◌∷◌, replicate, map,
}
use ghost_media.Abi.{ok, Bytes, memory}
use ghost_media.Crypto.Keys.{validate_aead_inputs}
use ghost_media.Runtime.AesGcm.{Cipher, validate_common, aes256_gcm_decrypt}
use ghost_media.Runtime.AesGcm.Release.{
  Released, aes256_gcm_decrypt-Released, validate_common-accepts,
}

first : List ℕ → ℕ
first [] = 0
first (x ∷ xs) = x

-- The context is the key's first byte, which is added to the text and must be that of the tag.
toy_cipher : Cipher ℕ
toy_cipher = record {
  begin = λ key nonce. some (first key);
  update_aad = λ c aad. some c;
  update = λ c text. some (map (λ x. x + c) text, c);
  finish = λ c. some (0, c);
  get_tag = λ c. some (replicate 16 c);
  set_tag = λ c tag. if first tag == c then some c else none;
}

abbrev key : Bytes
key = memory (replicate 32 4)

abbrev nonce : Bytes
nonce = memory (replicate 12 1)

abbrev aad : Bytes
aad = memory (replicate 64 2)

abbrev tag : List ℕ
tag = replicate 16 4

aes256_gcm_decrypt-Released_example :
    Released toy_cipher
      (7 ∷ 8 ∷ [])
      tag
      (9 ∷ [])
      (aes256_gcm_decrypt toy_cipher key nonce aad (memory (7 ∷ 8 ∷ [])) (memory tag) (9 ∷ []))
aes256_gcm_decrypt-Released_example =
    aes256_gcm_decrypt-Released toy_cipher key nonce aad (memory (7 ∷ 8 ∷ [])) (memory tag) (9 ∷ [])

released :
    aes256_gcm_decrypt toy_cipher key nonce aad (memory (7 ∷ 8 ∷ [])) (memory tag) (9 ∷ [])
    ≡ record { status = ok; text = 11 ∷ 12 ∷ []; tag = [] }
unfolding aes256_gcm_decrypt toy_cipher first
released = refl

inputs_accepted : validate_aead_inputs key nonce aad (memory (7 ∷ 8 ∷ [])) (memory tag) ≡ ok
unfolding validate_aead_inputs
inputs_accepted = refl

validate_common-accepts_example :
    validate_common key nonce aad (memory (7 ∷ 8 ∷ [])) (memory tag) ≡ ok
validate_common-accepts_example =
    validate_common-accepts key nonce aad (memory (7 ∷ 8 ∷ [])) (memory tag) inputs_accepted
