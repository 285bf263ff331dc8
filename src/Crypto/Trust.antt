-- ===== src/Crypto/Trust.antt =====
-- `gm_trust_record_authorizes` of shared/core/gm_crypto.cpp.
use native.Mathlib.Nat.{one-le-pow}
use ghost_media.Base.{
  ℕ, zero, suc, ◌^◌, ◌≤◌, ◌<◌, ◌≡◌, Bool, true, not, ◌&&◌, ◌||◌, Option, none, some, List, ltb,
  ◌==◌, if◌then◌else◌, bit_and, arith, refl, inl, inr, ◌⊎◌,
}
use ghost_media.Abi.{Status, ok, bad_argument, abi_version}
use ghost_media.Bits.{test_bit, test_bit-lt}
use ghost_media.Bits.Fields.{bit_and-pow}
use ghost_media.Crypto.{all_zero}

pub record TrustRecord : Type 0 where
  pub struct_size : ℕ
  pub abi_version : ℕ
  pub peer_spki_digest : List ℕ
  pub permissions : ℕ
  pub revoked : ℕ
  pub reserved : List ℕ

-- On LP64.
abbrev pub sizeof_trust_record : ℕ
sizeof_trust_record = 56

-- Connect, view the status, receive the system's audio, provide a microphone or a camera.
unfoldable pub known_permission : ℕ → Bool
known_permission permission =
    permission == 1 || permission == 2 || permission == 4 || permission == 8 || permission == 16

pub record AuthorizeResult : Type 0 where
  pub status : Status
  pub out_authorized : Option ℕ

unfoldable pub authorizes : Option TrustRecord → (permission : ℕ) → Option ℕ → AuthorizeResult
unfolding known_permission all_zero
authorizes none permission out = record { status = bad_argument; out_authorized = out }
authorizes (some r) permission none = record { status = bad_argument; out_authorized = none }
authorizes (some r) permission (some old) =
    if ltb r.struct_size sizeof_trust_record
      || not (r.abi_version == abi_version)
      || not (known_permission permission)
      || ltb 1 r.revoked
      || not (all_zero r.reserved)
    then record { status = bad_argument; out_authorized = some old }
    else record {
      status = ok;
      out_authorized =
          some (if r.revoked == 0 && bit_and r.permissions permission == permission then 1 else 0);
    }

pub record IsTrustRecord (r : TrustRecord) : Type 0 where
  pub sized : 56 ≤ r.struct_size
  pub versioned : r.abi_version ≡ 1
  pub flag : r.revoked ≤ 1
  pub unused : all_zero r.reserved ≡ true

lt_two : (t : ℕ) → t < 2 → (t ≡ 0) ⊎ (t ≡ 1)
lt_two zero h = inl refl
lt_two (suc zero) h = inr refl
lt_two (suc (suc t)) h = absurd (omega arith)

-- The mask test of one permission reads its bit.
mask_test : (a k : ℕ) → (bit_and a (2 ^ k) == 2 ^ k) ≡ (test_bit a k == 1)
mask_test a k =
    let pos = one-le-pow k 2 (omega arith) in
    rw (bit_and-pow k a) (elim (lt_two (test_bit a k) (test_bit-lt a k)) [
      | inl off ↦ rw off (ground (arith, pos))
      | inr on ↦ rw on (ground (arith, pos))
    ])

known-two_pow : (k : ℕ) → k < 5 → known_permission (2 ^ k) ≡ true
unfolding known_permission
known-two_pow zero h = refl
known-two_pow (suc zero) h = refl
known-two_pow (suc (suc zero)) h = refl
known-two_pow (suc (suc (suc zero))) h = refl
known-two_pow (suc (suc (suc (suc zero)))) h = refl
known-two_pow (suc (suc (suc (suc (suc k))))) h = absurd (omega arith)

-- In a well-formed record the permission of bit k, one of the five, is granted exactly if the
-- record is not revoked and its permissions have that bit.
pub authorizes_lem :
    (r : TrustRecord) (k old : ℕ)
    → IsTrustRecord r
    → k < 5
    → authorizes (some r) (2 ^ k) (some old) ≡ record {
      status = ok;
      out_authorized = some (if r.revoked == 0 && test_bit r.permissions k == 1 then 1 else 0);
    }
unfolding authorizes
authorizes_lem r k old v h =
    ground
      (arith, v.sized, v.versioned, v.flag, v.unused, known-two_pow k h, mask_test r.permissions k)
