-- ===== src/Runtime/Certificate.antt =====
-- `certificate_profile` of runtime/core/certificate_profile.cpp: which certificates can be an
-- identity. What OpenSSL's accessors return for a certificate is a parameter, the record `X509`.
pub mod Loops
pub mod Profile
use ghost_media.Base.{
  ℕ, zero, suc, ◌+◌, ◌-◌, ◌*◌, Bool, true, false, not, ◌&&◌, ◌||◌, Option, none, some, List, [],
  ◌∷◌, ltb, ◌==◌, if◌then◌else◌,
}

-- The sign of an `int`.
pub data Sign : Type 0 where
  negative nought positive : Sign

-- The object identifiers that the code names.
pub data Nid : Type 0 where
  basic_constraints key_usage ext_key_usage client_auth server_auth : Nid
  other_nid : ℕ → Nid

pub record KeyUsage : Type 0 where
  pub bytes : ℕ
  pub bit : ℕ → Bool

pub record Extension : Type 0 where
  pub nid : Nid
  pub critical : Bool

-- For one certificate: sizes and numbers below 0 are given as 0; `critical` of an extension is
-- whether OpenSSL reports 1; none stands for a null pointer and for a call that fails.
pub record X509 : Type 0 where
  pub der_size : ℕ
  pub version : ℕ
  pub not_before_to_now : Sign
  pub not_after_to_now : Sign
  pub validity_days : Option ℕ
  pub validity_seconds : ℕ
  pub serial_length : ℕ
  pub has_subject_alt_name : Bool
  pub same_names : Bool
  pub key_is_ed25519 : Option Bool
  pub verifies : Bool
  pub signature_is_ed25519 : Bool
  pub constraints_ca : Option Bool
  pub constraints_critical : Bool
  pub usage : Option KeyUsage
  pub usage_critical : Bool
  pub extended_usage : Option (List Nid)
  pub extensions : List Extension

pub data ProfileResult : Type 0 where
  valid not_yet_valid expired invalid : ProfileResult

abbrev pub is_positive : Sign → Bool
is_positive positive = true
is_positive _ = false

abbrev pub is_negative : Sign → Bool
is_negative negative = true
is_negative _ = false

abbrev pub is_client : Nid → Bool
is_client client_auth = true
is_client _ = false

abbrev pub is_server : Nid → Bool
is_server server_auth = true
is_server _ = false

abbrev pub is_profile_extension : Nid → Bool
is_profile_extension basic_constraints = true
is_profile_extension key_usage = true
is_profile_extension ext_key_usage = true
is_profile_extension _ = false

unfoldable pub validity_fits : Option ℕ → ℕ → Bool
validity_fits none seconds = false
validity_fits (some days) seconds = not (ltb 825 days) && not (days == 825 && ltb 0 seconds)

unfoldable pub is_option : Option Bool → Bool → Bool
is_option none expected = false
is_option (some true) expected = expected
is_option (some false) expected = not expected

-- The loop over the bits of the key usage, from `bit` on.
unfoldable pub usage_bits_clear : (left bit : ℕ) → KeyUsage → Bool
usage_bits_clear zero bit usage = true
usage_bits_clear (suc left) bit usage = not (usage.bit bit) && usage_bits_clear left (bit + 1) usage

unfoldable pub usage_fits : Option KeyUsage → Bool → Bool
unfolding usage_bits_clear
usage_fits none critical = false
usage_fits (some usage) critical =
    critical && usage.bit 0 && usage_bits_clear (usage.bytes * 8 - 1) 1 usage

-- The variables of the loop over the extended key usages.
pub record UsageCounts : Type 0 where
  pub clients : ℕ
  pub servers : ℕ
  pub has_other : Bool

abbrev pub counted : Bool → ℕ
counted true = 1
counted false = 0

unfoldable pub count_usages : UsageCounts → List Nid → UsageCounts
count_usages c [] = c
count_usages c (nid ∷ rest) =
    count_usages
      record {
        clients = c.clients + counted (is_client nid);
        servers = c.servers + counted (is_server nid);
        has_other = c.has_other || not (is_client nid) && not (is_server nid);
      }
      rest

unfoldable pub extended_usage_fits : Option (List Nid) → Bool
unfolding count_usages
extended_usage_fits none = false
extended_usage_fits (some nids) =
    let c = count_usages record { clients = 0; servers = 0; has_other = false } nids in
    c.clients == 1 && c.servers == 1 && not c.has_other

-- The loop that refuses other critical extensions.
unfoldable pub extensions_fit : List Extension → Bool
extensions_fit [] = true
extensions_fit (e ∷ rest) =
    not (e.critical && not (is_profile_extension e.nid)) && extensions_fit rest

unfoldable pub certificate_profile : Option X509 → ProfileResult
unfolding validity_fits is_option usage_fits extended_usage_fits extensions_fit
certificate_profile none = invalid
certificate_profile (some x) =
    if x.der_size == 0 || ltb 8192 x.der_size || not (x.version == 2)
    then invalid
    else if is_positive x.not_before_to_now
    then not_yet_valid
    else if is_negative x.not_after_to_now
    then expired
    else if not (validity_fits x.validity_days x.validity_seconds)
        || ltb x.serial_length 8
        || x.has_subject_alt_name
        || not x.same_names
    then invalid
    else if not (is_option x.key_is_ed25519 true) || not x.verifies || not x.signature_is_ed25519
    then invalid
    else if not (is_option x.constraints_ca false && x.constraints_critical)
    then invalid
    else if not (usage_fits x.usage x.usage_critical)
    then invalid
    else if not (extended_usage_fits x.extended_usage)
    then invalid
    else if not (extensions_fit x.extensions)
    then invalid
    else valid
