-- ===== src/Runtime/Certificate/Profile.antt =====
-- What a certificate that passes the profile is.
use ghost_media.Base.{
  ℕ, ◌-◌, ◌*◌, ◌<◌, ◌≤◌, ◌≡◌, ◌≢◌, ◌↔◌, ◌⊎◌, inl, inr, refl, ap, Bool, true, false, Option, none,
  some, List, [], ◌∷◌, ◌==◌, arith, get_elem?, Bool-cases,
}
use ghost_media.Runtime.Certificate.Loops.{
  bits_clear, clear_bits, fit_elements, elements_fit, exact_purposes,
}
use ghost_media.Runtime.Certificate.{
  nought, Sign, negative, positive, Nid, client_auth, server_auth, KeyUsage, Extension, X509, valid,
  is_positive, is_negative, is_profile_extension, validity_fits, is_option, usage_bits_clear,
  usage_fits, count_usages, extended_usage_fits, extensions_fit, certificate_profile,
}

-- A certificate of version 3 and the right size, now valid, for 825 days at most, with a serial
-- number of 8 bytes or more and no alternative name, issued and signed by itself with an Ed25519
-- key, for digital signatures and for one client and one server, and no authority.
pub record IsIdentity (x : X509) : Type 0 where
  pub some_bytes : 1 ≤ x.der_size
  pub few_bytes : x.der_size ≤ 8192
  pub version_3 : x.version ≡ 2
  pub begun : x.not_before_to_now ≢ positive
  pub not_over : x.not_after_to_now ≢ negative
  pub days : ℕ
  pub lasts : x.validity_days ≡ some days
  pub short : (days < 825) ⊎ ((days ≡ 825) × (x.validity_seconds ≡ 0))
  pub serial : 8 ≤ x.serial_length
  pub no_alternative : x.has_subject_alt_name ≡ false
  pub own_issuer : x.same_names ≡ true
  pub key : x.key_is_ed25519 ≡ some true
  pub signed : x.verifies ≡ true
  pub signature : x.signature_is_ed25519 ≡ true
  pub no_ca : x.constraints_ca ≡ some false
  pub constraints : x.constraints_critical ≡ true
  pub usage_known : x.usage_critical ≡ true
  pub usage : KeyUsage
  pub has_usage : x.usage ≡ some usage
  pub signs : usage.bit 0 ≡ true
  pub signs_only : (k : ℕ) → 1 ≤ k → k < usage.bytes * 8 → usage.bit k ≡ false
  pub purposes :
      (x.extended_usage ≡ some (client_auth ∷ server_auth ∷ []))
      ⊎ (x.extended_usage ≡ some (server_auth ∷ client_auth ∷ []))
  pub understood :
      (i : ℕ) (e : Extension)
      → get_elem? x.extensions i ≡ some e
      → e.critical ≡ true
      → is_profile_extension e.nid ≡ true

-- The tests that a valid certificate has passed.
record Passed (x : X509) : Type 0 where
  some_bytes : 1 ≤ x.der_size
  few_bytes : x.der_size ≤ 8192
  version_3 : x.version ≡ 2
  begun : is_positive x.not_before_to_now ≡ false
  not_over : is_negative x.not_after_to_now ≡ false
  lasts : validity_fits x.validity_days x.validity_seconds ≡ true
  serial : 8 ≤ x.serial_length
  no_alternative : x.has_subject_alt_name ≡ false
  own_issuer : x.same_names ≡ true
  key : is_option x.key_is_ed25519 true ≡ true
  signed : x.verifies ≡ true
  signature : x.signature_is_ed25519 ≡ true
  no_ca : is_option x.constraints_ca false ≡ true
  constraints : x.constraints_critical ≡ true
  usage : usage_fits x.usage x.usage_critical ≡ true
  purposes : extended_usage_fits x.extended_usage ≡ true
  understood : extensions_fit x.extensions ≡ true

valid-Passed : (x : X509) → certificate_profile (some x) ≡ valid → Passed x
unfolding certificate_profile
valid-Passed x e = record {
  some_bytes = ground (arith, e);
  few_bytes = ground (arith, e);
  version_3 = ground (arith, e);
  begun = ground (arith, e);
  not_over = ground (arith, e);
  lasts = ground (arith, e);
  serial = ground (arith, e);
  no_alternative = ground (arith, e);
  own_issuer = ground (arith, e);
  key = ground (arith, e);
  signed = ground (arith, e);
  signature = ground (arith, e);
  no_ca = ground (arith, e);
  constraints = ground (arith, e);
  usage = ground (arith, e);
  purposes = ground (arith, e);
  understood = ground (arith, e);
}

tests_valid : (x : X509) → Passed x → certificate_profile (some x) ≡ valid
unfolding certificate_profile
tests_valid x p = ground (arith, p)

is_option_iff : (o : Option Bool) (b : Bool) → (is_option o b ≡ true) ↔ (o ≡ some b)
unfolding is_option
is_option_iff none b = (λ e. cc e, λ e. cc e)
is_option_iff (some true) true = (λ e. refl, λ e. refl)
is_option_iff (some true) false = (λ e. cc e, λ e. cc e)
is_option_iff (some false) true = (λ e. cc e, λ e. cc e)
is_option_iff (some false) false = (λ e. refl, λ e. refl)

lasts_days :
    (o : Option ℕ) (seconds : ℕ)
    → validity_fits o seconds ≡ true
    → (days : ℕ) × (o ≡ some days) × ((days < 825) ⊎ ((days ≡ 825) × (seconds ≡ 0)))
unfolding validity_fits
lasts_days none seconds e = cc e
lasts_days (some days) seconds e = (
  days,
  refl,
  elim (Bool-cases (days == 825)) [
    | inl last ↦ inr (ground (arith, last), ground (arith, last, e))
    | inr earlier ↦ inl (ground (arith, earlier, e))
  ],
)

usage_known :
    (o : Option KeyUsage) (critical : Bool)
    → usage_fits o critical ≡ true
    → (u : KeyUsage) × (o ≡ some u)
      × (critical ≡ true)
      × (u.bit 0 ≡ true)
      × ((k : ℕ) → 1 ≤ k → k < u.bytes * 8 → u.bit k ≡ false)
unfolding usage_fits
usage_known none critical e = cc e
usage_known (some u) critical e = (
  u,
  refl,
  ground (arith, e),
  ground (arith, e),
  λ k l h. bits_clear (u.bytes * 8 - 1) 1 u (ground (arith, e)) k l (omega arith),
)

valid-IsIdentity : (x : X509) → certificate_profile (some x) ≡ valid → IsIdentity x
valid-IsIdentity x e =
    let p = valid-Passed x e in
    let l = lasts_days x.validity_days x.validity_seconds p.lasts in
    let u = usage_known x.usage x.usage_critical p.usage in
    record {
      some_bytes = p.some_bytes;
      few_bytes = p.few_bytes;
      version_3 = p.version_3;
      begun = λ over. cc (p.begun, ap is_positive over);
      not_over = λ over. cc (p.not_over, ap is_negative over);
      days = l.0;
      lasts = l.1;
      short = l.2;
      serial = p.serial;
      no_alternative = p.no_alternative;
      own_issuer = p.own_issuer;
      key = (is_option_iff x.key_is_ed25519 true).0 p.key;
      signed = p.signed;
      signature = p.signature;
      no_ca = (is_option_iff x.constraints_ca false).0 p.no_ca;
      constraints = p.constraints;
      usage_known = u.2;
      usage = u.0;
      has_usage = u.1;
      signs = u.3;
      signs_only = u.4;
      purposes = exact_purposes x.extended_usage p.purposes;
      understood = fit_elements x.extensions p.understood;
    }

not_positive : (s : Sign) → s ≢ positive → is_positive s ≡ false
not_positive negative h = refl
not_positive nought h = refl
not_positive positive h = absurd (h refl)

not_negative : (s : Sign) → s ≢ negative → is_negative s ≡ false
not_negative negative h = absurd (h refl)
not_negative nought h = refl
not_negative positive h = refl

days_last :
    (o : Option ℕ) (days seconds : ℕ)
    → o ≡ some days
    → (days < 825) ⊎ ((days ≡ 825) × (seconds ≡ 0))
    → validity_fits o seconds ≡ true
unfolding validity_fits
days_last o days seconds e (inl earlier) = rw (e, validity_fits) (ground (arith, earlier))
days_last o days seconds e (inr last) = rw (e, validity_fits) (ground (arith, last))

known_usage :
    (o : Option KeyUsage) (critical : Bool) (u : KeyUsage)
    → o ≡ some u
    → critical ≡ true
    → u.bit 0 ≡ true
    → ((k : ℕ) → 1 ≤ k → k < u.bytes * 8 → u.bit k ≡ false)
    → usage_fits o critical ≡ true
unfolding usage_fits
known_usage o critical u e c b h =
    let rest : usage_bits_clear (u.bytes * 8 - 1) 1 u ≡ true =
      clear_bits (u.bytes * 8 - 1) 1 u (λ k l m. h k l (omega arith)) in
    rw (e, usage_fits) (ground (arith, c, b, rest))

purposes_exact :
    (o : Option (List Nid))
    → (o ≡ some (client_auth ∷ server_auth ∷ [])) ⊎ (o ≡ some (server_auth ∷ client_auth ∷ []))
    → extended_usage_fits o ≡ true
unfolding extended_usage_fits count_usages
purposes_exact o (inl e) = rw (e, extended_usage_fits) refl
purposes_exact o (inr e) = rw (e, extended_usage_fits) refl

identity_valid : (x : X509) → IsIdentity x → certificate_profile (some x) ≡ valid
identity_valid x v = tests_valid x record {
  some_bytes = v.some_bytes;
  few_bytes = v.few_bytes;
  version_3 = v.version_3;
  begun = not_positive x.not_before_to_now v.begun;
  not_over = not_negative x.not_after_to_now v.not_over;
  lasts = days_last x.validity_days v.days x.validity_seconds v.lasts v.short;
  serial = v.serial;
  no_alternative = v.no_alternative;
  own_issuer = v.own_issuer;
  key = (is_option_iff x.key_is_ed25519 true).1 v.key;
  signed = v.signed;
  signature = v.signature;
  no_ca = (is_option_iff x.constraints_ca false).1 v.no_ca;
  constraints = v.constraints;
  usage =
      known_usage x.usage x.usage_critical v.usage v.has_usage v.usage_known v.signs v.signs_only;
  purposes = purposes_exact x.extended_usage v.purposes;
  understood = elements_fit x.extensions v.understood;
}

-- A certificate has the profile exactly if it is that of an identity.
pub certificate_profile_lem : (x : X509) → (certificate_profile (some x) ≡ valid) ↔ IsIdentity x
certificate_profile_lem x = (valid-IsIdentity x, identity_valid x)
