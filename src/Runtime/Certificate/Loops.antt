-- ===== src/Runtime/Certificate/Loops.antt =====
-- What the loops over a certificate's usages and extensions let pass.
use ghost_media.Base.{
  ℕ, zero, suc, ◌+◌, ◌<◌, ◌≤◌, ◌≡◌, ◌⊎◌, inl, inr, refl, sym, ap, ◌∙◌, true, false, not, ◌&&◌, ◌||◌,
  Option, none, some, List, [], ◌∷◌, ◌==◌, arith, get_elem?, Bool-cases,
}
use ghost_media.Runtime.Certificate.{
  Nid, basic_constraints, key_usage, ext_key_usage, client_auth, server_auth, other_nid, KeyUsage,
  Extension, is_client, is_server, is_profile_extension, usage_bits_clear, UsageCounts, counted,
  count_usages, extended_usage_fits, extensions_fit,
}

pub bits_clear :
    (left bit : ℕ) (u : KeyUsage)
    → usage_bits_clear left bit u ≡ true
    → (k : ℕ) → bit ≤ k
    → k < bit + left
    → u.bit k ≡ false
unfolding usage_bits_clear
bits_clear zero bit u e k l h = absurd (omega arith)
bits_clear (suc left) bit u e k l h = elim (Bool-cases (k == bit)) [
  | inl here ↦ let same : k ≡ bit = ground (arith, here) in rw same (ground (arith, e))
  | inr later ↦
      bits_clear left (bit + 1) u (ground (arith, e)) k (ground (arith, later)) (omega arith)
]

pub clear_bits :
    (left bit : ℕ) (u : KeyUsage)
    → ((k : ℕ) → bit ≤ k → k < bit + left → u.bit k ≡ false)
    → usage_bits_clear left bit u ≡ true
unfolding usage_bits_clear
clear_bits zero bit u h = refl
clear_bits (suc left) bit u h = ground (
  arith,
  h bit (omega arith) (omega arith),
  clear_bits left (bit + 1) u (λ k l m. h k (omega arith) (omega arith)),
)

pub fit_elements :
    (es : List Extension)
    → extensions_fit es ≡ true
    → (i : ℕ) (e : Extension) → get_elem? es i ≡ some e
    → e.critical ≡ true
    → is_profile_extension e.nid ≡ true
unfolding extensions_fit
fit_elements [] fit i e at c = cc at
fit_elements (x ∷ es) fit zero e at c =
    let same : x ≡ e = cc at in
    let critical : x.critical ≡ true = ap (λ (y : Extension). y.critical) same ∙ c in
    ap (λ (y : Extension). is_profile_extension y.nid) (sym same) ∙ ground (arith, fit, critical)
fit_elements (x ∷ es) fit (suc i) e at c = fit_elements es (ground (arith, fit)) i e at c

pub elements_fit :
    (es : List Extension)
    → ((i : ℕ) (e : Extension)
        → get_elem? es i ≡ some e
        → e.critical ≡ true
        → is_profile_extension e.nid ≡ true)
    → extensions_fit es ≡ true
unfolding extensions_fit
elements_fit [] h = refl
elements_fit (x ∷ es) h = elim (Bool-cases x.critical) [
  | inl critical ↦
      ground
        (arith, critical, h zero x refl critical, elements_fit es (λ i e at c. h (suc i) e at c))
  | inr harmless ↦ ground (arith, harmless, elements_fit es (λ i e at c. h (suc i) e at c))
]

-- The loop over the extended usages only adds.
counts_grow :
    (c : UsageCounts) (xs : List Nid)
    → (c.clients ≤ (count_usages c xs).clients)
      × (c.servers ≤ (count_usages c xs).servers)
      × (c.has_other ≡ true → (count_usages c xs).has_other ≡ true)
unfolding count_usages
counts_grow c [] = (omega arith, omega arith, λ e. e)
counts_grow c (n ∷ xs) =
    let rest =
      counts_grow
        record {
          clients = c.clients + counted (is_client n);
          servers = c.servers + counted (is_server n);
          has_other = c.has_other || not (is_client n) && not (is_server n);
        }
        xs in
    (omega (arith, rest.0), omega (arith, rest.1), λ e. rest.2 (ground (arith, e)))

-- The counts with which a usage extension passes.
record IsExact (c : UsageCounts) : Type 0 where
  one_client : c.clients ≡ 1
  one_server : c.servers ≡ 1
  no_other : c.has_other ≡ false

abbrev start : (clients servers : ℕ) → UsageCounts
start clients servers = record { clients = clients; servers = servers; has_other = false }

-- Another usage is not forgotten.
other_stays :
    (clients servers : ℕ) (xs : List Nid)
    → (count_usages record { clients = clients; servers = servers; has_other = true } xs).has_other
      ≡ false
    → ⊥
other_stays clients servers xs e =
    cc
      ((counts_grow record { clients = clients; servers = servers; has_other = true } xs).2 refl, e)

-- No usage follows the two.
none_left : (xs : List Nid) → IsExact (count_usages (start 1 1) xs) → xs ≡ []
unfolding count_usages
none_left [] e = refl
none_left (client_auth ∷ xs) e =
    absurd (omega (arith, (counts_grow (start 2 1) xs).0, e.one_client))
none_left (server_auth ∷ xs) e =
    absurd (omega (arith, (counts_grow (start 1 2) xs).1, e.one_server))
none_left (basic_constraints ∷ xs) e = absurd (other_stays 1 1 xs e.no_other)
none_left (key_usage ∷ xs) e = absurd (other_stays 1 1 xs e.no_other)
none_left (ext_key_usage ∷ xs) e = absurd (other_stays 1 1 xs e.no_other)
none_left (other_nid n ∷ xs) e = absurd (other_stays 1 1 xs e.no_other)

server_left : (xs : List Nid) → IsExact (count_usages (start 1 0) xs) → xs ≡ server_auth ∷ []
unfolding count_usages
server_left [] e = absurd (omega (arith, e.one_server))
server_left (client_auth ∷ xs) e =
    absurd (omega (arith, (counts_grow (start 2 0) xs).0, e.one_client))
server_left (server_auth ∷ xs) e = ap (◌∷◌ server_auth) (none_left xs e)
server_left (basic_constraints ∷ xs) e = absurd (other_stays 1 0 xs e.no_other)
server_left (key_usage ∷ xs) e = absurd (other_stays 1 0 xs e.no_other)
server_left (ext_key_usage ∷ xs) e = absurd (other_stays 1 0 xs e.no_other)
server_left (other_nid n ∷ xs) e = absurd (other_stays 1 0 xs e.no_other)

client_left : (xs : List Nid) → IsExact (count_usages (start 0 1) xs) → xs ≡ client_auth ∷ []
unfolding count_usages
client_left [] e = absurd (omega (arith, e.one_client))
client_left (client_auth ∷ xs) e = ap (◌∷◌ client_auth) (none_left xs e)
client_left (server_auth ∷ xs) e =
    absurd (omega (arith, (counts_grow (start 0 2) xs).1, e.one_server))
client_left (basic_constraints ∷ xs) e = absurd (other_stays 0 1 xs e.no_other)
client_left (key_usage ∷ xs) e = absurd (other_stays 0 1 xs e.no_other)
client_left (ext_key_usage ∷ xs) e = absurd (other_stays 0 1 xs e.no_other)
client_left (other_nid n ∷ xs) e = absurd (other_stays 0 1 xs e.no_other)

both_left :
    (xs : List Nid)
    → IsExact (count_usages (start 0 0) xs)
    → (xs ≡ client_auth ∷ server_auth ∷ []) ⊎ (xs ≡ server_auth ∷ client_auth ∷ [])
unfolding count_usages
both_left [] e = absurd (omega (arith, e.one_client))
both_left (client_auth ∷ xs) e = inl (ap (◌∷◌ client_auth) (server_left xs e))
both_left (server_auth ∷ xs) e = inr (ap (◌∷◌ server_auth) (client_left xs e))
both_left (basic_constraints ∷ xs) e = absurd (other_stays 0 0 xs e.no_other)
both_left (key_usage ∷ xs) e = absurd (other_stays 0 0 xs e.no_other)
both_left (ext_key_usage ∷ xs) e = absurd (other_stays 0 0 xs e.no_other)
both_left (other_nid n ∷ xs) e = absurd (other_stays 0 0 xs e.no_other)

pub exact_purposes :
    (o : Option (List Nid))
    → extended_usage_fits o ≡ true
    → (o ≡ some (client_auth ∷ server_auth ∷ [])) ⊎ (o ≡ some (server_auth ∷ client_auth ∷ []))
unfolding extended_usage_fits
exact_purposes none e = cc e
exact_purposes (some xs) e =
    elim (both_left xs (record {
      one_client = ground (arith, e);
      one_server = ground (arith, e);
      no_other = ground (arith, e);
    })) [ inl this ↦ inl (ap some this) | inr other ↦ inr (ap some other) ]
