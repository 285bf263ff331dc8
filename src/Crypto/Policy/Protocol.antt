-- ===== src/Crypto/Policy/Protocol.antt =====
-- The strings and arrays of an observation in shared/core/gm_crypto.cpp: what `strcmp` and the test
-- for zeros say of their bytes.
use ghost_media.Base.{
  ℕ, suc, ◌≡◌, refl, ap, ap₂, Bool, true, not, ◌&&◌, some, List, [], ◌∷◌, ◌++◌, ◌==◌, length,
  replicate, arith,
}
use ghost_media.Text.{codes, find_nul, bounded_c_string, same_c_string}
use ghost_media.Wire.{byte_at}
use ghost_media.Media.Header.Layout.{tabulate}
use ghost_media.Crypto.{all_zero}
use ghost_media.Crypto.Policy.{Observation, has_alpn}

tail : List ℕ → List ℕ
tail [] = []
tail (y ∷ ys) = ys

pub zeros_replicate : (xs : List ℕ) → all_zero xs ≡ true → xs ≡ replicate (length xs) 0
unfolding all_zero
zeros_replicate [] e = refl
zeros_replicate (x ∷ xs) e =
    ap₂ (λ a b. a ∷ b) (ground (arith, e)) (zeros_replicate xs (ground (arith, e)))

pub replicate_zeros : (xs : List ℕ) → xs ≡ replicate (length xs) 0 → all_zero xs ≡ true
unfolding all_zero tail
replicate_zeros [] e = refl
replicate_zeros (x ∷ xs) e =
    let head : x ≡ 0 = ap (λ t. byte_at t 0) e in
    let rest : all_zero xs ≡ true = replicate_zeros xs (ap (λ t. tail t) e) in rw (head, rest) refl

-- No byte is 0.
text : List ℕ → Bool
text [] = true
text (y ∷ ys) = not (y == 0) && text ys

-- Equal strings have the same bytes up to their NUL.
same_bytes :
    (xs ys : List ℕ)
    → text ys ≡ true
    → same_c_string xs ys ≡ true
    → tabulate (suc (length ys)) (byte_at xs) ≡ ys ++ 0 ∷ []
unfolding text same_c_string
same_bytes [] [] t e = refl
same_bytes (x ∷ xs) [] t e = ap (λ a. a ∷ []) (ground (arith, e))
same_bytes [] (y ∷ ys) t e = absurd (ground (arith, t, e))
same_bytes (x ∷ xs) (y ∷ ys) t e =
    ap₂ (λ a b. a ∷ b) (ground (arith, t, e))
      (same_bytes xs ys (ground (arith, t, e)) (ground (arith, t, e)))

bytes_same :
    (xs ys : List ℕ)
    → text ys ≡ true
    → tabulate (suc (length ys)) (byte_at xs) ≡ ys ++ 0 ∷ []
    → same_c_string xs ys ≡ true
unfolding text same_c_string tail
bytes_same [] [] t e = refl
bytes_same (x ∷ xs) [] t e = let nul : x ≡ 0 = ap (λ b. byte_at b 0) e in rw nul refl
bytes_same [] (y ∷ ys) t e =
    let nul : 0 ≡ y = ap (λ b. byte_at b 0) e in absurd (ground (arith, t, nul))
bytes_same (x ∷ xs) (y ∷ ys) t e =
    let head : x ≡ y = ap (λ b. byte_at b 0) e in
    let rest : same_c_string xs ys ≡ true =
      bytes_same xs ys (ground (arith, t)) (ap (λ b. tail b) e) in
    ground (arith, head, rest)

-- The twelve bytes of the protocol's name and a NUL.
abbrev pub name : List ℕ
name = codes "ghostmedia/1"

name-length :
    (xs : List ℕ) → tabulate 13 (byte_at xs) ≡ name ++ 0 ∷ [] → bounded_c_string xs 33 ≡ some 12
unfolding bounded_c_string find_nul
name-length xs e =
    let at : (k : ℕ) → byte_at (tabulate 13 (byte_at xs)) k ≡ byte_at (name ++ 0 ∷ []) k =
      λ k. ap (λ b. byte_at b k) e in
    rw (at 0, at 1, at 2, at 3, at 4, at 5, at 6, at 7, at 8, at 9, at 10, at 11, at 12) refl

pub has_alpn-bytes :
    (o : Observation) → has_alpn o ≡ true → tabulate 13 (byte_at o.alpn) ≡ name ++ 0 ∷ []
unfolding has_alpn text
has_alpn-bytes o e = same_bytes o.alpn name refl (ground (arith, e))

pub bytes-has_alpn :
    (o : Observation) → tabulate 13 (byte_at o.alpn) ≡ name ++ 0 ∷ [] → has_alpn o ≡ true
unfolding has_alpn text
bytes-has_alpn o e = rw (name-length o.alpn e, bytes_same o.alpn name refl e) refl
