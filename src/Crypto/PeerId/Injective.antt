-- ===== src/Crypto/PeerId/Injective.antt =====
-- The text of an identity determines the identity.
use ghost_media.Base.{
  ℕ, zero, suc, ◌+◌, ◌-◌, ◌*◌, ◌<◌, ◌≡◌, refl, sym, ap, ap₂, ◌∙◌, Bool, true, ◌&&◌, List, [], ◌∷◌,
  map, leb, ◌==◌, if◌then◌else◌, length, arith, Bool-cases, inl, inr, ==_iff,
}
use ghost_media.Crypto.PeerId.{letter, encode_letters}
use ghost_media.Crypto.PeerId.Digits.{value_from, all_below}
use ghost_media.Crypto.PeerId.Value.{encode_letters-Spelled}

-- Digits in base 256 that write the same number after the same count of digits.
value_from_injective :
    (s t : ℕ) (xs ys : List ℕ)
    → all_below 256 xs ≡ true
    → all_below 256 ys ≡ true
    → length xs ≡ length ys
    → value_from 256 s xs ≡ value_from 256 t ys
    → (s ≡ t) × (xs ≡ ys)
unfolding value_from all_below
value_from_injective s t [] [] h k l e = (e, refl)
value_from_injective s t [] (y ∷ ys) h k l e = absurd (omega (arith, l))
value_from_injective s t (x ∷ xs) [] h k l e = absurd (omega (arith, l))
value_from_injective s t (x ∷ xs) (y ∷ ys) h k l e =
    let x_small : x < 256 = ground (arith, h) in
    let y_small : y < 256 = ground (arith, k) in
    let both : (s * 256 + x ≡ t * 256 + y) × (xs ≡ ys) =
      value_from_injective (s * 256 + x) (t * 256 + y) xs ys (ground (arith, h)) (ground (arith, k))
        (omega (arith, l)) e in
    let front = both.0 in (omega arith, ap₂ (λ a b. a ∷ b) (omega arith) both.1)

-- Which of the 32 letters a letter is.
unfoldable pub letter_index : ℕ → ℕ
letter_index c = if leb 97 c then c - 97 else c - 24

holds_to : (ℕ → Bool) → ℕ → Bool
holds_to test zero = true
holds_to test (suc n) = test n && holds_to test n

holds_below : (test : ℕ → Bool) (n k : ℕ) → holds_to test n ≡ true → k < n → test k ≡ true
unfolding holds_to
holds_below test zero k h l = absurd (omega arith)
holds_below test (suc n) k h l = elim (Bool-cases (k == n)) [
  | inl here ↦ let same : k ≡ n = ground (arith, here) in rw same (ground (arith, h))
  | inr other ↦ holds_below test n k (ground (arith, h)) (ground (arith, other))
]

all_letters : holds_to (λ (k : ℕ). letter_index (letter k) == k) 32 ≡ true
unfolding holds_to letter_index letter
all_letters = refl

letter_index-letter : (d : ℕ) → d < 32 → letter_index (letter d) ≡ d
letter_index-letter d h =
    (==_iff (letter_index (letter d)) d).0
      (holds_below (λ (k : ℕ). letter_index (letter k) == k) 32 d all_letters h)

letters_read_back : (ds : List ℕ) → all_below 32 ds ≡ true → map letter_index (map letter ds) ≡ ds
unfolding all_below
letters_read_back [] h = refl
letters_read_back (d ∷ ds) h =
    ap₂ (λ a b. a ∷ b) (letter_index-letter d (ground (arith, h)))
      (letters_read_back ds (ground (arith, h)))

-- Two digests of 32 bytes with the same text are the same digest.
pub encode_letters_injective :
    (first second : List ℕ)
    → all_below 256 first ≡ true
    → all_below 256 second ≡ true
    → length first ≡ 32
    → length second ≡ 32
    → encode_letters first ≡ encode_letters second
    → first ≡ second
encode_letters_injective first second h k l m e =
    let f = encode_letters-Spelled first h l in
    let s = encode_letters-Spelled second k m in
    let digits : f.digits ≡ s.digits =
      sym (letters_read_back f.digits f.small)
      ∙ ap (λ t. map letter_index t) (sym f.spelled ∙ e ∙ s.spelled)
      ∙ letters_read_back s.digits s.small in
    let worth : value_from 256 0 first ≡ value_from 256 0 second =
      omega (arith, f.worth, s.worth, ap (λ t. value_from 32 0 t) digits) in
    (value_from_injective 0 0 first second h k (omega (arith, l, m)) worth).1
