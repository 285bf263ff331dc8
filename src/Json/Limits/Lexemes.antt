-- ===== src/Json/Limits/Lexemes.antt =====
-- The limits on strings and numbers.
use ghost_media.Base.{
  ℕ, zero, suc, ◌^◌, ◌≤◌, ◌<◌, ◌≡◌, ◌⊎◌, inl, inr, refl, List, [], ◌∷◌, ◌++◌, length, ltb, arith,
  Bool-cases,
}
use ghost_media.Json.{done, Answer-cases, Refusal}
use ghost_media.Json.Lexer.{
  parse_string, string_loop, parse_number, digits_loop, next_digit, Digit, no_digit, overflow, next,
  Piece, finished, broken, more, next_piece,
}

pub Piece-cases :
    (p : Piece)
    → (((end : List ℕ) × (p ≡ finished end)) ⊎ ((r : Refusal) × (p ≡ broken r)))
      ⊎ ((added : List ℕ) × (end : List ℕ) × (p ≡ more added end))
Piece-cases (finished end) = inl (inl (end, refl))
Piece-cases (broken r) = inl (inr (r, refl))
Piece-cases (more added end) = inr (added, end, refl)

Digit-cases : (d : Digit) → ((d ≡ no_digit) ⊎ (d ≡ overflow)) ⊎ ((w : ℕ) × (d ≡ next w))
Digit-cases no_digit = inl (inl refl)
Digit-cases overflow = inl (inr refl)
Digit-cases (next w) = inr (w, refl)

next_digit-lt : (v c w : ℕ) → next_digit v c ≡ next w → w < 2 ^ 64
unfolding next_digit
next_digit-lt v c w e = ground (arith, e)

string_loop-short :
    (fuel : ℕ) (rest out : List ℕ) (r : List ℕ × List ℕ)
    → length out ≤ 4096
    → string_loop fuel rest out ≡ done r
    → length r.0 ≤ 4096
unfolding string_loop
string_loop-short zero rest out r short e = cc
string_loop-short (suc fuel) rest out r short e = elim (Piece-cases (next_piece rest)) [
  | inl (inl (end, p)) ↦ ground (arith, e, p)
  | inl (inr (f, p)) ↦ ground (arith, e, p)
  | inr (added, end, p) ↦ elim (Bool-cases (ltb 4096 (length (out ++ added)))) [
    | inl long ↦ ground (arith, e, p, long)
    | inr fits ↦
        string_loop-short fuel end (out ++ added) r (ground (arith, fits))
          (rw (string_loop, p, fits) at e)
  ]
]

digits_loop-lt :
    (v : ℕ) (rest : List ℕ) (r : ℕ × List ℕ)
    → v < 2 ^ 64
    → digits_loop v rest ≡ done r
    → r.0 < 2 ^ 64
unfolding digits_loop
digits_loop-lt v [] r small e = ground (arith, e)
digits_loop-lt v (c ∷ rest) r small e = elim (Digit-cases (next_digit v c)) [
  | inl (inl p) ↦ ground (arith, e, p)
  | inl (inr p) ↦ ground (arith, e, p)
  | inr (w, p) ↦ digits_loop-lt w rest r (next_digit-lt v c w p) (rw (digits_loop, p) at e)
]

pub parse_string-short :
    (rest : List ℕ) (r : List ℕ × List ℕ) → parse_string rest ≡ done r → length r.0 ≤ 4096
unfolding parse_string
parse_string-short [] r e = cc
parse_string-short (c ∷ rest) r e =
    ground (arith, e, string_loop-short (length rest) rest [] r (omega arith))

pub parse_number-lt : (rest : List ℕ) (r : ℕ × List ℕ) → parse_number rest ≡ done r → r.0 < 2 ^ 64
unfolding parse_number
parse_number-lt [] r e = cc
parse_number-lt (c ∷ rest) r e = elim (Answer-cases (digits_loop 0 (c ∷ rest))) [
  | inl (q, found) ↦ ground (arith, e, found, digits_loop-lt 0 (c ∷ rest) q (omega arith) found)
  | inr (f, found) ↦ ground (arith, e, found)
]
