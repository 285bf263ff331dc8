-- ===== src/Json/Fuel.antt =====
-- The loops over a text have enough fuel: more of it changes nothing.
use ghost_media.Base.{
  ℕ, zero, suc, ◌≤◌, ◌<◌, ◌≡◌, inl, inr, refl, List, [], ◌∷◌, ◌++◌, length, some, Option-cases,
  arith,
}
use ghost_media.Json.{done, Answer-cases}
use ghost_media.Json.Utf8.{after_character, valid_from}
use ghost_media.Json.Lexer.{
  parse_hex4, parse_low, from_code_unit, parse_unicode, parse_escape, next_piece, more, string_loop,
}
use ghost_media.Json.Limits.Lexemes.{Piece-cases}

hex4-length : (rest : List ℕ) (r : ℕ × List ℕ) → parse_hex4 rest ≡ done r → length r.1 < length rest
unfolding parse_hex4
hex4-length (a ∷ b ∷ c ∷ d ∷ rest) r e = ground (arith, e)
hex4-length (a ∷ b ∷ c ∷ []) r e = cc
hex4-length (a ∷ b ∷ []) r e = cc
hex4-length (a ∷ []) r e = cc
hex4-length [] r e = cc

low-length :
    (v : ℕ) (rest : List ℕ) (r : List ℕ × List ℕ)
    → parse_low v rest ≡ done r
    → length r.1 < length rest
unfolding parse_low
low-length v (a ∷ b ∷ rest) r e = elim (Answer-cases (parse_hex4 rest)) [
  | inl (q, found) ↦ ground (arith, e, found, hex4-length rest q found)
  | inr (f, found) ↦ ground (arith, e, found)
]
low-length v (a ∷ []) r e = cc
low-length v [] r e = cc

unicode-length :
    (rest : List ℕ) (r : List ℕ × List ℕ) → parse_unicode rest ≡ done r → length r.1 < length rest
unfolding parse_unicode from_code_unit
unicode-length rest r e = elim (Answer-cases (parse_hex4 rest)) [
  | inl (q, found) ↦ ground (arith, e, found, hex4-length rest q found, low-length q.0 q.1 r)
  | inr (f, found) ↦ ground (arith, e, found)
]

escape-length :
    (rest : List ℕ) (r : List ℕ × List ℕ) → parse_escape rest ≡ done r → length r.1 < length rest
unfolding parse_escape
escape-length [] r e = cc
escape-length (c ∷ rest) r e = ground (arith, e, unicode-length rest r)

next_piece-length :
    (rest added end : List ℕ) → next_piece rest ≡ more added end → length end < length rest
unfolding next_piece
next_piece-length [] added end e = cc
next_piece-length (c ∷ rest) added end e = elim (Answer-cases (parse_escape rest)) [
  | inl (q, found) ↦ ground (arith, e, found, escape-length rest q found)
  | inr (f, found) ↦ ground (arith, e, found)
]

-- The loop of `parse_string` gives the same with any fuel that is at least the length of the text
-- that is left, as it has in `parse_string`.
pub string_loop-fuel :
    (fuel more_fuel : ℕ) (rest out : List ℕ)
    → length rest ≤ fuel
    → length rest ≤ more_fuel
    → string_loop fuel rest out ≡ string_loop more_fuel rest out
unfolding string_loop
string_loop-fuel zero zero rest out h k = refl
string_loop-fuel zero (suc g) [] out h k = unfold next_piece in refl
string_loop-fuel zero (suc g) (c ∷ rest) out h k = absurd (omega (arith, h))
string_loop-fuel (suc f) zero [] out h k = unfold next_piece in refl
string_loop-fuel (suc f) zero (c ∷ rest) out h k = absurd (omega (arith, k))
string_loop-fuel (suc f) (suc g) rest out h k = elim (Piece-cases (next_piece rest)) [
  | inl (inl (end, p)) ↦ ground (arith, p)
  | inl (inr (r, p)) ↦ ground (arith, p)
  | inr (added, end, p) ↦
      let shorter = next_piece-length rest added end p in
      let same =
        string_loop-fuel f g end (out ++ added) (omega (arith, shorter)) (omega (arith, shorter)) in
      ground (arith, p, same)
]

after_character-length :
    (bytes rest : List ℕ) → after_character bytes ≡ some rest → length rest < length bytes
unfolding after_character
after_character-length [] rest e = cc
after_character-length (a ∷ []) rest e = ground (arith, e)
after_character-length (a ∷ b ∷ []) rest e = ground (arith, e)
after_character-length (a ∷ b ∷ c ∷ []) rest e = ground (arith, e)
after_character-length (a ∷ b ∷ c ∷ d ∷ bytes) rest e = ground (arith, e)

-- The loop of `is_valid_utf8` gives the same with any fuel that is at least the length of the
-- text, as it has in `is_valid_utf8`.
pub valid_from-fuel :
    (fuel more_fuel : ℕ) (bytes : List ℕ)
    → length bytes ≤ fuel
    → length bytes ≤ more_fuel
    → valid_from fuel bytes ≡ valid_from more_fuel bytes
unfolding valid_from
valid_from-fuel f g [] h k = refl
valid_from-fuel zero g (c ∷ bytes) h k = absurd (omega (arith, h))
valid_from-fuel (suc f) zero (c ∷ bytes) h k = absurd (omega (arith, k))
valid_from-fuel (suc f) (suc g) (c ∷ bytes) h k =
    elim (Option-cases (after_character (c ∷ bytes))) [
      | inl p ↦ ground (arith, p)
      | inr (rest, p) ↦
          let shorter = after_character-length (c ∷ bytes) rest p in
          let same = valid_from-fuel f g rest (omega (arith, shorter)) (omega (arith, shorter)) in
          ground (arith, p, same)
    ]
