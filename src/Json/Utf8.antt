-- ===== src/Json/Utf8.antt =====
-- UTF-8 in shared/core/gm_control.cpp: `is_valid_utf8`, `append_utf8`.
use ghost_media.Base.{
  ℕ, zero, suc, ◌+◌, ◌/◌, ◌%◌, Bool, true, false, not, ◌&&◌, ◌||◌, Option, none, some, List, [],
  ◌∷◌, ltb, leb, ◌==◌, if◌then◌else◌, length,
}

-- `(byte & 0xc0) == 0x80`.
abbrev pub is_continuation : ℕ → Bool
is_continuation byte = byte / 64 == 2

abbrev one_after : List ℕ → Option (List ℕ)
one_after (second ∷ rest) = if is_continuation second then some rest else none
one_after _ = none

abbrev two_after : ℕ → List ℕ → Option (List ℕ)
two_after first (second ∷ third ∷ rest) =
    if not (is_continuation second) || not (is_continuation third)
    then none
    else if first == 0xe0 && ltb second 0xa0 || first == 0xed && leb 0xa0 second
    then none
    else some rest
two_after first _ = none

abbrev three_after : ℕ → List ℕ → Option (List ℕ)
three_after first (second ∷ third ∷ fourth ∷ rest) =
    if not (is_continuation second) || not (is_continuation third) || not (is_continuation fourth)
    then none
    else if first == 0xf0 && ltb second 0x90 || first == 0xf4 && ltb 0x8f second
    then none
    else some rest
three_after first _ = none

-- The body of the loop: what follows the character that starts here, if it is valid.
unfoldable pub after_character : List ℕ → Option (List ℕ)
after_character [] = none
after_character (first ∷ rest) =
    if leb first 0x7f
    then some rest
    else if leb 0xc2 first && leb first 0xdf
    then one_after rest
    else if leb 0xe0 first && leb first 0xef
    then two_after first rest
    else if leb 0xf0 first && leb first 0xf4
    then three_after first rest
    else none

-- Each character takes a byte at least, so that the fuel of `is_valid_utf8` is enough.
unfoldable pub valid_from : (fuel : ℕ) → List ℕ → Bool
valid_from fuel [] = true
valid_from zero (first ∷ rest) = false
valid_from (suc fuel) (first ∷ rest) = elim (after_character (first ∷ rest)) [
  | none ↦ false
  | some left ↦ valid_from fuel left
]

unfoldable pub is_valid_utf8 : List ℕ → Bool
unfolding valid_from
is_valid_utf8 bytes = valid_from (length bytes) bytes

-- What `append_utf8` appends for a code point.
unfoldable pub append_utf8 : ℕ → List ℕ
append_utf8 code_point =
    if leb code_point 0x7f
    then code_point ∷ []
    else if leb code_point 0x7ff
    then (0xc0 + code_point / 64) ∷ (0x80 + code_point % 64) ∷ []
    else if leb code_point 0xffff
    then (0xe0 + code_point / 4096) ∷ (0x80 + code_point / 64 % 64) ∷ (0x80 + code_point % 64) ∷ []
    else (0xf0 + code_point / 262144)
      ∷ (0x80 + code_point / 4096 % 64)
      ∷ (0x80 + code_point / 64 % 64)
      ∷ (0x80 + code_point % 64)
      ∷ []
