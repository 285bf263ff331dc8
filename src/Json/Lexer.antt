-- ===== src/Json/Lexer.antt =====
-- The strings, numbers and literals of the class `JsonParser` in shared/core/gm_control.cpp. The
-- position in the input is the list of the bytes that are left.
use ghost_media.Base.{
  ℕ, zero, suc, ◌+◌, ◌-◌, ◌*◌, ◌/◌, ◌^◌, Bool, true, false, not, ◌&&◌, ◌||◌, Option, none, some,
  List, [], ◌∷◌, ◌++◌, ltb, leb, ◌==◌, if◌then◌else◌, length,
}
use ghost_media.Json.{Refusal, malformed, too_large, Answer, done, failed, ◌>>=◌, ◌>>◌, demand}
use ghost_media.Json.Utf8.{append_utf8}

abbrev pub is_json_whitespace : ℕ → Bool
is_json_whitespace c = c == 0x20 || c == 0x09 || c == 0x0a || c == 0x0d

abbrev pub is_digit : ℕ → Bool
is_digit c = leb b'0' c && leb c b'9'

abbrev pub is_hex_digit : ℕ → Bool
is_hex_digit c = is_digit c || leb b'a' c && leb c b'f' || leb b'A' c && leb c b'F'

abbrev pub hex_value : ℕ → ℕ
hex_value c =
    if is_digit c
    then c - b'0'
    else if leb b'a' c && leb c b'f'
    then 10 + c - b'a'
    else 10 + c - b'A'

abbrev pub starts_with : ℕ → List ℕ → Bool
starts_with c [] = false
starts_with c (x ∷ rest) = x == c

unfoldable pub skip_ws : List ℕ → List ℕ
skip_ws [] = []
skip_ws (c ∷ rest) = elim (is_json_whitespace c) [ true ↦ skip_ws rest | false ↦ c ∷ rest ]

unfoldable pub match_literal : List ℕ → List ℕ → Option (List ℕ)
match_literal [] rest = some rest
match_literal (c ∷ literal) [] = none
match_literal (c ∷ literal) (x ∷ rest) = if x == c then match_literal literal rest else none

unfoldable pub parse_hex4 : List ℕ → Answer (ℕ × List ℕ)
parse_hex4 (a ∷ b ∷ c ∷ d ∷ rest) = do
  demand (is_hex_digit a && is_hex_digit b && is_hex_digit c && is_hex_digit d) malformed
  done (((hex_value a * 16 + hex_value b) * 16 + hex_value c) * 16 + hex_value d, rest)
parse_hex4 _ = failed malformed

-- The second half of a pair, after the first one.
unfoldable pub parse_low : ℕ → List ℕ → Answer (List ℕ × List ℕ)
unfolding parse_hex4 append_utf8
parse_low code_unit (a ∷ b ∷ rest) = do
  demand (a == b'\\' && b == b'u') malformed
  (low, end) ← parse_hex4 rest
  demand (leb 0xdc00 low && leb low 0xdfff) malformed
  done (append_utf8 (0x10000 + (code_unit - 0xd800) * 1024 + (low - 0xdc00)), end)
parse_low code_unit _ = failed malformed

unfoldable pub from_code_unit : ℕ → List ℕ → Answer (List ℕ × List ℕ)
unfolding parse_low append_utf8
from_code_unit code_unit end =
    if leb 0xd800 code_unit && leb code_unit 0xdbff
    then parse_low code_unit end
    else if leb 0xdc00 code_unit && leb code_unit 0xdfff
    then failed malformed
    else done (append_utf8 code_unit, end)

unfoldable pub parse_unicode : List ℕ → Answer (List ℕ × List ℕ)
unfolding parse_hex4 from_code_unit
parse_unicode rest = do (code_unit, end) ← parse_hex4 rest; from_code_unit code_unit end

abbrev escaped : ℕ → Option ℕ
escaped c =
    if c == b'"' || c == b'\\' || c == b'/'
    then some c
    else if c == b'b'
    then some 8
    else if c == b'f'
    then some 12
    else if c == b'n'
    then some 10
    else if c == b'r'
    then some 13
    else if c == b't'
    then some 9
    else none

-- What an escape appends, and what follows it.
unfoldable pub parse_escape : List ℕ → Answer (List ℕ × List ℕ)
unfolding parse_unicode
parse_escape [] = failed malformed
parse_escape (c ∷ rest) =
    if c == b'u'
    then parse_unicode rest
    else elim (escaped c) [ none ↦ failed malformed | some e ↦ done (e ∷ [], rest) ]

pub data Piece : Type 0 where
  finished : List ℕ → Piece
  broken : Refusal → Piece
  more : (added rest : List ℕ) → Piece

abbrev of_escape : Answer (List ℕ × List ℕ) → Piece
of_escape (done (added, rest)) = more added rest
of_escape (failed r) = broken r

-- One round of the loop in `parse_string`.
unfoldable pub next_piece : List ℕ → Piece
unfolding parse_escape
next_piece [] = broken malformed
next_piece (c ∷ rest) =
    if c == b'"'
    then finished rest
    else if ltb c 0x20
    then broken malformed
    else if c == b'\\'
    then of_escape (parse_escape rest)
    else more (c ∷ []) rest

abbrev pub control_max_string_bytes : ℕ
control_max_string_bytes = 4096

-- Each round takes a byte at least; the fuel is the length of the rest.
unfoldable pub string_loop : (fuel : ℕ) → List ℕ → (out : List ℕ) → Answer (List ℕ × List ℕ)
string_loop zero rest out = failed malformed
string_loop (suc fuel) rest out = elim (next_piece rest) [
  | finished end ↦ done (out, end)
  | broken r ↦ failed r
  | more added end ↦ elim (ltb control_max_string_bytes (length (out ++ added))) [
    | true ↦ failed too_large
    | false ↦ string_loop fuel end (out ++ added)
  ]
]

unfoldable pub parse_string : List ℕ → Answer (List ℕ × List ℕ)
unfolding string_loop
parse_string [] = failed malformed
parse_string (c ∷ rest) = if c == b'"' then string_loop (length rest) rest [] else failed malformed

pub data Digit : Type 0 where
  no_digit overflow : Digit
  next : ℕ → Digit

abbrev pub max_u64 : ℕ
max_u64 = 2 ^ 64 - 1

-- One round of the loop in `parse_number`.
unfoldable pub next_digit : ℕ → ℕ → Digit
next_digit v c =
    if not (is_digit c)
    then no_digit
    else if ltb ((max_u64 - (c - b'0')) / 10) v
    then overflow
    else next (v * 10 + (c - b'0'))

unfoldable pub digits_loop : ℕ → List ℕ → Answer (ℕ × List ℕ)
digits_loop v [] = done (v, [])
digits_loop v (c ∷ rest) = elim (next_digit v c) [
  | no_digit ↦ done (v, c ∷ rest)
  | overflow ↦ failed malformed
  | next w ↦ digits_loop w rest
]

abbrev starts_digit : List ℕ → Bool
starts_digit [] = false
starts_digit (c ∷ rest) = is_digit c

abbrev pub whole_number : ℕ × List ℕ → Answer (ℕ × List ℕ)
whole_number (v, rest) = do
  demand (not (starts_with b'.' rest || starts_with b'e' rest || starts_with b'E' rest)) malformed
  done (v, rest)

unfoldable pub parse_number : List ℕ → Answer (ℕ × List ℕ)
unfolding digits_loop
parse_number [] = failed malformed
parse_number (c ∷ rest) =
    if not (is_digit c)
    then failed malformed
    else if c == b'0'
    then (do demand (not (starts_digit rest)) malformed; whole_number (0, rest))
    else (do r ← digits_loop 0 (c ∷ rest); whole_number r)
