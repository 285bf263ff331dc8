-- ===== src/Text.antt =====
-- C strings in fixed arrays, as shared/core/gm_state.cpp handles them. An array is the list of its
-- bytes. `char` may be signed: no test below tells a negative value from one above 127.
use Prim.Native.Char.{code}
use Prim.Native.String.{String}
use ghost_media.Base.{
  ℕ, zero, suc, ◌+◌, ◌-◌, Bool, true, false, ◌&&◌, ◌||◌, Option, none, some, List, [], ◌∷◌, ◌++◌,
  leb, ◌==◌, if◌then◌else◌, min, take, replicate,
}
use ghost_media.Wire.{byte_at}

-- The bytes of an ASCII literal.
abbrev pub codes : String → List ℕ
codes String.[] = []
codes (String.◌∷◌ c s) = code c ∷ codes s

-- The loop of `bounded_c_string` from `index` on: where the first NUL stands.
unfoldable pub find_nul : (left index : ℕ) → List ℕ → Option ℕ
find_nul zero index value = none
find_nul (suc left) index value =
    if byte_at value index == 0 then some index else find_nul left (index + 1) value

unfoldable pub bounded_c_string : List ℕ → ℕ → Option ℕ
unfolding find_nul
bounded_c_string value capacity = find_nul capacity 0 value

-- The array that a copy of `size` characters of `source` leaves.
abbrev pub padded : ℕ → ℕ → List ℕ → List ℕ
padded destination_size size source = take size source ++ replicate (destination_size - size) 0

abbrev pub copied_length : Option ℕ → ℕ → ℕ
copied_length none destination_size = destination_size - 1
copied_length (some found) destination_size = found

unfoldable pub copy_c_string : ℕ → List ℕ → List ℕ
unfolding bounded_c_string
copy_c_string destination_size source =
    if destination_size == 0
    then []
    else (let source_length =
          copied_length (bounded_c_string source destination_size) destination_size in
        padded destination_size (min source_length (destination_size - 1)) source)

-- `strlen`; the end of a literal stands for its NUL.
unfoldable pub string_length : List ℕ → ℕ
string_length [] = 0
string_length (c ∷ cs) = if c == 0 then 0 else suc (string_length cs)

unfoldable pub copy_literal : ℕ → List ℕ → List ℕ
unfolding string_length
copy_literal destination_size source =
    if destination_size == 0
    then []
    else padded destination_size (min (string_length source) (destination_size - 1)) source

-- `strcmp` and `strncmp` with 0. The end of an array stands for a NUL.
unfoldable pub same_c_string : List ℕ → List ℕ → Bool
same_c_string [] [] = true
same_c_string [] (y ∷ ys) = y == 0
same_c_string (x ∷ xs) [] = x == 0
same_c_string (x ∷ xs) (y ∷ ys) = x == y && (x == 0 || same_c_string xs ys)

unfoldable pub same_prefix : ℕ → List ℕ → List ℕ → Bool
same_prefix zero xs ys = true
same_prefix (suc n) [] [] = true
same_prefix (suc n) [] (y ∷ ys) = y == 0
same_prefix (suc n) (x ∷ xs) [] = x == 0
same_prefix (suc n) (x ∷ xs) (y ∷ ys) = x == y && (x == 0 || same_prefix n xs ys)

abbrev pub is_lower_hex : ℕ → Bool
is_lower_hex c = leb b'0' c && leb c b'9' || leb b'a' c && leb c b'f'

abbrev pub uuid_bytes : ℕ
uuid_bytes = 36

abbrev pub session_id_hex_bytes : ℕ
session_id_hex_bytes = 32

-- The loop of `is_lower_uuid_text` over the characters from `index` on.
unfoldable pub uuid_from : (left index : ℕ) → List ℕ → Bool
uuid_from zero index value = true
uuid_from (suc left) index value =
    (if index == 8 || index == 13 || index == 18 || index == 23
      then byte_at value index == b'-'
      else is_lower_hex (byte_at value index))
    && uuid_from left (index + 1) value

unfoldable pub hex_from : (left index : ℕ) → List ℕ → Bool
hex_from zero index value = true
hex_from (suc left) index value =
    is_lower_hex (byte_at value index) && hex_from left (index + 1) value

abbrev has_length : Option ℕ → ℕ → Bool
has_length none n = false
has_length (some found) n = found == n

unfoldable pub is_lower_uuid_text : List ℕ → Bool
unfolding bounded_c_string uuid_from
is_lower_uuid_text value =
    has_length (bounded_c_string value (uuid_bytes + 1)) uuid_bytes && uuid_from uuid_bytes 0 value

unfoldable pub is_lower_session_id_text : List ℕ → Bool
unfolding bounded_c_string hex_from
is_lower_session_id_text value =
    has_length (bounded_c_string value (session_id_hex_bytes + 1)) session_id_hex_bytes
    && hex_from session_id_hex_bytes 0 value
