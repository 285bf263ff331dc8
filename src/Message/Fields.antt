-- ===== src/Message/Fields.antt =====
-- The tests of shared/core/gm_control.cpp on the strings of a message.
use ghost_media.Base.{
  ℕ, ◌-◌, Bool, true, false, not, ◌&&◌, ◌||◌, Option, none, some, List, [], ◌∷◌, ltb, leb, ◌==◌,
  if◌then◌else◌, min, length,
}
use ghost_media.Text.{codes, padded, is_lower_hex, uuid_from, uuid_bytes, session_id_hex_bytes}
use ghost_media.Json.{same_string}
use ghost_media.Json.Lexer.{is_digit, no_digit, overflow, next, next_digit}

abbrev pub all_in : (ℕ → Bool) → List ℕ → Bool
all_in test [] = true
all_in test (c ∷ cs) = test c && all_in test cs

unfoldable pub is_ascii : List ℕ → Bool
is_ascii text = all_in (λ c. leb c 0x7f) text

unfoldable pub is_type_string : List ℕ → Bool
is_type_string text =
    ltb 0 (length text)
    && leb (length text) 64
    && all_in (λ c. leb b'a' c && leb c b'z' || is_digit c || c == b'.') text

unfoldable pub is_lower_hex_session_id : List ℕ → Bool
is_lower_hex_session_id text =
    length text == session_id_hex_bytes && all_in (λ c. is_lower_hex c) text

unfoldable pub is_lower_uuid : List ℕ → Bool
unfolding uuid_from
is_lower_uuid text = length text == uuid_bytes && uuid_from uuid_bytes 0 text

unfoldable pub is_reason_string : List ℕ → Bool
unfolding is_ascii
is_reason_string text =
    ltb 0 (length text)
    && leb (length text) 64
    && is_ascii text
    && all_in (λ c. leb 0x20 c && not (c == 0x7f)) text

-- The loop of `parse_decimal_u64_string`.
unfoldable pub decimal_loop : ℕ → List ℕ → Option ℕ
unfolding next_digit
decimal_loop v [] = some v
decimal_loop v (c ∷ rest) = elim (next_digit v c) [
  | no_digit ↦ none
  | overflow ↦ none
  | next w ↦ decimal_loop w rest
]

abbrev leading_zero : List ℕ → Bool
leading_zero (c ∷ d ∷ rest) = c == b'0'
leading_zero _ = false

unfoldable pub parse_decimal_u64_string : List ℕ → Option ℕ
unfolding decimal_loop
parse_decimal_u64_string text =
    if length text == 0 || ltb 20 (length text)
    then none
    else if leading_zero text
    then none
    else decimal_loop 0 text

unfoldable pub is_decimal : List ℕ → Bool
unfolding parse_decimal_u64_string
is_decimal text = elim (parse_decimal_u64_string text) [ none ↦ false | some n ↦ true ]

unfoldable pub copy_string_field : (destination_size : ℕ) → List ℕ → List ℕ
copy_string_field destination_size text =
    padded destination_size (min (length text) (destination_size - 1)) text

unfoldable pub is_one_of : List ℕ → List (List ℕ) → Bool
is_one_of text [] = false
is_one_of text (t ∷ ts) = same_string text t || is_one_of text ts

unfoldable pub is_known_error_code : List ℕ → Bool
unfolding same_string
is_known_error_code code = is_one_of code (
    codes "BAD_REQUEST"
    ∷ codes "UNSUPPORTED_VERSION"
    ∷ codes "UNAUTHORIZED"
    ∷ codes "FORBIDDEN"
    ∷ codes "NOT_FOUND"
    ∷ codes "STATE_CONFLICT"
    ∷ codes "RESOURCE_BUSY"
    ∷ codes "DEVICE_UNAVAILABLE"
    ∷ codes "PATH_UNVALIDATED"
    ∷ codes "UNSUPPORTED_PROFILE"
    ∷ codes "LIMIT_EXCEEDED"
    ∷ codes "TIMEOUT"
    ∷ codes "INTERNAL"
    ∷ [])

unfoldable pub is_endpoint_state : List ℕ → Bool
unfolding same_string
is_endpoint_state text =
    is_one_of text (codes "available" ∷ codes "unavailable" ∷ codes "faulted" ∷ [])

-- `token->empty() || token->size() > GM_CONTROL_TOKEN_MAX_BYTES || !is_ascii(*token)`, negated.
unfoldable pub is_token : List ℕ → Bool
unfolding is_ascii
is_token text = ltb 0 (length text) && leb (length text) 64 && is_ascii text
