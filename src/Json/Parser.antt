-- ===== src/Json/Parser.antt =====
-- The objects and arrays of the class `JsonParser` in shared/core/gm_control.cpp, and `parse_json`.
use ghost_media.Base.{
  ℕ, zero, suc, ◌+◌, ◌&&◌, not, Bool, true, false, none, some, List, [], ◌∷◌, ltb, leb, ◌==◌,
  if◌then◌else◌, drop,
}
use ghost_media.Abi.{Bytes, size, contents, has_readable_data}
use ghost_media.Text.{codes}
use ghost_media.Wire.{byte_at}
use ghost_media.Json.{
  Refusal, no_data, malformed, too_large, Answer, done, failed, ◌>>=◌, ◌>>◌, demand, JsonValue,
  object, array, string, number, boolean, Members, no_members, Values, no_values, add_member,
  add_value, has_member,
}
use ghost_media.Json.Utf8.{is_valid_utf8}
use ghost_media.Json.Lexer.{
  is_digit, starts_with, skip_ws, match_literal, parse_string, parse_number,
}

abbrev pub control_max_depth : ℕ
control_max_depth = 16

abbrev pub control_max_object_members : ℕ
control_max_object_members = 32

abbrev pub control_max_message_members : ℕ
control_max_message_members = 64

abbrev pub control_max_array_elements : ℕ
control_max_array_elements = 8

-- `position_` and `total_members_`.
pub record State : Type 0 where
  pub rest : List ℕ
  pub total_members : ℕ

abbrev pub move : State → List ℕ → State
move s rest = record s { rest = rest }

abbrev pub is_empty : List ℕ → Bool
is_empty [] = true
is_empty (c ∷ rest) = false

-- What stands after a member or an element.
pub data Separator : Type 0 where
  closes : List ℕ → Separator
  continues : List ℕ → Separator
  neither : Separator

abbrev pub separator : ℕ → List ℕ → Separator
separator close [] = neither
separator close (c ∷ rest) =
    if c == close then closes rest else if c == b',' then continues rest else neither

-- A loop that has no round left: the condition of the `while` stands before the limit.
abbrev pub stop : State → Refusal
stop s = if is_empty s.rest then malformed else too_large

module _ (parse_nested : State → Answer (JsonValue × State)) where
  -- The loop of `parse_array`; `left` is the limit less the number of elements so far.
  unfoldable pub values_loop : (left : ℕ) → State → Values → Answer (Values × State)
  unfolding skip_ws
  values_loop zero s out = failed (stop s)
  values_loop (suc left) s out = do
    demand (not (is_empty s.rest)) malformed
    (v, t) ← parse_nested s
    elim (separator b']' (skip_ws t.rest)) [
      | closes end ↦ done (add_value out v, move t end)
      | continues end ↦ values_loop left (move t (skip_ws end)) (add_value out v)
      | neither ↦ failed malformed
    ]

  -- The name of a member up to the start of its value.
  unfoldable pub parse_name : State → Members → Answer (List ℕ × State)
  unfolding parse_string has_member skip_ws
  parse_name s out = do
    (name, end) ← parse_string s.rest
    demand (not (has_member name out)) malformed
    demand (starts_with b':' (skip_ws end)) malformed
    done (
      name,
      record { rest = skip_ws (drop 1 (skip_ws end)); total_members = s.total_members + 1 },
    )

  -- The loop of `parse_object`.
  unfoldable pub members_loop : (left : ℕ) → State → Members → Answer (Members × State)
  unfolding skip_ws
  members_loop zero s out = failed (stop s)
  members_loop (suc left) s out = do
    demand (not (is_empty s.rest)) malformed
    demand (ltb s.total_members control_max_message_members) too_large
    (name, t) ← parse_name s out
    (v, u) ← parse_nested t
    elim (separator b'}' (skip_ws u.rest)) [
      | closes end ↦ done (add_member out name v, move u end)
      | continues end ↦ members_loop left (move u (skip_ws end)) (add_member out name v)
      | neither ↦ failed malformed
    ]

  unfoldable pub parse_object : State → Answer (JsonValue × State)
  unfolding skip_ws members_loop
  parse_object s =
      let start = skip_ws (drop 1 s.rest) in
      if starts_with b'}' start then done (object no_members, move s (drop 1 start)) else (do
        (ms, t) ← members_loop control_max_object_members (move s start) no_members
        done (object ms, t))

  unfoldable pub parse_array : State → Answer (JsonValue × State)
  unfolding skip_ws values_loop
  parse_array s =
      let start = skip_ws (drop 1 s.rest) in
      if starts_with b']' start then done (array no_values, move s (drop 1 start)) else (do
        (vs, t) ← values_loop control_max_array_elements (move s start) no_values
        done (array vs, t))

unfoldable pub parse_word : State → Answer (JsonValue × State)
unfolding match_literal
parse_word s = elim (match_literal (codes "true") s.rest) [
  | some end ↦ done (boolean true, move s end)
  | none ↦ elim (match_literal (codes "false") s.rest) [
    | some end ↦ done (boolean false, move s end)
    | none ↦ failed malformed
  ]
]

abbrev pub string_value : State → List ℕ × List ℕ → JsonValue × State
string_value s (text, end) = (string text, move s end)

abbrev pub number_value : State → ℕ × List ℕ → JsonValue × State
number_value s (n, end) = (number n, move s end)

-- `parse_value`; `levels` is 17 less the depth, so that none is left beyond the depth of 16.
unfoldable pub parse_value : (levels : ℕ) → State → Answer (JsonValue × State)
unfolding parse_object parse_array parse_string parse_number parse_word
parse_value zero s = failed too_large
parse_value (suc levels) s =
    let nested = parse_value levels in
    if is_empty s.rest
    then failed malformed
    else if starts_with b'{' s.rest
    then parse_object nested s
    else if starts_with b'[' s.rest
    then parse_array nested s
    else if starts_with b'"' s.rest
    then (do r ← parse_string s.rest; done (string_value s r))
    else if is_digit (byte_at s.rest 0)
    then (do r ← parse_number s.rest; done (number_value s r))
    else parse_word s

-- `JsonParser::parse`.
unfoldable pub parse : List ℕ → Answer JsonValue
unfolding skip_ws parse_value
parse input = do
  (v, s) ← parse_value control_max_depth (record { rest = skip_ws input; total_members = 0 })
  demand (is_empty (skip_ws s.rest)) malformed
  done v

abbrev pub control_hello_max_bytes : ℕ
control_hello_max_bytes = 12288

abbrev pub has_bom : List ℕ → Bool
has_bom (a ∷ b ∷ c ∷ rest) = a == 0xef && b == 0xbb && c == 0xbf
has_bom _ = false

abbrev pub is_object : JsonValue → Bool
is_object (object ms) = true
is_object _ = false

unfoldable pub parse_json : Bytes → Answer JsonValue
unfolding is_valid_utf8 parse
parse_json json_text = do
  demand (has_readable_data json_text) no_data
  demand (leb 2 (size json_text)) malformed
  demand (leb (size json_text) control_hello_max_bytes) too_large
  demand (not (has_bom (contents json_text))) malformed
  demand (is_valid_utf8 (contents json_text)) malformed
  root ← parse (contents json_text)
  demand (is_object root) malformed
  done root
