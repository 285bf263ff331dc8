-- ===== src/Json/Limits.antt =====
-- The limits of `JsonParser` hold of every value that it returns.
pub mod Lexemes
pub mod Nesting
pub mod Parsing
use ghost_media.Base.{
  ℕ, zero, suc, ◌+◌, ◌-◌, ◌^◌, ◌≤◌, ◌<◌, ◌≡◌, drop, sym, subst, ◌⊎◌, inl, inr, refl, Bool, true,
  false, not, List, [], ◌∷◌, ◌++◌, length, ltb, leb, arith, Bool-cases, Option, none, some,
  Option-cases, if◌then◌else◌,
}
use ghost_media.Abi.{Bytes, contents, size, has_readable_data}
use ghost_media.Json.Utf8.{is_valid_utf8}
use ghost_media.Text.{codes}
use ghost_media.Wire.{byte_at}
use ghost_media.Json.{
  Answer, done, failed, Answer-cases, JsonValue, object, array, string, number, boolean, Members,
  no_members, member, Values, no_values, value, count_members, count_values, add_member, add_value,
  ◌>>=◌, ◌>>◌, demand, Refusal, no_data, malformed, too_large,
}
use ghost_media.Json.Lexer.{
  parse_string, string_loop, parse_number, digits_loop, next_digit, Digit, no_digit, overflow, next,
  Piece, finished, broken, more, next_piece, skip_ws, starts_with, match_literal, is_digit,
}
use ghost_media.Json.Parser.{
  State, parse_value, parse_object, parse_array, parse_word, values_loop, members_loop, parse_name,
  parse, parse_json, Separator, closes, continues, neither, separator, is_empty, is_object, has_bom,
  move, string_value, number_value,
}

-- A value within the limits, with some levels of nesting left for it: at most 32 members in an
-- object, 8 elements in an array, 4096 bytes in a string or a name, and numbers of 64 bits.
mutual
  pub data WithinLimits : ℕ → JsonValue → Type 0 where
    object_within :
        {levels : ℕ} {ms : Members}
        → MembersWithin levels ms
        → count_members ms ≤ 32
        → WithinLimits (suc levels) (object ms)
    array_within :
        {levels : ℕ} {vs : Values}
        → ValuesWithin levels vs
        → count_values vs ≤ 8
        → WithinLimits (suc levels) (array vs)
    string_within :
        {levels : ℕ} {text : List ℕ} → length text ≤ 4096 → WithinLimits (suc levels) (string text)
    number_within : {levels n : ℕ} → n < 2 ^ 64 → WithinLimits (suc levels) (number n)
    boolean_within : {levels : ℕ} {b : Bool} → WithinLimits (suc levels) (boolean b)

  pub data MembersWithin : ℕ → Members → Type 0 where
    no_members_within : {levels : ℕ} → MembersWithin levels no_members
    member_within :
        {levels : ℕ} {name : List ℕ} {v : JsonValue} {ms : Members}
        → length name ≤ 4096
        → WithinLimits levels v
        → MembersWithin levels ms
        → MembersWithin levels (member name v ms)

  pub data ValuesWithin : ℕ → Values → Type 0 where
    no_values_within : {levels : ℕ} → ValuesWithin levels no_values
    value_within :
        {levels : ℕ} {v : JsonValue} {vs : Values}
        → WithinLimits levels v
        → ValuesWithin levels vs
        → ValuesWithin levels (value v vs)

pub add_value-within :
    (levels : ℕ) (vs : Values) (v : JsonValue)
    → ValuesWithin levels vs
    → WithinLimits levels v
    → ValuesWithin levels (add_value vs v) × (count_values (add_value vs v) ≡ suc (count_values vs))
add_value-within levels no_values v all one = (value_within one no_values_within, refl)
add_value-within levels (value w vs) v (value_within first all) one =
    let (added, count) = add_value-within levels vs v all one in
    (value_within first added, omega (arith, count))

pub add_member-within :
    (levels : ℕ) (ms : Members) (name : List ℕ) (v : JsonValue)
    → MembersWithin levels ms
    → length name ≤ 4096
    → WithinLimits levels v
    → MembersWithin levels (add_member ms name v)
      × (count_members (add_member ms name v) ≡ suc (count_members ms))
add_member-within levels no_members name v all short one =
    (member_within short one no_members_within, refl)
add_member-within levels (member n w ms) name v (member_within fits first all) short one =
    let (added, count) = add_member-within levels ms name v all short one in
    (member_within fits first added, omega (arith, count))
