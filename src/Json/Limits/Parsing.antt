-- ===== src/Json/Limits/Parsing.antt =====
-- The limits on values of every kind, up to `parse_json`.
use ghost_media.Base.{
  ℕ, zero, suc, ◌≡◌, sym, subst, inl, inr, Bool, true, false, not, List, leb, arith, Option-cases,
  if◌then◌else◌,
}
use ghost_media.Abi.{Bytes, contents, size, has_readable_data}
use ghost_media.Json.Utf8.{is_valid_utf8}
use ghost_media.Text.{codes}
use ghost_media.Wire.{byte_at}
use ghost_media.Json.{
  Answer, done, failed, Answer-cases, JsonValue, string, number, boolean, ◌>>=◌, ◌>>◌, demand,
  Refusal, no_data, malformed, too_large,
}
use ghost_media.Json.Lexer.{
  parse_string, parse_number, skip_ws, starts_with, match_literal, is_digit,
}
use ghost_media.Json.Parser.{
  State, parse_value, parse_word, parse, parse_json, is_empty, is_object, has_bom, string_value,
  number_value,
}
use ghost_media.Json.Limits.{WithinLimits, string_within, number_within, boolean_within}
use ghost_media.Json.Limits.Lexemes.{parse_string-short, parse_number-lt}
use ghost_media.Json.Limits.Nesting.{parse_object-within, parse_array-within}

parse_word-boolean :
    (s : State) (r : JsonValue × State) → parse_word s ≡ done r → (b : Bool) × (r.0 ≡ boolean b)
unfolding parse_word
parse_word-boolean s r e = elim (Option-cases (match_literal (codes "true") s.rest)) [
  | inr (end, found) ↦ (true, ground (arith, e, found))
  | inl other ↦ elim (Option-cases (match_literal (codes "false") s.rest)) [
    | inr (end, found) ↦ (false, ground (arith, e, other, found))
    | inl neither_word ↦ ground (arith, e, other, neither_word)
  ]
]

text_value-within :
    (levels : ℕ) (s : State) (r : JsonValue × State)
    → (parse_string s.rest >>= λ q. done (string_value s q)) ≡ done r
    → WithinLimits (suc levels) r.0
text_value-within levels s r e = elim (Answer-cases (parse_string s.rest)) [
  | inl ((text, end), found) ↦
      let same : string text ≡ r.0 = ground (arith, e, found) in
      subst (λ v. WithinLimits (suc levels) v) same
        (string_within (parse_string-short s.rest (text, end) found))
  | inr (f, found) ↦ ground (arith, e, found)
]

number_value-within :
    (levels : ℕ) (s : State) (r : JsonValue × State)
    → (parse_number s.rest >>= λ q. done (number_value s q)) ≡ done r
    → WithinLimits (suc levels) r.0
number_value-within levels s r e = elim (Answer-cases (parse_number s.rest)) [
  | inl ((n, end), found) ↦
      let same : number n ≡ r.0 = ground (arith, e, found) in
      subst (λ v. WithinLimits (suc levels) v) same
        (number_within (parse_number-lt s.rest (n, end) found))
  | inr (f, found) ↦ ground (arith, e, found)
]

word-within :
    (levels : ℕ) (s : State) (r : JsonValue × State)
    → parse_word s ≡ done r
    → WithinLimits (suc levels) r.0
word-within levels s r e =
    let (b, same) = parse_word-boolean s r e in
    subst (λ v. WithinLimits (suc levels) v) (sym same) boolean_within

branch :
    {levels : ℕ} {r : JsonValue × State} (b : Bool) (x y : Answer (JsonValue × State))
    → (x ≡ done r → WithinLimits levels r.0)
    → (y ≡ done r → WithinLimits levels r.0)
    → (if b then x else y) ≡ done r
    → WithinLimits levels r.0
branch true x y p q = p
branch false x y p q = q

parse_value-within :
    (levels : ℕ) (s : State) (r : JsonValue × State)
    → parse_value levels s ≡ done r
    → WithinLimits levels r.0
unfolding parse_value
parse_value-within zero s r e = cc
parse_value-within (suc levels) s r e =
    let keeps : (t : State) (q : JsonValue × State)
        → parse_value levels t ≡ done q
        → WithinLimits levels q.0 =
      parse_value-within levels in
    branch (is_empty s.rest) _ _ (λ x. cc)
      (branch (starts_with b'{' s.rest) _ _
        (parse_object-within levels (parse_value levels) keeps s r)
        (branch (starts_with b'[' s.rest) _ _
          (parse_array-within levels (parse_value levels) keeps s r)
          (branch (starts_with b'"' s.rest) _ _ (text_value-within levels s r) (
            branch (is_digit (byte_at s.rest 0)) _ _ (number_value-within levels s r)
              (word-within levels s r)))))
      e

after_demand :
    {A : Type 0} (b : Bool) (r : Refusal) (k : Answer A) (x : A)
    → (demand b r >> k) ≡ done x
    → k ≡ done x
after_demand true r k x e = e
after_demand false r k x e = cc

last_value :
    (a : Answer (JsonValue × State)) (v : JsonValue)
    → (a >>= λ r. demand (is_empty (skip_ws r.1.rest)) malformed >> done r.0) ≡ done v
    → (s : State) × (a ≡ done (v, s))
last_value (done (w, s)) v e =
    let same : done w ≡ done v = after_demand (is_empty (skip_ws s.rest)) malformed (done w) v e in
    (s, cc same)
last_value (failed r) v e = cc

parse-within : (input : List ℕ) (v : JsonValue) → parse input ≡ done v → WithinLimits 16 v
unfolding parse
parse-within input v e =
    let start : State = record { rest = skip_ws input; total_members = 0 } in
    let (s, found) = last_value (parse_value 16 start) v e in
    parse_value-within 16 start (v, s) found

kept_if_object :
    (a : Answer JsonValue) (root : JsonValue)
    → (a >>= λ v. demand (is_object v) malformed >> done v) ≡ done root
    → a ≡ done root
kept_if_object (done v) root e = ground (arith, e)
kept_if_object (failed r) root e = cc

-- Every text that parses has at most 16 levels of objects and arrays (a value that is neither
-- counts as one), at most 32 members in an object and 8 elements in an array, at most 4096 bytes
-- in a string or a name, and numbers below 2 ^ 64.
pub parse_json-WithinLimits :
    (json_text : Bytes) (root : JsonValue) → parse_json json_text ≡ done root → WithinLimits 16 root
unfolding parse_json
parse_json-WithinLimits json_text root e =
    let bytes : List ℕ = contents json_text in
    let readable = after_demand (has_readable_data json_text) no_data _ root e in
    let long = after_demand (leb 2 (size json_text)) malformed _ root readable in
    let short = after_demand (leb (size json_text) 12288) too_large _ root long in
    let plain = after_demand (not (has_bom bytes)) malformed _ root short in
    let utf8 = after_demand (is_valid_utf8 bytes) malformed _ root plain in
    parse-within bytes root (kept_if_object (parse bytes) root utf8)
