-- ===== src/Examples/Json.antt =====
-- A text that the JSON parser reads.
use ghost_media.Base.{◌≡◌, refl, arith, [], ◌∷◌}
use ghost_media.Abi.{Bytes, memory}
use ghost_media.Text.{codes}
use ghost_media.Json.{
  JsonValue, done, object, string, number, array, member, no_members, value, no_values, same_string,
}
use ghost_media.Json.Fuel.{string_loop-fuel, valid_from-fuel}
use ghost_media.Json.Limits.{WithinLimits}
use ghost_media.Json.Limits.Parsing.{parse_json-WithinLimits}
use ghost_media.Json.Parser.{parse_json, parse_name}
use ghost_media.Json.Utf8.{after_character, valid_from}
use ghost_media.Json.Lexer.{next_piece, next_digit, string_loop}

abbrev ping_value : JsonValue
ping_value = object (
    member (codes "v") (number 1) (
      member (codes "token") (string (97 ∷ 195 ∷ 169 ∷ []))
        (member (codes "x") (array (value (number 7) (value (number 0) no_values))) no_members)))

abbrev ping_text : Bytes
ping_text = memory (codes "{\"v\": 1, \"token\":\"a\\u00e9\", \"x\":[7,0]}")

parsed_ping : parse_json ping_text ≡ done ping_value
unfolding parse_json after_character parse_name next_piece next_digit same_string
parsed_ping = refl

parse_json-WithinLimits_example : WithinLimits 16 ping_value
parse_json-WithinLimits_example = parse_json-WithinLimits ping_text ping_value parsed_ping

string_loop-fuel_example : string_loop 2 (97 ∷ 34 ∷ []) [] ≡ string_loop 9 (97 ∷ 34 ∷ []) []
string_loop-fuel_example = string_loop-fuel 2 9 (97 ∷ 34 ∷ []) [] (omega arith) (omega arith)

valid_from-fuel_example : valid_from 2 (195 ∷ 169 ∷ []) ≡ valid_from 7 (195 ∷ 169 ∷ [])
valid_from-fuel_example = valid_from-fuel 2 7 (195 ∷ 169 ∷ []) (omega arith) (omega arith)
