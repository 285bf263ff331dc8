-- ===== src/Message/Access.antt =====
-- How shared/core/gm_control.cpp reads the members of an object: `find_member`,
-- `object_has_exact_keys` and the `get_required_*` functions. A getter that returns false makes
-- every caller return GM_BAD_MESSAGE; here it is refused as malformed itself.
use ghost_media.Base.{
  ℕ, ◌≤◌, ◌≡◌, Bool, true, false, ◌&&◌, ◌||◌, Option, none, some, List, [], ◌∷◌, leb, ◌==◌,
  if◌then◌else◌, length, arith,
}
use ghost_media.Json.{
  malformed, Answer, done, failed, JsonValue, object, array, string, number, boolean, Members,
  no_members, member, Values, count_members, same_string,
}

unfoldable pub find_in : List ℕ → Members → Option JsonValue
unfolding same_string
find_in name no_members = none
find_in name (member n v ms) = if same_string n name then some v else find_in name ms

unfoldable pub find_member : JsonValue → List ℕ → Option JsonValue
unfolding find_in
find_member (object ms) name = find_in name ms
find_member _ name = none

unfoldable pub is_key : List ℕ → List (List ℕ) → Bool
unfolding same_string
is_key name [] = false
is_key name (key ∷ keys) = same_string name key || is_key name keys

unfoldable pub all_keys : Members → List (List ℕ) → Bool
unfolding is_key
all_keys no_members keys = true
all_keys (member name v ms) keys = is_key name keys && all_keys ms keys

unfoldable pub object_has_exact_keys : JsonValue → List (List ℕ) → Bool
unfolding all_keys
object_has_exact_keys (object ms) keys =
    if count_members ms == length keys then all_keys ms keys else false
object_has_exact_keys _ keys = false

abbrev as_string : Option JsonValue → Answer (List ℕ)
as_string (some (string s)) = done s
as_string _ = failed malformed

abbrev as_object : Option JsonValue → Answer JsonValue
as_object (some (object ms)) = done (object ms)
as_object _ = failed malformed

abbrev as_array : Option JsonValue → Answer Values
as_array (some (array vs)) = done vs
as_array _ = failed malformed

abbrev as_bool : Option JsonValue → Answer Bool
as_bool (some (boolean b)) = done b
as_bool _ = failed malformed

abbrev as_u32 : (least most : ℕ) → Option JsonValue → Answer ℕ
as_u32 least most (some (number n)) = if leb least n && leb n most then done n else failed malformed
as_u32 least most _ = failed malformed

unfoldable pub get_required_string : JsonValue → List ℕ → Answer (List ℕ)
unfolding find_member
get_required_string o name = as_string (find_member o name)

unfoldable pub get_required_object : JsonValue → List ℕ → Answer JsonValue
unfolding find_member
get_required_object o name = as_object (find_member o name)

unfoldable pub get_required_array : JsonValue → List ℕ → Answer Values
unfolding find_member
get_required_array o name = as_array (find_member o name)

unfoldable pub get_required_bool : JsonValue → List ℕ → Answer Bool
unfolding find_member
get_required_bool o name = as_bool (find_member o name)

unfoldable pub get_required_u32 : JsonValue → List ℕ → (least most : ℕ) → Answer ℕ
unfolding find_member
get_required_u32 o name least most = as_u32 least most (find_member o name)

abbrev optional_string : Option JsonValue → Answer (Option (List ℕ))
optional_string none = done none
optional_string (some (string s)) = done (some s)
optional_string _ = failed malformed

unfoldable pub get_optional_string : JsonValue → List ℕ → Answer (Option (List ℕ))
unfolding find_member
get_optional_string o name = optional_string (find_member o name)

as_u32-range :
    (least most : ℕ) (v : Option JsonValue) (n : ℕ)
    → as_u32 least most v ≡ done n
    → (least ≤ n) × (n ≤ most)
as_u32-range least most (some (number k)) n e = ground (arith, e)
as_u32-range least most _ n e = cc

pub get_required_u32-range :
    (o : JsonValue) (name : List ℕ) (least most n : ℕ)
    → get_required_u32 o name least most ≡ done n
    → (least ≤ n) × (n ≤ most)
unfolding get_required_u32
get_required_u32-range o name least most n e = as_u32-range least most (find_member o name) n e
