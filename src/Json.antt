-- ===== src/Json.antt =====
-- The JSON values of shared/core/gm_control.cpp, and the outcome of its parsing functions.
pub mod Utf8
pub mod Lexer
pub mod Parser
pub mod Limits
pub mod Fuel
use ghost_media.Base.{
  ℕ, ◌≡◌, ◌⊎◌, inl, inr, refl, zero, suc, Bool, true, false, ◌&&◌, ◌||◌, ◌==◌, List, [], ◌∷◌,
}
use ghost_media.Abi.{Status, bad_argument, bad_message, limit_exceeded, unsupported_version}

-- Why a text is refused: the statuses that the parser and the message validation return.
pub data Refusal : Type 0 where
  no_data malformed too_large other_version : Refusal

abbrev pub status_of : Refusal → Status
status_of no_data = bad_argument
status_of malformed = bad_message
status_of too_large = limit_exceeded
status_of other_version = unsupported_version

pub data Answer {ℓ} (A : Type ℓ) : Type ℓ where
  done : A → Answer A
  failed : Refusal → Answer A

infixl 5 ◌>>=◌ ◌>>◌
abbrev pub ◌>>=◌ {ℓ κ} : {A : Type ℓ} {B : Type κ} → Answer A → (A → Answer B) → Answer B
done a >>= f = f a
failed r >>= f = failed r

abbrev pub ◌>>◌ {ℓ} : {B : Type ℓ} → Answer (Unit {0}) → Answer B → Answer B
m >> k = m >>= λ _. k

pub Answer-cases {ℓ} :
    {A : Type ℓ} (m : Answer A) → ((a : A) × (m ≡ done a)) ⊎ ((r : Refusal) × (m ≡ failed r))
Answer-cases (done a) = inl (a, refl)
Answer-cases (failed r) = inr (r, refl)

-- `if (!condition) return refusal;`
abbrev pub demand : Bool → Refusal → Answer (Unit {0})
demand true r = done tt
demand false r = failed r

-- A value with its kind. The members of an object and the values of an array keep their order.
mutual
  pub data JsonValue : Type 0 where
    object : Members → JsonValue
    array : Values → JsonValue
    string : List ℕ → JsonValue
    number : ℕ → JsonValue
    boolean : Bool → JsonValue

  pub data Members : Type 0 where
    no_members : Members
    member : List ℕ → JsonValue → Members → Members

  pub data Values : Type 0 where
    no_values : Values
    value : JsonValue → Values → Values

abbrev pub count_members : Members → ℕ
count_members no_members = 0
count_members (member name v ms) = suc (count_members ms)

abbrev pub count_values : Values → ℕ
count_values no_values = 0
count_values (value v vs) = suc (count_values vs)

-- `emplace_back`.
abbrev pub add_member : Members → List ℕ → JsonValue → Members
add_member no_members name v = member name v no_members
add_member (member n w ms) name v = member n w (add_member ms name v)

abbrev pub add_value : Values → JsonValue → Values
add_value no_values v = value v no_values
add_value (value w vs) v = value w (add_value vs v)

-- `==` on strings.
unfoldable pub same_string : List ℕ → List ℕ → Bool
same_string [] [] = true
same_string [] (y ∷ ys) = false
same_string (x ∷ xs) [] = false
same_string (x ∷ xs) (y ∷ ys) = x == y && same_string xs ys

unfoldable pub has_member : List ℕ → Members → Bool
has_member name no_members = false
has_member name (member n v ms) = same_string n name || has_member name ms
