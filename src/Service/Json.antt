-- ===== src/Service/Json.antt =====
-- JSON values, the `serde_json::Value` that
-- cert/beamscale-critical-section/infra-runtime-host/src/main.rs builds with `json!` and reads with
-- `get`, `as_str`, `as_bool` and `as_u64`.
use rust_app.Prelude.{ℕ, Bool, true, false, Option, none, some, List, [], ◌∷◌}
use rust_app.Prelude.Text.{Text, text_eq}

-- A number that is not an unsigned 64-bit integer is `other_number`. The members of an object that
-- `json!` builds stand in the order of the source.
mutual
  pub data Value : Type 0 where
    null : Value
    bool : Bool → Value
    unsigned : ℕ → Value
    other_number : Text → Value
    string : Text → Value
    array : Values → Value
    object : Members → Value

  pub data Values : Type 0 where
    nil : Values
    cons : Value → Values → Values

  pub data Members : Type 0 where
    end : Members
    member : Text → Value → Members → Members

unfoldable pub find_member : Text → Members → Option Value
find_member key end = none
find_member key (member name value rest) = elim (text_eq key name) [
  | true ↦ some value
  | false ↦ find_member key rest
]

-- `Value::get`.
unfoldable pub get : Text → Value → Option Value
unfolding find_member
get key (object members) = find_member key members
get key _ = none

abbrev pub as_str : Option Value → Option Text
as_str (some (string text)) = some text
as_str _ = none

abbrev pub as_bool : Option Value → Option Bool
as_bool (some (bool b)) = some b
as_bool _ = none

abbrev pub as_u64 : Option Value → Option ℕ
as_u64 (some (unsigned n)) = some n
as_u64 _ = none

abbrev pub is_object : Value → Bool
is_object (object members) = true
is_object _ = false

-- An object of the given members, and an array of the given values.
abbrev pub members_of : List (Text × Value) → Members
members_of [] = end
members_of ((key, value) ∷ rest) = member key value (members_of rest)

abbrev pub json : List (Text × Value) → Value
json members = object (members_of members)

abbrev pub values_of : List Value → Values
values_of [] = nil
values_of (value ∷ rest) = cons value (values_of rest)

-- An `Option` in a `json!`.
abbrev pub or_null : {A : Type 0} → (A → Value) → Option A → Value
or_null f none = null
or_null f (some x) = f x
