-- ===== src/Sf/Json.antt =====
-- JSON values as the Salesforce REST API answers them.
use service_cloud_voice_lamb.Common.{
  ℕ, String, Bool, true, false, Option, none, some, List, [], ◌∷◌, ◌==◌, if◌then◌else◌, not, eqb,
}

mutual
  -- A number that is not natural is kept as its text.
  pub data Json : Type 0 where
    null : Json
    bool : Bool → Json
    number : ℕ → Json
    decimal : String → Json
    text : String → Json
    list : Items → Json
    object : Fields → Json

  pub data Items : Type 0 where
    nil : Items
    item : Json → Items → Items

  pub data Fields : Type 0 where
    end : Fields
    field : String → Json → Fields → Fields

abbrev pub get_field : String → Fields → Option Json
get_field k end = none
get_field k (field j v o) = if j == k then some v else get_field k o

abbrev pub without : String → Fields → Fields
without k end = end
without k (field j v o) = if j == k then without k o else field j v (without k o)

-- `v.k`, for a value that is not `null`.
abbrev pub member : String → Json → Option Json
member k (object o) = get_field k o
member k v = none

-- An object literal; a property that is `undefined` is left out of its JSON text.
abbrev pub fields_of : List (String × Option Json) → Fields
fields_of [] = end
fields_of ((k, none) ∷ o) = fields_of o
fields_of ((k, some v) ∷ o) = field k v (fields_of o)

-- Whether a value counts as true.
abbrev pub is_truthy : Option Json → Bool
is_truthy none = false
is_truthy (some null) = false
is_truthy (some (bool b)) = b
is_truthy (some (number n)) = not (eqb n 0)
is_truthy (some (text s)) = not (s == "")
is_truthy (some v) = true

-- `v === false`
abbrev pub is_false : Option Json → Bool
is_false (some (bool b)) = not b
is_false v = false

-- A text that is there, as a value.
abbrev pub text_value : Option String → Option Json
text_value none = none
text_value (some s) = some (text s)
