-- ===== src/Signals/Key.antt =====
-- The key of the analysis file: `decodeURIComponent` as postCallAnalysisTrigger/handler.js uses it,
-- and `validateS3KeyName` of postCallAnalysisTrigger/utils.js; multiorgPostCallAnalysisTrigger has a
-- copy of both. A text is a sequence of characters, so that a character outside of the first plane
-- is one character and not two units.
pub mod Shape
use service_cloud_voice_lamb.Common.{
  ℕ, zero, suc, ◌+◌, ◌-◌, ◌*◌, ◌≡◌, refl, String, Bool, true, false, not, ◌&&◌, ◌||◌, Option, none,
  some, List, [], ◌∷◌, ◌++◌, map, if◌then◌else◌, ltb, leb, eqb, replicate,
}
use Prim.Native.Nat.{compare, Ordering}
use Prim.Native.Char.{Char, code, char}
use Prim.Native.String
use service_cloud_voice_lamb.Common.Text.{contains, ends_with, text_length}

-- `s.replace(/\+/g, " ")`
abbrev pub plus_to_space : String → String
plus_to_space String.[] = ""
plus_to_space (String.◌∷◌ c s) =
    let rest = plus_to_space s in
    if eqb (code c) b'+' then String.◌∷◌ (char b' ' tt) rest else String.◌∷◌ c rest

abbrev between : ℕ → ℕ → ℕ → Bool
between low high n = leb low n && leb n high

abbrev hex_digit : ℕ → Option ℕ
hex_digit n =
    if between b'0' b'9' n
    then some (n - b'0')
    else if between b'A' b'F' n
    then some (n - b'A' + 10)
    else if between b'a' b'f' n
    then some (n - b'a' + 10)
    else none

-- Where the decoder stands: outside of an escape, behind its `%`, or behind its first digit.
pub data Phase : Type 0 where
  outside : Phase
  first_digit : Phase
  second_digit : ℕ → Phase

-- The bytes of one character that were read: how many are missing, the number they make so far,
-- and the least number that needs as many bytes.
pub record Partial : Type 0 where
  pub missing : ℕ
  pub number : ℕ
  pub least : ℕ

abbrev nothing_read : Partial
nothing_read = record { missing = 0; number = 0; least = 0 }

pub data Fed : Type 0 where
  malformed : Fed
  more : Partial → Fed
  complete : Char → Fed

scalar_of :
    (n : ℕ) (a b c : Ordering)
    → compare n 55296 ≡ a
    → compare 57343 n ≡ b
    → compare n 1114112 ≡ c
    → Option Char
scalar_of n Ordering.lt b c p q r = some (char n (rw p tt))
scalar_of n Ordering.gt Ordering.lt Ordering.lt p q r = some (char n (rw (p, q, r) tt))
scalar_of n a b c p q r = none

-- The character with this number, unless it is a surrogate or too large.
unfoldable char_of : ℕ → Option Char
unfolding scalar_of
char_of n = scalar_of n _ _ _ refl refl refl

-- A character that is complete, and in the shortest form that there is.
abbrev checked : ℕ → ℕ → Fed
checked number least =
    if ltb number least
    then malformed
    else elim (char_of number) [ none ↦ malformed | some c ↦ complete c ]

abbrev continued : Partial → Fed
continued p = if eqb p.missing 0 then checked p.number p.least else more p

-- One byte of UTF-8.
abbrev feed : Partial → ℕ → Fed
feed p byte =
    if eqb p.missing 0
    then if ltb byte 0x80
      then checked byte 0
      else if between 0xC0 0xDF byte
      then more (record { missing = 1; number = byte - 0xC0; least = 0x80 })
      else if between 0xE0 0xEF byte
      then more (record { missing = 2; number = byte - 0xE0; least = 0x800 })
      else if between 0xF0 0xF7 byte
      then more (record { missing = 3; number = byte - 0xF0; least = 0x10000 })
      else malformed
    else if between 0x80 0xBF byte
    then continued (record {
      missing = p.missing - 1;
      number = p.number * 64 + (byte - 0x80);
      least = p.least;
    })
    else malformed

abbrev cons_char : Char → Option String → Option String
cons_char c none = none
cons_char c (some s) = some (String.◌∷◌ c s)

abbrev second_phase : Option ℕ → Option Phase
second_phase none = none
second_phase (some d) = some (second_digit d)

-- The rest of the text, where `none` is a URIError.
unfoldable pub decode_from : String → Phase → Partial → Option String
unfolding char_of
decode_from String.[] outside p = if eqb p.missing 0 then some "" else none
decode_from String.[] first_digit p = none
decode_from String.[] (second_digit d) p = none
decode_from (String.◌∷◌ c s) outside p = elim (eqb (code c) b'%') [
  | true ↦ decode_from s first_digit p
  | false ↦ elim (eqb p.missing 0) [
    | true ↦ cons_char c (decode_from s outside nothing_read)
    | false ↦ none
  ]
]
decode_from (String.◌∷◌ c s) first_digit p = elim (hex_digit (code c)) [
  | none ↦ none
  | some d ↦ decode_from s (second_digit d) p
]
decode_from (String.◌∷◌ c s) (second_digit d) p = elim (hex_digit (code c)) [
  | none ↦ none
  | some e ↦ elim (feed p (d * 16 + e)) [
    | malformed ↦ none
    | more q ↦ decode_from s outside q
    | complete n ↦ cons_char n (decode_from s outside nothing_read)
  ]
]

unfoldable pub decode_uri_component : String → Option String
unfolding decode_from char_of scalar_of
decode_uri_component s = decode_from s outside nothing_read

-- A part of the expression that takes one character.
abbrev exactly : String → List (Char → Bool)
exactly String.[] = []
exactly (String.◌∷◌ c s) = (λ d. eqb (code d) (code c)) ∷ exactly s

abbrev is_digit : Char → Bool
is_digit c = between b'0' b'9' (code c)

-- `[a-z0-9-]`
abbrev is_contact_char : Char → Bool
is_contact_char c = between b'a' b'z' (code c) || is_digit c || eqb (code c) b'-'

-- What the expression asks of the start of a key.
unfoldable pub key_start : List (Char → Bool)
key_start =
    exactly "Analysis/Voice/"
    ++ replicate 4 is_digit
    ++ exactly "/"
    ++ replicate 2 is_digit
    ++ exactly "/"
    ++ replicate 2 is_digit
    ++ exactly "/"
    ++ replicate 36 is_contact_char

-- The rest of a text behind characters that pass the tests.
unfoldable pub after : List (Char → Bool) → String → Option String
after [] s = some s
after (p ∷ ps) String.[] = none
after (p ∷ ps) (String.◌∷◌ c s) = let rest = after ps s in if p c then rest else none

-- The characters that `.` does not take.
abbrev is_line_end : Char → Bool
is_line_end c = eqb (code c) 0x0A || eqb (code c) 0x0D || eqb (code c) 0x2028 || eqb (code c) 0x2029

abbrev has_line_end : String → Bool
has_line_end String.[] = false
has_line_end (String.◌∷◌ c s) = is_line_end c || has_line_end s

-- `(.*?)(.json)$`: the dot in front of `json` is any character.
unfoldable pub matches_end : Option String → Bool
matches_end none = false
matches_end (some s) = ends_with s "json" && not (leb (text_length s) 4) && not (has_line_end s)

unfoldable pub validate_s3_key_name : String → Bool
unfolding key_start after matches_end
validate_s3_key_name key =
    if contains key "Redacted" then false else matches_end (after key_start key)
