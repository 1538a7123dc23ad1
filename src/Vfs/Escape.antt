-- ===== src/Vfs/Escape.antt =====
-- `encodeURIComponent` as invokeVfsIntegrationApi/vfsIntegrationApi.js uses it. A text is a sequence of
-- characters, of which none is half of a surrogate pair, so that it does not throw.
use service_cloud_voice_lamb.Common.{
  ℕ, zero, suc, ◌+◌, ◌/◌, ◌%◌, ◌≡◌, refl, ap, String, Bool, true, false, ◌&&◌, ◌||◌, List, [], ◌∷◌,
  if◌then◌else◌, eqb, leb, ltb, Bool-cases, inl, inr, arith,
}
use Prim.Native.Char.{Char, code}
use Prim.Native.String.{◌++◌}
use text.Mathlib.TextLemmas.{nil-append, cons-append}
use service_cloud_voice_lamb.Common.Text.{avoids}

-- A letter, a digit, or one of - _ . ! ~ * ' ( ).
abbrev pub is_unreserved : ℕ → Bool
is_unreserved n =
    (leb b'A' n && leb n b'Z')
    || (leb b'a' n && leb n b'z')
    || (leb b'0' n && leb n b'9')
    || eqb n b'-'
    || eqb n b'_'
    || eqb n b'.'
    || eqb n b'!'
    || eqb n b'~'
    || eqb n b'*'
    || eqb n 0x27
    || eqb n b'('
    || eqb n b')'

-- The bytes of a character in UTF-8.
abbrev pub utf8 : ℕ → List ℕ
utf8 n =
    if ltb n 0x80
    then n ∷ []
    else if ltb n 0x800
    then (0xC0 + n / 64) ∷ (0x80 + n % 64) ∷ []
    else if ltb n 0x10000
    then (0xE0 + n / 4096) ∷ (0x80 + (n / 64) % 64) ∷ (0x80 + n % 64) ∷ []
    else (0xF0 + n / 262144)
      ∷ (0x80 + (n / 4096) % 64)
      ∷ (0x80 + (n / 64) % 64)
      ∷ (0x80 + n % 64)
      ∷ []

-- The character at a place of a text, as a text.
abbrev at_place : String → ℕ → String
at_place String.[] n = ""
at_place (String.◌∷◌ c s) zero = String.◌∷◌ c ""
at_place (String.◌∷◌ c s) (suc n) = at_place s n

abbrev hex_digits : String
hex_digits = "0123456789ABCDEF"

abbrev hex_digit : ℕ → String
hex_digit n = at_place hex_digits n

abbrev escape : List ℕ → String
escape [] = ""
escape (byte ∷ bytes) = "%" ++ (hex_digit (byte / 16) ++ (hex_digit (byte % 16) ++ escape bytes))

unfoldable pub encode_uri_component : String → String
encode_uri_component String.[] = ""
encode_uri_component (String.◌∷◌ c s) =
    let rest = encode_uri_component s in
    if is_unreserved (code c) then String.◌∷◌ c rest else escape (utf8 (code c)) ++ rest

avoids-append :
    (d : Char) (s t : String) → avoids d s ≡ true → avoids d t ≡ true → avoids d (s ++ t) ≡ true
avoids-append d String.[] t h k = rw (nil-append t) k
avoids-append d (String.◌∷◌ c s) t h k =
    rw (cons-append c s t) (ground (arith, h, avoids-append d s t, k))

avoids-at_place :
    (d : Char) (s : String) (n : ℕ) → avoids d s ≡ true → avoids d (at_place s n) ≡ true
avoids-at_place d String.[] n h = refl
avoids-at_place d (String.◌∷◌ c s) zero h = ground (arith, h)
avoids-at_place d (String.◌∷◌ c s) (suc n) h = avoids-at_place d s n (ground (arith, h))

-- A character that no escaped text has.
abbrev pub IsReserved : Char → Type 0
IsReserved d = (is_unreserved (code d) ≡ false) × (avoids d "%0123456789ABCDEF" ≡ true)

avoids-escape :
    (d : Char) (bytes : List ℕ)
    → avoids d "%" ≡ true
    → avoids d "0123456789ABCDEF" ≡ true
    → avoids d (escape bytes) ≡ true
avoids-escape d [] h k = refl
avoids-escape d (byte ∷ bytes) h k = avoids-append d "%" _ h (
    avoids-append d (hex_digit (byte / 16)) _ (avoids-at_place d hex_digits (byte / 16) k) (
      avoids-append d (hex_digit (byte % 16)) _ (avoids-at_place d hex_digits (byte % 16) k)
        (avoids-escape d bytes h k)))

unlike : (n m : ℕ) → is_unreserved n ≡ true → is_unreserved m ≡ false → eqb n m ≡ false
unlike n m h k = elim (Bool-cases (eqb n m)) [
  | inr p ↦ p
  | inl p ↦
      let e : n ≡ m = ground (arith, p) in
      let q : is_unreserved n ≡ is_unreserved m = ap is_unreserved e in absurd (cc)
]

-- An escaped text has no reserved character, whatever the text was.
pub encode-avoids :
    (d : Char) (s : String) → IsReserved d → avoids d (encode_uri_component s) ≡ true
unfolding encode_uri_component
encode-avoids d String.[] r = refl
encode-avoids d (String.◌∷◌ c s) (r, a) = elim (Bool-cases (is_unreserved (code c))) [
  | inl p ↦ rw (p, unlike (code c) (code d) p r) (encode-avoids d s (r, a))
  | inr p ↦ rw p (
      avoids-append d (escape (utf8 (code c))) _
        (avoids-escape d (utf8 (code c)) (ground (arith, a)) (ground (arith, a)))
        (encode-avoids d s (r, a)))
]
