-- ===== src/Common/Text.antt =====
-- Prefixes of texts as JavaScript tests and strips them, by characters.
use Prim.Native.Nat.{ℕ, zero, suc}
use Prim.Native.Char.{Char, code}
use Prim.Native.String.{String, [], ◌∷◌, ◌++◌}
use mathlib.Core.Path.{◌≡◌, refl, sym, ap, ap₂, ◌∙◌}
use mathlib.Core.Bool.{Bool, true, false, not, ◌&&◌, ◌||◌}
use native.Mathlib.Omega.{arith}
use text.Mathlib.Text.{◌==◌}
use text.Mathlib.TextEquality.{Char-path}
use text.Mathlib.TextPositions.{eq_refl}
use text.Mathlib.TextLemmas.{nil-append, cons-append}
use service_cloud_voice_lamb.Common.Tests.{eqb, if◌then◌else◌, or_true}

-- `s.startsWith(p)`
abbrev pub starts_with : String → String → Bool
starts_with s [] = true
starts_with [] (d ∷ p) = false
starts_with (c ∷ s) (d ∷ p) = eqb (code c) (code d) && starts_with s p

-- `p.length`
abbrev pub text_length : String → ℕ
text_length [] = 0
text_length (c ∷ s) = suc (text_length s)

-- `s.substring(n)`
abbrev pub substring : String → ℕ → String
substring s zero = s
substring [] (suc n) = []
substring (c ∷ s) (suc n) = substring s n

-- `s.includes(p)`
abbrev pub contains : String → String → Bool
contains [] p = starts_with [] p
contains (c ∷ s) p = starts_with (c ∷ s) p || contains s p

-- `s.endsWith(p)`
abbrev pub ends_with : String → String → Bool
ends_with [] p = [] == p
ends_with (c ∷ s) p = ((c ∷ s) == p) || ends_with s p

-- `s.replace(p, r)` for a text `p`: its first occurrence.
abbrev pub replace : String → String → String → String
replace [] p r = if starts_with [] p then r ++ substring [] (text_length p) else []
replace (c ∷ s) p r =
    let rest = replace s p r in
    if starts_with (c ∷ s) p then r ++ substring (c ∷ s) (text_length p) else c ∷ rest

-- A text that starts with a prefix is that prefix with the stripped text behind it.
pub append-substring :
    (p s : String) → starts_with s p ≡ true → p ++ substring s (text_length p) ≡ s
append-substring [] s h = nil-append s
append-substring (d ∷ p) [] h = cc
append-substring (d ∷ p) (c ∷ s) h =
    cons-append d p _ ∙ ap₂ ◌∷◌ (Char-path d c (ground arith)) (append-substring p s (ground arith))

pub append-empty : (s : String) → s ++ [] ≡ s
append-empty [] = nil-append []
append-empty (c ∷ s) = cons-append c s [] ∙ ap (◌∷◌ c) (append-empty s)

pub starts_with-append : (p s : String) → starts_with (p ++ s) p ≡ true
starts_with-append [] [] = refl
starts_with-append [] (c ∷ s) = refl
starts_with-append (d ∷ p) s = rw cons-append (ground (arith, starts_with-append p s))

pub ends_with-append : (a s : String) → ends_with (a ++ s) s ≡ true
ends_with-append [] [] = refl
ends_with-append [] (c ∷ s) = rw (nil-append (c ∷ s), eq_refl (c ∷ s)) refl
ends_with-append (d ∷ a) s = rw (cons-append, ends_with-append a s) (or_true _)

pub substring-append : (p s : String) → substring (p ++ s) (text_length p) ≡ s
substring-append [] s = nil-append s
substring-append (d ∷ p) s = rw cons-append (substring-append p s)

replace-here :
    (s p r : String) → starts_with s p ≡ true → replace s p r ≡ r ++ substring s (text_length p)
replace-here [] p r h = rw h refl
replace-here (c ∷ s) p r h = rw h refl

-- A text that starts with `p` has it replaced there.
pub replace-append : (p s r : String) → replace (p ++ s) p r ≡ r ++ s
replace-append p s r =
    replace-here (p ++ s) p r (starts_with-append p s) ∙ ap (λ x. r ++ x) (substring-append p s)

-- Whether a text is without the character `d`.
abbrev pub avoids : Char → String → Bool
avoids d [] = true
avoids d (c ∷ s) = not (eqb (code c) (code d)) && avoids d s

both_true : (b c : Bool) → (not b && c) ≡ true → (b ≡ false) × (c ≡ true)
both_true true c h = absurd (cc)
both_true false c h = (refl, h)

-- Nothing is replaced in front of the first character that the pattern may start with.
pub replace-skip :
    (d : Char) (p a s r : String)
    → avoids d a ≡ true
    → replace (a ++ s) (d ∷ p) r ≡ a ++ replace s (d ∷ p) r
replace-skip d p [] s r h = rw (nil-append s) (sym (nil-append _))
replace-skip d p (c ∷ a) s r h =
    let (e, h') = both_true (eqb (code c) (code d)) (avoids d a) h in
    rw (cons-append, cons-append, e, replace-skip d p a s r h') refl
