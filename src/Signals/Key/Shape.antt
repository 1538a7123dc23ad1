-- ===== src/Signals/Key/Shape.antt =====
-- Which keys postCallAnalysisTrigger and multiorgPostCallAnalysisTrigger read: the form that the
-- expression in `validateS3KeyName` describes.
use service_cloud_voice_lamb.Common.{
  ◌+◌, ◌≤◌, ◌≡◌, refl, sym, ap, ◌∙◌, String, Bool, true, false, not, ◌&&◌, Option, none, some, List,
  [], ◌∷◌, ◌==◌, eq_iff, Bool-cases, inl, inr, arith, leb, if◌then◌else◌,
}
use Prim.Native.Char.{Char}
use Prim.Native.String.{◌++◌}
use text.Mathlib.TextLemmas.{nil-append, cons-append}
use service_cloud_voice_lamb.Common.Text.{contains, ends_with, text_length}
use service_cloud_voice_lamb.Common.Trace.{Only, only_rules}
use service_cloud_voice_lamb.Signals.Key.{
  key_start, after, matches_end, has_line_end, validate_s3_key_name,
}
use service_cloud_voice_lamb.Signals.Calls.{Call, get_object, Services, Event}
use service_cloud_voice_lamb.Signals.Analysis.{load_file, load_analysis}

-- The characters of a text pass the tests, one for one.
abbrev pub Fits : List (Char → Bool) → String → Type 0
Fits [] String.[] = Unit
Fits [] (String.◌∷◌ c s) = ⊥
Fits (p ∷ ps) String.[] = ⊥
Fits (p ∷ ps) (String.◌∷◌ c s) = (p c ≡ true) × Fits ps s

after-Fits :
    (ps : List (Char → Bool)) (s r : String)
    → after ps s ≡ some r
    → (a : String) × (s ≡ a ++ r) × Fits ps a
unfolding after
after-Fits [] s r h = let e : s ≡ r = cc in ("", e ∙ sym (nil-append r), tt)
after-Fits (p ∷ ps) String.[] r h = absurd (cc)
after-Fits (p ∷ ps) (String.◌∷◌ c s) r h = elim (Bool-cases (p c)) [
  | inr f ↦ absurd (ground (arith, f, h))
  | inl q ↦
      let k : after ps s ≡ some r = ground (arith, q, h) in
      let (a, e, fits) = after-Fits ps s r k in
      (String.◌∷◌ c a, ap (String.◌∷◌ c) e ∙ sym (cons-append c a r), (q, fits))
]

ends_with-append : (s p : String) → ends_with s p ≡ true → (m : String) × (s ≡ m ++ p)
ends_with-append String.[] p h = ("", (eq_iff _ _).0 h ∙ sym (nil-append p))
ends_with-append (String.◌∷◌ c s) p h = elim (Bool-cases (String.◌∷◌ c s == p)) [
  | inl e ↦ ("", (eq_iff _ _).0 e ∙ sym (nil-append p))
  | inr n ↦
      let k : ends_with s p ≡ true = ground (arith, n, h) in
      let (m, e) = ends_with-append s p k in
      (String.◌∷◌ c m, ap (String.◌∷◌ c) e ∙ sym (cons-append c m p))
]

text_length-append : (s p : String) → text_length (s ++ p) ≡ text_length s + text_length p
text_length-append String.[] p = rw (nil-append p) (omega arith)
text_length-append (String.◌∷◌ c s) p =
    rw (cons-append c s p) (omega (arith, text_length-append s p))

-- A key without "Redacted": a date and a contact id under Analysis/Voice, then at least one character
-- and "json", without the end of a line.
abbrev pub IsAnalysisKey : String → Type 0
IsAnalysisKey key =
    (contains key "Redacted" ≡ false)
    × (start : String) × (rest : String) × (key ≡ start ++ (rest ++ "json"))
    × Fits key_start start
    × (1 ≤ text_length rest)
    × (has_line_end (rest ++ "json") ≡ false)

both : (b c : Bool) → (b && c) ≡ true → (b ≡ true) × (c ≡ true)
both true c h = (refl, h)
both false c h = absurd (cc)

not-true : (b : Bool) → not b ≡ true → b ≡ false
not-true true h = absurd (cc)
not-true false h = refl

matched_rest :
    (r : String)
    → matches_end (some r) ≡ true
    → (rest : String) × (r ≡ rest ++ "json")
      × (1 ≤ text_length rest)
      × (has_line_end (rest ++ "json") ≡ false)
unfolding matches_end
matched_rest r h =
    let (q, n) = both _ _ h in
    let (p, l) = both _ _ q in
    let (m, e) = ends_with-append r "json" p in
    let k : leb (text_length r) 4 ≡ false = not-true _ l in
    let len : text_length r ≡ text_length m + 4 = ap text_length e ∙ text_length-append m "json" in
    (m, e, ground (arith, k, len), rw (sym e) (not-true _ n))

unredacted : (b c : Bool) → (if b then false else c) ≡ true → (b ≡ false) × (c ≡ true)
unredacted true c h = absurd (cc)
unredacted false c h = (refl, h)

validated : (key : String) → validate_s3_key_name key ≡ true → IsAnalysisKey key
unfolding validate_s3_key_name matches_end
validated key h = let (r, m) = unredacted _ _ h in start_of (after key_start key) refl r m
  where
    start_of :
        (o : Option String)
        → after key_start key ≡ o
        → contains key "Redacted" ≡ false
        → matches_end o ≡ true
        → IsAnalysisKey key
    start_of none e r m = absurd (cc)
    start_of (some s) e r m =
        let (a, split, fits) = after-Fits key_start key s e in
        let (rest, q, len, line) = matched_rest s m in
        (r, a, rest, split ∙ ap (λ x. a ++ x) q, fits, len, line)

-- A read of a file is of one with such a key.
abbrev pub ReadsAnalysis : Call → Type 0
ReadsAnalysis (get_object bucket key) = IsAnalysisKey key
ReadsAnalysis c = Unit

-- Whatever the services answer, the only file that is read is one whose key lies under
-- Analysis/Voice with a date and a contact id, ends with "json", and does not have "Redacted" in it.
pub load_analysis-ReadsAnalysis :
    (svc : Services) (e : Event) → Only ReadsAnalysis (load_analysis svc e)
unfolding load_analysis load_file
load_analysis-ReadsAnalysis svc e = search (only_rules, validated) depth 12
