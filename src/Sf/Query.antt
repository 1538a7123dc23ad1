-- ===== src/Sf/Query.antt =====
-- invokeSfRestApi/queryEngine.js.
pub mod Last
use service_cloud_voice_lamb.Common.{
  ℕ, ◌≡◌, refl, String, Bool, true, false, Option, none, some, List, [], ◌∷◌, ◌++◌ as ◌<+>◌,
  if◌then◌else◌, ◌&&◌, eqb,
}
use Prim.Native.Char.{Char, code}
use Prim.Native.String
use Prim.Native.String.{◌++◌}
use service_cloud_voice_lamb.Common.Text.{starts_with, substring, text_length}
use service_cloud_voice_lamb.Common.Object.{Object}
use service_cloud_voice_lamb.Common.Effect.{Attempt, ok, throw, Action, lift, ◌>>=◌}
use service_cloud_voice_lamb.Sf.Json.{Json}
use service_cloud_voice_lamb.Sf.Calls.{Fault, error, Call, Services}
use service_cloud_voice_lamb.Sf.Api.{query_record}

-- A replacement text, in which `$$` is a dollar, `$&` the match, and "$`" and `$'` what stands
-- before and behind it.
expand : String → String → String → String → String
expand before match after String.[] = ""
expand before match after (String.◌∷◌ c String.[]) = String.◌∷◌ c ""
expand before match after (String.◌∷◌ c (String.◌∷◌ d r)) =
    let rest = expand before match after r in
    let next = expand before match after (String.◌∷◌ d r) in
    if eqb (code c) b'$' && eqb (code d) b'$'
    then "$" ++ rest
    else if eqb (code c) b'$' && eqb (code d) b'&'
    then match ++ rest
    else if eqb (code c) b'$' && eqb (code d) b'`'
    then before ++ rest
    else if eqb (code c) b'$' && eqb (code d) 39
    then after ++ rest
    else String.◌∷◌ c next

substitute_from : String → String → String → String → String
unfolding expand
substitute_from before String.[] p r =
    if starts_with "" p then expand before p "" r ++ substring "" (text_length p) else ""
substitute_from before (String.◌∷◌ c s) p r =
    let rest = substitute_from (before ++ String.◌∷◌ c "") s p r in
    let after = substring (String.◌∷◌ c s) (text_length p) in
    if starts_with (String.◌∷◌ c s) p then expand before p after r ++ after else String.◌∷◌ c rest

-- `s.replace(p, r)` for texts, with the patterns in `r`.
unfoldable pub substitute : String → String → String → String
unfolding substitute_from
substitute s p r = substitute_from "" s p r

abbrev pub placeholder : String → String
placeholder key = "{" ++ (key ++ "}")

-- The loop: each round starts again from `queryStr`.
unfoldable pub format_from :
    Option String → Object String → Option String → Attempt Fault (Option String)
format_from query [] query_str = ok query
format_from query ((k, v) ∷ args) none = throw (error "TypeError")
format_from query ((k, v) ∷ args) (some q) =
    format_from (some (substitute q (placeholder k) v)) args (some q)

unfoldable pub format_query : Object String → Option String → Attempt Fault (Option String)
format_query args query_str = format_from none args query_str

unfoldable pub invoke_query :
    Services
    → Option String
    → Object String
    → Option String
    → Option String
    → Action Fault Call (Option Json)
invoke_query svc query args secret_name access_name = do
  formatted ← lift (format_query args query)
  query_record svc secret_name access_name formatted
