-- ===== src/Sf/Query/Last.antt =====
-- What `formatQuery` of invokeSfRestApi/queryEngine.js replaces.
use service_cloud_voice_lamb.Common.{◌≡◌, refl, String, Option, none, some, [], ◌∷◌, ◌++◌}
use service_cloud_voice_lamb.Common.Object.{Object}
use service_cloud_voice_lamb.Common.Effect.{ok}
use service_cloud_voice_lamb.Sf.Query.{substitute, placeholder, format_from, format_query}

format_from-last :
    (args : Object String) (before : Option String) (k v q : String)
    → format_from before (args ++ (k, v) ∷ []) (some q) ≡ ok (some (substitute q (placeholder k) v))
unfolding format_from
format_from-last [] before k v q = refl
format_from-last ((j, w) ∷ args) before k v q = format_from-last args _ k v q

-- Of the arguments of a query only the last one takes effect: the result is the query with the
-- placeholder of that argument replaced, whatever the arguments in front of it.
pub format_query-last :
    (args : Object String) (k v q : String)
    → format_query (args ++ (k, v) ∷ []) (some q) ≡ ok (some (substitute q (placeholder k) v))
unfolding format_query
format_query-last args k v q = format_from-last args none k v q
