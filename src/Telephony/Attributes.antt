-- ===== src/Telephony/Attributes.antt =====
-- The prefix filters of invokeTelephonyIntegrationApi/utils.js.
use service_cloud_voice_lamb.Common.{
  ◌≡◌, refl, ◌∙◌, sym, ap, String, Bool, true, false, Option, none, some, [], ◌∷◌, if◌then◌else◌,
  ◌==◌, arith, eq_iff, count, eq_refl, ◌&&◌,
}
use Prim.Native.String.{◌++◌}
use service_cloud_voice_lamb.Common.Text.{
  starts_with, text_length, substring, append-substring, starts_with-append, substring-append,
}
use service_cloud_voice_lamb.Common.Object.{Object, get, put, get-put, keys, IsUnique}

-- The loop of both filters, over the properties that are left.
unfoldable pub strip_from : String → Object String → Object String → Object String
strip_from prefix [] out = out
strip_from prefix ((key, value) ∷ rest) out =
    strip_from prefix rest
      (if starts_with key prefix then put (substring key (text_length prefix)) value out else out)

unfoldable pub get_call_attributes : Object String → Object String
unfolding strip_from
get_call_attributes raw = strip_from "sfdc-" raw []

unfoldable pub construct_flow_input_params : Object String → Object String
unfolding strip_from
construct_flow_input_params raw = strip_from "flowInput-" raw []

bool_path : (a b : Bool) → (a ≡ true → b ≡ true) → (b ≡ true → a ≡ true) → a ≡ b
bool_path true b f g = sym (f refl)
bool_path false true f g = g refl
bool_path false false f g = refl

split :
    (p key k : String)
    → (key == (p ++ k)) ≡ true
    → (starts_with key p && (substring key (text_length p) == k)) ≡ true
split p key k h =
    let e : key ≡ p ++ k = (eq_iff key (p ++ k)).0 h in
    rw (e, starts_with-append, substring-append) (eq_refl k)

and_left : (a b : Bool) → (a && b) ≡ true → a ≡ true
and_left true b h = refl
and_left false b h = h

and_right : (a b : Bool) → (a && b) ≡ true → b ≡ true
and_right true b h = h
and_right false b h = absurd (cc)

join :
    (p key k : String)
    → (starts_with key p && (substring key (text_length p) == k)) ≡ true
    → (key == (p ++ k)) ≡ true
join p key k h =
    let e : substring key (text_length p) ≡ k = (eq_iff _ k).0 (and_right _ _ h) in
    (eq_iff key (p ++ k)).1 (sym (append-substring p key (and_left _ _ h)) ∙ ap (λ s. p ++ s) e)

-- The key that a filter reads is the prefix with the stripped key behind it.
stripped_key :
    (p key k : String)
    → (key == (p ++ k)) ≡ (starts_with key p && (substring key (text_length p) == k))
stripped_key p key k = bool_path _ _ (split p key k) (join p key k)

get-none : (k : String) (o : Object String) → count k (keys o) ≡ 0 → get k o ≡ none
get-none k [] h = refl
get-none k ((j, v) ∷ o) h = ground (arith, eq_iff j k, get-none k o)

rest-IsUnique : (key v : String) (o : Object String) → IsUnique ((key, v) ∷ o) → IsUnique o
rest-IsUnique key v o h k = ground (arith, eq_iff key k, h k, get-none k o)

IsUnique-none : (key v : String) (o : Object String) → IsUnique ((key, v) ∷ o) → get key o ≡ none
IsUnique-none key v o h = get-none key o (ground (arith, eq_refl key, h key))

abbrev first : Option String → Option String → Option String
first none b = b
first (some a) b = some a

get-kept :
    (b : Bool) (k v stripped : String) (out : Object String)
    → get k (if b then put stripped v out else out)
      ≡ (if b then if stripped == k then some v else get k out else get k out)
get-kept true k v stripped out = get-put stripped k v out
get-kept false k v stripped out = refl

first-kept :
    (b s e : Bool) (v : String) (r g : Option String)
    → b ≡ (s && e)
    → (b ≡ true → r ≡ none)
    → first r (if s then if e then some v else g else g) ≡ first (if b then some v else r) g
first-kept true true true v r g p q = ap (λ o. first o (some v)) (q refl)
first-kept false true false v r g p q = refl
first-kept false false e v r g p q = refl
first-kept true true false v r g p q = absurd (cc)
first-kept true false e v r g p q = absurd (cc)
first-kept false true true v r g p q = absurd (cc)

next_none :
    (key k v : String) (o : Object String)
    → IsUnique ((key, v) ∷ o)
    → (key == k) ≡ true
    → get k o ≡ none
next_none key k v o h e =
    let p : key ≡ k = (eq_iff key k).0 e in rw (sym p) (IsUnique-none key v o h)

get-strip_from :
    (p k : String) (raw out : Object String)
    → IsUnique raw
    → get k (strip_from p raw out) ≡ first (get (p ++ k) raw) (get k out)
unfolding strip_from
get-strip_from p k [] out h = refl
get-strip_from p k ((key, v) ∷ raw) out h =
    let ih =
      get-strip_from p k raw
        (if starts_with key p then put (substring key (text_length p)) v out else out)
        (rest-IsUnique key v raw h) in
    ih
    ∙ ap (first (get (p ++ k) raw)) (get-kept _ k v _ out)
    ∙ first-kept _ _ _ v _ _ (stripped_key p key k) (λ e. next_none key (p ++ k) v raw h e)

first-none : (a : Option String) → first a none ≡ a
first-none none = refl
first-none (some a) = refl

-- Of a contact's attributes, whose keys are distinct, the voice call gets under each key the value
-- of the attribute that is that key with "sfdc-" in front, and no other attribute.
pub get-get_call_attributes :
    (raw : Object String) (k : String)
    → IsUnique raw
    → get k (get_call_attributes raw) ≡ get ("sfdc-" ++ k) raw
unfolding get_call_attributes
get-get_call_attributes raw k h = get-strip_from "sfdc-" k raw [] h ∙ first-none _

-- Of the parameters of a contact flow, whose keys are distinct, the flow gets under each key the
-- value of the parameter that is that key with "flowInput-" in front, and no other parameter.
pub get-construct_flow_input_params :
    (raw : Object String) (k : String)
    → IsUnique raw
    → get k (construct_flow_input_params raw) ≡ get ("flowInput-" ++ k) raw
unfolding construct_flow_input_params
get-construct_flow_input_params raw k h = get-strip_from "flowInput-" k raw [] h ∙ first-none _
