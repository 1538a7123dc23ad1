-- ===== src/Sf/Phone/Screen.antt =====
-- Which phones reach a query of invokeSfRestApi/SFSPhoneCallFlow.js.
use service_cloud_voice_lamb.Common.{
  ◌≡◌, refl, String, Bool, true, false, not, Option, none, some, List, if◌then◌else◌, truthy,
  text_of, arith,
}
use Prim.Native.Char.{Char, char}
use service_cloud_voice_lamb.Common.Text.{avoids}
use service_cloud_voice_lamb.Common.Effect.{ok}
use service_cloud_voice_lamb.Common.Returns.{
  Returns, Returns-pure, Returns-any, Returns-if, Returns-bind, Returns-handle, handle-ok,
}
use service_cloud_voice_lamb.Common.Trace.{Only, only_rules}
use service_cloud_voice_lamb.Sf.Json.{Json, bool, member}
use service_cloud_voice_lamb.Sf.Calls.{
  Call, get_secret, update_secret, sign_jwt, authenticate, send, Services, Event,
}
use service_cloud_voice_lamb.Sf.Query.{invoke_query}
use service_cloud_voice_lamb.Sf.Api.Requests.{query_record-Only}
use service_cloud_voice_lamb.Sf.Phone.{
  is_digit, is_first, all_digits, matches, is_valid_phone_number, find_engineer, get_info,
  entry_point, not_found, transfer, phone_of,
}

abbrev quote : Char
quote = char 39 tt

digits-avoids : (s : String) → all_digits s ≡ true → avoids quote s ≡ true
unfolding all_digits is_digit
digits-avoids String.[] h = refl
digits-avoids (String.◌∷◌ c s) h = ground (arith, digits-avoids s)

matches-avoids : (s : String) → matches s ≡ true → avoids quote s ≡ true
unfolding matches is_first
matches-avoids String.[] h = refl
matches-avoids (String.◌∷◌ c String.[]) h = absurd (cc)
matches-avoids (String.◌∷◌ c (String.◌∷◌ d s)) h = ground (arith, digits-avoids (String.◌∷◌ d s))

valid-avoids : (p : String) → is_valid_phone_number p ≡ true → avoids quote p ≡ true
unfolding is_valid_phone_number
valid-avoids p h = ground (arith, matches-avoids p)

not-false : (b : Bool) → not b ≡ false → b ≡ true
not-false true h = refl
not-false false h = absurd (cc)

-- The phone that a flow works on.
abbrev pub caller_of : Event → String
caller_of e = if truthy e.customer_address then text_of e.customer_address else "anonymous"

-- A request is only made for a phone that is checked, and in which no quote ends a text of SOQL.
abbrev pub Screened : String → Call → Type 0
Screened phone (send r) = (is_valid_phone_number phone ≡ true) × (avoids quote phone ≡ true)
Screened phone c = Unit

Screened-all : (phone : String) → is_valid_phone_number phone ≡ true → (c : Call) → Screened phone c
Screened-all phone h (send r) = (h, valid-avoids phone h)
Screened-all phone h (get_secret name) = tt
Screened-all phone h (update_secret name value) = tt
Screened-all phone h (sign_jwt claims key) = tt
Screened-all phone h (authenticate endpoint assertion) = tt

module _ (svc : Services) (secret_name access_name : Option String) where
  find_engineer-Screened :
      (phone : String)
      → is_valid_phone_number phone ≡ true
      → Only (Screened phone) (find_engineer svc secret_name access_name phone)
  unfolding find_engineer invoke_query
  find_engineer-Screened phone h =
      let all = query_record-Only (Screened phone) (Screened-all phone h) svc in
      search (only_rules, all) depth 8

  get_info-Screened :
      (phone : String) → Only (Screened phone) (get_info svc secret_name access_name phone)
  unfolding get_info
  get_info-Screened phone = search (only_rules, screened, not-false) depth 8
    where
      screened :
          is_valid_phone_number phone ≡ true
          → Only (Screened phone) (find_engineer svc secret_name access_name phone)
      screened h = find_engineer-Screened phone h

  IsAnswer : Json → Type 0
  IsAnswer j = member "success" j ≡ some (bool true)

  transfer-IsAnswer : (o : Option Json) → IsAnswer (transfer o)
  unfolding IsAnswer
  transfer-IsAnswer none = refl
  transfer-IsAnswer (some v) = refl

  find_engineer-IsAnswer :
      (phone : String) → Returns IsAnswer (find_engineer svc secret_name access_name phone)
  unfolding find_engineer
  find_engineer-IsAnswer phone =
      Returns-bind (λ a. Unit) _ _ (Returns-any _ (λ a. tt))
        λ a u.
          Returns-bind (λ a. Unit) _ _ (Returns-any _ (λ a. tt))
            λ b u. Returns-pure _ (transfer-IsAnswer (phone_of b))

  get_info-IsAnswer :
      (phone : String) → Returns IsAnswer (get_info svc secret_name access_name phone)
  unfolding get_info IsAnswer
  get_info-IsAnswer phone =
      search (Returns-handle, Returns-if, Returns-pure, refl, find_engineer-IsAnswer)

entry_point-answers :
    (svc : Services) (secret_name access_name : Option String) (e : Event) (t : List Call)
    → (j : Json) × ((entry_point svc secret_name access_name e t).0 ≡ ok j)
      × (member "success" j ≡ some (bool true))
unfolding entry_point IsAnswer
entry_point-answers svc s a e t =
    let (j, p) =
      handle-ok (get_info svc s a (caller_of e))
        (not_found "SFSPhoneCallFlow - Lambda event handler exception") t in
    (
      j,
      p,
      (Returns-handle _ _ (get_info-IsAnswer svc s a (caller_of e)) (λ x. Returns-pure _ refl)).at t
          j p,
    )

-- Whatever the services answer, the flow makes a request only if the phone of the caller passes the
-- check, and then no quote in it can end a text of the SOQL query that it stands in; and the flow
-- ends without an error, with an answer that says success.
pub entry_point-Screened :
    (svc : Services) (secret_name access_name : Option String) (e : Event)
    → Only (Screened (caller_of e)) (entry_point svc secret_name access_name e)
      × ((t : List Call)
          → (j : Json) × ((entry_point svc secret_name access_name e t).0 ≡ ok j)
            × (member "success" j ≡ some (bool true)))
unfolding entry_point
entry_point-Screened svc s a e =
    (search (only_rules, get_info-Screened), entry_point-answers svc s a e)
