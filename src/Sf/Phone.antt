-- ===== src/Sf/Phone.antt =====
-- invokeSfRestApi/SFSPhoneCallFlow.js: the phone of the engineer who is on the way to a caller.
pub mod Screen
use service_cloud_voice_lamb.Common.{
  ℕ, String, Bool, true, false, not, Option, none, some, List, [], ◌∷◌, truthy, text_of,
  if◌then◌else◌, ◌&&◌, ◌||◌, ◌==◌, eqb, ltb, leb,
}
use Prim.Native.Char.{Char, code}
use Prim.Native.String
use Prim.Native.String.{◌++◌}
use service_cloud_voice_lamb.Common.Text.{text_length}
use service_cloud_voice_lamb.Common.Effect.{
  Attempt, ok, throw, Action, pure, raise, lift, handle, ◌>>=◌,
}
use service_cloud_voice_lamb.Sf.Json.{
  Json, null, bool, number, text, object, end, field, fields_of, member, is_truthy,
}
use service_cloud_voice_lamb.Sf.Calls.{Fault, Call, Services, Event}
use service_cloud_voice_lamb.Sf.Query.{invoke_query}

is_digit : Char → Bool
is_digit c = leb b'0' (code c) && leb (code c) b'9'

-- The class `[+{0,1}]` of the regular expression.
is_first : Char → Bool
is_first c =
    eqb (code c) b'+'
    || eqb (code c) b'{'
    || eqb (code c) b'0'
    || eqb (code c) b','
    || eqb (code c) b'1'
    || eqb (code c) b'}'

all_digits : String → Bool
unfolding is_digit
all_digits String.[] = true
all_digits (String.◌∷◌ c s) = is_digit c && all_digits s

unfoldable pub matches : String → Bool
unfolding is_first all_digits
matches String.[] = false
matches (String.◌∷◌ c String.[]) = false
matches (String.◌∷◌ c (String.◌∷◌ d s)) = is_first c && all_digits (String.◌∷◌ d s)

unfoldable pub is_valid_phone_number : String → Bool
is_valid_phone_number p =
    if ltb (text_length p) 8 || ltb 20 (text_length p) then false else matches p

unfoldable pub is_empty_object : Option Json → Bool
is_empty_object none = true
is_empty_object (some null) = true
is_empty_object (some (object end)) = true
is_empty_object (some v) = false

abbrev pub answer : String → List (String × Option Json) → Json
answer status more = object (
    fields_of (
      ("success", some (bool true))
      ∷ ("status", some (text status))
      ∷ ("statusCode", some (number 200))
      ∷ more))

-- `if (!v) v = "En Route"`, where a value that is no text stands in the query as `shown` says.
abbrev status_or : (Json → String) → Option Json → String
status_or shown none = "En Route"
status_or shown (some (text s)) = if s == "" then "En Route" else s
status_or shown (some v) = if is_truthy (some v) then shown v else "En Route"

unfoldable pub status_of : (Json → String) → Option Json → String
unfolding is_empty_object
status_of shown found =
    if is_empty_object found
    then "En Route"
    else status_or shown (elim found [ none ↦ none | some v ↦ member "ApptAssistantStatus" v ])

unfoldable pub resource_query : String → String → String
resource_query status phone =
    "SELECT ServiceResource.RelatedRecord.Phone\n"
    ++ ("              FROM AssignedResource\n"
        ++ ("              WHERE (LocationStatus in ('EnRoute', 'LastMile'))\n"
            ++ ("          \t    AND (ServiceAppointment.Status='"
                ++ (status
                    ++ ("')\n"
                        ++ ("          \t    AND (ServiceAppointment.Contact.Phone='"
                            ++ (phone
                                ++ ("')\n"
                                    ++ ("              ORDER BY AssignedResourceNumber DESC\n"
                                        ++ ("              LIMIT 1"))))))))))

abbrev inner : String → Option Json → Option Json
inner k none = none
inner k (some v) = member k v

-- The phone in the record that was found, unless a part of it is missing.
unfoldable pub phone_of : Option Json → Option Json
unfolding is_empty_object
phone_of found =
    let service = inner "ServiceResource" found in
    let related = inner "RelatedRecord" service in
    let phone = inner "Phone" related in
    if is_empty_object found
      || is_empty_object service
      || is_empty_object related
      || not (is_truthy phone)
    then none
    else phone

abbrev not_found : String → Json
not_found msg = answer "PHONE_NOT_FOUND" (("msg", some (text msg)) ∷ [])

abbrev transfer : Option Json → Json
transfer none = not_found "Assign resource not found or no phone in AssignedResource record"
transfer (some phone) = answer "TRANSFER_CALL" (("engPhone", some phone) ∷ [])

module _ (svc : Services) (secret_name access_name : Option String) where
  run_query : String → Action Fault Call (Option Json)
  run_query q =
      invoke_query svc (some q) (("methodName", "queryRecord") ∷ []) secret_name access_name

  unfoldable pub find_engineer : String → Action Fault Call Json
  unfolding run_query
  find_engineer phone = do
    settings ← run_query "SELECT ApptAssistantStatus FROM FieldServiceOrgSettings"
    found ← run_query (resource_query (status_of svc.shown settings) phone)
    pure (transfer (phone_of found))

  unfoldable pub get_info : String → Action Fault Call Json
  get_info phone =
      handle
        (if phone == "" || phone == "anonymous"
          then pure (answer "ANONYMOUS" [])
          else if not (is_valid_phone_number phone)
          then pure (answer "ANONYMOUS" [])
          else find_engineer phone)
        (λ e. pure (not_found "getInfo() exception"))

  unfoldable pub entry_point : Event → Action Fault Call Json
  entry_point e =
      handle
        (get_info (if truthy e.customer_address then text_of e.customer_address else "anonymous"))
        (λ x. pure (not_found "SFSPhoneCallFlow - Lambda event handler exception"))
