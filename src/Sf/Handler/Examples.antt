-- ===== src/Sf/Handler/Examples.antt =====
-- Runs of invokeSfRestApi, and its properties at concrete events.
use service_cloud_voice_lamb.Common.{
  ◌≡◌, refl, String, true, false, none, some, List, [], ◌∷◌, ◌++◌, if◌then◌else◌,
}
use service_cloud_voice_lamb.Common.Object.{Object, get}
use service_cloud_voice_lamb.Common.Effect.{ok, throw}
use service_cloud_voice_lamb.Common.Trace.{Only}
use service_cloud_voice_lamb.Common.Cost.{Costs}
use service_cloud_voice_lamb.Sf.Json.{Json, text, bool, null, member}
use service_cloud_voice_lamb.Sf.Calls.{
  refused, Configs, Verb, Verb, path, no_body, secret_string, Call, get_secret, Services, Event,
}
use service_cloud_voice_lamb.Sf.Token.{get_access_token}
use service_cloud_voice_lamb.Sf.Token.Stored.{secret_after, get_access_token-stored}
use service_cloud_voice_lamb.Sf.Api.{Draft, send_request}
use service_cloud_voice_lamb.Sf.Api.Requests.{is_request, is_login}
use service_cloud_voice_lamb.Sf.Api.Recovery.{accepts, TakesOnly, send_request-recovers}
use service_cloud_voice_lamb.Sf.Query.{substitute, placeholder, format_query}
use service_cloud_voice_lamb.Sf.Query.Last.{format_query-last}
use service_cloud_voice_lamb.Sf.Phone.{is_valid_phone_number, matches, entry_point}
use service_cloud_voice_lamb.Sf.Phone.Screen.{Screened, entry_point-Screened}
use service_cloud_voice_lamb.Sf.Handler.{get_s_object_field_values, format_object_api_name}

-- The REST API takes the token "fresh"; the secret holds "stale" until it is updated.
abbrev stale : String → Object String
stale name = ("cc-salesforce-rest-api-access-token", "stale") ∷ ("CALL_CENTER_API_NAME", "cc") ∷ []

abbrev services : Services
services = record {
  secret_name = some "org1";
  access_token_secret_name = some "tokens";
  get_secret = λ t n. ok (secret_string (ok (secret_after n t (stale n))));
  update_secret = λ t. ok tt;
  sign_jwt = λ t. ok "jwt";
  authenticate = λ t. ok (some "fresh");
  send = λ t r.
      if accepts "fresh" r.headers then ok (some (text "done")) else throw (refused 401 none none);
  form_headers = [];
  flatten = λ o. null;
  shown = λ j. "";
}

abbrev a_draft : Draft
a_draft = record { verb = Verb.get; url = path "/query/"; body = no_body; headers = [] }

services-TakesOnly : TakesOnly services "fresh" "jwt" (λ v u b. some (text "done"))
services-TakesOnly = record {
  secrets = λ t n. (_, refl);
  update = λ t. refl;
  sign = λ t. refl;
  login = λ t. refl;
  send = λ t r. refl;
}

send_request-recovers_example :
    ((send_request services (some "org1") (some "tokens") a_draft []).0 ≡ ok (some (text "done")))
    × ((other : Services)
        → Costs is_request 2 (send_request other (some "org1") (some "tokens") a_draft)
          × Costs is_login 2 (send_request other (some "org1") (some "tokens") a_draft))
send_request-recovers_example =
    send_request-recovers services "fresh" "jwt" (λ v u b. some (text "done")) (some "org1")
      (some "tokens") a_draft [] services-TakesOnly refl refl

abbrev some_configs : Configs
some_configs = record {
  call_center_api_name = some "cc";
  base_url = none;
  auth_endpoint = none;
  consumer_key = none;
  private_key = none;
  audience = none;
  subject = none;
}

get_access_token-stored_example :
    (u : List Call) × (get_access_token services some_configs (some "tokens") true []
      ≡ (ok (some "fresh"), u))
    × (get_access_token services some_configs (some "tokens") false u
        ≡ (ok (some "fresh"), u ++ get_secret "tokens" ∷ []))
get_access_token-stored_example =
    get_access_token-stored services stale some_configs "tokens" "fresh" "jwt" []
      (λ t. refl, λ t n. refl) refl refl (λ u. refl) (λ u. refl)

format_query-last_example :
    format_query (("methodName", "queryRecord") ∷ ("id", "7") ∷ []) (some "{methodName} {id}")
    ≡ ok (some (substitute "{methodName} {id}" (placeholder "id") "7"))
format_query-last_example =
    format_query-last (("methodName", "queryRecord") ∷ []) "id" "7" "{methodName} {id}"

-- The first placeholder is still there.
substitute-run : substitute "{methodName} {id}" (placeholder "id") "7" ≡ "{methodName} 7"
unfolding substitute
substitute-run = refl

substitute_patterns : substitute "a{k}b" (placeholder "k") "$$1$&" ≡ "a$1{k}b"
unfolding substitute
substitute_patterns = refl

-- A number that starts with another digit than 0 and 1 is refused.
phone_checks :
    (is_valid_phone_number "+15550100" ≡ true) × (is_valid_phone_number "25550100" ≡ false)
unfolding is_valid_phone_number matches
phone_checks = (refl, refl)

abbrev an_event : Event
an_event = record {
  parameters = ("methodName", "SFSPhoneCallFlowQuery") ∷ ("Name", "x") ∷ [];
  contact_ids_payload_map = ok [];
  attributes = none;
  customer_address = some "+15550100";
}

entry_point-Screened_example :
    Only (Screened "+15550100") (entry_point services (some "org1") (some "tokens") an_event)
    × ((t : List Call)
        → (j : Json) × ((entry_point services (some "org1") (some "tokens") an_event t).0 ≡ ok j)
          × (member "success" j ≡ some (bool true)))
entry_point-Screened_example = entry_point-Screened services (some "org1") (some "tokens") an_event

method_name_test : get "methodName" (get_s_object_field_values an_event.parameters) ≡ none
unfolding get_s_object_field_values
method_name_test = refl

api_name : format_object_api_name "cASE" ≡ "Case"
unfolding format_object_api_name
api_name = refl
