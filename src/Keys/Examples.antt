-- ===== src/Keys/Examples.antt =====
-- Runs of authKeysSSMUtil, and its property at a concrete secret.
use service_cloud_voice_lamb.Common.{
  ◌≡◌, refl, String, true, none, some, List, [], ◌∷◌, ◌==◌, if◌then◌else◌,
}
use service_cloud_voice_lamb.Common.Object.{Object, get}
use service_cloud_voice_lamb.Common.Effect.{ok, throw, ◌>>=◌}
use service_cloud_voice_lamb.Telephony.Secrets.{config_of}
use service_cloud_voice_lamb.Keys.Calls.{
  Details, Parsed, null, object, secret_string, Pems, Call, Services,
}
use service_cloud_voice_lamb.Keys.Secrets.{read_secret, parse_secret}
use service_cloud_voice_lamb.Keys.Handler.{
  handler, perform, request_of, update_secret_parameter, set_property,
}
use service_cloud_voice_lamb.Keys.Stored.{
  secret_after, pair_event, private_key_param, with_private_key, handler-config_of,
}

abbrev center : Object String
center = ("CALL_CENTER_API_NAME", "cc") ∷ ("SALESFORCE_ORG_ID", "00D") ∷ []

abbrev pems : Pems
pems = record { private_key = "key"; cert = "certificate" }

abbrev services : (String → Parsed) → Services
services first = record {
  secret_name = some "org";
  generate = λ t c. ok pems;
  get_secret = λ t n. ok (secret_string (ok (secret_after n t (first n))));
  update_secret = λ t. ok tt;
}

abbrev some_details : Details
some_details = record {
  ssm_param_name = none;
  ssm_param_value = none;
  organizational_unit_name = some "unit";
  expires_in = some "365";
}

abbrev consistent_services : Services
consistent_services = services (λ n. object center)

handler-config_of_example :
    (u : List Call) × (p : Object String) × (handler consistent_services
        (pair_event (private_key_param "cc") some_details)
        []
      ≡ (ok (record { success = true; certificate = some "certificate"; message = none }), u))
    × (secret_after "org" u (object center) ≡ object p)
    × (config_of p ≡ with_private_key "key" (config_of center))
    × ((k : String) → get k p ≡ (if private_key_param "cc" == k then some "key" else get k center))
handler-config_of_example =
    handler-config_of consistent_services (λ n. object center) "org" "cc" center some_details pems
      [] (λ t. refl, λ t n. refl) refl refl refl refl (λ u. refl)

-- A secret whose text is `null` has no properties.
null_test : (handler (services (λ n. null)) (pair_event "k" some_details) []).0 ≡ throw "TypeError"
unfolding handler perform request_of update_secret_parameter read_secret parse_secret set_property
    ◌>>=◌
null_test = refl
