-- ===== src/Telephony/Handler/Examples.antt =====
-- Runs of invokeTelephonyIntegrationApi, and the properties at concrete events.
use service_cloud_voice_lamb.Common.{
  ◌≡◌, ◌≢◌, refl, String, Option, none, some, List, [], ◌∷◌, arith, eq_iff,
}
use service_cloud_voice_lamb.Common.Effect.{ok, ◌>>◌, ◌>>=◌}
use service_cloud_voice_lamb.Common.Trace.{Only}
use service_cloud_voice_lamb.Common.Cost.{Costs}
use service_cloud_voice_lamb.Telephony.Calls.{
  post, Endpoint, ContactData, Event, CacheData, Call, secret_value, send, put_object, Services,
}
use service_cloud_voice_lamb.Telephony.Cache.{
  store_in_cache, store_at, bucket_of, key_of, split_slash, join_slash, retrieve_from_cache,
}
use service_cloud_voice_lamb.Telephony.Secrets.{
  get_secret_configs, read_secret, config_of, jwt_params, generate_jwt,
}
use service_cloud_voice_lamb.Telephony.Api.{create_voice_call}
use service_cloud_voice_lamb.Telephony.Cache.RoundTrip.{
  last_put, found, IsConsistent, retrieve-store,
}
use service_cloud_voice_lamb.Telephony.Fields.{
  contact_of, inbound_fields, get_call_type_specific_attributes, pstn_type, address_of,
  get_participant_key,
}
use service_cloud_voice_lamb.Telephony.Handler.{
  handler, handle_event, serve, dispatch, remember, creates, method_of,
}
use service_cloud_voice_lamb.Telephony.Handler.Dispatch.{Asks, is_send}
use service_cloud_voice_lamb.Telephony.Handler.Requests.{handler-Asks}
use service_cloud_voice_lamb.Telephony.Handler.Names.{Named, handler-Named}
use service_cloud_voice_lamb.Telephony.Handler.Caching.{Stores, handler-Stores}

abbrev a_phone : Option Endpoint
a_phone = some (record { address = some "+15550100" })

abbrev a_contact : ContactData
a_contact = record {
  contact_id = some "c1";
  previous_contact_id = none;
  attributes = some (("secretName", "org2") ∷ ("sfdc-tier", "gold") ∷ []);
  subtype = some "connect:Telephony";
  customer_endpoint = a_phone;
  system_endpoint = a_phone;
  queue = none;
}

abbrev a_call : Event
a_call = record {
  detail_type = none;
  parameters = record { values = ("methodName", "createVoiceCall") ∷ []; field_values = none };
  contact_data = some a_contact;
}

abbrev services : Services
services = record {
  secret_name = none;
  secret_cache_s3 = some "bucket/secrets";
  secret_value = λ t. ok (("SCRT_ENDPOINT_BASE", "https://scrt") ∷ []);
  sign_jwt = λ t. ok "token";
  send = λ t r. ok (("voiceCallId", "vc1") ∷ []);
  put_object = λ t. ok tt;
  get_object = λ t b k. found (last_put b k t none);
  now = λ t. "2024-01-01T00:00:00Z";
}

abbrev paths : List Call → List String
paths [] = []
paths (send endpoint token r ∷ t) = r.path ∷ paths t
paths (put_object bucket key cached ∷ t) = bucket ∷ key ∷ paths t
paths (secret_value name ∷ t) = name ∷ paths t
paths (c ∷ t) = paths t

-- The secret is read, the call created, and the cache entry stored.
a_run : paths (handler services a_call []).1 ≡ "org2" ∷ "/voiceCalls" ∷ "bucket" ∷ "secrets/c1" ∷ []
unfolding handler handle_event ◌>>=◌ contact_of serve get_secret_configs read_secret dispatch
    method_of inbound_fields get_call_type_specific_attributes pstn_type address_of
    get_participant_key create_voice_call generate_jwt remember creates store_in_cache store_at
    bucket_of key_of split_slash join_slash config_of jwt_params
a_run = refl

handler-Asks_example :
    Only (Asks (some (post, "/voiceCalls"))) (handler services a_call)
    × Costs is_send 1 (handler services a_call)
handler-Asks_example = handler-Asks services a_call

handler-Named_example : Only (Named (some "org2")) (handler services a_call)
handler-Named_example = handler-Named services a_call

handler-Stores_example :
    Only
      (Stores services (method_of (some "createVoiceCall")) (some "c1") (some "org2"))
      (handler services a_call)
handler-Stores_example = handler-Stores services a_call

abbrev entry : String → CacheData
entry contact = record {
  contact_id = some contact;
  secret_name = some "org2";
  timestamp = "";
  access_secret_name = none;
  voice_call_id = none;
}

services-IsConsistent : IsConsistent services
services-IsConsistent = (λ t. refl, λ t b k. refl)

c1-ne-c2 : ◌≢◌ {A = String} "c1" "c2"
c1-ne-c2 p = ground (arith, eq_iff "c1" "c2", p)

retrieve-store_example :
    ((store_in_cache services (some "c1") (entry "c1")
        >> store_in_cache services (some "c2") (entry "c2")
        >> retrieve_from_cache services (some "c1"))
      []).0
    ≡ ok (some (entry "c1"))
retrieve-store_example =
    retrieve-store services "c1" "c2" (entry "c1") (entry "c2") [] services-IsConsistent refl
      c1-ne-c2
