-- ===== src/Ctr/Sync/Examples.antt =====
-- The updates of ctrDataSync for a concrete batch.
use service_cloud_voice_lamb.Common.{
  ◌≡◌, refl, String, true, Option, none, some, List, [], ◌∷◌, ◌++◌, All,
}
use service_cloud_voice_lamb.Common.Effect.{ok, throw}
use service_cloud_voice_lamb.Common.Object.{Object, get, put-IsUnique, IsUnique}
use service_cloud_voice_lamb.Ctr.Records.{Ctr, Call, update_voice_call, Services}
use service_cloud_voice_lamb.Ctr.Attributes.{get_call_attributes, copy_from, filters-get}
use service_cloud_voice_lamb.Telephony.Attributes.{
  get_call_attributes as filtered, construct_flow_input_params,
}
use service_cloud_voice_lamb.Ctr.Transform.{
  numbers_of, web_rtc_numbers, voice_call_of, transform_ctr,
}
use service_cloud_voice_lamb.Ctr.Sync.{should_process_ctr, handler}
use service_cloud_voice_lamb.Ctr.Sync.Updates.{updates}
use service_cloud_voice_lamb.Ctr.Sync.Served.{Shown, Served, handler-Served}
use service_cloud_voice_lamb.Telephony.Calls as Telephony

abbrev a_record : String → Option (Object String) → Ctr
a_record method attributes = record {
  contact_id = some "c1";
  channel = some "VOICE";
  initiation_method = some method;
  initiation_timestamp = some "1";
  disconnect_timestamp = some "2";
  previous_contact_id = none;
  disconnect_reason = none;
  attributes = attributes;
  recordings = true;
  agent = none;
  queue = none;
  system_endpoint = some (record { address = some "+15550199" });
  customer_endpoint = some (record { address = some "+15550100" });
  recording = none;
}

-- A synchronised call, a voicemail, and a call that cannot be translated.
abbrev batch : List Ctr
batch =
    a_record "OUTBOUND" none
    ∷ a_record "INBOUND" (some (("vm_flag", "1") ∷ []))
    ∷ a_record "WEBRTC_API" none
    ∷ []

abbrev services : Services
services = record { invoke = λ t. throw "TooManyRequestsException" }

abbrev contacts : List Call → List (Option String)
contacts [] = []
contacts (update_voice_call u ∷ t) = u.fields.to_number ∷ contacts t

batch-run : contacts (updates batch) ≡ some "+15550100" ∷ []
unfolding should_process_ctr transform_ctr numbers_of web_rtc_numbers voice_call_of
batch-run = refl

abbrev shown : Shown
shown = record { number = λ n. "1"; reason = λ r. r.value; attributes = λ o. "{}" }

abbrev telephony : Telephony.Services
telephony = record {
  secret_name = some "org1";
  secret_cache_s3 = none;
  secret_value = λ t. ok [];
  sign_jwt = λ t. ok "token";
  send = λ t r. ok [];
  put_object = λ t. ok tt;
  get_object = λ t b k. throw "NoSuchKey";
  now = λ t. "2024-01-01T00:00:00Z";
}

handler-Served_example :
    ((handler services batch []).1 ≡ [] ++ updates batch)
    × All (Served telephony shown) (updates batch)
handler-Served_example = handler-Served services telephony shown batch []

abbrev some_attributes : Object String
some_attributes = ("sfdc-tier", "gold") ∷ ("sf_realtime_transcription_status", "E1") ∷ []

some_attributes-IsUnique : IsUnique some_attributes
some_attributes-IsUnique =
    put-IsUnique {V = String} "sf_realtime_transcription_status" "E1" (("sfdc-tier", "gold") ∷ [])
      (put-IsUnique {V = String} "sfdc-tier" "gold" [] (λ k. refl))

filters-get_example :
    (get "tier" (filtered some_attributes) ≡ some "gold")
    × (get "tier" (construct_flow_input_params some_attributes) ≡ none)
    × (get "tier" (get_call_attributes some_attributes) ≡ get "tier" (filtered some_attributes))
filters-get_example = filters-get some_attributes "tier" some_attributes-IsUnique

-- The status is there beside the attributes with the prefix.
status_kept :
    get_call_attributes some_attributes
    ≡ ("tier", "gold") ∷ ("sf_realtime_transcription_status", "E1") ∷ []
unfolding get_call_attributes copy_from
status_kept = refl
