-- ===== src/ContactEvents/Examples.antt =====
-- Runs of handleContactEvents and multiorgHandleContactEvents, and their properties at concrete
-- events.
use service_cloud_voice_lamb.Common.{◌≡◌, refl, true, false, none, some, [], ◌∷◌}
use service_cloud_voice_lamb.Common.Effect.{ok, throw, handle, ◌>>=◌}
use service_cloud_voice_lamb.Telephony.Calls.{Services as TelephonyServices}
use service_cloud_voice_lamb.ContactEvents.Calls.{Event, invoke, get_cached, secret_value, Services}
use service_cloud_voice_lamb.ContactEvents.Rules.{
  is_disconnected_event_for_abandoned_call, is_routing_criteria_expired_event_for_call,
  multiorg_is_routing_criteria_expired_event_for_call,
}
use service_cloud_voice_lamb.Telephony.Cache.{bucket_of, key_of, split_slash, join_slash}
use service_cloud_voice_lamb.ContactEvents.Single
use service_cloud_voice_lamb.ContactEvents.Multi
use service_cloud_voice_lamb.ContactEvents.Multi.Forwarded.{IsHandedOver, handler-IsHandedOver}

abbrev abandoned_call : Event
abandoned_call = record {
  detail_type = some "Amazon Connect Contact Event";
  detail = some (record {
    contact_id = some "c1";
    initiation_method = some "INBOUND";
    event_type = some "DISCONNECTED";
    has_agent_info = false;
    updated_properties = none;
    routing_criteria = none;
  });
}

-- The first routing step has expired some time ago, and something else is updated.
abbrev later_update : Event
later_update = record {
  detail_type = some "Amazon Connect Contact Event";
  detail = some (record {
    contact_id = some "c1";
    initiation_method = some "INBOUND";
    event_type = some "CONTACT_DATA_UPDATED";
    has_agent_info = false;
    updated_properties = some ("ContactEvaluation" ∷ []);
    routing_criteria = some (record {
      steps = some (record { has_agents_criteria = true; status = some "EXPIRED" } ∷ []);
    });
  });
}

-- The secret of the org cannot be read.
abbrev services : Services
services = record {
  secret_cache_s3 = some "cache/names";
  get_cached = λ t bucket key. ok (some "org2");
  secret_value = λ t name. throw "AccessDenied";
  invoke = λ t. ok tt;
}

abbrev telephony : TelephonyServices
telephony = record {
  secret_name = some "org1";
  secret_cache_s3 = none;
  secret_value = λ t. throw "";
  sign_jwt = λ t. throw "";
  send = λ t r. throw "";
  put_object = λ t. throw "";
  get_object = λ t b k. throw "";
  now = λ t. "";
}

later_update_test : multiorg_is_routing_criteria_expired_event_for_call later_update ≡ ok true
unfolding multiorg_is_routing_criteria_expired_event_for_call
later_update_test = refl

abandoned : is_disconnected_event_for_abandoned_call abandoned_call ≡ true
unfolding is_disconnected_event_for_abandoned_call
abandoned = refl

handler-IsHandedOver_example :
    IsHandedOver services telephony
      (some "c1")
      "cancelOmniFlowExecution"
      []
      (Multi.handler services abandoned_call []).1
unfolding is_disconnected_event_for_abandoned_call
handler-IsHandedOver_example =
    handler-IsHandedOver services telephony abandoned_call "cancelOmniFlowExecution" [] refl

multi_test :
    (Multi.handler services abandoned_call []).1
    ≡ get_cached "cache" "names/c1"
      ∷ secret_value "org2"
      ∷ invoke (Multi.payload (some "c1") "cancelOmniFlowExecution" (some "org2"))
      ∷ []
unfolding Multi.handler Multi.react is_disconnected_event_for_abandoned_call Multi.process_event
    Multi.secret_of_contact Multi.retrieve_from_cache Multi.retrieve_at Multi.read_configs
    Multi.is_valid_contact handle ◌>>=◌ Multi.payload bucket_of key_of split_slash join_slash
multi_test = refl

single_test : (Single.handler services later_update []).1 ≡ []
unfolding Single.handler is_disconnected_event_for_abandoned_call
    is_routing_criteria_expired_event_for_call handle ◌>>=◌
single_test = refl
