-- ===== src/ContactEvents/Single.antt =====
-- handleContactEvents/handler.js.
use service_cloud_voice_lamb.Common.{String, Option, none, some, ◌∷◌, if◌then◌else◌}
use service_cloud_voice_lamb.Common.Object.{optional_field}
use service_cloud_voice_lamb.Common.Effect.{Exec, pure, lift, call, ◌>>=◌}
use service_cloud_voice_lamb.Telephony.Calls.{Parameters}
use service_cloud_voice_lamb.ContactEvents.Calls.{Detail, Event, Call, invoke, Services}
use service_cloud_voice_lamb.ContactEvents.Rules.{
  is_disconnected_event_for_abandoned_call, is_routing_criteria_expired_event_for_call,
}

abbrev pub contact_of : Option Detail → Option String
contact_of none = none
contact_of (some d) = d.contact_id

unfoldable pub payload : Option String → String → Parameters
payload contact method_name = record {
  values = ("methodName", method_name) ∷ optional_field "contactId" contact;
  field_values = none;
}

module _ (svc : Services) where
  unfoldable pub process_event : Event → String → Exec Call (Unit {0})
  unfolding payload
  process_event e method_name = call (invoke (payload (contact_of e.detail) method_name)) svc.invoke

  unfoldable pub handler : Event → Exec Call (Unit {0})
  handler e =
      if is_disconnected_event_for_abandoned_call e
      then process_event e "cancelOmniFlowExecution"
      else do
        is_expired ← lift (is_routing_criteria_expired_event_for_call e)
        if is_expired then process_event e "rerouteFlowExecution" else pure tt
