-- ===== src/Telephony/Handler/Names.antt =====
-- Which secret invokeTelephonyIntegrationApi/handler.js reads.
use service_cloud_voice_lamb.Common.{
  ◌≡◌, refl, subst, arith, String, true, false, Option, List, truthy, text_of, equals, ◌or_else◌,
}
use service_cloud_voice_lamb.Common.Object.{get}
use service_cloud_voice_lamb.Common.Effect.{throw, ◌>>=◌}
use service_cloud_voice_lamb.Common.Trace.{Only, Only-pure, Only-bind, only_rules}
use service_cloud_voice_lamb.Telephony.Calls.{Event, Call, secret_value, Services}
use service_cloud_voice_lamb.Telephony.Secrets.{generate_jwt}
use service_cloud_voice_lamb.Telephony.Cache.{store_in_cache, store_at}
use service_cloud_voice_lamb.Telephony.Api.{
  create_voice_call, update_voice_call, execute_omni_flow, send_message, cancel_omni_flow_execution,
  reroute_flow_execution, callback_execution, route_voice_call,
}
use service_cloud_voice_lamb.Telephony.Fields.{
  Context, field?, attributes_of, contact_of, named_by_event,
}
use service_cloud_voice_lamb.Telephony.Handler.{
  Method, create, update, transfer, message, dispatch, remember, serve, Reply, handle_event,
  handler,
}
use service_cloud_voice_lamb.Telephony.Handler.Rules.{
  contact_of-Only, inbound_fields-Only, transfer_fields-Only, named_fields-Only,
  get_secret_configs-Only,
}

-- The name of the secret for an event: that of the attributes of the call, or else that of the field
-- values, or else that of the environment. A name that is empty does not count.
abbrev pub resolved_secret : Services → Event → Option String
resolved_secret svc e =
    field? "secretName" (attributes_of e.contact_data)
    or_else (field? "secretName" e.parameters.field_values or_else svc.secret_name)

or_else_assoc : (a b c : Option String) → ((a or_else b) or_else c) ≡ (a or_else (b or_else c))
or_else_assoc a b c = ground arith

resolved-named :
    (svc : Services) (e : Event)
    → (named_by_event "secretName" e or_else svc.secret_name) ≡ resolved_secret svc e
resolved-named svc e =
    or_else_assoc (field? "secretName" (attributes_of e.contact_data))
      (field? "secretName" e.parameters.field_values) svc.secret_name

-- A secret is read under the resolved name, which is not empty; no other call is restricted.
abbrev pub Named : Option String → Call → Type 0
Named name (secret_value s) = (truthy name ≡ true) × (s ≡ text_of name)
Named name c = Unit

module _ (name : Option String) where
  dispatch-Named :
      (svc : Services) (x : Context) (m : Method) → Only (Named name) (dispatch svc x m)
  unfolding dispatch create_voice_call update_voice_call execute_omni_flow send_message
      cancel_omni_flow_execution reroute_flow_execution callback_execution route_voice_call
      generate_jwt store_in_cache store_at
  dispatch-Named svc x create = search (only_rules, inbound_fields-Only, tt) depth 8
  dispatch-Named svc x update = search (only_rules, named_fields-Only, tt) depth 8
  dispatch-Named svc x transfer = search (only_rules, transfer_fields-Only, tt) depth 8
  dispatch-Named svc x message = search (only_rules, named_fields-Only, tt) depth 8
  dispatch-Named svc x _ = search only_rules depth 8

  remember-Named :
      (svc : Services) (x : Context) (m : Method) (r : Reply)
      → Only (Named name) (remember svc x m r)
  unfolding remember store_in_cache store_at
  remember-Named svc x m r = search (only_rules, tt) depth 8

serve-Named :
    (svc : Services) (e : Event) (contact : Option String)
    → truthy (named_by_event "secretName" e or_else svc.secret_name) ≡ true
    → Only (Named (named_by_event "secretName" e or_else svc.secret_name)) (serve svc e contact)
unfolding serve
serve-Named svc e contact p =
    let name = named_by_event "secretName" e or_else svc.secret_name in
    Only-bind _ _ (get_secret_configs-Only svc _ (p, refl)) λ c.
      Only-bind _ _ (dispatch-Named name svc _ _)
        λ r. Only-bind _ _ (remember-Named name svc _ _ r) λ u. Only-pure _

handler-by_event :
    (svc : Services) (e : Event)
    → Only (Named (named_by_event "secretName" e or_else svc.secret_name)) (handler svc e)
unfolding handler handle_event
handler-by_event svc e = search (only_rules, contact_of-Only, serve-Named)

-- Whatever the services answer, every secret that the lambda reads is the one whose name stands in the
-- call attributes, or else in the field values, or else in the environment; a name that is empty does
-- not count, and none is read under it.
pub handler-Named :
    (svc : Services) (e : Event) → Only (Named (resolved_secret svc e)) (handler svc e)
handler-Named svc e =
    subst (λ name. Only (Named name) (handler svc e)) (resolved-named svc e)
      (handler-by_event svc e)

-- An event that is not a warm-up, that gives a contact as a parameter and for which no secret is
-- named anywhere, is refused with an error before any service is called.
handler-unnamed :
    (svc : Services) (e : Event) (t : List Call)
    → equals e.detail_type "Scheduled Event" ≡ false
    → truthy (get "contactId" e.parameters.values) ≡ true
    → truthy (named_by_event "secretName" e or_else svc.secret_name) ≡ false
    → handler svc e t
      ≡ (throw "Secret name not provided in call attributes or SECRET_NAME environment variable", t)
unfolding handler handle_event contact_of ◌>>=◌
handler-unnamed svc e t p q r = rw (p, q, r) refl
