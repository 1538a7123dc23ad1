-- ===== src/Telephony/Handler.antt =====
-- invokeTelephonyIntegrationApi/handler.js. Logging is left out.
pub mod Rules
pub mod Names
pub mod Dispatch
pub mod Requests
pub mod Caching
pub mod Examples
use service_cloud_voice_lamb.Common.{
  ℕ, String, Bool, true, false, Option, none, some, List, [], ◌∷◌, ◌&&◌, truthy, text_of, equals,
  ◌or_else◌, if◌then◌else◌, ◌==◌,
}
use Prim.Native.String.{◌++◌ as ◌<>◌}
use service_cloud_voice_lamb.Common.Object.{Object, get}
use service_cloud_voice_lamb.Common.Effect.{Result, ok, Exec, pure, ask, raise, ◌>>=◌, ◌>>◌}
use service_cloud_voice_lamb.Telephony.Calls.{Event, CacheData, Call, Services}
use service_cloud_voice_lamb.Telephony.Attributes.{construct_flow_input_params}
use service_cloud_voice_lamb.Telephony.Secrets.{jwt_params, generate_jwt, get_secret_configs}
use service_cloud_voice_lamb.Telephony.Cache.{store_in_cache}
use service_cloud_voice_lamb.Telephony.Fields.{
  Context, field?, if_truthy, contact_of, named_by_event, inbound_fields, transfer_fields,
  named_fields, system_address,
}
use service_cloud_voice_lamb.Telephony.Api.{
  create_voice_call, update_voice_call, execute_omni_flow, send_message, cancel_omni_flow_execution,
  reroute_flow_execution, callback_execution, route_voice_call,
}

pub data Method : Type 0 where
  create update transfer omni cancel reroute message callback route cache jwt unsupported : Method

-- The cases of the `switch`.
unfoldable pub method_of : Option String → Method
method_of none = unsupported
method_of (some m) =
    if m == "createVoiceCall"
    then create
    else if m == "updateVoiceCall"
    then update
    else if m == "createTransferVC"
    then transfer
    else if m == "executeOmniFlow"
    then omni
    else if m == "cancelOmniFlowExecution"
    then cancel
    else if m == "rerouteFlowExecution"
    then reroute
    else if m == "sendMessage"
    then message
    else if m == "callbackExecution"
    then callback
    else if m == "routeVoiceCall"
    then route
    else if m == "updateCache"
    then cache
    else if m == "getJwtToken"
    then jwt
    else unsupported

-- What the lambda answers: the data of the API, or an object with a status of its own.
pub data Reply : Type 0 where
  data_of : Object String → Reply
  status : (code : ℕ) (text : String) → Object String → Reply

abbrev data_reply : Exec Call (Object String) → Exec Call Reply
data_reply m = do o ← m; pure (data_of o)

-- The contact in an answer; JSON leaves it out if it is absent.
abbrev of_contact : Option String → Object String
of_contact none = []
of_contact (some c) = ("contactId", c) ∷ []

abbrev cache_reply : Option String → Bool → Reply
cache_reply contact true = status 200 "Cache updated successfully" (of_contact contact)
cache_reply contact false = status 500 "Failed to update cache" (of_contact contact)

-- The `switch`.
unfoldable pub dispatch : Services → Context → Method → Exec Call Reply
dispatch svc x create = do
  values ← inbound_fields svc x
  data_reply (create_voice_call svc values x.config)
dispatch svc x update = do
  values ← named_fields x
  data_reply (update_voice_call svc x.contact values x.config)
dispatch svc x transfer = do
  values ← transfer_fields svc x
  data_reply (create_voice_call svc values x.config)
dispatch svc x omni = data_reply (
    execute_omni_flow svc x.contact
      (record {
        flow_dev_name = get "flowDevName" x.event.parameters.values;
        fallback_queue = get "fallbackQueue" x.event.parameters.values;
        transfer_target = get "transferTarget" x.event.parameters.values;
        dialed_number =
            system_address x.event.contact_data
              (field? "dialedNumber" x.event.parameters.field_values);
        flow_input_parameters = construct_flow_input_params x.event.parameters.values;
      })
      x.config)
dispatch svc x cancel = data_reply (cancel_omni_flow_execution svc x.contact x.config)
dispatch svc x reroute = data_reply (reroute_flow_execution svc x.contact x.config)
dispatch svc x message = do
  values ← named_fields x
  data_reply (send_message svc x.contact values x.config)
dispatch svc x callback = data_reply (
    callback_execution svc x.contact
      (record {
        callback_number = get "customerCallbackNumber" x.event.parameters.values;
        scheduled_routing_date_time = get "scheduledRoutingDateTime" x.event.parameters.values;
      })
      x.config)
dispatch svc x route = data_reply (
    route_voice_call svc x.contact
      (record {
        routing_target = get "routingTarget" x.event.parameters.values;
        fallback_queue = get "fallbackQueue" x.event.parameters.values;
        flow_input_parameters = construct_flow_input_params x.event.parameters.values;
      })
      x.config)
dispatch svc x cache = do
  now ← ask svc.now
  updated ← store_in_cache svc x.contact (record {
    contact_id = x.contact;
    secret_name = x.secret_name;
    timestamp = now;
    access_secret_name = none;
    voice_call_id = none;
  })
  pure (cache_reply x.contact updated)
dispatch svc x jwt = do
  token ← generate_jwt svc (jwt_params x.config)
  pure (status 200 "JWT token generated successfully" (("token", token) ∷ []))
dispatch svc x unsupported =
    raise ("Unsupported method: " <> text_of (get "methodName" x.event.parameters.values))

-- `result.voiceCallId`
voice_call_id_of : Reply → Option String
voice_call_id_of (data_of o) = get "voiceCallId" o
voice_call_id_of (status code text o) = none

unfoldable pub creates : Method → Bool
creates create = true
creates transfer = true
creates _ = false

-- The mapping of the contact is stored after a voice call is created, if the event named a secret.
unfoldable pub remember : Services → Context → Method → Reply → Exec Call (Unit {0})
unfolding voice_call_id_of
remember svc x method reply =
    if truthy x.secret_name && creates method
    then (do
      now ← ask svc.now
      store_in_cache svc x.contact (record {
        contact_id = x.contact;
        secret_name = x.secret_name;
        timestamp = now;
        access_secret_name = x.access_secret_name;
        voice_call_id = voice_call_id_of reply;
      })
      pure tt)
    else pure tt

-- From the point where the configuration is read.
unfoldable pub serve : Services → Event → Option String → Exec Call Reply
serve svc e contact = do
  c ← get_secret_configs svc (named_by_event "secretName" e or_else svc.secret_name)
  let x : Context = record {
    event = e;
    contact = contact;
    config = c;
    secret_name = if_truthy (named_by_event "secretName" e);
    access_secret_name = if_truthy (named_by_event "accessSecretName" e);
  }
  reply ← dispatch svc x (method_of (get "methodName" e.parameters.values))
  remember svc x (method_of (get "methodName" e.parameters.values)) reply
  pure reply

no_secret : String
no_secret = "Secret name not provided in call attributes or SECRET_NAME environment variable"

unfoldable pub handle_event : Services → Event → Exec Call Reply
unfolding no_secret
handle_event svc e = do
  contact ← contact_of e
  if truthy (named_by_event "secretName" e or_else svc.secret_name)
      then serve svc e contact
      else raise no_secret

unfoldable pub handler : Services → Event → Exec Call Reply
handler svc e =
    if equals e.detail_type "Scheduled Event"
    then pure (status 200 "Keep Lambda Warm" [])
    else handle_event svc e
