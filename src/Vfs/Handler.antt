-- ===== src/Vfs/Handler.antt =====
-- invokeVfsIntegrationApi: secretUtils.js, utils.js, vfsIntegrationApi.js and handler.js.
pub mod Requests
pub mod Examples
use service_cloud_voice_lamb.Common.{
  ℕ, String, Bool, true, false, Option, none, some, List, [], ◌∷◌, truthy, text_of, equals,
  ◌or_else◌, if◌then◌else◌, eqb, ◌==◌,
}
use Prim.Native.String.{◌++◌}
use service_cloud_voice_lamb.Common.Object.{Object, get}
use service_cloud_voice_lamb.Common.Effect.{
  Attempt, ok, throw, Result, Action, pure, raise, call, handle, ◌>>=◌,
}
use service_cloud_voice_lamb.Telephony.Calls.{Config, JwtParams}
use service_cloud_voice_lamb.Vfs.Escape.{encode_uri_component}
use service_cloud_voice_lamb.Vfs.Calls.{
  ContactData, Event, Fault, refused, error, Request, Call, secret_value, sign_jwt, send, Services,
  Reply, keep_warm, data_of,
}

abbrev pub as_fault {ℓ} : {A : Type ℓ} → Result A → Attempt Fault A
as_fault (ok a) = ok a
as_fault (throw e) = throw (error e)

unfoldable pub config_of : Object String → Config
config_of secret =
    let name = get "CALL_CENTER_API_NAME" secret in
    record {
      audience = "https://scrt.salesforce.com";
      org_id = get "SALESFORCE_ORG_ID" secret;
      scrt_endpoint_base = get "SCRT_ENDPOINT_BASE" secret;
      call_center_api_name = name;
      private_key = get (text_of name ++ "-scrt-jwt-auth-private-key") secret;
      token_valid_for = "5m";
    }

unfoldable pub jwt_params : Config → JwtParams
jwt_params c = record {
  org_id = c.org_id;
  call_center_api_name = c.call_center_api_name;
  expires_in = c.token_valid_for;
  private_key = c.private_key;
}

-- A status of 404 is an answer, and any other error is replaced.
unfoldable pub drop_error : Fault → Action Fault Call (Object String)
drop_error (refused status) =
    if eqb status 404
    then pure (("recordingUrl", "Not found") ∷ [])
    else raise (error "Error getting voicemail drop")
drop_error (error message) = raise (error "Error getting voicemail drop")

unfoldable pub drop_url : Option String → String
drop_url contact = "/voiceCalls/" ++ (text_of contact ++ "/voicemailDrop")

unfoldable pub number_url : String → String
number_url agent =
    "/voiceCalls/defaultOutboundPhoneNumber?externalRepId=" ++ encode_uri_component agent

unfoldable pub greeting_url : String → String
greeting_url phone = "/voiceCalls/voicemailGreeting?toPhoneNumber=" ++ encode_uri_component phone

abbrev pub attribute_of : String → Option ContactData → Option String
attribute_of key none = none
attribute_of key (some d) = elim d.attributes [ none ↦ none | some o ↦ get key o ]

abbrev pub field_of : String → Option (Object String) → Option String
field_of key none = none
field_of key (some o) = get key o

unfoldable pub secret_from_attributes : Event → Option String
secret_from_attributes e =
    attribute_of "secretName" e.contact_data or_else field_of "secretName" e.field_values

unfoldable pub phone_of : Option ContactData → Option String
phone_of none = none
phone_of (some d) = d.system_address

abbrev pub initial_contact : Option ContactData → Action Fault Call (Option String)
initial_contact none = raise (error "TypeError")
initial_contact (some d) = pure d.initial_contact_id

-- `contactId || event.Details.ContactData.InitialContactId`
unfoldable pub contact_of : Event → Action Fault Call (Option String)
contact_of e =
    if truthy (get "contactId" e.values)
    then pure (get "contactId" e.values)
    else initial_contact e.contact_data

module _ (svc : Services) where
  unfoldable pub read_secret : Option String → Action Fault Call (Object String)
  read_secret name =
      if truthy name
      then call (secret_value (text_of name)) (λ t. as_fault (svc.secret_value t (text_of name)))
      else raise (error "Secret name is required")

  unfoldable pub get_secret_configs : Option String → Action Fault Call Config
  get_secret_configs name = do secret ← read_secret name; pure (config_of secret)

  unfoldable pub generate_jwt : Config → Action Fault Call String
  generate_jwt c = call (sign_jwt (jwt_params c)) (λ t. as_fault (svc.sign_jwt t))

  -- The request that all methods make.
  unfoldable pub request : Config → String → String → Action Fault Call (Object String)
  request c jwt url =
      let r : Request = record { base_url = c.scrt_endpoint_base; jwt = jwt; url = url } in
      call (send r) (λ t. svc.send t r)

  unfoldable pub get_voicemail_drop : Option String → Config → Action Fault Call (Object String)
  get_voicemail_drop contact c = do
    jwt ← generate_jwt c
    handle (request c jwt (drop_url contact)) drop_error

  unfoldable pub get_default_outbound_phone_number :
      String → Config → Action Fault Call (Object String)
  get_default_outbound_phone_number agent c = do
    jwt ← generate_jwt c
    handle (request c jwt (number_url agent))
        (λ err. raise (error "Error getting default outbound phone number"))

  unfoldable pub get_voicemail_greeting : String → Config → Action Fault Call (Object String)
  get_voicemail_greeting phone c = do
    jwt ← generate_jwt c
    handle (request c jwt (greeting_url phone))
        (λ err. raise (error "Error getting voicemail greeting"))

  -- The `switch`.
  unfoldable pub dispatch : Event → Option String → Config → Action Fault Call (Object String)
  dispatch e contact c =
      let method = get "methodName" e.values in
      if equals method "getVoicemailDrop"
      then get_voicemail_drop contact c
      else if equals method "getDefaultOutboundPhoneNumber"
      then if truthy (get "agentARN" e.values)
        then get_default_outbound_phone_number (text_of (get "agentARN" e.values)) c
        else raise (error "agentARN is required for getDefaultOutboundPhoneNumber")
      else if equals method "getVoicemailGreeting"
      then if truthy (phone_of e.contact_data)
        then get_voicemail_greeting (text_of (phone_of e.contact_data)) c
        else raise (error "toPhoneNumber is required for getVoicemailGreeting")
      else raise (error ("Unsupported method: " ++ text_of method))

  unfoldable pub resolved_secret : Event → Option String
  resolved_secret e = secret_from_attributes e or_else svc.secret_name

  unfoldable pub serve : Event → Option String → Action Fault Call Reply
  serve e contact = do
    c ← get_secret_configs (resolved_secret e)
    found ← dispatch e contact c
    pure (data_of found)

  unfoldable pub handler : Event → Action Fault Call Reply
  handler e = if equals e.detail_type "Scheduled Event" then pure keep_warm else do
    contact ← contact_of e
    if truthy (resolved_secret e)
        then serve e contact
        else raise (
            error "Secret name not provided in call attributes or SECRET_NAME environment variable")
