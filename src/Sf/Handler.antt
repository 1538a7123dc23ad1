-- ===== src/Sf/Handler.antt =====
-- invokeSfRestApi/handler.js, with the functions of utils.js that read the parameters.
pub mod Fields
pub mod Examples
use service_cloud_voice_lamb.Common.{
  ℕ, ◌+◌, ◌-◌, String, Bool, true, false, Option, none, some, List, [], ◌∷◌, truthy, text_of,
  ◌or_else◌, if◌then◌else◌, ◌&&◌, ◌||◌, ◌==◌, eqb,
}
use Prim.Native.Char.{Char, code, char}
use Prim.Native.String
use Prim.Native.String.{◌++◌}
use service_cloud_voice_lamb.Common.Object.{Object, get}
use service_cloud_voice_lamb.Common.Effect.{Attempt, ok, throw, Action, pure, raise, lift, ◌>>=◌}
use service_cloud_voice_lamb.Sf.Json.{Json, null, text, member, is_false}
use service_cloud_voice_lamb.Sf.Calls.{Fault, error, Call, Services, Event}
use service_cloud_voice_lamb.Sf.Api.{
  create_record, update_record, send_realtime_alert_event, upload_transcript,
  fetch_upload_ids_status, search_record,
}
use service_cloud_voice_lamb.Sf.Query.{invoke_query}
use service_cloud_voice_lamb.Sf.Phone.{entry_point}
use service_cloud_voice_lamb.Sf.Numbers.{
  fetch_outbound_phone_number, fetch_default_voicemail_greeting_url, agent_phone_number,
}

-- The letter at the place in the second alphabet that `c` has in the first one.
letter_of : String → String → Char → Char
letter_of String.[] to c = c
letter_of (String.◌∷◌ a from) String.[] c = c
letter_of (String.◌∷◌ a from) (String.◌∷◌ b to) c =
    let rest = letter_of from to c in if eqb (code a) (code c) then b else rest

upper_letters : String
upper_letters = "ABCDEFGHIJKLMNOPQRSTUVWXYZ"

lower_letters : String
lower_letters = "abcdefghijklmnopqrstuvwxyz"

to_lower : String → String
unfolding letter_of upper_letters lower_letters
to_lower String.[] = ""
to_lower (String.◌∷◌ c s) = String.◌∷◌ (letter_of upper_letters lower_letters c) (to_lower s)

-- Names of objects have the letters of ASCII.
unfoldable pub format_object_api_name : String → String
unfolding letter_of upper_letters lower_letters to_lower
format_object_api_name String.[] = ""
format_object_api_name (String.◌∷◌ c s) =
    String.◌∷◌ (letter_of lower_letters upper_letters c) (to_lower s)

-- The properties of an object whose keys are not excluded.
abbrev pub keep_fields : (String → Bool) → Object String → Object String
keep_fields excluded [] = []
keep_fields excluded ((k, v) ∷ o) =
    let rest = keep_fields excluded o in if excluded k then rest else (k, v) ∷ rest

abbrev pub is_non_field : String → Bool
is_non_field k =
    k == "methodName"
    || k == "objectApiName"
    || k == "recordId"
    || k == "secretName"
    || k == "accessTokenSecretName"

unfoldable pub get_s_object_field_values : Object String → Object String
get_s_object_field_values params = keep_fields is_non_field params

unfoldable pub get_realtime_alert_event_field_values : Object String → Object String
get_realtime_alert_event_field_values params =
    keep_fields (λ k. k == "methodName" || k == "secretName" || k == "accessTokenSecretName") params

pub data Method : Type 0 where
  create update query search upload upload_status alert : Method
  phone_call_flow outbound_number agent_number greeting_url unsupported : Method

unfoldable pub method_of : Option String → Method
method_of none = unsupported
method_of (some m) =
    if m == "createRecord"
    then create
    else if m == "updateRecord"
    then update
    else if m == "queryRecord"
    then query
    else if m == "searchRecord"
    then search
    else if m == "uploadTranscript"
    then upload
    else if m == "fetchUploadIdsStatus"
    then upload_status
    else if m == "realtimeAlertEvent"
    then alert
    else if m == "SFSPhoneCallFlowQuery"
    then phone_call_flow
    else if m == "fetchOutboundPhoneNumber"
    then outbound_number
    else if m == "fetchAgentPhoneNumber"
    then agent_number
    else if m == "fetchDefaultVoicemailGreetingUrl"
    then greeting_url
    else unsupported

module _ (svc : Services) where
  -- `new Error(result.errorMessage)`
  abbrev message_text : Option Json → String
  message_text none = ""
  message_text (some (text s)) = s
  message_text (some v) = svc.shown v

  -- The check of the result behind the `switch`.
  unfoldable pub check_result : Option Json → Action Fault Call (Option Json)
  check_result none = raise (error "TypeError")
  check_result (some null) = raise (error "TypeError")
  check_result (some v) =
      if is_false (member "success" v)
      then raise (error (message_text (member "errorMessage" v)))
      else pure (some v)

  -- `formatObjectApiName` of an absent name is a TypeError.
  abbrev named : Option String → Action Fault Call String
  named none = raise (error "TypeError")
  named (some name) = pure (format_object_api_name name)

  unfoldable pub secret_of : Event → Option String
  secret_of e =
      get "secretName" e.parameters
      or_else elim e.attributes [ none ↦ none | some o ↦ get "secretName" o ]
      or_else svc.secret_name

  unfoldable pub access_secret_of : Event → Option String
  access_secret_of e =
      get "accessTokenSecretName" e.parameters
      or_else elim e.attributes [ none ↦ none | some o ↦ get "accessTokenSecretName" o ]
      or_else svc.access_token_secret_name

  unfoldable pub dispatch_query : Event → Action Fault Call (Option Json)
  dispatch_query e = do
    found ←
        invoke_query svc (get "soql" e.parameters) e.parameters (secret_of e) (access_secret_of e)
    pure (some (svc.flatten found))

  unfoldable pub dispatch_search : Event → Action Fault Call (Option Json)
  dispatch_search e = do
    found ← search_record svc (secret_of e) (access_secret_of e) (get "sosl" e.parameters)
    pure (some (svc.flatten found))

  -- The `switch`. The promises of `dispatchQuery` and `dispatchSearch` are not awaited: they have no
  -- property `success`, and are returned.
  unfoldable pub dispatch : Event → Method → Action Fault Call (Option Json)
  dispatch e create = do
    name ← named (get "objectApiName" e.parameters)
    found ←
        create_record svc (secret_of e) (access_secret_of e) name
          (get_s_object_field_values e.parameters)
    check_result found
  dispatch e update = do
    name ← named (get "objectApiName" e.parameters)
    found ←
        update_record svc (secret_of e) (access_secret_of e) name (get "recordId" e.parameters)
          (get_s_object_field_values e.parameters)
    check_result found
  dispatch e query = dispatch_query e
  dispatch e search = dispatch_search e
  dispatch e upload = do
    found ← upload_transcript svc (secret_of e) (access_secret_of e) e.contact_ids_payload_map
    check_result found
  dispatch e upload_status = do
    found ←
        fetch_upload_ids_status svc (secret_of e) (access_secret_of e)
          (get "uploadIds" e.parameters)
    check_result found
  dispatch e alert = do
    found ←
        send_realtime_alert_event svc (secret_of e) (access_secret_of e)
          (get_realtime_alert_event_field_values e.parameters)
    check_result found
  dispatch e phone_call_flow = do
    found ← entry_point svc (secret_of e) (access_secret_of e) e
    check_result (some (svc.flatten (some found)))
  dispatch e outbound_number = do
    found ← fetch_outbound_phone_number svc (secret_of e) (access_secret_of e) e
    check_result (some found)
  dispatch e agent_number = check_result (some agent_phone_number)
  dispatch e greeting_url = do
    found ← fetch_default_voicemail_greeting_url svc (secret_of e) (access_secret_of e) e
    check_result (some found)
  dispatch e unsupported =
      raise (error ("Unsupported method: " ++ text_of (get "methodName" e.parameters)))

  unfoldable pub handler : Event → Action Fault Call (Option Json)
  handler e = dispatch e (method_of (get "methodName" e.parameters))
