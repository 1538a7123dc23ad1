-- ===== src/Telephony/Fields.antt =====
-- What invokeTelephonyIntegrationApi/handler.js reads out of an event, and the field values of a
-- new voice call. Reading a property of an absent object is the error "TypeError".
use service_cloud_voice_lamb.Common.{
  String, Option, none, some, [], ◌∷◌, truthy, ◌or_else◌, if◌then◌else◌, ◌==◌,
}
use service_cloud_voice_lamb.Common.Object.{Object, get, put}
use service_cloud_voice_lamb.Common.Effect.{Exec, pure, ask, raise, ◌>>=◌}
use service_cloud_voice_lamb.Telephony.Calls.{
  Endpoint, ContactData, Event, Config, VoiceCallFields, Call, Services,
}
use service_cloud_voice_lamb.Telephony.Attributes.{get_call_attributes}

-- `o?.key` and `o.key`
abbrev pub field? : String → Option (Object String) → Option String
field? key none = none
field? key (some o) = get key o

abbrev pub attributes_of : Option ContactData → Option (Object String)
attributes_of none = none
attributes_of (some d) = d.attributes

abbrev pub need : {A : Type 0} → Option A → Exec Call A
need none = raise "TypeError"
need (some a) = pure a

-- `contactId || event.Details.ContactData.ContactId`
unfoldable pub contact_of : Event → Exec Call (Option String)
contact_of e =
    if truthy (get "contactId" e.parameters.values)
    then pure (get "contactId" e.parameters.values)
    else (do d ← need e.contact_data; pure d.contact_id)

abbrev pub named_by_event : String → Event → Option String
named_by_event key e =
    field? key (attributes_of e.contact_data) or_else field? key e.parameters.field_values

unfoldable pub get_web_rtc_attribute_value : Option String → Option Endpoint → Option String
get_web_rtc_attribute_value attribute none =
    if truthy attribute then attribute else some "WebRTC_Default"
get_web_rtc_attribute_value attribute (some p) =
    if truthy attribute then attribute else p.address or_else some "WebRTC_Default"

unfoldable pub address_of : Option Endpoint → Exec Call (Option String)
address_of endpoint = do p ← need endpoint; pure p.address

pub record CallType : Type 0 where
  pub to : Option String
  pub from : Option String
  pub call_subtype : String

unfoldable pub web_rtc_type : ContactData → Exec Call CallType
web_rtc_type d = do
  attributes ← need d.attributes
  pure (record {
    to = get_web_rtc_attribute_value (get "WebRTC_To" attributes) d.system_endpoint;
    from = get_web_rtc_attribute_value (get "WebRTC_From" attributes) d.customer_endpoint;
    call_subtype = "WebRTC";
  })

unfoldable pub pstn_type : ContactData → Exec Call CallType
pstn_type d = do
  from ← address_of d.customer_endpoint
  to ← address_of d.system_endpoint
  pure (record { to = to; from = from; call_subtype = "PSTN" })

unfoldable pub get_call_type_specific_attributes : ContactData → Exec Call CallType
get_call_type_specific_attributes d = do
  subtype ← need d.subtype
  if subtype == "connect:WebRTC" then web_rtc_type d else pstn_type d

unfoldable pub get_participant_key : ContactData → String → Exec Call (Option String)
get_participant_key d subtype =
    if subtype == "WebRTC" then pure (some "WebRTC_Default") else address_of d.customer_endpoint

-- A text that is kept only if it is truthy, as `callOrigin` is.
abbrev pub if_truthy : Option String → Option String
if_truthy o = if truthy o then o else none

-- What the branches of the `switch` share.
pub record Context : Type 0 where
  pub event : Event
  pub contact : Option String
  pub config : Config
  pub secret_name : Option String
  pub access_secret_name : Option String

-- The fields of a new voice call, for an inbound call and for a transfer.
unfoldable pub inbound_fields : Services → Context → Exec Call VoiceCallFields
inbound_fields svc x = do
  d ← need x.event.contact_data
  types ← get_call_type_specific_attributes d
  now ← ask svc.now
  attributes ← need d.attributes
  key ← get_participant_key d types.call_subtype
  pure (record {
    call_center_api_name = x.config.call_center_api_name;
    vendor_call_key = x.contact;
    to = types.to;
    from = types.from;
    parent_voice_call_id = none;
    initiation_method = "Inbound";
    start_time = now;
    call_subtype = some types.call_subtype;
    call_attributes = get_call_attributes attributes;
    participants = record { participant_key = key; type = "END_USER" } ∷ [];
    call_origin = if_truthy (field? "callOrigin" d.attributes);
    queue = none;
  })

abbrev queue_of : Option (Option String) → Option String
queue_of none = none
queue_of (some arn) = arn

unfoldable pub transfer_fields : Services → Context → Exec Call VoiceCallFields
transfer_fields svc x = do
  d ← need x.event.contact_data
  to ← address_of d.system_endpoint
  from ← address_of d.customer_endpoint
  now ← ask svc.now
  attributes ← need d.attributes
  pure (record {
    call_center_api_name = x.config.call_center_api_name;
    vendor_call_key = x.contact;
    to = to;
    from = from;
    parent_voice_call_id = d.previous_contact_id;
    initiation_method = "Transfer";
    start_time = now;
    call_subtype = none;
    call_attributes = get_call_attributes attributes;
    participants = record { participant_key = from; type = "END_USER" } ∷ [];
    call_origin = if_truthy (field? "callOrigin" d.attributes);
    queue = queue_of d.queue;
  })

-- `fieldValues.callCenterApiName = configData.callCenterApiName`; JSON leaves out what is absent.
abbrev assign_name : Option String → Object String → Object String
assign_name none o = o
assign_name (some name) o = put "callCenterApiName" name o

unfoldable pub named_fields : Context → Exec Call (Object String)
named_fields x = do
  values ← need x.event.parameters.field_values
  pure (assign_name x.config.call_center_api_name values)

-- The dialed number: the contact's system endpoint, and else the one in the field values.
unfoldable pub system_address : Option ContactData → Option String → Option String
system_address none fallback = fallback
system_address (some d) fallback = elim d.system_endpoint [ none ↦ fallback | some p ↦ p.address ]
