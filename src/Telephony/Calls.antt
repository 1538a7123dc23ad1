-- ===== src/Telephony/Calls.antt =====
-- The events that the invokeTelephonyIntegrationApi lambda receives, and what it asks of the
-- services around it. An absent property is `none`; values of attributes and of field values are
-- texts; a JSON text that the code builds is kept as the object that it is the text of.
use service_cloud_voice_lamb.Common.{String, Option, List}
use service_cloud_voice_lamb.Common.Object.{Object}
use service_cloud_voice_lamb.Common.Effect.{Result}

pub record Endpoint : Type 0 where
  pub address : Option String

-- `subtype` is `SegmentAttributes['connect:Subtype'].ValueString`; `queue` is `Queue`, which has
-- an `ARN`.
pub record ContactData : Type 0 where
  pub contact_id : Option String
  pub previous_contact_id : Option String
  pub attributes : Option (Object String)
  pub subtype : Option String
  pub customer_endpoint : Option Endpoint
  pub system_endpoint : Option Endpoint
  pub queue : Option (Option String)

-- `values` holds the parameters that are texts, `field_values` the object `fieldValues`.
pub record Parameters : Type 0 where
  pub values : Object String
  pub field_values : Option (Object String)

pub record Event : Type 0 where
  pub detail_type : Option String
  pub parameters : Parameters
  pub contact_data : Option ContactData

pub record Config : Type 0 where
  pub audience : String
  pub org_id : Option String
  pub scrt_endpoint_base : Option String
  pub call_center_api_name : Option String
  pub private_key : Option String
  pub token_valid_for : String

pub record JwtParams : Type 0 where
  pub org_id : Option String
  pub call_center_api_name : Option String
  pub expires_in : String
  pub private_key : Option String

pub record Participant : Type 0 where
  pub participant_key : Option String
  pub type : String

pub record VoiceCallFields : Type 0 where
  pub call_center_api_name : Option String
  pub vendor_call_key : Option String
  pub to : Option String
  pub from : Option String
  pub parent_voice_call_id : Option String
  pub initiation_method : String
  pub start_time : String
  pub call_subtype : Option String
  pub call_attributes : Object String
  pub participants : List Participant
  pub call_origin : Option String
  pub queue : Option String

pub record OmniFlowPayload : Type 0 where
  pub flow_dev_name : Option String
  pub fallback_queue : Option String
  pub transfer_target : Option String
  pub dialed_number : Option String
  pub flow_input_parameters : Object String

pub record CallbackPayload : Type 0 where
  pub callback_number : Option String
  pub scheduled_routing_date_time : Option String

pub record RoutePayload : Type 0 where
  pub routing_target : Option String
  pub fallback_queue : Option String
  pub flow_input_parameters : Object String

pub data Body : Type 0 where
  empty : Body
  voice_call : VoiceCallFields → Body
  fields : Object String → Body
  omni_flow : OmniFlowPayload → Body
  callback : CallbackPayload → Body
  route : RoutePayload → Body

pub data Verb : Type 0 where
  post patch : Verb

pub data ProviderHeader : Type 0 where
  with_provider without_provider : ProviderHeader

-- A request: its path under the endpoint, and whether it names the telephony provider.
pub record Request : Type 0 where
  pub verb : Verb
  pub path : String
  pub body : Body
  pub provider : ProviderHeader

pub record CacheData : Type 0 where
  pub contact_id : Option String
  pub secret_name : Option String
  pub timestamp : String
  pub access_secret_name : Option String
  pub voice_call_id : Option String

pub data Call : Type 0 where
  secret_value : String → Call
  sign_jwt : JwtParams → Call
  send : (endpoint : Option String) (jwt : String) → Request → Call
  put_object : (bucket key : String) → CacheData → Call
  get_object : (bucket key : String) → Call

-- AWS Secrets Manager, the JWT library, the Salesforce endpoint, S3 and the clock, with the two
-- environment variables that the code reads.
pub record Services : Type 0 where
  pub secret_name : Option String
  pub secret_cache_s3 : Option String
  pub secret_value : List Call → Result (Object String)
  pub sign_jwt : List Call → Result String
  pub send : List Call → Request → Result (Object String)
  pub put_object : List Call → Result (Unit {0})
  pub get_object : List Call → String → String → Result CacheData
  pub now : List Call → String
