-- ===== src/Vfs/Calls.antt =====
-- The events that invokeVfsIntegrationApi receives, and what it asks of the services around it. An
-- absent property is `none`.
use service_cloud_voice_lamb.Common.{ℕ, String, Option, List}
use service_cloud_voice_lamb.Common.Object.{Object}
use service_cloud_voice_lamb.Common.Effect.{Attempt, Result}
use service_cloud_voice_lamb.Telephony.Calls.{JwtParams}

-- `system_address` is `SystemEndpoint.Address`.
pub record ContactData : Type 0 where
  pub initial_contact_id : Option String
  pub system_address : Option String
  pub attributes : Option (Object String)

-- `values` holds the parameters that are texts, `field_values` the object `fieldValues`.
pub record Event : Type 0 where
  pub detail_type : Option String
  pub values : Object String
  pub field_values : Option (Object String)
  pub contact_data : Option ContactData

-- An error: a response with another status than success, or anything else.
pub data Fault : Type 0 where
  refused : (status : ℕ) → Fault
  error : String → Fault

-- A request, without the headers that are the same for all: the endpoint, the token and the address.
pub record Request : Type 0 where
  pub base_url : Option String
  pub jwt : String
  pub url : String

pub data Call : Type 0 where
  secret_value : String → Call
  sign_jwt : JwtParams → Call
  send : Request → Call

-- AWS Secrets Manager, the JWT library and the Salesforce endpoint, which answers its data, with the
-- environment variable that the code reads.
pub record Services : Type 0 where
  pub secret_name : Option String
  pub secret_value : List Call → String → Result (Object String)
  pub sign_jwt : List Call → Result String
  pub send : List Call → Request → Attempt Fault (Object String)

pub data Reply : Type 0 where
  keep_warm : Reply
  data_of : Object String → Reply
