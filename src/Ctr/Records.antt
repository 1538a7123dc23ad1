-- ===== src/Ctr/Records.antt =====
-- The contact records that ctrDataSync receives, and the updates that it sends. An absent property
-- is `none`; the attributes of an update are kept as the object that the code makes a text of.
use service_cloud_voice_lamb.Common.{String, Bool, Option, List, ℕ}
use service_cloud_voice_lamb.Common.Object.{Object}
use service_cloud_voice_lamb.Common.Effect.{Result}

pub record Endpoint : Type 0 where
  pub address : Option String

pub record Agent : Type 0 where
  pub connected_to_agent_timestamp : Option String
  pub customer_hold_duration : Option ℕ
  pub longest_hold_duration : Option ℕ
  pub agent_interaction_duration : Option ℕ
  pub number_of_holds : Option ℕ

pub record Queue : Type 0 where
  pub enqueue_timestamp : Option String
  pub name : Option String

-- `recordings` is whether there is a property `Recordings`; `recording` is `Recording.Location`.
pub record Ctr : Type 0 where
  pub contact_id : Option String
  pub channel : Option String
  pub initiation_method : Option String
  pub initiation_timestamp : Option String
  pub disconnect_timestamp : Option String
  pub previous_contact_id : Option String
  pub disconnect_reason : Option String
  pub attributes : Option (Object String)
  pub recordings : Bool
  pub agent : Option Agent
  pub queue : Option Queue
  pub system_endpoint : Option Endpoint
  pub customer_endpoint : Option Endpoint
  pub recording : Option String

pub record DisconnectReason : Type 0 where
  pub value : String
  pub is_error : Bool

pub record VoiceCall : Type 0 where
  pub start_time : Option String
  pub end_time : Option String
  pub parent_call_identifier : Option String
  pub disconnect_reason : DisconnectReason
  pub secret_name : Option String
  pub accept_time : Option String
  pub total_hold_duration : Option ℕ
  pub longest_hold_duration : Option ℕ
  pub agent_interaction_duration : Option ℕ
  pub number_of_holds : Option ℕ
  pub enqueue_time : Option String
  pub queue : Option String
  pub initiation_method : Option String
  pub from_number : Option String
  pub to_number : Option String
  pub call_sub_type : Option String
  pub recording_location : Option String
  pub call_attributes : Option (Object String)

pub record Update : Type 0 where
  pub contact_id : Option String
  pub fields : VoiceCall

-- The one call of a service: the invocation of invokeTelephonyIntegrationApi.
pub data Call : Type 0 where
  update_voice_call : Update → Call

pub record Services : Type 0 where
  pub invoke : List Call → Result String
