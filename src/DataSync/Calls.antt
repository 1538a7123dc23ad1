-- ===== src/DataSync/Calls.antt =====
-- The requests that contactDataSync receives, and what it asks of the services around it. An absent
-- property is `none`; a number of milliseconds that is NaN is `none` too.
use service_cloud_voice_lamb.Common.{ℕ, String, Bool, Option, List}
use service_cloud_voice_lamb.Common.Object.{Object}
use service_cloud_voice_lamb.Common.Effect.{Result}

pub record Item : Type 0 where
  pub contact_id : String
  pub related_records : Option (List String)

pub record Event : Type 0 where
  pub operation : Option String
  pub secret_name : Option String
  pub access_token_secret_name : Option String
  pub payload : Option (List Item)
  pub upload_ids : Option (List String)

-- A time stamp, with the texts of the year, the month and the day that it has for the lambda.
pub record Timestamp : Type 0 where
  pub millis : ℕ
  pub year : String
  pub month : String
  pub day : String

pub record Contact : Type 0 where
  pub has_agent_info : Bool
  pub initiation_timestamp : Option Timestamp

pub record Utterance : Type 0 where
  pub id : Option String
  pub participant_id : Option String
  pub content : Option String
  pub begin_offset_millis : Option ℕ

-- The file of a post-call analysis.
pub record Analysis : Type 0 where
  pub contact_id : String
  pub instance_id : Option String
  pub transcript : Option (List Utterance)

-- An entry of a conversation, without the constants that are the same for all.
pub record Entry : Type 0 where
  pub conversation_id : String
  pub id : Option String
  pub client_sent_timestamp : Option ℕ
  pub message_text : Option String
  pub subject : String
  pub role : Option String
  pub related_records : Option (List String)

-- The invocations of invokeSfRestApi: an upload of conversations, each the list of the entries that
-- its text has behind the header.
pub data Invocation : Type 0 where
  upload : Object (List Entry) → (secret access : Option String) → Invocation
  fetch_status : (upload_ids : String) → (secret access : Option String) → Invocation

pub data Call : Type 0 where
  describe_contact : (contact : String) → (instance : Option String) → Call
  list_objects : (prefix : String) → Call
  get_object : (key : String) → Call
  invoke : Invocation → Call

-- Amazon Connect, S3 and invokeSfRestApi, with the environment variables that the code reads; a number
-- that is not set, or is not one, is `none`. A list of objects is the list of their keys.
pub record Services : Type 0 where
  pub connect_instance_id : Option String
  pub secret_name : Option String
  pub access_token_secret_name : Option String
  pub max_contact_ids : Option ℕ
  pub batch_size : Option ℕ
  pub describe_contact : List Call → Result Contact
  pub list_objects : List Call → Result (List String)
  pub get_object : List Call → Result Analysis
  pub invoke : List Call → Result String
