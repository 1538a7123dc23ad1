-- ===== src/ContactLens/Calls.antt =====
-- What the contactLensProcessor lambda asks of the services around it, and what they answer.
-- A response of the bulk endpoint is what axios returns after its own retries of HTTP 429.
use Prim.Native.Nat.{ℕ}
use service_cloud_voice_lamb.Common.{String, Bool, Option, List}
use service_cloud_voice_lamb.Common.Int.{ℤ}
use service_cloud_voice_lamb.Common.Object.{Object}
use service_cloud_voice_lamb.Common.Effect.{Result}

-- One transcript message, as `buildSendMessagePayload` builds it; times in milliseconds.
pub record Message : Type 0 where
  pub message_id : String
  pub start_time : ℤ
  pub end_time : ℤ
  pub content : String
  pub participant_id : String
  pub sender_type : String

-- An entry of a bulk request: the messages of one contact.
pub record Entry : Type 0 where
  pub vendor_call_key : String
  pub messages : List Message

-- A per-entry error of a response with HTTP status 207.
pub record ErrorEntry : Type 0 where
  pub message : Option String
  pub vendor_call_key : String

-- `errors` is `data?.errorResponse?.errorResponseEntries`, `none` if that is no array.
pub record Response : Type 0 where
  pub status : ℕ
  pub errors : Option (List ErrorEntry)

-- An event of the realtimeConversationEvents request.
pub record RealtimeEvent : Type 0 where
  pub type : String
  pub value : String
  pub start_time : ℕ
  pub details : Option String

pub record EventsPayload : Type 0 where
  pub service : String
  pub events : List RealtimeEvent
  pub persist : Bool

-- The configuration that `getSecretConfigs` reads out of a secret.
pub record SecretData : Type 0 where
  pub audience : String
  pub org_id : Option String
  pub scrt_endpoint_base : Option String
  pub call_center_api_name : Option String
  pub private_key : Option String
  pub token_valid_for : String

pub record JwtParams : Type 0 where
  pub org_id : Option String
  pub call_center_api_name : Option String
  pub expires_in : String
  pub private_key : Option String

-- A Kinesis record of Contact Lens, decoded. An arrival time is in seconds, an offset in
-- milliseconds; a point of interest is its JSON text.
pub record Utterance : Type 0 where
  pub id : String
  pub begin_offset : ℕ
  pub end_offset : ℕ
  pub partial_content : String
  pub participant_role : String

pub record Categories : Type 0 where
  pub matched_categories : List String
  pub matched_details : Object (Option (List String))

pub record Segment : Type 0 where
  pub utterance : Option Utterance
  pub categories : Option Categories

pub record Payload : Type 0 where
  pub event_type : Option String
  pub contact_id : String
  pub segments : Option (List Segment)

pub record KinesisRecord : Type 0 where
  pub secret_name : Option String
  pub arrival : ℕ
  pub payload : Option Payload

pub data Call : Type 0 where
  secret_value : String → Call
  secret_extension : String → Call
  sign_jwt : JwtParams → Call
  sleep : ℕ → Call
  post_bulk : (endpoint : Option String) (jwt : String) → List Entry → Call
  post_events : (endpoint : Option String) (jwt contact : String) → EventsPayload → Call

-- AWS Secrets Manager, its Lambda extension, the JWT library and the Salesforce endpoint.
pub record Services : Type 0 where
  pub use_extension : Bool
  pub now : List Call → ℕ
  pub default_secret : Option String
  pub secret_value : List Call → Result (Object String)
  pub secret_extension : List Call → Result (Object String)
  pub sign_jwt : List Call → Result String
  pub bulk : List Call → List Entry → Result Response
  pub events : List Call → Result (Unit {0})
