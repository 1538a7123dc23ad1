-- ===== src/Signals/Calls.antt =====
-- The data of postCallAnalysisTrigger and multiorgPostCallAnalysisTrigger, and what they ask of the
-- services around them. An absent property is `none`. A score is the text of a finite number. A time
-- is in milliseconds since 1970, and `none` is NaN, which an absent timestamp or offset gives.
use service_cloud_voice_lamb.Common.{ℕ, String, Option, List}
use service_cloud_voice_lamb.Common.Int.{ℤ}
use service_cloud_voice_lamb.Common.Object.{Object}
use service_cloud_voice_lamb.Common.Effect.{Result}

pub record Metadata : Type 0 where
  pub contact_id : Option String
  pub instance_id : Option String

pub record OverallSentiment : Type 0 where
  pub agent : Option String
  pub customer : Option String

pub record Sentiments : Type 0 where
  pub overall_sentiment : Option OverallSentiment

pub record Characteristics : Type 0 where
  pub sentiment : Option Sentiments

pub record Utterance : Type 0 where
  pub participant_id : Option String
  pub sentiment : Option String
  pub begin_offset_millis : Option ℕ
  pub end_offset_millis : Option ℕ

-- The file of a post-call analysis.
pub record Analysis : Type 0 where
  pub customer_metadata : Option Metadata
  pub conversation_characteristics : Option Characteristics
  pub transcript : Option (List Utterance)

pub record AgentInfo : Type 0 where
  pub connected_to_agent_timestamp : Option ℕ

pub record Contact : Type 0 where
  pub agent_info : Option AgentInfo
  pub disconnect_timestamp : Option ℕ

-- The numbers of which a signal has the text.
pub data Value : Type 0 where
  score : String → Value
  normalized : ℤ → Value

pub record Signal : Type 0 where
  pub type : String
  pub value : Value
  pub start_time : Option ℕ
  pub end_time : Option ℕ
  pub participant : Option String

pub record JwtParams : Type 0 where
  pub issuer : Option String
  pub subject : Option String
  pub audience : Option String
  pub expires_in : String
  pub private_key : Option String

-- A post of signals: the endpoint, the path under it, the token, and the body.
pub record Post : Type 0 where
  pub base_url : Option String
  pub path : String
  pub jwt : String
  pub service : String
  pub events : List Signal

pub data Call : Type 0 where
  get_object : (bucket key : String) → Call
  describe_contact : Metadata → Call
  secret_value : String → Call
  sign_jwt : JwtParams → Call
  get_cached : (bucket key : String) → Call
  post : Post → Call

-- S3, Amazon Connect, Secrets Manager, the JWT library and the Salesforce endpoint, with the
-- environment variables that the code reads. An analysis that cannot be read or parsed is an error of
-- `get_object`; of a cached object only the name of the secret counts.
pub record Services : Type 0 where
  pub secret_name : Option String
  pub secret_cache_s3 : Option String
  pub get_object : List Call → String → String → Result Analysis
  pub describe_contact : List Call → Result Contact
  pub secret_value : List Call → String → Result (Object String)
  pub sign_jwt : List Call → Result String
  pub get_cached : List Call → String → String → Result (Option String)
  pub post : List Call → Result (Unit {0})

-- `detail.bucket.name` and `detail.object.key`; without one of them the event has no detail.
pub record Detail : Type 0 where
  pub bucket : String
  pub key : String

pub record Event : Type 0 where
  pub detail : Option Detail

-- `null`, or the result "Success".
pub data Reply : Type 0 where
  nothing : Reply
  success : Reply
