-- ===== src/Keys/Calls.antt =====
-- The requests that the authKeysSSMUtil lambda receives, and what it asks of the services around it.
use service_cloud_voice_lamb.Common.{ℕ, String, Bool, Option, List}
use service_cloud_voice_lamb.Common.Object.{Object}
use service_cloud_voice_lamb.Common.Effect.{Result}

pub record Details : Type 0 where
  pub ssm_param_name : Option String
  pub ssm_param_value : Option String
  pub organizational_unit_name : Option String
  pub expires_in : Option String

pub record Parameters : Type 0 where
  pub request_type : Option String
  pub details : Option Details

pub record ResourceProperties : Type 0 where
  pub parameters : Option Parameters

pub record Event : Type 0 where
  pub resource_properties : Option ResourceProperties

pub record Reply : Type 0 where
  pub success : Bool
  pub certificate : Option String
  pub message : Option String

-- The value of a JSON text: `null`, a number, text or truth value, an array, or an object.
pub data Parsed : Type 0 where
  null primitive : Parsed
  items : List String → Parsed
  object : Object String → Parsed

-- What Secrets Manager answers: a text, which is JSON or not, or no text.
pub data SecretData : Type 0 where
  secret_string : Result Parsed → SecretData
  secret_binary no_value : SecretData

-- What a certificate is made from: the attributes of its subject, and the days it is valid.
pub record Certification : Type 0 where
  pub subject : Object (Option String)
  pub key_size : ℕ
  pub days : Option String
  pub algorithm : String
  pub is_authority : Bool

pub record Pems : Type 0 where
  pub private_key : String
  pub cert : String

pub data Call : Type 0 where
  generate : Certification → Call
  get_secret : String → Call
  update_secret : String → Parsed → Call

-- The library selfsigned and Secrets Manager, with the name of the secret from the environment.
pub record Services : Type 0 where
  pub secret_name : Option String
  pub generate : List Call → Certification → Result Pems
  pub get_secret : List Call → String → Result SecretData
  pub update_secret : List Call → Result (Unit {0})
