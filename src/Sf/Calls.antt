-- ===== src/Sf/Calls.antt =====
-- The events that the invokeSfRestApi lambda receives, what it asks of the services around it, and
-- the errors that it catches. An absent property is `none`.
use service_cloud_voice_lamb.Common.{ℕ, String, Option, none, List}
use service_cloud_voice_lamb.Common.Object.{Object}
use service_cloud_voice_lamb.Common.Effect.{Attempt, Result}
use service_cloud_voice_lamb.Sf.Json.{Json}

-- An error: one that carries the response of an HTTP request, or another one.
pub data Fault : Type 0 where
  refused : (status : ℕ) (status_text : Option String) (data_ : Option Json) → Fault
  failed : (message : String) (code reason : Option String) → Fault

abbrev pub error : String → Fault
error message = failed message none none

pub record Configs : Type 0 where
  pub call_center_api_name : Option String
  pub base_url : Option String
  pub auth_endpoint : Option String
  pub consumer_key : Option String
  pub private_key : Option String
  pub audience : Option String
  pub subject : Option String

pub record Claims : Type 0 where
  pub iss : Option String
  pub sub : Option String
  pub aud : Option String

pub data Verb : Type 0 where
  get post patch : Verb

-- A URL under the base, or one with a parameter, whose text is encoded.
pub data Url : Type 0 where
  path : String → Url
  with_parameter : (path name : String) (value : String) → Url

pub data Body : Type 0 where
  no_body : Body
  fields : Object String → Body
  form : Object String → Body

pub record Request : Type 0 where
  pub verb : Verb
  pub base_url : Option String
  pub url : Url
  pub body : Body
  pub headers : Object String

-- What Secrets Manager answers: a text, which is an object or not JSON of an object, or no text.
pub data SecretData : Type 0 where
  secret_string : Result (Object String) → SecretData
  secret_binary no_value : SecretData

pub data Call : Type 0 where
  get_secret : String → Call
  update_secret : String → Object String → Call
  sign_jwt : Claims → (private_key : Option String) → Call
  authenticate : (endpoint : Option String) (assertion : String) → Call
  send : Request → Call

-- Secrets Manager and the JWT library, whose errors have a message; the endpoint of the tokens,
-- which answers the property `access_token` of its data; the REST API, which answers its data; the
-- headers of a form; the library `flat`; and the text of a value that is not one, in a template.
pub record Services : Type 0 where
  pub secret_name : Option String
  pub access_token_secret_name : Option String
  pub get_secret : List Call → String → Result SecretData
  pub update_secret : List Call → Result (Unit {0})
  pub sign_jwt : List Call → Result String
  pub authenticate : List Call → Attempt Fault (Option String)
  pub send : List Call → Request → Attempt Fault (Option Json)
  pub form_headers : Object String
  pub flatten : Option Json → Json
  pub shown : Json → String

pub record Event : Type 0 where
  pub parameters : Object String
  pub contact_ids_payload_map : Result (Object String)
  pub attributes : Option (Object String)
  pub customer_address : Option String
