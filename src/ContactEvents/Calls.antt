-- ===== src/ContactEvents/Calls.antt =====
-- The contact events that handleContactEvents and multiorgHandleContactEvents receive, and what they
-- ask of the services around them. An absent property is `none`.
use service_cloud_voice_lamb.Common.{String, Bool, Option, List}
use service_cloud_voice_lamb.Common.Object.{Object}
use service_cloud_voice_lamb.Common.Effect.{Result}
use service_cloud_voice_lamb.Telephony.Calls.{Parameters}

-- `has_agents_criteria` is whether `expression.attributeCondition.matchCriteria.agentsCriteria` is
-- there.
pub record Step : Type 0 where
  pub has_agents_criteria : Bool
  pub status : Option String

-- Routing criteria may lack their `steps`.
pub record Criteria : Type 0 where
  pub steps : Option (List Step)

pub record Detail : Type 0 where
  pub contact_id : Option String
  pub initiation_method : Option String
  pub event_type : Option String
  pub has_agent_info : Bool
  pub updated_properties : Option (List String)
  pub routing_criteria : Option Criteria

pub record Event : Type 0 where
  pub detail_type : Option String
  pub detail : Option Detail

-- An invocation of the telephony lambda carries the parameters of its event.
pub data Call : Type 0 where
  get_cached : (bucket key : String) → Call
  secret_value : String → Call
  invoke : Parameters → Call

-- S3, Secrets Manager and the telephony lambda, with the place of the cache from the environment. Of
-- a cached object only the name of the secret counts.
pub record Services : Type 0 where
  pub secret_cache_s3 : Option String
  pub get_cached : List Call → String → String → Result (Option String)
  pub secret_value : List Call → String → Result (Object String)
  pub invoke : List Call → Result (Unit {0})
