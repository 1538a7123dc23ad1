-- ===== src/Signals/Single.antt =====
-- postCallAnalysisTrigger: secretUtils.js, the token of utils.js, telephonyIntegrationApi.js with the
-- endpoint that axiosWrapper.js keeps, and handler.js. The counters of batches serve logs and tests
-- and are left out.
pub mod Order
use service_cloud_voice_lamb.Common.{
  ℕ, String, Bool, true, false, not, Option, none, some, List, [], ◌∷◌, truthy, text_of,
  if◌then◌else◌, ◌||◌,
}
use Prim.Native.String.{◌++◌}
use service_cloud_voice_lamb.Common.Object.{Object, get}
use service_cloud_voice_lamb.Common.Effect.{
  Attempt, ok, throw, Result, Exec, pure, raise, lift, call, handle, ◌>>=◌, ◌>>◌,
}
use service_cloud_voice_lamb.Signals.Calls.{
  Metadata, Analysis, Contact, Signal, JwtParams, Post, Call, secret_value, sign_jwt, post,
  Services, Event, Reply, nothing, success,
}
use service_cloud_voice_lamb.Signals.Chunks.{slice_into_chunks}
use service_cloud_voice_lamb.Signals.Analysis.{
  request_signals, load_analysis, get_agent_timestamp, post_of,
}

pub record Config : Type 0 where
  pub salesforce_org_id : Option String
  pub scrt_endpoint_base : Option String
  pub call_center_api_name : Option String
  pub private_key : Option String

unfoldable pub config_of : Object String → Result Config
config_of secret =
    let org = get "SALESFORCE_ORG_ID" secret in
    let base = get "SCRT_ENDPOINT_BASE" secret in
    let name = get "CALL_CENTER_API_NAME" secret in
    if not (truthy org) || not (truthy base) || not (truthy name)
    then throw "Missing required secret configuration values"
    else ok (record {
      salesforce_org_id = org;
      scrt_endpoint_base = base;
      call_center_api_name = name;
      private_key = get (text_of name ++ "-scrt-jwt-auth-private-key") secret;
    })

unfoldable pub jwt_params : Config → JwtParams
jwt_params c = record {
  issuer = c.salesforce_org_id;
  subject = c.call_center_api_name;
  audience = some "https://scrt.salesforce.com";
  expires_in = "15m";
  private_key = c.private_key;
}

-- The endpoint that is kept between calls: the base of its addresses, once it is made.
abbrev pub Kept : Type 0
Kept = Option (Option String)

module _ (svc : Services) where
  unfoldable pub read_secret : Option String → Exec Call (Object String)
  read_secret name =
      if truthy name
      then call (secret_value (text_of name)) (λ t. svc.secret_value t (text_of name))
      else raise "Secret name is required"

  unfoldable pub get_secret_configs : Option String → Exec Call Config
  get_secret_configs name = do secret ← read_secret name; lift (config_of secret)

  unfoldable pub generate_jwt : Exec Call String
  generate_jwt = do
    c ← get_secret_configs svc.secret_name
    call (sign_jwt (jwt_params c)) svc.sign_jwt

  -- The base of the endpoint, the kept one or a new one.
  unfoldable pub get_scrt_endpoint : Kept → Exec Call (Option String)
  get_scrt_endpoint (some base) = pure base
  get_scrt_endpoint none = do c ← get_secret_configs svc.secret_name; pure c.scrt_endpoint_base

  -- The result is the endpoint that is kept from then on; an error of the post is swallowed.
  unfoldable pub persist_signals : Kept → Option String → List Signal → Exec Call Kept
  persist_signals kept contact events = do
    jwt ← generate_jwt
    base ← get_scrt_endpoint kept
    handle (call (post (post_of base contact jwt events)) svc.post) (λ err. pure tt)
    pure (some base)

  unfoldable pub send_batches : Kept → Option String → List (List Signal) → Exec Call Reply
  send_batches kept contact [] = pure success
  send_batches kept contact (batch ∷ rest) = do
    kept' ← persist_signals kept contact batch
    send_batches kept' contact rest

  -- What follows the batches of `sliceIntoChunks`, whose loop does not end for `none`.
  unfoldable pub send_all : Kept → Option String → Option (List (List Signal)) → Exec Call Reply
  send_all kept contact none = raise "no end"
  send_all kept contact (some batches) = send_batches kept contact batches

  unfoldable pub send_signals : Kept → Option String → List Signal → Exec Call Reply
  send_signals kept contact [] = pure nothing
  send_signals kept contact (s ∷ signals) =
      send_all kept contact (slice_into_chunks (s ∷ signals) 25)

  unfoldable pub process : Kept → Option (Metadata × Analysis) → Exec Call Reply
  process kept none = pure nothing
  process kept (some (meta, a)) = do
    contact ← get_agent_timestamp svc meta
    signals ← lift (request_signals a contact)
    send_signals kept meta.contact_id signals

  -- The lambda, with the endpoint that an earlier invocation made, if there was one.
  unfoldable pub handler : Kept → Event → Exec Call Reply
  handler kept e = do loaded ← load_analysis svc e; process kept loaded
