-- ===== src/Signals/Multi.antt =====
-- multiorgPostCallAnalysisTrigger: cacheUtils.js (the part that reads), secretUtils.js, the token of
-- utils.js, telephonyIntegrationApi.js and handler.js. The counters of batches serve logs and tests
-- and are left out.
pub mod Secret
pub mod Order
use service_cloud_voice_lamb.Common.{
  ℕ, String, Bool, true, false, Option, none, some, List, [], ◌∷◌, truthy, text_of, if◌then◌else◌,
}
use Prim.Native.String.{◌++◌}
use service_cloud_voice_lamb.Common.Object.{Object, get}
use service_cloud_voice_lamb.Common.Effect.{
  Attempt, ok, throw, Result, Exec, pure, raise, lift, call, handle, ◌>>=◌, ◌>>◌,
}
use service_cloud_voice_lamb.Telephony.Cache.{bucket_of, key_of}
use service_cloud_voice_lamb.Signals.Calls.{
  Metadata, Analysis, Contact, Signal, JwtParams, Post, Call, secret_value, sign_jwt, get_cached,
  post, Services, Event, Reply, nothing, success,
}
use service_cloud_voice_lamb.Signals.Chunks.{slice_into_chunks}
use service_cloud_voice_lamb.Signals.Analysis.{
  request_signals, load_analysis, get_agent_timestamp, post_of,
}

pub record Config : Type 0 where
  pub org_id : Option String
  pub scrt_endpoint_base : Option String
  pub call_center_api_name : Option String
  pub private_key : Option String

unfoldable pub config_of : Object String → Config
config_of secret =
    let name = get "CALL_CENTER_API_NAME" secret in
    record {
      org_id = get "SALESFORCE_ORG_ID" secret;
      scrt_endpoint_base = get "SCRT_ENDPOINT_BASE" secret;
      call_center_api_name = name;
      private_key = get (text_of name ++ "-scrt-jwt-auth-private-key") secret;
    }

-- The token has no audience.
unfoldable pub jwt_params : Config → JwtParams
jwt_params c = record {
  issuer = c.org_id;
  subject = c.call_center_api_name;
  audience = none;
  expires_in = "15m";
  private_key = c.private_key;
}

module _ (svc : Services) where
  unfoldable pub retrieve_at : String → Option String → Exec Call (Option String)
  retrieve_at location contact =
      let bucket = bucket_of location in
      let key = key_of location (text_of contact) in
      handle (call (get_cached bucket key) (λ t. svc.get_cached t bucket key)) (λ err. pure none)

  -- The name of the secret in the cached object, if there is one.
  unfoldable pub retrieve_from_cache : Option String → Exec Call (Option String)
  retrieve_from_cache contact =
      if truthy svc.secret_cache_s3
      then retrieve_at (text_of svc.secret_cache_s3) contact
      else pure none

  unfoldable pub read_secret : Option String → Exec Call (Object String)
  read_secret name =
      if truthy name
      then call (secret_value (text_of name)) (λ t. svc.secret_value t (text_of name))
      else raise "Secret name is required"

  unfoldable pub get_secret_configs : Option String → Exec Call Config
  get_secret_configs name = do secret ← read_secret name; pure (config_of secret)

  -- The configuration of the org that the contact belongs to.
  unfoldable pub secret_config : Option String → Exec Call Config
  secret_config contact = do
    name ← retrieve_from_cache contact
    if truthy name
        then get_secret_configs name
        else raise "Secret configuration is required but not available"

  unfoldable pub persist_signals : Option String → List Signal → Config → Exec Call (Unit {0})
  persist_signals contact events c = do
    jwt ← call (sign_jwt (jwt_params c)) svc.sign_jwt
    call (post (post_of c.scrt_endpoint_base contact jwt events)) svc.post

  unfoldable pub send_batches : Option String → Config → List (List Signal) → Exec Call Reply
  send_batches contact c [] = pure success
  send_batches contact c (batch ∷ rest) = do
    persist_signals contact batch c
    send_batches contact c rest

  -- What follows the batches of `sliceIntoChunks`, whose loop does not end for `none`.
  unfoldable pub send_all : Option String → Config → Option (List (List Signal)) → Exec Call Reply
  send_all contact c none = raise "no end"
  send_all contact c (some batches) = send_batches contact c batches

  unfoldable pub send_signals : Option String → List Signal → Exec Call Reply
  send_signals contact [] = pure nothing
  send_signals contact (s ∷ signals) = do
    c ← secret_config contact
    send_all contact c (slice_into_chunks (s ∷ signals) 25)

  unfoldable pub process : Option (Metadata × Analysis) → Exec Call Reply
  process none = pure nothing
  process (some (meta, a)) = do
    contact ← get_agent_timestamp svc meta
    signals ← lift (request_signals a contact)
    send_signals meta.contact_id signals

  unfoldable pub handler : Event → Exec Call Reply
  handler e = do loaded ← load_analysis svc e; process loaded
