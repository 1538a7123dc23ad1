-- ===== src/Sf/Secrets.antt =====
-- invokeSfRestApi/secretUtils.js.
use service_cloud_voice_lamb.Common.{String, Option, truthy, text_of, if◌then◌else◌}
use Prim.Native.String.{◌++◌}
use service_cloud_voice_lamb.Common.Object.{Object, get}
use service_cloud_voice_lamb.Common.Effect.{
  Attempt, ok, throw, Result, Action, pure, raise, call, ◌>>=◌,
}
use service_cloud_voice_lamb.Sf.Calls.{
  Fault, error, Configs, SecretData, secret_string, secret_binary, no_value, Call, get_secret,
  update_secret, Services,
}

unfoldable pub failed_to_get : String → String → String
failed_to_get name message = "Failed to get secret " ++ (name ++ (": " ++ message))

-- The errors inside the `try` are wrapped once more by its `catch`.
unfoldable pub parse_secret : String → Result SecretData → Attempt Fault (Object String)
unfolding failed_to_get
parse_secret name (throw message) = throw (error (failed_to_get name message))
parse_secret name (ok (secret_string (ok o))) = ok o
parse_secret name (ok (secret_string (throw message))) =
    throw (error (failed_to_get name (failed_to_get name message)))
parse_secret name (ok secret_binary) =
    throw (error (failed_to_get name (failed_to_get name "SecretBinary is not supported")))
parse_secret name (ok no_value) =
    throw (error (failed_to_get name (failed_to_get name "Secret not found")))

unfoldable pub failed_to_update : String → Result (Unit {0}) → Attempt Fault (Unit {0})
failed_to_update name (ok u) = ok u
failed_to_update name (throw message) =
    throw (error ("Failed to update secret " ++ (name ++ (": " ++ message))))

unfoldable pub config_of : Object String → Configs
config_of secret =
    let name = text_of (get "CALL_CENTER_API_NAME" secret) in
    record {
      call_center_api_name = get "CALL_CENTER_API_NAME" secret;
      base_url = get "SALESFORCE_REST_API_ENDPOINT_BASE" secret;
      auth_endpoint = get "SALESFORCE_AUTH_ENDPOINT" secret;
      consumer_key = get (name ++ "-salesforce-rest-api-auth-consumer-key") secret;
      private_key = get (name ++ "-salesforce-rest-api-auth-private-key") secret;
      audience = get (name ++ "-salesforce-rest-api-audience") secret;
      subject = get (name ++ "-salesforce-rest-api-subject") secret;
    }

module _ (svc : Services) where
  unfoldable pub read_secret : Option String → Action Fault Call (Object String)
  unfolding parse_secret failed_to_get
  read_secret name =
      if truthy name
      then call (get_secret (text_of name))
          (λ t. parse_secret (text_of name) (svc.get_secret t (text_of name)))
      else raise (error (failed_to_get (text_of name) "Secret name must be provided to readSecret"))

  unfoldable pub update_secret_value : Option String → Object String → Action Fault Call (Unit {0})
  unfolding failed_to_update
  update_secret_value name value =
      if truthy name
      then call (update_secret (text_of name) value)
          (λ t. failed_to_update (text_of name) (svc.update_secret t))
      else raise (
          error (
            "Failed to update secret "
            ++ (text_of name ++ ": Secret name must be provided to updateSecret")))

  unfoldable pub get_secret_configs : Option String → Action Fault Call Configs
  get_secret_configs name = do found ← read_secret name; pure (config_of found)
