-- ===== src/Telephony/Secrets.antt =====
-- invokeTelephonyIntegrationApi/secretUtils.js.
use service_cloud_voice_lamb.Common.{String, Option, truthy, text_of, if◌then◌else◌}
use Prim.Native.String.{◌++◌}
use service_cloud_voice_lamb.Common.Object.{Object, get}
use service_cloud_voice_lamb.Common.Effect.{Exec, pure, raise, call, ◌>>=◌}
use service_cloud_voice_lamb.Telephony.Calls.{
  Config, JwtParams, Call, secret_value, sign_jwt, Services,
}

unfoldable pub read_secret : Services → Option String → Exec Call (Object String)
read_secret svc name =
    if truthy name
    then call (secret_value (text_of name)) svc.secret_value
    else raise "Secret name is required"

unfoldable pub config_of : Object String → Config
config_of secret =
    let name = get "CALL_CENTER_API_NAME" secret in
    record {
      audience = "https://scrt.salesforce.com";
      org_id = get "SALESFORCE_ORG_ID" secret;
      scrt_endpoint_base = get "SCRT_ENDPOINT_BASE" secret;
      call_center_api_name = name;
      private_key = get (text_of name ++ "-scrt-jwt-auth-private-key") secret;
      token_valid_for = "5m";
    }

unfoldable pub get_secret_configs : Services → Option String → Exec Call Config
get_secret_configs svc name = do found ← read_secret svc name; pure (config_of found)

unfoldable pub jwt_params : Config → JwtParams
jwt_params c = record {
  org_id = c.org_id;
  call_center_api_name = c.call_center_api_name;
  expires_in = c.token_valid_for;
  private_key = c.private_key;
}

unfoldable pub generate_jwt : Services → JwtParams → Exec Call String
generate_jwt svc params = call (sign_jwt params) svc.sign_jwt
