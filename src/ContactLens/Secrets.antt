-- ===== src/ContactLens/Secrets.antt =====
-- contactLensProcessor/secretUtils.js, and the parameters of the token that its clients sign.
use service_cloud_voice_lamb.Common.{String, Option, truthy, text_of, if◌then◌else◌}
use Prim.Native.String.{◌++◌}
use service_cloud_voice_lamb.Common.Object.{Object, get}
use service_cloud_voice_lamb.Common.Effect.{Exec, pure, raise, call, ◌>>=◌}
use service_cloud_voice_lamb.ContactLens.Calls.{
  SecretData, JwtParams, Call, secret_value, secret_extension, sign_jwt, Services,
}

read_named : Services → String → Exec Call (Object String)
read_named svc name =
    if svc.use_extension
    then call (secret_extension name) svc.secret_extension
    else call (secret_value name) svc.secret_value

unfoldable pub read_secret : Services → Option String → Exec Call (Object String)
unfolding read_named
read_secret svc name =
    if truthy name then read_named svc (text_of name) else raise "Secret name is required"

unfoldable pub config_of : Object String → SecretData
config_of data' =
    let name = get "CALL_CENTER_API_NAME" data' in
    record {
      audience = "https://scrt.salesforce.com";
      org_id = get "SALESFORCE_ORG_ID" data';
      scrt_endpoint_base = get "SCRT_ENDPOINT_BASE" data';
      call_center_api_name = name;
      private_key = get (text_of name ++ "-scrt-jwt-auth-private-key") data';
      token_valid_for = "15m";
    }

unfoldable pub get_secret_configs : Services → Option String → Exec Call SecretData
unfolding read_secret config_of
get_secret_configs svc name = do found ← read_secret svc name; pure (config_of found)

unfoldable pub generate_jwt_params : SecretData → JwtParams
generate_jwt_params s = record {
  org_id = s.org_id;
  call_center_api_name = s.call_center_api_name;
  expires_in = s.token_valid_for;
  private_key = s.private_key;
}

unfoldable pub generate_jwt : Services → JwtParams → Exec Call String
generate_jwt svc params = call (sign_jwt params) svc.sign_jwt
