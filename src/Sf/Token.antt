-- ===== src/Sf/Token.antt =====
-- The access token: `getAccessToken` of invokeSfRestApi/utils.js, which keeps it in a secret.
pub mod Stored
use service_cloud_voice_lamb.Common.{
  String, Bool, true, false, not, ◌||◌, Option, none, some, List, [], ◌∷◌, truthy, text_of,
  if◌then◌else◌, ◌==◌,
}
use Prim.Native.String.{◌++◌}
use service_cloud_voice_lamb.Common.Object.{Object, get, put}
use service_cloud_voice_lamb.Common.Effect.{
  Attempt, ok, throw, Result, Action, pure, raise, call, ◌>>=◌, ◌>>◌,
}
use service_cloud_voice_lamb.Sf.Calls.{
  Fault, error, Configs, Claims, Call, sign_jwt, authenticate, Services,
}
use service_cloud_voice_lamb.Sf.Secrets.{read_secret, update_secret_value}

abbrev pub with_message {ℓ} : {A : Type ℓ} → Result A → Attempt Fault A
with_message (ok a) = ok a
with_message (throw message) = throw (error message)

abbrev pub token_key : Configs → String
token_key c = text_of c.call_center_api_name ++ "-salesforce-rest-api-access-token"

abbrev remove : String → Object String → Object String
remove k [] = []
remove k ((j, v) ∷ o) = if j == k then remove k o else (j, v) ∷ remove k o

-- `secret[key] = token`; a token that is `undefined` is not in the text of the secret.
abbrev pub assign : String → Option String → Object String → Object String
assign k none o = remove k o
assign k (some v) o = put k v o

module _ (svc : Services) where
  unfoldable pub generate_jwt : Claims → Option String → Action Fault Call String
  generate_jwt claims key = call (sign_jwt claims key) (λ t. with_message (svc.sign_jwt t))

  -- A new token, which is stored in the secret.
  unfoldable pub obtain_token :
      Configs → Option String → Object String → Action Fault Call (Option String)
  obtain_token c name secret = do
    assertion ←
        generate_jwt (record { iss = c.consumer_key; sub = c.subject; aud = c.audience })
          c.private_key
    token ← call (authenticate c.auth_endpoint assertion) svc.authenticate
    update_secret_value svc name (assign (token_key c) token secret)
    pure token

  unfoldable pub get_access_token :
      Configs → Option String → Bool → Action Fault Call (Option String)
  get_access_token c name refresh = do
    secret ← read_secret svc name
    if not (truthy (get (token_key c) secret)) || refresh
        then obtain_token c name secret
        else pure (get (token_key c) secret)
