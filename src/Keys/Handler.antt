-- ===== src/Keys/Handler.antt =====
-- authKeysSSMUtil/index.js.
use service_cloud_voice_lamb.Common.{
  String, Bool, true, false, Option, none, some, [], ◌∷◌, truthy, text_of, equals, if◌then◌else◌,
  ◌==◌,
}
use Prim.Native.String.{◌++◌}
use service_cloud_voice_lamb.Common.Object.{Object, put}
use service_cloud_voice_lamb.Common.Effect.{
  Result, ok, throw, Exec, pure, raise, lift, call, ◌>>=◌, ◌>>◌,
}
use service_cloud_voice_lamb.Keys.Calls.{
  Details, Event, Reply, Parsed, null, primitive, items, object, Certification, Pems, Call,
  generate, Services,
}
use service_cloud_voice_lamb.Keys.Secrets.{read_secret, write_secret}

abbrev pub remove : String → Object String → Object String
remove k [] = []
remove k ((j, v) ∷ o) = if j == k then remove k o else (j, v) ∷ remove k o

-- `secretData[key] = value`, as the text of the secret shows it: `undefined` is left out of an
-- object, the keys of an array are not indices, and other values have no properties.
unfoldable pub set_property : String → Option String → Parsed → Result Parsed
set_property k v null = throw "TypeError"
set_property k v primitive = ok primitive
set_property k v (items l) = ok (items l)
set_property k none (object o) = ok (object (remove k o))
set_property k (some v) (object o) = ok (object (put k v o))

unfoldable pub certification_of : Details → Certification
certification_of d = record {
  subject =
      ("countryName", some "US")
      ∷ ("stateOrProvinceName", some "CA")
      ∷ ("localityName", some "San Francisco")
      ∷ ("organizationName", some "salesforce.com")
      ∷ ("commonName", some "www.salesforce.com")
      ∷ ("organizationalUnitName", d.organizational_unit_name)
      ∷ [];
  key_size = 2048;
  days = d.expires_in;
  algorithm = "RS256";
  is_authority = true;
}

pub data Request : Type 0 where
  generate_pair create_parameter unsupported : Request

-- The cases of the switch.
unfoldable pub request_of : Option String → Request
request_of t =
    if equals t "GeneratePrivatePublicKeyPair"
    then generate_pair
    else if equals t "CreateSSMParameter"
    then create_parameter
    else unsupported

abbrev pub message_reply : Bool → String → Reply
message_reply b text = record { success = b; certificate = none; message = some text }

-- `value.property`, where the value may be missing.
abbrev pub defined {ℓ} : {A : Type ℓ} → Option A → Result A
defined none = throw "TypeError"
defined (some a) = ok a

module _ (svc : Services) where
  unfoldable pub update_secret_parameter : Option String → Option String → Exec Call (Unit {0})
  unfolding set_property
  update_secret_parameter name value =
      if truthy svc.secret_name
      then (do
        secret ← read_secret svc svc.secret_name
        changed ← lift (set_property (text_of name) value secret)
        write_secret svc svc.secret_name changed)
      else raise "SECRET_NAME configuration is not set"

  unfoldable pub generate_private_public_key_pair : Details → Exec Call Pems
  unfolding certification_of
  generate_private_public_key_pair d =
      call (generate (certification_of d)) (λ t. svc.generate t (certification_of d))

  unfoldable pub perform : Details → Request → Exec Call Reply
  unfolding update_secret_parameter generate_private_public_key_pair
  perform d generate_pair = do
    pems ← generate_private_public_key_pair d
    update_secret_parameter d.ssm_param_name (some pems.private_key)
    pure (record { success = true; certificate = some pems.cert; message = none })
  perform d create_parameter = do
    update_secret_parameter d.ssm_param_name d.ssm_param_value
    pure (
        message_reply true
          ("The secret parameter " ++ (text_of d.ssm_param_name ++ " is stored successfully.")))
  perform d unsupported = pure (
      message_reply false
        ("Unsupported requestType along with parameter " ++ text_of d.ssm_param_name))

  unfoldable pub handler : Event → Exec Call Reply
  unfolding perform request_of
  handler e = do
    properties ← lift (defined e.resource_properties)
    parameters ← lift (defined properties.parameters)
    details ← lift (defined parameters.details)
    perform details (request_of parameters.request_type)
