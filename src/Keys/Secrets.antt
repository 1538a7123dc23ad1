-- ===== src/Keys/Secrets.antt =====
-- authKeysSSMUtil/secretUtils.js.
use service_cloud_voice_lamb.Common.{String, Option, truthy, text_of, if◌then◌else◌}
use Prim.Native.String.{◌++◌}
use service_cloud_voice_lamb.Common.Effect.{ok, throw, Result, Exec, raise, call}
use service_cloud_voice_lamb.Keys.Calls.{
  Parsed, null, primitive, items, object, SecretData, secret_string, secret_binary, no_value, Call,
  get_secret, update_secret, Services,
}

unfoldable pub failed_to_get : String → String → String
failed_to_get name message = "Failed to get secret " ++ (name ++ (": " ++ message))

unfoldable pub failed_to_write : String → String → String
failed_to_write name message = "Failed to write secret " ++ (name ++ (": " ++ message))

-- The errors inside the `try` are wrapped once more by its `catch`.
unfoldable pub parse_secret : String → Result SecretData → Result Parsed
unfolding failed_to_get
parse_secret name (throw message) = throw (failed_to_get name message)
parse_secret name (ok (secret_string (ok v))) = ok v
parse_secret name (ok (secret_string (throw message))) =
    throw (failed_to_get name (failed_to_get name message))
parse_secret name (ok secret_binary) =
    throw (failed_to_get name (failed_to_get name "SecretBinary is not supported"))
parse_secret name (ok no_value) = throw (failed_to_get name (failed_to_get name "Secret not found"))

unfoldable pub written : String → Result (Unit {0}) → Result (Unit {0})
unfolding failed_to_write
written name (ok u) = ok u
written name (throw message) = throw (failed_to_write name message)

module _ (svc : Services) where
  unfoldable pub read_secret : Option String → Exec Call Parsed
  unfolding parse_secret failed_to_get
  read_secret name =
      if truthy name
      then call (get_secret (text_of name))
          (λ t. parse_secret (text_of name) (svc.get_secret t (text_of name)))
      else raise (failed_to_get (text_of name) "Secret name must be provided to readSecret")

  -- Only an object, and an array is one, is stored.
  unfoldable pub write_value : String → Parsed → Exec Call (Unit {0})
  unfolding written failed_to_write
  write_value name null = raise (failed_to_write name "Secret value must be a valid object")
  write_value name primitive = raise (failed_to_write name "Secret value must be a valid object")
  write_value name (items l) =
      call (update_secret name (items l)) (λ t. written name (svc.update_secret t))
  write_value name (object o) =
      call (update_secret name (object o)) (λ t. written name (svc.update_secret t))

  unfoldable pub write_secret : Option String → Parsed → Exec Call (Unit {0})
  unfolding write_value failed_to_write
  write_secret name value =
      if truthy name
      then write_value (text_of name) value
      else raise (failed_to_write (text_of name) "Secret name must be provided to writeSecret")
