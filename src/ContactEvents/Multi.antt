-- ===== src/ContactEvents/Multi.antt =====
-- multiorgHandleContactEvents: cacheUtils.js (the part that reads), secretUtils.js and handler.js. The
-- configuration that is read from the secret is not sent: only whether it is read counts.
pub mod Forwarded
use service_cloud_voice_lamb.Common.{
  ℕ, String, Bool, true, false, not, ◌&&◌, ◌||◌, Option, none, some, List, [], ◌∷◌, ◌++◌, truthy,
  text_of, if◌then◌else◌, eqb, leb,
}
use Prim.Native.Char.{Char, code}
use Prim.Native.String
use service_cloud_voice_lamb.Common.Object.{optional_field, Object}
use service_cloud_voice_lamb.Common.Effect.{
  Result, Exec, pure, raise, lift, call, handle, ◌>>=◌, ◌>>◌,
}
use service_cloud_voice_lamb.Telephony.Calls.{Parameters}
use service_cloud_voice_lamb.Telephony.Cache.{bucket_of, key_of}
use service_cloud_voice_lamb.ContactEvents.Calls.{
  Detail, Event, Call, get_cached, secret_value, invoke, Services,
}
use service_cloud_voice_lamb.ContactEvents.Rules.{
  is_disconnected_event_for_abandoned_call, multiorg_is_routing_criteria_expired_event_for_call,
}
use service_cloud_voice_lamb.ContactEvents.Single.{contact_of}

-- The characters that `trim` takes off.
abbrev pub is_space : Char → Bool
is_space c =
    (leb 0x09 (code c) && leb (code c) 0x0D)
    || eqb (code c) 0x20
    || eqb (code c) 0xA0
    || eqb (code c) 0x1680
    || (leb 0x2000 (code c) && leb (code c) 0x200A)
    || eqb (code c) 0x2028
    || eqb (code c) 0x2029
    || eqb (code c) 0x202F
    || eqb (code c) 0x205F
    || eqb (code c) 0x3000
    || eqb (code c) 0xFEFF

-- `s.trim() === ''`
unfoldable pub is_blank : String → Bool
is_blank String.[] = true
is_blank (String.◌∷◌ c s) = let rest = is_blank s in is_space c && rest

unfoldable pub is_valid_contact : Option String → Bool
unfolding is_blank
is_valid_contact none = false
is_valid_contact (some s) = not (is_blank s)

unfoldable pub payload : Option String → String → Option String → Parameters
payload contact method_name secret_name = record {
  values = ("methodName", method_name) ∷ optional_field "contactId" contact;
  field_values = some (optional_field "secretName" secret_name);
}

abbrev pub if_named : Option String → Option String
if_named name = if truthy name then name else none

module _ (svc : Services) where
  unfoldable pub retrieve_at : String → String → Exec Call (Option String)
  retrieve_at location contact =
      let bucket = bucket_of location in
      let key = key_of location contact in
      handle (call (get_cached bucket key) (λ t. svc.get_cached t bucket key)) (λ err. pure none)

  -- The name of the secret in the cached object, if there is one.
  unfoldable pub retrieve_from_cache : Option String → Exec Call (Option String)
  retrieve_from_cache contact =
      if is_valid_contact contact && truthy svc.secret_cache_s3
      then retrieve_at (text_of svc.secret_cache_s3) (text_of contact)
      else pure none

  -- `readSecret` under a name that is not empty: the call, whose result is not kept.
  unfoldable pub read_secret : String → Exec Call (Unit {0})
  read_secret name = do call (secret_value name) (λ t. svc.secret_value t name); pure tt

  -- `getSecretConfigs` under a name that is not empty, with its errors caught.
  unfoldable pub read_configs : Option String → Exec Call (Unit {0})
  unfolding read_secret
  read_configs name = handle (read_secret (text_of name)) (λ err. pure tt)

  unfoldable pub secret_of_contact : Option String → Exec Call (Option String)
  secret_of_contact contact = do
    name ← retrieve_from_cache contact
    if truthy name then (do read_configs name; pure name) else pure none

  unfoldable pub process_event : Event → String → Exec Call (Unit {0})
  unfolding payload
  process_event e method_name = do
    name ← secret_of_contact (contact_of e.detail)
    call (invoke (payload (contact_of e.detail) method_name name)) svc.invoke

  -- The choice between the methods, by the results of the two tests.
  unfoldable pub react : Event → Bool → Result Bool → Exec Call (Unit {0})
  react e is_abandoned expired =
      if is_abandoned then process_event e "cancelOmniFlowExecution" else do
        is_expired ← lift expired
        if is_expired then process_event e "rerouteFlowExecution" else pure tt

  unfoldable pub handler : Event → Exec Call (Unit {0})
  unfolding react
  handler e =
      react e (is_disconnected_event_for_abandoned_call e)
        (multiorg_is_routing_criteria_expired_event_for_call e)
