-- ===== src/Keys/Stored.antt =====
-- What authKeysSSMUtil stores, and what invokeTelephonyIntegrationApi reads back of it.
use service_cloud_voice_lamb.Common.{
  ◌≡◌, refl, ap, ◌∙◌, String, Option, true, false, none, some, List, [], ◌∷◌, ◌++◌, ◌<◌, truthy,
  if◌then◌else◌, ◌==◌, Bool-cases, inl, inr, eq_iff, eq_refl, arith,
}
use Prim.Native.String.{count, ◌++◌ as ◌<>◌}
use text.Mathlib.TextLemmas.{length-append}
use service_cloud_voice_lamb.Common.Object.{Object, get, put, get-put}
use service_cloud_voice_lamb.Common.Effect.{ok, call, ◌>>=◌}
use service_cloud_voice_lamb.Telephony.Calls.{Config}
use service_cloud_voice_lamb.Telephony.Secrets.{config_of}
use service_cloud_voice_lamb.Keys.Calls.{
  Details, Event, Parsed, object, secret_string, Pems, Call, generate, get_secret, update_secret,
  Services,
}
use service_cloud_voice_lamb.Keys.Secrets.{
  read_secret, write_value, write_secret, parse_secret, written,
}
use service_cloud_voice_lamb.Keys.Handler.{
  set_property, certification_of, update_secret_parameter, generate_private_public_key_pair,
  perform, handler,
}

abbrev updated_by : String → Call → Parsed → Parsed
updated_by n (update_secret m value) v = if m == n then value else v
updated_by n c v = v

-- The value of a secret after a trace of calls that all succeeded.
abbrev pub secret_after : String → List Call → Parsed → Parsed
secret_after n [] v = v
secret_after n (c ∷ t) v = secret_after n t (updated_by n c v)

-- Secrets Manager as it is documented: an update that is answered is what later reads find.
abbrev pub IsConsistent : Services → (String → Parsed) → Type 0
IsConsistent svc first =
    ((t : List Call) → svc.update_secret t ≡ ok tt)
    × ((t : List Call) (n : String)
        → svc.get_secret t n ≡ ok (secret_string (ok (secret_after n t (first n)))))

secret_after-append :
    (n : String) (t : List Call) (c : Call) (v : Parsed)
    → secret_after n (t ++ c ∷ []) v ≡ updated_by n c (secret_after n t v)
secret_after-append n [] c v = refl
secret_after-append n (d ∷ t) c v = secret_after-append n t c (updated_by n d v)

-- A request for a key pair that is stored under the parameter `k`.
abbrev pub pair_event : String → Details → Event
pair_event k d = record {
  resource_properties = some (record {
    parameters = some (record {
      request_type = some "GeneratePrivatePublicKeyPair";
      details = some (record {
        ssm_param_name = some k;
        ssm_param_value = d.ssm_param_value;
        organizational_unit_name = d.organizational_unit_name;
        expires_in = d.expires_in;
      });
    });
  });
}

module _ (svc : Services) (first : String → Parsed) (consistent : IsConsistent svc first)
    (name : String) (o : Object String) (named : truthy (some name) ≡ true)
    (configured : svc.secret_name ≡ some name) where
  read_secret-run :
      (m : Option String) (t : List Call)
      → m ≡ some name
      → secret_after name t (first name) ≡ object o
      → read_secret svc m t ≡ (ok (object o), t ++ get_secret name ∷ [])
  unfolding read_secret parse_secret call
  read_secret-run m t e h = rw (e, named, consistent.1 t name, h) refl

  write_secret-run :
      (m : Option String) (p : Object String) (t : List Call)
      → m ≡ some name
      → write_secret svc m (object p) t ≡ (ok tt, t ++ update_secret name (object p) ∷ [])
  unfolding write_secret write_value written call
  write_secret-run m p t e = rw (e, named, consistent.0 t) refl

  is_named : truthy svc.secret_name ≡ true
  is_named = ap truthy configured ∙ named

  update_secret_parameter-run :
      (k v : String) (t : List Call)
      → secret_after name t (first name) ≡ object o
      → update_secret_parameter svc (some k) (some v) t
        ≡ (ok tt, (t ++ get_secret name ∷ []) ++ update_secret name (object (put k v o)) ∷ [])
  unfolding update_secret_parameter ◌>>=◌ set_property
  update_secret_parameter-run k v t h =
      rw
        (
          is_named,
          read_secret-run svc.secret_name t configured h,
          write_secret-run svc.secret_name (put k v o) _ configured,
        )
        refl

  -- The calls of a request for a key pair.
  stored_by : String → Details → Pems → List Call → List Call
  stored_by k d pems t =
      ((t ++ generate (certification_of d) ∷ []) ++ get_secret name ∷ [])
      ++ update_secret name (object (put k pems.private_key o)) ∷ []

  handler-run :
      (k : String) (d : Details) (pems : Pems) (t : List Call)
      → secret_after name t (first name) ≡ object o
      → ((u : List Call) → svc.generate u (certification_of d) ≡ ok pems)
      → handler svc (pair_event k d) t ≡ (
        ok (record { success = true; certificate = some pems.cert; message = none }),
        stored_by k d pems t,
      )
  unfolding handler perform generate_private_public_key_pair ◌>>=◌ stored_by certification_of
  handler-run k d pems t h g =
      rw
        (
          g t,
          update_secret_parameter-run k pems.private_key _
              (secret_after-append name t _ (first name) ∙ h),
        )
        refl

  stored_by-secret :
      (k : String) (d : Details) (pems : Pems) (t : List Call)
      → secret_after name (stored_by k d pems t) (first name) ≡ object (put k pems.private_key o)
  unfolding stored_by
  stored_by-secret k d pems t = rw (secret_after-append, eq_refl) refl

-- A text with a longer text behind it is another one.
longer-differs : (a s x : String) → count x < count s → ((a <> s) == x) ≡ false
longer-differs a s x h = elim (Bool-cases ((a <> s) == x)) [
  | inl p ↦
      let e : count (a <> s) ≡ count x = ap count ((eq_iff _ _).0 p) in
      absurd (omega (arith, e, length-append a s, h))
  | inr p ↦ p
]

-- The name of the parameter with the private key of a call center.
abbrev pub private_key_param : String → String
private_key_param api = api <> "-scrt-jwt-auth-private-key"

abbrev pub with_private_key : String → Config → Config
with_private_key key c = record {
  audience = c.audience;
  org_id = c.org_id;
  scrt_endpoint_base = c.scrt_endpoint_base;
  call_center_api_name = c.call_center_api_name;
  private_key = some key;
  token_valid_for = c.token_valid_for;
}

module _ (api key : String) (o : Object String) where
  get-put_own : get (private_key_param api) (put (private_key_param api) key o) ≡ some key
  get-put_own = rw (get-put, eq_refl) refl

  get-put_other :
      (x : String)
      → count x < count "-scrt-jwt-auth-private-key"
      → get x (put (private_key_param api) key o) ≡ get x o
  get-put_other x h = rw (get-put, longer-differs api "-scrt-jwt-auth-private-key" x h) refl

  config_of-put :
      get "CALL_CENTER_API_NAME" o ≡ some api
      → config_of (put (private_key_param api) key o) ≡ with_private_key key (config_of o)
  unfolding config_of
  config_of-put h =
      rw
        (
          get-put_other "CALL_CENTER_API_NAME" (omega arith),
          get-put_other "SALESFORCE_ORG_ID" (omega arith),
          get-put_other "SCRT_ENDPOINT_BASE" (omega arith),
          h,
          get-put_own,
        )
        refl

-- On a consistent Secrets Manager, when the secret of the environment is an object with the name of
-- a call center, a request for a key pair under that call center's parameter answers the
-- certificate, and the secret is afterwards one that gives invokeTelephonyIntegrationApi the
-- configuration of before with the new private key; every other key of the secret has the value it
-- had.
pub handler-config_of :
    (svc : Services) (first : String → Parsed) (name api : String) (o : Object String) (d : Details)
    (pems : Pems) (t : List Call)
    → IsConsistent svc first
    → svc.secret_name ≡ some name
    → truthy (some name) ≡ true
    → secret_after name t (first name) ≡ object o
    → get "CALL_CENTER_API_NAME" o ≡ some api
    → ((u : List Call) → svc.generate u (certification_of d) ≡ ok pems)
    → (u : List Call) × (p : Object String) × (handler svc (pair_event (private_key_param api) d) t
        ≡ (ok (record { success = true; certificate = some pems.cert; message = none }), u))
      × (secret_after name u (first name) ≡ object p)
      × (config_of p ≡ with_private_key pems.private_key (config_of o))
      × ((k : String)
          → get k p ≡ (if private_key_param api == k then some pems.private_key else get k o))
handler-config_of svc first name api o d pems t c s n h a g = (
  stored_by svc first c name o n s (private_key_param api) d pems t,
  put (private_key_param api) pems.private_key o,
  handler-run svc first c name o n s _ d pems t h g,
  stored_by-secret svc first c name o n s _ d pems t,
  config_of-put api pems.private_key o a,
  λ k. get-put _ k _ o,
)
