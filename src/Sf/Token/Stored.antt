-- ===== src/Sf/Token/Stored.antt =====
-- What invokeSfRestApi/utils.js reads back of a token that it stored.
use service_cloud_voice_lamb.Common.{
  ◌≡◌, refl, String, true, false, some, List, [], ◌∷◌, ◌++◌, truthy, if◌then◌else◌, ◌==◌, eq_refl,
  or_true,
}
use service_cloud_voice_lamb.Common.Object.{Object, get, get-put}
use service_cloud_voice_lamb.Common.Effect.{ok, ◌>>=◌}
use service_cloud_voice_lamb.Sf.Calls.{
  Configs, secret_string, Call, get_secret, update_secret, sign_jwt, authenticate, Services,
}
use service_cloud_voice_lamb.Sf.Secrets.{
  read_secret, update_secret_value, parse_secret, failed_to_update,
}
use service_cloud_voice_lamb.Sf.Token.{
  token_key, assign, generate_jwt, obtain_token, get_access_token,
}

abbrev updated_by : String → Call → Object String → Object String
updated_by n (update_secret m value) o = if m == n then value else o
updated_by n c o = o

-- The value of a secret after a trace of calls that all succeeded.
abbrev pub secret_after : String → List Call → Object String → Object String
secret_after n [] o = o
secret_after n (c ∷ t) o = secret_after n t (updated_by n c o)

-- Secrets Manager as it is documented: an update that is answered is what later reads find.
abbrev pub IsConsistent : Services → (String → Object String) → Type 0
IsConsistent svc first =
    ((t : List Call) → svc.update_secret t ≡ ok tt)
    × ((t : List Call) (n : String)
        → svc.get_secret t n ≡ ok (secret_string (ok (secret_after n t (first n)))))

secret_after-append :
    (n : String) (t u : List Call) (o : Object String)
    → secret_after n (t ++ u) o ≡ secret_after n u (secret_after n t o)
secret_after-append n [] u o = refl
secret_after-append n (c ∷ t) u o = secret_after-append n t u (updated_by n c o)

module _ (svc : Services) (first : String → Object String) (consistent : IsConsistent svc first)
    (name : String) (named : truthy (some name) ≡ true) where
  read_secret-run :
      (t : List Call)
      → read_secret svc (some name) t
        ≡ (ok (secret_after name t (first name)), t ++ get_secret name ∷ [])
  unfolding read_secret parse_secret ◌>>=◌
  read_secret-run t = rw (named, consistent.1 t name) refl

  update_secret-run :
      (value : Object String) (t : List Call)
      → update_secret_value svc (some name) value t ≡ (ok tt, t ++ update_secret name value ∷ [])
  unfolding update_secret_value failed_to_update ◌>>=◌
  update_secret-run value t = rw (named, consistent.0 t) refl

module _ (svc : Services) (first : String → Object String) (consistent : IsConsistent svc first)
    (c : Configs) (name token jwt : String) (named : truthy (some name) ≡ true) where
  cached-run :
      (u : List Call)
      → truthy (some token) ≡ true
      → get (token_key c) (secret_after name u (first name)) ≡ some token
      → get_access_token svc c (some name) false u ≡ (ok (some token), u ++ get_secret name ∷ [])
  unfolding get_access_token ◌>>=◌
  cached-run u f h = rw (read_secret-run svc first consistent name named u, h, f) refl

  claims_call : Call
  claims_call =
      sign_jwt (record { iss = c.consumer_key; sub = c.subject; aud = c.audience }) c.private_key

  -- The calls of a refresh.
  refreshed : List Call → List Call
  refreshed t =
      (((t ++ get_secret name ∷ []) ++ claims_call ∷ []) ++ authenticate c.auth_endpoint jwt ∷ [])
      ++ update_secret name (assign (token_key c) (some token) (secret_after name t (first name)))
        ∷ []

  refresh-run :
      (t : List Call)
      → ((u : List Call) → svc.sign_jwt u ≡ ok jwt)
      → ((u : List Call) → svc.authenticate u ≡ ok (some token))
      → get_access_token svc c (some name) true t ≡ (ok (some token), refreshed t)
  unfolding get_access_token obtain_token generate_jwt ◌>>=◌ refreshed claims_call
  refresh-run t j a =
      rw
        (
          read_secret-run svc first consistent name named t,
          or_true,
          j,
          a,
          update_secret-run svc first consistent name named,
        )
        refl

  refreshed-token :
      (t : List Call)
      → get (token_key c) (secret_after name (refreshed t) (first name)) ≡ some token
  unfolding refreshed
  refreshed-token t = rw (secret_after-append, eq_refl, get-put, eq_refl) refl

-- If Secrets Manager is consistent and a new token is obtained and stored, asking for the token
-- right after that gives the same token, with one more read of the secret and no other call.
pub get_access_token-stored :
    (svc : Services) (first : String → Object String) (c : Configs) (name token jwt : String)
    (t : List Call)
    → IsConsistent svc first
    → truthy (some name) ≡ true
    → truthy (some token) ≡ true
    → ((u : List Call) → svc.sign_jwt u ≡ ok jwt)
    → ((u : List Call) → svc.authenticate u ≡ ok (some token))
    → (u : List Call) × (get_access_token svc c (some name) true t ≡ (ok (some token), u))
      × (get_access_token svc c (some name) false u ≡ (ok (some token), u ++ get_secret name ∷ []))
get_access_token-stored svc first c name token jwt t k n f j a = (
  refreshed svc first k c name token jwt n t,
  refresh-run svc first k c name token jwt n t j a,
  cached-run svc first k c name token jwt n _ f (refreshed-token svc first k c name token jwt n t),
)
