-- ===== src/Sf/Api/Recovery.antt =====
-- What `sendRequest` of invokeSfRestApi/sfRestApi.js does about an access token that has expired.
use service_cloud_voice_lamb.Common.{
  ◌≡◌, refl, ◌⊎◌, inl, inr, String, Bool, true, false, not, ◌||◌, Option, none, some, List, truthy,
  text_of, equals, if◌then◌else◌, eq_refl,
}
use Prim.Native.String.{◌++◌ as ◌<>◌}
use service_cloud_voice_lamb.Common.Object.{Object, get, get-put}
use service_cloud_voice_lamb.Common.Effect.{
  Attempt, ok, throw, Action, pure, raise, lift, handle, ◌>>=◌,
}
use service_cloud_voice_lamb.Common.Cost.{Costs}
use service_cloud_voice_lamb.Sf.Api.Requests.{is_request, is_login, send_request_bounds}
use service_cloud_voice_lamb.Sf.Json.{Json}
use service_cloud_voice_lamb.Sf.Calls.{
  Fault, refused, Configs, Verb, Url, Body, Request, secret_string, Call, Services,
}
use service_cloud_voice_lamb.Sf.Secrets.{
  read_secret, update_secret_value, get_secret_configs, config_of, parse_secret, failed_to_update,
}
use service_cloud_voice_lamb.Sf.Token.{token_key, generate_jwt, obtain_token, get_access_token}
use service_cloud_voice_lamb.Sf.Api.{Draft, is_unauthorized, authorized, send_request}

abbrev pub accepts : String → Object String → Bool
accepts token headers = equals (get "Authorization" headers) ("Bearer " <> token)

-- Services that work, of which the REST API takes one token, the one that is handed out, and
-- answers 401 to any other.
pub record TakesOnly (svc : Services) (token jwt : String)
    (answer : Verb → Url → Body → Option Json) : Type 0 where
  pub secrets :
      (t : List Call) (n : String)
      → (o : Object String) × (svc.get_secret t n ≡ ok (secret_string (ok o)))
  pub update : (t : List Call) → svc.update_secret t ≡ ok tt
  pub sign : (t : List Call) → svc.sign_jwt t ≡ ok jwt
  pub login : (t : List Call) → svc.authenticate t ≡ ok (some token)
  pub send :
      (t : List Call) (r : Request)
      → svc.send t r ≡ (
          if accepts token r.headers
          then ok (answer r.verb r.url r.body)
          else throw (refused 401 none none))

module _ (svc : Services) (token jwt : String) (answer : Verb → Url → Body → Option Json)
    (takes : TakesOnly svc token jwt answer) where
  read-run :
      (name : Option String) (t : List Call)
      → truthy name ≡ true
      → (o : Object String) × ((read_secret svc name t).0 ≡ ok o)
  unfolding read_secret parse_secret ◌>>=◌
  read-run name t h = let (o, p) = takes.secrets t (text_of name) in (o, rw (h, p) refl)

  obtain-run :
      (c : Configs) (name : Option String) (secret : Object String) (t : List Call)
      → truthy name ≡ true
      → (obtain_token svc c name secret t).0 ≡ ok (some token)
  unfolding obtain_token generate_jwt update_secret_value failed_to_update ◌>>=◌
  obtain-run c name secret t h = rw (takes.sign, takes.login, h, takes.update) refl

  chosen :
      (b : Bool) (m : Action Fault Call (Option String)) (o : Option String) (t : List Call)
      → (m t).0 ≡ ok (some token)
      → (p : Option String) × (((if b then m else pure o) t).0 ≡ ok p)
  unfolding pure
  chosen true m o t h = (some token, h)
  chosen false m o t h = (o, refl)

  token-run :
      (c : Configs) (name : Option String) (t : List Call)
      → truthy name ≡ true
      → (o : Option String) × ((get_access_token svc c name false t).0 ≡ ok o)
  unfolding get_access_token ◌>>=◌
  token-run c name t h =
      let (secret, p) = read-run name t h in
      let stored = get (token_key c) secret in
      let u = (read_secret svc name t).1 in
      rw p (
        chosen (not (truthy stored) || false) (obtain_token svc c name secret) stored u
          (obtain-run c name secret u h))

  or_true : (b : Bool) → (b || true) ≡ true
  or_true true = refl
  or_true false = refl

  fresh-run :
      (c : Configs) (name : Option String) (t : List Call)
      → truthy name ≡ true
      → (get_access_token svc c name true t).0 ≡ ok (some token)
  unfolding get_access_token ◌>>=◌
  fresh-run c name t h =
      let (secret, p) = read-run name t h in
      let q = obtain-run c name secret (read_secret svc name t).1 h in rw (p, or_true) q

  abbrev answer_to : Draft → Option Json
  answer_to d = answer d.verb d.url d.body

  judged :
      (b : Bool) (x : Option Json)
      → ((if b then ok x else throw (refused 401 none none)) ≡ Attempt.ok x)
        ⊎ ((if b then ok x else throw (refused 401 none none)) ≡ throw (refused 401 none none))
  judged true x = inl refl
  judged false x = inr refl

  first-run :
      (s a : Option String) (c : Configs) (d : Draft) (t : List Call)
      → truthy a ≡ true
      → ((authorized svc s a c d false t).0 ≡ ok (answer_to d))
        ⊎ ((authorized svc s a c d false t).0 ≡ throw (refused 401 none none))
  unfolding authorized ◌>>=◌
  first-run s a c d t h =
      let (o, p) = token-run c a t h in rw (p, takes.send) (judged _ (answer_to d))

  second-run :
      (s a : Option String) (c : Configs) (d : Draft) (t : List Call)
      → truthy a ≡ true
      → (authorized svc s a c d true t).0 ≡ ok (answer_to d)
  unfolding authorized ◌>>=◌
  second-run s a c d t h = rw (fresh-run c a t h, takes.send, get-put, eq_refl) refl

  retried :
      (m : Attempt Fault (Option Json)) (n : Action Fault Call (Option Json)) (x : Option Json)
      (t : List Call)
      → (m ≡ ok x) ⊎ (m ≡ throw (refused 401 none none))
      → ((u : List Call) → (n u).0 ≡ ok x)
      → (handle (lift m) (λ e. if is_unauthorized e then n else raise e) t).0 ≡ ok x
  unfolding ◌>>=◌ is_unauthorized
  retried m n x t (inl p) h = rw p refl
  retried m n x t (inr p) h = rw p (h t)

recovered_answer :
    (svc : Services) (token jwt : String) (answer : Verb → Url → Body → Option Json)
    (secret_name access_name : Option String) (d : Draft) (t : List Call)
    → TakesOnly svc token jwt answer
    → truthy secret_name ≡ true
    → truthy access_name ≡ true
    → (send_request svc secret_name access_name d t).0 ≡ ok (answer d.verb d.url d.body)
unfolding send_request get_secret_configs ◌>>=◌
recovered_answer svc token jwt answer s a d t takes h k =
    let (o, p) = read-run svc token jwt answer takes s t h in
    let u = (read_secret svc s t).1 in
    rw p (
      retried svc token jwt answer takes (authorized svc s a (config_of o) d false u).0
        (authorized svc s a (config_of o) d true) (answer d.verb d.url d.body) _
        (first-run svc token jwt answer takes s a (config_of o) d u k)
        (λ v. second-run svc token jwt answer takes s a (config_of o) d v k))

-- Whatever the services answer, a request of the REST API is sent at most twice, and at most two
-- access tokens are asked for; and if the services work and the REST API takes only the token that is
-- handed out now, a request succeeds whatever token the secret holds: `sendRequest` gives the answer
-- to the request.
pub send_request-recovers :
    (svc : Services) (token jwt : String) (answer : Verb → Url → Body → Option Json)
    (secret_name access_name : Option String) (d : Draft) (t : List Call)
    → TakesOnly svc token jwt answer
    → truthy secret_name ≡ true
    → truthy access_name ≡ true
    → ((send_request svc secret_name access_name d t).0 ≡ ok (answer d.verb d.url d.body))
      × ((other : Services)
          → Costs is_request 2 (send_request other secret_name access_name d)
            × Costs is_login 2 (send_request other secret_name access_name d))
send_request-recovers svc token jwt answer s a d t takes h k = (
  recovered_answer svc token jwt answer s a d t takes h k,
  λ other. send_request_bounds other s a d,
)
