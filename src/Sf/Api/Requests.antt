-- ===== src/Sf/Api/Requests.antt =====
-- How many requests the functions of invokeSfRestApi make, and that they only make calls.
use service_cloud_voice_lamb.Common.{◌≡◌, refl, ℕ, String, Bool, true, false, Option, arith}
use service_cloud_voice_lamb.Common.Object.{Object}
use service_cloud_voice_lamb.Common.Trace.{Only, only_rules}
use service_cloud_voice_lamb.Common.Cost.{
  Costs, Costs-pure, Costs-raise, Costs-call, Costs-free, Costs-if, Costs-bind_left,
  Costs-bind_right, Costs-handle, Costs-weaken,
}
use service_cloud_voice_lamb.Sf.Calls.{
  Fault, refused, failed, Configs, Call, get_secret, update_secret, authenticate, send, Services,
}
use service_cloud_voice_lamb.Sf.Secrets.{read_secret, update_secret_value, get_secret_configs}
use service_cloud_voice_lamb.Sf.Token.{generate_jwt, obtain_token, get_access_token}
use service_cloud_voice_lamb.Sf.Api.{
  Draft, build_error, authorized, send_request, first_record, query_record,
}

-- What every call satisfies holds of all the calls of these functions.
module _ (P : Call → Type 0) (p : (c : Call) → P c) (svc : Services) where
  read_secret-Only : (name : Option String) → Only P (read_secret svc name)
  unfolding read_secret
  read_secret-Only name = search (only_rules, p)

  pub get_secret_configs-Only : (name : Option String) → Only P (get_secret_configs svc name)
  unfolding get_secret_configs
  get_secret_configs-Only name = search (only_rules, read_secret-Only)

  obtain_token-Only :
      (c : Configs) (name : Option String) (secret : Object String)
      → Only P (obtain_token svc c name secret)
  unfolding obtain_token generate_jwt update_secret_value
  obtain_token-Only c name secret = search (only_rules, p) depth 8

  get_access_token-Only :
      (c : Configs) (name : Option String) (b : Bool) → Only P (get_access_token svc c name b)
  unfolding get_access_token
  get_access_token-Only c name b = search (only_rules, read_secret-Only, obtain_token-Only)

  authorized-Only :
      (s a : Option String) (c : Configs) (d : Draft) (b : Bool) → Only P (authorized svc s a c d b)
  unfolding authorized
  authorized-Only s a c d b = search (only_rules, get_access_token-Only, p)

  pub send_request-Only : (s a : Option String) (d : Draft) → Only P (send_request svc s a d)
  unfolding send_request
  send_request-Only s a d = search (only_rules, get_secret_configs-Only, authorized-Only) depth 8

  pub build_error-Only : (e : Fault) → Only P (build_error e)
  unfolding build_error
  build_error-Only (refused status status_text found) = search only_rules
  build_error-Only (failed message code reason) = search only_rules

  pub query_record-Only : (s a q : Option String) → Only P (query_record svc s a q)
  unfolding query_record first_record
  query_record-Only s a q = search (only_rules, send_request-Only, build_error-Only) depth 10

-- One for a request of the REST API, and one for a request of a token.
abbrev pub is_request : Call → ℕ
is_request (send r) = 1
is_request c = 0

abbrev pub is_login : Call → ℕ
is_login (authenticate endpoint assertion) = 1
is_login c = 0

module _ (svc : Services) where
  read_secret_free :
      (w : Call → ℕ)
      → ((n : String) → w (get_secret n) ≡ 0)
      → (name : Option String) → Costs w 0 (read_secret svc name)
  unfolding read_secret
  read_secret_free w h name = Costs-if _ _ _ _ (Costs-free _ _ (h _)) (Costs-raise _)

  update_secret_free :
      (w : Call → ℕ)
      → ((n : String) (o : Object String) → w (update_secret n o) ≡ 0)
      → (name : Option String) (o : Object String) → Costs w 0 (update_secret_value svc name o)
  unfolding update_secret_value
  update_secret_free w h name o = Costs-if _ _ _ _ (Costs-free _ _ (h _ _)) (Costs-raise _)

  obtain_token_requests :
      (c : Configs) (name : Option String) (secret : Object String)
      → Costs is_request 0 (obtain_token svc c name secret)
  unfolding obtain_token generate_jwt
  obtain_token_requests c name secret = Costs-bind_right _ _ (Costs-free _ _ refl) λ j.
      Costs-bind_right _ _ (Costs-free _ _ refl) λ t.
        Costs-bind_right _ _ (update_secret_free is_request (λ n o. refl) _ _) λ u. Costs-pure _

  obtain_token_logins :
      (c : Configs) (name : Option String) (secret : Object String)
      → Costs is_login 1 (obtain_token svc c name secret)
  unfolding obtain_token generate_jwt
  obtain_token_logins c name secret = Costs-bind_right _ _ (Costs-free _ _ refl) λ j.
      Costs-bind_left _ _ (Costs-call _ _)
        λ t. Costs-bind_right _ _ (update_secret_free is_login (λ n o. refl) _ _) λ u. Costs-pure _

  get_access_token-Costs :
      (w : Call → ℕ) (n : ℕ)
      → ((m : String) → w (get_secret m) ≡ 0)
      → (c : Configs) (name : Option String) (b : Bool)
      → ((secret : Object String) → Costs w n (obtain_token svc c name secret))
      → Costs w n (get_access_token svc c name b)
  unfolding get_access_token
  get_access_token-Costs w n h c name b k =
      Costs-bind_right _ _ (read_secret_free w h name)
        λ secret. Costs-if n _ _ _ (k secret) (Costs-weaken (omega arith) (Costs-pure _))

  authorized_requests :
      (s a : Option String) (c : Configs) (d : Draft) (b : Bool)
      → Costs is_request 1 (authorized svc s a c d b)
  unfolding authorized
  authorized_requests s a c d b =
      Costs-bind_right _ _
        (get_access_token-Costs is_request 0 (λ m. refl) c a b (obtain_token_requests c a))
        (λ t. Costs-call _ _)

  authorized_logins :
      (s a : Option String) (c : Configs) (d : Draft) (b : Bool)
      → Costs is_login 1 (authorized svc s a c d b)
  unfolding authorized
  authorized_logins s a c d b =
      Costs-bind_left _ _
        (get_access_token-Costs is_login 1 (λ m. refl) c a b (obtain_token_logins c a))
        (λ t. Costs-free _ _ refl)

  send_request-Costs :
      (w : Call → ℕ)
      → ((m : String) → w (get_secret m) ≡ 0)
      → (s a : Option String) (d : Draft)
      → ((c : Configs) (b : Bool) → Costs w 1 (authorized svc s a c d b))
      → Costs w 2 (send_request svc s a d)
  unfolding send_request get_secret_configs
  send_request-Costs w h s a d k =
      Costs-bind_right _ _ (Costs-bind_left _ _ (read_secret_free w h s) λ o. Costs-pure _) (λ c.
        Costs-handle 1 1 _ _ (omega arith) (k c false)
          (λ e. Costs-if 1 _ _ _ (k c true) (Costs-weaken (omega arith) (Costs-raise _))))

-- Whatever the services answer, a request of the REST API is sent at most twice, and at most two
-- access tokens are asked for.
pub send_request_bounds :
    (svc : Services) (secret_name access_name : Option String) (d : Draft)
    → Costs is_request 2 (send_request svc secret_name access_name d)
      × Costs is_login 2 (send_request svc secret_name access_name d)
send_request_bounds svc s a d = (
  send_request-Costs svc is_request (λ m. refl) s a d (λ c b. authorized_requests svc s a c d b),
  send_request-Costs svc is_login (λ m. refl) s a d (λ c b. authorized_logins svc s a c d b),
)
