-- ===== src/ContactLens/Bulk/Bounds.antt =====
-- How often the bulk endpoint is called, how long is waited, and that nothing of it fails the
-- lambda (contactLensProcessor/telephonyIntegrationApi.js).
use service_cloud_voice_lamb.Common.{
  ℕ, zero, suc, ◌+◌, ◌≤◌, ◌≡◌, refl, String, Option, none, some, List, arith, get_elem?, truthy,
}
use service_cloud_voice_lamb.Common.Effect.{Exec, pure, handle, ◌>>=◌, bind-result, swallow-result}
use service_cloud_voice_lamb.Common.Cost.{
  total, Costs, Costs-pure, Costs-call, Costs-bind, Costs-handle, Costs-if, Costs-free, Costs-raise,
  Costs-weaken,
}
use service_cloud_voice_lamb.ContactLens.Calls.{
  Entry, JwtParams, Call, secret_value, secret_extension, sign_jwt, sleep, post_bulk, Services,
}
use service_cloud_voice_lamb.ContactLens.Secrets.{
  get_secret_configs, generate_jwt_params, generate_jwt,
}
use service_cloud_voice_lamb.ContactLens.Bulk.{
  retry_delays, retry_rounds, deliver, send_messages_in_bulk, sent, Outcome, stop, again, go_on,
}

-- The weight of a call: 1 for a post to the bulk endpoint; the milliseconds of a sleep.
abbrev pub is_post : Call → ℕ
is_post (post_bulk e j es) = 1
is_post c = 0

abbrev pub sleeps : Call → ℕ
sleeps (sleep ms) = ms
sleeps c = 0

-- The delay before a round, and all the delays of the rounds that are left.
abbrev delay_of : Option ℕ → ℕ
delay_of none = 0
delay_of (some ms) = ms

abbrev budget : ℕ → ℕ → ℕ
budget zero attempt = 0
budget (suc left) attempt = delay_of (get_elem? retry_delays attempt) + budget left (attempt + 1)

Costs-go_on :
    {w : Call → ℕ} {n : ℕ} (o : Outcome) (next : List String → Exec Call (Unit {0}))
    → ((ks : List String) → Costs w n (next ks))
    → Costs w n (go_on o next)
unfolding go_on
Costs-go_on stop next h = Costs-weaken (omega arith) (Costs-pure tt)
Costs-go_on (again d ks) next h = h ks

module _ (svc : Services) (endpoint : Option String) (jwt : String) where
  rounds_posts :
      (left attempt : ℕ) (entries : List Entry) (ks : List String)
      → Costs is_post left (retry_rounds svc endpoint jwt left attempt entries ks)
  unfolding retry_rounds
  rounds_posts zero attempt entries ks = Costs-pure tt
  rounds_posts (suc left) attempt entries ks =
      Costs-bind 0 (suc left) _ _ (omega arith) (Costs-call _ _) λ _.
        Costs-bind 1 left _ _ (omega arith) (Costs-call _ _)
          λ r. Costs-go_on _ _ (rounds_posts left (attempt + 1) entries)

  rounds_sleep :
      (left attempt : ℕ) (entries : List Entry) (ks : List String)
      → Costs sleeps (budget left attempt) (retry_rounds svc endpoint jwt left attempt entries ks)
  unfolding retry_rounds
  rounds_sleep zero attempt entries ks = Costs-pure tt
  rounds_sleep (suc left) attempt entries ks =
      Costs-bind (delay_of (get_elem? retry_delays attempt)) (budget left (attempt + 1)) _ _
        (omega arith) (Costs-call _ _)
        λ _.
          Costs-bind 0 (budget left (attempt + 1)) _ _ (omega arith) (Costs-call _ _)
            λ r. Costs-go_on _ _ (rounds_sleep left (attempt + 1) entries)

  deliver_posts : (entries : List Entry) → Costs is_post 4 (deliver svc endpoint jwt entries)
  unfolding deliver
  deliver_posts entries =
      Costs-bind 1 3 _ _ (omega arith) (Costs-call _ _)
        λ r. Costs-go_on _ _ (rounds_posts 3 0 entries)

  deliver_sleep : (entries : List Entry) → Costs sleeps 35000 (deliver svc endpoint jwt entries)
  unfolding deliver
  deliver_sleep entries =
      Costs-bind 0 35000 _ _ (omega arith) (Costs-call _ _)
        λ r. Costs-go_on _ _ (rounds_sleep 3 0 entries)

-- Reading a secret neither posts nor sleeps.
secret_free :
    {w : Call → ℕ} (svc : Services) (name : Option String)
    → ((n : String) → w (secret_value n) ≡ 0)
    → ((n : String) → w (secret_extension n) ≡ 0)
    → Costs w 0 (get_secret_configs svc name)
unfolding get_secret_configs
secret_free svc name hv he =
    Costs-bind 0 0 _ _ (omega arith)
      (Costs-if 0 (truthy name) _ _
        (Costs-if 0 svc.use_extension _ _ (Costs-free _ _ (he _)) (Costs-free _ _ (hv _)))
        (Costs-raise _))
      λ found. Costs-pure _

jwt_free :
    {w : Call → ℕ} (svc : Services) (p : JwtParams)
    → w (sign_jwt p) ≡ 0
    → Costs w 0 (generate_jwt svc p)
unfolding generate_jwt
jwt_free svc p h = Costs-free _ _ h

module _ (svc : Services) (name : Option String) (entries : List Entry) where
  send_posts : Costs is_post 4 (send_messages_in_bulk svc name entries)
  unfolding send_messages_in_bulk
  send_posts = Costs-bind 0 4 _ _ (omega arith) (secret_free svc name (λ _. refl) (λ _. refl)) λ s.
      Costs-bind 0 4 _ _ (omega arith) (jwt_free svc _ refl) λ jwt.
        Costs-bind 4 0 _ _ (omega arith)
          (Costs-handle 4 0 _ _ (omega arith) (deliver_posts svc s.scrt_endpoint_base jwt entries)
            (λ _. Costs-pure tt))
          λ _. Costs-pure _

  send_sleep : Costs sleeps 35000 (send_messages_in_bulk svc name entries)
  unfolding send_messages_in_bulk
  send_sleep =
      Costs-bind 0 35000 _ _ (omega arith) (secret_free svc name (λ _. refl) (λ _. refl)) λ s.
        Costs-bind 0 35000 _ _ (omega arith) (jwt_free svc _ refl) λ jwt.
          Costs-bind 35000 0 _ _ (omega arith)
            (Costs-handle 35000 0 _ _ (omega arith)
              (deliver_sleep svc s.scrt_endpoint_base jwt entries) (λ _. Costs-pure tt))
            λ _. Costs-pure _

-- Whatever the services answer, one call of sendMessagesInBulk posts to the bulk endpoint at most
-- four times and sleeps at most 35 seconds in all.
pub send_messages_in_bulk_bounds :
    (svc : Services) (name : Option String) (entries : List Entry) (t : List Call)
    → (total is_post (send_messages_in_bulk svc name entries t).1 ≤ total is_post t + 4)
      × (total sleeps (send_messages_in_bulk svc name entries t).1 ≤ total sleeps t + 35000)
send_messages_in_bulk_bounds svc name entries t =
    ((send_posts svc name entries).at t, (send_sleep svc name entries).at t)

delivered :
    (svc : Services) (entries : List Entry) (endpoint : Option String) (jwt : String)
    (t : List Call)
    → ((handle (deliver svc endpoint jwt entries) (λ _. pure tt) >>= λ _. pure sent) t).0
      ≡ (pure {C = Call} sent t).0
unfolding pure
delivered svc entries endpoint jwt t = swallow-result (deliver svc endpoint jwt entries) tt sent t

-- What delivery does never changes the result: it is "Success" as soon as the secret is read and
-- the token signed, and otherwise the error of the step that failed.
pub send_messages_in_bulk_result :
    (svc : Services) (name : Option String) (entries : List Entry) (t : List Call)
    → (send_messages_in_bulk svc name entries t).0
      ≡ ((get_secret_configs svc name >>= λ secret.
            generate_jwt svc (generate_jwt_params secret) >>= λ _. pure sent)
          t).0
unfolding send_messages_in_bulk
send_messages_in_bulk_result svc name entries t =
    bind-result {B = String} (get_secret_configs svc name) _ _
      (λ s.
        bind-result {B = String} (generate_jwt svc (generate_jwt_params s)) _ _
          (delivered svc entries s.scrt_endpoint_base))
      t
