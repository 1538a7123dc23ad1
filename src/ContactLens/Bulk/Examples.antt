-- ===== src/ContactLens/Bulk/Examples.antt =====
-- Runs of contactLensProcessor/telephonyIntegrationApi.js against an endpoint that rate-limits
-- every entry, and the theorems at them.
use service_cloud_voice_lamb.Common.{
  ◌+◌, ◌≤◌, ◌≡◌, refl, ap, false, none, some, List, [], ◌∷◌, ◌++◌, map,
}
use service_cloud_voice_lamb.Common.Effect.{ok, pure, ◌>>=◌}
use service_cloud_voice_lamb.Common.Cost.{total}
use service_cloud_voice_lamb.ContactLens.Calls.{
  Entry, ErrorEntry, Response, Call, sleep, post_bulk, Services,
}
use service_cloud_voice_lamb.ContactLens.Secrets.{
  get_secret_configs, generate_jwt_params, generate_jwt,
}
use service_cloud_voice_lamb.ContactLens.Bulk.{
  get_rate_limited_keys, classify_bulk_response, handle_action, go_on, deliver, sent, retry_rounds,
  send_messages_in_bulk,
}
use service_cloud_voice_lamb.ContactLens.Bulk.Bounds.{
  is_post, sleeps, send_messages_in_bulk_bounds, send_messages_in_bulk_result,
}
use service_cloud_voice_lamb.ContactLens.Bulk.Delivery.{
  reports, Reported, Honest, Limits, accepted_not_resent, delivery_schedule,
}

abbrev exhausted : Entry → ErrorEntry
exhausted e = record {
  message = some "8 RESOURCE_EXHAUSTED: quota";
  vendor_call_key = e.vendor_call_key;
}

abbrev limited : List Entry → Response
limited es = record { status = 207; errors = some (map exhausted es) }

abbrev busy : Services
busy = record {
  use_extension = false;
  now = λ t. 7;
  default_secret = some "org";
  secret_value = λ t. ok (("CALL_CENTER_API_NAME", "center") ∷ []);
  secret_extension = λ t. ok [];
  sign_jwt = λ t. ok "token";
  bulk = λ t es. ok (limited es);
  events = λ t. ok tt;
}

abbrev first : Entry
first = record { vendor_call_key = "c1"; messages = [] }

abbrev second : Entry
second = record { vendor_call_key = "c2"; messages = [] }

abbrev batch : List Entry
batch = first ∷ second ∷ []

limited_keys :
    (es : List Entry) → get_rate_limited_keys (limited es) ≡ map (λ x. x.vendor_call_key) es
unfolding get_rate_limited_keys
limited_keys [] = refl
limited_keys (e ∷ es) = ap (◌∷◌ e.vendor_call_key) (limited_keys es)

busy-Limits : Limits busy (λ t es. limited es)
busy-Limits = record {
  answers = λ t es. refl;
  partial = λ t es. refl;
  limited = λ t es. limited_keys es;
}

limited_of : (es : List Entry) (r : Response) → busy.bulk [] es ≡ ok r → limited es ≡ r
limited_of es r h = cc

busy-Honest : Honest busy
busy-Honest t es r k h inc =
    let e : limited es ≡ r = limited_of es r h in rw (← limited_keys es) (rw (← e) at inc)

delivery_schedule_example :
    (deliver busy none "token" batch []).1
    ≡ post_bulk none "token" batch
      ∷ sleep 5000
      ∷ post_bulk none "token" batch
      ∷ sleep 10000
      ∷ post_bulk none "token" batch
      ∷ sleep 20000
      ∷ post_bulk none "token" batch
      ∷ []
delivery_schedule_example =
    delivery_schedule busy (λ t es. limited es) busy-Limits none "token" first (second ∷ []) []

accepted_not_resent_example :
    (calls : List Call) × ((deliver busy none "token" batch []).1
      ≡ [] ++ post_bulk none "token" batch ∷ calls)
    × Reported busy (reports (busy.bulk [] batch)) ([] ++ post_bulk none "token" batch ∷ []) calls
accepted_not_resent_example = accepted_not_resent busy none "token" batch [] busy-Honest

send_messages_in_bulk_bounds_example :
    (total is_post (send_messages_in_bulk busy (some "org") batch []).1 ≤ 0 + 4)
    × (total sleeps (send_messages_in_bulk busy (some "org") batch []).1 ≤ 0 + 35000)
send_messages_in_bulk_bounds_example = send_messages_in_bulk_bounds busy (some "org") batch []

send_messages_in_bulk_result_example :
    (send_messages_in_bulk busy (some "org") batch []).0
    ≡ ((get_secret_configs busy (some "org") >>= λ secret.
          generate_jwt busy (generate_jwt_params secret) >>= λ _. pure sent)
        []).0
send_messages_in_bulk_result_example = send_messages_in_bulk_result busy (some "org") batch []

-- An entry that was accepted is left out of the second post.
abbrev half : Services
half = record busy {
  bulk = λ t es. ok (record { status = 207; errors = some (exhausted second ∷ []) });
}

second_post :
    (deliver half none "token" batch []).1
    ≡ post_bulk none "token" batch
      ∷ sleep 5000
      ∷ post_bulk none "token" (second ∷ [])
      ∷ sleep 10000
      ∷ post_bulk none "token" (second ∷ [])
      ∷ sleep 20000
      ∷ post_bulk none "token" (second ∷ [])
      ∷ []
unfolding deliver retry_rounds classify_bulk_response handle_action go_on ◌>>=◌
second_post = refl
