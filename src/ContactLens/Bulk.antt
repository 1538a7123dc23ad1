-- ===== src/ContactLens/Bulk.antt =====
-- contactLensProcessor/telephonyIntegrationApi.js. A sleep is a call in the trace.
pub mod Bounds
pub mod Delivery
pub mod Examples
use service_cloud_voice_lamb.Common.{
  ℕ, zero, suc, ◌+◌, String, Bool, true, false, Option, none, some, List, [], ◌∷◌, map, keep,
  includes, get_elem?, eqb, leb, if◌then◌else◌,
}
use service_cloud_voice_lamb.Common.Text.{contains}
use service_cloud_voice_lamb.Common.Effect.{Result, ok, Exec, pure, call, handle, ◌>>=◌, ◌>>◌}
use service_cloud_voice_lamb.ContactLens.Calls.{
  Entry, ErrorEntry, Response, EventsPayload, SecretData, Call, sleep, post_bulk, post_events,
  Services,
}
use service_cloud_voice_lamb.ContactLens.Secrets.{
  get_secret_configs, generate_jwt_params, generate_jwt,
}

abbrev pub retry_delays : List ℕ
retry_delays = 5000 ∷ 10000 ∷ 20000 ∷ []

abbrev pub max_retries : ℕ
max_retries = 3

-- `{ data: { result: "Success" } }`, the only result of the two senders.
abbrev pub sent : String
sent = "Success"

-- The rate limit shows as RESOURCE_EXHAUSTED in the text of an entry's error.
unfoldable pub is_rate_limited : Option String → Bool
is_rate_limited none = false
is_rate_limited (some text) = contains text "RESOURCE_EXHAUSTED"

rate_limited_of : Option (List ErrorEntry) → List String
rate_limited_of none = []
rate_limited_of (some entries) =
    map (λ e. e.vendor_call_key) (keep (λ e. is_rate_limited e.message) entries)

unfoldable pub get_rate_limited_keys : Response → List String
unfolding rate_limited_of is_rate_limited
get_rate_limited_keys response = rate_limited_of response.errors

pub data Action : Type 0 where
  success done : Action
  retry : List String → Action

retry_or_done : List String → Action
retry_or_done [] = done
retry_or_done (k ∷ ks) = retry (k ∷ ks)

unfoldable pub classify_bulk_response : Response → Action
unfolding get_rate_limited_keys retry_or_done
classify_bulk_response response =
    if eqb response.status 202 then success else retry_or_done (get_rate_limited_keys response)

-- What a handler of an action decides: to stop, or to go on with the delay and the keys.
pub data Outcome : Type 0 where
  stop : Outcome
  again : Option ℕ → List String → Outcome

unfoldable pub handle_action : Action → ℕ → Outcome
handle_action success attempt = stop
handle_action done attempt = stop
handle_action (retry ks) attempt =
    if leb max_retries attempt then stop else again (get_elem? retry_delays attempt) ks

-- `if (outcome.shouldContinue) …`
unfoldable pub go_on : Outcome → (List String → Exec Call (Unit {0})) → Exec Call (Unit {0})
go_on stop next = pure tt
go_on (again delay ks) next = next ks

module _ (svc : Services) (endpoint : Option String) (jwt : String) where
  unfoldable pub invoke_bulk_api : List Entry → Exec Call Response
  invoke_bulk_api entries = call (post_bulk endpoint jwt entries) (λ t. svc.bulk t entries)

  -- `sleep(RETRY_DELAYS[attempt])`; past the table, `setTimeout(resolve, undefined)` waits 0 ms.
  sleep_before : ℕ → Exec Call (Unit {0})
  sleep_before attempt =
      call (sleep (elim (get_elem? retry_delays attempt) [ none ↦ 0 | some ms ↦ ms ])) (λ _. ok tt)

  -- The loop of `retryRateLimitedEntries`, with the rounds that are left and the round's number.
  unfoldable pub retry_rounds : ℕ → ℕ → List Entry → List String → Exec Call (Unit {0})
  unfolding sleep_before invoke_bulk_api
  retry_rounds zero attempt entries ks = pure tt
  retry_rounds (suc left) attempt entries ks = do
    sleep_before attempt
    response ← invoke_bulk_api (keep (λ e. includes ks e.vendor_call_key) entries)
    go_on (handle_action (classify_bulk_response response) (attempt + 1))
        (λ ks'. retry_rounds left (attempt + 1) entries ks')

  unfoldable pub retry_rate_limited_entries : List Entry → List String → Exec Call (Unit {0})
  retry_rate_limited_entries entries ks = retry_rounds max_retries 0 entries ks

  -- The body of the `try` block of `sendMessagesInBulk`.
  unfoldable pub deliver : List Entry → Exec Call (Unit {0})
  unfolding invoke_bulk_api retry_rate_limited_entries
  deliver entries = do
    response ← invoke_bulk_api entries
    go_on (handle_action (classify_bulk_response response) 0)
        (λ ks. retry_rate_limited_entries entries ks)

unfoldable pub send_messages_in_bulk : Services → Option String → List Entry → Exec Call String
unfolding deliver
send_messages_in_bulk svc secret_name entries = do
  secret ← get_secret_configs svc secret_name
  jwt ← generate_jwt svc (generate_jwt_params secret)
  handle (deliver svc secret.scrt_endpoint_base jwt entries) (λ _. pure tt)
  pure sent

unfoldable pub send_realtime_conversation_events :
    Services → String → EventsPayload → Option String → Exec Call String
send_realtime_conversation_events svc contact payload secret_name = do
  secret ← get_secret_configs svc secret_name
  jwt ← generate_jwt svc (generate_jwt_params secret)
  handle (call (post_events secret.scrt_endpoint_base jwt contact payload) svc.events)
      (λ _. pure tt)
  pure sent
