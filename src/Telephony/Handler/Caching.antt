-- ===== src/Telephony/Handler/Caching.antt =====
-- When invokeTelephonyIntegrationApi/handler.js writes the secret cache, and what it writes.
use service_cloud_voice_lamb.Common.{
  ◌≡◌, refl, sym, String, Bool, true, false, Option, truthy, text_of, ◌||◌, ◌&&◌,
}
use service_cloud_voice_lamb.Common.Object.{get}
use service_cloud_voice_lamb.Telephony.Handler.Requests.{event_contact, contact_of-Returns}
use service_cloud_voice_lamb.Common.Effect.{pure}
use service_cloud_voice_lamb.Common.Trace.{
  Only, Only-pure, Only-if, Only-bind, Only-ask, Only-bind-Returns, only_rules,
}
use service_cloud_voice_lamb.Telephony.Calls.{
  Event, CacheData, Call, put_object, get_object, Services,
}
use service_cloud_voice_lamb.Telephony.Secrets.{generate_jwt}
use service_cloud_voice_lamb.Telephony.Cache.{store_in_cache, store_at, bucket_of, key_of}
use service_cloud_voice_lamb.Telephony.Api.{
  create_voice_call, update_voice_call, execute_omni_flow, send_message, cancel_omni_flow_execution,
  reroute_flow_execution, callback_execution, route_voice_call,
}
use service_cloud_voice_lamb.Telephony.Fields.{Context, named_by_event, if_truthy}
use service_cloud_voice_lamb.Telephony.Handler.{
  Method, create, update, transfer, cache, message, method_of, creates, dispatch, remember, serve,
  Reply, handle_event, handler,
}
use service_cloud_voice_lamb.Telephony.Handler.Rules.{
  contact_of-Only, inbound_fields-Only, transfer_fields-Only, named_fields-Only,
  get_secret_configs-Only,
}

abbrev pub is_cache : Method → Bool
is_cache cache = true
is_cache _ = false

-- What the method may store for a contact and the secret that the event names: an entry with
-- both, under the key of the contact at the cache location. Only `updateCache` may store it, or,
-- if the event names a secret, a method that creates a call.
abbrev pub Stores : Services → Method → (contact named : Option String) → Call → Type 0
Stores svc m contact named (put_object bucket key cached) =
    (truthy svc.secret_cache_s3 ≡ true)
    × (bucket ≡ bucket_of (text_of svc.secret_cache_s3))
    × (key ≡ key_of (text_of svc.secret_cache_s3) (text_of contact))
    × (cached.contact_id ≡ contact)
    × (cached.secret_name ≡ named)
    × ((is_cache m || (truthy named && creates m)) ≡ true)
Stores svc m contact named (get_object bucket key) = ⊥
Stores svc m contact named c = Unit

module _ (svc : Services) where
  store_at-Stores :
      (m : Method) (contact named : Option String) (cached : CacheData)
      → truthy svc.secret_cache_s3 ≡ true
      → (cached.contact_id ≡ contact)
      → (cached.secret_name ≡ named)
      → ((is_cache m || (truthy named && creates m)) ≡ true)
      → Only
          (Stores svc m contact named)
          (store_at svc (text_of svc.secret_cache_s3) contact cached)
  unfolding store_at
  store_at-Stores m contact named cached h p q r =
      let allowed : Stores svc m contact named (
          put_object (bucket_of (text_of svc.secret_cache_s3))
            (key_of (text_of svc.secret_cache_s3) (text_of contact)) cached) =
        (h, refl, refl, p, q, r) in
      search (only_rules, allowed)

  store_in_cache-Stores :
      (m : Method) (contact named : Option String) (cached : CacheData)
      → (cached.contact_id ≡ contact)
      → (cached.secret_name ≡ named)
      → ((is_cache m || (truthy named && creates m)) ≡ true)
      → Only (Stores svc m contact named) (store_in_cache svc contact cached)
  unfolding store_in_cache
  store_in_cache-Stores m contact named cached p q r =
      Only-if (truthy svc.secret_cache_s3) _ (pure false)
        (λ h. store_at-Stores m contact named cached h p q r) (λ h. Only-pure _)

  dispatch-Stores :
      (x : Context) (m : Method) → Only (Stores svc m x.contact x.secret_name) (dispatch svc x m)
  unfolding dispatch create_voice_call update_voice_call execute_omni_flow send_message
      cancel_omni_flow_execution reroute_flow_execution callback_execution route_voice_call
      generate_jwt
  dispatch-Stores x create = search (only_rules, inbound_fields-Only, tt) depth 8
  dispatch-Stores x update = search (only_rules, named_fields-Only, tt) depth 8
  dispatch-Stores x transfer = search (only_rules, transfer_fields-Only, tt) depth 8
  dispatch-Stores x message = search (only_rules, named_fields-Only, tt) depth 8
  dispatch-Stores x cache =
      Only-bind _ _ (Only-ask _)
        λ now. Only-bind _ _ (store_in_cache-Stores cache _ _ _ refl refl refl) λ u. Only-pure _
  dispatch-Stores x _ = search only_rules depth 8

  either : (a b : Bool) → b ≡ true → (a || b) ≡ true
  either true b p = refl
  either false b p = p

  remember-Stores :
      (x : Context) (m : Method) (r : Reply)
      → Only (Stores svc m x.contact x.secret_name) (remember svc x m r)
  unfolding remember
  remember-Stores x m r =
      Only-if (truthy x.secret_name && creates m) _ (pure tt)
        (λ h. Only-bind _ _ (Only-ask _) λ now.
          Only-bind _ _
            (store_in_cache-Stores m x.contact x.secret_name _ refl refl (either (is_cache m) _ h))
            λ u. Only-pure _)
        (λ h. Only-pure _)

  serve-Stores :
      (e : Event) (contact : Option String)
      → Only
          (Stores svc
            (method_of (get "methodName" e.parameters.values))
            contact
            (if_truthy (named_by_event "secretName" e)))
          (serve svc e contact)
  unfolding serve
  serve-Stores e contact = Only-bind _ _ (get_secret_configs-Only svc _ tt) λ c.
      Only-bind _ _ (dispatch-Stores _ _)
        λ r. Only-bind _ _ (remember-Stores _ _ r) λ u. Only-pure _

  serve_at-Stores :
      (e : Event) (contact : Option String)
      → contact ≡ event_contact e
      → Only
          (Stores svc
            (method_of (get "methodName" e.parameters.values))
            (event_contact e)
            (if_truthy (named_by_event "secretName" e)))
          (serve svc e contact)
  serve_at-Stores e contact p = rw (sym p) (serve-Stores e contact)

  handle_event-Stores :
      (e : Event)
      → Only
          (Stores svc
            (method_of (get "methodName" e.parameters.values))
            (event_contact e)
            (if_truthy (named_by_event "secretName" e)))
          (handle_event svc e)
  unfolding handle_event
  handle_event-Stores e =
      Only-bind-Returns _ _ _ (contact_of-Only e) (contact_of-Returns e)
        λ c q. let served = serve_at-Stores e c q in search (only_rules, served)

-- Whatever the services answer, the lambda never reads the cache, and all it stores there is an
-- entry with the event's contact and the secret that the event names, under the key of the contact
-- at the configured location. It stores it only for `updateCache`, or, if the event names a secret,
-- for a method that creates a voice call; and nothing when no location is configured.
pub handler-Stores :
    (svc : Services) (e : Event)
    → Only
        (Stores svc
          (method_of (get "methodName" e.parameters.values))
          (event_contact e)
          (if_truthy (named_by_event "secretName" e)))
        (handler svc e)
unfolding handler
handler-Stores svc e = let all = handle_event-Stores svc e in search (only_rules, all)
