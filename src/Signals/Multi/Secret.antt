-- ===== src/Signals/Multi/Secret.antt =====
-- Which secrets multiorgPostCallAnalysisTrigger/handler.js reads, and what it posts.
use service_cloud_voice_lamb.Common.{
  ◌≡◌, String, Option, none, some, List, [], ◌∷◌, All, truthy, text_of,
}
use service_cloud_voice_lamb.Common.Effect.{ok, pure, call}
use service_cloud_voice_lamb.Common.Returns.{Returns, Returns-pure, Returns-if, Returns-handle}
use service_cloud_voice_lamb.Common.Trace.{
  Only, only_rules, Only-pure, Only-bind, Only-bind-Returns, Only-lift,
}
use service_cloud_voice_lamb.Telephony.Cache.{bucket_of, key_of}
use service_cloud_voice_lamb.Signals.Calls.{
  Metadata, Analysis, Signal, Call, Services, secret_value, get_cached, post, Event, nothing,
  success,
}
use service_cloud_voice_lamb.Signals.Chunks.{Sized, AreFull-Sized, slice_into_chunks-cut}
use service_cloud_voice_lamb.Signals.Analysis.{load_file, load_analysis, get_agent_timestamp}
use service_cloud_voice_lamb.Signals.Multi.{
  Config, retrieve_at, retrieve_from_cache, read_secret, get_secret_configs, secret_config,
  persist_signals, send_batches, send_all, send_signals, process, handler,
}

-- A name that the cache has in some object.
abbrev pub Cached : Services → String → Type 0
Cached svc name =
    (t : List Call) × (bucket : String) × (key : String) × (svc.get_cached t bucket key
      ≡ ok (some name))

-- A read of a secret is of one that the cache names, and a post holds from 1 to 25 signals.
abbrev pub Allowed : Services → Call → Type 0
Allowed svc (secret_value name) = Cached svc name
Allowed svc (post p) = Sized 25 p.events
Allowed svc c = Unit

abbrev IsCachedName : Services → Option String → Type 0
IsCachedName svc none = Unit
IsCachedName svc (some name) = Cached svc name

module _ (svc : Services) where
  call-CachedName :
      (bucket key : String)
      → Returns (IsCachedName svc) (call (get_cached bucket key) (λ t. svc.get_cached t bucket key))
  unfolding call
  call-CachedName bucket key = record { at = λ t o p. name_in t o p }
    where
      name_in :
          (t : List Call) (o : Option String)
          → svc.get_cached t bucket key ≡ ok o
          → IsCachedName svc o
      name_in t none p = tt
      name_in t (some name) p = (t, bucket, key, p)

  retrieve-CachedName :
      (contact : Option String) → Returns (IsCachedName svc) (retrieve_from_cache svc contact)
  unfolding retrieve_from_cache retrieve_at
  retrieve-CachedName contact =
      let location = text_of svc.secret_cache_s3 in
      Returns-if (truthy svc.secret_cache_s3) (retrieve_at svc location contact) (pure none)
        (λ _.
          Returns-handle _ _
            (call-CachedName (bucket_of location) (key_of location (text_of contact)))
            (λ e. Returns-pure none tt))
        (λ _. Returns-pure none tt)

  retrieve-Allowed :
      (contact : Option String) → Only (Allowed svc) (retrieve_from_cache svc contact)
  unfolding retrieve_from_cache retrieve_at
  retrieve-Allowed contact = search only_rules

  named-Allowed :
      (name : Option String)
      → IsCachedName svc name
      → Only (Allowed svc) (get_secret_configs svc name)
  unfolding get_secret_configs read_secret
  named-Allowed none h = search only_rules
  named-Allowed (some name) h = search only_rules

  secret_config-Allowed : (contact : Option String) → Only (Allowed svc) (secret_config svc contact)
  unfolding secret_config
  secret_config-Allowed contact =
      Only-bind-Returns (IsCachedName svc) _ _ (retrieve-Allowed contact)
        (retrieve-CachedName contact) (λ name h. search (only_rules, named-Allowed name h))

  persist_signals-Allowed :
      (contact : Option String) (events : List Signal) (c : Config)
      → Sized 25 events
      → Only (Allowed svc) (persist_signals svc contact events c)
  unfolding persist_signals
  persist_signals-Allowed contact events c h = search only_rules

  send_batches-Allowed :
      (contact : Option String) (c : Config) (batches : List (List Signal))
      → All (Sized 25) batches
      → Only (Allowed svc) (send_batches svc contact c batches)
  unfolding send_batches
  send_batches-Allowed contact c [] h = Only-pure success
  send_batches-Allowed contact c (batch ∷ rest) (p, h) =
      Only-bind _ _ (persist_signals-Allowed contact batch c p)
        (λ u. send_batches-Allowed contact c rest h)

  send_signals-Allowed :
      (contact : Option String) (signals : List Signal)
      → Only (Allowed svc) (send_signals svc contact signals)
  unfolding send_signals send_all
  send_signals-Allowed contact [] = Only-pure nothing
  send_signals-Allowed contact (s ∷ signals) =
      let (batches, run, whole, full) = slice_into_chunks-cut (s ∷ signals) 24 in
      Only-bind _ _ (secret_config-Allowed contact)
        (λ c. rw run (send_batches-Allowed contact c batches (AreFull-Sized 24 batches full)))

  process-Allowed :
      (loaded : Option (Metadata × Analysis)) → Only (Allowed svc) (process svc loaded)
  unfolding process get_agent_timestamp
  process-Allowed none = Only-pure nothing
  process-Allowed (some (meta, a)) = Only-bind _ _ (search only_rules) (λ contact.
      Only-bind _ _ (Only-lift _) (λ signals. send_signals-Allowed meta.contact_id signals))

  load-Allowed : (e : Event) → Only (Allowed svc) (load_analysis svc e)
  unfolding load_analysis load_file
  load-Allowed e = search only_rules depth 12

  -- Whatever the services answer, the lambda reads only secrets that the cache names, and every post
  -- holds from 1 to 25 signals.
  pub multi_handler-Allowed : (e : Event) → Only (Allowed svc) (handler svc e)
  unfolding handler
  multi_handler-Allowed e = Only-bind _ _ (load-Allowed e) (λ loaded. process-Allowed loaded)
