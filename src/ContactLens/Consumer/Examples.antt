-- ===== src/ContactLens/Consumer/Examples.antt =====
-- Runs of contactLensConsumer and multiorgContactLensConsumer, and their properties at concrete
-- records.
use service_cloud_voice_lamb.Common.{
  ◌≡◌, refl, String, Option, none, some, List, [], ◌∷◌, ◌++◌, map, get_elem?, arith, if◌then◌else◌,
  ◌==◌,
}
use service_cloud_voice_lamb.Common.Effect.{Result, ok, throw}
use service_cloud_voice_lamb.Telephony.Cache.{
  store_in_cache, bucket_of, key_of, split_slash, join_slash,
}
use service_cloud_voice_lamb.Common.Trace.{Only}
use service_cloud_voice_lamb.ContactLens.Calls.{KinesisRecord}
use service_cloud_voice_lamb.ContactLens.Consumer.{get_cached, invoke, Services, success}
use service_cloud_voice_lamb.ContactLens.Consumer as Single
use service_cloud_voice_lamb.ContactLens.Consumer.Multi.{handler}
use service_cloud_voice_lamb.ContactLens.Consumer.Forwarded.{IsForward, handlers-IsForward}
use service_cloud_voice_lamb.ContactLens.Consumer.Linked.{cached_name, linked}
use service_cloud_voice_lamb.ContactLens.Consumer.Stored.{s3_after, handler-stored}
use service_cloud_voice_lamb.Telephony.Calls
use service_cloud_voice_lamb.Telephony.Calls.{CacheData}
use service_cloud_voice_lamb.Telephony.Cache.RoundTrip.{last_put, found}

abbrev s3 : String → String → Result (Option String)
s3 bucket key = if key == "secrets/c1" then ok (some "org2") else throw "NoSuchKey"

abbrev services : Services
services = record {
  secret_cache_s3 = some "cache/secrets";
  get_cached = λ t bucket key. s3 bucket key;
  invoke = λ t. ok tt;
}

abbrev record_of : String → KinesisRecord
record_of contact = record {
  secret_name = none;
  arrival = 100;
  payload =
      some (record { event_type = some "SEGMENTS"; contact_id = contact; segments = some [] });
}

abbrev two_records : List KinesisRecord
two_records = record_of "c1" ∷ record_of "c2" ∷ []

handlers-IsForward_example :
    Only (IsForward two_records) (Single.handler services (some two_records))
    × Only (IsForward two_records) (handler services (some two_records))
handlers-IsForward_example = handlers-IsForward services two_records

-- The lambda that stores a name for the first contact.
abbrev telephony : Calls.Services
telephony = record {
  secret_name = none;
  secret_cache_s3 = some "cache/secrets";
  secret_value = λ t. throw "down";
  sign_jwt = λ t. throw "down";
  send = λ t r. throw "down";
  put_object = λ t. ok tt;
  get_object = λ t b k. found (last_put b k t none);
  now = λ t. "2024-01-01T00:00:00Z";
}

abbrev stored : CacheData
stored = record {
  contact_id = some "c1";
  secret_name = some "org2";
  timestamp = "";
  access_secret_name = none;
  voice_call_id = none;
}

abbrev later_services : Services
later_services = record {
  secret_cache_s3 = some "cache/secrets";
  get_cached =
      λ t bucket key. s3_after (store_in_cache telephony (some "c1") stored []).1 bucket key;
  invoke = λ t. ok tt;
}

handler-stored_example :
    (u : List Single.Call) × (ls : List KinesisRecord) × (handler later_services
        (some two_records)
        []
      ≡ (ok success, u ++ invoke ls ∷ []))
    × (get_elem? ls 0 ≡ some (record (record_of "c1") { secret_name = some "org2" }))
handler-stored_example =
    handler-stored telephony later_services "c1" "org2" stored [] two_records 0 (record_of "c1")
      (record { event_type = some "SEGMENTS"; contact_id = "c1"; segments = some [] })
      (λ t. refl, λ t b k. refl) refl refl (λ t b k. refl) (λ u. refl) (ground arith) refl refl
      (omega arith) refl refl refl

-- The second record has no name in the cache.
linked_test :
    map (linked (cached_name s3 "cache/secrets")) two_records
    ≡ record (record_of "c1") { secret_name = some "org2" } ∷ record_of "c2" ∷ []
unfolding key_of bucket_of split_slash join_slash
linked_test = refl
