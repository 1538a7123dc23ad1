-- ===== src/Voicemail/Multiorg/Examples.antt =====
-- A run of multiorgVoiceMailPackaging, and its property at a concrete transcript.
use service_cloud_voice_lamb.Common.{◌≡◌, refl, String, Option, some, [], ◌∷◌}
use service_cloud_voice_lamb.Common.Effect.{ok, throw, handle, ◌>>=◌}
use service_cloud_voice_lamb.Telephony.Cache.{bucket_of, key_of, split_slash, join_slash}
use service_cloud_voice_lamb.Voicemail.Packaging
use service_cloud_voice_lamb.Voicemail.Packaging.{Event, contact_of}
use service_cloud_voice_lamb.Voicemail.Multiorg.{
  get_cached, Services, secret_name_of, retrieve_at, retrieve_from_cache, handler,
}
use service_cloud_voice_lamb.Voicemail.Multiorg.Simulation.{seen, behind, handler-mirrors}

-- The telephony lambda cannot be invoked.
abbrev services : Services
services = record {
  delay = 60;
  secret_cache_s3 = some "cache";
  get_cached = λ t bucket key. ok (some "org2");
  tags = λ t. ok (("vm_dialedNumber", "+15550100") ∷ []);
  transcripts = λ t. ok ("hello" ∷ []);
  invoke = λ t. throw "down";
  delete_job = λ t. throw "down";
}

abbrev an_event : Event
an_event = record { bucket = "b"; key = "voicemail_transcripts/c1.json" }

handler-mirrors_example :
    (secret : Option String) × ((secret_name_of services (contact_of an_event.key) []).0
      ≡ ok secret)
    × (handler services an_event [] ≡ (
        let first = (secret_name_of services (contact_of an_event.key) []).1 in
        let single = Packaging.handler (seen services secret first) an_event [] in
        (single.0, behind secret first single.1)))
handler-mirrors_example = handler-mirrors services an_event [] refl

named_test :
    secret_name_of services (contact_of an_event.key) []
    ≡ (ok (some "org2"), get_cached "cache" "c1" ∷ [])
unfolding secret_name_of retrieve_from_cache retrieve_at contact_of bucket_of key_of split_slash
    join_slash handle ◌>>=◌
named_test = refl
