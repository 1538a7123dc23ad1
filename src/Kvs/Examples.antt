-- ===== src/Kvs/Examples.antt =====
-- Runs of kvsConsumerTrigger, and its property at a concrete call.
use service_cloud_voice_lamb.Common.{◌≡◌, refl, String, true, false, Option, none, some, [], ◌∷◌}
use service_cloud_voice_lamb.Common.Effect.{throw, ◌>>=◌}
use service_cloud_voice_lamb.Kvs.{
  Event, Payload, invoke, respond, Services, build_payload, payload_for, require_secret, handler,
  invoked, run,
}
use service_cloud_voice_lamb.Kvs.Started.{IsRun, run-IsRun}

abbrev services : Option String → Services
services err = record { secret_name = some "org"; outcome = λ t. err }

abbrev an_event : Event
an_event = record {
  contact_data = some (record {
    attributes = some (("streamAudioToCustomer", "false") ∷ []);
    audio = some (record {
      stream_arn = some "arn";
      start_fragment_number = some "1";
      start_timestamp = some "9";
    });
    customer_endpoint = some (some "+15550100");
    contact_id = some "c1";
    instance_arn = some "i";
  });
  parameters = some (("engine", "") ∷ ("vocabularyName", "words") ∷ []);
}

run-IsRun_example : IsRun (services (some "down")) [] (run (services (some "down")) an_event [])
run-IsRun_example = run-IsRun (services (some "down")) an_event []

abbrev a_payload : Payload
a_payload = record {
  stream_arn = some "arn";
  start_fragment_num = some "1";
  audio_start_timestamp = some "9";
  customer_phone_number = some "+15550100";
  voice_call_id = some "c1";
  language_code = "en-US";
  stream_audio_from_customer = true;
  stream_audio_to_customer = false;
  instance_arn = some "i";
  engine = "standard";
  secret_name = "org";
  vocabulary_name = some "words";
  vocabulary_filter_name = none;
  vocabulary_filter_method = none;
  specialty = none;
}

failed_test :
    run (services (some "down")) an_event [] ≡ (throw "down", invoke a_payload ∷ respond ∷ [])
unfolding run handler build_payload payload_for require_secret invoked ◌>>=◌
failed_test = refl
