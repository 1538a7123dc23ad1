-- ===== src/Voicemail/Packaging/Examples.antt =====
-- Runs of voiceMailPackaging, and its properties at a concrete transcript.
use service_cloud_voice_lamb.Common.{◌*◌, ◌≡◌, refl, Option, none, some, List, [], ◌∷◌, ◌++◌}
use service_cloud_voice_lamb.Common.Effect.{ok}
use service_cloud_voice_lamb.Common.Cost.{Costs}
use service_cloud_voice_lamb.Voicemail.Packaging.{
  Call, invoke, delete_job, close, Response, Services, Event, wav_key_of, contact_of, results,
  handler,
}
use service_cloud_voice_lamb.Voicemail.Packaging.Routing.{
  is_routing, waited, handler_routings, Answers, handler-closes,
}

abbrev failing : Response
failing = record { function_error = some "Unhandled" }

-- The telephony lambda fails at every routing.
abbrev services : Services
services = record {
  delay = 60;
  tags = λ t. ok (("vm_dialedNumber", "+15550100") ∷ []);
  transcripts = λ t. ok ("Please call me back" ∷ []);
  invoke = λ t. ok failing;
  delete_job = λ t. ok (record { function_error = none });
}

abbrev a_transcript : Event
a_transcript = record { bucket = "recordings"; key = "voicemail_transcripts/c1.json" }

services-Answers : Answers services
services-Answers = record {
  tags = λ t. (_, refl);
  transcript = λ t. (_, _, refl);
  invoke = λ t. (_, refl);
  delete_job = λ t. (_, refl);
}

handler_routings_example :
    Costs is_routing 4 (handler services a_transcript)
    × Costs waited (4 * 60) (handler services a_transcript)
handler_routings_example = handler_routings services a_transcript

handler-closes_example :
    (o : List (Option Response)) × (front : List Call) × (handler services a_transcript [] ≡ (
      ok (results o),
      front
          ++ invoke (contact_of "voicemail_transcripts/c1.json") close
            ∷ delete_job (contact_of "voicemail_transcripts/c1.json")
            ∷ [],
    ))
handler-closes_example = handler-closes services a_transcript [] services-Answers refl

contact_test : contact_of "voicemail_transcripts/c1.json" ≡ "c1"
unfolding contact_of
contact_test = refl

recording_test : wav_key_of "voicemail_transcripts/c1.json" ≡ "voicemail_recordings/c1.wav"
unfolding wav_key_of
recording_test = refl
