-- ===== src/Voicemail/Transcribe/Examples.antt =====
-- A run of voiceMailTranscribe.
use service_cloud_voice_lamb.Common.{◌≡◌, refl, [], ◌∷◌}
use service_cloud_voice_lamb.Common.Effect.{ok, throw, handle, settle, ◌>>=◌}
use service_cloud_voice_lamb.Voicemail.Packaging.{Event}
use service_cloud_voice_lamb.Voicemail.Transcribe.{
  get_object_tagging, start_transcription_job, Services, job_of, start, handler,
}
use service_cloud_voice_lamb.Voicemail.Transcribe.Names.{recording_of}

abbrev a_recording : Event
a_recording = record { bucket = "recordings"; key = recording_of "c1" }

abbrev services : Services
services = record { tags = λ t. ok []; start_transcription_job = λ t. throw "ConflictException" }

run_test : handler services a_recording [] ≡ (
  ok tt,
  get_object_tagging "recordings" "voicemail_recordings/c1.wav"
      ∷ start_transcription_job (job_of a_recording [])
      ∷ [],
)
unfolding handler start handle settle ◌>>=◌
run_test = refl
