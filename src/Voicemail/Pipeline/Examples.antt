-- ===== src/Voicemail/Pipeline/Examples.antt =====
-- A voicemail from its recording to its voice call.
use service_cloud_voice_lamb.Common.{◌≡◌, refl, ℕ, String, none, some, [], ◌∷◌}
use Prim.Native.String.{◌++◌ as ◌<>◌}
use service_cloud_voice_lamb.Common.Effect.{ok, throw, ◌>>=◌}
use service_cloud_voice_lamb.Common.Trace.{Extends, Only}
use service_cloud_voice_lamb.Common.Cost.{Costs}
use service_cloud_voice_lamb.Telephony.Calls as Telephony
use service_cloud_voice_lamb.Telephony.Handler as Handler
use service_cloud_voice_lamb.Telephony.Handler.{update}
use service_cloud_voice_lamb.Telephony.Handler.Dispatch.{Targets, is_send}
use service_cloud_voice_lamb.Telephony.Handler.Names.{Named}
use service_cloud_voice_lamb.Voicemail.Served.{event_of, invocation-Targets}
use service_cloud_voice_lamb.Voicemail.Decoder.{block, decode, big_int, on_data, on_chunk}
use service_cloud_voice_lamb.Voicemail.Audio.{
  VmRecord, readable, Upload, clean, vm_flag_of, stream_of, tags_of, process_record, process_flag,
  process_stream, process_tags, process_audio, write_audio, upload_of, duration_of,
}
use service_cloud_voice_lamb.Voicemail.Audio as Audio
use service_cloud_voice_lamb.Voicemail.Packaging.{Services, close, handler}
use service_cloud_voice_lamb.Voicemail.Transcribe.{job_of}
use service_cloud_voice_lamb.Voicemail.Pipeline.{
  kept_tags, fields_for, first_calls, handler-converts,
}
use service_cloud_voice_lamb.Voicemail.Pipeline.Uploads.{uploads}

abbrev a_record : VmRecord
a_record = record {
  contact_id = some "c1";
  attributes = some (("vm_flag", "1") ∷ ("vm_lang", "en-US") ∷ ("vm_from", "+15550100") ∷ []);
  system_endpoint = some (some "+15550199");
  initiation_timestamp = some "1";
  disconnect_timestamp = some "2";
  recordings = some (
      record { location = "stream/c1/1"; fragment_start_number = "5"; fragment_stop_number = "7" }
      ∷ []);
}

abbrev recorder : Audio.Services
recorder = record {
  bucket = some "recordings";
  data_endpoint = λ t. ok tt;
  media = λ t. block (1 ∷ 2 ∷ []) ∷ [];
  data_length = λ buffers. 2;
  put_object = λ t. ok tt;
}

abbrev an_upload : Upload
an_upload = record {
  key = "voicemail_recordings/c1.wav";
  audio = (1 ∷ 2 ∷ []) ∷ [];
  tags =
      (("vm_lang", "en-US")
        ∷ ("vm_dialedNumber", "+15550199")
        ∷ ("vm_initTimestamp", "1")
        ∷ ("vm_endTimestamp", "2")
        ∷ [])
      ∷ [];
  vm_duration = 1;
  vm_recording_url = "recordings/voicemail_recordings/c1.wav";
}

recorder-run : uploads (Audio.handler recorder (readable a_record ∷ []) clean []).1 ≡ an_upload ∷ []
unfolding Audio.handler process_record process_flag vm_flag_of process_stream stream_of process_tags
    tags_of process_audio write_audio upload_of decode big_int on_data on_chunk ◌>>=◌
recorder-run = refl

abbrev shown : ℕ → String
shown n = "1"

-- The telephony lambda is down.
abbrev services : Services
services = record {
  delay = 60;
  tags = λ t. ok (kept_tags shown an_upload);
  transcripts = λ t. ok ("hello" ∷ []);
  invoke = λ t. throw "down";
  delete_job = λ t. throw "down";
}

handler-converts_example :
    let job = job_of (record { bucket = "recordings"; key = "voicemail_recordings/c1.wav" }) [] in
    (job.name ≡ "c1")
    × (an_upload.vm_recording_url ≡ "recordings" <> ("/" <> "voicemail_recordings/c1.wav"))
    × Extends
        (λ _. Unit)
        (first_calls "recordings" an_upload.key job.output_key "c1"
          (fields_for shown a_record an_upload))
        (handler services (record { bucket = job.output_bucket_name; key = job.output_key }) []).1
handler-converts_example =
    handler-converts recorder services shown a_record "c1" "hello" an_upload [] [] refl refl
      recorder-run (λ t. refl) (λ t. refl)

abbrev telephony : Telephony.Services
telephony = record {
  secret_name = some "org1";
  secret_cache_s3 = none;
  secret_value = λ t. ok [];
  sign_jwt = λ t. ok "token";
  send = λ t r. ok [];
  put_object = λ t. ok tt;
  get_object = λ t b k. throw "NoSuchKey";
  now = λ t. "2024-01-01T00:00:00Z";
}

invocation-Targets_example :
    Only (Targets update "c1") (Handler.handler telephony (event_of (some "org2") "c1" close))
    × Costs is_send 1 (Handler.handler telephony (event_of (some "org2") "c1" close))
    × Only (Named (some "org2")) (Handler.handler telephony (event_of (some "org2") "c1" close))
invocation-Targets_example = invocation-Targets telephony (some "org2") "c1" close refl
