-- ===== src/Voicemail/Transcribe.antt =====
-- voiceMailTranscribe/handler.js: the transcription job of a recording.
pub mod Names
pub mod Examples
use service_cloud_voice_lamb.Common.{String, Option, some, List, text_of, ◌or_else◌}
use Prim.Native.String.{◌++◌}
use service_cloud_voice_lamb.Common.Text.{replace}
use service_cloud_voice_lamb.Common.Object.{Object, get}
use service_cloud_voice_lamb.Common.Effect.{
  Attempt, ok, throw, Result, Exec, pure, call, settle, handle, ◌>>=◌,
}
use service_cloud_voice_lamb.Voicemail.Packaging.{Event}

-- The settings of a job, without the format, which is always that of a WAV file.
pub record Job : Type 0 where
  pub name : String
  pub language_code : Option String
  pub media_file_uri : String
  pub output_bucket_name : String
  pub output_key : String

pub data Call : Type 0 where
  get_object_tagging : (bucket key : String) → Call
  start_transcription_job : Job → Call

-- S3 and the transcription service.
pub record Services : Type 0 where
  pub tags : List Call → Result (Object String)
  pub start_transcription_job : List Call → Result (Unit {0})

unfoldable pub contact_of : String → String
contact_of key = replace (replace key "voicemail_recordings/" "") ".wav" ""

unfoldable pub job_of : Event → Object String → Job
job_of e tags = record {
  name = contact_of e.key;
  language_code = get "vm_lang" tags or_else some "en-US";
  media_file_uri = "s3://" ++ (e.bucket ++ ("/" ++ e.key));
  output_bucket_name = e.bucket;
  output_key = "voicemail_transcripts/" ++ (contact_of e.key ++ ".json");
}

module _ (svc : Services) where
  -- What follows the tags, unless they could not be read; an error of the job is only logged.
  unfoldable pub start : Event → Result (Object String) → Exec Call (Unit {0})
  unfolding job_of
  start e (throw err) = pure tt
  start e (ok tags) =
      handle (call (start_transcription_job (job_of e tags)) svc.start_transcription_job)
        (λ err. pure tt)

  unfoldable pub handler : Event → Exec Call (Unit {0})
  handler e = do tags ← settle (call (get_object_tagging e.bucket e.key) svc.tags); start e tags
