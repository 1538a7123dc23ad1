-- ===== src/Voicemail/Transcribe/Names.antt =====
-- How the names that voiceMailTranscribe/handler.js gives a job fit those that
-- voiceMailPackaging/handler.js reads out of the transcript.
use service_cloud_voice_lamb.Common.{◌≡◌, ◌∙◌, String, true}
use Prim.Native.String.{◌++◌}
use text.Mathlib.TextLemmas.{nil-append, append-nil}
use service_cloud_voice_lamb.Common.Text.{replace-append, avoids, replace-skip}
use service_cloud_voice_lamb.Common.Object.{Object}
use service_cloud_voice_lamb.Voicemail.Packaging
use service_cloud_voice_lamb.Voicemail.Packaging.{wav_key_of}
use service_cloud_voice_lamb.Voicemail.Packaging.Names.{dot, key-names}
use service_cloud_voice_lamb.Voicemail.Transcribe.{contact_of, job_of}

-- The key under which voiceMailAudioProcessing stores the recording of a contact.
abbrev pub recording_of : String → String
recording_of c = "voicemail_recordings/" ++ (c ++ ".wav")

contact_of-recording_of : (c : String) → avoids dot c ≡ true → contact_of (recording_of c) ≡ c
unfolding contact_of
contact_of-recording_of c h =
    rw (replace-append "voicemail_recordings/" (c ++ ".wav") "", nil-append)
      (replace-skip dot "wav" c ".wav" "" h ∙ append-nil c)

-- The job for the recording of a contact whose name has no dot has that contact's name, and its output
-- is a transcript for which voiceMailPackaging works on the same contact, deletes the job of that name
-- and reads the tags of that very recording.
pub job-names :
    (bucket c : String) (tags : Object String)
    → avoids dot c ≡ true
    → let job = job_of (record { bucket = bucket; key = recording_of c }) tags in
      (job.name ≡ c)
      × (Packaging.contact_of job.output_key ≡ job.name)
      × (wav_key_of job.output_key ≡ recording_of c)
unfolding job_of
job-names bucket c tags h =
    let named = contact_of-recording_of c h in
    let (contact, wav) = key-names c h in (named, rw named contact, rw named wav)
