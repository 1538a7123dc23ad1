-- ===== src/Voicemail/Pipeline.antt =====
-- How a voicemail passes from voiceMailAudioProcessing, which stores its recording with tags, over the
-- job of voiceMailTranscribe to voiceMailPackaging, which reads the tags of the recording.
pub mod Uploads
pub mod Examples
use service_cloud_voice_lamb.Common.{
  ◌≡◌, refl, ap, ◌∙◌, sym, subst, ℕ, zero, suc, String, true, Option, none, some, List, [], ◌∷◌,
  ◌++◌, text_of, append_assoc,
}
use Prim.Native.String.{◌++◌ as ◌<>◌}
use text.Mathlib.TextLemmas as Lemmas
use service_cloud_voice_lamb.Common.Object.{Object, get}
use service_cloud_voice_lamb.Common.Text.{avoids, ends_with, ends_with-append}
use service_cloud_voice_lamb.Common.Effect.{
  Result, ok, throw, pure, lift, call, handle, raise, ◌>>=◌,
}
use service_cloud_voice_lamb.Common.Trace.{
  Only, Only-pure, Only-bind, Extends, after-call, after-pure, at-call, only_rules,
}
use service_cloud_voice_lamb.Voicemail.Audio.{
  VmRecord, readable, Tags, Upload, tags_from, tags_of, clean,
}
use service_cloud_voice_lamb.Voicemail.Audio as Audio
use service_cloud_voice_lamb.Voicemail.Packaging.{
  VoicemailFields, convert, Call, get_object_tagging, get_object, invoke, Services, Event,
  wav_key_of, contact_of, Response, pack, route, results, handler,
}
use service_cloud_voice_lamb.Voicemail.Packaging.Names.{dot}
use service_cloud_voice_lamb.Voicemail.Transcribe
use service_cloud_voice_lamb.Voicemail.Transcribe.{job_of}
use service_cloud_voice_lamb.Voicemail.Transcribe.Names.{recording_of, job-names}
use service_cloud_voice_lamb.Voicemail.Pipeline.Uploads.{
  uploads, IsRecordingOf, handler-IsRecordingOf,
}

abbrev all_tags : List Tags → Object String
all_tags [] = []
all_tags (t ∷ ts) = t ++ all_tags ts

-- The tags that S3 keeps of an upload, decoded; `shown` is the text of a number.
abbrev pub kept_tags : (ℕ → String) → Upload → Object String
kept_tags shown u =
    all_tags u.tags
    ++ ("vm_duration", shown u.vm_duration) ∷ ("vm_recordingUrl", u.vm_recording_url) ∷ []

-- The fields of the voicemail that a record and its recording ask for.
abbrev pub fields_for : (ℕ → String) → VmRecord → Upload → VoicemailFields
fields_for shown v u = record {
  recording_location = some u.vm_recording_url;
  total_recording_duration = some (shown u.vm_duration);
  start_time = some (text_of v.initiation_timestamp);
  end_time = some (text_of v.disconnect_timestamp);
}

-- The fields that voiceMailPackaging reads out of tags.
abbrev fields_in : Object String → VoicemailFields
fields_in tags = record {
  recording_location = get "vm_recordingUrl" tags;
  total_recording_duration = get "vm_duration" tags;
  start_time = get "vm_initTimestamp" tags;
  end_time = get "vm_endTimestamp" tags;
}

tags_from-fields :
    (shown : ℕ → String) (v : VmRecord) (u : Upload) (o : Option (Option String)) (tags : Tags)
    → tags_from v o ≡ ok tags
    → u.tags ≡ tags ∷ []
    → fields_in (kept_tags shown u) ≡ fields_for shown v u
unfolding tags_from
tags_from-fields shown v u none tags h k = absurd (cc)
tags_from-fields shown v u (some address) tags h k =
    let e : tags
        ≡ ("vm_lang", text_of (elim v.attributes [ none ↦ none | some a ↦ get "vm_lang" a ]))
          ∷ ("vm_dialedNumber", text_of address)
          ∷ ("vm_initTimestamp", text_of v.initiation_timestamp)
          ∷ ("vm_endTimestamp", text_of v.disconnect_timestamp)
          ∷ [] =
      cc in
    ap
      (λ ts. fields_in (
        all_tags ts
        ++ ("vm_duration", shown u.vm_duration) ∷ ("vm_recordingUrl", u.vm_recording_url) ∷ []))
      (k ∙ ap (λ t. t ∷ []) e)

any_call :
    (svc : Services) (c : String) (dialed : Option String) (n : ℕ) (last : Option Response)
    → Only (λ _. Unit) (route svc c dialed n last)
unfolding route
any_call svc c dialed zero last = Only-pure _
any_call svc c dialed (suc n) last =
    let again = any_call svc c dialed n in search (only_rules, again, tt) depth 8

-- The calls up to the conversion of a call.
abbrev pub first_calls : String → String → String → String → VoicemailFields → List Call
first_calls bucket recording transcript contact fields =
    get_object_tagging bucket recording
    ∷ get_object bucket transcript
    ∷ invoke contact (convert fields)
    ∷ []

first_calls-path :
    (b k : String) {w x c d : String} {f g : VoicemailFields}
    → w ≡ x
    → c ≡ d
    → f ≡ g
    → first_calls b w k c f ≡ first_calls b x k d g
first_calls-path b k p q r = rw (p, q, r) refl

module _ (svc : Services) (b key : String) (tags : Object String) (x : String) (rest : List String)
    (tagged : (t : List Call) → svc.tags t ≡ ok tags)
    (transcribed : (t : List Call) → svc.transcripts t ≡ ok (x ∷ rest)) where
  abbrev calls_here : List Call
  calls_here = first_calls b (wav_key_of key) key (contact_of key) (fields_in tags)

  pack-converts : Extends (λ _. Unit) calls_here (pack svc b key []).1
  unfolding pack
  pack-converts = after-call _ _ _ [] calls_here tags (tagged []) (
      after-call _ _ _ _ calls_here (x ∷ rest) (transcribed _) (
        after-pure x _ _ calls_here (
          at-call _ _ _ _
            (λ created. let routed = any_call svc in search (only_rules, routed, tt) depth 12))))

rethrown :
    {A B : Type 0} (r : Result A) (f : A → B) (t : List Call)
    → (handle (do a ← lift r; pure (f a)) (λ e. raise e) t).1 ≡ t
unfolding ◌>>=◌
rethrown (ok a) f t = refl
rethrown (throw e) f t = refl

handler-trace :
    (svc : Services) (e : Event)
    → ends_with e.key ".json" ≡ true
    → (handler svc e []).1 ≡ (pack svc e.bucket e.key []).1
unfolding handler ◌>>=◌
handler-trace svc e h =
    rw h (rethrown (pack svc e.bucket e.key []).0 results (pack svc e.bucket e.key []).1)

is_json : (x : String) → ends_with ("voicemail_transcripts/" <> (x <> ".json")) ".json" ≡ true
is_json x =
    rw (← Lemmas.append_assoc "voicemail_transcripts/" x ".json")
      (ends_with-append ("voicemail_transcripts/" <> x) ".json")

job_of-names :
    (bucket k c : String) (tags : Object String)
    → avoids dot c ≡ true
    → k ≡ recording_of c
    → let job = job_of (record { bucket = bucket; key = k }) tags in
      (job.name ≡ c)
      × (contact_of job.output_key ≡ c)
      × (wav_key_of job.output_key ≡ k)
      × (ends_with job.output_key ".json" ≡ true)
unfolding job_of
job_of-names bucket k c tags h e =
    let (named, contact, wav) = job-names bucket c tags h in
    (rw e named, rw e (contact ∙ named), rw e wav, is_json (Transcribe.contact_of k))

-- A voicemail keeps its data on its way. If voiceMailAudioProcessing, in a clean container, stores one
-- upload for the record of a contact whose name has no dot, and S3 gives back the tags that were stored
-- with it, then the job of voiceMailTranscribe for this recording has the contact's name, and for the
-- transcript that it writes,
-- voiceMailPackaging first reads the tags of that upload and the transcript, and then makes the
-- contact's call a voicemail with the location and the length of the recording and the times of the
-- record, whatever the telephony lambda answers.
pub handler-converts :
    (audio : Audio.Services) (svc : Services) (shown : ℕ → String) (v : VmRecord) (c x : String)
    (u : Upload) (job_tags : Object String) (rest : List String)
    → avoids dot c ≡ true
    → v.contact_id ≡ some c
    → uploads (Audio.handler audio (readable v ∷ []) clean []).1 ≡ u ∷ []
    → ((t : List Call) → svc.tags t ≡ ok (kept_tags shown u))
    → ((t : List Call) → svc.transcripts t ≡ ok (x ∷ rest))
    → let bucket = text_of audio.bucket in
      let job = job_of (record { bucket = bucket; key = u.key }) job_tags in
      (job.name ≡ c)
      × (u.vm_recording_url ≡ bucket <> ("/" <> u.key))
      × Extends
          (λ _. Unit)
          (first_calls bucket u.key job.output_key c (fields_for shown v u))
          (handler svc (record { bucket = job.output_bucket_name; key = job.output_key }) []).1
unfolding job_of tags_of
handler-converts audio svc shown v c x u job_tags rest d named stored tagged transcribed =
    let bucket : String = text_of audio.bucket in
    let (tags, has, alone, key, url) = handler-IsRecordingOf audio v u stored in
    let e : u.key ≡ recording_of c = key ∙ ap (λ o. recording_of (text_of o)) named in
    let (name, contact, wav, json) = job_of-names bucket u.key c job_tags d e in
    let key' : String = "voicemail_transcripts/" <> (Transcribe.contact_of u.key <> ".json") in
    let read : fields_in (kept_tags shown u) ≡ fields_for shown v u =
      tags_from-fields shown v u v.system_endpoint tags has alone in
    (
      name,
      url,
      subst (λ l. Extends (λ _. Unit) l (handler svc (record { bucket = bucket; key = key' }) []).1)
          (first_calls-path bucket key' wav contact read)
          (rw (handler-trace svc (record { bucket = bucket; key = key' }) json)
            (pack-converts svc bucket key' (kept_tags shown u) x rest tagged transcribed)),
    )
