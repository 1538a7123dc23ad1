-- ===== src/Voicemail/Multiorg.antt =====
-- multiorgVoiceMailPackaging: handler.js, and cacheUtils.js, which reads the name of the secret. The
-- data, and the names that are derived from the key of a transcript, are those of
-- voiceMailPackaging; each invocation has the name of the secret among its field values.
pub mod Simulation
pub mod Examples
use service_cloud_voice_lamb.Common.{
  ℕ, zero, suc, String, Bool, true, false, Option, none, some, List, [], ◌∷◌, truthy, text_of,
  if◌then◌else◌, not, ◌&&◌, ◌==◌,
}
use service_cloud_voice_lamb.Common.Text.{ends_with}
use service_cloud_voice_lamb.Common.Object.{Object, get}
use service_cloud_voice_lamb.Common.Effect.{
  Result, ok, throw, Exec, pure, raise, call, handle, ◌>>=◌, ◌>>◌,
}
use service_cloud_voice_lamb.Telephony.Cache.{bucket_of, key_of}
use service_cloud_voice_lamb.Voicemail.Packaging.{
  VoicemailFields, Invocation, convert, message, omni_flow, close, Response, Event, wav_key_of,
  contact_of, Reply, skipped, results,
}

pub data Call : Type 0 where
  get_cached : (bucket key : String) → Call
  get_object_tagging : (bucket key : String) → Call
  get_object : (bucket key : String) → Call
  wait : (seconds : ℕ) → Call
  invoke : (contact : String) → Invocation → (secret_name : Option String) → Call
  delete_job : String → Call

-- S3, the telephony lambda and the transcription service, with the delay before a routing and the
-- place of the cache. A transcript file is the list of its transcripts; of a cached object only the
-- name of the secret counts.
pub record Services : Type 0 where
  pub delay : ℕ
  pub secret_cache_s3 : Option String
  pub get_cached : List Call → String → String → Result (Option String)
  pub tags : List Call → Result (Object String)
  pub transcripts : List Call → Result (List String)
  pub invoke : List Call → Result Response
  pub delete_job : List Call → Result Response

abbrev pub first_transcript : List String → Exec Call String
first_transcript [] = raise "TypeError"
first_transcript (s ∷ rest) = pure s

unfoldable pub max_routing_attempts : ℕ
max_routing_attempts = 4

module _ (svc : Services) where
  unfoldable pub retrieve_at : String → String → Exec Call (Option String)
  retrieve_at location contact =
      let bucket = bucket_of location in
      let key = key_of location contact in
      handle (call (get_cached bucket key) (λ t. svc.get_cached t bucket key)) (λ err. pure none)

  -- The name of the secret in the cached object, if there is one.
  unfoldable pub retrieve_from_cache : String → Exec Call (Option String)
  retrieve_from_cache contact =
      if not (contact == "") && truthy svc.secret_cache_s3
      then retrieve_at (text_of svc.secret_cache_s3) contact
      else pure none

  unfoldable pub secret_name_of : String → Exec Call (Option String)
  secret_name_of contact = do
    name ← retrieve_from_cache contact
    pure (if truthy name then name else none)

module _ (svc : Services) (secret : Option String) (contact : String) where
  abbrev pub invocation : Invocation → Exec Call Response
  invocation i = call (invoke contact i secret) svc.invoke

  -- The routing loop, with the attempts that are left and the last answer.
  unfoldable pub route : Option String → ℕ → Option Response → Exec Call (Option Response)
  route dialed zero last = pure last
  route dialed (suc n) last = do
    call (wait svc.delay) (λ t. ok tt)
    answer ← invocation (omni_flow dialed)
    if truthy answer.function_error then route dialed n (some answer) else pure (some answer)

-- The body of the second `try`.
unfoldable pub pack :
    Services → Option String → String → String → Exec Call (List (Option Response))
unfolding max_routing_attempts
pack svc secret bucket key = do
  tags ← call (get_object_tagging bucket (wav_key_of key)) svc.tags
  transcripts ← call (get_object bucket key) svc.transcripts
  transcript ← first_transcript transcripts
  created ← invocation svc secret (contact_of key) (
      convert (record {
        recording_location = get "vm_recordingUrl" tags;
        total_recording_duration = get "vm_duration" tags;
        start_time = get "vm_initTimestamp" tags;
        end_time = get "vm_endTimestamp" tags;
      }))
  sent ←
      invocation svc secret (contact_of key)
        (message transcript (get "vm_initTimestamp" tags) (get "vm_endTimestamp" tags))
  routed ← route svc secret (contact_of key) (get "vm_dialedNumber" tags) max_routing_attempts none
  closed ← invocation svc secret (contact_of key) close
  deleted ← call (delete_job (contact_of key)) svc.delete_job
  pure (some created ∷ some sent ∷ routed ∷ some closed ∷ some deleted ∷ [])

unfoldable pub pack_event : Services → Event → Option String → Exec Call Reply
pack_event svc e secret =
    handle (do r ← pack svc secret e.bucket e.key; pure (results r)) (λ err. raise err)

unfoldable pub handler : Services → Event → Exec Call Reply
unfolding pack_event
handler svc e =
    if ends_with e.key ".json"
    then (do secret ← secret_name_of svc (contact_of e.key); pack_event svc e secret)
    else pure skipped
