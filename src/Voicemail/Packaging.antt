-- ===== src/Voicemail/Packaging.antt =====
-- voiceMailPackaging/handler.js. An answer of a lambda is its `FunctionError`; logging is left out.
pub mod Routing
pub mod Names
pub mod Examples
use service_cloud_voice_lamb.Common.{
  ℕ, zero, suc, ◌*◌, String, Bool, true, false, Option, none, some, List, [], ◌∷◌, truthy,
  if◌then◌else◌,
}
use service_cloud_voice_lamb.Common.Text.{replace, ends_with}
use service_cloud_voice_lamb.Common.Object.{Object, get}
use service_cloud_voice_lamb.Common.Effect.{
  Result, ok, throw, Exec, pure, raise, call, handle, ◌>>=◌, ◌>>◌,
}

-- The numbers stand as the texts that `parseInt` reads.
pub record VoicemailFields : Type 0 where
  pub recording_location : Option String
  pub total_recording_duration : Option String
  pub start_time : Option String
  pub end_time : Option String

-- The invocations of invokeTelephonyIntegrationApi: a call is converted into a voicemail, gets the
-- transcript, is routed, and is closed by an update without fields.
pub data Invocation : Type 0 where
  convert : VoicemailFields → Invocation
  message : (content : String) (start_time end_time : Option String) → Invocation
  omni_flow : (dialed_number : Option String) → Invocation
  close : Invocation

pub data Call : Type 0 where
  get_object_tagging : (bucket key : String) → Call
  get_object : (bucket key : String) → Call
  wait : (seconds : ℕ) → Call
  invoke : (contact : String) → Invocation → Call
  delete_job : String → Call

pub record Response : Type 0 where
  pub function_error : Option String

-- S3, the telephony lambda and the transcription service, with the delay before a routing. A
-- transcript file is the list of its transcripts.
pub record Services : Type 0 where
  pub delay : ℕ
  pub tags : List Call → Result (Object String)
  pub transcripts : List Call → Result (List String)
  pub invoke : List Call → Result Response
  pub delete_job : List Call → Result Response

pub record Event : Type 0 where
  pub bucket : String
  pub key : String

unfoldable pub wav_key_of : String → String
wav_key_of key =
    replace (replace key "voicemail_transcripts/" "voicemail_recordings/") ".json" ".wav"

unfoldable pub contact_of : String → String
contact_of key = replace (replace key "voicemail_transcripts/" "") ".json" ""

-- `transcripts[0].transcript`
abbrev pub first_transcript : List String → Exec Call String
first_transcript [] = raise "TypeError"
first_transcript (s ∷ rest) = pure s

module _ (svc : Services) (contact : String) where
  abbrev pub invocation : Invocation → Exec Call Response
  invocation i = call (invoke contact i) svc.invoke

  -- The routing loop, with the attempts that are left and the last answer.
  unfoldable pub route : Option String → ℕ → Option Response → Exec Call (Option Response)
  route dialed zero last = pure last
  route dialed (suc n) last = do
    call (wait svc.delay) (λ t. ok tt)
    answer ← invocation (omni_flow dialed)
    if truthy answer.function_error then route dialed n (some answer) else pure (some answer)

unfoldable pub max_routing_attempts : ℕ
max_routing_attempts = 4

-- The body of the `try`.
unfoldable pub pack : Services → String → String → Exec Call (List (Option Response))
unfolding max_routing_attempts
pack svc bucket key = do
  tags ← call (get_object_tagging bucket (wav_key_of key)) svc.tags
  transcripts ← call (get_object bucket key) svc.transcripts
  transcript ← first_transcript transcripts
  created ← invocation svc (contact_of key) (
      convert (record {
        recording_location = get "vm_recordingUrl" tags;
        total_recording_duration = get "vm_duration" tags;
        start_time = get "vm_initTimestamp" tags;
        end_time = get "vm_endTimestamp" tags;
      }))
  sent ←
      invocation svc (contact_of key)
        (message transcript (get "vm_initTimestamp" tags) (get "vm_endTimestamp" tags))
  routed ← route svc (contact_of key) (get "vm_dialedNumber" tags) max_routing_attempts none
  closed ← invocation svc (contact_of key) close
  deleted ← call (delete_job (contact_of key)) svc.delete_job
  pure (some created ∷ some sent ∷ routed ∷ some closed ∷ some deleted ∷ [])

pub data Reply : Type 0 where
  skipped : Reply
  results : List (Option Response) → Reply

unfoldable pub handler : Services → Event → Exec Call Reply
handler svc e =
    if ends_with e.key ".json"
    then handle (do r ← pack svc e.bucket e.key; pure (results r)) (λ err. raise err)
    else pure skipped
