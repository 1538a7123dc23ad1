-- ===== src/Voicemail/Audio.antt =====
-- voiceMailAudioProcessing/handler.js: the loop over contact records, with the variables that the
-- lambda's container keeps between records and between runs. The log of the results is left out. A
-- stream is named by the location that the code cuts its name out of.
pub mod Kept
pub mod Loop
pub mod Examples
use service_cloud_voice_lamb.Common.{
  ℕ, ◌+◌, ◌/◌, String, Bool, true, false, Option, none, some, List, [], ◌∷◌, ◌++◌, ◌&&◌, truthy,
  text_of, ◌==◌, ◌or_else◌, equals, if◌then◌else◌,
}
use Prim.Native.String.{◌++◌ as ◌<>◌}
use service_cloud_voice_lamb.Common.Object.{Object, get}
use service_cloud_voice_lamb.Common.Effect.{
  Result, ok, throw, Exec, pure, raise, lift, call, settle, handle, then_ok, ◌>>=◌, ◌>>◌,
}
use service_cloud_voice_lamb.Voicemail.Decoder.{Chunk, Decoder, big_int, decode}

-- A recording of a contact, with the fragments it starts and stops at.
pub record Recording : Type 0 where
  pub location : String
  pub fragment_start_number : String
  pub fragment_stop_number : String

-- `system_endpoint` is `SystemEndpoint`, which has an `Address`.
pub record VmRecord : Type 0 where
  pub contact_id : Option String
  pub attributes : Option (Object String)
  pub system_endpoint : Option (Option String)
  pub initiation_timestamp : Option String
  pub disconnect_timestamp : Option String
  pub recordings : Option (List Recording)

-- A record of the event: its data is a contact record, or is not JSON.
pub data Record : Type 0 where
  unreadable : Record
  readable : VmRecord → Record

-- The tags of one recording, in the order of the text that they stand in; the texts of several
-- recordings stand behind each other without a separator.
abbrev pub Tags : Type 0
Tags = Object String

-- The variables of the module: `attrTagContainer`, `wavBufferArray` and `fileDataLength`.
pub record Globals : Type 0 where
  pub attr_tag_container : List Tags
  pub wav_buffer_array : List (List ℕ)
  pub file_data_length : ℕ

pub record Upload : Type 0 where
  pub key : String
  pub audio : List (List ℕ)
  pub tags : List Tags
  pub vm_duration : ℕ
  pub vm_recording_url : String

pub data Call : Type 0 where
  get_data_endpoint : (location : String) → Call
  get_media : (location : String) (start : ℕ) → Call
  put_object : Upload → Call

-- Kinesis video, with the chunks that the EBML decoder finds in a stream, the number of bytes that
-- the WAV writer counts, and S3.
pub record Services : Type 0 where
  pub bucket : Option String
  pub data_endpoint : List Call → Result (Unit {0})
  pub media : List Call → List Chunk
  pub data_length : List (List ℕ) → ℕ
  pub put_object : List Call → Result (Unit {0})

-- What follows a record: the next one, or, after a `return`, nothing.
pub data Next : Type 0 where
  go_on stop : Globals → Next

pub data Flag : Type 0 where
  already_processed voicemail not_valid broken : Flag

-- The check of the flag, which reads the attributes of the record.
unfoldable pub vm_flag_of : Option (Object String) → Flag
vm_flag_of none = broken
vm_flag_of (some attributes) =
    let flag = get "vm_flag" attributes or_else some "99" in
    if equals flag "0"
    then already_processed
    else if equals flag "1"
        && truthy (get "vm_lang" attributes)
        && truthy (get "vm_from" attributes)
    then voicemail
    else not_valid

pub record Stream : Type 0 where
  pub location : String
  pub start : ℕ
  pub stop : ℕ

unfoldable pub stream_of : Option (List Recording) → Result Stream
stream_of none = throw "TypeError"
stream_of (some []) = throw "TypeError"
stream_of (some (r ∷ rest)) = then_ok (big_int r.fragment_start_number) (λ start.
    then_ok (big_int r.fragment_stop_number)
      (λ stop. ok (record { location = r.location; start = start; stop = stop })))

unfoldable pub tags_from : VmRecord → Option (Option String) → Result Tags
tags_from v none = throw "TypeError"
tags_from v (some address) = ok (
    ("vm_lang", text_of (elim v.attributes [ none ↦ none | some a ↦ get "vm_lang" a ]))
    ∷ ("vm_dialedNumber", text_of address)
    ∷ ("vm_initTimestamp", text_of v.initiation_timestamp)
    ∷ ("vm_endTimestamp", text_of v.disconnect_timestamp)
    ∷ [])

unfoldable pub tags_of : VmRecord → Result Tags
unfolding tags_from
tags_of v = tags_from v v.system_endpoint

abbrev pub clean : Globals
clean = record { attr_tag_container = []; wav_buffer_array = []; file_data_length = 0 }

-- The file length by the 16000 bytes of a second, rounded up.
unfoldable pub duration_of : ℕ → ℕ
duration_of bytes = (bytes + 15999) / 16000

unfoldable pub upload_of : Services → String → Globals → Upload
unfolding duration_of
upload_of svc contact g =
    let key = "voicemail_recordings/" <> (contact <> ".wav") in
    record {
      key = key;
      audio = g.wav_buffer_array;
      tags = g.attr_tag_container;
      vm_duration = duration_of g.file_data_length;
      vm_recording_url = text_of svc.bucket <> ("/" <> key);
    }

abbrev fresh : List (List ℕ) → Decoder
fresh audio = record {
  should_process_kvs = true;
  current_tag_name = "";
  current_fragment = 0;
  audio = audio;
}

-- The end of the stream: the audio goes through the writer and its file to S3. An error in the
-- listeners or of `putObject` is not caught by the handler: the run ends.
unfoldable pub write_audio : Services → String → Stream → Globals → List Chunk → Exec Call Next
write_audio svc contact s g chunks = do
  d ← lift (decode s.stop contact (fresh g.wav_buffer_array) chunks)
  let written : Globals = record {
    attr_tag_container = g.attr_tag_container;
    wav_buffer_array = d.audio;
    file_data_length = g.file_data_length + svc.data_length d.audio;
  }
  call (put_object (upload_of svc contact written)) svc.put_object
  pure (go_on clean)

abbrev pub endpoint_or : Result (Unit {0}) → Exec Call Next → Exec Call Next → Exec Call Next
endpoint_or (ok u) m n = m
endpoint_or (throw e) m n = n

unfoldable pub process_audio : Services → String → Stream → Globals → Exec Call Next
process_audio svc contact s g = do
  endpoint ← settle (call (get_data_endpoint s.location) svc.data_endpoint)
  endpoint_or endpoint
      (do
        chunks ← call (get_media s.location s.start) (λ t. ok (svc.media t))
        write_audio svc contact s g chunks)
      (pure (stop g))

unfoldable pub process_tags : Services → VmRecord → Stream → Result Tags → Globals → Exec Call Next
process_tags svc v s (throw e) g = pure (stop g)
process_tags svc v s (ok tags) g =
    process_audio svc (text_of v.contact_id) s
      (record g { attr_tag_container = g.attr_tag_container ++ tags ∷ [] })

unfoldable pub process_stream : Services → VmRecord → Result Stream → Globals → Exec Call Next
process_stream svc v (throw e) g = pure (stop g)
process_stream svc v (ok s) g = process_tags svc v s (tags_of v) g

unfoldable pub process_flag : Services → VmRecord → Flag → Globals → Exec Call Next
process_flag svc v already_processed g = pure (stop g)
process_flag svc v broken g = pure (stop g)
process_flag svc v not_valid g = pure (go_on g)
process_flag svc v voicemail g = process_stream svc v (stream_of v.recordings) g

unfoldable pub process_record : Services → Record → Globals → Exec Call Next
process_record svc unreadable g = pure (stop g)
process_record svc (readable v) g = process_flag svc v (vm_flag_of v.attributes) g

abbrev pub carry_on : Next → (Globals → Exec Call Globals) → Exec Call Globals
carry_on (go_on g) f = f g
carry_on (stop g) f = pure g

-- The loop; its result is what the variables of the module are when the run ends.
unfoldable pub handler : Services → List Record → Globals → Exec Call Globals
handler svc [] g = pure g
handler svc (r ∷ records) g = do
  next ← process_record svc r g
  carry_on next (λ g'. handler svc records g')
