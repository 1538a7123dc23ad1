-- ===== src/Voicemail/Audio/Examples.antt =====
-- The properties of voiceMailAudioProcessing at concrete records and streams.
use service_cloud_voice_lamb.Common.{◌≡◌, refl, String, true, some, List, [], ◌∷◌, ◌++◌}
use service_cloud_voice_lamb.Common.Effect.{ok, throw}
use service_cloud_voice_lamb.Common.Returns.{Returns}
use service_cloud_voice_lamb.Common.Trace.{Only}
use service_cloud_voice_lamb.Voicemail.Decoder.{
  Chunk, tag_name, tag_string, block, Decoder, big_int, decode,
}
use service_cloud_voice_lamb.Voicemail.Decoder.Boundary.{
  decoder, until_boundary, blocks, decode-until_boundary,
}
use service_cloud_voice_lamb.Voicemail.Audio.{
  VmRecord, readable, Tags, Globals, Services, vm_flag_of, Stream, stream_of, tags_of, clean,
  handler,
}
use service_cloud_voice_lamb.Voicemail.Audio.Kept.{TagsAre, handler-keeps_tags}
use service_cloud_voice_lamb.Voicemail.Audio.Loop.{handler-ignores_rest, handler-clean}

abbrev a_stream : List Chunk
a_stream =
    tag_name "AWS_KINESISVIDEO_FRAGMENT_NUMBER"
    ∷ tag_string "7"
    ∷ block (1 ∷ 2 ∷ [])
    ∷ tag_string "8"
    ∷ block (3 ∷ [])
    ∷ []

decode-until_boundary_example :
    (e : Decoder) × (decode 7 "c1" (decoder true "" 0 []) a_stream ≡ ok e)
    × (e.audio ≡ [] ++ blocks (until_boundary 7 "c1" "" a_stream))
unfolding big_int
decode-until_boundary_example = decode-until_boundary 7 "c1" "" 0 [] a_stream refl

-- The block behind fragment 8 is not kept.
a_stream-blocks : blocks (until_boundary 7 "c1" "" a_stream) ≡ (1 ∷ 2 ∷ []) ∷ []
unfolding big_int
a_stream-blocks = refl

abbrev with_flag : String → VmRecord
with_flag flag = record {
  contact_id = some "c1";
  attributes = some (("vm_flag", flag) ∷ ("vm_lang", "en-US") ∷ ("vm_from", "+15550100") ∷ []);
  system_endpoint = some (some "+15550199");
  initiation_timestamp = some "1";
  disconnect_timestamp = some "2";
  recordings = some (
      record { location = "stream/c1/1"; fragment_start_number = "5"; fragment_stop_number = "7" }
      ∷ []);
}

abbrev services : Services
services = record {
  bucket = some "recordings";
  data_endpoint = λ t. ok tt;
  media = λ t. a_stream;
  data_length = λ buffers. 2;
  put_object = λ t. ok tt;
}

abbrev refused : Services
refused = record services { data_endpoint = λ t. throw "ResourceNotFoundException" }

handler-ignores_rest_example :
    handler services
      (readable (with_flag "1") ∷ readable (with_flag "0") ∷ readable (with_flag "1") ∷ [])
      clean
      []
    ≡ handler services (readable (with_flag "1") ∷ readable (with_flag "0") ∷ []) clean []
unfolding vm_flag_of
handler-ignores_rest_example =
    handler-ignores_rest services (readable (with_flag "1") ∷ []) (readable (with_flag "1") ∷ [])
      (readable (with_flag "0")) clean [] refl

abbrev a_recording : Stream
a_recording = record { location = "stream/c1/1"; start = 5; stop = 7 }

abbrev own_tags : Tags
own_tags =
    ("vm_lang", "en-US")
    ∷ ("vm_dialedNumber", "+15550199")
    ∷ ("vm_initTimestamp", "1")
    ∷ ("vm_endTimestamp", "2")
    ∷ []

-- The voicemail of the next run.
abbrev another : VmRecord
another = record (with_flag "1") { contact_id = some "c2"; initiation_timestamp = some "3" }

abbrev other_tags : Tags
other_tags =
    ("vm_lang", "en-US")
    ∷ ("vm_dialedNumber", "+15550199")
    ∷ ("vm_initTimestamp", "3")
    ∷ ("vm_endTimestamp", "2")
    ∷ []

handler-keeps_tags_example :
    (g : Globals) × ((handler refused (readable (with_flag "1") ∷ []) clean []).0 ≡ ok g)
    × Only (TagsAre (own_tags ∷ other_tags ∷ [])) (handler services (readable another ∷ []) g)
    × Only (TagsAre (other_tags ∷ [])) (handler services (readable another ∷ []) clean)
unfolding vm_flag_of stream_of tags_of big_int
handler-keeps_tags_example =
    handler-keeps_tags refused services (with_flag "1") another [] [] a_recording own_tags
      other_tags "ResourceNotFoundException" refl refl refl refl refl

handler-clean_example :
    Returns (λ x. x ≡ clean) (handler services (readable (with_flag "1") ∷ []) clean)
handler-clean_example = handler-clean services (readable (with_flag "1") ∷ []) (λ t. refl)
