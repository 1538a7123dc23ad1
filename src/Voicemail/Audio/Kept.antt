-- ===== src/Voicemail/Audio/Kept.antt =====
-- What a run of voiceMailAudioProcessing/handler.js that is refused the stream leaves to the next run.
use service_cloud_voice_lamb.Common.{◌≡◌, refl, ap, List, [], ◌∷◌, ◌++◌, String}
use service_cloud_voice_lamb.Common.Effect.{Result, ok, throw, Exec, ◌>>=◌}
use service_cloud_voice_lamb.Common.Trace.{
  Only, Only-pure, Only-call, Only-settle, Only-bind, only_rules,
}
use service_cloud_voice_lamb.Voicemail.Decoder.{Chunk}
use service_cloud_voice_lamb.Voicemail.Audio.{
  VmRecord, Record, readable, Tags, Globals, Call, get_data_endpoint, put_object, Services, Next,
  go_on, stop, Flag, already_processed, broken, not_valid, voicemail, vm_flag_of, Stream, stream_of,
  tags_of, clean, upload_of, write_audio, endpoint_or, process_audio, process_tags, process_stream,
  process_flag, process_record, carry_on, handler,
}

-- A refused endpoint ends the run, and the tags of the record stay in the container.
refused_run :
    (svc : Services) (v : VmRecord) (rest : List Record) (g : Globals) (t : List Call) (s : Stream)
    (tags : Tags) (e : String)
    → vm_flag_of v.attributes ≡ voicemail
    → stream_of v.recordings ≡ ok s
    → tags_of v ≡ ok tags
    → svc.data_endpoint t ≡ throw e
    → handler svc (readable v ∷ rest) g t ≡ (
      ok (record g { attr_tag_container = g.attr_tag_container ++ tags ∷ [] }),
      t ++ get_data_endpoint s.location ∷ [],
    )
unfolding handler process_record process_flag process_stream process_tags process_audio ◌>>=◌
refused_run svc v rest g t s tags e p q r h = rw (p, q, r, h) refl

-- An upload has these tags; other calls are not restricted.
abbrev pub TagsAre : List Tags → Call → Type 0
TagsAre ts (put_object u) = u.tags ≡ ts
TagsAre ts c = Unit

write_audio-TagsAre :
    (svc : Services) (c : String) (s : Stream) (g : Globals) (chunks : List Chunk)
    → Only (TagsAre g.attr_tag_container) (write_audio svc c s g chunks)
unfolding write_audio upload_of
write_audio-TagsAre svc c s g chunks = search only_rules

endpoint_or-Only :
    {P : Call → Type 0} (r : Result (Unit {0})) (m n : Exec Call Next)
    → Only P m
    → Only P n
    → Only P (endpoint_or r m n)
endpoint_or-Only (ok u) m n p q = p
endpoint_or-Only (throw e) m n p q = q

process_audio-TagsAre :
    (svc : Services) (c : String) (s : Stream) (g : Globals)
    → Only (TagsAre g.attr_tag_container) (process_audio svc c s g)
unfolding process_audio
process_audio-TagsAre svc c s g = Only-bind _ _ (Only-settle _ (Only-call _ _ tt)) λ r.
    endpoint_or-Only r _ _ (Only-bind _ _ (Only-call _ _ tt) (write_audio-TagsAre svc c s g))
      (Only-pure _)

process_stream-TagsAre :
    (svc : Services) (w : VmRecord) (own : Tags) (r : Result Stream) (g : Globals)
    → tags_of w ≡ ok own
    → Only (TagsAre (g.attr_tag_container ++ own ∷ [])) (process_stream svc w r g)
unfolding process_stream process_tags
process_stream-TagsAre svc w own (throw e) g h = Only-pure _
process_stream-TagsAre svc w own (ok s) g h = rw h (process_audio-TagsAre svc _ s _)

process_flag-TagsAre :
    (svc : Services) (w : VmRecord) (own : Tags) (f : Flag) (g : Globals)
    → tags_of w ≡ ok own
    → Only (TagsAre (g.attr_tag_container ++ own ∷ [])) (process_flag svc w f g)
unfolding process_flag
process_flag-TagsAre svc w own already_processed g h = Only-pure _
process_flag-TagsAre svc w own broken g h = Only-pure _
process_flag-TagsAre svc w own not_valid g h = Only-pure _
process_flag-TagsAre svc w own voicemail g h = process_stream-TagsAre svc w own _ g h

carry_on-last :
    {P : Call → Type 0} (svc : Services) (n : Next) → Only P (carry_on n (λ g. handler svc [] g))
unfolding handler
carry_on-last svc (go_on g) = Only-pure _
carry_on-last svc (stop g) = Only-pure _

-- A run on one record uploads the tags that the container holds, and behind them those of the record.
single-TagsAre :
    (svc : Services) (w : VmRecord) (own : Tags) (g : Globals)
    → tags_of w ≡ ok own
    → Only (TagsAre (g.attr_tag_container ++ own ∷ [])) (handler svc (readable w ∷ []) g)
unfolding handler process_record
single-TagsAre svc w own g h =
    Only-bind _ _ (process_flag-TagsAre svc w own (vm_flag_of w.attributes) g h) (carry_on-last svc)

-- If the endpoint of the stream is refused for a voicemail whose stream and tags can be read, a run
-- that starts with it in a clean container ends without an error, and leaves the container in a state
-- in which, whatever the services then answer, a run on another voicemail, whose tags can be read,
-- uploads only with the tags of the first one in front of its own. From a clean container that run
-- uploads only with its own tags.
pub handler-keeps_tags :
    (svc next : Services) (v w : VmRecord) (rest : List Record) (t : List Call) (s : Stream)
    (tags own : Tags) (e : String)
    → vm_flag_of v.attributes ≡ voicemail
    → stream_of v.recordings ≡ ok s
    → tags_of v ≡ ok tags
    → svc.data_endpoint t ≡ throw e
    → tags_of w ≡ ok own
    → (g : Globals) × ((handler svc (readable v ∷ rest) clean t).0 ≡ ok g)
      × Only (TagsAre (tags ∷ own ∷ [])) (handler next (readable w ∷ []) g)
      × Only (TagsAre (own ∷ [])) (handler next (readable w ∷ []) clean)
handler-keeps_tags svc next v w rest t s tags own e p q r h k = (
  record clean { attr_tag_container = tags ∷ [] },
  ap (λ x. x.0) (refused_run svc v rest clean t s tags e p q r h),
  single-TagsAre next w own _ k,
  single-TagsAre next w own clean k,
)
