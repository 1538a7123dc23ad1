-- ===== src/Voicemail/Pipeline/Uploads.antt =====
-- What voiceMailAudioProcessing stores for a record.
use service_cloud_voice_lamb.Common.{
  ◌≡◌, refl, ap, ◌∙◌, sym, subst, List, [], ◌∷◌, ◌++◌, All, text_of,
}
use Prim.Native.String.{◌++◌ as ◌<>◌}
use service_cloud_voice_lamb.Common.Effect.{Result, Exec, ok, throw}
use service_cloud_voice_lamb.Common.Trace.{
  Only, Only-pure, Only-lift, Only-call, Only-bind, Only-settle,
}
use service_cloud_voice_lamb.Voicemail.Decoder.{Chunk}
use service_cloud_voice_lamb.Voicemail.Transcribe.Names.{recording_of}
use service_cloud_voice_lamb.Voicemail.Audio.{
  VmRecord, readable, Tags, Upload, Globals, Call, get_data_endpoint, get_media, put_object,
  Services, Next, go_on, stop, Flag, already_processed, voicemail, not_valid, broken, vm_flag_of,
  Stream, stream_of, tags_of, clean, upload_of, write_audio, endpoint_or, process_audio,
  process_tags, process_stream, process_flag, process_record, carry_on, handler,
}

-- The upload is the recording of the record: it has its key, and its tags alone.
abbrev pub IsRecordingOf : Services → VmRecord → Upload → Type 0
IsRecordingOf svc v u =
    (tags : Tags) × (tags_of v ≡ ok tags)
    × (u.tags ≡ tags ∷ [])
    × (u.key ≡ recording_of (text_of v.contact_id))
    × (u.vm_recording_url ≡ text_of svc.bucket <> ("/" <> u.key))

abbrev Stored : Services → VmRecord → Call → Type 0
Stored svc v (put_object u) = IsRecordingOf svc v u
Stored svc v c = Unit

module _ (svc : Services) (v : VmRecord) where
  write_audio-Stored :
      (s : Stream) (g : Globals) (chunks : List Chunk) (tags : Tags)
      → tags_of v ≡ ok tags
      → g.attr_tag_container ≡ tags ∷ []
      → Only (Stored svc v) (write_audio svc (text_of v.contact_id) s g chunks)
  unfolding write_audio upload_of
  write_audio-Stored s g chunks tags h e =
      Only-bind _ _ (Only-lift _)
        λ d. Only-bind _ _ (Only-call _ _ (tags, h, e, refl, refl)) λ u. Only-pure _

  endpoint_or-Stored :
      (r : Result (Unit {0})) (m n : Exec Call Next)
      → Only (Stored svc v) m
      → Only (Stored svc v) n
      → Only (Stored svc v) (endpoint_or r m n)
  endpoint_or-Stored (ok u) m n p q = p
  endpoint_or-Stored (throw e) m n p q = q

  process_audio-Stored :
      (s : Stream) (g : Globals) (tags : Tags)
      → tags_of v ≡ ok tags
      → g.attr_tag_container ≡ tags ∷ []
      → Only (Stored svc v) (process_audio svc (text_of v.contact_id) s g)
  unfolding process_audio
  process_audio-Stored s g tags h e =
      Only-bind _ _ (Only-settle _ (Only-call (get_data_endpoint s.location) _ tt)) λ r.
        endpoint_or-Stored r _ _
          (Only-bind _ _ (Only-call (get_media s.location s.start) _ tt)
            λ chunks. write_audio-Stored s g chunks tags h e)
          (Only-pure _)

  process_tags-Stored :
      (s : Stream) (r : Result Tags)
      → tags_of v ≡ r
      → Only (Stored svc v) (process_tags svc v s r clean)
  unfolding process_tags
  process_tags-Stored s (ok tags) h = process_audio-Stored s _ tags h refl
  process_tags-Stored s (throw e) h = Only-pure _

  process_stream-Stored : (r : Result Stream) → Only (Stored svc v) (process_stream svc v r clean)
  unfolding process_stream
  process_stream-Stored (ok s) = process_tags-Stored s (tags_of v) refl
  process_stream-Stored (throw e) = Only-pure _

  process_flag-Stored : (f : Flag) → Only (Stored svc v) (process_flag svc v f clean)
  unfolding process_flag
  process_flag-Stored voicemail = process_stream-Stored (stream_of v.recordings)
  process_flag-Stored already_processed = Only-pure _
  process_flag-Stored not_valid = Only-pure _
  process_flag-Stored broken = Only-pure _

  carry_on-Stored : (n : Next) → Only (Stored svc v) (carry_on n (λ g. handler svc [] g))
  unfolding handler
  carry_on-Stored (go_on g) = Only-pure g
  carry_on-Stored (stop g) = Only-pure g

  handler-Stored : Only (Stored svc v) (handler svc (readable v ∷ []) clean)
  unfolding handler process_record
  handler-Stored = Only-bind _ _ (process_flag-Stored (vm_flag_of v.attributes)) carry_on-Stored

abbrev upload_in : Call → List Upload
upload_in (put_object u) = u ∷ []
upload_in c = []

-- What a trace stores.
abbrev pub uploads : List Call → List Upload
uploads [] = []
uploads (c ∷ t) = upload_in c ++ uploads t

module _ (svc : Services) (v : VmRecord) where
  uploads-IsRecordingOf :
      (t : List Call) → All (Stored svc v) t → All (IsRecordingOf svc v) (uploads t)
  uploads-IsRecordingOf [] h = tt
  uploads-IsRecordingOf (put_object u ∷ t) h = (h.0, uploads-IsRecordingOf t h.1)
  uploads-IsRecordingOf (get_data_endpoint l ∷ t) h = uploads-IsRecordingOf t h.1
  uploads-IsRecordingOf (get_media l n ∷ t) h = uploads-IsRecordingOf t h.1

  -- What a run on one record stores, if the container is clean.
  pub handler-IsRecordingOf :
      (u : Upload)
      → uploads (handler svc (readable v ∷ []) clean []).1 ≡ u ∷ []
      → IsRecordingOf svc v u
  handler-IsRecordingOf u e =
      let (rest, p, h) = (handler-Stored svc v).at [] in
      let q : uploads rest ≡ u ∷ [] = sym (ap uploads p) ∙ e in
      (subst (All (IsRecordingOf svc v)) q (uploads-IsRecordingOf rest h)).0
