-- ===== src/Voicemail/Packaging/Names.antt =====
-- How voiceMailPackaging/handler.js names the contact and the recording of a transcript.
use service_cloud_voice_lamb.Common.{◌≡◌, refl, ◌∙◌, ap, String, true}
use Prim.Native.Char.{Char, char}
use Prim.Native.String.{◌++◌}
use text.Mathlib.TextLemmas.{nil-append, append-nil}
use service_cloud_voice_lamb.Common.Text.{replace, replace-append, avoids, replace-skip}
use service_cloud_voice_lamb.Voicemail.Packaging.{wav_key_of, contact_of}

abbrev pub dot : Char
dot = char 46 tt

-- For the transcript of a contact whose name has no dot, the handler works on that contact and
-- reads the tags of the recording that voiceMailAudioProcessing stored for it.
pub key-names :
    (c : String)
    → avoids dot c ≡ true
    → (contact_of ("voicemail_transcripts/" ++ (c ++ ".json")) ≡ c)
      × (wav_key_of ("voicemail_transcripts/" ++ (c ++ ".json"))
          ≡ "voicemail_recordings/" ++ (c ++ ".wav"))
unfolding contact_of wav_key_of
key-names c h = (
  rw (replace-append "voicemail_transcripts/" (c ++ ".json") "", nil-append, skipped "")
      (append-nil c),
  rw (replace-append "voicemail_transcripts/" (c ++ ".json") "voicemail_recordings/", folder)
      (ap (λ s. "voicemail_recordings/" ++ s) (skipped ".wav")),
)
  where
    skipped : (r : String) → replace (c ++ ".json") ".json" r ≡ c ++ r
    skipped r = replace-skip dot "json" c ".json" r h ∙ ap (λ s. c ++ s) (append-nil r)

    folder :
        replace ("voicemail_recordings/" ++ (c ++ ".json")) ".json" ".wav"
        ≡ "voicemail_recordings/" ++ replace (c ++ ".json") ".json" ".wav"
    folder = replace-skip dot "json" "voicemail_recordings/" (c ++ ".json") ".wav" refl
