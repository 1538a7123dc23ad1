-- ===== src/Voicemail/Audio/Loop.antt =====
-- Which records voiceMailAudioProcessing/handler.js works on, and what it leaves behind.
use service_cloud_voice_lamb.Common.{◌≡◌, refl, sym, ◌∙◌, String, List, [], ◌∷◌, ◌++◌}
use service_cloud_voice_lamb.Common.Effect.{
  Result, ok, throw, Exec, pure, call, settle, continue, ◌>>=◌,
}
use service_cloud_voice_lamb.Common.Returns.{Returns, Returns-pure, Returns-any, Returns-bind}
use service_cloud_voice_lamb.Voicemail.Decoder.{Chunk}
use service_cloud_voice_lamb.Voicemail.Audio.{
  VmRecord, Record, unreadable, readable, Tags, Globals, Call, get_data_endpoint, Services, Next,
  go_on, stop, Flag, already_processed, voicemail, vm_flag_of, Stream, clean, write_audio,
  process_audio, process_tags, process_stream, process_flag, process_record, carry_on, handler,
}

-- A record whose flag says that its voicemail is already processed.
abbrev pub IsProcessed : Record → Type 0
IsProcessed unreadable = ⊥
IsProcessed (readable v) = vm_flag_of v.attributes ≡ already_processed

processed-stops :
    (svc : Services) (r : Record) (g : Globals)
    → IsProcessed r
    → process_record svc r g ≡ pure (stop g)
unfolding process_record process_flag
processed-stops svc unreadable g h = absurd h
processed-stops svc (readable v) g h = rw h refl

continue-ap :
    (r : Result Next) (f g : Next → Exec Call Globals)
    → ((n : Next) (t : List Call) → f n t ≡ g n t)
    → (t : List Call) → continue r f t ≡ continue r g t
continue-ap (ok n) f g h t = h n t
continue-ap (throw e) f g h t = refl

carry_on-ap :
    (n : Next) (f g : Globals → Exec Call Globals)
    → ((x : Globals) (t : List Call) → f x t ≡ g x t)
    → (t : List Call) → carry_on n f t ≡ carry_on n g t
carry_on-ap (go_on x) f g h t = h x t
carry_on-ap (stop x) f g h t = refl

-- A record whose voicemail is already processed ends the run: whatever stands behind it in the
-- batch, the lambda makes the same calls and ends the same way as without it.
pub handler-ignores_rest :
    (svc : Services) (before rest : List Record) (r : Record) (g : Globals) (t : List Call)
    → IsProcessed r
    → handler svc (before ++ r ∷ rest) g t ≡ handler svc (before ++ r ∷ []) g t
unfolding handler ◌>>=◌
handler-ignores_rest svc [] rest r g t h = rw (processed-stops svc r g h) refl
handler-ignores_rest svc (b ∷ before) rest r g t h =
    continue-ap (process_record svc b g t).0 _ _
      (λ n. carry_on-ap n _ _ (λ x u. handler-ignores_rest svc before rest r x u h))
      (process_record svc b g t).1

abbrev IsCleanNext : Next → Type 0
IsCleanNext (go_on g) = g ≡ clean
IsCleanNext (stop g) = g ≡ clean

carry_on-clean :
    (n : Next) (f : Globals → Exec Call Globals)
    → IsCleanNext n
    → ((x : Globals) → x ≡ clean → Returns (λ y. y ≡ clean) (f x))
    → Returns (λ y. y ≡ clean) (carry_on n f)
carry_on-clean (go_on x) f p h = h x p
carry_on-clean (stop x) f p h = Returns-pure x p

module _ (svc : Services) (open_stream : (t : List Call) → svc.data_endpoint t ≡ ok tt) where
  write_audio-IsCleanNext :
      (c : String) (s : Stream) (g : Globals) (chunks : List Chunk)
      → Returns IsCleanNext (write_audio svc c s g chunks)
  unfolding write_audio
  write_audio-IsCleanNext c s g chunks =
      Returns-bind (λ d. Unit) _ _ (Returns-any _ (λ d. tt))
        λ d u. Returns-bind (λ d. Unit) _ _ (Returns-any _ (λ d. tt)) λ d u. Returns-pure _ refl

  endpoint-Returns :
      (location : String)
      → Returns (λ r. r ≡ ok tt) (settle (call (get_data_endpoint location) svc.data_endpoint))
  unfolding ◌>>=◌
  endpoint-Returns location = record {
    at = λ t a e. let p : svc.data_endpoint t ≡ a = cc in sym p ∙ open_stream t;
  }

  process_audio-IsCleanNext :
      (c : String) (s : Stream) (g : Globals) → Returns IsCleanNext (process_audio svc c s g)
  unfolding process_audio
  process_audio-IsCleanNext c s g =
      Returns-bind (λ r. r ≡ ok tt) _ _ (endpoint-Returns s.location)
        λ r p. rw p (
          Returns-bind (λ d. Unit) _ _ (Returns-any _ (λ d. tt))
            λ chunks u. write_audio-IsCleanNext c s g chunks)

  process_tags-IsCleanNext :
      (v : VmRecord) (s : Stream) (r : Result Tags)
      → Returns IsCleanNext (process_tags svc v s r clean)
  unfolding process_tags
  process_tags-IsCleanNext v s (ok tags) = process_audio-IsCleanNext _ s _
  process_tags-IsCleanNext v s (throw e) = Returns-pure _ refl

  process_stream-IsCleanNext :
      (v : VmRecord) (r : Result Stream) → Returns IsCleanNext (process_stream svc v r clean)
  unfolding process_stream
  process_stream-IsCleanNext v (ok s) = process_tags-IsCleanNext v s _
  process_stream-IsCleanNext v (throw e) = Returns-pure _ refl

  process_flag-IsCleanNext :
      (v : VmRecord) (f : Flag) → Returns IsCleanNext (process_flag svc v f clean)
  unfolding process_flag
  process_flag-IsCleanNext v voicemail = process_stream-IsCleanNext v _
  process_flag-IsCleanNext v _ = Returns-pure _ refl

  process_record-IsCleanNext : (r : Record) → Returns IsCleanNext (process_record svc r clean)
  unfolding process_record
  process_record-IsCleanNext unreadable = Returns-pure _ refl
  process_record-IsCleanNext (readable v) = process_flag-IsCleanNext v _

  clean_from :
      (records : List Record) (g : Globals)
      → g ≡ clean
      → Returns (λ x. x ≡ clean) (handler svc records g)
  unfolding handler
  clean_from [] g p = Returns-pure g p
  clean_from (r ∷ records) g p = rw p (
      Returns-bind IsCleanNext _ _ (process_record-IsCleanNext r)
        λ n q. carry_on-clean n _ q (clean_from records))

-- If the endpoints of the streams are not refused, a run that starts with clean variables and ends
-- without an error leaves them clean, so that the next run in the same container starts clean.
pub handler-clean :
    (svc : Services) (records : List Record)
    → ((t : List Call) → svc.data_endpoint t ≡ ok tt)
    → Returns (λ x. x ≡ clean) (handler svc records clean)
handler-clean svc records h = clean_from svc h records clean refl
