-- ===== src/Voicemail/Decoder.antt =====
-- The listener of voiceMailAudioProcessing/handler.js on the decoded chunks of a video stream.
pub mod Boundary
use service_cloud_voice_lamb.Common.{
  ℕ, ◌+◌, ◌*◌, ◌-◌, ◌≡◌, refl, sym, ap, ◌∙◌, String, Bool, true, false, not, ◌&&◌, ◌||◌, List, [],
  ◌∷◌, ◌++◌, leb, ltb, ◌==◌, if◌then◌else◌, append-nil, append_assoc, arith, Bool-cases, inl, inr,
}
use Prim.Native.Char.{code}
use Prim.Native.String
use service_cloud_voice_lamb.Common.Effect.{Result, ok, throw, then_ok}

-- A chunk, by its name; `block` is a Block or a SimpleBlock with its payload of bytes.
pub data Chunk : Type 0 where
  tag_name : String → Chunk
  tag_string : String → Chunk
  block : List ℕ → Chunk
  other : Chunk

-- The variables of the listener; `audio` is `wavBufferArray`.
pub record Decoder : Type 0 where
  pub should_process_kvs : Bool
  pub current_tag_name : String
  pub current_fragment : ℕ
  pub audio : List (List ℕ)

-- `BigInt(s)` for a decimal text.
big_int_from : String → ℕ → Result ℕ
big_int_from String.[] n = ok n
big_int_from (String.◌∷◌ c s) n =
    if leb b'0' (code c) && leb (code c) b'9'
    then big_int_from s (n * 10 + (code c - b'0'))
    else throw "SyntaxError"

unfoldable pub big_int : String → Result ℕ
unfolding big_int_from
big_int s = big_int_from s 0

abbrev pub fragment_tag : String
fragment_tag = "AWS_KINESISVIDEO_FRAGMENT_NUMBER"

module _ (stop : ℕ) (contact : String) where
  -- The `switch`, while the stream is processed.
  unfoldable pub on_tag_string : Decoder → String → Result Decoder
  on_tag_string d value =
      if d.current_tag_name == fragment_tag
      then then_ok (big_int value)
          (λ n. ok (record d { current_fragment = n; should_process_kvs = leb n stop }))
      else if d.current_tag_name == "ContactId"
      then ok (record d { should_process_kvs = value == contact })
      else ok d

  unfoldable pub on_chunk : Decoder → Chunk → Result Decoder
  on_chunk d (tag_name value) = ok (record d { current_tag_name = value })
  on_chunk d (tag_string value) = on_tag_string d value
  on_chunk d (block payload) = ok (record d { audio = d.audio ++ payload ∷ [] })
  on_chunk d other = ok d

  unfoldable pub on_data : Decoder → Chunk → Result Decoder
  on_data d c = if d.should_process_kvs then on_chunk d c else ok d

  unfoldable pub decode : Decoder → List Chunk → Result Decoder
  decode d [] = ok d
  decode d (c ∷ chunks) = then_ok (on_data d c) (λ e. decode e chunks)
