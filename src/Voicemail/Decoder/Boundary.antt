-- ===== src/Voicemail/Decoder/Boundary.antt =====
-- Which audio the decoder of voiceMailAudioProcessing/handler.js keeps.
use service_cloud_voice_lamb.Common.{
  ℕ, ◌≡◌, refl, sym, ap, ◌∙◌, String, Bool, true, false, not, ◌&&◌, List, [], ◌∷◌, ◌++◌, leb, ltb,
  ◌==◌, if◌then◌else◌, append-nil, append_assoc, arith,
}
use service_cloud_voice_lamb.Common.Effect.{Result, ok, throw, then_ok}
use service_cloud_voice_lamb.Voicemail.Decoder.{
  Chunk, tag_name, tag_string, block, other, Decoder, big_int, fragment_tag, on_tag_string,
  on_chunk, on_data, decode,
}

abbrev next_tag : String → Chunk → String
next_tag tag (tag_name value) = value
next_tag tag c = tag

abbrev exceeds : ℕ → Result ℕ → Bool
exceeds stop (ok n) = ltb stop n
exceeds stop (throw e) = false

-- A chunk that ends the recording: a fragment number behind the last one of the recording, or a
-- contact that is another one. `tag` is the tag that was named last.
abbrev pub is_boundary : ℕ → String → String → Chunk → Bool
is_boundary stop contact tag (tag_string value) =
    if tag == fragment_tag
    then exceeds stop (big_int value)
    else if tag == "ContactId"
    then not (value == contact)
    else false
is_boundary stop contact tag c = false

-- The chunks in front of the first one that ends the recording.
abbrev pub until_boundary : ℕ → String → String → List Chunk → List Chunk
until_boundary stop contact tag [] = []
until_boundary stop contact tag (c ∷ chunks) =
    let rest = until_boundary stop contact (next_tag tag c) chunks in
    if is_boundary stop contact tag c then [] else c ∷ rest

abbrev pub blocks : List Chunk → List (List ℕ)
blocks [] = []
blocks (block payload ∷ chunks) = payload ∷ blocks chunks
blocks (c ∷ chunks) = blocks chunks

abbrev is_ok : Result ℕ → Bool
is_ok (ok n) = true
is_ok (throw e) = false

abbrev numbered_chunk : String → Chunk → Bool
numbered_chunk tag (tag_string value) = if tag == fragment_tag then is_ok (big_int value) else true
numbered_chunk tag c = true

-- Every fragment number in the stream is a decimal number.
abbrev pub is_numbered : String → List Chunk → Bool
is_numbered tag [] = true
is_numbered tag (c ∷ chunks) = numbered_chunk tag c && is_numbered (next_tag tag c) chunks

abbrev pub decoder : Bool → String → ℕ → List (List ℕ) → Decoder
decoder b tag n audio = record {
  should_process_kvs = b;
  current_tag_name = tag;
  current_fragment = n;
  audio = audio;
}

and_both : (a b : Bool) → (a && b) ≡ true → (a ≡ true) × (b ≡ true)
and_both true b h = (refl, h)
and_both false b h = absurd (cc)

leb-ltb : (n m : ℕ) → leb n m ≡ not (ltb m n)
leb-ltb n m = ground arith

module _ (stop : ℕ) (contact : String) where
  decode-stopped :
      (tag : String) (n : ℕ) (audio : List (List ℕ)) (chunks : List Chunk)
      → decode stop contact (decoder false tag n audio) chunks ≡ ok (decoder false tag n audio)
  unfolding decode on_data
  decode-stopped tag n audio [] = refl
  decode-stopped tag n audio (c ∷ chunks) = decode-stopped tag n audio chunks

  -- The decoder ends, with this audio.
  Keeps : Decoder → List Chunk → List (List ℕ) → Type 0
  Keeps d chunks audio = (e : Decoder) × (decode stop contact d chunks ≡ ok e) × (e.audio ≡ audio)

  tag_string-cases :
      (named other_tag same : Bool) (r : Result ℕ) (tag : String) (n : ℕ) (audio : List (List ℕ))
      → (if named then is_ok r else true) ≡ true
      → (m : ℕ) × ((if named
            then then_ok r (λ k. ok (decoder (leb k stop) tag k audio))
            else if other_tag
            then ok (decoder same tag n audio)
            else ok (decoder true tag n audio))
          ≡ ok (
              decoder
                (not (if named then exceeds stop r else if other_tag then not same else false))
                tag
                m
                audio))
  tag_string-cases true b c (ok m) tag n audio h =
      (m, ap (λ b. ok (decoder b tag m audio)) (leb-ltb m stop))
  tag_string-cases true b c (throw e) tag n audio h = absurd (cc)
  tag_string-cases false true true r tag n audio h = (n, refl)
  tag_string-cases false true false r tag n audio h = (n, refl)
  tag_string-cases false false c r tag n audio h = (n, refl)

  -- A tag string without a syntax error goes on, or ends the recording.
  on_tag_string-cases :
      (tag value : String) (n : ℕ) (audio : List (List ℕ))
      → numbered_chunk tag (tag_string value) ≡ true
      → (m : ℕ) × (on_tag_string stop contact (decoder true tag n audio) value
          ≡ ok (decoder (not (is_boundary stop contact tag (tag_string value))) tag m audio))
  unfolding on_tag_string
  on_tag_string-cases tag value n audio h =
      tag_string-cases (tag == fragment_tag) (tag == "ContactId") (value == contact) (big_int value)
        tag n audio h

  after_tag :
      (b : Bool) (tag : String) (n : ℕ) (audio : List (List ℕ)) (chunks rest : List Chunk)
      → Keeps (decoder true tag n audio) chunks (audio ++ blocks rest)
      → Keeps (decoder (not b) tag n audio) chunks (audio ++ blocks (if b then [] else rest))
  unfolding Keeps
  after_tag true tag n audio chunks rest h =
      (_, decode-stopped tag n audio chunks, sym (append-nil audio))
  after_tag false tag n audio chunks rest h = h

  running-Keeps :
      (tag : String) (n : ℕ) (audio : List (List ℕ)) (chunks : List Chunk)
      → is_numbered tag chunks ≡ true
      → Keeps
          (decoder true tag n audio)
          chunks
          (audio ++ blocks (until_boundary stop contact tag chunks))
  unfolding Keeps decode on_data on_chunk
  running-Keeps tag n audio [] h = (_, refl, sym (append-nil audio))
  running-Keeps tag n audio (tag_name value ∷ chunks) h = running-Keeps value n audio chunks h
  running-Keeps tag n audio (other ∷ chunks) h = running-Keeps tag n audio chunks h
  running-Keeps tag n audio (block payload ∷ chunks) h =
      let (e, p, q) = running-Keeps tag n (audio ++ payload ∷ []) chunks h in
      (e, p, q ∙ append_assoc audio (payload ∷ []) _)
  running-Keeps tag n audio (tag_string value ∷ chunks) h =
      let (numbered, rest) = and_both _ _ h in
      let (m, p) = on_tag_string-cases tag value n audio numbered in
      rw p (
        after_tag (is_boundary stop contact tag (tag_string value)) tag m audio chunks _
          (running-Keeps tag m audio chunks rest))

-- On a stream whose fragment numbers are decimal, the decoder ends without an error, and the audio
-- it has gathered is that of all the blocks in front of the first chunk that ends the recording (a
-- fragment number behind the last one of the recording, or the name of another contact), in the
-- order of the stream, behind the audio it had at the start.
pub decode-until_boundary :
    (stop : ℕ) (contact tag : String) (n : ℕ) (audio : List (List ℕ)) (chunks : List Chunk)
    → is_numbered tag chunks ≡ true
    → (e : Decoder) × (decode stop contact (decoder true tag n audio) chunks ≡ ok e)
      × (e.audio ≡ audio ++ blocks (until_boundary stop contact tag chunks))
unfolding Keeps
decode-until_boundary stop contact tag n audio chunks h =
    running-Keeps stop contact tag n audio chunks h
