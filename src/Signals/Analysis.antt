-- ===== src/Signals/Analysis.antt =====
-- From a post-call analysis to signals: what postCallAnalysisTrigger/handler.js and
-- multiorgPostCallAnalysisTrigger/handler.js have in common, with the copied functions of their
-- utils.js.
use service_cloud_voice_lamb.Common.{
  ℕ, ◌+◌, String, Option, none, some, List, [], ◌∷◌, ◌++◌, if◌then◌else◌, ◌==◌, ◌||◌, text_of,
}
use Prim.Native.String.{◌++◌ as ◌<>◌}
use service_cloud_voice_lamb.Common.Int.{ℤ, pos, negsuc}
use service_cloud_voice_lamb.Common.Effect.{
  ok, throw, Result, Exec, pure, raise, lift, call, handle, ◌>>=◌, then_ok,
}
use service_cloud_voice_lamb.Signals.Key.{plus_to_space, decode_uri_component, validate_s3_key_name}
use service_cloud_voice_lamb.Signals.Calls.{
  Metadata, OverallSentiment, Utterance, Analysis, Contact, Post, score, normalized, Signal, Call,
  get_object, describe_contact, Services, Event,
}

-- A property of `undefined`.
abbrev pub required {ℓ} : {A : Type ℓ} → Option A → Result A
required none = throw "TypeError"
required (some a) = ok a

unfoldable pub sentiment_normalizer : Option String → Result ℤ
sentiment_normalizer none = throw "Error converting sentiment type into score!"
sentiment_normalizer (some s) =
    if s == "POSITIVE"
    then ok (pos 1000)
    else if s == "MIXED" || s == "NEUTRAL"
    then ok (pos 0)
    else if s == "NEGATIVE"
    then ok (negsuc 999)
    else throw "Error converting sentiment type into score!"

abbrev pub plus_millis : Option ℕ → Option ℕ → Option ℕ
plus_millis none b = none
plus_millis (some a) none = none
plus_millis (some a) (some b) = some (a + b)

-- The signal of the score of one side of the whole call, if it has one.
unfoldable pub overall_signal : Option String → Option ℕ → Option ℕ → String → List Signal
overall_signal none connected disconnected side = []
overall_signal (some s) connected disconnected side =
    record {
      type = "IntelligenceSignal__OverallSentimentScore";
      value = score s;
      start_time = connected;
      end_time = disconnected;
      participant = some side;
    }
    ∷ []

unfoldable pub utterance_signal : Option ℕ → Utterance → Result Signal
unfolding sentiment_normalizer
utterance_signal connected u = then_ok (sentiment_normalizer u.sentiment) (λ n. ok (record {
  type = "IntelligenceSignal__Sentiment";
  value = normalized n;
  start_time = plus_millis connected u.begin_offset_millis;
  end_time = plus_millis connected u.end_offset_millis;
  participant = u.participant_id;
}))

abbrev pub cons_result {ℓ} : {A : Type ℓ} → Result A → Result (List A) → Result (List A)
cons_result (ok a) (ok rest) = ok (a ∷ rest)
cons_result (ok a) (throw e) = throw e
cons_result (throw e) rest = throw e

-- The loop over the transcript.
unfoldable pub utterance_signals : Option ℕ → List Utterance → Result (List Signal)
unfolding utterance_signal
utterance_signals connected [] = ok []
utterance_signals connected (u ∷ us) =
    cons_result (utterance_signal connected u) (utterance_signals connected us)

unfoldable pub transcript_signals : Option ℕ → Option (List Utterance) → Result (List Signal)
unfolding utterance_signals
transcript_signals connected none = ok []
transcript_signals connected (some us) = utterance_signals connected us

unfoldable pub overall_of : Analysis → Result OverallSentiment
overall_of a =
    then_ok (required a.conversation_characteristics)
      (λ c. then_ok (required c.sentiment) (λ s. required s.overall_sentiment))

unfoldable pub request_signals : Analysis → Contact → Result (List Signal)
unfolding overall_of overall_signal transcript_signals
request_signals a contact = then_ok (required contact.agent_info) (λ info.
    then_ok (overall_of a) (λ overall.
      let connected = info.connected_to_agent_timestamp in
      let ended = contact.disconnect_timestamp in
      then_ok (transcript_signals connected a.transcript) (λ signals. ok (
        overall_signal overall.agent connected ended "AGENT"
        ++ overall_signal overall.customer connected ended "CUSTOMER"
        ++ signals))))

abbrev decoded_key : Option String → Result String
decoded_key none = throw "URIError"
decoded_key (some key) = ok key

-- The file that the first `try` loads, with its metadata; `none` where the key is not valid.
unfoldable pub load_file : Services → Event → Exec Call (Option (Metadata × Analysis))
load_file svc e = do
  detail ← lift (required e.detail)
  key ← lift (decoded_key (decode_uri_component (plus_to_space detail.key)))
  if validate_s3_key_name key
      then (do
        a ← call (get_object detail.bucket key) (λ t. svc.get_object t detail.bucket key)
        meta ← lift (required a.customer_metadata)
        pure (some (meta, a)))
      else pure none

-- The first `try` with its `catch`.
unfoldable pub load_analysis : Services → Event → Exec Call (Option (Metadata × Analysis))
load_analysis svc e =
    handle (load_file svc e) (λ err. raise "Error getting basic customer metadata!")

unfoldable pub get_agent_timestamp : Services → Metadata → Exec Call Contact
get_agent_timestamp svc meta =
    handle (call (describe_contact meta) svc.describe_contact)
      (λ err. raise "Error fetching the result from the describeContact API call!")

-- The request that posts a batch.
abbrev pub post_of : Option String → Option String → String → List Signal → Post
post_of base contact jwt events = record {
  base_url = base;
  path = "/voiceCalls/" <> (text_of contact <> "/postConversationEvents");
  jwt = jwt;
  service = "AmazonConnectContactLens";
  events = events;
}
