-- ===== src/Signals/Examples.antt =====
-- Runs of postCallAnalysisTrigger and multiorgPostCallAnalysisTrigger, and the properties of both at
-- a concrete analysis.
use service_cloud_voice_lamb.Common.{
  ℕ, ◌≡◌, refl, String, true, false, none, some, List, [], ◌∷◌, length, replicate,
}
use service_cloud_voice_lamb.Common.Int.{negsuc}
use service_cloud_voice_lamb.Common.Object.{Object}
use service_cloud_voice_lamb.Common.Effect.{ok, throw, handle, ◌>>=◌}
use service_cloud_voice_lamb.Common.Trace.{Only}
use service_cloud_voice_lamb.Signals.Calls.{
  Metadata, Analysis, Contact, score, normalized, Signal, Utterance, Call, Services, Event,
}
use service_cloud_voice_lamb.Signals.Chunks.{
  concat, slice_into_chunks, slice_into_chunks-cut, AreFull,
}
use service_cloud_voice_lamb.Signals.Key.{decode_uri_component, validate_s3_key_name}
use service_cloud_voice_lamb.Signals.Key.Shape.{ReadsAnalysis, load_analysis-ReadsAnalysis}
use service_cloud_voice_lamb.Signals.Analysis.{
  load_file, load_analysis, get_agent_timestamp, request_signals,
}
use service_cloud_voice_lamb.Signals.Posted.{posted, IsSent}
use service_cloud_voice_lamb.Signals.Single
use service_cloud_voice_lamb.Signals.Multi
use service_cloud_voice_lamb.Signals.Order.{handlers-IsSent}
use service_cloud_voice_lamb.Signals.Multi.Secret.{Allowed, multi_handler-Allowed}

slice_into_chunks-cut_example :
    (bs : List (List ℕ)) × (slice_into_chunks (1 ∷ 2 ∷ 3 ∷ 4 ∷ 5 ∷ []) 2 ≡ some bs)
    × (concat bs ≡ 1 ∷ 2 ∷ 3 ∷ 4 ∷ 5 ∷ [])
    × AreFull 2 bs
slice_into_chunks-cut_example = slice_into_chunks-cut (1 ∷ 2 ∷ 3 ∷ 4 ∷ 5 ∷ []) 1

slice_test :
    slice_into_chunks {A = ℕ} (1 ∷ 2 ∷ 3 ∷ 4 ∷ 5 ∷ []) 2
    ≡ some ((1 ∷ 2 ∷ []) ∷ (3 ∷ 4 ∷ []) ∷ (5 ∷ []) ∷ [])
unfolding slice_into_chunks
slice_test = refl

decode_test : decode_uri_component "a%20b%C3%A9%2Fc" ≡ some "a bé/c"
unfolding decode_uri_component
decode_test = refl

overlong_test : decode_uri_component "a%C0%80" ≡ none
unfolding decode_uri_component
overlong_test = refl

abbrev a_key : String
a_key = "Analysis/Voice/2026/01/31/0123456789abcdef-0123456789abcdef-01_analysis.json"

key_test : validate_s3_key_name a_key ≡ true
unfolding validate_s3_key_name
key_test = refl

-- The contact id lacks one character.
short_test :
    validate_s3_key_name "Analysis/Voice/2026/01/31/0123456789abcdef-0123456789abcdef-0json" ≡ false
unfolding validate_s3_key_name
short_test = refl

abbrev an_utterance : Utterance
an_utterance = record {
  participant_id = some "CUSTOMER";
  sentiment = some "NEGATIVE";
  begin_offset_millis = some 5;
  end_offset_millis = some 9;
}

abbrev metadata : Metadata
metadata = record { contact_id = some "c1"; instance_id = some "i1" }

-- The agent has a score, the customer has none, and there are thirty utterances.
abbrev an_analysis : Analysis
an_analysis = record {
  customer_metadata = some metadata;
  conversation_characteristics = some (record {
    sentiment =
        some (record { overall_sentiment = some (record { agent = some "2.5"; customer = none }) });
  });
  transcript = some (replicate 30 an_utterance);
}

abbrev a_contact : Contact
a_contact = record {
  agent_info = some (record { connected_to_agent_timestamp = some 1000 });
  disconnect_timestamp = some 2000;
}

abbrev signals : List Signal
signals =
    record {
      type = "IntelligenceSignal__OverallSentimentScore";
      value = score "2.5";
      start_time = some 1000;
      end_time = some 2000;
      participant = some "AGENT";
    }
    ∷ replicate 30 (record {
      type = "IntelligenceSignal__Sentiment";
      value = normalized (negsuc 999);
      start_time = some 1005;
      end_time = some 1009;
      participant = some "CUSTOMER";
    })

abbrev a_secret : Object String
a_secret =
    ("SALESFORCE_ORG_ID", "org")
    ∷ ("SCRT_ENDPOINT_BASE", "https://scrt")
    ∷ ("CALL_CENTER_API_NAME", "cc")
    ∷ []

abbrev services : Services
services = record {
  secret_name = some "s1";
  secret_cache_s3 = some "cache/names";
  get_object = λ t bucket key. ok an_analysis;
  describe_contact = λ t. ok a_contact;
  secret_value = λ t name. ok a_secret;
  sign_jwt = λ t. ok "jwt";
  get_cached = λ t bucket key. ok (some "s1");
  post = λ t. throw "429";
}

abbrev an_event : Event
an_event = record { detail = some (record { bucket = "b"; key = a_key }) }

loaded : (load_analysis services an_event []).0 ≡ ok (some (metadata, an_analysis))
unfolding load_analysis load_file handle ◌>>=◌ decode_uri_component validate_s3_key_name
loaded = refl

described : (t : List Call) → (get_agent_timestamp services metadata t).0 ≡ ok a_contact
unfolding get_agent_timestamp handle ◌>>=◌
described t = refl

given : request_signals an_analysis a_contact ≡ ok signals
unfolding request_signals
given = refl

handlers-IsSent_example :
    IsSent signals []
      (Single.handler services none an_event []).1
      (Single.handler services none an_event []).0
    × IsSent signals []
        (Multi.handler services an_event []).1
        (Multi.handler services an_event []).0
handlers-IsSent_example =
    handlers-IsSent services none an_event [] metadata an_analysis a_contact signals loaded
      (described _) given

-- The endpoint refuses every post: one lambda goes on, the other throws behind the first batch.
single_test : length (posted (Single.handler services none an_event []).1) ≡ 31
unfolding Single.handler load_analysis load_file handle ◌>>=◌ decode_uri_component
    validate_s3_key_name Single.process get_agent_timestamp request_signals Single.send_signals
    slice_into_chunks Single.send_all Single.send_batches Single.persist_signals Single.generate_jwt
    Single.get_secret_configs Single.read_secret Single.config_of Single.get_scrt_endpoint
single_test = refl

multi_test : length (posted (Multi.handler services an_event []).1) ≡ 25
unfolding Multi.handler load_analysis load_file handle ◌>>=◌ decode_uri_component
    validate_s3_key_name Multi.process get_agent_timestamp request_signals Multi.send_signals
    slice_into_chunks Multi.send_all Multi.send_batches Multi.persist_signals Multi.secret_config
    Multi.get_secret_configs Multi.read_secret Multi.config_of Multi.retrieve_from_cache
    Multi.retrieve_at
multi_test = refl

multi_handler-Allowed_example : Only (Allowed services) (Multi.handler services an_event)
multi_handler-Allowed_example = multi_handler-Allowed services an_event

load_analysis-ReadsAnalysis_example : Only ReadsAnalysis (load_analysis services an_event)
load_analysis-ReadsAnalysis_example = load_analysis-ReadsAnalysis services an_event
