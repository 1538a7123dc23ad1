-- ===== src/DataSync/Handler/Examples.antt =====
-- Runs of contactDataSync, and its properties at concrete requests.
use service_cloud_voice_lamb.Common.{ℕ, ◌≡◌, refl, true, none, some, List, [], ◌∷◌, get_elem?, take}
use service_cloud_voice_lamb.Common.Effect.{ok}
use service_cloud_voice_lamb.Common.Trace.{Only}
use service_cloud_voice_lamb.DataSync.Calls.{Event, Utterance, Analysis, Services}
use service_cloud_voice_lamb.DataSync.Transcript.{
  plus_millis, entry_of, entries_from, offsets, sent_at, has_place, entries_from-sent_at,
}
use service_cloud_voice_lamb.DataSync.Paths.{prefix_of}
use service_cloud_voice_lamb.DataSync.Handler.{handler}
use service_cloud_voice_lamb.DataSync.Handler.Batches.{IsBatch, data_sync_handler-IsBatch}

abbrev utterance_at : ℕ → Utterance
utterance_at n = record {
  id = none;
  participant_id = some "CUSTOMER";
  content = some "hello";
  begin_offset_millis = some n;
}

-- Utterances that begin 100, 200 and 300 milliseconds after the contact.
abbrev utterances : List Utterance
utterances = utterance_at 100 ∷ utterance_at 200 ∷ utterance_at 300 ∷ []

abbrev an_analysis : Analysis
an_analysis = record { contact_id = "c1"; instance_id = none; transcript = some utterances }

entries_from-sent_at_example :
    sent_at (get_elem? (entries_from an_analysis [] (some 5000) utterances) 2)
    ≡ has_place (get_elem? utterances 2) (plus_millis (some 5000) (offsets (take 3 utterances)))
entries_from-sent_at_example = entries_from-sent_at an_analysis [] (some 5000) utterances 2

-- The third utterance begins at 5300, and is sent with 5600.
sent_test : sent_at (get_elem? (entries_from an_analysis [] (some 5000) utterances) 2) ≡ some 5600
unfolding entries_from entry_of
sent_test = refl

abbrev services : Services
services = record {
  connect_instance_id = some "i1";
  secret_name = some "s1";
  access_token_secret_name = some "a1";
  max_contact_ids = some 20;
  batch_size = some 2;
  describe_contact = λ t. ok (record {
    has_agent_info = true;
    initiation_timestamp = some (record { millis = 5000; year = "2026"; month = "1"; day = "31" });
  });
  list_objects = λ t. ok ("Analysis/Voice/2026/01/31/c1_analysis.json" ∷ []);
  get_object = λ t. ok an_analysis;
  invoke = λ t. ok "done";
}

abbrev a_request : Event
a_request = record {
  operation = some "uploadTranscript";
  secret_name = none;
  access_token_secret_name = none;
  payload = some (record { contact_id = "c1"; related_records = none } ∷ []);
  upload_ids = none;
}

data_sync_handler-IsBatch_example : Only IsBatch (handler services a_request)
data_sync_handler-IsBatch_example = data_sync_handler-IsBatch services a_request 2 refl

prefix_test :
    prefix_of (record { millis = 0; year = "2026"; month = "1"; day = "31" })
    ≡ "Analysis/Voice/2026/01/31/"
unfolding prefix_of
prefix_test = refl
