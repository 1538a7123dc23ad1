-- ===== src/ContactLens/Batch/Examples.antt =====
-- Runs of contactLensProcessor/handler.js, and its theorems at them.
use service_cloud_voice_lamb.Common.{
  ◌≡◌, ◌≢◌, ◌⊎◌, refl, String, false, none, some, List, [], ◌∷◌, arith, eq_iff,
}
use service_cloud_voice_lamb.Common.Object.{get}
use service_cloud_voice_lamb.Common.Effect.{ok, ◌>>=◌}
use service_cloud_voice_lamb.ContactLens.Calls.{Message, Services, Utterance, KinesisRecord}
use service_cloud_voice_lamb.ContactLens.Secrets.{get_secret_configs, generate_jwt}
use service_cloud_voice_lamb.ContactLens.Bulk.{
  deliver, classify_bulk_response, handle_action, go_on, send_messages_in_bulk,
}
use service_cloud_voice_lamb.ContactLens.Batch.{
  build_send_message_payload, Collected, or_empty, add_utterance, process_segments, process_payload,
  process_records, nothing_collected, group_by_secret, add_member, entry_for, push_entries,
  push_groups, build_bulk, handler, push_events,
}
use service_cloud_voice_lamb.ContactLens.Batch.Collect.{messages_of, process_records-messages}
use service_cloud_voice_lamb.ContactLens.Batch.Mixed.{mixed_secrets}
use service_cloud_voice_lamb.ContactLens.Batch.Linked.{process_records-IsLinked}
use service_cloud_voice_lamb.ContactLens.Batch.Entries.{
  entries_for, entry_or_none, build_bulk-entries,
}

abbrev quiet : Services
quiet = record {
  use_extension = false;
  now = λ t. 7;
  default_secret = some "org";
  secret_value = λ t. ok (("CALL_CENTER_API_NAME", "center") ∷ []);
  secret_extension = λ t. ok [];
  sign_jwt = λ t. ok "token";
  bulk = λ t es. ok (record { status = 202; errors = none });
  events = λ t. ok tt;
}

abbrev hello : Utterance
hello = record {
  id = "u1";
  begin_offset = 100;
  end_offset = 900;
  partial_content = "hello";
  participant_role = "AGENT";
}

abbrev heard : String → String → KinesisRecord
heard contact secret = record {
  secret_name = some secret;
  arrival = 5;
  payload = some (record {
    event_type = some "SEGMENTS";
    contact_id = contact;
    segments = some (record { utterance = some hello; categories = none } ∷ []);
  });
}

abbrev two_orgs : List KinesisRecord
two_orgs = heard "c1" "org1" ∷ heard "c2" "org2" ∷ heard "c1" "org1" ∷ []

abbrev greeting : Message
greeting = unfold build_send_message_payload in build_send_message_payload hello 5

abbrev both_collected : Collected
both_collected = record {
  messages =
      ("c1", build_send_message_payload hello 5 ∷ build_send_message_payload hello 5 ∷ [])
      ∷ ("c2", build_send_message_payload hello 5 ∷ [])
      ∷ [];
  secrets = ("c1", some "org1") ∷ ("c2", some "org2") ∷ [];
  promises = [];
}

collected_run : (process_records quiet two_orgs nothing_collected []).0 ≡ ok both_collected
unfolding process_records process_payload process_segments push_events add_utterance ◌>>=◌
collected_run = refl

process_records-messages_example :
    or_empty (get "c1" both_collected.messages) ≡ messages_of "c1" two_orgs
process_records-messages_example =
    process_records-messages quiet two_orgs [] both_collected "c1" collected_run

build_bulk-entries_example :
    entries_for "c1" (build_bulk both_collected).entries
    ≡ entry_or_none "c1" (messages_of "c1" two_orgs)
build_bulk-entries_example = build_bulk-entries quiet two_orgs [] both_collected "c1" collected_run

orgs_differ : ◌≢◌ {A = String} "org1" "org2"
orgs_differ = ground (arith, eq_iff "org1" "org2")

mixed_secrets_example :
    (entries_for "c1" (build_bulk both_collected).entries
      ≡ entry_for both_collected.messages "c1" ∷ [])
    × (entries_for "c2" (build_bulk both_collected).entries
        ≡ entry_for both_collected.messages "c2" ∷ [])
    × ((build_bulk both_collected).secret_name ≡ some "org2")
    × (((build_bulk both_collected).secret_name ≢ some "org1")
        ⊎ ((build_bulk both_collected).secret_name ≢ some "org2"))
mixed_secrets_example =
    mixed_secrets both_collected "c1" "c2" "org1" "org2"
      (process_records-IsLinked quiet two_orgs [] both_collected collected_run) refl refl
      orgs_differ

-- Both contacts go out under the second secret.
two_orgs_run : (build_bulk both_collected) ≡ record {
  secret_name = some "org2";
  entries = entry_for both_collected.messages "c1" ∷ entry_for both_collected.messages "c2" ∷ [];
}
unfolding build_bulk push_groups push_entries group_by_secret add_member
two_orgs_run = refl

handler_run : (handler quiet (some two_orgs) []).0 ≡ ok ("Success" ∷ [])
unfolding handler process_records process_payload process_segments push_events add_utterance
    build_bulk push_groups push_entries group_by_secret add_member send_messages_in_bulk
    get_secret_configs generate_jwt deliver classify_bulk_response handle_action go_on ◌>>=◌
handler_run = refl
