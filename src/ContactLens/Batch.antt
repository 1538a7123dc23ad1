-- ===== src/ContactLens/Batch.antt =====
-- contactLensProcessor/handler.js and the payload builders of its utils.js. Promises run when they
-- are created and are awaited at the end; records are given decoded, and logging is left out.
pub mod Collect
pub mod Linked
pub mod Entries
pub mod Mixed
pub mod Examples
use service_cloud_voice_lamb.Common.{
  ℕ, ◌+◌, ◌*◌, String, Bool, true, false, Option, none, some, List, [], ◌∷◌, ◌++◌, ◌&&◌, truthy,
  equals, text_of, ◌or_else◌, if◌then◌else◌, ◌==◌,
}
use service_cloud_voice_lamb.Common.Int.{pos, sub_ℕ}
use service_cloud_voice_lamb.Common.Object.{Object, get, put}
use service_cloud_voice_lamb.Common.Effect.{
  Result, ok, throw, Exec, pure, ask, lift, settle, all_settled, ◌>>=◌,
}
use service_cloud_voice_lamb.ContactLens.Calls.{
  Message, Entry, RealtimeEvent, EventsPayload, Call, Services, Utterance, Categories, Segment,
  Payload, KinesisRecord,
}
use service_cloud_voice_lamb.ContactLens.Bulk.{
  send_messages_in_bulk, send_realtime_conversation_events,
}

unfoldable pub participant_of : String → String
participant_of role = if role == "AGENT" then "VIRTUAL_AGENT" else "END_USER"

unfoldable pub build_send_message_payload : Utterance → ℕ → Message
build_send_message_payload u arrival = record {
  message_id = u.id;
  start_time = sub_ℕ (arrival * 1000 + u.begin_offset) u.end_offset;
  end_time = pos (arrival * 1000);
  content = u.partial_content;
  participant_id = participant_of u.participant_role;
  sender_type = participant_of u.participant_role;
}

-- `categoryDetails[0]` if there are details.
abbrev first_detail : Option (List String) → Option String
first_detail none = none
first_detail (some []) = none
first_detail (some (d ∷ ds)) = some d

-- A category with no entry in `MatchedDetails` is a TypeError.
abbrev event_of : ℕ → String → Option (Option (List String)) → Result RealtimeEvent
event_of now category none = throw "TypeError"
event_of now category (some points) = ok (record {
  type = "IntelligenceSignal__Category";
  value = category;
  start_time = now;
  details = first_detail points;
})

abbrev add_event : Result RealtimeEvent → Result (List RealtimeEvent) → Result (List RealtimeEvent)
add_event (throw e) rest = throw e
add_event (ok v) (throw e) = throw e
add_event (ok v) (ok vs) = ok (v ∷ vs)

events_of : ℕ → Object (Option (List String)) → List String → Result (List RealtimeEvent)
events_of now details [] = ok []
events_of now details (c ∷ cs) =
    add_event (event_of now c (get c details)) (events_of now details cs)

payload_of : Result (List RealtimeEvent) → Result EventsPayload
payload_of (throw e) = throw e
payload_of (ok vs) =
    ok (record { service = "AmazonConnectContactLens"; events = vs; persist = false })

unfoldable pub build_events_payload : ℕ → Categories → Result EventsPayload
unfolding payload_of events_of
build_events_payload now c = payload_of (events_of now c.matched_details c.matched_categories)

-- What the loop over the records collects.
pub record Collected : Type 0 where
  pub messages : Object (List Message)
  pub secrets : Object (Option String)
  pub promises : List (Result String)

abbrev pub or_empty {ℓ} : {A : Type ℓ} → Option (List A) → List A
or_empty none = []
or_empty (some xs) = xs

unfoldable pub add_utterance : String → Option String → ℕ → Option Utterance → Collected → Collected
add_utterance contact secret arrival none st = st
add_utterance contact secret arrival (some u) st = record st {
  messages =
      put contact (or_empty (get contact st.messages) ++ build_send_message_payload u arrival ∷ [])
        st.messages;
  secrets = put contact secret st.secrets;
}

module _ (svc : Services) (contact : String) (secret : Option String) where
  unfoldable pub push_events : Option Categories → Collected → Exec Call Collected
  push_events none st = pure st
  push_events (some c) st = do
    now ← ask svc.now
    payload ← lift (build_events_payload now c)
    sent ← settle (send_realtime_conversation_events svc contact payload secret)
    pure (record st { promises = st.promises ++ sent ∷ [] })

  unfoldable pub process_segments : ℕ → List Segment → Collected → Exec Call Collected
  process_segments arrival [] st = pure st
  process_segments arrival (s ∷ ss) st = do
    st' ← push_events s.categories (add_utterance contact secret arrival s.utterance st)
    process_segments arrival ss st'

unfoldable pub process_payload :
    Services → Option String → ℕ → Option Payload → Collected → Exec Call Collected
process_payload svc secret arrival none st = pure st
process_payload svc secret arrival (some p) st =
    if truthy p.event_type && equals p.event_type "SEGMENTS"
    then process_segments svc p.contact_id secret arrival (or_empty p.segments) st
    else pure st

unfoldable pub process_records : Services → List KinesisRecord → Collected → Exec Call Collected
process_records svc [] st = pure st
process_records svc (r ∷ rs) st = do
  st' ← process_payload svc (r.secret_name or_else svc.default_secret) r.arrival r.payload st
  process_records svc rs st'

-- `secretNameToContactIdMap`; a property key is a text, so an absent name becomes "undefined".
unfoldable pub add_member : String → String → Object (List String) → Object (List String)
add_member secret contact [] = (secret, contact ∷ []) ∷ []
add_member secret contact ((s, cs) ∷ groups) =
    if s == secret
    then (s, cs ++ contact ∷ []) ∷ groups
    else (s, cs) ∷ add_member secret contact groups

unfoldable pub group_by_secret :
    Object (Option String) → Object (List String) → Object (List String)
group_by_secret [] groups = groups
group_by_secret ((contact, secret) ∷ rest) groups =
    group_by_secret rest (add_member (text_of secret) contact groups)

pub record BulkPayload : Type 0 where
  pub secret_name : Option String
  pub entries : List Entry

module _ (messages : Object (List Message)) where
  unfoldable pub entry_for : String → Entry
  entry_for contact = record {
    vendor_call_key = contact;
    messages = or_empty (get contact messages);
  }

  unfoldable pub push_entries : String → List String → BulkPayload → BulkPayload
  push_entries secret [] p = p
  push_entries secret (c ∷ cs) p =
      push_entries secret cs
        (record { secret_name = some secret; entries = p.entries ++ entry_for c ∷ [] })

  unfoldable pub push_groups : Object (List String) → BulkPayload → BulkPayload
  push_groups [] p = p
  push_groups ((secret, cs) ∷ groups) p = push_groups groups (push_entries secret cs p)

unfoldable pub build_bulk : Collected → BulkPayload
build_bulk st =
    push_groups st.messages (group_by_secret st.secrets [])
      (record { secret_name = none; entries = [] })

-- The bulk request goes out if there is an entry.
send_bulk : Services → BulkPayload → List Entry → Collected → Exec Call Collected
send_bulk svc p [] st = pure st
send_bulk svc p (e ∷ es) st = do
  sent ← settle (send_messages_in_bulk svc p.secret_name (e ∷ es))
  pure (record st { promises = st.promises ++ sent ∷ [] })

abbrev pub nothing_collected : Collected
nothing_collected = record { messages = []; secrets = []; promises = [] }

unfoldable pub handler : Services → Option (List KinesisRecord) → Exec Call (List String)
unfolding send_bulk
handler svc none = pure []
handler svc (some records) = do
  st ← process_records svc records nothing_collected
  st' ← send_bulk svc (build_bulk st) (build_bulk st).entries st
  lift (all_settled st'.promises)
