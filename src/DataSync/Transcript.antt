-- ===== src/DataSync/Transcript.antt =====
-- `getTranscript` of contactDataSync/awsUtils.js, with `describeContact`.
use service_cloud_voice_lamb.Common.{
  ℕ, zero, suc, ◌+◌, ◌≡◌, refl, String, Option, none, some, List, [], ◌∷◌, equals, text_of,
  if◌then◌else◌, take, get_elem?, arith,
}
use Prim.Native.String.{◌++◌}
use service_cloud_voice_lamb.Common.Object.{Object, get}
use service_cloud_voice_lamb.Common.Effect.{Exec, pure, raise, call, handle, ◌>>=◌}
use service_cloud_voice_lamb.DataSync.Calls.{
  Timestamp, Contact, Utterance, Analysis, Entry, Call, describe_contact, Services,
}

abbrev pub plus_millis : Option ℕ → Option ℕ → Option ℕ
plus_millis none b = none
plus_millis (some a) none = none
plus_millis (some a) (some b) = some (a + b)

abbrev pub participant_of : Option String → Option String
participant_of p =
    if equals p "CUSTOMER"
    then some "END_USER"
    else if equals p "AGENT"
    then some "VIRTUAL_AGENT"
    else none

abbrev pub role_of : Option String → Option String
role_of p = if equals p "CUSTOMER" then some "END_USER" else p

abbrev pub no_records : Option (Option (List String)) → Option (List String)
no_records none = none
no_records (some records) = records

module _ (a : Analysis) (related : Object (Option (List String))) where
  -- The entry of an utterance, with the time that `setMilliseconds` gives.
  unfoldable pub entry_of : Option ℕ → Utterance → Entry
  entry_of sent u = record {
    conversation_id = a.contact_id;
    id = u.id;
    client_sent_timestamp = sent;
    message_text = u.content;
    subject = a.contact_id ++ text_of (participant_of u.participant_id);
    role = role_of u.participant_id;
    related_records = no_records (get a.contact_id related);
  }

  -- The loop, with the time that `date` holds: each round adds to it.
  unfoldable pub entries_from : Option ℕ → List Utterance → List Entry
  unfolding entry_of
  entries_from date [] = []
  entries_from date (u ∷ us) =
      let sent = plus_millis date u.begin_offset_millis in entry_of sent u ∷ entries_from sent us

  abbrev pub entries_at : Option ℕ → Option (List Utterance) → Exec Call (List Entry)
  entries_at date none = raise "TypeError"
  entries_at date (some us) = pure (entries_from date us)

abbrev start_of : Option Timestamp → Option ℕ
start_of none = none
start_of (some stamp) = some stamp.millis

unfoldable pub described : Services → String → Option String → Exec Call Contact
described svc contact instance =
    handle (call (describe_contact contact instance) svc.describe_contact) (λ err. raise (
      "Error fetching information for ContactId:"
      ++ (contact
          ++ (" and InstanceId:"
              ++ (text_of instance
                  ++ ". Check if ContactId is valid or retry request by removing it.")))))

unfoldable pub get_transcript :
    Services → Analysis → Object (Option (List String)) → Exec Call (List Entry)
get_transcript svc a related = do
  contact ← described svc a.contact_id a.instance_id
  entries_at a related (start_of contact.initiation_timestamp) a.transcript

-- The offsets of all these utterances together.
abbrev pub offsets : List Utterance → Option ℕ
offsets [] = some 0
offsets (u ∷ us) = plus_millis u.begin_offset_millis (offsets us)

abbrev pub sent_at : Option Entry → Option ℕ
sent_at none = none
sent_at (some e) = e.client_sent_timestamp

abbrev pub has_place {ℓ} : {A : Type ℓ} → Option A → Option ℕ → Option ℕ
has_place none time = none
has_place (some a) time = time

plus-none : (a : Option ℕ) → plus_millis a none ≡ none
plus-none none = refl
plus-none (some a) = refl

plus-zero : (a : Option ℕ) → plus_millis a (some 0) ≡ a
plus-zero none = refl
plus-zero (some a) = let e : a + 0 ≡ a = omega arith in rw e refl

plus_assoc : (a b c : Option ℕ) → plus_millis (plus_millis a b) c ≡ plus_millis a (plus_millis b c)
plus_assoc none b c = refl
plus_assoc (some a) none c = refl
plus_assoc (some a) (some b) none = refl
plus_assoc (some a) (some b) (some c) = let e : a + b + c ≡ a + (b + c) = omega arith in rw e refl

-- The time of each entry is the start of the contact with the offsets of all the utterances up to its
-- own added to it, and not its own offset alone.
pub entries_from-sent_at :
    (a : Analysis) (related : Object (Option (List String))) (date : Option ℕ) (us : List Utterance)
    (i : ℕ)
    → sent_at (get_elem? (entries_from a related date us) i)
      ≡ has_place (get_elem? us i) (plus_millis date (offsets (take (suc i) us)))
unfolding entries_from entry_of
entries_from-sent_at a related date [] i = refl
entries_from-sent_at a related date (u ∷ us) zero = rw (plus-zero u.begin_offset_millis) refl
entries_from-sent_at a related date (u ∷ us) (suc i) =
    rw
      (
        entries_from-sent_at a related (plus_millis date u.begin_offset_millis) us i,
        plus_assoc date u.begin_offset_millis (offsets (take (suc i) us)),
      )
      refl
