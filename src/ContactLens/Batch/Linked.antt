-- ===== src/ContactLens/Batch/Linked.antt =====
-- The two maps that contactLensProcessor/handler.js collects have the same contacts.
use service_cloud_voice_lamb.Common.{
  ℕ, ◌≡◌, refl, String, Bool, true, false, Option, none, some, List, [], ◌∷◌, ◌++◌, ◌&&◌, truthy,
  equals, ◌or_else◌, arith, is_some,
}
use service_cloud_voice_lamb.Common.Object.{get, get-put, IsUnique, put-IsUnique}
use service_cloud_voice_lamb.Common.Effect.{ok}
use service_cloud_voice_lamb.Common.Returns.{
  Returns, Returns-pure, Returns-if, Returns-bind, Returns-weaken,
}
use service_cloud_voice_lamb.ContactLens.Calls.{
  Message, Call, Services, Utterance, Segment, Payload, KinesisRecord,
}
use service_cloud_voice_lamb.ContactLens.Batch.{
  build_send_message_payload, Collected, or_empty, add_utterance, process_segments, process_payload,
  process_records, nothing_collected,
}
use service_cloud_voice_lamb.ContactLens.Batch.Collect.{push_events-messages}

abbrev pub is_cons {ℓ} : {A : Type ℓ} → List A → Bool
is_cons [] = false
is_cons (x ∷ xs) = true

pub record IsLinked (st : Collected) : Type 0 where
  pub unique : IsUnique st.secrets
  pub linked : (c : String) → is_some (get c st.secrets) ≡ is_cons (or_empty (get c st.messages))

is_cons-snoc {ℓ} : {A : Type ℓ} (xs : List A) (x : A) → is_cons (xs ++ x ∷ []) ≡ true
is_cons-snoc [] x = refl
is_cons-snoc (y ∷ xs) x = refl

add_utterance-IsLinked :
    (k : String) (secret : Option String) (arrival : ℕ) (u : Option Utterance) (st : Collected)
    → IsLinked st
    → IsLinked (add_utterance k secret arrival u st)
unfolding add_utterance
add_utterance-IsLinked k secret arrival none st h = h
add_utterance-IsLinked k secret arrival (some u) st h =
    let m : Message = build_send_message_payload u arrival in
    let old : List Message = or_empty (get k st.messages) in
    record {
      unique = put-IsUnique k secret st.secrets h.unique;
      linked = λ c. ground (
        arith,
        h.linked c,
        get-put k c secret st.secrets,
        get-put k c (old ++ m ∷ []) st.messages,
        is_cons-snoc old m,
      );
    }

same-IsLinked :
    (a b : Collected)
    → (b.messages ≡ a.messages) × (b.secrets ≡ a.secrets)
    → IsLinked a
    → IsLinked b
same-IsLinked a b (p, q) h = record { unique = rw q h.unique; linked = λ c. rw (p, q) (h.linked c) }

module _ (svc : Services) where
  segments-IsLinked :
      (k : String) (secret : Option String) (arrival : ℕ) (ss : List Segment) (st : Collected)
      → IsLinked st
      → Returns IsLinked (process_segments svc k secret arrival ss st)
  unfolding process_segments
  segments-IsLinked k secret arrival [] st h = Returns-pure st h
  segments-IsLinked k secret arrival (s ∷ ss) st h =
      let st1 : Collected = add_utterance k secret arrival s.utterance st in
      Returns-bind IsLinked _ _
        (Returns-weaken _
          (λ st' e.
            same-IsLinked st1 st' e (add_utterance-IsLinked k secret arrival s.utterance st h))
          (push_events-messages svc k secret s.categories st1))
        (segments-IsLinked k secret arrival ss)

  payload-IsLinked :
      (secret : Option String) (arrival : ℕ) (p : Option Payload) (st : Collected)
      → IsLinked st
      → Returns IsLinked (process_payload svc secret arrival p st)
  unfolding process_payload
  payload-IsLinked secret arrival none st h = Returns-pure st h
  payload-IsLinked secret arrival (some p) st h =
      Returns-if (truthy p.event_type && equals p.event_type "SEGMENTS") _ _
        (λ _. segments-IsLinked p.contact_id secret arrival (or_empty p.segments) st h)
        (λ _. Returns-pure st h)

  records-IsLinked :
      (rs : List KinesisRecord) (st : Collected)
      → IsLinked st
      → Returns IsLinked (process_records svc rs st)
  unfolding process_records
  records-IsLinked [] st h = Returns-pure st h
  records-IsLinked (r ∷ rs) st h =
      Returns-bind IsLinked _ _
        (payload-IsLinked (r.secret_name or_else svc.default_secret) r.arrival r.payload st h)
        (records-IsLinked rs)

  pub process_records-IsLinked :
      (rs : List KinesisRecord) (t : List Call) (st : Collected)
      → (process_records svc rs nothing_collected t).0 ≡ ok st
      → IsLinked st
  process_records-IsLinked rs t st e =
      (records-IsLinked rs nothing_collected (record { unique = λ k. refl; linked = λ c. refl })).at
        t st e
