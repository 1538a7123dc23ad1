-- ===== src/ContactLens/Batch/Collect.antt =====
-- What the loop over the records of contactLensProcessor/handler.js collects.
use service_cloud_voice_lamb.Common.{
  ℕ, ◌≡◌, refl, sym, ap, ◌∙◌, String, Bool, true, false, Option, none, some, List, [], ◌∷◌, ◌++◌,
  ◌&&◌, truthy, equals, ◌or_else◌, if◌then◌else◌, ◌==◌, eq_iff, Bool-cases, inl, inr, append-nil,
  append_assoc,
}
use service_cloud_voice_lamb.Common.Object.{get, get-put}
use service_cloud_voice_lamb.Common.Effect.{ok}
use service_cloud_voice_lamb.Common.Returns.{
  Returns, Returns-pure, Returns-any, Returns-weaken, Returns-if, Returns-bind,
}
use service_cloud_voice_lamb.ContactLens.Calls.{
  Message, Call, Services, Utterance, Categories, Segment, Payload, KinesisRecord,
}
use service_cloud_voice_lamb.ContactLens.Batch.{
  build_send_message_payload, Collected, or_empty, add_utterance, push_events, process_segments,
  process_payload, process_records, nothing_collected,
}

-- The messages of one contact in the records, in the order of the stream.
abbrev pub utterance_messages : ℕ → Option Utterance → List Message
utterance_messages arrival none = []
utterance_messages arrival (some u) = build_send_message_payload u arrival ∷ []

abbrev pub segment_messages : ℕ → List Segment → List Message
segment_messages arrival [] = []
segment_messages arrival (s ∷ ss) =
    utterance_messages arrival s.utterance ++ segment_messages arrival ss

abbrev pub payload_messages : String → ℕ → Option Payload → List Message
payload_messages contact arrival none = []
payload_messages contact arrival (some p) =
    if (truthy p.event_type && equals p.event_type "SEGMENTS") && p.contact_id == contact
    then segment_messages arrival (or_empty p.segments)
    else []

abbrev pub messages_of : String → List KinesisRecord → List Message
messages_of contact [] = []
messages_of contact (r ∷ rs) =
    payload_messages contact r.arrival r.payload ++ messages_of contact rs

abbrev messages_at : String → Collected → List Message
messages_at contact st = or_empty (get contact st.messages)

-- `b` has what `a` has for the contact, and `more` behind it.
abbrev Gained : String → Collected → List Message → Collected → Type 0
Gained contact a more b = messages_at contact b ≡ messages_at contact a ++ more

Gained-trans :
    (contact : String) (a b c : Collected) (xs ys : List Message)
    → Gained contact a xs b
    → Gained contact b ys c
    → Gained contact a (xs ++ ys) c
Gained-trans contact a b c xs ys p q = q ∙ ap (λ l. l ++ ys) p ∙ append_assoc _ xs ys

add_utterance-Gained :
    (contact k : String) (secret : Option String) (arrival : ℕ) (u : Option Utterance)
    (st : Collected)
    → Gained contact st
        (if k == contact then utterance_messages arrival u else [])
        (add_utterance k secret arrival u st)
unfolding add_utterance
add_utterance-Gained contact k secret arrival none st = elim (Bool-cases (k == contact)) [
  | inl e ↦ rw e (sym (append-nil _))
  | inr e ↦ rw e (sym (append-nil _))
]
add_utterance-Gained contact k secret arrival (some u) st =
    let v : List Message =
      or_empty (get k st.messages) ++ build_send_message_payload u arrival ∷ [] in
    rw (get-put k contact v st.messages) (elim (Bool-cases (k == contact)) [
      | inl e ↦ rw e (rw ((eq_iff k contact).0 e) refl)
      | inr e ↦ rw e (sym (append-nil _))
    ])

pub push_events-messages :
    (svc : Services) (contact : String) (secret : Option String) (c : Option Categories)
    (st : Collected)
    → Returns
        (λ st'. (st'.messages ≡ st.messages) × (st'.secrets ≡ st.secrets))
        (push_events svc contact secret c st)
unfolding push_events
push_events-messages svc contact secret none st = Returns-pure st (refl, refl)
push_events-messages svc contact secret (some c) st =
    Returns-bind (λ _. Unit) _ _ (Returns-any _ (λ _. tt))
      λ now _.
        Returns-bind (λ _. Unit) _ _ (Returns-any _ (λ _. tt))
          λ payload _.
            Returns-bind (λ _. Unit) _ _ (Returns-any _ (λ _. tt))
              λ sent _. Returns-pure _ (refl, refl)

-- The messages `xs` of the contact `k`, as far as they are the contact's.
abbrev when : Bool → List Message → List Message
when b xs = if b then xs else []

when-append : (b : Bool) (xs ys : List Message) → when b xs ++ when b ys ≡ when b (xs ++ ys)
when-append true xs ys = refl
when-append false xs ys = refl

when-nil : (b : Bool) → [] ≡ when b []
when-nil true = refl
when-nil false = refl

module _ (svc : Services) (contact : String) where
  Gained-none : (st : Collected) → Gained contact st [] st
  Gained-none st = sym (append-nil _)

  segments-Gained :
      (k : String) (secret : Option String) (arrival : ℕ) (ss : List Segment) (st : Collected)
      → Returns
          (Gained contact st (when (k == contact) (segment_messages arrival ss)))
          (process_segments svc k secret arrival ss st)
  unfolding process_segments
  segments-Gained k secret arrival [] st =
      Returns-pure st (rw (← when-nil (k == contact)) (Gained-none st))
  segments-Gained k secret arrival (s ∷ ss) st =
      let st1 : Collected = add_utterance k secret arrival s.utterance st in
      let here : List Message = when (k == contact) (utterance_messages arrival s.utterance) in
      let later : List Message = when (k == contact) (segment_messages arrival ss) in
      Returns-bind (λ st'. Gained contact st here st') _ _
        (Returns-weaken _
          (λ st' e.
            ap (λ m. or_empty (get contact m)) e.0
            ∙ add_utterance-Gained contact k secret arrival s.utterance st)
          (push_events-messages svc k secret s.categories st1))
        λ st' g.
          Returns-weaken _
            (λ st'' g'.
              rw
                (← when-append (k == contact) (utterance_messages arrival s.utterance)
                  (segment_messages arrival ss))
                (Gained-trans contact st st' st'' here later g g'))
            (segments-Gained k secret arrival ss st')

  payload-Gained :
      (secret : Option String) (arrival : ℕ) (p : Option Payload) (st : Collected)
      → Returns
          (Gained contact st (payload_messages contact arrival p))
          (process_payload svc secret arrival p st)
  unfolding process_payload
  payload-Gained secret arrival none st = Returns-pure st (Gained-none st)
  payload-Gained secret arrival (some p) st =
      Returns-if (truthy p.event_type && equals p.event_type "SEGMENTS") _ _
        (λ e. rw e (segments-Gained p.contact_id secret arrival (or_empty p.segments) st))
        (λ e. rw e (Returns-pure st (Gained-none st)))

  records-Gained :
      (rs : List KinesisRecord) (st : Collected)
      → Returns (Gained contact st (messages_of contact rs)) (process_records svc rs st)
  unfolding process_records
  records-Gained [] st = Returns-pure st (Gained-none st)
  records-Gained (r ∷ rs) st =
      let secret : Option String = r.secret_name or_else svc.default_secret in
      Returns-bind (Gained contact st (payload_messages contact r.arrival r.payload)) _ _
        (payload-Gained secret r.arrival r.payload st)
        λ st' g.
          Returns-weaken _ (λ st'' g'. Gained-trans contact st st' st'' _ _ g g')
            (records-Gained rs st')

-- When the loop ends, each contact has exactly the messages of its utterances in the SEGMENTS
-- records, in the order of the stream, whatever the realtime endpoint and the secrets did.
pub process_records-messages :
    (svc : Services) (rs : List KinesisRecord) (t : List Call) (st : Collected) (contact : String)
    → (process_records svc rs nothing_collected t).0 ≡ ok st
    → or_empty (get contact st.messages) ≡ messages_of contact rs
process_records-messages svc rs t st contact e =
    (records-Gained svc contact rs nothing_collected).at t st e
