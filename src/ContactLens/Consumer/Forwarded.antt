-- ===== src/ContactLens/Consumer/Forwarded.antt =====
-- What reaches contactLensProcessor.
use service_cloud_voice_lamb.Common.{
  ◌≡◌, refl, sym, ap, ◌∙◌, ℕ, ◌≤◌, String, Bool, true, false, Option, none, some, List, [], ◌∷◌,
  ◌++◌, ltb, length, map, truthy, if◌then◌else◌, arith,
}
use mathlib.Core.Path.{ap₂}
use service_cloud_voice_lamb.Common.Effect.{ok}
use service_cloud_voice_lamb.Common.Returns.{
  Returns, Returns-pure, Returns-any, Returns-bind, Returns-handle,
}
use service_cloud_voice_lamb.Common.Trace.{
  Only, Only-pure, Only-call, Only-if, Only-bind, Only-bind-Returns, Only-handle, only_rules,
}
use service_cloud_voice_lamb.ContactLens.Batch.{
  Collected, process_records, nothing_collected, build_bulk,
}
use service_cloud_voice_lamb.ContactLens.Batch.Entries.{
  entries_for, entry_or_none, build_bulk-entries,
}
use service_cloud_voice_lamb.ContactLens.Calls
use service_cloud_voice_lamb.ContactLens.Calls.{Message, Payload, KinesisRecord}
use service_cloud_voice_lamb.ContactLens.Batch.Collect.{payload_messages, messages_of}
use service_cloud_voice_lamb.ContactLens.Consumer.{
  Call, get_cached, invoke, Services, max_records, success, forward,
}
use service_cloud_voice_lamb.ContactLens.Consumer as Single
use service_cloud_voice_lamb.ContactLens.Consumer.Multi.{
  retrieve_at, retrieve_from_cache, with_name, name_of, link, link_all, handler,
}

-- A record without the name of its secret.
abbrev pub content : KinesisRecord → KinesisRecord
content r = record r { secret_name = none }

-- A call forwards `rs` if it hands over these records, in this order and but for the names of their
-- secrets, and they are not too many.
abbrev pub IsForward : List KinesisRecord → Call → Type 0
IsForward rs (get_cached bucket key) = Unit
IsForward rs (invoke forwarded) =
    (map content forwarded ≡ map content rs) × (length rs ≤ max_records)

with_name-content :
    (r : KinesisRecord) (name : Option String) (b : Bool)
    → content (if b then record r { secret_name = name } else r) ≡ content r
with_name-content r name true = refl
with_name-content r name false = refl

module _ (svc : Services) where
  link-content : (r : KinesisRecord) → Returns (λ l. content l ≡ content r) (link svc r)
  unfolding link with_name
  link-content r =
      Returns-handle _ _
        (Returns-bind (λ _. Unit) _ _ (Returns-any _ (λ _. tt))
          (λ name _. Returns-pure _ (with_name-content r name (truthy name))))
        (λ e. Returns-pure r refl)

  link_all-content :
      (rs : List KinesisRecord) → Returns (λ ls. map content ls ≡ map content rs) (link_all svc rs)
  unfolding link_all
  link_all-content [] = Returns-pure [] refl
  link_all-content (r ∷ rs) =
      Returns-bind _ _ _ (link-content r)
        λ l p. Returns-bind _ _ _ (link_all-content rs) λ ls q. Returns-pure (l ∷ ls) (ap₂ ◌∷◌ p q)

  module _ (rs : List KinesisRecord) where
    name_of-Only : (p : Option Payload) → Only (IsForward rs) (name_of svc p)
    unfolding name_of retrieve_from_cache retrieve_at
    name_of-Only none = search only_rules
    name_of-Only (some p) = search only_rules

    link-Only : (r : KinesisRecord) → Only (IsForward rs) (link svc r)
    unfolding link
    link-Only r =
        Only-handle _ _ (Only-bind _ _ (name_of-Only r.payload) (λ name. Only-pure _))
          (λ e. Only-pure r)

    link_all-Only : (ls : List KinesisRecord) → Only (IsForward rs) (link_all svc ls)
    unfolding link_all
    link_all-Only [] = Only-pure []
    link_all-Only (l ∷ ls) =
        Only-bind _ _ (link-Only l) λ a. Only-bind _ _ (link_all-Only ls) λ b. Only-pure (a ∷ b)

  forward-Only :
      (rs ls : List KinesisRecord)
      → length rs ≤ max_records
      → map content ls ≡ map content rs
      → Only (IsForward rs) (forward svc ls)
  unfolding forward
  forward-Only rs ls h e =
      Only-bind _ _ (Only-call (invoke ls) svc.invoke (e, h)) (λ _. Only-pure success)

few : (n : ℕ) → ltb max_records n ≡ false → n ≤ max_records
few n e = ground arith

-- Whatever the services answer, the one thing that contactLensConsumer and
-- multiorgContactLensConsumer ask of contactLensProcessor is to take the records of the event, all of
-- them, in their order, and with nothing changed but the name of the secret; and batches of more
-- than five records are not handed over.
pub handlers-IsForward :
    (svc : Services) (rs : List KinesisRecord)
    → Only (IsForward rs) (Single.handler svc (some rs))
      × Only (IsForward rs) (handler svc (some rs))
unfolding Single.handler handler
handlers-IsForward svc rs = (
  Only-if (ltb max_records (length rs)) _ _ (λ _. Only-pure success)
      (λ e. forward-Only svc rs rs (few _ e) refl),
  Only-if (ltb max_records (length rs)) _ _ (λ _. Only-pure success)
      (λ e.
        Only-bind-Returns _ _ _ (link_all-Only svc rs rs) (link_all-content svc rs)
          λ ls p. forward-Only svc rs ls (few _ e) p),
)

messages_of-content :
    (c : String) (rs : List KinesisRecord) → messages_of c (map content rs) ≡ messages_of c rs
messages_of-content c [] = refl
messages_of-content c (r ∷ rs) =
    ap (λ l. payload_messages c r.arrival r.payload ++ l) (messages_of-content c rs)

forwarded_messages :
    (rs ls : List KinesisRecord) (c : String)
    → IsForward rs (invoke ls)
    → messages_of c ls ≡ messages_of c rs
forwarded_messages rs ls c h =
    sym (messages_of-content c ls) ∙ ap (messages_of c) h.0 ∙ messages_of-content c rs

-- If records are handed over to contactLensProcessor, then in its bulk request every contact with at
-- least one utterance in the SEGMENTS records that the consumer received has exactly one entry, with
-- all its messages in the order of the stream; no other contact has one.
pub forwarded-entries :
    (svc : Calls.Services) (rs ls : List KinesisRecord) (t : List Calls.Call) (st : Collected)
    (c : String)
    → IsForward rs (invoke ls)
    → (process_records svc ls nothing_collected t).0 ≡ ok st
    → entries_for c (build_bulk st).entries ≡ entry_or_none c (messages_of c rs)
forwarded-entries svc rs ls t st c h e =
    build_bulk-entries svc ls t st c e ∙ ap (entry_or_none c) (forwarded_messages rs ls c h)
