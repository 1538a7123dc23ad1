-- ===== src/ContactLens/Consumer/Linked.antt =====
-- The secrets under which contactLensProcessor gets the records of multiorgContactLensConsumer.
use service_cloud_voice_lamb.Common.{
  ◌≡◌, refl, ◌≤◌, String, true, false, Option, none, some, List, [], ◌∷◌, ◌++◌, ◌==◌, ltb, length,
  map, truthy, text_of, if◌then◌else◌, arith, Bool-cases, inl, inr,
}
use service_cloud_voice_lamb.Common.Effect.{
  Result, ok, throw, pure, raise, lift, call, handle, ◌>>=◌,
}
use service_cloud_voice_lamb.Telephony.Cache.{bucket_of, key_of}
use service_cloud_voice_lamb.ContactLens.Calls.{Payload, KinesisRecord}
use service_cloud_voice_lamb.ContactLens.Consumer.{
  Call, get_cached, invoke, Services, max_records, success, forward,
}
use service_cloud_voice_lamb.ContactLens.Consumer.Multi.{
  retrieve_at, retrieve_from_cache, with_name, name_of, link, link_all, handler,
}

abbrev pub value_or_none : Result (Option String) → Option String
value_or_none (ok name) = name
value_or_none (throw e) = none

-- The name that a cache in S3 at a location has for a contact.
abbrev pub cached_name :
    (String → String → Result (Option String)) → String → String → Option String
cached_name s3 location contact =
    if contact == ""
    then none
    else value_or_none (s3 (bucket_of location) (key_of location contact))

abbrev pub linked_by : (String → Option String) → KinesisRecord → Option Payload → KinesisRecord
linked_by names r none = r
linked_by names r (some p) =
    if truthy (names p.contact_id) then record r { secret_name = names p.contact_id } else r

-- A record under the name that the cache has for its contact, if it has one.
abbrev pub linked : (String → Option String) → KinesisRecord → KinesisRecord
linked names r = linked_by names r r.payload

-- S3 does not change while the lambda runs.
abbrev pub IsStable : Services → (String → String → Result (Option String)) → Type 0
IsStable svc s3 = (t : List Call) (b k : String) → svc.get_cached t b k ≡ s3 b k

caught :
    (r : Result (Option String)) (t : List Call)
    → (handle (lift r) (λ err. pure none) t).0 ≡ ok (value_or_none r)
unfolding handle lift pure
caught (ok name) t = refl
caught (throw e) t = refl

module _ (svc : Services) (s3 : String → String → Result (Option String))
    (used : truthy svc.secret_cache_s3 ≡ true) (stable : IsStable svc s3) where
  -- The names in the cache of the environment.
  abbrev names : String → Option String
  names contact = cached_name s3 (text_of svc.secret_cache_s3) contact

  retrieve_at-result :
      (location contact : String) (t : List Call)
      → (retrieve_at svc location contact t).0
        ≡ ok (value_or_none (s3 (bucket_of location) (key_of location contact)))
  unfolding retrieve_at call handle lift pure
  retrieve_at-result location contact t = rw (stable t _ _) (caught _ (t ++ get_cached _ _ ∷ []))

  retrieve_from_cache-result :
      (contact : String) (t : List Call)
      → (retrieve_from_cache svc contact t).0 ≡ ok (names contact)
  unfolding retrieve_from_cache pure
  retrieve_from_cache-result contact t = elim (Bool-cases (contact == "")) [
    | inl e ↦ rw e refl
    | inr e ↦ rw (e, used) (retrieve_at-result _ contact t)
  ]

  linked_payload-result :
      (r : KinesisRecord) (p : Option Payload) (t : List Call)
      → (handle (do name ← name_of svc p; pure (with_name r name)) (λ err. pure r) t).0
        ≡ ok (linked_by names r p)
  unfolding name_of with_name handle pure raise ◌>>=◌
  linked_payload-result r none t = refl
  linked_payload-result r (some p) t = rw (retrieve_from_cache-result p.contact_id t) refl

  link-result : (r : KinesisRecord) (t : List Call) → (link svc r t).0 ≡ ok (linked names r)
  unfolding link
  link-result r t = linked_payload-result r r.payload t

  link_all-result :
      (rs : List KinesisRecord) (t : List Call) → (link_all svc rs t).0 ≡ ok (map (linked names) rs)
  unfolding link_all ◌>>=◌ pure
  link_all-result [] t = refl
  link_all-result (r ∷ rs) t = rw (link-result r t, link_all-result rs) refl

-- When S3 answers steadily and the lambda of contactLensProcessor can be started, a run on at most
-- five records succeeds, and ends by handing over the records, each under the name that the cache
-- has for its contact; where it has none, the record is unchanged.
pub handler-linked :
    (svc : Services) (s3 : String → String → Result (Option String)) (rs : List KinesisRecord)
    (t : List Call)
    → truthy svc.secret_cache_s3 ≡ true
    → IsStable svc s3
    → ((u : List Call) → svc.invoke u ≡ ok tt)
    → length rs ≤ max_records
    → (u : List Call) × (handler svc (some rs) t ≡ (
      ok success,
      u ++ invoke (map (linked (cached_name s3 (text_of svc.secret_cache_s3))) rs) ∷ [],
    ))
unfolding handler forward call pure ◌>>=◌
handler-linked svc s3 rs t used stable i h =
    let e : ltb max_records (length rs) ≡ false = ground arith in
    ((link_all svc rs t).1, rw (e, link_all-result svc s3 used stable rs t, i) refl)
