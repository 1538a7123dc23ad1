-- ===== src/ContactLens/Consumer/Stored.antt =====
-- How the cache that invokeTelephonyIntegrationApi writes leads multiorgContactLensConsumer to the
-- secret of a contact.
use service_cloud_voice_lamb.Common.{
  ◌≡◌, refl, ap, ◌∙◌, ℕ, zero, suc, ◌≤◌, String, true, false, Option, none, some, List, [], ◌∷◌,
  ◌++◌, length, get_elem?, map, truthy, text_of, ◌==◌,
}
use service_cloud_voice_lamb.Common.Effect.{Result, ok, throw}
use service_cloud_voice_lamb.Telephony.Calls.{CacheData}
use service_cloud_voice_lamb.Telephony.Calls
use service_cloud_voice_lamb.Telephony.Cache.{store_in_cache}
use service_cloud_voice_lamb.Telephony.Cache.RoundTrip.{
  last_put, found, last_put-store, IsConsistent,
}
use service_cloud_voice_lamb.ContactLens.Calls.{Payload, KinesisRecord}
use service_cloud_voice_lamb.ContactLens.Consumer.{invoke, Services, max_records, success}
use service_cloud_voice_lamb.ContactLens.Consumer as Single
use service_cloud_voice_lamb.ContactLens.Consumer.Multi.{handler}
use service_cloud_voice_lamb.ContactLens.Consumer.Linked.{
  IsStable, cached_name, linked, linked_by, handler-linked,
}

abbrev name_in : Result CacheData → Result (Option String)
name_in (ok cached) = ok cached.secret_name
name_in (throw e) = throw e

-- What S3 answers after a trace of the telephony lambda, as far as the consumer reads it.
abbrev pub s3_after : List Calls.Call → String → String → Result (Option String)
s3_after t bucket key = name_in (found (last_put bucket key t none))

get_elem?-map :
    {A B : Type 0} (f : A → B) (xs : List A) (i : ℕ) (x : A)
    → get_elem? xs i ≡ some x
    → get_elem? (map f xs) i ≡ some (f x)
get_elem?-map f [] i x h = absurd (cc)
get_elem?-map f (y ∷ ys) zero x h = let e : y ≡ x = cc in ap (λ z. some (f z)) e
get_elem?-map f (y ∷ ys) (suc i) x h = get_elem?-map f ys i x h

linked-named :
    (names : String → Option String) (r : KinesisRecord) (p : Payload) (name : String)
    → r.payload ≡ some p
    → names p.contact_id ≡ some name
    → truthy (some name) ≡ true
    → linked names r ≡ record r { secret_name = some name }
linked-named names r p name h e n = ap (linked_by names r) h ∙ rw (e, n) refl

stored_name :
    (svc : Calls.Services) (x name : String) (cached : CacheData) (t : List Calls.Call)
    → IsConsistent svc
    → truthy svc.secret_cache_s3 ≡ true
    → (x == "") ≡ false
    → cached.secret_name ≡ some name
    → cached_name
        (s3_after (store_in_cache svc (some x) cached t).1)
        (text_of svc.secret_cache_s3)
        x
      ≡ some name
stored_name svc x name cached t c used e n = rw (e, last_put-store svc c used x cached t, n) refl

-- If invokeTelephonyIntegrationApi stores the name of a secret for a contact on a consistent S3, and
-- the two lambdas have the same cache location, then a run of multiorgContactLensConsumer that finds
-- what was stored, on at most five records, succeeds and hands over every record of that contact
-- under that name, at its place and with nothing else changed.
pub handler-stored :
    (telephony : Calls.Services) (svc : Services) (x name : String) (cached : CacheData)
    (t : List Calls.Call) (rs : List KinesisRecord) (i : ℕ) (r : KinesisRecord) (p : Payload)
    → IsConsistent telephony
    → truthy telephony.secret_cache_s3 ≡ true
    → svc.secret_cache_s3 ≡ telephony.secret_cache_s3
    → IsStable svc (s3_after (store_in_cache telephony (some x) cached t).1)
    → ((u : List Single.Call) → svc.invoke u ≡ ok tt)
    → (x == "") ≡ false
    → cached.secret_name ≡ some name
    → truthy (some name) ≡ true
    → length rs ≤ max_records
    → get_elem? rs i ≡ some r
    → r.payload ≡ some p
    → p.contact_id ≡ x
    → (u : List Single.Call) × (ls : List KinesisRecord) × (handler svc (some rs) []
        ≡ (ok success, u ++ invoke ls ∷ []))
      × (get_elem? ls i ≡ some (record r { secret_name = some name }))
handler-stored telephony svc x name cached t rs i r p c used same stable ready e n named few at_i
      has of_x =
    let s3 = s3_after (store_in_cache telephony (some x) cached t).1 in
    let names = cached_name s3 (text_of svc.secret_cache_s3) in
    let used' : truthy svc.secret_cache_s3 ≡ true = ap truthy same ∙ used in
    let (u, run) = handler-linked svc s3 rs [] used' stable ready few in
    let found_name : names p.contact_id ≡ some name =
      rw (of_x, ap text_of same) (stored_name telephony x name cached t c used e n) in
    (
      u,
      map (linked names) rs,
      run,
      get_elem?-map (linked names) rs i r at_i
          ∙ ap some (linked-named names r p name has found_name named),
    )
