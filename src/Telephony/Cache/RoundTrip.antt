-- ===== src/Telephony/Cache/RoundTrip.antt =====
-- What invokeTelephonyIntegrationApi/cacheUtils.js reads back of what it stored.
use service_cloud_voice_lamb.Common.{
  ◌≡◌, ◌≢◌, refl, sym, ap, ◌∙◌, String, Bool, true, false, Option, none, some, List, [], ◌∷◌, ◌++◌,
  ◌&&◌, truthy, text_of, if◌then◌else◌, ◌==◌, Bool-cases, inl, inr, eq_iff, eq_refl,
}
use Prim.Native.String.{◌++◌ as ◌<>◌}
use service_cloud_voice_lamb.Common.Text.{substring, text_length, substring-append}
use service_cloud_voice_lamb.Common.Effect.{Result, ok, throw, pure, lift, handle, ◌>>=◌, ◌>>◌}
use service_cloud_voice_lamb.Telephony.Calls.{CacheData, Call, put_object, Services}
use service_cloud_voice_lamb.Telephony.Cache.{
  bucket_of, key_of, store_at, store_in_cache, retrieve_at, retrieve_from_cache,
}

append_cancel : (p a b : String) → p <> a ≡ p <> b → a ≡ b
append_cancel p a b h =
    sym (substring-append p a) ∙ ap (λ s. substring s (text_length p)) h ∙ substring-append p b

key_choice :
    (b : Bool) (d x y : String)
    → (if b then x else d <> ("/" <> x)) ≡ (if b then y else d <> ("/" <> y))
    → x ≡ y
key_choice true d x y h = h
key_choice false d x y h = append_cancel "/" x y (append_cancel d _ _ h)

-- Different contacts have different keys.
key_of-injective : (location x y : String) → key_of location x ≡ key_of location y → x ≡ y
unfolding key_of
key_of-injective location x y h = key_choice _ _ x y h

-- What S3 keeps after a trace of calls that all succeeded: an object is the last one that was put
-- under its bucket and key.
abbrev stored_as : String → String → Call → Option CacheData → Option CacheData
stored_as b k (put_object bucket key cached) o =
    if (bucket == b) && (key == k) then some cached else o
stored_as b k c o = o

abbrev pub last_put : String → String → List Call → Option CacheData → Option CacheData
last_put b k [] o = o
last_put b k (c ∷ t) o = last_put b k t (stored_as b k c o)

abbrev pub found : Option CacheData → Result CacheData
found none = throw "NoSuchKey"
found (some cached) = ok cached

-- S3 as its documentation promises it: a put that is answered succeeds, and every later read finds
-- the last object that was put under the key.
abbrev pub IsConsistent : Services → Type 0
IsConsistent svc =
    ((t : List Call) → svc.put_object t ≡ ok tt)
    × ((t : List Call) (b k : String) → svc.get_object t b k ≡ found (last_put b k t none))

last_put-append :
    (b k : String) (t : List Call) (c : Call) (o : Option CacheData)
    → last_put b k (t ++ c ∷ []) o ≡ stored_as b k c (last_put b k t o)
last_put-append b k [] c o = refl
last_put-append b k (d ∷ t) c o = last_put-append b k t c (stored_as b k d o)

different_keys : (location x y : String) → x ≢ y → (key_of location y == key_of location x) ≡ false
different_keys location x y h = elim (Bool-cases (key_of location y == key_of location x)) [
  | inl p ↦ absurd (h (sym (key_of-injective location y x ((eq_iff _ _).0 p))))
  | inr p ↦ p
]

module _ (svc : Services) (location : String) (consistent : IsConsistent svc) where
  store_at-run :
      (x : String) (cached : CacheData) (t : List Call)
      → store_at svc location (some x) cached t
        ≡ (ok true, t ++ put_object (bucket_of location) (key_of location x) cached ∷ [])
  unfolding store_at ◌>>=◌
  store_at-run x cached t = rw (consistent.0 t) refl

  found_or_none :
      (o : Option CacheData) (t : List Call)
      → ((handle (do c ← lift (found o); pure (some c)) (λ _. pure none)) t).0 ≡ ok o
  unfolding ◌>>=◌
  found_or_none none t = refl
  found_or_none (some c) t = refl

  retrieve_at-run :
      (x : String) (t : List Call)
      → (retrieve_at svc location (some x) t).0
        ≡ ok (last_put (bucket_of location) (key_of location x) t none)
  unfolding retrieve_at ◌>>=◌
  retrieve_at-run x t = rw (consistent.1 t) (found_or_none _ _)

module _ (svc : Services) (consistent : IsConsistent svc)
    (set : truthy svc.secret_cache_s3 ≡ true) where
  abbrev object_of : String → CacheData → Call
  object_of x cached =
      let location = text_of svc.secret_cache_s3 in
      put_object (bucket_of location) (key_of location x) cached

  store_in_cache-run :
      (x : String) (cached : CacheData) (t : List Call)
      → store_in_cache svc (some x) cached t ≡ (ok true, t ++ object_of x cached ∷ [])
  unfolding store_in_cache
  store_in_cache-run x cached t = rw (set, store_at-run svc _ consistent x cached t) refl

  retrieve_from_cache-run :
      (x : String) (t : List Call)
      → (retrieve_from_cache svc (some x) t).0 ≡ (
          let location = text_of svc.secret_cache_s3 in
          ok (last_put (bucket_of location) (key_of location x) t none))
  unfolding retrieve_from_cache
  retrieve_from_cache-run x t = rw (set, retrieve_at-run svc _ consistent x t) refl

  last_put-two :
      (x y : String) (cx cy : CacheData) (t : List Call)
      → x ≢ y
      → (let location = text_of svc.secret_cache_s3 in
          last_put
            (bucket_of location)
            (key_of location x)
            ((t ++ object_of x cx ∷ []) ++ object_of y cy ∷ [])
            none)
        ≡ some cx
  last_put-two x y cx cy t h =
      rw
        (
          last_put-append,
          last_put-append,
          different_keys (text_of svc.secret_cache_s3) x y h,
          eq_refl,
          eq_refl,
        )
        refl

  -- What S3 keeps under the key of a contact after an entry was stored for it.
  pub last_put-store :
      (x : String) (cached : CacheData) (t : List Call)
      → (let location = text_of svc.secret_cache_s3 in
          last_put
            (bucket_of location)
            (key_of location x)
            (store_in_cache svc (some x) cached t).1
            none)
        ≡ some cached
  last_put-store x cached t =
      rw (store_in_cache-run x cached t, last_put-append, eq_refl, eq_refl) refl

-- On a consistent S3, with a cache location configured, the lambda reads back for a contact what it
-- stored for it, also after it has stored an entry for any other contact.
pub retrieve-store :
    (svc : Services) (x y : String) (cx cy : CacheData) (t : List Call)
    → IsConsistent svc
    → truthy svc.secret_cache_s3 ≡ true
    → x ≢ y
    → ((store_in_cache svc (some x) cx
          >> store_in_cache svc (some y) cy
          >> retrieve_from_cache svc (some x))
        t).0
      ≡ ok (some cx)
unfolding ◌>>=◌
retrieve-store svc x y cx cy t c p h =
    rw (store_in_cache-run svc c p, store_in_cache-run svc c p, retrieve_from_cache-run svc c p)
      (ap ok (last_put-two svc c p x y cx cy t h))
