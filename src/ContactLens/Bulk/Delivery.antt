-- ===== src/ContactLens/Bulk/Delivery.antt =====
-- What is sent again (contactLensProcessor/telephonyIntegrationApi.js).
use service_cloud_voice_lamb.Common.{
  ℕ, zero, suc, ◌+◌, ◌≡◌, refl, sym, ◌∙◌, ◌&&◌, append-nil, String, Bool, true, false, Option, none,
  some, get_elem?, List, [], ◌∷◌, ◌++◌, map, arith, eq_iff, eq_refl, eqb, keep, includes, All,
  append_assoc,
}
use service_cloud_voice_lamb.Common.Effect.{Result, ok, throw, Exec, pure, ◌>>=◌}
use service_cloud_voice_lamb.ContactLens.Calls.{Entry, Response, Call, sleep, post_bulk, Services}
use service_cloud_voice_lamb.ContactLens.Bulk.{
  retry_delays, invoke_bulk_api, get_rate_limited_keys, classify_bulk_response, handle_action,
  retry, Outcome, stop, again, go_on, retry_rounds, deliver,
}

-- Whether an answer reports a key as rate-limited.
abbrev pub reports : Result Response → String → Bool
reports (ok r) k = includes (get_rate_limited_keys r) k
reports (throw e) k = false

-- The calls that follow the trace `t` post only entries with keys that `held` has, and that every
-- answer to a post among them, from the first one on, has reported as rate-limited.
abbrev pub Reported : Services → (String → Bool) → List Call → List Call → Type 0
Reported svc held t [] = Unit
Reported svc held t (post_bulk e j es ∷ calls) =
    All (λ x. held x.vendor_call_key ≡ true) es
    × Reported svc (λ k. held k && reports (svc.bulk t es) k) (t ++ post_bulk e j es ∷ []) calls
Reported svc held t (c ∷ calls) = Reported svc held (t ++ c ∷ []) calls

-- The endpoint reports as rate-limited only entries that the request held.
abbrev pub Honest : Services → Type 0
Honest svc =
    (t : List Call) (es : List Entry) (r : Response) (k : String)
    → svc.bulk t es ≡ ok r
    → includes (get_rate_limited_keys r) k ≡ true
    → includes (map (λ x. x.vendor_call_key) es) k ≡ true

keys-keep :
    (ks : List String) (entries : List Entry) (k : String)
    → includes (map (λ x. x.vendor_call_key) (keep (λ x. includes ks x.vendor_call_key) entries)) k
      ≡ true
    → includes ks k ≡ true
keys-keep ks [] k h = ground arith
keys-keep ks (x ∷ xs) k h = ground (arith, keys-keep ks xs k, eq_iff x.vendor_call_key k)

held-keep :
    (held : String → Bool) (ks : List String) (entries : List Entry)
    → ((k : String) → includes ks k ≡ true → held k ≡ true)
    → All (λ x. held x.vendor_call_key ≡ true) (keep (λ x. includes ks x.vendor_call_key) entries)
held-keep held ks [] h = tt
held-keep held ks (x ∷ xs) h = ground (arith, held-keep held ks xs h, h x.vendor_call_key)

-- A retry is for the rate-limited keys of the response.
again_keys :
    (r : Response) (n : ℕ) (d : Option ℕ) (ks : List String)
    → handle_action (classify_bulk_response r) n ≡ again d ks
    → ks ≡ get_rate_limited_keys r
unfolding handle_action classify_bulk_response
again_keys r n d ks h = ground arith

module _ (svc : Services) where
  -- From `t` a run adds calls that send again only what is held.
  Resends : (String → Bool) → Exec Call (Unit {0}) → List Call → Type 0
  Resends held m t = (calls : List Call) × ((m t).1 ≡ t ++ calls) × Reported svc held t calls

  go_on-Resends :
      (held : String → Bool) (o : Outcome) (next : List String → Exec Call (Unit {0}))
      (t : List Call)
      → ((d : Option ℕ) (ks : List String) → o ≡ again d ks → Resends held (next ks) t)
      → Resends held (go_on o next) t
  unfolding Resends go_on pure
  go_on-Resends held stop next t h = ([], sym (append-nil t), tt)
  go_on-Resends held (again d ks) next t h = h d ks refl

  -- What follows a post is held, and reported by its answer.
  AfterPost : (String → Bool) → Exec Call (Unit {0}) → Call → Result Response → List Call → Type 0
  AfterPost held m post r t =
      (calls : List Call) × ((m t).1 ≡ t ++ post ∷ calls)
      × Reported svc (λ k. held k && reports r k) (t ++ post ∷ []) calls

  post-AfterPost :
      (held : String → Bool) (endpoint : Option String) (jwt : String) (es : List Entry)
      (f : Response → Exec Call (Unit {0})) (t : List Call) (r : Result Response)
      → svc.bulk t es ≡ r
      → ((a : Response)
          → r ≡ ok a
          → Resends (λ k. held k && reports r k) (f a) (t ++ post_bulk endpoint jwt es ∷ []))
      → AfterPost held (invoke_bulk_api svc endpoint jwt es >>= f) (post_bulk endpoint jwt es) r t
  unfolding Resends AfterPost invoke_bulk_api ◌>>=◌
  post-AfterPost held endpoint jwt es f t (throw e) p k = ([], rw p refl, tt)
  post-AfterPost held endpoint jwt es f t (ok a) p k =
      let (calls, q, c) = k a refl in (calls, rw p (q ∙ append_assoc t _ calls), c)

  module _ (honest : Honest svc) (endpoint : Option String) (jwt : String) where
    -- The keys of a retry are held and reported.
    retried_keys :
        (held : String → Bool) (ks : List String) (entries : List Entry) (t : List Call)
        (a : Response) (n : ℕ) (d : Option ℕ) (ks' : List String) (k : String)
        → ((j : String) → includes ks j ≡ true → held j ≡ true)
        → svc.bulk t (keep (λ x. includes ks x.vendor_call_key) entries) ≡ ok a
        → handle_action (classify_bulk_response a) n ≡ again d ks'
        → includes ks' k ≡ true
        → (held k && reports (svc.bulk t (keep (λ x. includes ks x.vendor_call_key) entries)) k)
          ≡ true
    retried_keys held ks entries t a n d ks' k h answered e inc =
        let i : includes (get_rate_limited_keys a) k ≡ true = rw (again_keys a n d ks' e) at inc in
        let es : List Entry = keep (λ x. includes ks x.vendor_call_key) entries in
        rw (h k (keys-keep ks entries k (honest t es a k answered i)), answered) i

    rounds-Resends :
        (left attempt : ℕ) (entries : List Entry) (ks : List String) (held : String → Bool)
        (t : List Call)
        → ((k : String) → includes ks k ≡ true → held k ≡ true)
        → Resends held (retry_rounds svc endpoint jwt left attempt entries ks) t
    unfolding retry_rounds Resends AfterPost pure ◌>>=◌
    rounds-Resends zero attempt entries ks held t h = ([], sym (append-nil t), tt)
    rounds-Resends (suc left) attempt entries ks held t h =
        let es : List Entry = keep (λ x. includes ks x.vendor_call_key) entries in
        let slept = sleep (elim (get_elem? retry_delays attempt) [ none ↦ 0 | some ms ↦ ms ]) in
        let t1 : List Call = t ++ slept ∷ [] in
        let (calls, q, c) =
          post-AfterPost held endpoint jwt es _ t1 (svc.bulk t1 es) refl λ a answered.
            go_on-Resends _ (handle_action (classify_bulk_response a) (attempt + 1)) _ _ λ d ks' e.
              rounds-Resends left (attempt + 1) entries ks' _ _
                λ k inc. retried_keys held ks entries t1 a (attempt + 1) d ks' k h answered e inc in
        (
          slept ∷ post_bulk endpoint jwt es ∷ calls,
          q ∙ append_assoc t _ _,
          (held-keep held ks entries h, c),
        )

-- If the endpoint reports as rate-limited only entries that the request held, then every post of a
-- delivery after the first one holds only entries that all the answers before it, from the first one
-- on, have reported as rate-limited: an entry that was accepted once is never sent again.
pub accepted_not_resent :
    (svc : Services) (endpoint : Option String) (jwt : String) (entries : List Entry)
    (t : List Call)
    → Honest svc
    → (calls : List Call) × ((deliver svc endpoint jwt entries t).1
        ≡ t ++ post_bulk endpoint jwt entries ∷ calls)
      × Reported svc (reports (svc.bulk t entries)) (t ++ post_bulk endpoint jwt entries ∷ []) calls
unfolding deliver Resends AfterPost
accepted_not_resent svc endpoint jwt entries t honest =
    post-AfterPost svc (λ k. true) endpoint jwt entries _ t (svc.bulk t entries) refl
      λ a answered. go_on-Resends svc _ (handle_action (classify_bulk_response a) 0) _ _ λ d ks e.
        rounds-Resends svc honest endpoint jwt 3 0 entries ks _ _ λ k inc.
          let i : includes (get_rate_limited_keys a) k ≡ true = rw (again_keys a 0 d ks e) at inc in
          rw answered i

-- The endpoint rate-limits whatever it is sent.
pub record Limits (svc : Services) (answer : List Call → List Entry → Response) : Type 0 where
  pub answers : (t : List Call) (es : List Entry) → svc.bulk t es ≡ ok (answer t es)
  pub partial : (t : List Call) (es : List Entry) → eqb (answer t es).status 202 ≡ false
  pub limited :
      (t : List Call) (es : List Entry)
      → get_rate_limited_keys (answer t es) ≡ map (λ x. x.vendor_call_key) es

keep-includes :
    (ks : List String) (entries : List Entry)
    → All (λ x. includes ks x.vendor_call_key ≡ true) entries
    → keep (λ x. includes ks x.vendor_call_key) entries ≡ entries
keep-includes ks [] h = refl
keep-includes ks (x ∷ xs) (p, h) = ground (arith, keep-includes ks xs h)

keys-included :
    (ks : List String) (entries : List Entry)
    → ((k : String)
        → includes (map (λ x. x.vendor_call_key) entries) k ≡ true
        → includes ks k ≡ true)
    → All (λ x. includes ks x.vendor_call_key ≡ true) entries
keys-included ks [] h = tt
keys-included ks (x ∷ xs) h = (
  h x.vendor_call_key (rw (eq_refl x.vendor_call_key) refl),
  keys-included ks xs λ k i. h k (ground (arith, eq_iff x.vendor_call_key k)),
)

module _ (svc : Services) (answer : List Call → List Entry → Response) (limits : Limits svc answer)
    (endpoint : Option String) (jwt : String) (x : Entry) (xs : List Entry) where
  all_keys : List String
  all_keys = map (λ y. y.vendor_call_key) (x ∷ xs)

  limited_action : (t : List Call) → classify_bulk_response (answer t (x ∷ xs)) ≡ retry all_keys
  unfolding classify_bulk_response all_keys
  limited_action t = rw (limits.partial t (x ∷ xs), limits.limited t (x ∷ xs))

  resend_all : keep (λ y. includes all_keys y.vendor_call_key) (x ∷ xs) ≡ x ∷ xs
  unfolding all_keys
  resend_all = keep-includes all_keys (x ∷ xs) (keys-included all_keys (x ∷ xs) (λ k h. h))

  -- One round resends everything, and comes back with all the keys.
  round_limited :
      (left attempt : ℕ) (t : List Call) (ms : ℕ)
      → get_elem? retry_delays attempt ≡ some ms
      → (retry_rounds svc endpoint jwt (suc left) attempt (x ∷ xs) all_keys t).1
        ≡ (go_on
            (handle_action (retry all_keys) (attempt + 1))
            (λ ks. retry_rounds svc endpoint jwt left (attempt + 1) (x ∷ xs) ks)
            ((t ++ sleep ms ∷ []) ++ post_bulk endpoint jwt (x ∷ xs) ∷ [])).1
  unfolding retry_rounds ◌>>=◌
  round_limited left attempt t ms e = simp (e, resend_all, limits.answers, limited_action)

  -- An endpoint that rate-limits every entry of a non-empty batch is sent the whole batch four
  -- times, after 0, 5, 10 and 20 seconds, and nothing after that.
  pub delivery_schedule :
      (t : List Call)
      → (deliver svc endpoint jwt (x ∷ xs) t).1
        ≡ t
          ++ (post_bulk endpoint jwt (x ∷ xs)
              ∷ sleep 5000
              ∷ post_bulk endpoint jwt (x ∷ xs)
              ∷ sleep 10000
              ∷ post_bulk endpoint jwt (x ∷ xs)
              ∷ sleep 20000
              ∷ post_bulk endpoint jwt (x ∷ xs)
              ∷ [])
  unfolding deliver handle_action go_on ◌>>=◌
  delivery_schedule t = simp (
    limits.answers,
    limited_action,
    round_limited 2 0 _ 5000 refl,
    round_limited 1 1 _ 10000 refl,
    round_limited 0 2 _ 20000 refl,
    append_assoc,
  )
