-- ===== src/Http/Bounds.antt =====
-- How long the clients keep on trying.
use service_cloud_voice_lamb.Common.{
  ◌≡◌, refl, ◌∙◌, ap, ℕ, zero, suc, ◌+◌, ◌≤◌, ◌<◌, ◌⊎◌, inl, inr, Bool, true, false, some, List, [],
  ◌∷◌, length, take, ltb, eqb, leb, ◌||◌, if◌then◌else◌, arith,
}
use service_cloud_voice_lamb.Common.Effect.{Result, ok, throw}
use service_cloud_voice_lamb.Http.{
  Failure, Policy, retry_delays, delay_of, scrt_policy, multi_condition, multi_policy,
}
use service_cloud_voice_lamb.Http.Retry.{
  Outcome, accepted, failed, succeeded, rejected, ended, waited, AxiosRetry,
}

abbrev pub sum : List ℕ → ℕ
sum [] = 0
sum (n ∷ ns) = n + sum ns

-- At most so many waits, of at most so many milliseconds.
abbrev pub AtMost : ℕ → ℕ → List ℕ → Type 0
AtMost k ms xs = (length xs ≤ k) × (sum xs ≤ ms)

one_more :
    (xs ys : List ℕ) (d k ms : ℕ)
    → (xs ≡ []) ⊎ (xs ≡ d ∷ ys)
    → AtMost k ms ys
    → AtMost (suc k) (d + ms) xs
one_more xs ys d k ms (inl e) h = rw e (omega arith, omega arith)
one_more xs ys d k ms (inr e) h = rw e (omega (arith, h.0), omega (arith, h.1))

module _ (r : AxiosRetry) (p : Policy) (o : ℕ → Outcome) where
  -- Before the n-th retry there are no more waits, or the delay and the waits that follow it.
  NextWaits : ℕ → Type 0
  NextWaits n =
      ((r.run p n o).waits ≡ [])
      ⊎ ((r.run p n o).waits ≡ p.retry_delay (suc n) ∷ (r.run p (suc n) o).waits)

  failed-waits :
      (n : ℕ) (f : Failure) (c : Result Bool)
      → n < p.retries
      → o n ≡ failed f
      → p.retry_condition f ≡ c
      → NextWaits n
  unfolding NextWaits
  failed-waits n f (ok true) h e c = inr (ap (λ x. x.waits) (r.retries p n o f e h c))
  failed-waits n f (ok false) h e c = inl (ap (λ x. x.waits) (r.refuses p n o f e h c))
  failed-waits n f (throw m) h e c = inl (ap (λ x. x.waits) (r.crashes p n o f m e h c))

  next-waits : (n : ℕ) (x : Outcome) → n < p.retries → o n ≡ x → NextWaits n
  unfolding NextWaits
  next-waits n accepted h e = inl (ap (λ x. x.waits) (r.accepts p n o e))
  next-waits n (failed f) h e = failed-waits n f _ h e refl

  last-waits : (n : ℕ) (x : Outcome) → p.retries ≤ n → o n ≡ x → (r.run p n o).waits ≡ []
  last-waits n accepted h e = ap (λ x. x.waits) (r.accepts p n o e)
  last-waits n (failed f) h e = ap (λ x. x.waits) (r.gives_up p n o f e h)

  -- The waits of a client with three retries.
  bounded :
      p.retries ≡ 3
      → (length (r.run p 0 o).waits ≤ 3)
        × (sum (r.run p 0 o).waits ≤ p.retry_delay 1 + (p.retry_delay 2 + (p.retry_delay 3 + 0)))
  unfolding NextWaits
  bounded h =
      let none_left : (r.run p 3 o).waits ≡ [] = last-waits 3 (o 3) (omega (arith, h)) refl in
      let two =
        one_more _ _ _ 0 0 (next-waits 2 (o 2) (omega (arith, h)) refl)
          (rw none_left (omega arith), rw none_left (omega arith)) in
      let one = one_more _ _ _ 1 _ (next-waits 1 (o 1) (omega (arith, h)) refl) two in
      one_more _ _ _ 2 _ (next-waits 0 (o 0) (omega (arith, h)) refl) one

-- The first `k` attempts fail with the status, and the next ones are accepted.
abbrev pub IsRefused : ℕ → ℕ → (ℕ → Outcome) → Type 0
IsRefused status k o =
    (i : ℕ) → o i ≡ (if ltb i k then failed (record { status = some status }) else accepted)

module _ (r : AxiosRetry) (p : Policy) (status : ℕ)
    (retried : p.retry_condition (record { status = some status }) ≡ ok true)
    (three : p.retries ≡ 3) (o : ℕ → Outcome) where
  -- An attempt that fails is followed by the wait and the next attempt.
  next_attempt :
      (n : ℕ)
      → n < 3
      → o n ≡ failed (record { status = some status })
      → r.run p n o ≡ waited (p.retry_delay (suc n)) (r.run p (suc n) o)
  next_attempt n h e = r.retries p n o _ e (omega (arith, h, three)) retried

  recovers :
      (k : ℕ)
      → k ≤ 3
      → IsRefused status k o
      → r.run p 0 o ≡ record {
        waits = take k (p.retry_delay 1 ∷ p.retry_delay 2 ∷ p.retry_delay 3 ∷ []);
        ending = succeeded;
      }
  recovers zero h e = r.accepts p 0 o (e 0)
  recovers (suc zero) h e =
      next_attempt 0 (omega arith) (e 0) ∙ ap (waited _) (r.accepts p 1 o (e 1))
  recovers (suc (suc zero)) h e =
      next_attempt 0 (omega arith) (e 0)
      ∙ ap (waited _) (next_attempt 1 (omega arith) (e 1) ∙ ap (waited _) (r.accepts p 2 o (e 2)))
  recovers (suc (suc (suc zero))) h e =
      next_attempt 0 (omega arith) (e 0)
      ∙ ap (waited _) (
          next_attempt 1 (omega arith) (e 1)
          ∙ ap (waited _)
              (next_attempt 2 (omega arith) (e 2) ∙ ap (waited _) (r.accepts p 3 o (e 3))))
  recovers (suc (suc (suc (suc k)))) h e = absurd (omega (arith, h))

clients-AtMost :
    (r : AxiosRetry) (o : ℕ → Outcome)
    → AtMost 3 35000 (r.run scrt_policy 0 o).waits × AtMost 3 6000 (r.run multi_policy 0 o).waits
unfolding scrt_policy multi_policy delay_of retry_delays
clients-AtMost r o = (bounded r scrt_policy o refl, bounded r multi_policy o refl)

scrt-recovers :
    (r : AxiosRetry) (o : ℕ → Outcome) (k : ℕ)
    → k ≤ 3
    → IsRefused 429 k o
    → r.run scrt_policy 0 o
      ≡ record { waits = take k (5000 ∷ 10000 ∷ 20000 ∷ []); ending = succeeded }
unfolding scrt_policy delay_of retry_delays
scrt-recovers r o k h e = recovers r scrt_policy 429 refl refl o k h e

-- A response that says that a request was rate-limited, or that the server failed.
abbrev pub is_passing : ℕ → Bool
is_passing status = eqb status 429 || leb 500 status

multi-recovers :
    (r : AxiosRetry) (o : ℕ → Outcome) (k status : ℕ)
    → k ≤ 3
    → is_passing status ≡ true
    → IsRefused status k o
    → r.run multi_policy 0 o
      ≡ record { waits = take k (1000 ∷ 2000 ∷ 3000 ∷ []); ending = succeeded }
unfolding multi_policy multi_condition
multi-recovers r o k status h c e = recovers r multi_policy status (ap ok c) refl o k h e

not_limited : (status : ℕ) → is_passing status ≡ false → eqb status 429 ≡ false
not_limited status h = ground arith

scrt-rejects :
    (r : AxiosRetry) (o : ℕ → Outcome) (status : ℕ)
    → o 0 ≡ failed (record { status = some status })
    → is_passing status ≡ false
    → r.run scrt_policy 0 o ≡ ended (rejected (record { status = some status }))
unfolding scrt_policy
scrt-rejects r o status e h =
    r.refuses scrt_policy 0 o _ e (omega arith) (ap ok (not_limited status h))

multi-rejects :
    (r : AxiosRetry) (o : ℕ → Outcome) (status : ℕ)
    → o 0 ≡ failed (record { status = some status })
    → is_passing status ≡ false
    → r.run multi_policy 0 o ≡ ended (rejected (record { status = some status }))
unfolding multi_policy multi_condition
multi-rejects r o status e h = r.refuses multi_policy 0 o _ e (omega arith) (ap ok h)

-- With axios-retry as it is documented, a request of contactLensProcessor or postCallAnalysisTrigger
-- that is rate-limited up to three times and then accepted succeeds, after waits of 5, 10 and 20
-- seconds; a request of multiorgPostCallAnalysisTrigger that is rate-limited or meets an error of the
-- server up to three times, and is then accepted, succeeds after waits of 1, 2 and 3 seconds; with any
-- other status of a response a request is rejected without another attempt by all three; and whatever the endpoint answers, a request is sent again at most three times, within waits of 35
-- seconds in all, and by multiorgPostCallAnalysisTrigger within 6 seconds.
pub clients_recover :
    (r : AxiosRetry) (o o' bad : ℕ → Outcome) (k status other : ℕ)
    → k ≤ 3
    → is_passing status ≡ true
    → IsRefused 429 k o
    → IsRefused status k o'
    → bad 0 ≡ failed (record { status = some other })
    → is_passing other ≡ false
    → (r.run scrt_policy 0 o
        ≡ record { waits = take k (5000 ∷ 10000 ∷ 20000 ∷ []); ending = succeeded })
      × (r.run multi_policy 0 o'
          ≡ record { waits = take k (1000 ∷ 2000 ∷ 3000 ∷ []); ending = succeeded })
      × (r.run scrt_policy 0 bad ≡ ended (rejected (record { status = some other })))
      × (r.run multi_policy 0 bad ≡ ended (rejected (record { status = some other })))
      × ((q : ℕ → Outcome)
          → AtMost 3 35000 (r.run scrt_policy 0 q).waits
            × AtMost 3 6000 (r.run multi_policy 0 q).waits)
clients_recover r o o' bad k status other h c e e' b n = (
  scrt-recovers r o k h e,
  multi-recovers r o' k status h c e',
  scrt-rejects r bad other b n,
  multi-rejects r bad other b n,
  clients-AtMost r,
)
