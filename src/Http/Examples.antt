-- ===== src/Http/Examples.antt =====
-- The clients with a concrete axios-retry.
use service_cloud_voice_lamb.Common.{
  ◌≡◌, refl, ℕ, zero, suc, ◌-◌, ◌≤◌, ◌<◌, Bool, true, false, none, some, take, [], ◌∷◌, ltb,
  if◌then◌else◌, arith,
}
use service_cloud_voice_lamb.Common.Effect.{Result, ok, throw}
use service_cloud_voice_lamb.Http.{Failure, Policy, scrt_policy, multi_policy}
use service_cloud_voice_lamb.Http.Retry.{
  Outcome, accepted, failed, succeeded, rejected, crashed, Run, ended, waited, AxiosRetry,
}
use service_cloud_voice_lamb.Http.Bounds.{AtMost, clients_recover}

abbrev if_retried : Failure → Result Bool → Run → Run → Run
if_retried f (ok true) again stop = again
if_retried f (ok false) again stop = stop
if_retried f (throw e) again stop = ended (crashed e)

-- What follows an attempt, with the retries that are left.
abbrev attempt : Policy → ℕ → ℕ → (ℕ → Outcome) → Outcome → Run
attempt p k n o accepted = ended succeeded
attempt p zero n o (failed f) = ended (rejected f)
attempt p (suc k) n o (failed f) =
    let again = attempt p k (suc n) o (o (suc n)) in
    if_retried f (p.retry_condition f) (waited (p.retry_delay (suc n)) again) (ended (rejected f))

abbrev run : Policy → ℕ → (ℕ → Outcome) → Run
run p n o = attempt p (p.retries - n) n o (o n)

left_none : (k n : ℕ) → k ≤ n → k - n ≡ 0
left_none k n h = omega (arith, h)

left_more : (k n : ℕ) → n < k → k - n ≡ suc (k - suc n)
left_more k n h = omega (arith, h)

axios_retry : AxiosRetry
axios_retry = record {
  run = run;
  accepts = λ p n o e. rw e refl;
  gives_up = λ p n o f e h. rw (e, left_none p.retries n h) refl;
  refuses = λ p n o f e h c. rw (e, left_more p.retries n h, c) refl;
  crashes = λ p n o f x e h c. rw (e, left_more p.retries n h, c) refl;
  retries = λ p n o f e h c. rw (e, left_more p.retries n h, c) refl;
}

-- An endpoint that refuses a request twice.
abbrev refused_twice : ℕ → ℕ → Outcome
refused_twice status i = if ltb i 2 then failed (record { status = some status }) else accepted

abbrev not_found : ℕ → Outcome
not_found i = failed (record { status = some 404 })

clients_recover_example :
    (axios_retry.run scrt_policy 0 (refused_twice 429)
      ≡ record { waits = take 2 (5000 ∷ 10000 ∷ 20000 ∷ []); ending = succeeded })
    × (axios_retry.run multi_policy 0 (refused_twice 503)
        ≡ record { waits = take 2 (1000 ∷ 2000 ∷ 3000 ∷ []); ending = succeeded })
    × (axios_retry.run scrt_policy 0 not_found ≡ ended (rejected (record { status = some 404 })))
    × (axios_retry.run multi_policy 0 not_found ≡ ended (rejected (record { status = some 404 })))
    × ((q : ℕ → Outcome)
        → AtMost 3 35000 (axios_retry.run scrt_policy 0 q).waits
          × AtMost 3 6000 (axios_retry.run multi_policy 0 q).waits)
clients_recover_example =
    clients_recover axios_retry (refused_twice 429) (refused_twice 503) not_found 2 503 404
      (omega arith) refl (λ i. refl) (λ i. refl) refl refl

-- Without a response the client of multiorgPostCallAnalysisTrigger loses the error.
no_response_test :
    axios_retry.run multi_policy 0 (λ i. failed (record { status = none }))
    ≡ ended (crashed "TypeError")
unfolding multi_policy axios_retry
no_response_test = refl
