-- ===== src/Http/Retry.antt =====
-- The library axios-retry, as its documentation describes it, and a concrete one.
use service_cloud_voice_lamb.Common.{◌≡◌, ℕ, suc, ◌≤◌, ◌<◌, String, true, false, List, [], ◌∷◌}
use service_cloud_voice_lamb.Common.Effect.{ok, throw}
use service_cloud_voice_lamb.Http.{Failure, Policy}

-- How one attempt at a request ends.
pub data Outcome : Type 0 where
  accepted : Outcome
  failed : Failure → Outcome

-- How a request ends: with the first answer that is no failure, with the last failure, or with an
-- error of the condition.
pub data Ending : Type 0 where
  succeeded : Ending
  rejected : Failure → Ending
  crashed : String → Ending

-- The waits between the attempts at a request, and its end.
pub record Run : Type 0 where
  pub waits : List ℕ
  pub ending : Ending

abbrev pub ended : Ending → Run
ended e = record { waits = []; ending = e }

abbrev pub waited : ℕ → Run → Run
waited d r = record { waits = d ∷ r.waits; ending = r.ending }

-- The library: `run p n attempts` is what follows `n` retries, where `attempts i` is how the request
-- ends when it is sent for the i-th time, counted from 0.
pub record AxiosRetry : Type 0 where
  pub run : Policy → ℕ → (ℕ → Outcome) → Run
  pub accepts :
      (p : Policy) (n : ℕ) (o : ℕ → Outcome) → o n ≡ accepted → run p n o ≡ ended succeeded
  pub gives_up :
      (p : Policy) (n : ℕ) (o : ℕ → Outcome) (f : Failure)
      → o n ≡ failed f
      → p.retries ≤ n
      → run p n o ≡ ended (rejected f)
  pub refuses :
      (p : Policy) (n : ℕ) (o : ℕ → Outcome) (f : Failure)
      → o n ≡ failed f
      → n < p.retries
      → p.retry_condition f ≡ ok false
      → run p n o ≡ ended (rejected f)
  pub crashes :
      (p : Policy) (n : ℕ) (o : ℕ → Outcome) (f : Failure) (e : String)
      → o n ≡ failed f
      → n < p.retries
      → p.retry_condition f ≡ throw e
      → run p n o ≡ ended (crashed e)
  pub retries :
      (p : Policy) (n : ℕ) (o : ℕ → Outcome) (f : Failure)
      → o n ≡ failed f
      → n < p.retries
      → p.retry_condition f ≡ ok true
      → run p n o ≡ waited (p.retry_delay (suc n)) (run p (suc n) o)
