-- ===== src/Http.antt =====
-- axiosWrapper.js of contactLensProcessor, postCallAnalysisTrigger and multiorgPostCallAnalysisTrigger:
-- when their HTTP clients send a failed request again. Delays are in milliseconds.
pub mod Retry
pub mod Bounds
pub mod Examples
use service_cloud_voice_lamb.Common.{
  ℕ, zero, suc, ◌*◌, Bool, false, ◌||◌, Option, none, some, List, [], ◌∷◌, get_elem?, eqb, leb,
}
use service_cloud_voice_lamb.Common.Effect.{Result, ok, throw}

-- A failed request, with the status of its response, if it has one.
pub record Failure : Type 0 where
  pub status : Option ℕ

-- The options that axios-retry gets: how often it may send a request again, how long it waits before
-- the n-th time, counted from 1, and which failures it is for.
pub record Policy : Type 0 where
  pub retries : ℕ
  pub retry_delay : ℕ → ℕ
  pub retry_condition : Failure → Result Bool

unfoldable pub retry_delays : List ℕ
retry_delays = 5000 ∷ 10000 ∷ 20000 ∷ []

abbrev or_last : Option ℕ → ℕ
or_last none = 20000
or_last (some d) = d

-- `retryDelays[retryCount - 1] || retryDelays[retryDelays.length - 1]`
unfoldable pub delay_of : ℕ → ℕ
unfolding retry_delays
delay_of zero = or_last none
delay_of (suc n) = or_last (get_elem? retry_delays n)

abbrev has_status : Option ℕ → ℕ → Bool
has_status none s = false
has_status (some t) s = eqb t s

-- The client of contactLensProcessor, and that of postCallAnalysisTrigger.
unfoldable pub scrt_policy : Policy
unfolding delay_of
scrt_policy = record {
  retries = 3;
  retry_delay = delay_of;
  retry_condition = λ error. ok (has_status error.status 429);
}

-- `error.response.status` of multiorgPostCallAnalysisTrigger, which needs a response.
unfoldable pub multi_condition : Option ℕ → Result Bool
multi_condition none = throw "TypeError"
multi_condition (some s) = ok (eqb s 429 || leb 500 s)

unfoldable pub multi_policy : Policy
unfolding multi_condition
multi_policy = record {
  retries = 3;
  retry_delay = λ n. n * 1000;
  retry_condition = λ error. multi_condition error.status;
}
