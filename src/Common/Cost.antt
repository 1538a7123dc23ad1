-- ===== src/Common/Cost.antt =====
-- How much the calls of a computation weigh: the rules for bounding them, one for each way to
-- build a computation.
use mathlib.Core.Path.{◌≡◌}
use service_cloud_voice_lamb.Common.{
  ℕ, ◌+◌, ◌≤◌, ◌≡◌, refl, All, List, [], ◌∷◌, ◌++◌, arith, Bool, true, false, if◌then◌else◌,
}
use service_cloud_voice_lamb.Common.Effect.{
  Attempt, ok, throw, Action, pure, raise, lift, call, continue, handle, ◌>>=◌,
}
use service_cloud_voice_lamb.Common.Trace.{Extends, Only}

-- The weight of a trace.
abbrev pub total {ℓ} : {C : Type ℓ} → (C → ℕ) → List C → ℕ
total w [] = 0
total w (c ∷ t) = w c + total w t

pub total-append {ℓ} :
    {C : Type ℓ} (w : C → ℕ) (t u : List C) → total w (t ++ u) ≡ total w t + total w u
total-append w [] u = omega arith
total-append w (c ∷ t) u = omega (arith, total-append w t u)

-- Whatever the services answer, the calls of `m` weigh at most `n`.
pub record Costs {ℓ} {E : Type 0} {C A : Type ℓ} (w : C → ℕ) (n : ℕ) (m : Action E C A)
    : Type ℓ where
  pub at : (t : List C) → total w (m t).1 ≤ total w t + n

module _ {ℓ} {E : Type 0} {C A : Type ℓ} {w : C → ℕ} where
  pub Costs-pure : (a : A) → Costs w 0 (pure {E = E} {C = C} a)
  unfolding pure
  Costs-pure a = record { at = λ t. omega arith }

  pub Costs-raise : (e : E) → Costs w 0 (raise {C = C} {A = A} e)
  unfolding raise
  Costs-raise e = record { at = λ t. omega arith }

  pub Costs-call : (c : C) (answer : List C → Attempt E A) → Costs w (w c) (call c answer)
  unfolding call
  Costs-call c answer = record { at = λ t. omega (arith, total-append w t (c ∷ [])) }

  pub Costs-free : (c : C) (answer : List C → Attempt E A) → w c ≡ 0 → Costs w 0 (call c answer)
  unfolding call
  Costs-free c answer p = record { at = λ t. omega (arith, total-append w t (c ∷ [])) }

  pub Costs-if :
      (n : ℕ) (b : Bool) (m m' : Action E C A)
      → Costs w n m
      → Costs w n m'
      → Costs w n (if b then m else m')
  Costs-if n true m m' p q = p
  Costs-if n false m m' p q = q

  pub Costs-weaken : {k n : ℕ} {m : Action E C A} → k ≤ n → Costs w k m → Costs w n m
  Costs-weaken h c = record { at = λ t. omega (arith, c.at t) }

module _ {ℓ} {E : Type 0} {C A B : Type ℓ} {w : C → ℕ} where
  continue-cost :
      {n : ℕ} (r : Attempt E A) (f : A → Action E C B)
      → ((a : A) → Costs w n (f a))
      → (t : List C) → total w (continue r f t).1 ≤ total w t + n
  continue-cost (ok a) f k t = (k a).at t
  continue-cost (throw e) f k t = omega arith

  pub Costs-bind :
      (k j : ℕ) {n : ℕ} (m : Action E C A) (f : A → Action E C B)
      → k + j ≤ n
      → Costs w k m
      → ((a : A) → Costs w j (f a))
      → Costs w n (m >>= f)
  unfolding ◌>>=◌
  Costs-bind k j m f h cm cf = record {
    at = λ t. omega (arith, cm.at t, continue-cost (m t).0 f cf (m t).1);
  }

  pub Costs-bind_left :
      {n : ℕ} (m : Action E C A) (f : A → Action E C B)
      → Costs w n m
      → ((a : A) → Costs w 0 (f a))
      → Costs w n (m >>= f)
  Costs-bind_left {n} m f cm cf = Costs-bind n 0 m f (omega arith) cm cf

  pub Costs-bind_right :
      {n : ℕ} (m : Action E C A) (f : A → Action E C B)
      → Costs w 0 m
      → ((a : A) → Costs w n (f a))
      → Costs w n (m >>= f)
  Costs-bind_right {n} m f cm cf = Costs-bind 0 n m f (omega arith) cm cf

module _ {ℓ} {E : Type 0} {C A : Type ℓ} {w : C → ℕ} where
  recover-cost :
      {n : ℕ} (r : Attempt E A) (f : E → Action E C A) (t : List C)
      → ((e : E) → Costs w n (f e))
      → total w (handle (lift r) f t).1 ≤ total w t + n
  unfolding handle lift
  recover-cost (ok a) f t k = omega arith
  recover-cost (throw e) f t k = (k e).at t

  pub Costs-handle :
      (k j : ℕ) {n : ℕ} (m : Action E C A) (f : E → Action E C A)
      → k + j ≤ n
      → Costs w k m
      → ((e : E) → Costs w j (f e))
      → Costs w n (handle m f)
  unfolding handle lift
  Costs-handle k j m f h cm cf = record {
    at = λ t. omega (arith, cm.at t, recover-cost (m t).0 f (m t).1 cf);
  }

  pub Costs-handle_left :
      {n : ℕ} (m : Action E C A) (f : E → Action E C A)
      → Costs w n m
      → ((e : E) → Costs w 0 (f e))
      → Costs w n (handle m f)
  Costs-handle_left {n} m f cm cf = Costs-handle n 0 m f (omega arith) cm cf

-- Calls that weigh nothing cost nothing.
total-free : {C : Type 0} (w : C → ℕ) (t : List C) → All (λ c. w c ≡ 0) t → total w t ≡ 0
total-free w [] h = refl
total-free w (c ∷ t) (p, h) = omega (arith, total-free w t h)

module _ {E C A : Type 0} {w : C → ℕ} where
  pub Costs-Only : (m : Action E C A) → Only (λ c. w c ≡ 0) m → Costs w 0 m
  Costs-Only m o = record { at = λ t. free t (m t).1 (o.at t) }
    where
      free : (t u : List C) → Extends (λ c. w c ≡ 0) t u → total w u ≤ total w t + 0
      free t u (rest, p, h) = rw p (omega (arith, total-append w t rest, total-free w rest h))

pub ruleset cost_rules = (
  Costs-pure, Costs-raise, Costs-call, Costs-free, Costs-if, Costs-bind_left, Costs-bind_right,
  Costs-handle_left,
)
