-- ===== src/Common/Effect.antt =====
-- Code that awaits services and may throw. The state is the trace of the calls made so far, the
-- oldest first; a service is a function from the trace to its answer, so that it may answer the
-- same request differently at each time. What was called before a throw stays in the trace.
use Prim.Native.String.{String}
use mathlib.Core.Path.{◌≡◌, refl}
use mathlib.Core.Logic.{◌⊎◌, inl, inr}
use mathlib.Core.List.{List, [], ◌∷◌, ◌++◌}

-- What a computation gives: a value, or an error of the type `E`.
pub data Attempt {ℓ} (E : Type 0) (A : Type ℓ) : Type ℓ where
  ok : A → Attempt E A
  throw : E → Attempt E A

abbrev pub Action {ℓ} : Type 0 → Type ℓ → Type ℓ → Type ℓ
Action E C A = List C → Attempt E A × List C

-- Where only the text of an error matters.
abbrev pub Result {ℓ} : Type ℓ → Type ℓ
Result = Attempt String

abbrev pub Exec {ℓ} : Type ℓ → Type ℓ → Type ℓ
Exec = Action String

-- What follows a result, outside of any call.
abbrev pub then_ok {ℓ} : {E : Type 0} {A B : Type ℓ} → Attempt E A → (A → Attempt E B) → Attempt E B
then_ok (ok a) f = f a
then_ok (throw e) f = throw e

-- These are shut: proofs use the rules of `Cost` and `Trace`, or open `◌>>=◌` and with it all.
module _ {ℓ} {E : Type 0} {C A : Type ℓ} where
  unfoldable pub pure : A → Action E C A
  pure a t = (ok a, t)

  unfoldable pub raise : E → Action E C A
  raise e t = (throw e, t)

  -- The result of a computation that calls no service.
  unfoldable pub lift : Attempt E A → Action E C A
  lift r t = (r, t)

  -- What is read without a call that matters, as the clock is.
  unfoldable pub ask : (List C → A) → Action E C A
  ask f t = (ok (f t), t)

  -- One call of a service.
  unfoldable pub call : C → (List C → Attempt E A) → Action E C A
  call c answer t = (answer t, t ++ c ∷ [])

  -- A promise that is not awaited on the spot: it runs, and its outcome is kept as a value.
  unfoldable pub settle : Action E C A → Action E C (Attempt E A)
  settle m t = (ok (m t).0, (m t).1)

  abbrev recover : Attempt E A → (E → Action E C A) → Action E C A
  recover (ok a) f t = (ok a, t)
  recover (throw e) f t = f e t

  -- `try { m } catch (e) { f(e) }`
  unfoldable pub handle : Action E C A → (E → Action E C A) → Action E C A
  handle m f t = recover (m t).0 f (m t).1

module _ {ℓ} {E : Type 0} {C A B : Type ℓ} where
  abbrev pub continue : Attempt E A → (A → Action E C B) → Action E C B
  continue (ok a) f t = f a t
  continue (throw e) f t = (throw e, t)

  infixl 10 ◌>>=◌ ◌>>◌
  unfoldable pub ◌>>=◌ : Action E C A → (A → Action E C B) → Action E C B
  unfolding pure raise lift ask call handle settle
  ◌>>=◌ m f t = continue (m t).0 f (m t).1

  abbrev pub ◌>>◌ : Action E C A → Action E C B → Action E C B
  m >> n = m >>= λ _. n

pub Result-cases {ℓ} :
    {E : Type 0} {A : Type ℓ} (r : Attempt E A) → ((a : A) × (r ≡ ok a)) ⊎ ((e : E) × (r ≡ throw e))
Result-cases (ok a) = inl (a, refl)
Result-cases (throw e) = inr (e, refl)

module _ {ℓ} {E : Type 0} {A : Type ℓ} where
  abbrev both : Attempt E A → Attempt E (List A) → Attempt E (List A)
  both (ok a) (ok rest) = ok (a ∷ rest)
  both (ok a) (throw e) = throw e
  both (throw e) rest = throw e

  -- `await Promise.all(promises)` over promises that have settled: the first rejection in the
  -- list, or all the values.
  abbrev pub all_settled : List (Attempt E A) → Attempt E (List A)
  all_settled [] = ok []
  all_settled (r ∷ rs) = both r (all_settled rs)

module _ {ℓ} {E : Type 0} {C A B : Type ℓ} where
  continue-result :
      (r : Attempt E A) (f g : A → Action E C B)
      → ((a : A) (t : List C) → (f a t).0 ≡ (g a t).0)
      → (t : List C) → (continue r f t).0 ≡ (continue r g t).0
  continue-result (ok a) f g h t = h a t
  continue-result (throw e) f g h t = refl

  -- The result depends on what follows only through its results.
  pub bind-result :
      (m : Action E C A) (f g : A → Action E C B)
      → ((a : A) (t : List C) → (f a t).0 ≡ (g a t).0)
      → (t : List C) → ((m >>= f) t).0 ≡ ((m >>= g) t).0
  unfolding ◌>>=◌
  bind-result m f g h t = continue-result (m t).0 f g h (m t).1

  recover-pure :
      (r : Attempt E A) (a : A) (b : B) (t : List C)
      → ((handle (lift r) (λ _. pure a) >>= λ _. pure b) t).0 ≡ ok b
  unfolding ◌>>=◌
  recover-pure (ok x) a b t = refl
  recover-pure (throw e) a b t = refl

  -- A computation whose errors are caught does not change the result that follows it.
  pub swallow-result :
      (m : Action E C A) (a : A) (b : B) (t : List C)
      → ((handle m (λ _. pure a) >>= λ _. pure b) t).0 ≡ ok b
  unfolding ◌>>=◌
  swallow-result m a b t = recover-pure (m t).0 a b (m t).1

  -- What follows a value.
  pub bind-ok :
      (m : Action E C A) (f : A → Action E C B) (a : A) (t : List C)
      → (m t).0 ≡ ok a
      → (m >>= f) t ≡ f a (m t).1
  unfolding ◌>>=◌
  bind-ok m f a t e = rw e refl
