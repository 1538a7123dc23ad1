-- ===== src/Common/Returns.antt =====
-- What holds of the result of a computation that does not throw: the rules, one for each way to
-- build a computation.
use service_cloud_voice_lamb.Common.{◌≡◌, refl, Bool, true, false, List, if◌then◌else◌}
use service_cloud_voice_lamb.Common.Effect.{
  Attempt, ok, throw, Action, pure, raise, lift, handle, continue, ◌>>=◌,
}

-- Whatever the services answer, a value that `m` returns satisfies `Q`.
pub record Returns {ℓ} {E : Type 0} {C A : Type ℓ} (Q : A → Type ℓ) (m : Action E C A)
    : Type ℓ where
  pub at : (t : List C) (a : A) → (m t).0 ≡ ok a → Q a

module _ {ℓ} {E : Type 0} {A : Type ℓ} where
  ok_path : (Q : A → Type ℓ) {a b : A} → Q a → ◌≡◌ {A = Attempt E A} (ok a) (ok b) → Q b
  ok_path Q {a} {b} q e = let p : a ≡ b = cc in rw p at q

  throw-ne-ok : (x : E) (a : A) → ◌≡◌ {A = Attempt E A} (throw x) (ok a) → ⊥
  throw-ne-ok x a p = cc

module _ {ℓ} {E : Type 0} {C A : Type ℓ} where
  pub Returns-pure : {Q : A → Type ℓ} (a : A) → Q a → Returns Q (pure {E = E} {C = C} a)
  unfolding pure
  Returns-pure {Q} a q = record { at = λ t b e. ok_path Q q e }

  pub Returns-raise : {Q : A → Type ℓ} (e : E) → Returns Q (raise {E = E} {C = C} e)
  unfolding raise
  Returns-raise {Q} e = record { at = λ t b p. absurd (throw-ne-ok e b p) }

  pub Returns-any : {Q : A → Type ℓ} (m : Action E C A) → ((a : A) → Q a) → Returns Q m
  Returns-any m q = record { at = λ t a e. q a }

  pub Returns-weaken :
      {Q R : A → Type ℓ} (m : Action E C A) → ((a : A) → Q a → R a) → Returns Q m → Returns R m
  Returns-weaken m f r = record { at = λ t a e. f a (r.at t a e) }

  pub Returns-if :
      {Q : A → Type ℓ} (b : Bool) (m n : Action E C A)
      → (b ≡ true → Returns Q m)
      → (b ≡ false → Returns Q n)
      → Returns Q (if b then m else n)
  Returns-if true m n p q = p refl
  Returns-if false m n p q = q refl

module _ {ℓ} {E : Type 0} {C A B : Type ℓ} where
  continue-Returns :
      {R : B → Type ℓ} (r : Attempt E A) (f : A → Action E C B)
      → ((a : A) → r ≡ ok a → Returns R (f a))
      → (t : List C) (b : B) → (continue r f t).0 ≡ ok b
      → R b
  continue-Returns (ok a) f k t b e = (k a refl).at t b e
  continue-Returns (throw x) f k t b e = absurd (throw-ne-ok x b e)

  pub Returns-bind :
      (Q : A → Type ℓ) {R : B → Type ℓ} (m : Action E C A) (f : A → Action E C B)
      → Returns Q m
      → ((a : A) → Q a → Returns R (f a))
      → Returns R (m >>= f)
  unfolding ◌>>=◌
  Returns-bind Q m f rm rf = record {
    at = λ t b e. continue-Returns (m t).0 f (λ a p. rf a (rm.at t a p)) (m t).1 b e;
  }

module _ {ℓ} {E : Type 0} {C A : Type ℓ} where
  recover-Returns :
      {Q : A → Type ℓ} (r : Attempt E A) (f : E → Action E C A)
      → ((a : A) → r ≡ ok a → Q a)
      → ((e : E) → Returns Q (f e))
      → (t : List C) (a : A) → (handle (lift r) f t).0 ≡ ok a
      → Q a
  unfolding handle lift
  recover-Returns {Q} (ok b) f h k t a p = ok_path Q (h b refl) p
  recover-Returns (throw e) f h k t a p = (k e).at t a p

  pub Returns-handle :
      {Q : A → Type ℓ} (m : Action E C A) (f : E → Action E C A)
      → Returns Q m
      → ((e : E) → Returns Q (f e))
      → Returns Q (handle m f)
  unfolding handle lift
  Returns-handle m f rm rf = record {
    at = λ t a p. recover-Returns (m t).0 f (λ b q. rm.at t b q) rf (m t).1 a p;
  }

  recover-ok :
      (r : Attempt E A) (x : A) (t : List C)
      → (b : A) × ((handle (lift r) (λ e. pure x) t).0 ≡ ok b)
  unfolding handle lift pure
  recover-ok (ok b) x t = (b, refl)
  recover-ok (throw e) x t = (x, refl)

  -- A computation whose errors are all answered does not throw.
  pub handle-ok :
      (m : Action E C A) (x : A) (t : List C) → (b : A) × ((handle m (λ e. pure x) t).0 ≡ ok b)
  unfolding handle lift pure
  handle-ok m x t = recover-ok (m t).0 x (m t).1
