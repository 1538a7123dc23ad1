-- ===== src/Common/Trace.antt =====
-- Which calls a computation adds to the trace: the rules for a predicate on them, one for each way
-- to build a computation.
use service_cloud_voice_lamb.Common.{
  ◌≡◌, refl, sym, ap, ◌∙◌, Bool, true, false, List, [], ◌∷◌, ◌++◌, append-nil, append_assoc, All,
  All-append, if◌then◌else◌,
}
use service_cloud_voice_lamb.Common.Effect.{
  Attempt, ok, throw, Action, pure, raise, lift, ask, call, continue, handle, settle, ◌>>=◌,
}
use service_cloud_voice_lamb.Common.Returns.{Returns}

-- The trace `u` is `t` with calls behind it that satisfy `P`.
abbrev pub Extends {ℓ} : {C : Type ℓ} → (C → Type ℓ) → List C → List C → Type ℓ
Extends {C} P t u = (rest : List C) × (u ≡ t ++ rest) × All P rest

pub Extends-trans {ℓ} :
    {C : Type ℓ} (P : C → Type ℓ) (t u v : List C) → Extends P t u → Extends P u v → Extends P t v
Extends-trans P t u v (r, p, h) (s, q, k) =
    (r ++ s, q ∙ ap (λ l. l ++ s) p ∙ append_assoc t r s, All-append P r s h k)

-- Whatever the services answer, `m` only adds calls that satisfy `P`.
pub record Only {ℓ} {E : Type 0} {C A : Type ℓ} (P : C → Type ℓ) (m : Action E C A) : Type ℓ where
  pub at : (t : List C) → Extends P t (m t).1

module _ {ℓ} {E : Type 0} {C A : Type ℓ} {P : C → Type ℓ} where
  pub Only-pure : (a : A) → Only P (pure {E = E} {C = C} a)
  unfolding pure
  Only-pure a = record { at = λ t. ([], sym (append-nil t), tt) }

  pub Only-raise : (e : E) → Only P (raise {C = C} {A = A} e)
  unfolding raise
  Only-raise e = record { at = λ t. ([], sym (append-nil t), tt) }

  pub Only-lift : (r : Attempt E A) → Only P (lift {C = C} r)
  unfolding lift
  Only-lift r = record { at = λ t. ([], sym (append-nil t), tt) }

  pub Only-call : (c : C) (answer : List C → Attempt E A) → P c → Only P (call c answer)
  unfolding call
  Only-call c answer p = record { at = λ t. (c ∷ [], refl, (p, tt)) }

  pub Only-ask : (f : List C → A) → Only P (ask {E = E} f)
  unfolding ask
  Only-ask f = record { at = λ t. ([], sym (append-nil t), tt) }

  pub Only-if :
      (b : Bool) (m n : Action E C A)
      → (b ≡ true → Only P m)
      → (b ≡ false → Only P n)
      → Only P (if b then m else n)
  Only-if true m n p q = p refl
  Only-if false m n p q = q refl

module _ {ℓ} {E : Type 0} {C A B : Type ℓ} {P : C → Type ℓ} where
  continue-Only :
      (r : Attempt E A) (f : A → Action E C B)
      → ((a : A) → r ≡ ok a → Only P (f a))
      → (t : List C) → Extends P t (continue r f t).1
  continue-Only (ok a) f k t = (k a refl).at t
  continue-Only (throw e) f k t = ([], sym (append-nil t), tt)

  pub Only-bind :
      (m : Action E C A) (f : A → Action E C B)
      → Only P m
      → ((a : A) → Only P (f a))
      → Only P (m >>= f)
  unfolding ◌>>=◌
  Only-bind m f pm pf = record {
    at = λ t. Extends-trans P t (m t).1 _ (pm.at t) (continue-Only (m t).0 f (λ a _. pf a) (m t).1);
  }

  -- What follows may use what is known of the result.
  pub Only-bind-Returns :
      (Q : A → Type ℓ) (m : Action E C A) (f : A → Action E C B)
      → Only P m
      → Returns Q m
      → ((a : A) → Q a → Only P (f a))
      → Only P (m >>= f)
  unfolding ◌>>=◌
  Only-bind-Returns Q m f pm rm pf = record {
    at = λ t.
        Extends-trans P t (m t).1 _ (pm.at t)
          (continue-Only (m t).0 f (λ a e. pf a (rm.at t a e)) (m t).1);
  }

  -- What follows a call may use that its argument is an answer of the service.
  pub Only-bind-call :
      (c : C) (answer : List C → Attempt E A) (f : A → Action E C B)
      → P c
      → ((t : List C) (a : A) → answer t ≡ ok a → Only P (f a))
      → Only P (call c answer >>= f)
  unfolding ◌>>=◌
  Only-bind-call c answer f p pf = record {
    at = λ t.
        Extends-trans P t (t ++ c ∷ []) _ (c ∷ [], refl, (p, tt))
          (continue-Only (answer t) f (pf t) (t ++ c ∷ []));
  }

  -- A trace that starts with known calls: what follows a call whose answer is known.
  pub after-call :
      (c : C) (answer : List C → Attempt E A) (f : A → Action E C B) (t u : List C) (a : A)
      → answer t ≡ ok a
      → Extends P u (f a (t ++ c ∷ [])).1
      → Extends P u ((call c answer >>= f) t).1
  unfolding ◌>>=◌
  after-call c answer f t u a e h = rw e h

  pub after-pure :
      (a : A) (f : A → Action E C B) (t u : List C)
      → Extends P u (f a t).1
      → Extends P u ((pure a >>= f) t).1
  unfolding ◌>>=◌
  after-pure a f t u h = h

  -- The last of the known calls, whatever it answers.
  pub at-call :
      (c : C) (answer : List C → Attempt E A) (f : A → Action E C B) (t : List C)
      → ((a : A) → Only P (f a))
      → Extends P (t ++ c ∷ []) ((call c answer >>= f) t).1
  unfolding ◌>>=◌
  at-call c answer f t h = continue-Only (answer t) f (λ a e. h a) (t ++ c ∷ [])

module _ {ℓ} {E : Type 0} {C A : Type ℓ} {P : C → Type ℓ} where
  recover-Only :
      (r : Attempt E A) (f : E → Action E C A) (t : List C)
      → ((e : E) → Only P (f e))
      → Extends P t (handle (lift r) f t).1
  unfolding handle lift
  recover-Only (ok a) f t k = ([], sym (append-nil t), tt)
  recover-Only (throw e) f t k = (k e).at t

  pub Only-handle :
      (m : Action E C A) (f : E → Action E C A)
      → Only P m
      → ((e : E) → Only P (f e))
      → Only P (handle m f)
  unfolding handle lift
  Only-handle m f pm pf = record {
    at = λ t. Extends-trans P t (m t).1 _ (pm.at t) (recover-Only (m t).0 f (m t).1 pf);
  }

module _ {ℓ} {E : Type 0} {C A : Type ℓ} {P : C → Type ℓ} where
  pub Only-settle : (m : Action E C A) → Only P m → Only P (settle m)
  unfolding settle
  Only-settle m h = record { at = λ t. h.at t }

pub ruleset only_rules =
    (Only-pure, Only-raise, Only-lift, Only-ask, Only-call, Only-if, Only-bind, Only-handle)
