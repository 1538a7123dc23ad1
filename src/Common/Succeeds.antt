-- ===== src/Common/Succeeds.antt =====
-- Computations that never throw: the rules, one for each way to build a computation.
use service_cloud_voice_lamb.Common.{◌≡◌, refl, Bool, true, false, List, if◌then◌else◌}
use service_cloud_voice_lamb.Common.Effect.{ok, Action, pure, handle, ◌>>=◌}
use service_cloud_voice_lamb.Common.Returns.{handle-ok}

-- Whatever the services answer, `m` returns a value.
pub record Succeeds {ℓ} {E : Type 0} {C A : Type ℓ} (m : Action E C A) : Type ℓ where
  pub at : (t : List C) → (a : A) × ((m t).0 ≡ ok a)

module _ {ℓ} {E : Type 0} {C A : Type ℓ} where
  pub Succeeds-pure : (a : A) → Succeeds (pure {E = E} {C = C} a)
  unfolding pure
  Succeeds-pure a = record { at = λ t. (a, refl) }

  pub Succeeds-if :
      (b : Bool) (m n : Action E C A) → Succeeds m → Succeeds n → Succeeds (if b then m else n)
  Succeeds-if true m n p q = p
  Succeeds-if false m n p q = q

  -- Every error is answered by a value.
  pub Succeeds-handle : (m : Action E C A) (x : A) → Succeeds (handle m (λ e. pure x))
  Succeeds-handle m x = record { at = λ t. handle-ok m x t }

module _ {ℓ} {E : Type 0} {C A B : Type ℓ} where
  pub Succeeds-bind :
      (m : Action E C A) (f : A → Action E C B)
      → Succeeds m
      → ((a : A) → Succeeds (f a))
      → Succeeds (m >>= f)
  unfolding ◌>>=◌
  Succeeds-bind m f s k = record { at = λ t. let (a, p) = s.at t in rw p ((k a).at (m t).1) }

pub ruleset succeed_rules = (Succeeds-pure, Succeeds-if, Succeeds-handle, Succeeds-bind)
