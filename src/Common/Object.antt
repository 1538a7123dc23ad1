-- ===== src/Common/Object.antt =====
-- A JavaScript object with text keys, as the list of its own properties in the order of insertion.
use Prim.Native.String.{String}
use mathlib.Core.Path.{◌≡◌, refl}
use mathlib.Core.Option.{Option, none, some}
use mathlib.Core.List.{List, [], ◌∷◌}
use Prim.Native.Nat.{suc}
use service_cloud_voice_lamb.Common.Lists.{count}
use native.Mathlib.Omega.{arith}
use text.Mathlib.Text.{◌==◌}
use text.Mathlib.TextEquality.{eq_iff}
use service_cloud_voice_lamb.Common.Tests.{is_some, if◌then◌else◌}

abbrev pub Object {ℓ} : Type ℓ → Type ℓ
Object V = List (String × V)

abbrev pub keys {ℓ} : {V : Type ℓ} → Object V → List String
keys [] = []
keys ((k, v) ∷ o) = k ∷ keys o

module _ {ℓ} {V : Type ℓ} where
  -- o[k]
  abbrev pub get : String → Object V → Option V
  get k [] = none
  get k ((j, v) ∷ o) = if j == k then some v else get k o

  -- o[k] = v
  abbrev pub put : String → V → Object V → Object V
  put k v [] = (k, v) ∷ []
  put k v ((j, w) ∷ o) = if j == k then (j, v) ∷ o else (j, w) ∷ put k v o

  pub get-put :
      (k j : String) (v : V) (o : Object V)
      → get j (put k v o) ≡ (if k == j then some v else get j o)
  get-put k j v [] = refl
  get-put k j v ((i, w) ∷ o) = ground (arith, eq_iff k j, eq_iff i k, eq_iff i j, get-put k j v o)

  -- A property of a JSON text, which is left out where it is `undefined`.
  abbrev pub optional_field : String → Option V → Object V
  optional_field key none = []
  optional_field key (some v) = (key, v) ∷ []

  -- Each key stands once.
  abbrev pub IsUnique : Object V → Type 0
  IsUnique o = (k : String) → count k (keys o) ≡ (if is_some (get k o) then 1 else 0)

  pub count-keys-put :
      (k j : String) (v : V) (o : Object V)
      → count j (keys (put k v o)) ≡ (
          if is_some (get k o)
          then count j (keys o)
          else if k == j
          then suc (count j (keys o))
          else count j (keys o))
  count-keys-put k j v [] = ground arith
  count-keys-put k j v ((i, w) ∷ o) =
      ground (arith, eq_iff k j, eq_iff i k, eq_iff i j, count-keys-put k j v o)

  pub put-IsUnique : (k : String) (v : V) (o : Object V) → IsUnique o → IsUnique (put k v o)
  put-IsUnique k v o h j = ground (arith, eq_iff k j, count-keys-put k j v o, get-put k j v o, h j)
