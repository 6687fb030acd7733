-- ===== src/Base/Results.antt =====
-- Results of calls that may fail.
use mathlib.Core.Path.{◌≡◌, refl}
use mathlib.Core.Bool.{Bool, true, false}
use etcs.Base.Tests.{if◌then◌else◌}

pub data Result {ℓ κ} (E : Type ℓ) (A : Type κ) : Type (ℓ ⊔ κ) where
  ok : A → Result E A
  err : E → Result E A

module _ {ℓ κ μ} {E : Type ℓ} {A : Type κ} {B : Type μ} where
  abbrev pub bind : Result E A → (A → Result E B) → Result E B
  bind (ok a) f = f a
  bind (err e) f = err e

  abbrev pub map_err : (E → B) → Result E A → Result B A
  map_err f (ok a) = ok a
  map_err f (err e) = err (f e)

module _ {ℓ κ} {E : Type ℓ} {A : Type κ} where
  -- What holds of the value where there is one.
  abbrev pub Ensures : (A → Type 0) → Result E A → Type 0
  Ensures P (ok a) = P a
  Ensures P (err e) = Unit

  pub Ensures-if :
      (P : A → Type 0) (b : Bool) (x y : Result E A)
      → (b ≡ true → Ensures P x)
      → (b ≡ false → Ensures P y)
      → Ensures P (if b then x else y)
  Ensures-if P true x y f g = f refl
  Ensures-if P false x y f g = g refl

module _ {ℓ κ μ} {E : Type ℓ} {A : Type κ} {B : Type μ} where
  pub Ensures-bind :
      (P : A → Type 0) (Q : B → Type 0) (r : Result E A) (f : A → Result E B)
      → Ensures P r
      → ((a : A) → P a → Ensures Q (f a))
      → Ensures Q (bind r f)
  Ensures-bind P Q (ok a) f h k = k a h
  Ensures-bind P Q (err e) f h k = tt

  pub Ensures-map_err :
      (P : A → Type 0) (f : E → B) (r : Result E A) → Ensures P r → Ensures P (map_err f r)
  Ensures-map_err P f (ok a) h = h
  Ensures-map_err P f (err e) h = tt
