-- ===== src/Base/Results.antt =====
-- A Go function's `(value, error)` result: the value, or the error.
use mathlib.Core.Path.{◌≡◌, refl}

pub data Outcome {ℓ κ} (E : Type ℓ) (A : Type κ) : Type (ℓ ⊔ κ) where
  ok : A → Outcome E A
  err : E → Outcome E A

module _ {ℓ κ} {E : Type ℓ} {A : Type κ} where
  pub ok-injective : {a b : A} → ◌≡◌ {A = Outcome E A} (ok a) (ok b) → a ≡ b
  ok-injective same = cc

  -- The result with its error wrapped.
  abbrev pub wrap {μ} : {F : Type μ} → (E → F) → Outcome E A → Outcome F A
  wrap note (err cause) = err (note cause)
  wrap note (ok value) = ok value

  pub wrap-eq-ok {μ} :
      {F : Type μ} (note : E → F) (r : Outcome E A) {a : A} → wrap note r ≡ ok a → r ≡ ok a
  wrap-eq-ok note (err cause) same = cc
  wrap-eq-ok note (ok value) same = cc

  infixl 5 ◌>>=◌
  abbrev pub ◌>>=◌ {μ} : {B : Type μ} → Outcome E A → (A → Outcome E B) → Outcome E B
  (err cause) >>= next = err cause
  (ok value) >>= next = next value

  -- A chain that returns has had a value to go on with.
  pub >>=-eq-ok {μ} :
      {B : Type μ} (r : Outcome E A) (next : A → Outcome E B) {b : B}
      → (r >>= next) ≡ ok b
      → (a : A) × (r ≡ ok a) × (next a ≡ ok b)
  >>=-eq-ok (err cause) next same = cc
  >>=-eq-ok (ok value) next same = (value, refl, same)
