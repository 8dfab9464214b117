-- ===== src/Base/Equality.antt =====
-- Go's `==` on the types that the program compares, and the conditional.
use Prim.Native.Nat.{ℕ}
use mathlib.Core.Path.{◌≡◌, refl}
use mathlib.Core.Logic.{ite, ◌≢◌, ◌⊎◌, inl, inr}
use mathlib.Core.Bool.{Bool, true, false, cond, ◌||◌}
use mathlib.Core.List.{List, [], ◌∷◌}
use native.Mathlib.Decide.{ℕ_discrete}
use native.Mathlib.Omega.{arith}

infix 1 if◌then◌else◌
abbrev pub if◌then◌else◌ {ℓ} : {A : Type ℓ} → Bool → A → A → A
if b then x else y = cond b x y

-- To split on a computed test and keep the equation.
pub Bool-cases : (b : Bool) → (b ≡ true) ⊎ (b ≡ false)
Bool-cases true = inl refl
Bool-cases false = inr refl

pub record Eq {ℓ} (A : Type ℓ) : Type ℓ where
  pub dec : Discrete A

-- Shut in proofs, where a split on `a == b` yields the equation or its negation.
instance unfoldable pub nat_eq : Eq ℕ
unfolding ℕ_discrete
nat_eq = record { dec = ℕ_discrete }

module _ {ℓ} {A : Type ℓ} ⦃e : Eq A⦄ where
  infix 50 ◌==◌
  abbrev pub ◌==◌ : A → A → Bool
  a == b = ite (e.dec a b) true false

  abbrev pub contains : List A → A → Bool
  contains [] a = false
  contains (x ∷ xs) a = a == x || contains xs a

  pub eq_true : (a b : A) → (a == b) ≡ true → a ≡ b
  eq_true a b h = ground arith

  pub eq_false : (a b : A) → (a == b) ≡ false → a ≢ b
  eq_false a b h = ground arith

  pub eq_self : (a : A) → (a == a) ≡ true
  eq_self a = ground arith

  both : {a b : A} {xs ys : List A} → Dec (a ≡ b) → Dec (xs ≡ ys) → Dec (a ∷ xs ≡ b ∷ ys)
  both (yes p) (yes q) = yes (cc)
  both (yes p) (no n) = no (λ q. n (cc))
  both (no n) d = no (λ q. n (cc))

  list_dec : Discrete (List A)
  list_dec [] [] = yes refl
  list_dec [] (b ∷ ys) = no (λ p. cc)
  list_dec (a ∷ xs) [] = no (λ p. cc)
  list_dec (a ∷ xs) (b ∷ ys) = both (e.dec a b) (list_dec xs ys)

  instance unfoldable pub list_eq : Eq (List A)
  unfolding list_dec both
  list_eq = record { dec = list_dec }
