-- ===== src/Base/Exec.antt =====
-- Code that changes a state and may return an error. What was done before the error stays done, so
-- the state comes back beside the error too.
use mathlib.Core.Path.{◌≡◌, refl}
use cardingest.Base.Results.{Outcome, ok, err}

abbrev pub Exec {ℓ} : Type ℓ → Type ℓ → Type ℓ → Type ℓ
Exec S E A = S → Outcome E A × S

module _ {ℓ} {S E A : Type ℓ} where
  abbrev pub pure : A → Exec S E A
  pure a s = (ok a, s)

  abbrev pub raise : E → Exec S E A
  raise e s = (err e, s)

  abbrev pub lift : Outcome E A → Exec S E A
  lift r s = (r, s)

module _ {ℓ} {S E A B : Type ℓ} where
  abbrev pub resume : Outcome E A → (A → Exec S E B) → Exec S E B
  resume (ok a) f s = f a s
  resume (err e) f s = (err e, s)

  infixl 5 ◌>>=◌ ◌>>◌
  unfoldable pub ◌>>=◌ : Exec S E A → (A → Exec S E B) → Exec S E B
  ◌>>=◌ m f s = resume (m s).0 f (m s).1

  abbrev pub ◌>>◌ : Exec S E A → Exec S E B → Exec S E B
  m >> n = m >>= λ _. n

  resume-eq-ok :
      (r : Outcome E A) (f : A → Exec S E B) (s : S) {b : B}
      → (resume r f s).0 ≡ ok b
      → (a : A) × (r ≡ ok a) × ((f a s).0 ≡ ok b) × ((resume r f s).1 ≡ (f a s).1)
  resume-eq-ok (ok a) f s h = (a, refl, h, refl)
  resume-eq-ok (err e) f s h = cc

  -- A block that returns has returned from its first action, and goes on from the state left.
  pub bind-eq-ok :
      (m : Exec S E A) (f : A → Exec S E B) (s : S) {b : B}
      → ((m >>= f) s).0 ≡ ok b
      → (a : A) × ((m s).0 ≡ ok a) × ((f a (m s).1).0 ≡ ok b) × (((m >>= f) s).1 ≡ (f a (m s).1).1)
  unfolding ◌>>=◌
  bind-eq-ok m f s h = resume-eq-ok (m s).0 f (m s).1 h

-- Whatever it ends with, the action leads from states with `P` to states with `P`.
pub record Keeps {ℓ} {S E A : Type ℓ} (P : S → Type ℓ) (act : Exec S E A) : Type ℓ where
  pub at : (s : S) → P s → P (act s).1

module _ {ℓ} {S E A : Type ℓ} {P : S → Type ℓ} where
  pub Keeps-lift : (r : Outcome E A) → Keeps P (lift r)
  Keeps-lift r = record { at = λ s p. p }

  pub Keeps-pure : (value : A) → Keeps P (pure {E = E} value)
  Keeps-pure value = Keeps-lift (ok value)

  pub Keeps-raise : (cause : E) → Keeps P (raise {A = A} cause)
  Keeps-raise cause = Keeps-lift (err cause)

module _ {ℓ} {S E A B : Type ℓ} {P : S → Type ℓ} where
  Keeps-resume :
      (r : Outcome E A) (next : A → Exec S E B)
      → ((a : A) → Keeps P (next a))
      → (s : S) → P s
      → P (resume r next s).1
  Keeps-resume (ok a) next all s p = (all a).at s p
  Keeps-resume (err cause) next all s p = p

  pub Keeps-bind :
      (act : Exec S E A) (next : A → Exec S E B)
      → Keeps P act
      → ((a : A) → Keeps P (next a))
      → Keeps P (act >>= next)
  unfolding ◌>>=◌
  Keeps-bind act next first all = record {
    at = λ s p. Keeps-resume (act s).0 next all (act s).1 (first.at s p);
  }
