-- ===== src/Base/Threads.antt =====
-- Programs made of atomic steps on a shared state, and the interleavings of a family of them.
pub mod Rely
pub mod Ended
use cardingest.Base.Equality.{Eq, ◌==◌, if◌then◌else◌}
use cardingest.Base.Results.{Outcome, ok, err}
use cardingest.Base.Exec.{Exec, resume, ◌>>=◌ as ◌and_then◌}
use mathlib.Core.Path.{◌≡◌, refl, ap, ◌∙◌}
use mathlib.Core.Bool.{Bool, true, false}
use mathlib.Core.List.{List, [], ◌∷◌}

-- A program ends with a result, or makes a step: it changes the state, and what it goes on with may
-- depend on the state that the step found.
pub data Prog {ℓ} (S R : Type ℓ) : Type ℓ where
  return : R → Prog S R
  act : (S → S) → (S → Prog S R) → Prog S R

module _ {ℓ} {S R : Type ℓ} where
  -- An action made in one step.
  abbrev pub atom : (S → R × S) → Prog S R
  atom m = act (λ s. (m s).1) (λ s. return (m s).0)

  -- The whole program, with nothing in between.
  unfoldable pub run : Prog S R → S → R × S
  run (return r) s = (r, s)
  run (act op next) s = run (next s) (op s)

  -- One step.
  unfoldable pub advance : Prog S R → S → Prog S R × S
  advance (return r) s = (return r, s)
  advance (act op next) s = (next s, op s)

module _ {ℓ} {S A B : Type ℓ} where
  unfoldable pub bind : Prog S A → (A → Prog S B) → Prog S B
  bind (return a) f = f a
  bind (act op next) f = act op λ s. bind (next s) f

  pub run-bind :
      (p : Prog S A) (f : A → Prog S B) (s : S) → run (bind p f) s ≡ run (f (run p s).0) (run p s).1
  unfolding run bind
  run-bind (return a) f s = refl
  run-bind (act op next) f s = run-bind (next s) f (op s)

-- Programs whose result may be an error, which ends a block.
module _ {ℓ} {S E A B : Type ℓ} where
  abbrev pub go_on : (A → Prog S (Outcome E B)) → Outcome E A → Prog S (Outcome E B)
  go_on f (ok a) = f a
  go_on f (err e) = return (err e)

  infixl 5 ◌>>=◌ ◌>>◌
  abbrev pub ◌>>=◌ : Prog S (Outcome E A) → (A → Prog S (Outcome E B)) → Prog S (Outcome E B)
  p >>= f = bind p (go_on f)

  abbrev pub ◌>>◌ : Prog S (Outcome E A) → Prog S (Outcome E B) → Prog S (Outcome E B)
  p >> q = p >>= λ _. q

-- Run with nothing in between, the program is the action.
pub record Runs {ℓ} {S R : Type ℓ} (p : Prog S R) (m : S → R × S) : Type ℓ where
  pub at : (s : S) → run p s ≡ m s

module _ {ℓ} {S R : Type ℓ} where
  pub Runs-return : (r : R) → Runs (return r) (λ (s : S). (r, s))
  unfolding run
  Runs-return r = record { at = λ s. refl }

  pub Runs-atom : (m : S → R × S) → Runs (atom m) m
  unfolding run
  Runs-atom m = record { at = λ s. refl }

module _ {ℓ} {S E A B : Type ℓ} where
  run-go_on :
      (f : A → Prog S (Outcome E B)) (g : A → Exec S E B) (r : Outcome E A) (s : S)
      → ((a : A) → Runs (f a) (g a))
      → run (go_on f r) s ≡ resume r g s
  unfolding run
  run-go_on f g (ok a) s all = (all a).at s
  run-go_on f g (err e) s all = refl

  pub Runs-bind :
      (p : Prog S (Outcome E A)) (f : A → Prog S (Outcome E B)) (m : Exec S E A)
      (g : A → Exec S E B)
      → Runs p m
      → ((a : A) → Runs (f a) (g a))
      → Runs (p >>= f) (m and_then g)
  unfolding ◌and_then◌
  Runs-bind p f m g first all = record {
    at = λ s.
        run-bind p (go_on f) s
        ∙ run-go_on f g (run p s).0 (run p s).1 all
        ∙ ap (λ (x : Outcome E A × S). resume x.0 g x.1) (first.at s);
  }

-- A family of programs over one state, each under its key.
abbrev pub Threads {ℓ κ} : Type κ → Type ℓ → Type ℓ → Type (ℓ ⊔ κ)
Threads K S R = K → Prog S R

module _ {ℓ κ} {K : Type κ} ⦃eq : Eq K⦄ {S R : Type ℓ} where
  unfoldable pub update : K → Prog S R → Threads K S R → Threads K S R
  update k p t j = if j == k then p else t j

  -- The programs take steps in the order of the schedule, each step that of the key named; a program
  -- that has ended takes none.
  unfoldable pub interleave : List K → Threads K S R × S → Threads K S R × S
  unfolding update advance
  interleave [] (t, s) = (t, s)
  interleave (k ∷ rest) (t, s) = let (p, s') = advance (t k) s in interleave rest (update k p t, s')
