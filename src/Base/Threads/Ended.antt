-- ===== src/Base/Threads/Ended.antt =====
-- A schedule that goes on after another, and a program that has ended under it.
use cardingest.Base.Equality.{Eq, ◌==◌, eq_true, Bool-cases}
use cardingest.Base.Threads.{Prog, return, act, advance, Threads, update, interleave}
use mathlib.Core.Path.{◌≡◌, refl, subst}
use mathlib.Core.Logic.{inl, inr}
use mathlib.Core.List.{List, [], ◌∷◌, ◌++◌}

module _ {ℓ} {S R : Type ℓ} where
  advance-ended : (p : Prog S R) (s : S) (r : R) → p ≡ return r → (advance p s).0 ≡ return r
  unfolding advance
  advance-ended (return q) s r h = h
  advance-ended (act op next) s r h = cc

module _ {ℓ κ} {K : Type κ} ⦃eq : Eq K⦄ {S R : Type ℓ} where
  pub interleave-append :
      (xs ys : List K) (c : Threads K S R × S)
      → interleave (xs ++ ys) c ≡ interleave ys (interleave xs c)
  unfolding interleave
  interleave-append [] ys c = refl
  interleave-append (k ∷ xs) ys (t, s) = interleave-append xs ys _

  update-ended :
      (j k : K) (t : Threads K S R) (s : S) (r : R)
      → t k ≡ return r
      → update j (advance (t j) s).0 t k ≡ return r
  unfolding update
  update-ended j k t s r h = elim (Bool-cases (k == j)) [
    | inl q ↦ rw q (advance-ended (t j) s r (subst (λ i. t i ≡ return r) (eq_true k j q) h))
    | inr q ↦ rw q h
  ]

  -- A program that has ended takes no more steps.
  pub interleave-ended :
      (schedule : List K) (t : Threads K S R) (s : S) (k : K) (r : R)
      → t k ≡ return r
      → (interleave schedule (t, s)).0 k ≡ return r
  unfolding interleave
  interleave-ended [] t s k r h = h
  interleave-ended (j ∷ rest) t s k r h =
      interleave-ended rest (update j (advance (t j) s).0 t) (advance (t j) s).1 k r
        (update-ended j k t s r h)
