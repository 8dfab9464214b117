-- ===== src/Base/Threads/Rely.antt =====
-- Rely and guarantee: what a program keeps true by its own steps, whatever the others do between
-- them, and why a family whose programs do so can be interleaved in any order.
use cardingest.Base.Equality.{Eq, ◌==◌, eq_true, eq_false, Bool-cases}
use cardingest.Base.Threads.{Prog, return, act, atom, advance, bind, Threads, update, interleave}
use mathlib.Core.Path.{sym, subst}
use mathlib.Core.Logic.{◌≢◌, inl, inr}
use mathlib.Core.List.{List, [], ◌∷◌}

-- What holds between all steps, what the others may do between two steps of the program, and what
-- the program's own steps do.
pub record Contract {ℓ} (S : Type ℓ) : Type (ℓ + 1) where
  pub inv : S → Type ℓ
  pub rely : S → S → Type ℓ
  pub guar : S → S → Type ℓ
  pub rely_refl : (s : S) → rely s s
  pub rely_trans : (s t u : S) → rely s t → rely t u → rely s u

module _ {ℓ} {S : Type ℓ} (C : Contract S) where
  -- From the state on, interfered with as relied on, each step keeps the invariant and the
  -- guarantee, and the result has its property.
  pub Good : {R : Type ℓ} → (R → S → Type ℓ) → Prog S R → S → Type ℓ
  Good Post (return r) s = (t : S) → C.rely s t → C.inv t → Post r t
  Good Post (act op next) s =
      (t : S) → C.rely s t → C.inv t → C.inv (op t) × C.guar t (op t) × Good Post (next t) (op t)

  module _ {R : Type ℓ} (Post : R → S → Type ℓ) where
    pub Good-rely : (p : Prog S R) (s t : S) → C.rely s t → Good Post p s → Good Post p t
    unfolding Good
    Good-rely (return r) s t h g = λ u k. g u (C.rely_trans s t u h k)
    Good-rely (act op next) s t h g = λ u k. g u (C.rely_trans s t u h k)

  module _ {R : Type ℓ} (Post : R → S → Type ℓ) where
    pub Good-return :
        (r : R) (s : S) → ((t : S) → C.rely s t → C.inv t → Post r t) → Good Post (return r) s
    unfolding Good
    Good-return r s h = h

    pub Good-act :
        (op : S → S) (next : S → Prog S R) (s : S)
        → ((t : S)
            → C.rely s t
            → C.inv t
            → C.inv (op t) × C.guar t (op t) × Good Post (next t) (op t))
        → Good Post (act op next) s
    unfolding Good
    Good-act op next s h = h

    pub Good-atom :
        (m : S → R × S) (s : S)
        → ((t : S)
            → C.rely s t
            → C.inv t
            → let (r, t') = m t in
              C.inv t' × C.guar t t' × ((u : S) → C.rely t' u → C.inv u → Post r u))
        → Good Post (atom m) s
    unfolding Good
    Good-atom m s h = h

    -- A program that has ended has kept its promise.
    pub Good-ended : (r : R) (s : S) → C.inv s → Good Post (return r) s → Post r s
    unfolding Good
    Good-ended r s i g = g s (C.rely_refl s) i

  module _ {A B : Type ℓ} (Mid : A → S → Type ℓ) (Post : B → S → Type ℓ) where
    pub Good-bind :
        (p : Prog S A) (f : A → Prog S B) (s : S)
        → C.inv s
        → Good Mid p s
        → ((a : A) (t : S) → C.inv t → Mid a t → Good Post (f a) t)
        → Good Post (bind p f) s
    unfolding Good bind
    Good-bind (return a) f s i g k = k a s i (g s (C.rely_refl s) i)
    Good-bind (act op next) f s i g k = λ t h j.
        let (kept, given, on) = g t h j in (kept, given, Good-bind (next t) f (op t) kept on k)

  module _ {R : Type ℓ} (Post Post' : R → S → Type ℓ) where
    pub Good-map :
        ((r : R) (s : S) → Post r s → Post' r s)
        → (p : Prog S R) (s : S) → Good Post p s
        → Good Post' p s
    unfolding Good
    Good-map f (return r) s g = λ t h i. f r t (g t h i)
    Good-map f (act op next) s g =
        λ t h i. let (kept, given, on) = g t h i in (kept, given, Good-map f (next t) (op t) on)

module _ {ℓ} {S R : Type ℓ} (C : Contract S) (Post : R → S → Type ℓ) (Frame : S → Type ℓ)
    (others : (s t : S) → C.rely s t → Frame s → Frame t)
    (self : (s t : S) → C.guar s t → Frame s → Frame t) where
  -- What no step makes false holds in the end too.
  pub Good-frame :
      (p : Prog S R) (s : S) → Frame s → Good C Post p s → Good C (λ r t. Post r t × Frame t) p s
  unfolding Good
  Good-frame (return r) s h g = λ t k i. (g t k i, others s t k h)
  Good-frame (act op next) s h g = λ t k i.
      let (kept, given, on) = g t k i in
      (kept, given, Good-frame (next t) (op t) (self t (op t) given (others s t k h)) on)

-- The family: one invariant, and what each program guarantees is what the others rely on.
module _ {ℓ} {K : Type ℓ} ⦃eq : Eq K⦄ {S R : Type ℓ} (C : K → Contract S)
    (same : (j k : K) (s : S) → (C j).inv s → (C k).inv s)
    (meet : (j k : K) (s t : S) → j ≢ k → (C j).guar s t → (C k).rely s t)
    (Post : K → R → S → Type ℓ) where
  AllGood : Threads K S R → S → Type ℓ
  AllGood t s = (k : K) → (C k).inv s × Good (C k) (Post k) (t k) s

  advance-Good :
      (k : K) (p : Prog S R) (s : S)
      → (C k).inv s
      → Good (C k) (Post k) p s
      → let (p', s') = advance p s in
        (C k).inv s' × Good (C k) (Post k) p' s' × ((j : K) → k ≢ j → (C j).rely s s')
  unfolding Good advance
  advance-Good k (return r) s i g = (i, g, λ j h. (C j).rely_refl s)
  advance-Good k (act op next) s i g =
      let (kept, given, on) = g s ((C k).rely_refl s) i in
      (kept, on, λ j h. meet k j s (op s) h given)

  AllGood-update :
      (k : K) (p : Prog S R) (t : Threads K S R) (s s' : S)
      → (C k).inv s'
      → Good (C k) (Post k) p s'
      → ((j : K) → k ≢ j → (C j).rely s s')
      → AllGood t s
      → AllGood (update k p t) s'
  unfolding AllGood update
  AllGood-update k p t s s' i g others all j = (
    same k j s' i,
    elim (Bool-cases (j == k)) [
      | inl h ↦ rw h (subst (λ l. Good (C l) (Post l) p s') (sym (eq_true j k h)) g)
      | inr h ↦
          rw h
            (Good-rely (C j) (Post j) (t j) s s' (others j λ q. eq_false j k h (sym q)) (all j).1)
    ],
  )

  -- Whatever the order of the steps, the invariant and what each program has yet to do hold on.
  pub interleave-Good :
      (schedule : List K) (t : Threads K S R) (s : S)
      → ((k : K) → (C k).inv s × Good (C k) (Post k) (t k) s)
      → let (t', s') = interleave schedule (t, s) in
        (k : K) → (C k).inv s' × Good (C k) (Post k) (t' k) s'
  unfolding interleave AllGood
  interleave-Good [] t s all = all
  interleave-Good (k ∷ rest) t s all =
      let (p, s') = advance (t k) s in
      let (i, g, others) = advance-Good k (t k) s (all k).0 (all k).1 in
      interleave-Good rest (update k p t) s' (AllGood-update k p t s s' i g others all)
