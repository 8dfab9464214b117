-- ===== src/Pipeline/Resume/New.antt =====
-- The files of a card that the index does not know, and one attempt of an ingest at a file.
use cardingest.Base.{
  ℕ, ◌+◌, ◌≤◌, ◌≡◌, refl, List, [], ◌∷◌, Option, none, some, Outcome, ok, err, Bool, true, false,
  not, All, arith, ok-injective, inl, inr, Bool-cases, list_eq, nat_eq,
}
use cardingest.Base.Strings.{Text}
use cardingest.Card.{FileEntry}
use cardingest.Pipeline.{Env, Deps, Input}
use cardingest.Pipeline.Copy.{World, Failure, fatal, plain}
use cardingest.Pipeline.Ingest.{
  Report, Fate, passed_over, tried, settle, attempt, wanted, note_landed, note_skipped, note_failed,
}
use cardingest.Pipeline.Frame.{IsLawful, read-copy_and_verify}
use cardingest.Pipeline.Landing.{card_hash}
use cardingest.Pipeline.Safety.{IsLawfulIndex, IsFinal, GoesElsewhere, seen-copy}
use cardingest.Pipeline.Resume.Known.{IsSpared-copy_and_verify}

-- What the index answers, an error being no yes.
abbrev pub is_known : Outcome Text Bool → Bool
is_known (ok b) = b
is_known (err cause) = false

known-true : (o : Outcome Text Bool) → not (is_known o) ≡ false → o ≡ ok true
known-true (ok true) h = refl
known-true (ok false) h = cc
known-true (err e) h = cc

-- A new file was copied.
abbrev pub is_copy : Fate → Bool
is_copy (tried category (ok b)) = b
is_copy (tried category (err f)) = false
is_copy passed_over = false

is_copy-tried : (c : Text) (o : Outcome Failure Bool) → is_copy (tried c o) ≡ true → o ≡ ok true
is_copy-tried c (ok true) h = refl
is_copy-tried c (ok false) h = cc
is_copy-tried c (err f) h = cc

abbrev pub one_if : Bool → ℕ
one_if true = 1
one_if false = 0

pub bounded :
    (copied new : Bool) (before after : ℕ)
    → after ≡ before + one_if copied
    → (copied ≡ true → new ≡ true)
    → after ≤ before + one_if new
bounded true new before after h only = rw (only refl) (omega (arith, h))
bounded false new before after h only = omega (arith, h)

pub settle-copied :
    (e : FileEntry) (fate : Fate) (r : Report) {r' : Report}
    → settle e fate r ≡ ok r'
    → r'.copied ≡ r.copied + one_if (is_copy fate)
unfolding settle note_skipped note_failed note_landed
settle-copied e passed_over r h = rw (← ok-injective h) (omega arith)
settle-copied e (tried c (ok true)) r h = rw (← ok-injective h) refl
settle-copied e (tried c (ok false)) r h = rw (← ok-injective h) (omega arith)
settle-copied e (tried c (err (fatal f))) r h = cc
settle-copied e (tried c (err (plain f))) r h = rw (← ok-injective h) (omega arith)

module _ (E : Env) (deps : Deps) (input : Input) (i : E.index.State) where
  -- The file is wanted, and the index does not say that it has the hash of its bytes.
  abbrev pub is_new : FileEntry → Bool
  is_new e = elim (wanted E deps input e) [
    | none ↦ false
    | some category ↦ not (is_known (E.index.seen i (card_hash E input e.path)))
  ]

  abbrev pub count_new : List FileEntry → ℕ
  count_new [] = 0
  count_new (e ∷ entries) = one_if (is_new e) + count_new entries

  -- No new file goes to the path.
  abbrev pub Avoided : Text → List FileEntry → Type 0
  Avoided q = All (λ e. is_new e ≡ true → GoesElsewhere E deps input q e)

  -- What the index had, it has.
  abbrev pub Extends : E.index.State → Type 0
  Extends j = (k : Text) → E.index.seen i k ≡ ok true → E.index.seen j k ≡ ok true

  abbrev pub SparesAll : World E → World E → List FileEntry → Type 0
  SparesAll w w' entries =
      (q : Text)
      → IsFinal E deps input q
      → Avoided q entries
      → E.dest.read w'.dest q ≡ E.dest.read w.dest q

  module _ (L : IsLawful E.dest) (I : IsLawfulIndex E.index) where
    pub attempt_lem :
        (e : FileEntry) (o : Option Text) (w : World E)
        → wanted E deps input e ≡ o
        → Extends w.index
        → Extends (attempt E deps input e o w).1.index
          × (is_copy (attempt E deps input e o w).0 ≡ true → is_new e ≡ true)
          × SparesAll w (attempt E deps input e o w).1 (e ∷ [])
    unfolding attempt
    attempt_lem e none w is x = (x, λ h. cc, λ q f a. refl)
    attempt_lem e (some c) w is x = elim (Bool-cases (is_new e)) [
      | inl new ↦ (
        λ k h. seen-copy E L I deps input e c w k (x k h),
        λ h. new,
        λ q f a. read-copy_and_verify E L deps input e c q w f (a.0 new c is),
      )
      | inr old ↦
          let seen = x _ (known-true _ (rw (is_new, is) at old)) in
          let (none_new, spared) = IsSpared-copy_and_verify E L deps input e c w seen in
          (
            λ k h. seen-copy E L I deps input e c w k (x k h),
            λ h. absurd (none_new (is_copy-tried c _ h)),
            λ q f a. spared q f,
          )
    ]
