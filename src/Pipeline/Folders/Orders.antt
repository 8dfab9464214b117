-- ===== src/Pipeline/Folders/Orders.antt =====
-- The categories that can take a file in `categorize` of internal/pipeline/pipeline.go, by the orders
-- in which the map of categories may be ranged over.
use mathlib.Core.Path.{subst}
use mathlib.Core.Logic.{∥∥₁_prop, ∥∥₁_elim, ∥∥₁_map}
use mathlib.Core.Logic.Or
use mathlib.Core.HLevel.{⊥_prop}
use mathlib.Core.List.{
  Mem, not-mem-nil, mem-cons_self, mem-cons_of_mem, eq-or-mem_of_mem-cons, append_of_mem, Perm,
  perm_middle, append-nil,
}
use mathlib.Core.List.Perm
use cardingest.Base.{
  ◌≡◌, ◌≢◌, ◌↔◌, ◌∙◌, refl, ap, ◌⊎◌, inl, inr, Bool, true, false, List, [], ◌∷◌, ◌++◌,
}
use cardingest.Base.{some, arith, ◌==◌, list_eq, nat_eq, if◌then◌else◌, Bool-cases, eq_true}
use cardingest.Base.Maps.{Map}
use cardingest.Base.Strings.{Text, codes, to_lower, ext}
use cardingest.Pipeline.Category.{
  Listing, explicit, listed, scan_exts, scan_categories, fall_back, categorize,
}
use cardingest.Pipeline.Folders.{ListsExt, ListsStar, Passes, categorize_explicit, categorize_star}

abbrev Categories : Type 0
Categories = Map Text (List Text)

-- No category lists an extension.
abbrev pub NoneLists : Text → Categories → Type 0
NoneLists x cats = (k : Text) (ks : List Text) → Mem (k, ks) cats → ¬ ListsExt x ks

-- A category of this name lists the extension; or it has a name that is not empty and lists "*", and
-- no category lists the extension.
abbrev pub MayTake : Text → Categories → Text → Type 0
MayTake x cats c = ∥ (
    (exts : List Text) × Mem (c, exts) cats
    × (ListsExt x exts ⊎ ((c ≢ []) × ListsStar exts × NoneLists x cats))) ∥₁

-- Some order of the categories in which the file goes to a category of this name.
abbrev pub InSomeOrder : Text → Categories → Text → Type 0
InSomeOrder p cats c = ∥ ((order : Categories) × Perm order cats × (categorize p order ≡ some c)) ∥₁

module _ (x : Text) where
  -- What the inner loop found is there.
  abbrev Found : Bool → List Text → Listing → Type 0
  Found b exts explicit = ListsExt x exts
  Found b exts (listed r) = (¬ ListsExt x exts) × (r ≡ true → (b ≡ true) ⊎ ListsStar exts)

  Found-star :
      (b : Bool) (e : Text) (exts : List Text) (l : Listing)
      → e ≡ codes "*"
      → Found true exts l
      → Found b (e ∷ exts) l
  Found-star b e exts explicit star h = inr h
  Found-star b e exts (listed r) star (off, starred) =
      (λ l. elim l [ inl here ↦ here.0 star | inr later ↦ off later ], λ k. inr (inl star))

  Found-plain :
      (b : Bool) (e : Text) (exts : List Text) (l : Listing)
      → to_lower e ≢ x
      → Found b exts l
      → Found b (e ∷ exts) l
  Found-plain b e exts explicit other h = inr h
  Found-plain b e exts (listed r) other (off, starred) = (
    λ l. elim l [ inl here ↦ other (here.1) | inr later ↦ off later ],
    λ k. elim (starred k) [ inl before ↦ inl before | inr later ↦ inr (inr later) ],
  )

  scan_exts-Found : (b : Bool) (exts : List Text) → Found b exts (scan_exts x b exts)
  unfolding scan_exts
  scan_exts-Found b [] = (λ l. elim l [ ], inl)
  scan_exts-Found b (e ∷ exts) = elim (Bool-cases (e == codes "*")) [
    | inl star ↦ rw star (Found-star b e exts _ (eq_true _ _ star) (scan_exts-Found true exts))
    | inr plain ↦ elim (Bool-cases (to_lower e == x)) [
      | inl same ↦ rw (plain, same) (inl (ground arith, eq_true _ _ same))
      | inr other ↦
          rw (plain, other) (Found-plain b e exts _ (ground arith) (scan_exts-Found b exts))
    ]
  ]

  NoneLists-cons :
      (k : Text) (ks : List Text) (cats : Categories)
      → ¬ ListsExt x ks
      → NoneLists x cats
      → NoneLists x ((k, ks) ∷ cats)
  NoneLists-cons k ks cats off rest j js m l =
      Or.elim ⊥_prop (eq-or-mem_of_mem-cons m)
        (λ e. off (subst (ListsExt x) (ap (λ (c : Text × List Text). c.1) e) l))
        (λ later. rest j js later l)

  -- The result of the outer loop, by the category that it comes from.
  abbrev Source : Text → Text → Categories → Type 0
  Source caught c cats =
      ((exts : List Text) × Mem (c, exts) cats × ListsExt x exts)
      ⊎ (NoneLists x cats
          × (c ≢ [])
          × ((c ≡ caught) ⊎ ((exts : List Text) × Mem (c, exts) cats × ListsStar exts)))

  Source-listed :
      (caught c cat : Text) (exts : List Text) (cats : Categories) (r : Bool)
      → Found false exts (listed r)
      → Source (if r then cat else caught) c cats
      → Source caught c ((cat, exts) ∷ cats)
  Source-listed caught c cat exts cats r f (inl (es, m, l)) = inl (es, mem-cons_of_mem _ m, l)
  Source-listed caught c cat exts cats r f (inr (off, named, inr (es, m, star))) =
      inr (NoneLists-cons cat exts cats f.0 off, named, inr (es, mem-cons_of_mem _ m, star))
  Source-listed caught c cat exts cats false f (inr (off, named, inl same)) =
      inr (NoneLists-cons cat exts cats f.0 off, named, inl same)
  Source-listed caught c cat exts cats true f (inr (off, named, inl same)) = inr (
    NoneLists-cons cat exts cats f.0 off,
    named,
    inr (
      exts,
      rw same (mem-cons_self {l = cats}),
      elim (f.1 refl) [ inl h ↦ cc | inr star ↦ star ],
    ),
  )

  scan_categories-Source :
      (caught c : Text) (cats : Categories)
      → scan_categories x caught cats ≡ some c
      → Source caught c cats
  unfolding scan_categories fall_back
  scan_categories-Source caught c [] h =
      inr (λ k ks m. absurd (not-mem-nil m), ground arith, inl (ground arith))
  scan_categories-Source caught c ((cat, exts) ∷ cats) h =
      go (scan_exts x false exts) (scan_exts-Found false exts) h
        (λ k. scan_categories-Source k c cats)
    where
      go :
          (l : Listing)
          → Found false exts l
          → elim l [
            | explicit ↦ some cat
            | listed starred ↦ scan_categories x (if starred then cat else caught) cats
          ]
            ≡ some c
          → ((k : Text) → scan_categories x k cats ≡ some c → Source k c cats)
          → Source caught c ((cat, exts) ∷ cats)
      go explicit f e rest =
          let same : cat ≡ c = cc in inl (exts, rw same (mem-cons_self {l = cats}), f)
      go (listed r) f e rest = Source-listed caught c cat exts cats r f (rest _ e)

  NoneLists-Passes : (cats : Categories) → NoneLists x cats → Passes x cats
  NoneLists-Passes [] h = tt
  NoneLists-Passes ((k, ks) ∷ cats) h =
      (h k ks mem-cons_self, NoneLists-Passes cats (λ j js m. h j js (mem-cons_of_mem _ m)))

  NoneLists-Perm : {a b : Categories} → Perm a b → NoneLists x b → NoneLists x a
  NoneLists-Perm p h k ks m = h k ks ((Perm.mem_iff p).0 m)

module _ (p : Text) where
  abbrev At : Text
  At = to_lower (ext p)

  taken_in_order :
      (cats order : Categories) (c : Text)
      → Perm order cats
      → categorize p order ≡ some c
      → MayTake At cats c
  unfolding categorize
  taken_in_order cats order c same h = elim (scan_categories-Source At [] c order h) [
    | inl (exts, m, l) ↦ ∣ (exts, (Perm.mem_iff same).0 m, inl l) ∣₁
    | inr (off, named, inl nameless) ↦ absurd (named nameless)
    | inr (off, named, inr (exts, m, star)) ↦ ∣ (
      exts,
      (Perm.mem_iff same).0 m,
      inr (named, star, NoneLists-Perm At (Perm.symm same) off),
    ) ∣₁
  ]

  -- The explicit category first, or the one with the asterisk last.
  order_for :
      (cats before rest : Categories) (c : Text) (exts : List Text)
      → cats ≡ before ++ (c, exts) ∷ rest
      → ListsExt At exts ⊎ ((c ≢ []) × ListsStar exts × NoneLists At cats)
      → (order : Categories) × Perm order cats × (categorize p order ≡ some c)
  order_for cats before rest c exts is (inl l) = (
    (c, exts) ∷ (before ++ rest),
    rw is (Perm.symm (perm_middle before rest)),
    categorize_explicit p [] (before ++ rest) c exts tt l,
  )
  order_for cats before rest c exts is (inr (named, star, off)) =
      let last : Perm ((before ++ rest) ++ (c, exts) ∷ []) cats = rw is (
        Perm.trans (rw append-nil at (perm_middle {a = (c, exts)} (before ++ rest) []))
          (Perm.symm (perm_middle before rest))) in
      let pass = NoneLists-Passes At _ (NoneLists-Perm At last off) in
      (
        (before ++ rest) ++ (c, exts) ∷ [],
        last,
        categorize_star p (before ++ rest) [] c exts pass star tt ∙ ground (arith, named),
      )

  -- In some order of the map of categories a file goes to the category of a name exactly if one of
  -- that name lists the file's extension, up to case; or if none does, and one of that name, which is
  -- not empty, lists "*".
  pub categorize_iff : (cats : Categories) (c : Text) → InSomeOrder p cats c ↔ MayTake At cats c
  categorize_iff cats c = (
    λ found. ∥∥₁_elim found ∥∥₁_prop (λ (order, same, h). taken_in_order cats order c same h),
    λ may. ∥∥₁_elim may ∥∥₁_prop (λ (exts, m, why).
        ∥∥₁_map (append_of_mem m) (λ (before, rest, is). order_for cats before rest c exts is why)),
  )
