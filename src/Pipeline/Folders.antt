-- ===== src/Pipeline/Folders.antt =====
-- Which category takes a file, whatever order the map of categories is ranged over in.
pub mod Orders
use cardingest.Base.{
  ◌≡◌, ◌≢◌, ◌∙◌, refl, ◌⊎◌, inl, inr, Bool, true, false, List, [], ◌∷◌, ◌++◌, none,
}
use cardingest.Base.{some, All, arith, ◌==◌, list_eq, nat_eq, if◌then◌else◌}
use cardingest.Base.Maps.{Map}
use cardingest.Base.Strings.{Text, codes, to_lower, ext}
use cardingest.Pipeline.Category.{explicit, listed, scan_exts, scan_categories, fall_back}
use cardingest.Pipeline.Category.{categorize}

-- An extension is listed by a text that is not "*" and equals it up to case.
abbrev pub ListsExt : Text → List Text → Type 0
ListsExt x [] = ⊥
ListsExt x (e ∷ exts) = ((e ≢ codes "*") × (to_lower e ≡ x)) ⊎ ListsExt x exts

abbrev pub ListsStar : List Text → Type 0
ListsStar [] = ⊥
ListsStar (e ∷ exts) = (e ≡ codes "*") ⊎ ListsStar exts

-- Categories that do not list an extension, and that do not list "*".
abbrev pub Passes : Text → Map Text (List Text) → Type 0
Passes x = All (λ c. ¬ ListsExt x (c.1))

abbrev pub Starless : Map Text (List Text) → Type 0
Starless = All (λ c. ¬ ListsStar (c.1))

Passes-split :
    (x : Text) (before rest : Map Text (List Text))
    → Passes x (before ++ rest)
    → Passes x before × Passes x rest
Passes-split x [] rest h = (tt, h)
Passes-split x (c ∷ before) rest h =
    let (here, after) = Passes-split x before rest h.1 in ((h.0, here), after)

module _ (x : Text) where
  scan_exts-explicit :
      (b : Bool) (exts : List Text) → ListsExt x exts → scan_exts x b exts ≡ explicit
  unfolding scan_exts
  scan_exts-explicit b [] l = elim l [ ]
  scan_exts-explicit b (e ∷ exts) (inl (plain, same)) = ground arith
  scan_exts-explicit b (e ∷ exts) (inr later) =
      ground (arith, scan_exts-explicit true exts later, scan_exts-explicit b exts later)

  scan_exts-star :
      (b : Bool) (exts : List Text)
      → ¬ ListsExt x exts
      → (b ≡ true) ⊎ ListsStar exts
      → scan_exts x b exts ≡ listed true
  unfolding scan_exts
  scan_exts-star b [] off (inl h) = ground arith
  scan_exts-star b [] off (inr s) = elim s [ ]
  scan_exts-star b (e ∷ exts) off (inl h) = ground (
    arith,
    off,
    scan_exts-star true exts (λ l. off (inr l)) (inl refl),
    scan_exts-star b exts (λ l. off (inr l)) (inl h),
  )
  scan_exts-star b (e ∷ exts) off (inr (inl star)) =
      ground (arith, scan_exts-star true exts (λ l. off (inr l)) (inl refl))
  scan_exts-star b (e ∷ exts) off (inr (inr later)) = ground (
    arith,
    off,
    scan_exts-star true exts (λ l. off (inr l)) (inl refl),
    scan_exts-star b exts (λ l. off (inr l)) (inr later),
  )

  scan_exts-neither :
      (b : Bool) (exts : List Text)
      → ¬ ListsExt x exts
      → ¬ ListsStar exts
      → scan_exts x b exts ≡ listed b
  unfolding scan_exts
  scan_exts-neither b [] off starless = refl
  scan_exts-neither b (e ∷ exts) off starless =
      ground
        (arith, off, starless, scan_exts-neither b exts (λ l. off (inr l)) (λ s. starless (inr s)))

  scan_exts-passed :
      (b : Bool) (exts : List Text)
      → ¬ ListsExt x exts
      → (r : Bool) × (scan_exts x b exts ≡ listed r)
  unfolding scan_exts
  scan_exts-passed b [] off = (b, refl)
  scan_exts-passed b (e ∷ exts) off =
      let (r, p) = scan_exts-passed true exts (λ l. off (inr l)) in
      let (r', p') = scan_exts-passed b exts (λ l. off (inr l)) in
      (if e == codes "*" then r else r', ground (arith, off))

  scan_categories-Passes :
      (caught : Text) (before rest : Map Text (List Text))
      → Passes x before
      → (k : Text) × (scan_categories x caught (before ++ rest) ≡ scan_categories x k rest)
  unfolding scan_categories
  scan_categories-Passes caught [] rest pass = (caught, refl)
  scan_categories-Passes caught ((k, ks) ∷ before) rest pass =
      let (starred, e) = scan_exts-passed false ks pass.0 in
      let (last, p) = scan_categories-Passes (if starred then k else caught) before rest pass.1 in
      (last, rw (e, scan_categories) p)

  scan_categories-explicit :
      (caught c : Text) (exts : List Text) (rest : Map Text (List Text))
      → ListsExt x exts
      → scan_categories x caught ((c, exts) ∷ rest) ≡ some c
  unfolding scan_categories
  scan_categories-explicit caught c exts rest l =
      rw (scan_exts-explicit false exts l, scan_categories)

  scan_categories-Starless :
      (caught : Text) (rest : Map Text (List Text))
      → Passes x rest
      → Starless rest
      → scan_categories x caught rest ≡ fall_back caught
  unfolding scan_categories
  scan_categories-Starless caught [] pass starless = refl
  scan_categories-Starless caught ((k, ks) ∷ rest) pass starless =
      rw (scan_exts-neither false ks pass.0 starless.0, scan_categories)
        (scan_categories-Starless caught rest pass.1 starless.1)

  scan_categories-star :
      (caught c : Text) (exts : List Text) (rest : Map Text (List Text))
      → ¬ ListsExt x exts
      → ListsStar exts
      → Passes x rest
      → Starless rest
      → scan_categories x caught ((c, exts) ∷ rest) ≡ fall_back c
  unfolding scan_categories
  scan_categories-star caught c exts rest off star pass starless =
      rw (scan_exts-star false exts off (inr star), scan_categories)
        (scan_categories-Starless c rest pass starless)

-- The category that lists a file's extension takes the file, wherever it and the categories that
-- list "*" stand in the order, as long as no category before it lists the extension too.
pub categorize_explicit :
    (p : Text) (before rest : Map Text (List Text)) (c : Text) (exts : List Text)
    → Passes (to_lower (ext p)) before
    → ListsExt (to_lower (ext p)) exts
    → categorize p (before ++ (c, exts) ∷ rest) ≡ some c
unfolding categorize
categorize_explicit p before rest c exts pass l =
    (scan_categories-Passes _ [] before ((c, exts) ∷ rest) pass).1
    ∙ scan_categories-explicit _ _ c exts rest l

-- Where no category lists a file's extension and one lists "*", and none after that one does, that
-- one takes the file, unless its name is empty: then the file is taken by none.
pub categorize_star :
    (p : Text) (before rest : Map Text (List Text)) (c : Text) (exts : List Text)
    → Passes (to_lower (ext p)) (before ++ (c, exts) ∷ rest)
    → ListsStar exts
    → Starless rest
    → categorize p (before ++ (c, exts) ∷ rest) ≡ (if c == [] then none else some c)
unfolding categorize fall_back
categorize_star p before rest c exts pass star starless =
    let (here, after) = Passes-split (to_lower (ext p)) before ((c, exts) ∷ rest) pass in
    (scan_categories-Passes _ [] before ((c, exts) ∷ rest) here).1
    ∙ scan_categories-star _ _ c exts rest after.0 star after.1 starless
