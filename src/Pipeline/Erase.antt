-- ===== src/Pipeline/Erase.antt =====
-- `Erase` of internal/pipeline/pipeline.go, over a card that can be written to.
use cardingest.Base.{List, [], ◌∷◌, ◌++◌, Option, none, some}
use cardingest.Base.Strings.{Text}

-- The part of an afero.Fs that erasing uses.
pub record CardRw : Type 1 where
  pub State : Type 0
  pub remove : State → Text → Option Text × State

module _ (C : CardRw) where
  abbrev erase_step : Text → Option Text → List (Text × Text) → List (Text × Text)
  erase_step rel none errs = errs
  erase_step rel (some cause) errs = errs ++ (rel, cause) ∷ []

  -- Every path is tried. The errors come back joined, each with its path; there is an error exactly
  -- if the list is not empty.
  unfoldable pub erase_from :
      List (Text × Text) → List Text → C.State → List (Text × Text) × C.State
  erase_from errs [] s = (errs, s)
  erase_from errs (rel ∷ paths) s =
      erase_from (erase_step rel (C.remove s rel).0 errs) paths (C.remove s rel).1

  unfoldable pub erase : List Text → C.State → List (Text × Text) × C.State
  unfolding erase_from
  erase paths s = erase_from [] paths s
