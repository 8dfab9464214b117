-- ===== src/Pipeline/Steps/Wanted.antt =====
-- The files of a slot's card, and the paths that they are to go to.
use cardingest.Base.{◌≡◌, ◌≢◌, sym, ◌∙◌}
use cardingest.Base.{some, Outcome, ok, err, ◌⊎◌, inl, inr, List, [], ◌∷◌, All}
use cardingest.Base.Strings.{Text}
use cardingest.Card.{FileEntry}
use cardingest.Pipeline.{Env, Deps, Input}
use cardingest.Pipeline.Copy.{dest_path}
use cardingest.Pipeline.Ingest.{wanted}
use cardingest.Pipeline.Ingest.{scan}
use cardingest.Pipeline.Safety.{GoesElsewhere}

abbrev pub entries_of : Outcome Text (List FileEntry) → List FileEntry
entries_of (ok entries) = entries
entries_of (err cause) = []

-- The files of the slot's card; none, if the walk fails.
abbrev pub files_of : Input → List FileEntry
files_of input = entries_of (scan input.card_fs.walk)

module _ (E : Env) (deps : Deps) (input : Input) where
  -- Some of the files is wanted and goes to this path.
  unfoldable pub Wants : List FileEntry → Text → Type 0
  Wants [] p = ⊥
  Wants (e ∷ entries) p =
      ((category : Text) × (wanted E deps input e ≡ some category)
        × (dest_path E deps input e category ≡ p))
      ⊎ Wants entries p

  -- No two files that are wanted go to the same path.
  abbrev pub Distinct : List FileEntry → Type 0
  Distinct [] = Unit
  Distinct (e ∷ entries) =
      ((category : Text)
        → wanted E deps input e ≡ some category
        → All (GoesElsewhere E deps input (dest_path E deps input e category)) entries)
      × Distinct entries

  pub Wants-elsewhere :
      (q p : Text) (entries : List FileEntry)
      → All (GoesElsewhere E deps input q) entries
      → Wants entries p
      → q ≢ p
  unfolding Wants
  Wants-elsewhere q p [] all h k = h
  Wants-elsewhere q p (e ∷ entries) all (inl (c, w, same)) k = all.0 c w (same ∙ sym k)
  Wants-elsewhere q p (e ∷ entries) all (inr h) k = Wants-elsewhere q p entries all.1 h k
