-- ===== src/Pipeline/Frame.antt =====
-- What a copy leaves alone: every file but its temporary file and its final path.
use cardingest.Base.{
  ℕ, ◌+◌, ◌%◌, ◌^◌, Bool, true, false, ◌≡◌, refl, ◌∙◌, ◌≢◌, Option, none, some, Outcome, ok, err,
}
use cardingest.Base.{if◌then◌else◌}
use cardingest.Base.Exec.{Keeps, Keeps-pure, Keeps-lift, Keeps-bind, ◌>>=◌}
use cardingest.Base.Strings.{Text}
use cardingest.Card.{FileEntry}
use cardingest.Pipeline.{Bytes, Dest, Env, Deps, Input, CardFs}
use cardingest.Pipeline.Copy.{Failure, World, Run, on_dest, on_error, or_discard, discard}
use cardingest.Pipeline.Copy.{
  copy_bytes, stream_copy, tmp_path, next_tmp, place, ask_index, cleaned,
}
use cardingest.Pipeline.Copy.{
  record_verified, verify, land, drop_copy, dest_path, copy_and_verify, copy_to,
}
use cardingest.Pipeline.Copy.{dedupe_or_land}

-- What is relied on of the destination: an operation changes no file but those that it names, and
-- a rename moves the file or, if it fails, leaves its target alone. Nothing is asked of `write`:
-- what lands may differ from what was written.
pub record IsLawful (D : Dest) : Type 0 where
  pub read-mkdir_all : (d : D.State) (p q : Text) → D.read (D.mkdir_all d p).1 q ≡ D.read d q
  pub read-create : (d : D.State) (p q : Text) → p ≢ q → D.read (D.create d p).1 q ≡ D.read d q
  pub read-write :
      (d : D.State) (p : Text) (b : Bytes) (q : Text)
      → p ≢ q
      → D.read (D.write d p b).1 q ≡ D.read d q
  pub read-close : (d : D.State) (p q : Text) → p ≢ q → D.read (D.close d p).1 q ≡ D.read d q
  pub read-remove : (d : D.State) (p q : Text) → p ≢ q → D.read (D.remove d p).1 q ≡ D.read d q
  pub read-rename_other :
      (d : D.State) (p r q : Text) → p ≢ q → r ≢ q → D.read (D.rename d p r).1 q ≡ D.read d q
  pub read-rename :
      (d : D.State) (p r : Text)
      → (D.rename d p r).0 ≡ none
      → D.read (D.rename d p r).1 r ≡ D.read d p
  pub read-rename_failed :
      (d : D.State) (p r : Text) (cause : Text)
      → (D.rename d p r).0 ≡ some cause
      → D.read (D.rename d p r).1 r ≡ D.read d r

module _ (E : Env) (L : IsLawful E.dest) (q : Text) (x : Outcome Text Bytes) where
  abbrev pub Holds : World E → Type 0
  Holds w = E.dest.read w.dest q ≡ x

  abbrev Spares : (E.dest.State → Option Text × E.dest.State) → Type 0
  Spares op = (d : E.dest.State) → E.dest.read (op d).1 q ≡ E.dest.read d q

  Holds-on_dest :
      (op : E.dest.State → Option Text × E.dest.State) (f : Text → Failure)
      → Spares op
      → Keeps Holds (on_dest E op f)
  unfolding on_dest
  Holds-on_dest op f s = record { at = λ w h. s w.dest ∙ h }

  Holds-cleaned :
      {A : Type 0} (op : E.dest.State → Option Text × E.dest.State) (r : Outcome Failure A)
      → Spares op
      → (w : World E) → Holds w
      → Holds (cleaned E op r w).1
  Holds-cleaned op (ok a) s w h = h
  Holds-cleaned op (err e) s w h = s w.dest ∙ h

  Holds-on_error :
      {A : Type 0} (op : E.dest.State → Option Text × E.dest.State) (m : Run E A)
      → Spares op
      → Keeps Holds m
      → Keeps Holds (on_error E op m)
  unfolding on_error
  Holds-on_error op m s k = record { at = λ w h. Holds-cleaned op (m w).0 s (m w).1 (k.at w h) }

  module _ (tmp : Text) (apart : tmp ≢ q) where
    pub Holds-or_discard :
        {A : Type 0} (m : Run E A) → Keeps Holds m → Keeps Holds (or_discard E tmp m)
    Holds-or_discard m k = Holds-on_error _ m (λ d. L.read-remove d tmp q apart) k

    pub Holds-stream_copy : (card : CardFs) (src : Text) → Keeps Holds (stream_copy E card src tmp)
    unfolding stream_copy copy_bytes
    Holds-stream_copy card src = Keeps-bind _ _ (Keeps-lift _) λ _.
        Keeps-bind _ _ (Holds-on_dest _ _ (λ d. L.read-create d tmp q apart)) λ _.
          Keeps-bind _ _
            (Holds-on_error _ _ (λ d. L.read-close d tmp q apart)
              (Keeps-bind _ _ (Holds-on_dest _ _ (λ d. L.read-write d tmp _ q apart))
                (λ _. Keeps-lift _)))
            λ _.
              Keeps-bind _ _ (Holds-on_dest _ _ (λ d. L.read-close d tmp q apart)) λ _. Keeps-pure _

    pub Holds-drop_copy : Keeps Holds (drop_copy E tmp)
    unfolding drop_copy discard
    Holds-drop_copy =
        Keeps-bind _ _ (record { at = λ w h. L.read-remove w.dest tmp q apart ∙ h })
          λ _. Keeps-pure _

    Holds-land : (hash final : Text) → final ≢ q → Keeps Holds (land E tmp hash final)
    unfolding land verify place record_verified
    Holds-land hash final away = Keeps-bind _ _ (Holds-or_discard _ (record { at = λ w h. h })) λ _.
        Keeps-bind _ _
          (Keeps-bind _ _ (Holds-or_discard _ (Holds-on_dest _ _ (λ d. L.read-mkdir_all d _ q)))
            (λ _.
              Holds-or_discard _
                (Holds-on_dest _ _ (λ d. L.read-rename_other d tmp final q apart away))))
          λ _. Keeps-bind _ _ (record { at = λ w h. h }) λ _. Keeps-pure _

  Keeps-known :
      {A : Type 0} (b : Bool) (m n : Run E A)
      → Keeps Holds m
      → Keeps Holds n
      → Keeps Holds (if b then m else n)
  Keeps-known true m n km kn = km
  Keeps-known false m n km kn = kn

  Holds-next_tmp :
      {A : Type 0} (slot : Text) (f : Text → Run E A)
      → ((n : ℕ) → Keeps Holds (f (tmp_path E slot n)))
      → Keeps Holds (next_tmp E slot >>= f)
  unfolding next_tmp ◌>>=◌
  Holds-next_tmp slot f k = record { at = λ w h. (k ((w.seq + 1) % 2 ^ 64)).at _ h }

  module _ (deps : Deps) (input : Input) (apart : (n : ℕ) → tmp_path E input.slot n ≢ q) where
    -- A copy, whether it succeeds or fails, leaves every file alone that is neither one of the
    -- slot's temporary files nor at the copy's final path.
    pub Holds-copy_and_verify :
        (e : FileEntry) (category : Text)
        → dest_path E deps input e category ≢ q
        → Keeps Holds (copy_and_verify E deps input e category)
    unfolding copy_and_verify copy_to dedupe_or_land ask_index
    Holds-copy_and_verify e category away =
        Keeps-bind _ _ (Holds-on_dest _ _ (λ d. L.read-mkdir_all d _ q)) λ _.
          Holds-next_tmp input.slot _ λ n.
            let tmp = tmp_path E input.slot n in
            Keeps-bind _ _ (Holds-or_discard tmp (apart n) _ (Holds-stream_copy tmp (apart n) _ _))
              λ hash.
                Keeps-bind _ _ (Holds-or_discard tmp (apart n) _ (record { at = λ w h. h })) λ b.
                  Keeps-known b _ _ (Holds-drop_copy tmp (apart n))
                    (Holds-land tmp (apart n) hash _ away)

-- A copy leaves every file alone but the slot's temporary files and the file at its final path,
-- whether it succeeds or fails.
pub read-copy_and_verify :
    (E : Env) (L : IsLawful E.dest) (deps : Deps) (input : Input) (e : FileEntry)
    (category q : Text) (w : World E)
    → ((n : ℕ) → tmp_path E input.slot n ≢ q)
    → dest_path E deps input e category ≢ q
    → E.dest.read (copy_and_verify E deps input e category w).1.dest q ≡ E.dest.read w.dest q
read-copy_and_verify E L deps input e category q w apart away =
    (Holds-copy_and_verify E L q _ deps input apart e category away).at w refl
