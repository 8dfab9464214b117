-- ===== src/Pipeline/Steps/Runs.antt =====
-- Without other slots in between, the steps are the code of Pipeline/Copy.antt and
-- Pipeline/Ingest.antt.
use cardingest.Base.{ℕ, ◌+◌, Bool, true, false, List, [], ◌∷◌, Option, none, some, Outcome, ok, err}
use cardingest.Base.{if◌then◌else◌, ◌≡◌, refl, ap, ◌∙◌, length}
use cardingest.Base.Int.{ℤ, pos}
use cardingest.Base.Strings.{Text}
use cardingest.Base.Threads.{Prog, run, run-bind, Runs, Runs-return}
use cardingest.Base.Threads.{Runs-atom, Runs-bind}
use cardingest.Card.{FileEntry}
use cardingest.Pipeline.{Env, Deps, Input, CardFs}
use cardingest.Pipeline.Copy.{Failure, World, Run, on_error, cleaned, stream_copy}
use cardingest.Pipeline.Copy.{copy_bytes, place, land, drop_copy, dedupe_or_land, copy_to}
use cardingest.Pipeline.Copy.{copy_and_verify}
use cardingest.Pipeline.Steps.{Steps, cleaned_steps, on_error_steps}
use cardingest.Pipeline.Steps.{stream_copy_steps, place_steps, land_steps, drop_steps, dedupe_steps}
use cardingest.Pipeline.Steps.{copy_to_steps, copy_steps, attempt_steps, one_file_steps, Ending}
use cardingest.Pipeline.Steps.{carry_on_steps, loop_steps, finish_steps, ingest_steps}
use cardingest.Pipeline.Ingest.{Report, IngestError, tried, settle, wanted, emit_progress, attempt}
use cardingest.Pipeline.Ingest.{one_file, carry_on, ingest_from, finish, ingest, scan}
use cardingest.Pipeline.Ingest.{sum_sizes, empty_report}

module _ (E : Env) where
  run-cleaned_steps :
      {A : Type 0} (op : E.dest.State → Option Text × E.dest.State) (r : Outcome Failure A)
      (w : World E)
      → run (cleaned_steps E op r) w ≡ cleaned E op r w
  unfolding run
  run-cleaned_steps op (ok a) w = refl
  run-cleaned_steps op (err e) w = refl

  Runs-on_error :
      {A : Type 0} (op : E.dest.State → Option Text × E.dest.State) (p : Steps E A) (m : Run E A)
      → Runs p m
      → Runs (on_error_steps E op p) (on_error E op m)
  unfolding on_error
  Runs-on_error op p m h = record {
    at = λ w.
        run-bind p (cleaned_steps E op) w
        ∙ run-cleaned_steps op (run p w).0 (run p w).1
        ∙ ap (λ x. cleaned E op x.0 x.1) (h.at w);
  }

  Runs-stream_copy :
      (card : CardFs) (src dst : Text)
      → Runs (stream_copy_steps E card src dst) (stream_copy E card src dst)
  unfolding stream_copy_steps stream_copy copy_bytes
  Runs-stream_copy card src dst = Runs-bind _ _ _ _ (Runs-return _) λ _.
      Runs-bind _ _ _ _ (Runs-atom _) λ _.
        Runs-bind _ _ _ _ (Runs-on_error _ _ _ (Runs-bind _ _ _ _ (Runs-atom _) λ _. Runs-return _))
          λ _. Runs-bind _ _ _ _ (Runs-atom _) λ _. Runs-return _

  Runs-place : (tmp final : Text) → Runs (place_steps E tmp final) (place E tmp final)
  unfolding place_steps place
  Runs-place tmp final =
      Runs-bind _ _ _ _ (Runs-on_error _ _ _ (Runs-atom _)) λ _. Runs-on_error _ _ _ (Runs-atom _)

  Runs-land : (tmp hash final : Text) → Runs (land_steps E tmp hash final) (land E tmp hash final)
  unfolding land_steps land
  Runs-land tmp hash final = Runs-bind _ _ _ _ (Runs-on_error _ _ _ (Runs-atom _)) λ _.
      Runs-bind _ _ _ _ (Runs-place tmp final)
        λ _. Runs-bind _ _ _ _ (Runs-atom _) λ _. Runs-return _

  Runs-drop : (tmp : Text) → Runs (drop_steps E tmp) (drop_copy E tmp)
  unfolding drop_steps drop_copy
  Runs-drop tmp = Runs-bind _ _ _ _ (Runs-atom _) λ _. Runs-return _

  Runs-known :
      {A : Type 0} (b : Bool) (p q : Steps E A) (m n : Run E A)
      → Runs p m
      → Runs q n
      → Runs (if b then p else q) (if b then m else n)
  Runs-known true p q m n h k = h
  Runs-known false p q m n h k = k

  Runs-dedupe :
      (tmp hash final : Text)
      → Runs (dedupe_steps E tmp hash final) (dedupe_or_land E tmp hash final)
  unfolding dedupe_steps dedupe_or_land
  Runs-dedupe tmp hash final =
      Runs-bind _ _ _ _ (Runs-on_error _ _ _ (Runs-atom _))
        λ b. Runs-known b _ _ _ _ (Runs-drop tmp) (Runs-land tmp hash final)

  module _ (deps : Deps) (input : Input) where
    pub Runs-copy :
        (e : FileEntry) (category : Text)
        → Runs (copy_steps E deps input e category) (copy_and_verify E deps input e category)
    unfolding copy_steps copy_and_verify copy_to_steps copy_to
    Runs-copy e category = Runs-bind _ _ _ _ (Runs-atom _) λ _.
        Runs-bind _ _ _ _ (Runs-atom _) λ tmp.
          Runs-bind _ _ _ _ (Runs-on_error _ _ _ (Runs-stream_copy _ _ tmp))
            λ hash. Runs-dedupe tmp hash _

module _ (E : Env) (deps : Deps) (input : Input) where
  Runs-attempt :
      (e : FileEntry) (o : Option Text)
      → Runs (attempt_steps E deps input e o) (attempt E deps input e o)
  unfolding attempt run
  Runs-attempt e none = record { at = λ w. refl }
  Runs-attempt e (some category) = record {
    at = λ w.
        run-bind (copy_steps E deps input e category) _ w
        ∙ ap (λ x. (tried category x.0, x.1)) ((Runs-copy E deps input e category).at w);
  }

  Runs-one_file :
      (stop : Option Text) (n : ℕ) (t : ℤ) (i : ℕ) (e : FileEntry) (r : Report)
      → Runs (one_file_steps E deps input stop n t i e r) (one_file E deps input stop n t i e r)
  unfolding one_file run
  Runs-one_file (some cause) n t i e r = record { at = λ w. refl }
  Runs-one_file none n t i e r = record {
    at = λ w.
        let w' = emit_progress E deps input i n r.bytes_copied t e.path w in
        run-bind (attempt_steps E deps input e (wanted E deps input e)) _ w'
        ∙ ap (λ x. (settle e x.0 r, x.1)) ((Runs-attempt e (wanted E deps input e)).at w');
  }

  -- What the code returns, beside the state that it leaves.
  abbrev ending : Ending × World E → Option IngestError × Report × World E
  ending ((x, r), w) = (x, r, w)

  run-carry_on :
      (o : Outcome IngestError Report) (r : Report) (w : World E)
      (next : Report → Prog (World E) Ending)
      (after : Report → Option IngestError × Report × World E)
      → ((r' : Report) → ending (run (next r') w) ≡ after r')
      → ending (run (carry_on_steps E deps input r next o) w) ≡ carry_on E deps input o r w after
  unfolding run
  run-carry_on (err cause) r w next after h = refl
  run-carry_on (ok r') r w next after h = h r'

  run-loop :
      (stopped : ℕ → Option Text) (n : ℕ) (t : ℤ) (i : ℕ) (entries : List FileEntry) (r : Report)
      (w : World E)
      → ending (run (loop_steps E deps input stopped n t i entries r) w)
        ≡ ingest_from E deps input stopped n t i entries r w
  unfolding loop_steps ingest_from run
  run-loop stopped n t i [] r w = refl
  run-loop stopped n t i (e ∷ entries) r w =
      let p = one_file_steps E deps input (stopped i) n t i e r in
      let next = loop_steps E deps input stopped n t (i + 1) entries in
      let after = λ (r' : Report) (x : Outcome IngestError Report × World E).
        ingest_from E deps input stopped n t (i + 1) entries r' x.1 in
      ap ending (run-bind p (carry_on_steps E deps input r next) w)
      ∙ run-carry_on (run p w).0 r (run p w).1 next (λ r'. after r' (run p w))
          (λ r'. run-loop stopped n t (i + 1) entries r' (run p w).1)
      ∙ ap (λ x. carry_on E deps input x.0 r x.1 (λ r'. after r' x))
          ((Runs-one_file (stopped i) n t i e r).at w)

  run-finish :
      (n : ℕ) (t : ℤ) (x : Ending) (w : World E)
      → ending (run (finish_steps E deps input n t x) w) ≡ finish E deps input n t (ending (x, w))
  unfolding finish run
  run-finish n t (some cause, r) w = refl
  run-finish n t (none, r) w = refl

  run-scanned :
      (stopped : ℕ → Option Text) (w : World E) (o : Outcome Text (List FileEntry))
      → scan input.card_fs.walk ≡ o
      → ending (run (ingest_steps E deps input stopped) w) ≡ ingest E deps input stopped w
  unfolding ingest ingest_steps run
  run-scanned stopped w (err cause) h = rw (h, ingest_steps, ingest) refl
  run-scanned stopped w (ok entries) h =
      let n = length entries in
      let t = sum_sizes (pos 0) entries in
      let p = loop_steps E deps input stopped n t 0 entries empty_report in
      rw (h, ingest_steps, ingest)
        (ap ending (run-bind p (finish_steps E deps input n t) w)
          ∙ run-finish n t (run p w).0 (run p w).1
          ∙ ap (finish E deps input n t) (run-loop stopped n t 0 entries empty_report w))

  -- Where no other slot steps in between, the steps of an ingest are the ingest: with the same error,
  -- the same report and the same state left.
  run-ingest_steps :
      (stopped : ℕ → Option Text) (w : World E)
      → let ((x, r), w') = run (ingest_steps E deps input stopped) w in
        (x, r, w') ≡ ingest E deps input stopped w
  run-ingest_steps stopped w = run-scanned stopped w (scan input.card_fs.walk) refl
