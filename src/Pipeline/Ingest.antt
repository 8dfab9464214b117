-- ===== src/Pipeline/Ingest.antt =====
-- `New`, `Ingest`, `emitProgress` and `scan` of internal/pipeline/pipeline.go.
use mathlib.Core.Option.{get_or}
use cardingest.Base.{ℕ, ◌+◌, Bool, List, [], ◌∷◌, ◌++◌, Option, none, some}
use cardingest.Base.{Outcome, ok, err, ◌==◌, list_eq, nat_eq, if◌then◌else◌, length}
use cardingest.Base.Int.{ℤ, pos, ◌+ℤ◌, int64}
use cardingest.Base.Maps.{Map, lookup, insert}
use cardingest.Base.Strings.{Text, codes}
use cardingest.Card.{FileEntry, Time}
use cardingest.Rules.{keep, skip, Engine, keep_all, decide}
use cardingest.Pipeline.{Env, Deps, Input, CardFs, Visit, entry, failed}
use cardingest.Pipeline.Category.{categorize}
use cardingest.Pipeline.Copy.{Failure, World, is_fatal, copy_and_verify}

-- Result. The counters of files are below 2 ^ 63, since a card holds fewer files.
pub record Report : Type 0 where
  pub copied : ℕ
  pub deduped : ℕ
  pub skipped : ℕ
  pub failed : ℕ
  pub bytes_copied : ℤ
  pub by_category : Map Text ℕ
  pub verified : List Text
  pub skipped_path : List Text
  pub failed_path : List Text

pub data IngestError : Type 0 where
  scan_card : Text → IngestError
  cancelled : Text → IngestError
  ingest_file : Text → Failure → IngestError

abbrev pub empty_report : Report
empty_report = record {
  copied = 0;
  deduped = 0;
  skipped = 0;
  failed = 0;
  bytes_copied = pos 0;
  by_category = [];
  verified = [];
  skipped_path = [];
  failed_path = [];
}

-- New: the defaults for what is not given.
unfoldable pub new_deps :
    Option Engine → Map Text (List Text) → Text → Option (CardFs → FileEntry → Time) → Bool → Deps
new_deps rules categories layout date_fn on_progress = record {
  rules = get_or rules keep_all;
  categories = categories;
  layout = if layout == [] then codes "{category}/{date}" else layout;
  date_fn = get_or date_fn (λ fs f. f.mod_time);
  on_progress = on_progress;
}

-- scan: the files of the walk, directories left out; the first error ends it.
unfoldable pub scan : List Visit → Outcome Text (List FileEntry)
scan [] = ok []
scan (failed p cause ∷ visits) = err cause
scan (entry p is_dir size mod_time ∷ visits) =
    let rest = scan visits in
    if is_dir then rest else elim rest [
      | ok entries ↦ ok (record { path = p; size = size; mod_time = mod_time } ∷ entries)
      | err cause ↦ err cause
    ]

-- The sum of the sizes, an int64.
unfoldable pub sum_sizes : ℤ → List FileEntry → ℤ
sum_sizes total [] = total
sum_sizes total (e ∷ entries) = sum_sizes (int64 (total +ℤ pos e.size)) entries

-- m[k]++ on a map of counters
unfoldable pub increment : Text → Map Text ℕ → Map Text ℕ
increment k m = insert k (get_or (lookup k m) 0 + 1) m

unfoldable pub note_skipped : Text → Report → Report
note_skipped p r = record r { skipped = r.skipped + 1; skipped_path = r.skipped_path ++ p ∷ [] }

unfoldable pub note_failed : Text → Report → Report
note_failed p r = record r { failed = r.failed + 1; failed_path = r.failed_path ++ p ∷ [] }

unfoldable pub note_landed : Text → FileEntry → Bool → Report → Report
unfolding increment
note_landed category e copied r =
    let counted : Report =
      if copied
      then record r { copied = r.copied + 1; bytes_copied = int64 (r.bytes_copied +ℤ pos e.size) }
      else record r { deduped = r.deduped + 1 } in
    record counted {
      by_category = increment category r.by_category;
      verified = r.verified ++ e.path ∷ [];
    }

-- What becomes of one file: it is skipped, or its copy was tried.
pub data Fate : Type 0 where
  passed_over : Fate
  tried : Text → Outcome Failure Bool → Fate

-- How the loop goes on after a file: with the report, or out of Ingest with an error.
unfoldable pub settle : FileEntry → Fate → Report → Outcome IngestError Report
unfolding note_skipped note_failed note_landed is_fatal
settle e passed_over r = ok (note_skipped e.path r)
settle e (tried category (ok copied)) r = ok (note_landed category e copied r)
settle e (tried category (err f)) r =
    if is_fatal f then err (ingest_file e.path f) else ok (note_failed e.path r)

module _ (E : Env) (deps : Deps) (input : Input) where
  unfoldable pub emit_progress : ℕ → ℕ → ℤ → ℤ → Text → World E → World E
  emit_progress files_done total_files bytes_done total_bytes current w =
      if deps.on_progress
      then record w {
        progress =
            w.progress
            ++ record {
              slot = input.slot;
              files_done = files_done;
              total_files = total_files;
              bytes_done = bytes_done;
              total_bytes = total_bytes;
              current_file = current;
            }
              ∷ [];
      }
      else w

  -- The category under which a file is copied, if the rules keep it and a category takes it.
  unfoldable pub wanted : FileEntry → Option Text
  wanted e = elim (decide E.glob deps.rules e) [
    | skip ↦ none
    | keep ↦ categorize e.path deps.categories
  ]

  -- The copy of a wanted file.
  unfoldable pub attempt : FileEntry → Option Text → World E → Fate × World E
  attempt e none w = (passed_over, w)
  attempt e (some category) w =
      let (r, w') = copy_and_verify E deps input e category w in (tried category r, w')

  -- One round of the loop, for file i. `stop` is ctx.Err() as it is found there.
  unfoldable pub one_file :
      Option Text → ℕ → ℤ → ℕ → FileEntry → Report → World E → Outcome IngestError Report × World E
  unfolding emit_progress wanted attempt
  one_file (some cause) total_files total_bytes i e r w = (err (cancelled cause), w)
  one_file none total_files total_bytes i e r w =
      let w = emit_progress i total_files r.bytes_copied total_bytes e.path w in
      let (fate, w') = attempt e (wanted e) w in (settle e fate r, w')

  -- After a round: out of the loop with the report as it was, or on to the next file.
  abbrev pub carry_on :
      Outcome IngestError Report
      → Report
      → World E
      → (Report → Option IngestError × Report × World E)
      → Option IngestError × Report × World E
  carry_on (err cause) r w next = (some cause, r, w)
  carry_on (ok r') r w next = next r'

  -- The loop from file i on. The report comes back beside an error too.
  unfoldable pub ingest_from :
      (ℕ → Option Text)
      → ℕ
      → ℤ
      → ℕ
      → List FileEntry
      → Report
      → World E
      → Option IngestError × Report × World E
  ingest_from stopped total_files total_bytes i [] r w = (none, r, w)
  ingest_from stopped total_files total_bytes i (e ∷ entries) r w =
      let (o, w') = one_file (stopped i) total_files total_bytes i e r w in
      carry_on o r w' λ r'. ingest_from stopped total_files total_bytes (i + 1) entries r' w'

  -- The last progress report, after a loop that ended well.
  unfoldable pub finish :
      ℕ → ℤ → Option IngestError × Report × World E → Option IngestError × Report × World E
  unfolding emit_progress
  finish total_files total_bytes (some cause, r, w) = (some cause, r, w)
  finish total_files total_bytes (none, r, w) =
      (none, r, emit_progress total_files total_files r.bytes_copied total_bytes [] w)

  -- Ingest
  unfoldable pub ingest : (ℕ → Option Text) → World E → Option IngestError × Report × World E
  unfolding finish scan sum_sizes
  ingest stopped w = elim (scan input.card_fs.walk) [
    | err cause ↦ (some (scan_card cause), empty_report, w)
    | ok entries ↦
        let total_files = length entries in
        let total_bytes = sum_sizes (pos 0) entries in
        finish total_files total_bytes
          (ingest_from stopped total_files total_bytes 0 entries empty_report w)
  ]
