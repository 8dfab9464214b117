-- ===== src/App/History.antt =====
-- What one card of internal/app/app.go leaves in the job history of internal/store/jobs.go.
pub mod Closed
pub mod Rows
pub mod Shared
pub mod Lives
use cardingest.Base.{ℕ, Option, none, some, List, [], ◌∷◌, Outcome, ok, err}
use cardingest.Base.Strings.{Text}
use cardingest.Store
use cardingest.Store.{Job, JobStatus, running, Sqlite}
use cardingest.App
use cardingest.App.{JobCounts, Call}

-- The calls of the recorder that changed the history.
pub data JobStep : Type 0 where
  opened : Text → Text → ℕ → JobStep
  closed : ℕ → JobStatus → JobCounts → JobStep

-- The newest first.
unfoldable pub steps_of : List Call → List JobStep
steps_of [] = []
steps_of (App.Call.start_job slot serial (ok id) ∷ calls) = opened slot serial id ∷ steps_of calls
steps_of (App.Call.finish_job id status j none ∷ calls) = closed id status j ∷ steps_of calls
steps_of (c ∷ calls) = steps_of calls

abbrev pub row_of : JobCounts → Job
row_of j = record {
  id = 0;
  slot = [];
  serial = [];
  status = running;
  copied = j.copied;
  deduped = j.deduped;
  skipped = j.skipped;
  erased = j.erased;
  bytes = j.bytes;
  err_text = j.err_text;
  started_at = 0;
  finished_at = none;
}

-- The database after the calls, of which each start is at one time and each end at another.
unfoldable pub replay : Sqlite → ℕ → ℕ → List JobStep → Sqlite
unfolding Store.start_job Store.finish_job
replay s now later [] = s
replay s now later (opened slot serial id ∷ steps) =
    (Store.start_job (replay s now later steps) slot serial now).1
replay s now later (closed id status j ∷ steps) =
    Store.finish_job (replay s now later steps) id status (row_of j) later
