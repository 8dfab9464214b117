-- ===== src/Store.antt =====
-- The job history and the index of hashes of internal/store: the tables of the SQLite database as
-- lists of rows. The SQL of the source is written out for these tables; what the database itself
-- adds, its driver's errors and the clock, are arguments.
pub mod Jobs
pub mod Index
pub mod Samples
use cardingest.Base.{
  ℕ, ◌+◌, ◌*◌, Bool, true, false, Option, none, some, List, [], ◌∷◌, ◌++◌, ◌≡◌, Outcome, ok, err,
  take, length, ◌==◌, nat_eq, list_eq, if◌then◌else◌, contains, zero, suc,
}
use cardingest.Base.Int.{ℤ, pos, leb_ℤ, ◌+ℤ◌, pos_part}
use cardingest.Base.Strings.{Text, codes}

-- The status of a row, whose text is `status_text`.
pub data JobStatus : Type 0 where
  running complete failed : JobStatus

unfoldable pub status_text : JobStatus → Text
status_text running = codes "running"
status_text complete = codes "complete"
status_text failed = codes "error"

-- A row. Times are seconds since 1970.
pub record Job : Type 0 where
  pub id : ℕ
  pub slot : Text
  pub serial : Text
  pub status : JobStatus
  pub copied : ℕ
  pub deduped : ℕ
  pub skipped : ℕ
  pub erased : ℕ
  pub bytes : ℤ
  pub err_text : Text
  pub started_at : ℕ
  pub finished_at : Option ℕ

pub record Stats : Type 0 where
  pub total_jobs : ℕ
  pub complete_jobs : ℕ
  pub error_jobs : ℕ
  pub files_copied : ℕ
  pub total_bytes : ℤ

-- The two tables, and the last id given out (AUTOINCREMENT). The newest job stands first.
pub record Sqlite : Type 0 where
  pub verified_hashes : List Text
  pub jobs : List Job
  pub last_id : ℕ

-- OpenSQLite of a new file: the schema without rows.
abbrev pub open_sqlite : Sqlite
open_sqlite = record { verified_hashes = []; jobs = []; last_id = 0 }

-- Seen
unfoldable pub seen : Sqlite → Text → Bool
unfolding list_eq
seen s hash = contains s.verified_hashes hash

-- MarkVerified: INSERT OR IGNORE
unfoldable pub mark_verified : Sqlite → Text → Sqlite
unfolding list_eq
mark_verified s hash =
    if contains s.verified_hashes hash
    then s
    else record s { verified_hashes = hash ∷ s.verified_hashes }

-- StartJob: the row takes the next id and the defaults of the schema.
unfoldable pub start_job : Sqlite → Text → Text → ℕ → ℕ × Sqlite
start_job s slot serial now = (
  s.last_id + 1,
  record s {
    last_id = s.last_id + 1;
    jobs =
        record {
          id = s.last_id + 1;
          slot = slot;
          serial = serial;
          status = running;
          copied = 0;
          deduped = 0;
          skipped = 0;
          erased = 0;
          bytes = pos 0;
          err_text = [];
          started_at = now;
          finished_at = none;
        }
        ∷ s.jobs;
  },
)

-- The row with the columns that FinishJob sets.
abbrev pub finished : JobStatus → Job → ℕ → Job → Job
finished status j now row = record row {
  status = status;
  copied = j.copied;
  deduped = j.deduped;
  skipped = j.skipped;
  erased = j.erased;
  bytes = j.bytes;
  err_text = j.err_text;
  finished_at = some now;
}

unfoldable pub update_rows : ℕ → JobStatus → Job → ℕ → List Job → List Job
unfolding nat_eq
update_rows id status j now [] = []
update_rows id status j now (row ∷ rows) =
    (if row.id == id then finished status j now row else row) ∷ update_rows id status j now rows

-- FinishJob: UPDATE ... WHERE id = ?
unfoldable pub finish_job : Sqlite → ℕ → JobStatus → Job → ℕ → Sqlite
unfolding update_rows
finish_job s id status j now = record s { jobs = update_rows id status j now s.jobs }

-- ListJobs: ORDER BY id DESC, with 50 for a limit that is not positive.
unfoldable pub list_jobs : Sqlite → ℤ → List Job
list_jobs s limit = take (if leb_ℤ limit (pos 0) then 50 else pos_part limit) s.jobs

abbrev pub one_if : Bool → ℕ
one_if b = if b then 1 else 0

-- A row, onto the aggregates of the rows after it.
abbrev pub add_row : Job → Stats → Stats
add_row j st = record {
  total_jobs = st.total_jobs + 1;
  complete_jobs = st.complete_jobs + one_if (is_complete j.status);
  error_jobs = st.error_jobs + one_if (is_failed j.status);
  files_copied = st.files_copied + j.copied;
  total_bytes = st.total_bytes +ℤ j.bytes;
}
  where
    is_complete : JobStatus → Bool
    is_complete complete = true
    is_complete s = false

    is_failed : JobStatus → Bool
    is_failed failed = true
    is_failed s = false

unfoldable pub stats_of : List Job → Stats
unfolding ◌+ℤ◌
stats_of [] = record {
  total_jobs = 0;
  complete_jobs = 0;
  error_jobs = 0;
  files_copied = 0;
  total_bytes = pos 0;
}
stats_of (j ∷ rows) = add_row j (stats_of rows)

-- Stats
unfoldable pub stats : Sqlite → Stats
unfolding stats_of
stats s = stats_of s.jobs
