-- ===== src/Store/Jobs.antt =====
-- The history of jobs of internal/store/jobs.go: its order, and what a job leaves in it.
use cardingest.Base.{ℕ, ◌+◌, ◌≤◌, ◌<◌, some, List, [], ◌∷◌, ◌≡◌, refl, arith, nat_eq}
use cardingest.Base.Int.{◌+ℤ◌}
use cardingest.Base.Strings.{Text}
use cardingest.Store.{
  Job, JobStatus, Sqlite, complete, failed, start_job, finish_job, update_rows, stats, stats_of,
}

-- The rows have ids below the bound, the newest and greatest first.
abbrev pub IsDescending : ℕ → List Job → Type 0
IsDescending bound [] = Unit
IsDescending bound (row ∷ rows) = (row.id < bound) × IsDescending row.id rows

-- No row has an id that is still to be given out, and the newest stands first.
pub record IsOrdered (s : Sqlite) : Type 0 where
  pub rows : IsDescending (s.last_id + 1) s.jobs

pub IsDescending-up :
    (m n : ℕ) (rows : List Job) → m ≤ n → IsDescending m rows → IsDescending n rows
IsDescending-up m n [] l h = tt
IsDescending-up m n (row ∷ rows) l h = (omega (arith, h.0), h.1)

pub start_job-IsOrdered :
    (s : Sqlite) (slot serial : Text) (now : ℕ)
    → IsOrdered s
    → IsOrdered (start_job s slot serial now).1
unfolding start_job
start_job-IsOrdered s slot serial now h = record { rows = (omega arith, h.rows) }

update_rows-IsDescending :
    (bound id : ℕ) (status : JobStatus) (j : Job) (now : ℕ) (rows : List Job)
    → IsDescending bound rows
    → IsDescending bound (update_rows id status j now rows)
unfolding update_rows
update_rows-IsDescending bound id status j now [] h = tt
update_rows-IsDescending bound id status j now (row ∷ rows) h =
    ground (arith, update_rows-IsDescending row.id id status j now rows h.1)

pub finish_job-IsOrdered :
    (s : Sqlite) (id : ℕ) (status : JobStatus) (j : Job) (now : ℕ)
    → IsOrdered s
    → IsOrdered (finish_job s id status j now)
unfolding finish_job
finish_job-IsOrdered s id status j now h = record {
  rows = update_rows-IsDescending (s.last_id + 1) id status j now s.jobs h.rows;
}

-- Rows with lower ids are left alone.
pub update_rows-above :
    (bound id : ℕ) (status : JobStatus) (j : Job) (now : ℕ) (rows : List Job)
    → bound ≤ id
    → IsDescending bound rows
    → update_rows id status j now rows ≡ rows
unfolding update_rows
update_rows-above bound id status j now [] l h = refl
update_rows-above bound id status j now (row ∷ rows) l h =
    ground (arith, update_rows-above row.id id status j now rows (omega (arith, h.0)) h.1)

-- A call of the history.
pub data Call : Type 0 where
  start : Text → Text → ℕ → Call
  finish : ℕ → JobStatus → Job → ℕ → Call

unfoldable pub serve : Sqlite → Call → Sqlite
unfolding start_job finish_job
serve s (start slot serial now) = (start_job s slot serial now).1
serve s (finish id status j now) = finish_job s id status j now

unfoldable pub serve_all : Sqlite → List Call → Sqlite
unfolding serve
serve_all s [] = s
serve_all s (c ∷ calls) = serve_all (serve s c) calls

-- Whatever jobs are started and finished, and in whatever order, the history stays ordered: each id
-- is given out once, and `ListJobs` lists the newest job first.
serve_all-IsOrdered : (s : Sqlite) (calls : List Call) → IsOrdered s → IsOrdered (serve_all s calls)
unfolding serve_all serve
serve_all-IsOrdered s [] h = h
serve_all-IsOrdered s (start slot serial now ∷ calls) h =
    serve_all-IsOrdered (start_job s slot serial now).1 calls
      (start_job-IsOrdered s slot serial now h)
serve_all-IsOrdered s (finish id status j now ∷ calls) h =
    serve_all-IsOrdered (finish_job s id status j now) calls
      (finish_job-IsOrdered s id status j now h)

-- A job that is started and then finished under its id becomes the newest of the history, with the
-- slot and serial of its start and the status and counts of its end; the other jobs are as before.
pub finish_job-start_job :
    (s : Sqlite) (slot serial : Text) (now later : ℕ) (status : JobStatus) (j : Job)
    → IsOrdered s
    → let (id, started) = start_job s slot serial now in
      (finish_job started id status j later).jobs
      ≡ record j {
        id = id;
        slot = slot;
        serial = serial;
        status = status;
        started_at = now;
        finished_at = some later;
      }
        ∷ s.jobs
unfolding start_job finish_job update_rows
finish_job-start_job s slot serial now later status j h = ground (
  arith,
  update_rows-above (s.last_id + 1) (s.last_id + 1) status j later s.jobs (omega arith) h.rows,
)

-- How the aggregates of `Stats` change by a job that is started and then finished.
stats-finish_job :
    (s : Sqlite) (slot serial : Text) (now later : ℕ) (j : Job)
    → IsOrdered s
    → let (id, started) = start_job s slot serial now in
      let done = stats (finish_job started id complete j later) in
      let broken = stats (finish_job started id failed j later) in
      (done.total_jobs ≡ (stats s).total_jobs + 1)
      × (broken.total_jobs ≡ (stats s).total_jobs + 1)
      × (done.complete_jobs ≡ (stats s).complete_jobs + 1)
      × (broken.complete_jobs ≡ (stats s).complete_jobs)
      × (done.error_jobs ≡ (stats s).error_jobs)
      × (broken.error_jobs ≡ (stats s).error_jobs + 1)
      × (done.files_copied ≡ (stats s).files_copied + j.copied)
      × (done.total_bytes ≡ (stats s).total_bytes +ℤ j.bytes)
unfolding stats stats_of
stats-finish_job s slot serial now later j h =
    rw
      (
        finish_job-start_job s slot serial now later complete j h,
        finish_job-start_job s slot serial now later failed j h,
      )
      (ground arith)
