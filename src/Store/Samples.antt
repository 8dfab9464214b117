-- ===== src/Store/Samples.antt =====
-- Runs of the database, and its theorems at concrete jobs.
use cardingest.Base.{none, List, [], ◌∷◌, ◌≡◌, refl, map, list_eq, nat_eq}
use cardingest.Base.Int.{pos, ◌+ℤ◌}
use cardingest.Base.Strings.{codes}
use cardingest.Store.{
  Job, open_sqlite, running, complete, failed, start_job, finish_job, update_rows, list_jobs, stats,
  stats_of,
}
use cardingest.Store.Jobs.{IsOrdered, Call, start, finish, serve, serve_all}

abbrev pub counts : Job
counts = record {
  id = 0;
  slot = [];
  serial = [];
  status = running;
  copied = 3;
  deduped = 1;
  skipped = 0;
  erased = 4;
  bytes = pos 700;
  err_text = [];
  started_at = 0;
  finished_at = none;
}

abbrev calls : List Call
calls =
    start (codes "A") (codes "S1") 10
    ∷ start (codes "B") (codes "S2") 11
    ∷ finish 1 complete counts 20
    ∷ finish 2 failed counts 21
    ∷ []

-- The newest job is listed first, and a limit of zero stands for 50.
list_run :
    (map (λ (j : Job). j.id) (list_jobs (serve_all open_sqlite calls) (pos 0)) ≡ 2 ∷ 1 ∷ [])
    × (map (λ (j : Job). j.slot) (list_jobs (serve_all open_sqlite calls) (pos 1)) ≡ codes "B" ∷ [])
    × ((stats (serve_all open_sqlite calls)).files_copied ≡ 6)
unfolding list_jobs serve_all serve start_job finish_job update_rows stats stats_of nat_eq ◌+ℤ◌
list_run = (refl, refl, refl)

pub empty-IsOrdered : IsOrdered open_sqlite
empty-IsOrdered = record { rows = tt }
