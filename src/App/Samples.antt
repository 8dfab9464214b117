-- ===== src/App/Samples.antt =====
-- Runs of the orchestrator, and its theorems at concrete cards.
use cardingest.Base.{
  All, ℕ, true, false, Option, none, some, List, [], ◌∷◌, ◌≡◌, ◌≢◌, ◌↔◌, refl, ok, nat_eq, list_eq,
}
use cardingest.Base.Int.{pos}
use cardingest.Base.Maps.{lookup, insert, remove}
use cardingest.Base.Strings.{Text, codes, join_path, decimal}
use cardingest.Card.{SlotName, DeviceInfo}
use cardingest.Detect.{inserted, removed}
use cardingest.Pipeline.Ingest.{Report, empty_report}
use cardingest.Pipeline
use cardingest.Pipeline.Memory.{memory-IsLawful, hashes-IsLawful}
use cardingest.Pipeline.Samples.{
  env, deps, start as begin, small, first, thumbnail, small_scan, start-IndexBacked, small-AllFree,
}
use cardingest.Store
use cardingest.Store.{JobStatus, running}
use cardingest.Store.Jobs.{IsOrdered}
use cardingest.App.History.{steps_of, row_of, replay}
use cardingest.App.History.Closed.{replay-ingest_card}
use cardingest.App
use cardingest.App.EndToEnd.{ErasesOnly, IsCopied, ingest_card-IsCopied}
use cardingest.App.{ErasePolicy, JobCounts, Call, Outside, AppConfig, World}
use cardingest.App.Lifecycle.{
  to_erase, complete_message, publish, set_status, emit, emit_error, start_job, finish_job,
  fail_job, teardown, complete_job, erase_card, settle, process, ingest_card,
}
use cardingest.App.Protocol.{away, Obeys, ingest_card-Obeys}
use cardingest.App.Workers.{
  Workers, no_workers, handle, start_worker, stop_worker, finish_worker, without, Reachable, start,
  next, event, finish, IsMatched, reachable-IsMatched,
}

abbrev policy : ErasePolicy
policy = record { erase_ingested = true; erase_skipped = false; eject_when_done = true }

abbrev pub config : AppConfig
config = record { mount_root = codes "/mnt"; policy = policy; has_hub = false; has_jobs = true }

abbrev report : Report
report = record empty_report {
  copied = 1;
  skipped = 1;
  verified = codes "a" ∷ [];
  skipped_path = codes "b" ∷ [];
}

-- Everything goes well, except that Erase answers as given.
abbrev pub outside : Option Text → Outside
outside answer = record {
  start_job = λ c. ok 7;
  finish_job = λ c. none;
  notify = λ c. none;
  mount = λ c. none;
  unmount = λ c. none;
  eject = λ c. none;
  ingest = λ c. (report, none);
  remount = λ c. none;
  erase = λ c. answer;
  sync = λ c. none;
  elapsed = λ c. pos 5;
}

abbrev pub device : DeviceInfo
device = record {
  dev_path = codes "/dev/sdb";
  by_path = codes "p";
  serial = codes "S1";
  vendor_id = codes "05e3";
  product_id = codes "0749";
  size_bytes = 512;
}

abbrev fresh : World
fresh = record { calls = []; statuses = [] }

-- The number of files erased, as recorded.
recorded : List Call → List ℕ
recorded [] = []
recorded (App.Call.finish_job id status j answer ∷ calls) = j.erased ∷ recorded calls
recorded (c ∷ calls) = recorded calls

life : Option Text → World
unfolding ingest_card start_job set_status publish emit process teardown fail_job join_path settle
    complete_job erase_card to_erase complete_message finish_job emit_error insert list_eq nat_eq
    decimal
life answer = ingest_card (outside answer) config (codes "1.1") device fresh

-- The one verified file is recorded as erased, also where the erase failed.
erased_run :
    (recorded (life none).calls ≡ 1 ∷ []) × (recorded (life (some (codes "io"))).calls ≡ 1 ∷ [])
unfolding recorded life
erased_run = (refl, refl)

ingest_card-Obeys_example :
    Obeys policy away (ingest_card (outside none) config (codes "1.1") device fresh).calls
ingest_card-Obeys_example = ingest_card-Obeys (outside none) config (codes "1.1") device fresh refl

abbrev a : SlotName
a = codes "1.1"

abbrev replugged : Workers
replugged = handle inserted a (handle removed a (handle inserted a no_workers))

-- A card that is put in while the cancelled worker of its slot is still at work starts none, and
-- once that worker has finished the slot has none at work.
replug_run : (replugged.wait_group ≡ 1) × ((finish_worker a replugged).working ≡ [])
unfolding handle start_worker stop_worker finish_worker without lookup insert remove list_eq nat_eq
replug_run = (refl, refl)

-- A card that is put in after finishWorker and before the wait group is told: two goroutines of the
-- slot, of which one is at work.
abbrev between : Workers
between = handle inserted a (finish_worker a (handle inserted a no_workers))

between_run : (between.working ≡ a ∷ []) × (between.ending ≡ a ∷ []) × (between.wait_group ≡ 2)
unfolding handle start_worker finish_worker without lookup insert remove list_eq nat_eq
between_run = (refl, refl, refl)

between_reached : Reachable between
unfolding handle start_worker lookup insert list_eq nat_eq
between_reached =
    let first = next start (event inserted a no_workers) in
    next (next first (finish a _ refl)) (event inserted a _)

reachable-IsMatched_example :
    IsMatched between
    × ((between.wait_group ≡ 0) ↔ ((between.working ≡ []) × (between.ending ≡ [])))
reachable-IsMatched_example = reachable-IsMatched between_reached

-- The orchestrator over the pipeline, on a card with one picture and one thumbnail.
abbrev over_pipeline : Outside
over_pipeline = record (outside none) {
  ingest = λ c. ((Pipeline.Ingest.ingest env deps small (λ i. none) begin).1, none);
}

ingest_card-IsCopied_example :
    let w' = (Pipeline.Ingest.ingest env deps small (λ i. none) begin).2 in
    All
      (ErasesOnly (IsCopied env deps small w'))
      (ingest_card over_pipeline config small.slot device
        (record { calls = []; statuses = [] })).calls
ingest_card-IsCopied_example =
    ingest_card-IsCopied env memory-IsLawful hashes-IsLawful deps small (λ i. none) begin
      (first ∷ thumbnail ∷ []) over_pipeline config device small_scan start-IndexBacked
      small-AllFree (λ c. refl) refl

-- An ingest that fails, with a recorder whose first job is the first of the database.
abbrev failing : Outside
failing = record (outside none) {
  start_job = λ c. ok 1;
  ingest = λ c. (report, some (codes "card removed"));
}

no_jobs-IsOrdered : IsOrdered Store.open_sqlite
no_jobs-IsOrdered = record { rows = tt }

replay-ingest_card_example :
    let steps =
      steps_of
        (ingest_card failing config
          (codes "1.1")
          device
          (record { calls = []; statuses = [] })).calls in
    (status : JobStatus) × (j : JobCounts) × (status ≢ running)
    × ((replay Store.open_sqlite 100 160 steps).jobs
        ≡ record (row_of j) {
          id = 1;
          slot = codes "1.1";
          serial = device.serial;
          status = status;
          started_at = 100;
          finished_at = some 160;
        }
          ∷ [])
replay-ingest_card_example =
    replay-ingest_card failing config refl (λ c. refl) (codes "1.1") device Store.open_sqlite 100
      160 no_jobs-IsOrdered refl
