-- ===== src/App/History/Lives.antt =====
-- The life of a card in internal/app/app.go is to the job history one start and one finish.
use cardingest.Base.{ℕ, ◌+◌, ◌≡◌, ◌≢◌, refl, sym, ap, none, List, [], ◌∷◌, arith, true, ok}
use cardingest.Base.Threads.{run}
use cardingest.Card.{SlotName, DeviceInfo}
use cardingest.Store.{Sqlite, running, start_job}
use cardingest.App.{Outside, AppConfig, Call}
use cardingest.App.Lifecycle.{ingest_card}
use cardingest.App.History.{steps_of, row_of, replay}
use cardingest.App.History.Closed.{ingest_card-IsClosed}
use cardingest.App.History.Shared.{Life, lives_steps}

module _ (O : Outside) (a : AppConfig) (recorded : a.has_jobs ≡ true)
    (finishes : (c : List Call) → O.finish_job c ≡ none) where
  -- What the life of a card does to the database is what one `Life` with the card's serial and a status
  -- that is final does.
  pub ingest_card-Life :
      (slot : SlotName) (dev : DeviceInfo) (s : Sqlite) (now later : ℕ)
      → O.start_job [] ≡ ok (s.last_id + 1)
      → (l : Life) × (l.serial ≡ dev.serial)
        × (l.status ≢ running)
        × ((run (lives_steps slot (l ∷ [])) s).1
            ≡ replay s now later
                (steps_of (ingest_card O a slot dev (record { calls = []; statuses = [] })).calls))
  unfolding replay lives_steps run start_job
  ingest_card-Life slot dev s now later answered =
      let (status, j, over, e) =
        ingest_card-IsClosed O a recorded finishes slot dev (s.last_id + 1) (omega arith)
          answered in
      (
        record {
          serial = dev.serial;
          begun = now;
          status = status;
          counts = row_of j;
          ended = later;
        },
        refl,
        over,
        ap (replay s now later) (sym e),
      )
