-- ===== src/App/Loop/Samples.antt =====
-- The orchestrator's loop over a card that is changed at once for another.
use cardingest.Base.{false, some, List, [], ◌∷◌, ◌≡◌, refl, list_eq}
use cardingest.Base.{nat_eq, take}
use cardingest.Base.Maps.{lookup, insert, remove}
use cardingest.Base.Strings.{codes}
use cardingest.Card.{SlotName}
use cardingest.Detect.{Event, removed}
use cardingest.Detect.Tracker.{new_tracker, reconcile}
use cardingest.Detect.Poll.{run}
use cardingest.Detect.Samples.{polls, one_map, one_map'}
use cardingest.App.Workers.{handle, start_worker, stop_worker, finish_worker, without}
use cardingest.App.Loop.{Loop, received, finished, run_loop, started}
use cardingest.App.Loop.{run_loop-next}

abbrev reader : SlotName
reader = codes "1.1"

abbrev at_start : Loop
at_start = started (take 3 (run new_tracker polls).0)

-- The second card is put in while the cancelled worker of the first is at work: when that worker
-- has finished, none is at work for the card that is in the reader.
lost_run :
    (run_loop (received ∷ received ∷ received ∷ finished reader ∷ []) at_start).workers.working ≡ []
unfolding run_loop run reconcile handle start_worker stop_worker finish_worker without lookup insert
    remove list_eq nat_eq
lost_run = refl

-- Where the first worker finishes before the second card is put in, that card has its worker.
in_time_run :
    lookup reader
      (run_loop (received ∷ received ∷ finished reader ∷ received ∷ []) at_start).workers.workers
    ≡ some false
unfolding run_loop run reconcile handle start_worker stop_worker finish_worker without lookup insert
    remove list_eq nat_eq
in_time_run = refl

first_live : lookup reader (run_loop (received ∷ []) at_start).workers.workers ≡ some false
unfolding run_loop run reconcile handle start_worker stop_worker lookup insert remove list_eq nat_eq
first_live = refl

run_loop-next_example :
    let l = run_loop (received ∷ []) at_start in
    (l.left ≡ false)
    × ((e : Event) (rest : List Event) → l.events ≡ e ∷ rest → e.slot ≡ reader → e.type ≡ removed)
run_loop-next_example =
    run_loop-next 3 polls (one_map, (tt, (one_map, (one_map', (one_map', tt))))) (received ∷ [])
      reader first_live
