-- ===== src/App/Workers.antt =====
-- The workers of internal/app/app.go: at most one for each slot.
use cardingest.Base.{
  ℕ, suc, ◌+◌, ◌-◌, Bool, true, false, Option, none, some, List, [], ◌∷◌, ◌≡◌, refl, arith,
  contains, length, ◌↔◌, if◌then◌else◌, nat_eq, list_eq, ◌==◌,
}
use cardingest.Base.Maps.{Map, lookup, insert, remove, lookup-insert, lookup-remove, lookup-nil}
use cardingest.Card.{SlotName}
use cardingest.Detect.{EventType, inserted, removed}

-- The map of the workers' cancel functions, with whether each was called; the wait group; and the
-- slots of the goroutines, of those that have yet to run finishWorker, and of those that have run it
-- and have yet to tell the wait group.
pub record Workers : Type 0 where
  pub workers : Map SlotName Bool
  pub wait_group : ℕ
  pub working : List SlotName
  pub ending : List SlotName

abbrev pub no_workers : Workers
no_workers = record { workers = []; wait_group = 0; working = []; ending = [] }

abbrev pub start_in : Option Bool → SlotName → Workers → Workers
start_in (some cancelled) slot w = w
start_in none slot w = record w {
  workers = insert slot false w.workers;
  wait_group = w.wait_group + 1;
  working = slot ∷ w.working;
}

-- startWorker: a slot that is busy ignores the insert.
unfoldable pub start_worker : SlotName → Workers → Workers
start_worker slot w = start_in (lookup slot w.workers) slot w

abbrev pub stop_in : Option Bool → SlotName → Workers → Workers
stop_in none slot w = w
stop_in (some cancelled) slot w = record w { workers = insert slot true w.workers }

-- stopWorker: the entry stays until the worker is finished.
unfoldable pub stop_worker : SlotName → Workers → Workers
stop_worker slot w = stop_in (lookup slot w.workers) slot w

-- handle
unfoldable pub handle : EventType → SlotName → Workers → Workers
unfolding start_worker stop_worker
handle inserted slot w = start_worker slot w
handle removed slot w = stop_worker slot w

-- The list without the first occurrence of a slot.
unfoldable pub without : SlotName → List SlotName → List SlotName
without slot [] = []
without slot (s ∷ slots) = let rest = without slot slots in if s == slot then slots else s ∷ rest

-- finishWorker, which a goroutine runs once its ingest is over. From here on the slot is free, while
-- the goroutine is still counted.
unfoldable pub finish_worker : SlotName → Workers → Workers
unfolding without remove list_eq
finish_worker slot w = record w {
  workers = remove slot w.workers;
  working = without slot w.working;
  ending = slot ∷ w.ending;
}

-- The goroutine's deferred wg.Done, after finishWorker.
unfoldable pub worker_done : SlotName → Workers → Workers
unfolding without list_eq
worker_done slot w = record w { wait_group = w.wait_group - 1; ending = without slot w.ending }

abbrev pub all_cancelled : Map SlotName Bool → Map SlotName Bool
all_cancelled [] = []
all_cancelled ((slot, cancelled) ∷ workers) = (slot, true) ∷ all_cancelled workers

-- shutdown, up to its wait.
unfoldable pub cancel_all : Workers → Workers
cancel_all w = record w { workers = all_cancelled w.workers }

-- The steps of the orchestrator and its workers, in any order.
pub data Step : Workers → Workers → Type 0 where
  event : (e : EventType) (slot : SlotName) (w : Workers) → Step w (handle e slot w)
  finish :
      (slot : SlotName) (w : Workers)
      → contains w.working slot ≡ true
      → Step w (finish_worker slot w)
  done :
      (slot : SlotName) (w : Workers) → contains w.ending slot ≡ true → Step w (worker_done slot w)
  shutdown : (w : Workers) → Step w (cancel_all w)

pub data Reachable : Workers → Type 0 where
  start : Reachable no_workers
  next : {w w' : Workers} → Reachable w → Step w w' → Reachable w'

-- No slot is listed twice.
abbrev pub IsDistinct : List SlotName → Type 0
IsDistinct [] = Unit
IsDistinct (s ∷ slots) = (contains slots s ≡ false) × IsDistinct slots

abbrev pub is_some : Option Bool → Bool
is_some none = false
is_some (some b) = true

-- One goroutine at work for each entry of the map, and no other; and every goroutine counted.
pub record IsMatched (w : Workers) : Type 0 where
  pub distinct : IsDistinct w.working
  pub busy : (s : SlotName) → contains w.working s ≡ is_some (lookup s w.workers)
  pub counted : w.wait_group ≡ length w.working + length w.ending

start_in-IsMatched :
    (slot : SlotName) (o : Option Bool) (w : Workers)
    → lookup slot w.workers ≡ o
    → IsMatched w
    → IsMatched (start_in o slot w)
start_in-IsMatched slot (some c) w found h = h
start_in-IsMatched slot none w found h = record {
  distinct = (ground (arith, h.busy slot), h.distinct);
  busy = λ s. ground (arith, h.busy s, lookup-insert s slot false w.workers);
  counted = omega (arith, h.counted);
}

stop_in-IsMatched :
    (slot : SlotName) (o : Option Bool) (w : Workers)
    → lookup slot w.workers ≡ o
    → IsMatched w
    → IsMatched (stop_in o slot w)
stop_in-IsMatched slot none w found h = h
stop_in-IsMatched slot (some c) w found h = record {
  distinct = h.distinct;
  busy = λ s. ground (arith, h.busy s, lookup-insert s slot true w.workers);
  counted = h.counted;
}

contains-without :
    (s slot : SlotName) (slots : List SlotName)
    → IsDistinct slots
    → contains (without slot slots) s ≡ (if s == slot then false else contains slots s)
unfolding without
contains-without s slot [] h = ground arith
contains-without s slot (t ∷ slots) h = ground (arith, contains-without s slot slots h.1)

without-IsDistinct :
    (slot : SlotName) (slots : List SlotName) → IsDistinct slots → IsDistinct (without slot slots)
unfolding without
without-IsDistinct slot [] h = tt
without-IsDistinct slot (t ∷ slots) h =
    ground (arith, without-IsDistinct slot slots h.1, contains-without t slot slots h.1)

length-without :
    (slot : SlotName) (slots : List SlotName)
    → contains slots slot ≡ true
    → length slots ≡ suc (length (without slot slots))
unfolding without
length-without slot [] h = cc
length-without slot (t ∷ slots) h = ground (arith, length-without slot slots)

finish-IsMatched :
    (slot : SlotName) (w : Workers)
    → contains w.working slot ≡ true
    → IsMatched w
    → IsMatched (finish_worker slot w)
unfolding finish_worker
finish-IsMatched slot w live h = record {
  distinct = without-IsDistinct slot w.working h.distinct;
  busy = λ s. ground (
    arith,
    h.busy s,
    contains-without s slot w.working h.distinct,
    lookup-remove s slot w.workers,
  );
  counted = omega (arith, h.counted, length-without slot w.working live);
}

done-IsMatched :
    (slot : SlotName) (w : Workers)
    → contains w.ending slot ≡ true
    → IsMatched w
    → IsMatched (worker_done slot w)
unfolding worker_done
done-IsMatched slot w over h = record {
  distinct = h.distinct;
  busy = h.busy;
  counted = omega (arith, h.counted, length-without slot w.ending over);
}

lookup-all_cancelled :
    (s : SlotName) (workers : Map SlotName Bool)
    → is_some (lookup s (all_cancelled workers)) ≡ is_some (lookup s workers)
unfolding lookup
lookup-all_cancelled s [] = refl
lookup-all_cancelled s ((slot, c) ∷ workers) = ground (arith, lookup-all_cancelled s workers)

step-IsMatched : {w w' : Workers} → Step w w' → IsMatched w → IsMatched w'
unfolding handle start_worker stop_worker cancel_all
step-IsMatched (event inserted slot w) h = start_in-IsMatched slot (lookup slot w.workers) w refl h
step-IsMatched (event removed slot w) h = stop_in-IsMatched slot (lookup slot w.workers) w refl h
step-IsMatched (finish slot w live) h = finish-IsMatched slot w live h
step-IsMatched (done slot w over) h = done-IsMatched slot w over h
step-IsMatched (shutdown w) h = record {
  distinct = h.distinct;
  busy = λ s. ground (arith, h.busy s, lookup-all_cancelled s w.workers);
  counted = h.counted;
}

reached : {w : Workers} → Reachable w → IsMatched w
reached start = record {
  distinct = tt;
  busy = λ s. ground (arith, lookup-nil {V = Bool} s);
  counted = refl;
}
reached (next r s) = step-IsMatched s (reached r)

counts_none :
    (n : ℕ) (working ending : List SlotName)
    → n ≡ length working + length ending
    → (n ≡ 0) ↔ ((working ≡ []) × (ending ≡ []))
counts_none n [] [] h = (λ z. (refl, refl), λ e. h)
counts_none n [] (s ∷ ending) h = (λ z. absurd (omega (arith, h, z)), λ e. cc)
counts_none n (s ∷ working) ending h = (λ z. absurd (omega (arith, h, z)), λ e. cc)

-- In every state that events, the two ends of a goroutine and a shutdown can lead to, in any order:
-- no slot has two workers at work, that is before finishWorker; a slot has one at work exactly if it is
-- in the map of workers; and the wait group counts the goroutines at work and those that have finished
-- and have yet to tell it, so that it is zero exactly if there is no goroutine of either kind.
pub reachable-IsMatched :
    {w : Workers}
    → Reachable w
    → IsMatched w × ((w.wait_group ≡ 0) ↔ ((w.working ≡ []) × (w.ending ≡ [])))
reachable-IsMatched r = let h = reached r in (h, counts_none _ _ _ h.counted)
