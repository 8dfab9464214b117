-- ===== src/App/Loop.antt =====
-- The loop of `Run` in internal/app/app.go, over the events of a detector's watch, while workers end
-- at times of their own.
pub mod Samples
use mathlib.Core.Path.{subst}
use cardingest.Base.{
  ℕ, ◌⊎◌, Bool, true, false, Option, none, some, List, [], ◌∷◌, ◌≡◌, ◌≢◌, refl, arith,
}
use cardingest.Base.{contains, if◌then◌else◌, nat_eq, list_eq, ◌==◌, take, All, sym, ◌∙◌}
use cardingest.Base.{Bool-cases, inl, inr}
use cardingest.Base.Maps.{Map, lookup, insert, remove, lookup-insert, lookup-remove, lookup-nil}
use cardingest.Card.{SlotName, DeviceInfo}
use cardingest.Detect.{Event, EventType, Snapshot, inserted, removed}
use cardingest.Detect.Trace.{Leads, CanFollow, after}
use cardingest.Detect.Tracker.{new_tracker}
use cardingest.Detect.Poll.{Poll, IsMap, run, watch-Leads}
use cardingest.App.Workers.{
  Workers, no_workers, handle, start_worker, stop_worker, start_in, stop_in,
}
use cardingest.App.Workers.{finish_worker, worker_done, cancel_all, all_cancelled}

-- What happens next: the context is cancelled, the channel of events is read, or a worker's goroutine
-- runs finishWorker or tells the wait group.
pub data LoopTurn : Type 0 where
  cancelled received : LoopTurn
  finished told : SlotName → LoopTurn

-- The events that the channel has yet to deliver before it is closed, the workers, and whether the
-- loop has been left.
pub record Loop : Type 0 where
  pub events : List Event
  pub workers : Workers
  pub left : Bool

-- shutdown, after which Run only waits.
abbrev pub leave : Loop → Loop
leave l = record l { workers = cancel_all l.workers; left = true }

-- A receive from the channel, which is closed after the last event.
abbrev pub receive : List Event → Loop → Loop
receive [] l = leave l
receive (e ∷ events) l = record l { events = events; workers = handle e.type e.slot l.workers }

unfoldable pub take_turn : LoopTurn → Loop → Loop
take_turn cancelled l = if l.left then l else leave l
take_turn received l = if l.left then l else receive l.events l
take_turn (finished slot) l =
    if contains l.workers.working slot
    then record l { workers = finish_worker slot l.workers }
    else l
take_turn (told slot) l =
    if contains l.workers.ending slot then record l { workers = worker_done slot l.workers } else l

-- Run, as far as these turns.
unfoldable pub run_loop : List LoopTurn → Loop → Loop
unfolding take_turn
run_loop [] l = l
run_loop (t ∷ turns) l = run_loop turns (take_turn t l)

-- Run at its start, with the events that Watch is going to send.
abbrev pub started : List Event → Loop
started events = record { events = events; workers = no_workers; left = false }

-- The cards that are in the reader by the events read so far. A worker that is not cancelled has its
-- card there, and the loop is still running.
record IsFollowed (l : Loop) : Type 0 where
  present : Snapshot
  at_last : Snapshot
  leads : Leads present l.events at_last
  live :
      (slot : SlotName)
      → lookup slot l.workers.workers ≡ some false
      → (l.left ≡ false) × (lookup slot present ≢ none)

lookup-all_cancelled :
    (s : SlotName) (m : Map SlotName Bool) → lookup s (all_cancelled m) ≢ some false
unfolding lookup
lookup-all_cancelled s [] h = cc
lookup-all_cancelled s ((slot, c) ∷ m) h = ground (arith, lookup-all_cancelled s m)

leave-IsFollowed : (l : Loop) → IsFollowed l → IsFollowed (leave l)
unfolding cancel_all
leave-IsFollowed l f = record {
  present = f.present;
  at_last = f.at_last;
  leads = f.leads;
  live = λ s h. absurd (lookup-all_cancelled s l.workers.workers h);
}

started_live :
    (s slot : SlotName) (o : Option Bool) (w : Workers)
    → lookup slot w.workers ≡ o
    → (s == slot) ≡ false
    → lookup s (start_in o slot w).workers ≡ lookup s w.workers
started_live s slot (some c) w found apart = refl
started_live s slot none w found apart = ground (arith, lookup-insert s slot false w.workers)

stopped_live :
    (s slot : SlotName) (o : Option Bool) (w : Workers)
    → lookup slot w.workers ≡ o
    → lookup s (stop_in o slot w).workers ≡ some false
    → ((s == slot) ≡ false) × (lookup s w.workers ≡ some false)
stopped_live s slot none w found h = (ground arith, h)
stopped_live s slot (some c) w found h = (
  ground (arith, lookup-insert s slot true w.workers),
  ground (arith, lookup-insert s slot true w.workers),
)

-- An event keeps the cards of the live workers in the reader.
handle-live :
    (e : Event) (present : Snapshot) (w : Workers)
    → ((s : SlotName) → lookup s w.workers ≡ some false → lookup s present ≢ none)
    → (s : SlotName) → lookup s (handle e.type e.slot w).workers ≡ some false
    → lookup s (after present e) ≢ none
unfolding handle start_worker stop_worker
handle-live e present w live s h = go e.type h (Bool-cases (s == e.slot))
  where
    go :
        (type : EventType)
        → lookup s (handle type e.slot w).workers ≡ some false
        → ((s == e.slot) ≡ true) ⊎ ((s == e.slot) ≡ false)
        → lookup s (after present (record e { type = type })) ≢ none
    go inserted k (inl same) = ground (arith, lookup-insert s e.slot e.device present)
    go inserted k (inr apart) = ground (
      arith,
      lookup-insert s e.slot e.device present,
      started_live s e.slot (lookup e.slot w.workers) w refl apart,
      live s,
    )
    go removed k c =
        let (apart, alive) = stopped_live s e.slot (lookup e.slot w.workers) w refl k in
        ground (arith, lookup-remove s e.slot present, live s alive)

receive-IsFollowed :
    (events : List Event) (l : Loop)
    → l.events ≡ events
    → l.left ≡ false
    → IsFollowed l
    → IsFollowed (receive events l)
receive-IsFollowed [] l is on f = leave-IsFollowed l f
receive-IsFollowed (e ∷ events) l is on f =
    let leads = subst (λ es. Leads f.present es f.at_last) is f.leads in
    record {
      present = after f.present e;
      at_last = f.at_last;
      leads = leads.1;
      live = λ s h. (on, handle-live e f.present l.workers (λ j k. (f.live j k).1) s h);
    }

told-IsFollowed :
    (slot : SlotName) (l : Loop)
    → IsFollowed l
    → IsFollowed (record l { workers = worker_done slot l.workers })
unfolding worker_done
told-IsFollowed slot l f = record {
  present = f.present;
  at_last = f.at_last;
  leads = f.leads;
  live = f.live;
}

finished-IsFollowed :
    (slot : SlotName) (l : Loop)
    → IsFollowed l
    → IsFollowed (record l { workers = finish_worker slot l.workers })
unfolding finish_worker
finished-IsFollowed slot l f = record {
  present = f.present;
  at_last = f.at_last;
  leads = f.leads;
  live = λ s h. f.live s (ground (arith, lookup-remove s slot l.workers.workers));
}

IsFollowed-if :
    (b : Bool) (l l' : Loop)
    → IsFollowed l
    → (b ≡ false → IsFollowed l')
    → IsFollowed (if b then l else l')
IsFollowed-if true l l' f g = f
IsFollowed-if false l l' f g = g refl

take_turn-IsFollowed : (t : LoopTurn) (l : Loop) → IsFollowed l → IsFollowed (take_turn t l)
unfolding take_turn
take_turn-IsFollowed cancelled l f = IsFollowed-if l.left l (leave l) f λ _. leave-IsFollowed l f
take_turn-IsFollowed received l f =
    IsFollowed-if l.left l (receive l.events l) f λ on. receive-IsFollowed l.events l refl on f
take_turn-IsFollowed (finished slot) l f =
    IsFollowed-if (contains l.workers.working slot) _ l (finished-IsFollowed slot l f) λ _. f
take_turn-IsFollowed (told slot) l f =
    IsFollowed-if (contains l.workers.ending slot) _ l (told-IsFollowed slot l f) λ _. f

run_loop-IsFollowed :
    (turns : List LoopTurn) (l : Loop) → IsFollowed l → IsFollowed (run_loop turns l)
unfolding run_loop
run_loop-IsFollowed [] l f = f
run_loop-IsFollowed (t ∷ turns) l f =
    run_loop-IsFollowed turns (take_turn t l) (take_turn-IsFollowed t l f)

next_removes :
    (l : Loop) (slot : SlotName) (e : Event) (rest : List Event)
    → IsFollowed l
    → lookup slot l.workers.workers ≡ some false
    → l.events ≡ e ∷ rest
    → e.slot ≡ slot
    → e.type ≡ removed
next_removes l slot e rest f h is same =
    go e.type refl (subst (λ es. Leads f.present es f.at_last) is f.leads).0
  where
    go :
        (type : EventType)
        → e.type ≡ type
        → CanFollow f.present (record e { type = type })
        → e.type ≡ removed
    go removed k c = k
    go inserted k c = absurd ((f.live slot h).1 (subst (λ s. lookup s f.present ≡ none) same c))

-- The orchestrator reads the events of a detector's watch, cut off anywhere, whatever the polls find,
-- while workers end and the context is cancelled at any time. A worker that is there and has not been
-- cancelled: then the loop is still running, and if an event of its slot is the next, that is the
-- removal of the card. An insert is thus ignored only while the cancelled worker of the slot's
-- previous card is still at work, and once Run waits for the workers, all of them are cancelled.
pub run_loop-next :
    (n : ℕ) (polls : List Poll)
    → All IsMap polls
    → (turns : List LoopTurn) (slot : SlotName)
    → let l = run_loop turns (started (take n (run new_tracker polls).0)) in
      lookup slot l.workers.workers ≡ some false
      → (l.left ≡ false)
        × ((e : Event) (rest : List Event) → l.events ≡ e ∷ rest → e.slot ≡ slot → e.type ≡ removed)
run_loop-next n polls maps turns slot h =
    let (m, leads) = watch-Leads n polls maps in
    let f = run_loop-IsFollowed turns (started (take n (run new_tracker polls).0)) (record {
      present = [];
      at_last = m;
      leads = leads;
      live = λ s k. absurd (ground (arith, lookup-nil {V = Bool} s));
    }) in
    ((f.live slot h).0, λ e rest. next_removes _ slot e rest f h)
