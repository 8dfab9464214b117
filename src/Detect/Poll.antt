-- ===== src/Detect/Poll.antt =====
-- The poll loop of internal/detect/poll.go: one call of `enumerate` for each tick. The stream that a
-- watcher gets may be cut off at any event, when the context is cancelled.
use cardingest.Base.{
  ℕ, zero, suc, Bool, true, false, List, [], ◌∷◌, ◌++◌, refl, Outcome, ok, err, arith,
}
use cardingest.Base.{take, All, if◌then◌else◌, list_eq, nat_eq}
use cardingest.Base.Int.{ℤ}
use cardingest.Base.Maps.{NodupKeys, remove-NodupKeys, insert-NodupKeys}
use cardingest.Base.Strings.{Text}
use cardingest.Card.{SlotName, DeviceInfo, Time}
use cardingest.Detect.{Event, Snapshot, Config, DetectError, already_watching}
use cardingest.Detect.Tracker.{
  Tracker, Scan, new_tracker, removal, removals, insertion, insertions, reconcile,
}
use cardingest.Detect.Trace.{Leads, after, Leads-append, reconcile-Leads}

pub record PollDetector : Type 0 where
  pub interval : ℤ
  pub watching : Bool

-- newPollDetector
abbrev pub new_poll_detector : Config → PollDetector
new_poll_detector cfg = record { interval = cfg.poll_interval; watching = false }

-- Watch
abbrev pub poll_watch : PollDetector → Outcome DetectError PollDetector
poll_watch d = if d.watching then err already_watching else ok (record d { watching = true })

-- What a tick finds, and its time.
abbrev pub Poll : Type 0
Poll = Outcome Text Snapshot × Time

-- A tick: an error of the enumeration is passed over.
unfoldable pub tick : Tracker → Poll → List Event × Tracker
unfolding reconcile
tick t (err cause, now) = ([], t)
tick t (ok snap, now) = reconcile t snap now

-- run: the events of all ticks, and the tracker at the end.
unfoldable pub run : Tracker → List Poll → List Event × Tracker
unfolding tick
run t [] = ([], t)
run t (poll ∷ polls) =
    let (events, t') = tick t poll in let (later, t'') = run t' polls in (events ++ later, t'')

-- The snapshots are Go maps.
abbrev pub IsMap : Poll → Type 0
IsMap (err cause, now) = Unit
IsMap (ok snap, now) = NodupKeys snap

removals-NodupKeys :
    (snap : Snapshot) (now : Time) (entries : List (SlotName × DeviceInfo))
    (s : Snapshot × List Event)
    → NodupKeys s.0
    → NodupKeys (removals snap now entries s).0
unfolding removals removal
removals-NodupKeys snap now [] s h = h
removals-NodupKeys snap now ((k, dev) ∷ rest) s h =
    removals-NodupKeys snap now rest (removal snap now k dev s)
      (ground (arith, remove-NodupKeys k s.0 h))

insertions-NodupKeys :
    (pending : Snapshot) (now : Time) (entries : List (SlotName × DeviceInfo)) (s : Scan)
    → NodupKeys s.present
    → NodupKeys (insertions pending now entries s).present
unfolding insertions insertion
insertions-NodupKeys pending now [] s h = h
insertions-NodupKeys pending now ((k, dev) ∷ rest) s h =
    insertions-NodupKeys pending now rest (insertion pending now k dev s)
      (ground (arith, insert-NodupKeys k dev s.present h))

pub tick-NodupKeys :
    (t : Tracker) (poll : Poll) → NodupKeys t.present → NodupKeys (tick t poll).1.present
unfolding tick reconcile
tick-NodupKeys t (err cause, now) h = h
tick-NodupKeys t (ok snap, now) h =
    insertions-NodupKeys t.pending now snap _
      (removals-NodupKeys snap now t.present (t.present, []) h)

tick-Leads :
    (t : Tracker) (poll : Poll)
    → NodupKeys t.present
    → IsMap poll
    → Leads t.present (tick t poll).0 (tick t poll).1.present
unfolding tick
tick-Leads t (err cause, now) h m = refl
tick-Leads t (ok snap, now) h m = reconcile-Leads t snap now h m

pub run-Leads :
    (t : Tracker) (polls : List Poll)
    → NodupKeys t.present
    → All IsMap polls
    → Leads t.present (run t polls).0 (run t polls).1.present
unfolding run
run-Leads t [] h m = refl
run-Leads t (poll ∷ polls) h (first, rest) =
    Leads-append t.present (tick t poll).1.present (run (tick t poll).1 polls).1.present
      (tick t poll).0 (run (tick t poll).1 polls).0 (tick-Leads t poll h first)
      (run-Leads (tick t poll).1 polls (tick-NodupKeys t poll h) rest)

pub Leads-take :
    (n : ℕ) (m m' : Snapshot) (events : List Event)
    → Leads m events m'
    → (cut : Snapshot) × Leads m (take n events) cut
Leads-take zero m m' events h = (m, refl)
Leads-take (suc n) m m' [] h = (m, refl)
Leads-take (suc n) m m' (e ∷ events) (c, h) =
    let (cut, l) = Leads-take n (after m e) m' events h in (cut, (c, l))

-- However many events a watcher gets, and whichever enumerations fail, the events alternate: from
-- an empty reader on, a card is removed only from a slot that holds it, and is inserted only in a
-- slot that is empty.
pub watch-Leads :
    (n : ℕ) (polls : List Poll)
    → All IsMap polls
    → (m : Snapshot) × Leads [] (take n (run new_tracker polls).0) m
watch-Leads n polls h =
    Leads-take n [] (run new_tracker polls).1.present (run new_tracker polls).0
      (run-Leads new_tracker polls tt h)
