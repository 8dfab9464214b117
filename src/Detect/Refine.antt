-- ===== src/Detect/Refine.antt =====
-- What a poll loop does to one slot: an automaton on what is observed of that slot alone, which the
-- tracker of internal/detect/state.go and internal/detect/poll.go implements for all slots at once.
use cardingest.Base.{
  Option, none, some, List, [], ◌∷◌, map, ◌≡◌, refl, ap, arith, ok, err, All, list_eq, nat_eq, ◌∙◌,
}
use cardingest.Base.Maps.{lookup, NodupKeys}
use cardingest.Card.{SlotName, DeviceInfo}
use cardingest.Detect.Tracker.{Tracker}
use cardingest.Detect.Diff.{present_after, pending_after, reconcile_lem}
use cardingest.Detect.Poll.{Poll, IsMap, tick, run, tick-NodupKeys}

-- A slot: the device that was reported, and the one that is to be confirmed.
pub record SlotView : Type 0 where
  pub present : Option DeviceInfo
  pub pending : Option DeviceInfo

-- What a poll shows of a slot: nothing if it failed.
abbrev pub Sight : Type 0
Sight = Option (Option DeviceInfo)

abbrev pub sight_of : SlotName → Poll → Sight
sight_of j (err cause, now) = none
sight_of j (ok snap, now) = some (lookup j snap)

abbrev pub slot_step : SlotView → Sight → SlotView
slot_step v none = v
slot_step v (some seen) = record {
  present = present_after seen v.present v.pending;
  pending = pending_after seen v.present v.pending;
}

-- The specification: a slot's sights, one after the other.
abbrev pub slot_run : SlotView → List Sight → SlotView
slot_run v [] = v
slot_run v (s ∷ sights) = slot_run (slot_step v s) sights

abbrev pub view : SlotName → Tracker → SlotView
view j t = record { present = lookup j t.present; pending = lookup j t.pending }

view-tick :
    (j : SlotName) (t : Tracker) (poll : Poll)
    → NodupKeys t.present
    → IsMap poll
    → view j (tick t poll).1 ≡ slot_step (view j t) (sight_of j poll)
unfolding tick
view-tick j t (err cause, now) h m = refl
view-tick j t (ok snap, now) h m = ground (arith, reconcile_lem t snap now j h m)

-- Where no slot is twice in the tracker's devices and in a snapshot, as in a Go map: each slot of the
-- tracker goes through the states of its own automaton, so that what happens in other slots, and the
-- order in which slots are looked at, makes no difference to it.
pub view-run :
    (j : SlotName) (t : Tracker) (polls : List Poll)
    → NodupKeys t.present
    → All IsMap polls
    → view j (run t polls).1 ≡ slot_run (view j t) (map (sight_of j) polls)
unfolding run
view-run j t [] h m = refl
view-run j t (poll ∷ polls) h m =
    view-run j (tick t poll).1 polls (tick-NodupKeys t poll h) m.1
    ∙ ap (λ v. slot_run v (map (sight_of j) polls)) (view-tick j t poll h m.0)
