-- ===== src/Detect/Tracker.antt =====
-- The tracker of internal/detect/state.go, which makes events of snapshots.
use cardingest.Base.{Bool, false, not, Option, none, some, List, [], ◌∷◌, ◌++◌}
use cardingest.Base.{◌==◌, list_eq, nat_eq, if◌then◌else◌}
use cardingest.Base.Maps.{lookup, insert, remove}
use cardingest.Card.{SlotName, DeviceInfo, Time}
use cardingest.Detect.{Event, Snapshot, inserted, removed}

pub record Tracker : Type 0 where
  pub present : Snapshot
  pub pending : Snapshot

-- newTracker
abbrev pub new_tracker : Tracker
new_tracker = record { present = []; pending = [] }

-- `p, ok := m[slot]; ok && p.Serial == dev.Serial`
unfoldable pub same_card : Option DeviceInfo → DeviceInfo → Bool
unfolding list_eq
same_card none dev = false
same_card (some p) dev = p.serial == dev.serial

-- A round of the first loop: a present device that vanished, or whose serial changed, goes.
unfoldable pub removal :
    Snapshot → Time → SlotName → DeviceInfo → Snapshot × List Event → Snapshot × List Event
unfolding same_card remove
removal snap now slot dev (present, events) =
    if not (same_card (lookup slot snap) dev)
    then (
      remove slot present,
      events ++ record { type = removed; slot = slot; device = dev; at = now } ∷ [],
    )
    else (present, events)

unfoldable pub removals :
    Snapshot → Time → List (SlotName × DeviceInfo) → Snapshot × List Event → Snapshot × List Event
removals snap now [] s = s
removals snap now ((slot, dev) ∷ rest) s = removals snap now rest (removal snap now slot dev s)

-- What the second loop changes.
pub record Scan : Type 0 where
  pub present : Snapshot
  pub next_pending : Snapshot
  pub events : List Event

-- A round of the second loop: present already, confirmed, or seen for the first time.
unfoldable pub insertion : Snapshot → Time → SlotName → DeviceInfo → Scan → Scan
unfolding same_card insert
insertion pending now slot dev s =
    if same_card (lookup slot s.present) dev
    then s
    else if same_card (lookup slot pending) dev
    then record s {
      present = insert slot dev s.present;
      events = s.events ++ record { type = inserted; slot = slot; device = dev; at = now } ∷ [];
    }
    else record s { next_pending = insert slot dev s.next_pending }

unfoldable pub insertions : Snapshot → Time → List (SlotName × DeviceInfo) → Scan → Scan
insertions pending now [] s = s
insertions pending now ((slot, dev) ∷ rest) s =
    insertions pending now rest (insertion pending now slot dev s)

-- reconcile
unfoldable pub reconcile : Tracker → Snapshot → Time → List Event × Tracker
unfolding removals removal insertions insertion
reconcile t snap now =
    let (present, events) = removals snap now t.present (t.present, []) in
    let s =
      insertions t.pending now snap
        (record { present = present; next_pending = []; events = events }) in
    (s.events, record { present = s.present; pending = s.next_pending })
