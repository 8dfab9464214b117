-- ===== src/Detect/Diff.antt =====
-- What `reconcile` leaves, slot by slot, whatever the order of its two loops.
use cardingest.Base.{Option, none, some, List, [], ◌∷◌, ◌≡◌, refl, arith}
use cardingest.Base.{◌==◌, list_eq, nat_eq, if◌then◌else◌}
use cardingest.Base.Maps.{lookup, lookup-insert, lookup-remove, lookup-nil}
use cardingest.Base.Maps.{lookup-cons, NodupKeys}
use cardingest.Card.{SlotName, DeviceInfo, Time}
use cardingest.Detect.{Event, Snapshot}
use cardingest.Detect.Tracker.{
  Tracker, Scan, same_card, removal, removals, insertion, insertions, reconcile,
}

-- The present device of a slot: it stays while its serial is observed, and a pending one is
-- confirmed by an observation with its serial.
unfoldable pub present_after :
    Option DeviceInfo → Option DeviceInfo → Option DeviceInfo → Option DeviceInfo
unfolding same_card
present_after none p q = none
present_after (some cur) p q =
    if same_card p cur then p else if same_card q cur then some cur else none

-- The pending device: what is observed and is neither present nor confirmed.
unfoldable pub pending_after :
    Option DeviceInfo → Option DeviceInfo → Option DeviceInfo → Option DeviceInfo
unfolding same_card
pending_after none p q = none
pending_after (some cur) p q =
    if same_card p cur then none else if same_card q cur then none else some cur

abbrev kept : Snapshot → SlotName → Option DeviceInfo → Option DeviceInfo → Option DeviceInfo
kept snap j none found = found
kept snap j (some dev) found = if same_card (lookup j snap) dev then found else none

pub lookup-removal :
    (snap : Snapshot) (now : Time) (j k : SlotName) (dev : DeviceInfo) (s : Snapshot × List Event)
    → lookup j (removal snap now k dev s).0
      ≡ (if j == k then kept snap k (some dev) (lookup j s.0) else lookup j s.0)
unfolding removal
lookup-removal snap now j k dev s = ground (arith, lookup-remove j k s.0, lookup-remove k k s.0)

pub lookup-removals :
    (snap : Snapshot) (now : Time) (j : SlotName) (entries : List (SlotName × DeviceInfo))
    (s : Snapshot × List Event)
    → NodupKeys entries
    → lookup j (removals snap now entries s).0 ≡ kept snap j (lookup j entries) (lookup j s.0)
unfolding removals
lookup-removals snap now j [] s h = rw lookup-nil refl
lookup-removals snap now j ((k, dev) ∷ rest) s h = ground (
  arith,
  lookup-removals snap now j rest (removal snap now k dev s) h.1,
  lookup-removal snap now j k dev s,
  lookup-cons j k dev rest,
  h.0,
)

-- A slot after the second loop, from what is observed, present, pending and sighted before it.
abbrev confirmed : Option DeviceInfo → Option DeviceInfo → Option DeviceInfo → Option DeviceInfo
confirmed none p q = p
confirmed (some dev) p q = if same_card p dev then p else if same_card q dev then some dev else p

abbrev sighted :
    Option DeviceInfo
    → Option DeviceInfo
    → Option DeviceInfo
    → Option DeviceInfo
    → Option DeviceInfo
sighted none p q n = n
sighted (some dev) p q n = if same_card p dev then n else if same_card q dev then n else some dev

pub lookup-insertion :
    (pending : Snapshot) (now : Time) (j k : SlotName) (dev : DeviceInfo) (s : Scan)
    → lookup j (insertion pending now k dev s).present ≡ (
        if j == k
        then confirmed (some dev) (lookup j s.present) (lookup j pending)
        else lookup j s.present)
unfolding insertion
lookup-insertion pending now j k dev s = ground (arith, lookup-insert j k dev s.present)

lookup-next :
    (pending : Snapshot) (now : Time) (j k : SlotName) (dev : DeviceInfo) (s : Scan)
    → lookup j (insertion pending now k dev s).next_pending ≡ (
        if j == k
        then sighted (some dev) (lookup j s.present) (lookup j pending) (lookup j s.next_pending)
        else lookup j s.next_pending)
unfolding insertion
lookup-next pending now j k dev s = ground (arith, lookup-insert j k dev s.next_pending)

lookup-insertions :
    (pending : Snapshot) (now : Time) (j : SlotName) (entries : List (SlotName × DeviceInfo))
    (s : Scan)
    → NodupKeys entries
    → (lookup j (insertions pending now entries s).present
        ≡ confirmed (lookup j entries) (lookup j s.present) (lookup j pending))
      × (lookup j (insertions pending now entries s).next_pending
          ≡ sighted
              (lookup j entries)
              (lookup j s.present)
              (lookup j pending)
              (lookup j s.next_pending))
unfolding insertions
lookup-insertions pending now j [] s h = rw lookup-nil (refl, refl)
lookup-insertions pending now j ((k, dev) ∷ rest) s h = ground (
  arith,
  lookup-insertions pending now j rest (insertion pending now k dev s) h.1,
  lookup-insertion pending now j k dev s,
  lookup-next pending now j k dev s,
  lookup-cons j k dev rest,
  h.0,
)

-- Whatever the orders in which the maps are ranged over, a slot's present device after `reconcile`
-- is the one that stays or is confirmed, and its pending device the one sighted for the first time.
pub reconcile_lem :
    (t : Tracker) (snap : Snapshot) (now : Time) (j : SlotName)
    → NodupKeys t.present
    → NodupKeys snap
    → (lookup j (reconcile t snap now).1.present
        ≡ present_after (lookup j snap) (lookup j t.present) (lookup j t.pending))
      × (lookup j (reconcile t snap now).1.pending
          ≡ pending_after (lookup j snap) (lookup j t.present) (lookup j t.pending))
unfolding reconcile present_after pending_after same_card
reconcile_lem t snap now j hp hs = ground (
  arith,
  lookup-nil {V = DeviceInfo} j,
  lookup-removals snap now j t.present (t.present, []) hp,
  lookup-insertions t.pending now j snap
      (record {
        present = (removals snap now t.present (t.present, [])).0;
        next_pending = [];
        events = (removals snap now t.present (t.present, [])).1;
      })
      hs,
)
