-- ===== src/Detect/Debounce.antt =====
-- The debounce rule of internal/detect/state.go: what an event of `reconcile` rests on.
use cardingest.Base.{true, false, some, List, [], ◌∷◌, ◌≡◌, arith}
use cardingest.Base.{list_eq, nat_eq, Bool-cases, inl, inr, All, All-append, All-map}
use cardingest.Base.Maps.{lookup, lookup-cons, NodupKeys}
use cardingest.Card.{SlotName, DeviceInfo, Time}
use cardingest.Detect.{Event, Snapshot, inserted, removed}
use cardingest.Detect.Tracker.{
  Tracker, Scan, same_card, removal, removals, insertion, insertions, reconcile,
}
use cardingest.Detect.Diff.{pending_after, reconcile_lem}

-- An inserted device is observed now and was, with its serial, in the snapshot before. A removed one
-- is not observed now with its serial.
abbrev pub Justified : Snapshot → Snapshot → Event → Type 0
Justified before snap e = elim e.type [
  | inserted ↦
      (lookup e.slot snap ≡ some e.device) × (same_card (lookup e.slot before) e.device ≡ true)
  | removed ↦ same_card (lookup e.slot snap) e.device ≡ false
]

removals-Justified :
    (pending snap : Snapshot) (now : Time) (entries : List (SlotName × DeviceInfo))
    (s : Snapshot × List Event)
    → All (Justified pending snap) s.1
    → All (Justified pending snap) (removals snap now entries s).1
unfolding removals removal
removals-Justified pending snap now [] s h = h
removals-Justified pending snap now ((k, dev) ∷ rest) s h =
    removals-Justified pending snap now rest (removal snap now k dev s)
      (elim (Bool-cases (same_card (lookup k snap) dev)) [
        | inl p ↦ rw p h
        | inr p ↦ rw p (All-append (Justified pending snap) s.1 _ h (p, tt))
      ])

insertions-Justified :
    (pending snap : Snapshot) (now : Time) (entries : List (SlotName × DeviceInfo)) (s : Scan)
    → NodupKeys entries
    → ((j : SlotName) (d : DeviceInfo) → lookup j entries ≡ some d → lookup j snap ≡ some d)
    → All (Justified pending snap) s.events
    → All (Justified pending snap) (insertions pending now entries s).events
unfolding insertions insertion
insertions-Justified pending snap now [] s nodup within h = h
insertions-Justified pending snap now ((k, dev) ∷ rest) s nodup within h =
    insertions-Justified pending snap now rest (insertion pending now k dev s) nodup.1
      (λ j d found. within j d (ground (arith, lookup-cons j k dev rest, nodup.0)))
      (elim (Bool-cases (same_card (lookup k s.present) dev)) [
        | inl p ↦ rw p h
        | inr p ↦ elim (Bool-cases (same_card (lookup k pending) dev)) [
          | inr q ↦ rw (p, q) h
          | inl q ↦
              let seen = within k dev (ground (arith, lookup-cons k k dev rest)) in
              rw (p, q) (All-append (Justified pending snap) s.events _ h ((seen, q), tt))
        ]
      ])

reconcile-Justified :
    (t : Tracker) (snap : Snapshot) (now : Time)
    → NodupKeys snap
    → All (Justified t.pending snap) (reconcile t snap now).0
unfolding reconcile
reconcile-Justified t snap now h =
    insertions-Justified t.pending snap now snap _ h (λ j d found. found)
      (removals-Justified t.pending snap now t.present (t.present, []) tt)

pending_seen :
    (t : Tracker) (snap : Snapshot) (now : Time) (j : SlotName) (d : DeviceInfo)
    → NodupKeys t.present
    → NodupKeys snap
    → same_card (lookup j (reconcile t snap now).1.pending) d ≡ true
    → same_card (lookup j snap) d ≡ true
unfolding pending_after same_card
pending_seen t snap now j d hp hs h = ground (arith, (reconcile_lem t snap now j hp hs).1)

Justified-mono :
    (t : Tracker) (first second : Snapshot) (now : Time)
    → NodupKeys t.present
    → NodupKeys first
    → (e : Event) → Justified (reconcile t first now).1.pending second e
    → Justified first second e
Justified-mono t first second now hp hs e h =
    ground (arith, pending_seen t first now e.slot e.device hp hs)

-- After two snapshots in a row, an event of the second rests on both.
pub reconcile_twice-Justified :
    (t : Tracker) (first second : Snapshot) (now later : Time)
    → NodupKeys t.present
    → NodupKeys first
    → NodupKeys second
    → All (Justified first second) (reconcile (reconcile t first now).1 second later).0
reconcile_twice-Justified t first second now later hp hf hs =
    All-map (Justified (reconcile t first now).1.pending second) (Justified first second) _
      (Justified-mono t first second now hp hf)
      (reconcile-Justified (reconcile t first now).1 second later hs)
