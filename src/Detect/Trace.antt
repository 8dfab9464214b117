-- ===== src/Detect/Trace.antt =====
-- The events of `reconcile` tell how the present devices change, each slot by turns.
use cardingest.Base.{true, false, Option, none, some, List, [], ◌∷◌, ◌++◌, ◌≡◌, refl, arith}
use cardingest.Base.{list_eq, nat_eq, Bool-cases, inl, inr}
use cardingest.Base.Maps.{lookup, insert, remove}
use cardingest.Base.Maps.{lookup-cons, NodupKeys}
use cardingest.Card.{SlotName, DeviceInfo, Time}
use cardingest.Detect.{Event, Snapshot, inserted, removed}
use cardingest.Detect.Diff.{lookup-removal, lookup-removals, lookup-insertion}
use cardingest.Detect.Tracker.{
  Tracker, Scan, same_card, removal, removals, insertion, insertions, reconcile,
}

-- An event that can follow when `m` is present, and what is present after it: a device is removed
-- that is there, or inserted where none is.
abbrev pub CanFollow : Snapshot → Event → Type 0
CanFollow m e = elim e.type [
  | inserted ↦ lookup e.slot m ≡ none
  | removed ↦ lookup e.slot m ≡ some e.device
]

abbrev pub after : Snapshot → Event → Snapshot
after m e = elim e.type [ inserted ↦ insert e.slot e.device m | removed ↦ remove e.slot m ]

-- The events lead from what is present at first to what is present at last.
abbrev pub Leads : Snapshot → List Event → Snapshot → Type 0
Leads m [] m' = m ≡ m'
Leads m (e ∷ events) m' = CanFollow m e × Leads (after m e) events m'

pub Leads-append :
    (m₁ m₂ m₃ : Snapshot) (first second : List Event)
    → Leads m₁ first m₂
    → Leads m₂ second m₃
    → Leads m₁ (first ++ second) m₃
Leads-append m₁ m₂ m₃ [] second h k = rw h k
Leads-append m₁ m₂ m₃ (e ∷ first) second h k =
    (h.0, Leads-append (after m₁ e) m₂ m₃ first second h.1 k)

pub Leads-snoc :
    (m₁ m₂ : Snapshot) (events : List Event) (e : Event)
    → Leads m₁ events m₂
    → CanFollow m₂ e
    → Leads m₁ (events ++ e ∷ []) (after m₂ e)
Leads-snoc m₁ m₂ events e h c = Leads-append m₁ m₂ (after m₂ e) events (e ∷ []) h (c, refl)

-- What is found in `m` is found in `n`.
abbrev Within : Snapshot → Snapshot → Type 0
Within m n = (j : SlotName) (p : DeviceInfo) → lookup j m ≡ some p → lookup j n ≡ some p

-- What is present has been observed with the same serial.
abbrev Agrees : Snapshot → Snapshot → Type 0
Agrees snap m =
    (j : SlotName) (p cur : DeviceInfo)
    → lookup j m ≡ some p
    → lookup j snap ≡ some cur
    → same_card (some p) cur ≡ true

Within-tail :
    (k : SlotName) (dev : DeviceInfo) (rest m : Snapshot)
    → lookup k rest ≡ none
    → Within ((k, dev) ∷ rest) m
    → Within rest m
Within-tail k dev rest m h w j p found = w j p (ground (arith, lookup-cons j k dev rest))

Within-head :
    (k : SlotName) (dev : DeviceInfo) (rest m : Snapshot)
    → Within ((k, dev) ∷ rest) m
    → lookup k m ≡ some dev
Within-head k dev rest m w = w k dev (ground (arith, lookup-cons k k dev rest))

removal-Leads :
    (snap m₀ : Snapshot) (now : Time) (k : SlotName) (dev : DeviceInfo) (s : Snapshot × List Event)
    → Leads m₀ s.1 s.0
    → lookup k s.0 ≡ some dev
    → Leads m₀ (removal snap now k dev s).1 (removal snap now k dev s).0
unfolding removal
removal-Leads snap m₀ now k dev s l h = elim (Bool-cases (same_card (lookup k snap) dev)) [
  | inl p ↦ rw p l
  | inr p ↦ rw p (Leads-snoc m₀ s.0 s.1 _ l h)
]

removals-Leads :
    (snap m₀ : Snapshot) (now : Time) (entries : List (SlotName × DeviceInfo))
    (s : Snapshot × List Event)
    → NodupKeys entries
    → Within entries s.0
    → Leads m₀ s.1 s.0
    → Leads m₀ (removals snap now entries s).1 (removals snap now entries s).0
unfolding removals
removals-Leads snap m₀ now [] s h w l = l
removals-Leads snap m₀ now ((k, dev) ∷ rest) s h w l =
    removals-Leads snap m₀ now rest (removal snap now k dev s) h.1
      (λ j p found.
        let below = Within-tail k dev rest s.0 h.0 w j p found in
        ground (arith, lookup-removal snap now j k dev s))
      (removal-Leads snap m₀ now k dev s l (Within-head k dev rest s.0 w))

absent :
    (o : Option DeviceInfo) (dev : DeviceInfo)
    → ((p : DeviceInfo) → o ≡ some p → same_card (some p) dev ≡ true)
    → same_card o dev ≡ false
    → o ≡ none
absent none dev agrees h = refl
absent (some p) dev agrees h = absurd (ground (arith, agrees p refl))

insertion-Leads :
    (snap pending m₀ : Snapshot) (now : Time) (k : SlotName) (dev : DeviceInfo) (s : Scan)
    → Agrees snap s.present
    → lookup k snap ≡ some dev
    → Leads m₀ s.events s.present
    → Leads m₀ (insertion pending now k dev s).events (insertion pending now k dev s).present
unfolding insertion
insertion-Leads snap pending m₀ now k dev s agrees h l =
    elim (Bool-cases (same_card (lookup k s.present) dev)) [
      | inl p ↦ rw p l
      | inr p ↦ elim (Bool-cases (same_card (lookup k pending) dev)) [
        | inr q ↦ rw (p, q) l
        | inl q ↦
            let vacant = absent (lookup k s.present) dev (λ c e. agrees k c dev e h) p in
            rw (p, q) (Leads-snoc m₀ s.present s.events _ l vacant)
      ]
    ]

insertion-Agrees :
    (snap pending : Snapshot) (now : Time) (k : SlotName) (dev : DeviceInfo) (s : Scan)
    → Agrees snap s.present
    → lookup k snap ≡ some dev
    → Agrees snap (insertion pending now k dev s).present
unfolding same_card
insertion-Agrees snap pending now k dev s agrees h j p cur found seen =
    ground (arith, lookup-insertion pending now j k dev s, agrees j p cur)

insertions-Leads :
    (snap pending m₀ : Snapshot) (now : Time) (entries : List (SlotName × DeviceInfo)) (s : Scan)
    → NodupKeys entries
    → Within entries snap
    → Agrees snap s.present
    → Leads m₀ s.events s.present
    → Leads m₀ (insertions pending now entries s).events (insertions pending now entries s).present
unfolding insertions
insertions-Leads snap pending m₀ now [] s h w agrees l = l
insertions-Leads snap pending m₀ now ((k, dev) ∷ rest) s h w agrees l =
    let seen = Within-head k dev rest snap w in
    insertions-Leads snap pending m₀ now rest (insertion pending now k dev s) h.1
      (Within-tail k dev rest snap h.0 w) (insertion-Agrees snap pending now k dev s agrees seen)
      (insertion-Leads snap pending m₀ now k dev s agrees seen l)

removals-Agrees :
    (snap present : Snapshot) (now : Time)
    → NodupKeys present
    → Agrees snap (removals snap now present (present, [])).0
unfolding same_card
removals-Agrees snap present now h j p cur found seen =
    ground (arith, lookup-removals snap now j present (present, []) h)

-- The events of `reconcile` lead from the devices present before it to those present after it.
pub reconcile-Leads :
    (t : Tracker) (snap : Snapshot) (now : Time)
    → NodupKeys t.present
    → NodupKeys snap
    → Leads t.present (reconcile t snap now).0 (reconcile t snap now).1.present
unfolding reconcile
reconcile-Leads t snap now hp hs =
    insertions-Leads snap t.pending t.present now snap
      (record {
        present = (removals snap now t.present (t.present, [])).0;
        next_pending = [];
        events = (removals snap now t.present (t.present, [])).1;
      })
      hs (λ j p found. found) (removals-Agrees snap t.present now hp)
      (removals-Leads snap t.present now t.present (t.present, []) hp (λ j p found. found) refl)
