-- ===== src/Detect/Steady.antt =====
-- A card that stays is reported by an event: the poll loop of internal/detect/poll.go makes progress.
use cardingest.Base.{
  Bool, true, false, ◌||◌, Option, none, some, List, [], ◌∷◌, ◌++◌, map, ◌≡◌, refl, ap, arith, ok,
  err, All, All-append, list_eq, nat_eq, if◌then◌else◌, ◌∙◌, eq_true,
}
use cardingest.Base.{◌==◌, ◌⊎◌, inl, inr, sym, Bool-cases}
use cardingest.Base.Maps.{lookup, lookup-insert, lookup-remove, lookup-nil, NodupKeys}
use cardingest.Base.Strings.{Text}
use cardingest.Card.{SlotName, DeviceInfo, Time}
use cardingest.Detect.{Event, EventType, Snapshot, inserted, removed}
use cardingest.Detect.Tracker.{Tracker, new_tracker, same_card}
use cardingest.Detect.Diff.{present_after, pending_after}
use cardingest.Detect.Poll.{Poll, IsMap, run, run-Leads}
use cardingest.Detect.Trace.{Leads, after}
use cardingest.Detect.Refine.{SlotView, Sight, sight_of, slot_step, slot_run, view, view-run}

-- Enumerations that failed.
abbrev pub failed_polls : List (Text × Time) → List Poll
failed_polls [] = []
failed_polls ((cause, now) ∷ failures) = (err cause, now) ∷ failed_polls failures

-- Some device with the serial is present.
abbrev IsPresent : Option DeviceInfo → Text → Type 0
IsPresent o serial = (p : DeviceInfo) × (o ≡ some p) × (p.serial ≡ serial)

-- The last event of a slot, or else the one found before.
abbrev pub last_of : SlotName → Option Event → List Event → Option Event
unfolding list_eq
last_of j found [] = found
last_of j found (e ∷ events) = last_of j (if j == e.slot then some e else found) events

-- The last event that was sent of the slot inserts a device with the serial, and the tracker has that
-- device as present.
abbrev pub IsReported : SlotName → Text → List Event × Tracker → Type 0
IsReported j serial (events, t) =
    (e : Event) × (last_of j none events ≡ some e)
    × (e.type ≡ inserted)
    × (e.slot ≡ j)
    × (e.device.serial ≡ serial)
    × (lookup j t.present ≡ some e.device)

-- What is present in the slot is the device of that event, an insertion.
abbrev IsTold : SlotName → Snapshot → Option Event → Type 0
IsTold j m found =
    (p : DeviceInfo)
    → lookup j m ≡ some p
    → (e : Event) × (found ≡ some e) × (e.type ≡ inserted) × (e.slot ≡ j) × (e.device ≡ p)

after-IsTold :
    (j : SlotName) (m : Snapshot) (e : Event) (found : Option Event)
    → IsTold j m found
    → IsTold j (after m e) (if j == e.slot then some e else found)
after-IsTold j m e found told p h = go e.type refl h (Bool-cases (j == e.slot))
  where
    go :
        (type : EventType)
        → e.type ≡ type
        → lookup j (after m (record e { type = type })) ≡ some p
        → ((j == e.slot) ≡ true) ⊎ ((j == e.slot) ≡ false)
        → (x : Event) × ((if j == e.slot then some e else found) ≡ some x)
          × (x.type ≡ inserted)
          × (x.slot ≡ j)
          × (x.device ≡ p)
    go inserted is k (inl same) = (
      e,
      rw same refl,
      is,
      sym (eq_true j e.slot same),
      ground (arith, lookup-insert j e.slot e.device m),
    )
    go inserted is k (inr apart) =
        rw apart (told p (ground (arith, lookup-insert j e.slot e.device m)))
    go removed is k (inl same) = absurd (ground (arith, lookup-remove j e.slot m))
    go removed is k (inr apart) = rw apart (told p (ground (arith, lookup-remove j e.slot m)))

Leads-IsTold :
    (j : SlotName) (m m' : Snapshot) (events : List Event) (found : Option Event)
    → Leads m events m'
    → IsTold j m found
    → IsTold j m' (last_of j found events)
unfolding last_of
Leads-IsTold j m m' [] found l told = rw (← l) told
Leads-IsTold j m m' (e ∷ events) found l told =
    Leads-IsTold j (after m e) m' events _ l.1 (after-IsTold j m e found told)

-- From the start on, what is present in a slot has been reported.
run-IsTold :
    (j : SlotName) (polls : List Poll)
    → All IsMap polls
    → IsTold j (run new_tracker polls).1.present (last_of j none (run new_tracker polls).0)
run-IsTold j polls maps =
    Leads-IsTold j [] _ _ none (run-Leads new_tracker polls tt maps)
      (λ p h. absurd (ground (arith, lookup-nil {V = DeviceInfo} j)))

slot_run-append :
    (v : SlotView) (first second : List Sight)
    → slot_run v (first ++ second) ≡ slot_run (slot_run v first) second
slot_run-append v [] second = refl
slot_run-append v (s ∷ first) second = slot_run-append (slot_step v s) first second

map-append-polls :
    (j : SlotName) (first second : List Poll)
    → map (sight_of j) (first ++ second) ≡ map (sight_of j) first ++ map (sight_of j) second
map-append-polls j [] second = refl
map-append-polls j (p ∷ first) second = ap (λ l. sight_of j p ∷ l) (map-append-polls j first second)

-- The device is present or pending with the serial.
abbrev Waits : SlotView → Text → Type 0
Waits v serial =
    (d : DeviceInfo) → d.serial ≡ serial → (same_card v.present d || same_card v.pending d) ≡ true

IsPresent-confirm :
    (v : SlotView) (d : DeviceInfo)
    → (same_card v.present d || same_card v.pending d) ≡ true
    → IsPresent (present_after (some d) v.present v.pending) d.serial
unfolding present_after same_card
IsPresent-confirm v d h = go v.present (same_card v.present d) (same_card v.pending d) refl h
  where
    go :
        (p : Option DeviceInfo) (stays confirmed : Bool)
        → same_card p d ≡ stays
        → (stays || confirmed) ≡ true
        → IsPresent (if stays then p else if confirmed then some d else none) d.serial
    go none true confirmed e h = cc
    go (some p) true confirmed e h = (p, refl, eq_true p.serial d.serial e)
    go p false true e h = (d, refl, refl)
    go p false false e h = cc

Waits-sight : (v : SlotView) (d : DeviceInfo) → Waits (slot_step v (some (some d))) d.serial
unfolding present_after pending_after same_card
Waits-sight v d e h = ground arith

failures_keep :
    (j : SlotName) (v : SlotView) (failures : List (Text × Time)) (rest : List Poll)
    → slot_run v (map (sight_of j) (failed_polls failures ++ rest))
      ≡ slot_run v (map (sight_of j) rest)
failures_keep j v [] rest = refl
failures_keep j v (f ∷ failures) rest = failures_keep j v failures rest

failed-IsMap :
    (failures : List (Text × Time)) (rest : List Poll)
    → All IsMap rest
    → All IsMap (failed_polls failures ++ rest)
failed-IsMap [] rest h = h
failed-IsMap (f ∷ failures) rest h = (tt, failed-IsMap failures rest h)

slot_run-steady :
    (j : SlotName) (v : SlotView) (snap snap' : Snapshot) (now later : Time)
    (failures : List (Text × Time)) (d d' : DeviceInfo)
    → lookup j snap ≡ some d
    → lookup j snap' ≡ some d'
    → d'.serial ≡ d.serial
    → IsPresent
        (slot_run v (
          map
            (sight_of j)
            ((ok snap, now) ∷ (failed_polls failures ++ (ok snap', later) ∷ [])))).present
        d'.serial
slot_run-steady j v snap snap' now later failures d d' seen again same =
    let w = slot_step v (some (lookup j snap)) in
    let waits = Waits-sight v d d' same in
    rw (failures_keep j w failures ((ok snap', later) ∷ []), seen, again)
      (IsPresent-confirm (slot_step v (some (some d))) d' waits)

steady-IsPresent :
    (before : List Poll) (j : SlotName) (snap snap' : Snapshot) (now later : Time)
    (failures : List (Text × Time)) (d d' : DeviceInfo)
    → All IsMap before
    → NodupKeys snap
    → NodupKeys snap'
    → lookup j snap ≡ some d
    → lookup j snap' ≡ some d'
    → d'.serial ≡ d.serial
    → IsPresent
        (lookup j
          (run new_tracker (
            before
            ++ (ok snap, now) ∷ (failed_polls failures ++ (ok snap', later) ∷ []))).1.present)
        d'.serial
steady-IsPresent before j snap snap' now later failures d d' mb ms ms' seen again same =
    let last = (ok snap, now) ∷ (failed_polls failures ++ (ok snap', later) ∷ []) in
    let maps =
      All-append IsMap before last mb
        (ms, failed-IsMap failures ((ok snap', later) ∷ []) (ms', tt)) in
    let whole =
      view-run j new_tracker (before ++ last) tt maps
      ∙ (ap (slot_run (view j new_tracker)) (map-append-polls j before last)
          ∙ slot_run-append (view j new_tracker) (map (sight_of j) before)
              (map (sight_of j) last)) in
    let v = slot_run (view j new_tracker) (map (sight_of j) before) in
    rw (ap (λ (w : SlotView). w.present) whole)
      (slot_run-steady j v snap snap' now later failures d d' seen again same)

-- Where no slot is twice in a snapshot, as in a Go map: whatever was polled before, let two polls find
-- a card in a slot with the same serial, with any number of failed polls between them. Then the last
-- event of the slot that has been sent after the second inserts a device with that serial, which is the
-- one that the tracker has as present.
pub steady-IsReported :
    (before : List Poll) (j : SlotName) (snap snap' : Snapshot) (now later : Time)
    (failures : List (Text × Time)) (d d' : DeviceInfo)
    → All IsMap before
    → NodupKeys snap
    → NodupKeys snap'
    → lookup j snap ≡ some d
    → lookup j snap' ≡ some d'
    → d'.serial ≡ d.serial
    → IsReported j d'.serial (
        run new_tracker
          (before ++ (ok snap, now) ∷ (failed_polls failures ++ (ok snap', later) ∷ [])))
steady-IsReported before j snap snap' now later failures d d' mb ms ms' seen again same =
    let last = (ok snap, now) ∷ (failed_polls failures ++ (ok snap', later) ∷ []) in
    let maps =
      All-append IsMap before last mb
        (ms, failed-IsMap failures ((ok snap', later) ∷ []) (ms', tt)) in
    let (p, found, serial) =
      steady-IsPresent before j snap snap' now later failures d d' mb ms ms' seen again same in
    let (e, is_last, is_insert, here, is_p) = run-IsTold j (before ++ last) maps p found in
    (
      e,
      is_last,
      is_insert,
      here,
      ap (λ (x : DeviceInfo). x.serial) is_p ∙ serial,
      found ∙ ap some (sym is_p),
    )
