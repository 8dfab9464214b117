-- ===== src/Detect/Mock.antt =====
-- The simulated reader of internal/detect/mock.go. The channel to the watcher is the list of the
-- events sent; a send waits where 32 of them are not yet taken.
use cardingest.Base.{
  Bool, true, false, Option, none, some, List, [], ◌∷◌, ◌++◌, ◌≡◌, refl, Outcome, ok, err,
}
use cardingest.Base.{◌==◌, list_eq, nat_eq, if◌then◌else◌, >>=-eq-ok, ◌>>=◌, ok-injective}
use cardingest.Base.Maps.{lookup, insert, remove}
use cardingest.Base.Strings.{Text, codes, base, join_path}
use cardingest.Card.{SlotName, DeviceInfo, Time}
use cardingest.Detect.{Event, Snapshot, Config, DetectError, inserted, removed}
use cardingest.Detect.{already_watching, no_fixture_dir, slot_occupied, slot_empty}
use cardingest.Detect.Trace.{Leads, Leads-snoc}

pub record MockDetector : Type 0 where
  pub fixture_dir : Text
  pub present : Snapshot
  pub sent : List Event
  pub watching : Bool

-- newMock
abbrev pub new_mock : Config → MockDetector
new_mock cfg = record { fixture_dir = cfg.fixture_dir; present = []; sent = []; watching = false }

-- Watch
abbrev pub mock_watch : MockDetector → Outcome DetectError MockDetector
mock_watch m = if m.watching then err already_watching else ok (record m { watching = true })

-- The directory of an insert: by default, the slot's below the fixtures.
unfoldable pub content_of : MockDetector → SlotName → Text → Outcome DetectError Text
unfolding join_path list_eq
content_of m slot dir =
    if dir == []
    then if m.fixture_dir == [] then err no_fixture_dir else ok (join_path m.fixture_dir slot)
    else ok dir

abbrev pub mock_device : SlotName → Text → DeviceInfo
mock_device slot dir = record {
  dev_path = dir;
  by_path = codes "mock:" ++ slot;
  serial = base dir;
  vendor_id = codes "mock";
  product_id = codes "mock";
  size_bytes = 0;
}

-- The device is present, and its event is sent.
abbrev pub put : MockDetector → SlotName → Time → DeviceInfo → MockDetector
put m slot now dev = record m {
  present = insert slot dev m.present;
  sent = m.sent ++ record { type = inserted; slot = slot; device = dev; at = now } ∷ [];
}

abbrev pub put_into :
    MockDetector → SlotName → Time → Text → Option DeviceInfo → Outcome DetectError MockDetector
put_into m slot now dir (some dev) = err (slot_occupied slot)
put_into m slot now dir none = ok (put m slot now (mock_device slot dir))

-- Insert
unfoldable pub mock_insert :
    MockDetector → SlotName → Text → Time → Outcome DetectError MockDetector
unfolding content_of
mock_insert m slot dir now = do
  dir ← content_of m slot dir
  put_into m slot now dir (lookup slot m.present)

abbrev pub take_from :
    MockDetector → SlotName → Time → Option DeviceInfo → Outcome DetectError MockDetector
take_from m slot now none = err (slot_empty slot)
take_from m slot now (some dev) = ok (record m {
  present = remove slot m.present;
  sent = m.sent ++ record { type = removed; slot = slot; device = dev; at = now } ∷ [];
})

-- Remove
unfoldable pub mock_remove : MockDetector → SlotName → Time → Outcome DetectError MockDetector
mock_remove m slot now = take_from m slot now (lookup slot m.present)

-- A trigger of the mock.
pub data Trigger : Type 0 where
  put_card : SlotName → Text → Time → Trigger
  take_card : SlotName → Time → Trigger

unfoldable pub pull : MockDetector → Trigger → Outcome DetectError MockDetector
unfolding mock_insert mock_remove
pull m (put_card slot dir now) = mock_insert m slot dir now
pull m (take_card slot now) = mock_remove m slot now

abbrev pub kept : MockDetector → Outcome DetectError MockDetector → MockDetector
kept m (ok m') = m'
kept m (err e) = m

-- Triggers in a row. One that fails changes nothing.
unfoldable pub pull_all : MockDetector → List Trigger → MockDetector
unfolding pull
pull_all m [] = m
pull_all m (t ∷ triggers) = pull_all (kept m (pull m t)) triggers

put_into-Leads :
    (m m' : MockDetector) (slot : SlotName) (now : Time) (dir : Text) (held : Option DeviceInfo)
    → lookup slot m.present ≡ held
    → Leads [] m.sent m.present
    → put_into m slot now dir held ≡ ok m'
    → Leads [] m'.sent m'.present
put_into-Leads m m' slot now dir (some dev) found h p = cc
put_into-Leads m m' slot now dir none found h p =
    rw (← ok-injective p) (Leads-snoc [] m.present m.sent _ h found)

take_from-Leads :
    (m m' : MockDetector) (slot : SlotName) (now : Time) (held : Option DeviceInfo)
    → lookup slot m.present ≡ held
    → Leads [] m.sent m.present
    → take_from m slot now held ≡ ok m'
    → Leads [] m'.sent m'.present
take_from-Leads m m' slot now none found h p = cc
take_from-Leads m m' slot now (some dev) found h p =
    rw (← ok-injective p) (Leads-snoc [] m.present m.sent _ h found)

pull-Leads :
    (m m' : MockDetector) (t : Trigger)
    → Leads [] m.sent m.present
    → pull m t ≡ ok m'
    → Leads [] m'.sent m'.present
unfolding pull mock_insert mock_remove
pull-Leads m m' (put_card slot dir now) h p =
    let (d, _, q) = >>=-eq-ok (content_of m slot dir) _ p in
    put_into-Leads m m' slot now d (lookup slot m.present) refl h q
pull-Leads m m' (take_card slot now) h p =
    take_from-Leads m m' slot now (lookup slot m.present) refl h p

step-Leads :
    (m : MockDetector) (r : Outcome DetectError MockDetector)
    → ((m' : MockDetector) → r ≡ ok m' → Leads [] m'.sent m'.present)
    → Leads [] m.sent m.present
    → Leads [] (kept m r).sent (kept m r).present
step-Leads m (ok m') k h = k m' refl
step-Leads m (err e) k h = h

-- Whatever the triggers, the events sent lead from an empty reader to what is present.
pull_all-Leads :
    (m : MockDetector) (triggers : List Trigger)
    → Leads [] m.sent m.present
    → Leads [] (pull_all m triggers).sent (pull_all m triggers).present
unfolding pull_all
pull_all-Leads m [] h = h
pull_all-Leads m (t ∷ triggers) h =
    pull_all-Leads (kept m (pull m t)) triggers
      (step-Leads m (pull m t) (λ m' p. pull-Leads m m' t h p) h)
