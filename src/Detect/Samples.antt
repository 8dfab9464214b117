-- ===== src/Detect/Samples.antt =====
-- Runs of the detector, and its theorems at concrete snapshots.
use cardingest.Base.{true, none, some, List, [], ◌∷◌, ◌++◌, ◌≡◌, refl, Outcome, ok, err, take, All}
use cardingest.Base.{◌==◌, list_eq, nat_eq, if◌then◌else◌, map}
use cardingest.Base.Int.{pos}
use cardingest.Base.Maps.{lookup, insert, remove, NodupKeys}
use cardingest.Base.Strings.{
  Text, codes, cut, before_byte, split, join_path, base, dir, to_lower, trim_space, contains_text,
}
use cardingest.Card.{DeviceInfo, Time}
use cardingest.Detect.{Event, EventType, Snapshot, Config, inserted, removed}
use cardingest.Detect.Tracker.{
  Tracker, new_tracker, same_card, removal, removals, insertion, insertions, reconcile,
}
use cardingest.Detect.Trace.{Leads}
use cardingest.Detect.Diff.{present_after, pending_after, reconcile_lem}
use cardingest.Detect.Debounce.{Justified, reconcile_twice-Justified}
use cardingest.Detect.Poll.{Poll, tick, run, watch-Leads}
use cardingest.Detect.Refine.{view, slot_run, sight_of, view-run}
use cardingest.Detect.Steady.{IsReported, steady-IsReported}
use cardingest.Detect.Mock.{
  new_mock, Trigger, put_card, take_card, pull, pull_all, mock_insert, mock_remove,
}
use cardingest.Detect.Linux.{
  Sysfs, LinuxEnum, new_real, usb_port_from_by_path, read_trimmed, must_read_trimmed, owner,
  size_of, read_usb_attrs, admit, one_entry, entries_from, enumerate,
}
use cardingest.Detect.Linux.Allowed.{IsAllowed, enumerate-IsAllowed}

abbrev noon : Time
noon = record { year = 2026; month = 3; day = 7; nanos = 0 }

abbrev device : Text → DeviceInfo
device serial = record {
  dev_path = codes "/dev/sdb";
  by_path = codes "usb-0:1.1:1.0";
  serial = serial;
  vendor_id = codes "05e3";
  product_id = codes "0749";
  size_bytes = 512;
}

abbrev one_card : Snapshot
one_card = (codes "1.1", device (codes "S1")) ∷ []

abbrev swapped : Snapshot
swapped = (codes "1.1", device (codes "S2")) ∷ []

pub one_map : NodupKeys one_card
unfolding lookup
one_map = (refl, tt)

pub one_map' : NodupKeys swapped
unfolding lookup
one_map' = (refl, tt)

abbrev tracker_with : Snapshot → Snapshot → Tracker
tracker_with present pending = record { present = present; pending = pending }

abbrev pub polls : List Poll
polls =
    (ok one_card, noon)
    ∷ (err (codes "busy"), noon)
    ∷ (ok one_card, noon)
    ∷ (ok swapped, noon)
    ∷ (ok swapped, noon)
    ∷ []

types : List Event → List EventType
types events = map (λ (e : Event). e.type) events

-- A card is reported at its second sighting, and a swap as a removal before an insertion.
run_swap : types (run new_tracker polls).0 ≡ inserted ∷ removed ∷ inserted ∷ []
unfolding types run tick reconcile removals removal insertions insertion same_card lookup insert
    remove list_eq nat_eq
run_swap = refl

watch-Leads_example : (m : Snapshot) × Leads [] (take 2 (run new_tracker polls).0) m
watch-Leads_example = watch-Leads 2 polls (one_map, (tt, (one_map, (one_map', (one_map', tt)))))

reconcile_lem_example :
    let t' = (reconcile (tracker_with one_card swapped) swapped noon).1 in
    let j = codes "1.1" in
    (lookup j t'.present ≡ present_after (lookup j swapped) (lookup j one_card) (lookup j swapped))
    × (lookup j t'.pending
        ≡ pending_after (lookup j swapped) (lookup j one_card) (lookup j swapped))
reconcile_lem_example =
    reconcile_lem (tracker_with one_card swapped) swapped noon (codes "1.1") one_map one_map'

reconcile_twice-Justified_example :
    All
      (Justified one_card one_card)
      (reconcile (reconcile new_tracker one_card noon).1 one_card noon).0
reconcile_twice-Justified_example =
    reconcile_twice-Justified new_tracker one_card one_card noon noon tt one_map one_map

abbrev fixtures : Config
fixtures = record {
  mock = true;
  usb_ids = codes " 05E3:0749" ∷ [];
  poll_interval = pos 0;
  fixture_dir = codes "cards";
}

abbrev triggers : List Trigger
triggers =
    put_card (codes "A") [] noon
    ∷ put_card (codes "A") [] noon
    ∷ take_card (codes "B") noon
    ∷ take_card (codes "A") noon
    ∷ []

-- An occupied slot refuses a card, and an empty one has none to take.
mock_run : types (pull_all (new_mock fixtures) triggers).sent ≡ inserted ∷ removed ∷ []
unfolding types pull_all pull mock_insert mock_remove lookup insert remove list_eq nat_eq
mock_run = refl

port_run :
    (usb_port_from_by_path (codes "pci-0000:00:14.0-usb-0:1.1:1.0-scsi-0:0:0:0") ≡ codes "1.1")
    × (usb_port_from_by_path (codes "platform-usb-3") ≡ codes "3")
    × (usb_port_from_by_path (codes "ata-1") ≡ codes "unknown")
unfolding usb_port_from_by_path cut before_byte split nat_eq
port_run = (refl, refl, refl)

-- A reader with a card of two sectors, and a disk of another vendor.
abbrev sysfs : Sysfs
sysfs = record {
  read_dir = λ d. ok (codes "usb-0:1.1:1.0" ∷ codes "usb-0:1.1:1.0-part1" ∷ codes "ata-1" ∷ []);
  eval_symlinks = λ p.
      if p == codes "/dev/disk/by-path/usb-0:1.1:1.0"
      then some (codes "/dev/sdb")
      else if p == codes "/sys/class/block/sdb"
      then some (codes "/sys/usb/block/sdb")
      else none;
  read_file = λ p.
      if p == codes "/sys/usb/idVendor"
      then some (codes "05E3\n")
      else if p == codes "/sys/usb/idProduct"
      then some (codes "0749\n")
      else if p == codes "/sys/class/block/sdb/size"
      then some (codes "2")
      else none;
  parse_uint = λ s. if s == codes "2" then some 2 else none;
}

scan : LinuxEnum → Outcome Text Snapshot
unfolding enumerate entries_from one_entry admit read_usb_attrs size_of owner must_read_trimmed
    read_trimmed usb_port_from_by_path cut before_byte split join_path base dir to_lower trim_space
    contains_text lookup insert list_eq nat_eq new_real
scan e = enumerate sysfs e

abbrev found : Snapshot
found =
    (
      codes "1.1",
      record {
        dev_path = codes "/dev/sdb";
        by_path = codes "/dev/disk/by-path/usb-0:1.1:1.0";
        serial = [];
        vendor_id = codes "05e3";
        product_id = codes "0749";
        size_bytes = 1024;
      },
    )
    ∷ []

scan_run : enumerate sysfs (new_real fixtures) ≡ ok found
unfolding scan
scan_run = refl

enumerate-IsAllowed_example : NodupKeys found × All (IsAllowed (new_real fixtures)) found
enumerate-IsAllowed_example = enumerate-IsAllowed sysfs (new_real fixtures) found scan_run

view-run_example :
    view (codes "1.1") (run new_tracker polls).1
    ≡ slot_run (view (codes "1.1") new_tracker) (map (sight_of (codes "1.1")) polls)
view-run_example =
    view-run (codes "1.1") new_tracker polls tt
      (one_map, (tt, (one_map, (one_map', (one_map', tt)))))

found_in : lookup (codes "1.1") swapped ≡ some (device (codes "S2"))
unfolding lookup list_eq nat_eq
found_in = refl

-- A card that is seen, not seen for a failed poll, and seen again.
steady-IsReported_example : IsReported (codes "1.1") (codes "S2") (
    run new_tracker
      (polls ++ (ok swapped, noon) ∷ (err (codes "busy"), noon) ∷ (ok swapped, noon) ∷ []))
steady-IsReported_example =
    steady-IsReported polls (codes "1.1") swapped swapped noon noon ((codes "busy", noon) ∷ [])
      (device (codes "S2")) (device (codes "S2"))
      (one_map, (tt, (one_map, (one_map', (one_map', tt))))) one_map' one_map' found_in found_in
      refl
