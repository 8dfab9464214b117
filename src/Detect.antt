-- ===== src/Detect.antt =====
-- The card detector of internal/detect: its events and its configuration.
pub mod Tracker
pub mod Trace
pub mod Diff
pub mod Debounce
pub mod Poll
pub mod Refine
pub mod Steady
pub mod Mock
pub mod Linux
pub mod Samples
use cardingest.Base.{ℕ, ◌*◌, ◌^◌, Bool, List, ◌∷◌, if◌then◌else◌}
use cardingest.Base.Int.{ℤ, pos, leb_ℤ}
use cardingest.Base.Maps.{Map}
use cardingest.Base.Strings.{Text, codes}
use cardingest.Card.{SlotName, DeviceInfo, Time}

pub data EventType : Type 0 where
  inserted removed : EventType

-- EventType.String, of the two values that the code makes.
unfoldable pub event_type_text : EventType → Text
event_type_text inserted = codes "inserted"
event_type_text removed = codes "removed"

pub record Event : Type 0 where
  pub type : EventType
  pub slot : SlotName
  pub device : DeviceInfo
  pub at : Time

-- The devices observed at one time.
abbrev pub Snapshot : Type 0
Snapshot = Map SlotName DeviceInfo

-- The errors of `Watch` and of the mock's triggers.
pub data DetectError : Type 0 where
  already_watching no_fixture_dir : DetectError
  slot_occupied slot_empty : SlotName → DetectError

-- `Config`, without the injectable clock. The interval is a time.Duration.
pub record Config : Type 0 where
  pub mock : Bool
  pub usb_ids : List Text
  pub poll_interval : ℤ
  pub fixture_dir : Text

-- `New` gives an interval that is not positive the default of two seconds.
unfoldable pub with_defaults : Config → Config
with_defaults cfg =
    if leb_ℤ cfg.poll_interval (pos 0) then record cfg { poll_interval = pos (2 * 10 ^ 9) } else cfg
