-- ===== src/Card.antt =====
-- The shared domain types of internal/card/card.go, and the dates of Go's `time` as the program
-- uses them.
use cardingest.Base.{ℕ, ◌++◌, ◌∷◌}
use cardingest.Base.Strings.{Text, padded}

-- card.Slot, the name of a reader port.
abbrev pub SlotName : Type 0
SlotName = Text

pub record DeviceInfo : Type 0 where
  pub dev_path : Text
  pub by_path : Text
  pub serial : Text
  pub vendor_id : Text
  pub product_id : Text
  pub size_bytes : ℕ

-- A time.Time: its civil date in its own location, and the nanoseconds since midnight.
pub record Time : Type 0 where
  pub year : ℕ
  pub month : ℕ
  pub day : ℕ
  pub nanos : ℕ

-- t.Format("2006-01-02"), for the years 0 to 9999.
unfoldable pub format_date : Time → Text
unfolding padded
format_date t = padded 4 t.year ++ b'-' ∷ padded 2 t.month ++ b'-' ∷ padded 2 t.day

-- A size is an int64 that is not negative.
pub record FileEntry : Type 0 where
  pub path : Text
  pub size : ℕ
  pub mod_time : Time
