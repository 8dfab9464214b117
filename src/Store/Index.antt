-- ===== src/Store/Index.antt =====
-- The table of verified hashes of internal/store/sqlite.go as the index that the pipeline uses.
use cardingest.Base.{true, false, none, ◌≡◌, arith, ok, ◌==◌, list_eq, nat_eq, if◌then◌else◌}
use cardingest.Base.Strings.{Text}
use cardingest.Store.{Sqlite, seen, mark_verified}
use cardingest.Pipeline.{Index}
use cardingest.Pipeline.Safety.{IsLawfulIndex}

-- The database as a store.Store, without the driver's errors.
abbrev pub sqlite_index : Index
sqlite_index = record {
  State = Sqlite;
  seen = λ s h. ok (seen s h);
  mark_verified = λ s h. (none, mark_verified s h);
}

-- store.Noop
abbrev pub noop_index : Index
noop_index = record { State = Unit {0}; seen = λ s h. ok false; mark_verified = λ s h. (none, s) }

-- A hash is found exactly if it was marked or was there before.
pub seen-mark_verified :
    (s : Sqlite) (h k : Text) → seen (mark_verified s h) k ≡ (if k == h then true else seen s k)
unfolding seen mark_verified
seen-mark_verified s h k = ground arith

pub sqlite_index-IsLawful : IsLawfulIndex sqlite_index
sqlite_index-IsLawful = record {
  seen-mark_self = λ s h e. ground (arith, seen-mark_verified s h h);
  seen-mark_keeps = λ s h k e. ground (arith, seen-mark_verified s h k);
  seen-mark_sound = λ s h k e. ground (arith, seen-mark_verified s h k);
}
