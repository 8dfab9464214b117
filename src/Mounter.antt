-- ===== src/Mounter.antt =====
-- internal/mounter/mounter.go: how a card is mounted, and the mount that the other parts see.
pub mod Real
pub mod Fake
use cardingest.Base.{Bool, true, false, Option, none, some, if◌then◌else◌}
use cardingest.Base.Strings.{Text}

-- An empty type of filesystem lets the mounter try.
pub record Options : Type 0 where
  pub read_only : Bool
  pub no_exec : Bool
  pub no_suid : Bool
  pub fs_type : Text

-- The filesystems of github.com/spf13/afero: NewBasePathFs of the system's at a directory, and
-- NewReadOnlyFs; `accepts_writes` is whether one passes writes on to what is below it.
pub record Afero : Type 1 where
  pub Fs : Type 0
  pub at_base : Text → Fs
  pub read_only : Fs → Fs
  pub accepts_writes : Fs → Bool

module _ (A : Afero) where
  -- The cleanup of a mount is that of its temporary directory, which only the fake has.
  pub record Mount : Type 0 where
    pub device : Text
    pub target : Text
    pub fs : A.Fs
    pub ro : Bool
    pub rw_base : A.Fs
    pub cleanup : Option Text

  -- fsFor
  unfoldable pub fs_for : A.Fs → Bool → A.Fs
  fs_for base ro = if ro then A.read_only base else base

  -- The fields that both mounters' Remount sets.
  abbrev pub remounted : Mount → Options → Mount
  remounted m o = record m { ro = o.read_only; fs = fs_for m.rw_base o.read_only }
