-- ===== src/Mounter/Fake.antt =====
-- The simulated mounter of internal/mounter/fake.go, which mounts a copy of a directory. The calls of
-- the packages os, io and path/filepath are a parameter.
pub mod Fixture
mod Samples
use cardingest.Base.{
  ℕ, Bool, true, false, Option, none, some, List, [], ◌∷◌, Outcome, ok, err, ◌==◌, list_eq, nat_eq,
  if◌then◌else◌,
}
use cardingest.Base.Strings.{Text, codes, dir, join_path}
use cardingest.Mounter.{Options, Afero, Mount, fs_for, remounted}

-- Stat says whether there is a directory. WalkDir calls its function on each path below the root,
-- with the path's error or whether it is a directory, and ends with the first error of it.
pub record Os : Type 1 where
  pub State : Type 0
  pub is_dir : State → Text → Outcome Text Bool
  pub mkdir_temp : State → Text → Text → Outcome Text Text × State
  pub mkdir_all : State → Text → Option Text × State
  pub remove_all : State → Text → Option Text × State
  pub walk_dir :
      State → Text → (State → Text → Outcome Text Bool → Option Text × State) → Option Text × State
  pub rel : Text → Text → Outcome Text Text
  pub open_file : State → Text → Option Text
  pub create : State → Text → Option Text × State
  pub copy : State → Text → Text → Option Text × State
  pub close : State → Text → Option Text × State

pub data FakeError : Type 0 where
  stat_device : Text → Text → FakeError
  not_a_directory : Text → FakeError
  temp_dir : Text → FakeError
  copy_card : Text → FakeError
  clean_up : Text → FakeError

module _ (A : Afero) (O : Os) where
  -- The rest of copyFile after each call that may fail.
  abbrev pub after_copy : Text → Option Text × O.State → Option Text × O.State
  after_copy dst (some cause, s) = (some cause, (O.close s dst).1)
  after_copy dst (none, s) = O.close s dst

  abbrev pub after_create : Text → Text → Option Text × O.State → Option Text × O.State
  after_create src dst (some cause, s) = (some cause, s)
  after_create src dst (none, s) = after_copy dst (O.copy s dst src)

  abbrev pub after_parents : Text → Text → Option Text × O.State → Option Text × O.State
  after_parents src dst (some cause, s) = (some cause, s)
  after_parents src dst (none, s) = after_create src dst (O.create s dst)

  abbrev pub after_open : Text → Text → O.State → Option Text → Option Text × O.State
  after_open src dst s (some cause) = (some cause, s)
  after_open src dst s none = after_parents src dst (O.mkdir_all s (dir dst))

  -- copyFile
  unfoldable pub copy_file : O.State → Text → Text → Option Text × O.State
  unfolding dir
  copy_file s src dst = after_open src dst s (O.open_file s src)

  abbrev pub copy_to : Text → O.State → Text → Bool → Outcome Text Text → Option Text × O.State
  copy_to dst s path is_dir (err cause) = (some cause, s)
  copy_to dst s path true (ok rel) = O.mkdir_all s (join_path dst rel)
  copy_to dst s path false (ok rel) = copy_file s path (join_path dst rel)

  -- The function of the walk.
  abbrev pub copy_entry : Text → Text → O.State → Text → Outcome Text Bool → Option Text × O.State
  copy_entry src dst s path (err cause) = (some cause, s)
  copy_entry src dst s path (ok is_dir) = copy_to dst s path is_dir (O.rel src path)

  -- copyTree
  unfoldable pub copy_tree : O.State → Text → Text → Option Text × O.State
  unfolding copy_file join_path
  copy_tree s src dst = O.walk_dir s src (copy_entry src dst)

  abbrev pub root_if : Text → Outcome Text Bool → Text
  root_if root (ok true) = root
  root_if root found = []

  -- tempParent
  unfoldable pub temp_parent : O.State → Text → Text
  unfolding list_eq
  temp_parent s root = if root == [] then [] else root_if root (O.is_dir s root)

  abbrev pub after_tree :
      Text → Text → Options → Option Text × O.State → Outcome FakeError (Mount A) × O.State
  after_tree dev tmp o (some cause, s) = (err (copy_card cause), (O.remove_all s tmp).1)
  after_tree dev tmp o (none, s) = (
    ok (record {
      device = dev;
      target = tmp;
      fs = fs_for A (A.at_base tmp) o.read_only;
      ro = o.read_only;
      rw_base = A.at_base tmp;
      cleanup = some tmp;
    }),
    s,
  )

  abbrev pub after_temp :
      Text → Options → Outcome Text Text × O.State → Outcome FakeError (Mount A) × O.State
  after_temp dev o (err cause, s) = (err (temp_dir cause), s)
  after_temp dev o (ok tmp, s) = after_tree dev tmp o (copy_tree s dev tmp)

  abbrev pub after_stat :
      Text → Text → Options → O.State → Outcome Text Bool → Outcome FakeError (Mount A) × O.State
  after_stat root dev o s (err cause) = (err (stat_device dev cause), s)
  after_stat root dev o s (ok false) = (err (not_a_directory dev), s)
  after_stat root dev o s (ok true) =
      after_temp dev o (O.mkdir_temp s (temp_parent s root) (codes "cardingest-mock-"))

  -- Mount, of a mounter with that root.
  unfoldable pub fake_mount :
      Text → Text → Options → O.State → Outcome FakeError (Mount A) × O.State
  unfolding copy_tree temp_parent
  fake_mount root dev o s = after_stat root dev o s (O.is_dir s dev)

  -- Remount
  abbrev pub fake_remount : Mount A → Options → Option FakeError × Mount A
  fake_remount m o = (none, remounted A m o)

  abbrev pub cleaned : Option Text × O.State → Option FakeError × O.State
  cleaned (none, s) = (none, s)
  cleaned (some cause, s) = (some (clean_up cause), s)

  abbrev pub cleanup_of : Option Text → O.State → Option FakeError × O.State
  cleanup_of none s = (none, s)
  cleanup_of (some tmp) s = cleaned (O.remove_all s tmp)

  -- Unmount
  unfoldable pub fake_unmount : Mount A → O.State → Option FakeError × O.State
  fake_unmount m s = cleanup_of m.cleanup s
