-- ===== src/Mounter/Real.antt =====
-- The mounter of internal/mounter/mounter_linux.go. The system's calls are a parameter.
pub mod Tries
pub mod Remounts
mod Samples
use cardingest.Base.{
  Bool, true, false, Option, none, some, List, [], ◌∷◌, Outcome, ok, err, ◌==◌, list_eq, nat_eq,
  if◌then◌else◌,
}
use cardingest.Base.Strings.{Text, codes}
use cardingest.Mounter.{Options, Afero, Mount, fs_for, remounted}

-- mount(2), umount2(2) and sync(2) as golang.org/x/sys/unix has them, with the flags that the
-- mounter uses and their `|`, and MkdirAll and Remove of package os.
pub record Kernel : Type 1 where
  pub State : Type 0
  pub Flags : Type 0
  pub no_flags : Flags
  pub or_flags : Flags → Flags → Flags
  pub ms_remount : Flags
  pub ms_rdonly : Flags
  pub ms_noexec : Flags
  pub ms_nosuid : Flags
  pub mnt_detach : Flags
  pub mkdir_all : State → Text → Option Text × State
  pub mount : State → Text → Text → Text → Flags → Option Text × State
  pub unmount : State → Text → Flags → Option Text × State
  pub remove : State → Text → Option Text × State
  pub sync : State → State

pub data MountError : Type 0 where
  create_target : Text → Text → MountError
  mount_at : Text → Text → Option Text → MountError
  remount_at : Text → Text → MountError
  unmount_at : Text → Text → MountError

-- fsTypes
abbrev pub fs_types : List Text
fs_types = codes "exfat" ∷ codes "vfat" ∷ []

module _ (A : Afero) (K : Kernel) where
  abbrev pub also_if : Bool → K.Flags → K.Flags → K.Flags
  also_if b bit flags = if b then K.or_flags flags bit else flags

  -- mountFlags
  unfoldable pub mount_flags : Options → Bool → K.Flags
  mount_flags o remount =
      let remounting = also_if remount K.ms_remount K.no_flags in
      let reading = also_if o.read_only K.ms_rdonly remounting in
      let inert = also_if o.no_exec K.ms_noexec reading in also_if o.no_suid K.ms_nosuid inert

  -- The types that Mount tries.
  unfoldable pub types_of : Options → List Text
  unfolding list_eq
  types_of o = if o.fs_type == [] then fs_types else o.fs_type ∷ []

  abbrev pub mounted_at : Text → Text → Options → Mount A
  mounted_at dev target o = record {
    device = dev;
    target = target;
    fs = fs_for A (A.at_base target) o.read_only;
    ro = o.read_only;
    rw_base = A.at_base target;
    cleanup = none;
  }

  -- A type that the kernel mounts ends the loop, and its refusal is the last error so far.
  abbrev pub or_next :
      Text
      → Text
      → Options
      → Option Text × K.State
      → (Option Text → K.State → Outcome MountError (Mount A) × K.State)
      → Outcome MountError (Mount A) × K.State
  or_next dev target o (none, s) next = (ok (mounted_at dev target o), s)
  or_next dev target o (some cause, s) next = next (some cause) s

  -- The loop over the types.
  unfoldable pub try_types :
      Text
      → Text
      → Options
      → List Text
      → Option Text
      → K.State
      → Outcome MountError (Mount A) × K.State
  unfolding mount_flags
  try_types dev target o [] last s = (err (mount_at dev target last), s)
  try_types dev target o (type ∷ types) last s =
      or_next dev target o (K.mount s dev target type (mount_flags o false))
        (λ last s. try_types dev target o types last s)

  abbrev pub after_mkdir :
      Text → Text → Options → Option Text × K.State → Outcome MountError (Mount A) × K.State
  after_mkdir dev target o (some cause, s) = (err (create_target target cause), s)
  after_mkdir dev target o (none, s) = try_types dev target o (types_of o) none s

  -- Mount
  unfoldable pub mount : Text → Text → Options → K.State → Outcome MountError (Mount A) × K.State
  unfolding try_types types_of
  mount dev target o s = after_mkdir dev target o (K.mkdir_all s target)

  abbrev pub after_remount :
      Mount A → Options → Option Text × K.State → Option MountError × (Mount A × K.State)
  after_remount m o (some cause, s) = (some (remount_at m.target cause), (m, s))
  after_remount m o (none, s) = (none, (remounted A m o, s))

  -- Remount
  unfoldable pub remount : Mount A → Options → K.State → Option MountError × (Mount A × K.State)
  unfolding mount_flags
  remount m o s = after_remount m o (K.mount s [] m.target [] (mount_flags o true))

  abbrev pub removed : Mount A → K.State → Option MountError × K.State
  removed m s = (none, (K.remove s m.target).1)

  -- The second try, of a lazy detach, whose error is not the one that is returned.
  abbrev pub after_detach : Mount A → Text → Option Text × K.State → Option MountError × K.State
  after_detach m cause (some again, s) = (some (unmount_at m.target cause), s)
  after_detach m cause (none, s) = removed m s

  abbrev pub after_unmount : Mount A → Option Text × K.State → Option MountError × K.State
  after_unmount m (some cause, s) = after_detach m cause (K.unmount s m.target K.mnt_detach)
  after_unmount m (none, s) = removed m s

  -- Unmount
  unfoldable pub unmount : Mount A → K.State → Option MountError × K.State
  unmount m s = after_unmount m (K.unmount s m.target K.no_flags)

  -- Sync, and Eject, which only syncs.
  unfoldable pub sync : Mount A → K.State → Option MountError × K.State
  sync m s = (none, K.sync s)

  unfoldable pub eject : Text → K.State → Option MountError × K.State
  eject dev s = (none, K.sync s)
