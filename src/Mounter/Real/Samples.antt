-- ===== src/Mounter/Real/Samples.antt =====
-- A kernel that knows vfat alone.
use cardingest.Base.{
  ℕ, Bool, true, false, Option, none, some, List, [], ◌∷◌, ◌++◌, ◌≡◌, refl, ap, ◌∙◌, arith, Outcome,
  ok, ◌==◌, list_eq, nat_eq, contains,
}
use cardingest.Base.Maps.{Map, lookup, insert, lookup-insert}
use cardingest.Base.Strings.{Text, codes}
use cardingest.Mounter.{Options, Afero, Mount, fs_for}
use cardingest.Mounter.Real.{
  Kernel, MountError, mount, mount_flags, mounted_at, types_of, try_types,
}
use cardingest.Mounter.Real.Remounts.{
  IsLawful, Obeys, Agrees, remount_all, mount-remount_all-Agrees,
}
use cardingest.Mounter.Real.Tries.{Ends, mount-Ends}

-- A filesystem is the directory it stands at, and whether it takes writes.
abbrev afero : Afero
afero = record {
  Fs = Text × Bool;
  at_base = λ dir. (dir, true);
  read_only = λ f. (f.0, false);
  accepts_writes = λ f. f.1;
}

afero-IsLawful : IsLawful afero
afero-IsLawful = record { read_only = λ f. refl; at_base = λ dir. refl }

-- What is mounted where, and whether read-only. A mount without a type is a remount.
abbrev answered : Bool → Map Text Bool → Text → Bool → Option Text × Map Text Bool
answered true s target ro = (none, insert target ro s)
answered false s target ro = (some (codes "unknown filesystem"), s)

abbrev knows : Text → Bool
knows [] = true
knows (c ∷ type) = c == 118

abbrev kernel : Kernel
kernel = record {
  State = Map Text Bool;
  Flags = List ℕ;
  no_flags = [];
  or_flags = λ f bit. bit ++ f;
  ms_remount = 32 ∷ [];
  ms_rdonly = 1 ∷ [];
  ms_noexec = 8 ∷ [];
  ms_nosuid = 2 ∷ [];
  mnt_detach = 2 ∷ [];
  mkdir_all = λ s dir. (none, s);
  mount = λ s dev target type f. answered (knows type) s target (contains f 1);
  unmount = λ s target f. (none, s);
  remove = λ s path. (none, s);
  sync = λ s. s;
}

abbrev or_false : Option Bool → Bool
or_false none = false
or_false (some b) = b

kernel-Obeys : Obeys kernel
unfolding nat_eq
kernel-Obeys = record {
  is_read_only = λ s target. or_false (lookup target s);
  has_rdonly = λ f. contains f 1;
  none_has = refl;
  rdonly_has = λ f. refl;
  remount_has = λ f. refl;
  noexec_has = λ f. refl;
  nosuid_has = λ f. refl;
  mounts = λ s dev target type f h. mounts (knows type) s target (contains f 1) h;
  refuses = λ s dev target type cause f h. refuses (knows type) s target cause (contains f 1) h;
}
  where
    mounts :
        (known : Bool) (s : Map Text Bool) (target : Text) (ro : Bool)
        → (answered known s target ro).0 ≡ none
        → or_false (lookup target (answered known s target ro).1) ≡ ro
    mounts true s target ro h =
        ap or_false {y = some ro} (lookup-insert target target ro s ∙ ground arith)
    mounts false s target ro h = absurd (ground arith)

    refuses :
        (known : Bool) (s : Map Text Bool) (target cause : Text) (ro : Bool)
        → (answered known s target ro).0 ≡ some cause
        → or_false (lookup target (answered known s target ro).1) ≡ or_false (lookup target s)
    refuses true s target cause ro h = absurd (ground arith)
    refuses false s target cause ro h = refl

abbrev read_only : Options
read_only = record { read_only = true; no_exec = true; no_suid = true; fs_type = [] }

abbrev writable : Options
writable = record { read_only = false; no_exec = true; no_suid = true; fs_type = [] }

abbrev dev : Text
dev = codes "/dev/sdb1"

abbrev target : Text
target = codes "/mnt/1.1"

mounted : Outcome MountError (Mount afero) × Map Text Bool
unfolding mount types_of try_types mount_flags fs_for insert list_eq nat_eq
mounted = mount afero kernel dev target read_only []

mount_run : mounted ≡ (ok (mounted_at afero kernel dev target read_only), (target, true) ∷ [])
unfolding mounted
mount_run = refl

mount-Ends_example :
    Ends afero kernel dev target read_only
      (types_of afero kernel read_only)
      none
      []
      (mount afero kernel dev target read_only [])
mount-Ends_example = mount-Ends afero kernel dev target read_only [] [] refl

mounted_well :
    mount afero kernel dev target read_only []
    ≡ (ok (mounted_at afero kernel dev target read_only), (target, true) ∷ [])
unfolding mounted
mounted_well = mount_run

mount-remount_all-Agrees_example :
    let m = mounted_at afero kernel dev target read_only in
    (m.ro ≡ true)
    × Agrees afero afero-IsLawful kernel kernel-Obeys m ((target, true) ∷ [])
    × Agrees afero afero-IsLawful kernel kernel-Obeys
        (remount_all afero afero-IsLawful kernel kernel-Obeys m
          (writable ∷ [])
          ((target, true) ∷ [])).0
        (remount_all afero afero-IsLawful kernel kernel-Obeys m
          (writable ∷ [])
          ((target, true) ∷ [])).1
mount-remount_all-Agrees_example =
    mount-remount_all-Agrees afero afero-IsLawful kernel kernel-Obeys dev target read_only
      (writable ∷ []) [] ((target, true) ∷ []) (mounted_at afero kernel dev target read_only)
      mounted_well
