-- ===== src/Mounter/Real/Remounts.antt =====
-- The mount that internal/mounter/mounter_linux.go hands out, against what the kernel has mounted.
use cardingest.Base.{
  Bool, true, false, Option, none, some, List, [], ◌∷◌, ◌≡◌, refl, ap, ◌∙◌, Outcome, ok, not,
}
use cardingest.Base.Strings.{Text}
use cardingest.Mounter.{Options, Afero, Mount, fs_for}
use cardingest.Mounter.Real.{
  Kernel, MountError, also_if, mount_flags, types_of, mounted_at, or_next, try_types, after_mkdir,
  mount, after_remount, remount,
}

-- NewReadOnlyFs refuses writes, and NewBasePathFs passes them on.
pub record IsLawful (A : Afero) : Type 0 where
  pub read_only : (f : A.Fs) → A.accepts_writes (A.read_only f) ≡ false
  pub at_base : (dir : Text) → A.accepts_writes (A.at_base dir) ≡ true

-- What the kernel has mounted at a directory is read-only or not: a mount or a remount that succeeds
-- makes it so exactly if MS_RDONLY is among the flags, and one that fails changes nothing.
pub record Obeys (K : Kernel) : Type 0 where
  pub is_read_only : K.State → Text → Bool
  pub has_rdonly : K.Flags → Bool
  pub none_has : has_rdonly K.no_flags ≡ false
  pub rdonly_has : (f : K.Flags) → has_rdonly (K.or_flags f K.ms_rdonly) ≡ true
  pub remount_has : (f : K.Flags) → has_rdonly (K.or_flags f K.ms_remount) ≡ has_rdonly f
  pub noexec_has : (f : K.Flags) → has_rdonly (K.or_flags f K.ms_noexec) ≡ has_rdonly f
  pub nosuid_has : (f : K.Flags) → has_rdonly (K.or_flags f K.ms_nosuid) ≡ has_rdonly f
  pub mounts :
      (s : K.State) (dev target type : Text) (f : K.Flags)
      → (K.mount s dev target type f).0 ≡ none
      → is_read_only (K.mount s dev target type f).1 target ≡ has_rdonly f
  pub refuses :
      (s : K.State) (dev target type cause : Text) (f : K.Flags)
      → (K.mount s dev target type f).0 ≡ some cause
      → is_read_only (K.mount s dev target type f).1 target ≡ is_read_only s target

module _ (A : Afero) (lawful : IsLawful A) (K : Kernel) (obeys : Obeys K) where
  -- The mount is read-only as the kernel has it, and takes writes exactly if it is not.
  abbrev pub Agrees : Mount A → K.State → Type 0
  Agrees m s =
      (obeys.is_read_only s m.target ≡ m.ro)
      × (A.accepts_writes m.fs ≡ not m.ro)
      × (m.rw_base ≡ A.at_base m.target)

  abbrev IsMounted : Text → Text → Options → Mount A → K.State → Type 0
  IsMounted dev target o m s =
      (m ≡ mounted_at A K dev target o) × (obeys.is_read_only s target ≡ o.read_only)

  also_if-has :
      (b : Bool) (bit f : K.Flags)
      → obeys.has_rdonly (K.or_flags f bit) ≡ obeys.has_rdonly f
      → obeys.has_rdonly (also_if A K b bit f) ≡ obeys.has_rdonly f
  also_if-has true bit f h = h
  also_if-has false bit f h = refl

  also_if-rdonly :
      (b : Bool) (f : K.Flags)
      → obeys.has_rdonly f ≡ false
      → obeys.has_rdonly (also_if A K b K.ms_rdonly f) ≡ b
  also_if-rdonly true f h = obeys.rdonly_has f
  also_if-rdonly false f h = h

  -- Whatever the other options, MS_RDONLY is among the flags exactly if the option is set.
  mount_flags-rdonly :
      (o : Options) (remount : Bool) → obeys.has_rdonly (mount_flags A K o remount) ≡ o.read_only
  unfolding mount_flags
  mount_flags-rdonly o remount =
      also_if-has o.no_suid K.ms_nosuid _ (obeys.nosuid_has _)
      ∙ also_if-has o.no_exec K.ms_noexec _ (obeys.noexec_has _)
      ∙ also_if-rdonly o.read_only _
          (also_if-has remount K.ms_remount K.no_flags (obeys.remount_has _) ∙ obeys.none_has)

  fs_for-accepts :
      (dir : Text) (ro : Bool) → A.accepts_writes (fs_for A (A.at_base dir) ro) ≡ not ro
  unfolding fs_for
  fs_for-accepts dir true = lawful.read_only (A.at_base dir)
  fs_for-accepts dir false = lawful.at_base dir

  -- A remount, and the options of the last one that succeeded.
  unfoldable pub remount_all : Mount A → List Options → K.State → Mount A × K.State
  unfolding remount
  remount_all m [] s = (m, s)
  remount_all m (o ∷ options) s = let (e, (m', s')) = remount A K m o s in remount_all m' options s'

  or_next-Agrees :
      (dev target type : Text) (o : Options) (s s' : K.State) (x : Option Text × K.State)
      (m : Mount A) (next : Option Text → K.State → Outcome MountError (Mount A) × K.State)
      → K.mount s dev target type (mount_flags A K o false) ≡ x
      → ((cause : Text) (t : K.State)
          → next (some cause) t ≡ (ok m, s')
          → IsMounted dev target o m s')
      → or_next A K dev target o x next ≡ (ok m, s')
      → IsMounted dev target o m s'
  or_next-Agrees dev target type o s s' (none, t) m next e k h = (
    cc,
    rw (← ap (λ x. x.1) h, ← ap (λ x. x.1) e)
        (obeys.mounts s dev target type _ (ap (λ x. x.0) e) ∙ mount_flags-rdonly o false),
  )
  or_next-Agrees dev target type o s s' (some cause, t) m next e k h = k cause t h

  try_types-Agrees :
      (dev target : Text) (o : Options) (types : List Text) (last : Option Text) (s s' : K.State)
      (m : Mount A)
      → try_types A K dev target o types last s ≡ (ok m, s')
      → IsMounted dev target o m s'
  unfolding try_types
  try_types-Agrees dev target o [] last s s' m h = cc
  try_types-Agrees dev target o (type ∷ types) last s s' m h =
      or_next-Agrees dev target type o s s' _ m _ refl
        (λ cause t. try_types-Agrees dev target o types (some cause) t s' m) h

  after_mkdir-Agrees :
      (dev target : Text) (o : Options) (x : Option Text × K.State) (s' : K.State) (m : Mount A)
      → after_mkdir A K dev target o x ≡ (ok m, s')
      → IsMounted dev target o m s'
  after_mkdir-Agrees dev target o (some cause, s) s' m h = cc
  after_mkdir-Agrees dev target o (none, s) s' m h =
      try_types-Agrees dev target o (types_of A K o) none s s' m h

  mounted-Agrees :
      (dev target : Text) (o : Options) (m : Mount A) (s : K.State)
      → IsMounted dev target o m s
      → Agrees m s
  mounted-Agrees dev target o m s (e, h) = rw e (h, fs_for-accepts target o.read_only, refl)

  after_remount-Agrees :
      (m : Mount A) (o : Options) (s : K.State) (x : Option Text × K.State)
      → K.mount s [] m.target [] (mount_flags A K o true) ≡ x
      → Agrees m s
      → Agrees (after_remount A K m o x).1.0 (after_remount A K m o x).1.1
  after_remount-Agrees m o s (some cause, t) e (h, i, j) =
      (rw (← ap (λ x. x.1) e) (obeys.refuses s [] m.target [] cause _ (ap (λ x. x.0) e) ∙ h), i, j)
  after_remount-Agrees m o s (none, t) e (h, i, j) = (
    rw (← ap (λ x. x.1) e)
        (obeys.mounts s [] m.target [] _ (ap (λ x. x.0) e) ∙ mount_flags-rdonly o true),
    rw j (fs_for-accepts m.target o.read_only),
    j,
  )

  remount_all-Agrees :
      (m : Mount A) (options : List Options) (s : K.State)
      → Agrees m s
      → Agrees (remount_all m options s).0 (remount_all m options s).1
  unfolding remount_all remount
  remount_all-Agrees m [] s h = h
  remount_all-Agrees m (o ∷ options) s h =
      remount_all-Agrees (remount A K m o s).1.0 options (remount A K m o s).1.1
        (after_remount-Agrees m o s _ refl h)

  -- Let the kernel have a mount read-only by the flag of its last mount or remount that succeeded, and
  -- let afero's read-only filesystem, and no other, refuse writes. Where Mount succeeds, the mount is
  -- read-only exactly if that was asked for; and then, and after any remounts, of which some may fail,
  -- the kernel has it read-only exactly if the mount says so, and its filesystem takes writes exactly
  -- if it does not.
  pub mount-remount_all-Agrees :
      (dev target : Text) (o : Options) (options : List Options) (s s' : K.State) (m : Mount A)
      → mount A K dev target o s ≡ (ok m, s')
      → (m.ro ≡ o.read_only)
        × Agrees m s'
        × Agrees (remount_all m options s').0 (remount_all m options s').1
  unfolding mount
  mount-remount_all-Agrees dev target o options s s' m h =
      let mounted = after_mkdir-Agrees dev target o (K.mkdir_all s target) s' m h in
      let agrees = mounted-Agrees dev target o m s' mounted in
      (ap (λ x. x.ro) mounted.0, agrees, remount_all-Agrees m options s' agrees)
