-- ===== src/Mounter/Real/Tries.antt =====
-- Which filesystem Mount and Unmount of internal/mounter/mounter_linux.go end with.
use cardingest.Base.{
  false, Option, none, some, List, [], ◌∷◌, ◌++◌, ◌≡◌, refl, ap, Outcome, ok, err,
}
use cardingest.Base.Strings.{Text}
use cardingest.Mounter.{Options, Afero, Mount}
use cardingest.Mounter.Real.{
  Kernel, MountError, mount_at, mount_flags, types_of, mounted_at, or_next, try_types, mount,
}

module _ (A : Afero) (K : Kernel) (dev target : Text) (o : Options) where
  -- The kernel's answer to a mount of a type.
  abbrev tried : Text → K.State → Option Text × K.State
  tried type s = K.mount s dev target type (mount_flags A K o false)

  -- From one state to another, the kernel refuses the types in their order, the last with that error.
  pub data Refuses : List Text → Option Text → K.State → Option Text → K.State → Type 0 where
    nothing : {last : Option Text} {s : K.State} → Refuses [] last s last s
    refused :
        {type cause : Text} {types : List Text} {last final : Option Text} {s t u : K.State}
        → tried type s ≡ (some cause, t)
        → Refuses types (some cause) t final u
        → Refuses (type ∷ types) last s final u

  -- Mounted with a type, after the kernel has refused all before it; or refused with all, and then
  -- the error is that of the last.
  abbrev pub Ends :
      List Text → Option Text → K.State → Outcome MountError (Mount A) × K.State → Type 0
  Ends types last s (ok m, s') =
      (before : List Text) × (type : Text) × (after : List Text) × (at : Option Text)
      × (t : K.State) × (types ≡ before ++ type ∷ after)
      × Refuses before last s at t
      × (tried type t ≡ (none, s'))
      × (m ≡ mounted_at A K dev target o)
  Ends types last s (err e, s') =
      (final : Option Text) × (e ≡ mount_at dev target final) × Refuses types last s final s'

  Ends-later :
      (type cause : Text) (types : List Text) (last : Option Text) (s t : K.State)
      (r : Outcome MountError (Mount A) × K.State)
      → tried type s ≡ (some cause, t)
      → Ends types (some cause) t r
      → Ends (type ∷ types) last s r
  Ends-later type cause types last s t (ok m, s') e
        (before, ty, after, at, u, split, r, accepted, same) =
      (type ∷ before, ty, after, at, u, ap (λ ts. type ∷ ts) split, refused e r, accepted, same)
  Ends-later type cause types last s t (err x, s') e (final, same, r) = (final, same, refused e r)

  or_next-Ends :
      (type : Text) (types : List Text) (last : Option Text) (s : K.State)
      (x : Option Text × K.State)
      (next : Option Text → K.State → Outcome MountError (Mount A) × K.State)
      → tried type s ≡ x
      → ((cause : Text) (t : K.State) → Ends types (some cause) t (next (some cause) t))
      → Ends (type ∷ types) last s (or_next A K dev target o x next)
  or_next-Ends type types last s (none, t) next e k =
      ([], type, types, last, s, refl, nothing, e, refl)
  or_next-Ends type types last s (some cause, t) next e k =
      Ends-later type cause types last s t (next (some cause) t) e (k cause t)

  try_types-Ends :
      (types : List Text) (last : Option Text) (s : K.State)
      → Ends types last s (try_types A K dev target o types last s)
  unfolding try_types
  try_types-Ends [] last s = (last, refl, nothing)
  try_types-Ends (type ∷ types) last s =
      or_next-Ends type types last s _ _ refl (λ cause t. try_types-Ends types (some cause) t)

  -- Once the target is there, Mount mounts the card with the first of the types that the kernel takes
  -- after refusing all before it; it fails only where the kernel refuses every type, and then with
  -- the error of the last one.
  pub mount-Ends :
      (s t : K.State)
      → K.mkdir_all s target ≡ (none, t)
      → Ends (types_of A K o) none t (mount A K dev target o s)
  unfolding mount
  mount-Ends s t made = rw made (try_types-Ends (types_of A K o) none t)
