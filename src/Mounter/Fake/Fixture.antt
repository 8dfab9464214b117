-- ===== src/Mounter/Fake/Fixture.antt =====
-- What internal/mounter/fake.go leaves of the files that are there.
use cardingest.Base.{
  ℕ, Bool, true, false, Option, none, some, List, [], ◌∷◌, ◌≡◌, ◌≢◌, refl, ◌∙◌, Outcome, ok, err,
  not, ◌++◌,
}
use cardingest.Base.Strings.{Text, codes, slash, dir, join_path, contains_text}
use cardingest.Mounter.{Options, Afero, Mount}
use cardingest.Mounter.Fake.{
  Os, FakeError, after_copy, after_create, after_parents, after_open, copy_file, copy_to,
  copy_entry, copy_tree, after_tree, after_temp, after_stat, fake_mount, cleaned, fake_unmount,
}

-- No element of the path is `..`.
unfoldable pub is_local : Text → Bool
unfolding contains_text
is_local r = not (contains_text (slash ∷ r ++ slash ∷ []) (codes "/../"))

-- The path is not below the directory.
abbrev pub IsOutside : Text → Text → Type 0
IsOutside dir q = (r : Text) → is_local r ≡ true → join_path dir r ≢ q

-- The contents of the file at a path, if there is one: which calls leave them. A directory that
-- MkdirTemp makes is new, so that a file that was there is outside of it, and a walk does what its
-- calls of the function do, each of a path that is below the root.
pub record IsLawful (O : Os) : Type 1 where
  pub read : O.State → Text → Option (List ℕ)
  pub fresh :
      (s : O.State) (parent pattern tmp q : Text) (b : List ℕ)
      → (O.mkdir_temp s parent pattern).0 ≡ ok tmp
      → read s q ≡ some b
      → IsOutside tmp q
  pub read-mkdir_temp :
      (s : O.State) (parent pattern q : Text) → read (O.mkdir_temp s parent pattern).1 q ≡ read s q
  pub read-mkdir_all : (s : O.State) (p q : Text) → read (O.mkdir_all s p).1 q ≡ read s q
  pub read-remove_all :
      (s : O.State) (p q : Text) → IsOutside p q → read (O.remove_all s p).1 q ≡ read s q
  pub read-create : (s : O.State) (p q : Text) → p ≢ q → read (O.create s p).1 q ≡ read s q
  pub read-copy : (s : O.State) (p src q : Text) → p ≢ q → read (O.copy s p src).1 q ≡ read s q
  pub read-close : (s : O.State) (p q : Text) → read (O.close s p).1 q ≡ read s q
  pub walk-keeps :
      (P : O.State → Type 0) (root : Text)
      (visit : O.State → Text → Outcome Text Bool → Option Text × O.State)
      → ((s : O.State) (path : Text) (found : Outcome Text Bool)
          → ((r : Text) → O.rel root path ≡ ok r → is_local r ≡ true)
          → P s
          → P (visit s path found).1)
      → (s : O.State) → P s
      → P (O.walk_dir s root visit).1

module _ (A : Afero) (O : Os) (lawful : IsLawful O) (q : Text) (b : List ℕ) where
  abbrev Holds : O.State → Type 0
  Holds s = lawful.read s q ≡ some b

  copy_file-Holds :
      (s : O.State) (src dst : Text) → dst ≢ q → Holds s → Holds (copy_file A O s src dst).1
  unfolding copy_file
  copy_file-Holds s src dst n h = opened (O.open_file s src)
    where
      copied : (x : Option Text × O.State) → Holds x.1 → Holds (after_copy A O dst x).1
      copied (some cause, t) k = lawful.read-close t dst q ∙ k
      copied (none, t) k = lawful.read-close t dst q ∙ k

      created : (x : Option Text × O.State) → Holds x.1 → Holds (after_create A O src dst x).1
      created (some cause, t) k = k
      created (none, t) k = copied (O.copy t dst src) (lawful.read-copy t dst src q n ∙ k)

      made : (x : Option Text × O.State) → Holds x.1 → Holds (after_parents A O src dst x).1
      made (some cause, t) k = k
      made (none, t) k = created (O.create t dst) (lawful.read-create t dst q n ∙ k)

      opened : (answer : Option Text) → Holds (after_open A O src dst s answer).1
      opened (some cause) = h
      opened none = made (O.mkdir_all s (dir dst)) (lawful.read-mkdir_all s (dir dst) q ∙ h)

  copy_entry-Holds :
      (src dst : Text)
      → IsOutside dst q
      → (s : O.State) (path : Text) (found : Outcome Text Bool)
      → ((r : Text) → O.rel src path ≡ ok r → is_local r ≡ true)
      → Holds s
      → Holds (copy_entry A O src dst s path found).1
  copy_entry-Holds src dst out s path (err cause) below h = h
  copy_entry-Holds src dst out s path (ok is_dir) below h = placed is_dir (O.rel src path) refl
    where
      placed :
          (is_dir : Bool) (rel : Outcome Text Text)
          → O.rel src path ≡ rel
          → Holds (copy_to A O dst s path is_dir rel).1
      placed is_dir (err cause) e = h
      placed true (ok rel) e = lawful.read-mkdir_all s (join_path dst rel) q ∙ h
      placed false (ok rel) e = copy_file-Holds s path (join_path dst rel) (out rel (below rel e)) h

  copy_tree-Holds :
      (s : O.State) (src dst : Text) → IsOutside dst q → Holds s → Holds (copy_tree A O s src dst).1
  unfolding copy_tree
  copy_tree-Holds s src dst out h =
      lawful.walk-keeps Holds src (copy_entry A O src dst) (copy_entry-Holds src dst out) s h

  -- The file has its contents after Mount, and after Unmount from a later state.
  abbrev pub IsSpared : O.State → Outcome FakeError (Mount A) × O.State → Type 0
  IsSpared t (ok m, s) = Holds s × Holds (fake_unmount A O m t).1
  IsSpared t (err e, s) = Holds s

  unmount-Holds :
      (m : Mount A) (tmp : Text) (t : O.State)
      → m.cleanup ≡ some tmp
      → IsOutside tmp q
      → Holds t
      → Holds (fake_unmount A O m t).1
  unfolding fake_unmount
  unmount-Holds m tmp t e out h =
      rw e (answered (O.remove_all t tmp) (lawful.read-remove_all t tmp q out ∙ h))
    where
      answered : (x : Option Text × O.State) → Holds x.1 → Holds (cleaned A O x).1
      answered (none, u) k = k
      answered (some cause, u) k = k

  after_tree-IsSpared :
      (t : O.State) (dev tmp : Text) (o : Options) (x : Option Text × O.State)
      → IsOutside tmp q
      → Holds x.1
      → Holds t
      → IsSpared t (after_tree A O dev tmp o x)
  after_tree-IsSpared t dev tmp o (some cause, s) out h k = lawful.read-remove_all s tmp q out ∙ h
  after_tree-IsSpared t dev tmp o (none, s) out h k = (h, unmount-Holds _ tmp t refl out k)

  after_temp-IsSpared :
      (t : O.State) (dev : Text) (o : Options) (x : Outcome Text Text × O.State)
      → ((tmp : Text) → x.0 ≡ ok tmp → IsOutside tmp q)
      → Holds x.1
      → Holds t
      → IsSpared t (after_temp A O dev o x)
  after_temp-IsSpared t dev o (err cause, s) out h k = h
  after_temp-IsSpared t dev o (ok tmp, s) out h k =
      after_tree-IsSpared t dev tmp o (copy_tree A O s dev tmp) (out tmp refl)
        (copy_tree-Holds s dev tmp (out tmp refl) h) k

  after_stat-IsSpared :
      (t : O.State) (root dev : Text) (o : Options) (s : O.State) (found : Outcome Text Bool)
      → Holds s
      → Holds t
      → IsSpared t (after_stat A O root dev o s found)
  after_stat-IsSpared t root dev o s (err cause) h k = h
  after_stat-IsSpared t root dev o s (ok false) h k = h
  after_stat-IsSpared t root dev o s (ok true) h k =
      after_temp-IsSpared t dev o _ (λ tmp made. lawful.fresh s _ _ tmp q b made h)
        (lawful.read-mkdir_temp s _ _ q ∙ h) k

  -- Where the system's calls change no files but those that they are told to, and a new temporary
  -- directory holds none of the files there are: whatever the simulated mounter is given, and whether
  -- it mounts or fails, a file that was there has its contents after; and if it mounts, Unmount leaves
  -- the file's contents too, from any later state in which the file still has them.
  pub fake_mount-IsSpared :
      (root dev : Text) (o : Options) (s t : O.State)
      → lawful.read s q ≡ some b
      → lawful.read t q ≡ some b
      → IsSpared t (fake_mount A O root dev o s)
  unfolding fake_mount
  fake_mount-IsSpared root dev o s t h k = after_stat-IsSpared t root dev o s (O.is_dir s dev) h k
