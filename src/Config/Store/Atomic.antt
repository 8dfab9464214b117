-- ===== src/Config/Store/Atomic.antt =====
-- `Save` of internal/config/file.go is all or nothing, and `Load` reads back what it has saved.
use cardingest.Base.{Option, none, some, ◌≡◌, ◌≢◌, refl, ap, ◌∙◌, arith, Outcome, ok, err}
use cardingest.Base.Strings.{Text, dir}
use cardingest.Config.{File}
use cardingest.Config.Store.{
  Disk, Yaml, StoreError, PolicyStore, parse_file, load, new_store, after_rename, after_close,
  after_write, cleaned_up, after_create, after_marshal, save,
}

-- What is relied on of the disk, for the policy's path and the temporary names that it is given: the
-- names differ from the path, an operation leaves other files alone, what was written without an
-- error is read back, and a rename moves the file or, if it fails, leaves its target alone.
pub record IsReliable (D : Disk) (path : Text) : Type 0 where
  pub temp-ne : (s : D.State) (d tmp : Text) → (D.create_temp s d).0 ≡ ok tmp → tmp ≢ path
  pub read-create_temp :
      (s : D.State) (d : Text) → D.read_file (D.create_temp s d).1 path ≡ D.read_file s path
  pub read-write_other :
      (s : D.State) (p text : Text)
      → p ≢ path
      → D.read_file (D.write s p text).1 path ≡ D.read_file s path
  pub read-write :
      (s : D.State) (p text : Text)
      → (D.write s p text).0 ≡ none
      → D.read_file (D.write s p text).1 p ≡ ok text
  pub read-close : (s : D.State) (p q : Text) → D.read_file (D.close s p).1 q ≡ D.read_file s q
  pub read-rename :
      (s : D.State) (p : Text)
      → (D.rename s p path).0 ≡ none
      → D.read_file (D.rename s p path).1 path ≡ D.read_file s p
  pub read-rename_failed :
      (s : D.State) (p cause : Text)
      → (D.rename s p path).0 ≡ some cause
      → D.read_file (D.rename s p path).1 path ≡ D.read_file s path
  pub read-remove :
      (s : D.State) (p : Text) → p ≢ path → D.read_file (D.remove s p).1 path ≡ D.read_file s path

module _ (D : Disk) (Y : Yaml) (s : PolicyStore D Y) (R : IsReliable D s.path) (f : File) where
  -- How a save ends: with the new policy in memory and its text on disk, or with an error and both as
  -- they were.
  abbrev pub Saved : Text → Option StoreError × PolicyStore D Y → Type 0
  Saved text (none, t) = (t.file ≡ f) × (t.path ≡ s.path) × (D.read_file t.disk s.path ≡ ok text)
  Saved text (some e, t) =
      (t.file ≡ s.file)
      × (t.path ≡ s.path)
      × (D.read_file t.disk s.path ≡ D.read_file s.disk s.path)

  cleaned_up-Saved :
      (text tmp : Text) (x : Option StoreError × PolicyStore D Y)
      → tmp ≢ s.path
      → Saved text x
      → Saved text (cleaned_up D Y tmp x)
  cleaned_up-Saved text tmp (none, t) n h = (h.0, h.1, R.read-remove t.disk tmp n ∙ h.2)
  cleaned_up-Saved text tmp (some e, t) n h = (h.0, h.1, R.read-remove t.disk tmp n ∙ h.2)

  after_rename-Saved :
      (text tmp : Text) (disk : D.State) (answer : Option Text)
      → (D.rename disk tmp s.path).0 ≡ answer
      → D.read_file disk tmp ≡ ok text
      → D.read_file disk s.path ≡ D.read_file s.disk s.path
      → Saved text (after_rename D Y s f (answer, (D.rename disk tmp s.path).1))
  after_rename-Saved text tmp disk none e new old = (refl, refl, R.read-rename disk tmp e ∙ new)
  after_rename-Saved text tmp disk (some cause) e new old =
      (refl, refl, R.read-rename_failed disk tmp cause e ∙ old)

  after_close-Saved :
      (text tmp : Text) (disk : D.State) (answer : Option Text)
      → D.read_file disk tmp ≡ ok text
      → D.read_file disk s.path ≡ D.read_file s.disk s.path
      → Saved text (after_close D Y s f tmp (answer, disk))
  after_close-Saved text tmp disk (some cause) new old = (refl, refl, old)
  after_close-Saved text tmp disk none new old =
      after_rename-Saved text tmp disk (D.rename disk tmp s.path).0 refl new old

  after_write-Saved :
      (text tmp : Text) (disk : D.State) (answer : Option Text)
      → (answer ≡ none → D.read_file disk tmp ≡ ok text)
      → D.read_file disk s.path ≡ D.read_file s.disk s.path
      → Saved text (after_write D Y s f tmp (answer, disk))
  after_write-Saved text tmp disk (some cause) new old =
      (refl, refl, R.read-close disk tmp s.path ∙ old)
  after_write-Saved text tmp disk none new old =
      after_close-Saved text tmp (D.close disk tmp).1 (D.close disk tmp).0
        (R.read-close disk tmp tmp ∙ new refl) (R.read-close disk tmp s.path ∙ old)

  after_create-Saved :
      (text : Text) (answer : Outcome Text Text)
      → (D.create_temp s.disk (dir s.path)).0 ≡ answer
      → Saved text (after_create D Y s f text (answer, (D.create_temp s.disk (dir s.path)).1))
  after_create-Saved text (err cause) e = (refl, refl, R.read-create_temp s.disk (dir s.path))
  after_create-Saved text (ok tmp) e =
      let made = (D.create_temp s.disk (dir s.path)).1 in
      let other = R.temp-ne s.disk (dir s.path) tmp e in
      cleaned_up-Saved text tmp _ other (
        after_write-Saved text tmp (D.write made tmp text).1 (D.write made tmp text).0
          (R.read-write made tmp text)
          (R.read-write_other made tmp text other ∙ R.read-create_temp s.disk (dir s.path)))

  -- The same, whatever the policy's text is.
  abbrev pub IsAtomic : Option StoreError × PolicyStore D Y → Type 0
  IsAtomic (none, t) =
      (t.file ≡ f)
      × (t.path ≡ s.path)
      × ((text : Text) × (Y.marshal f ≡ ok text) × (D.read_file t.disk s.path ≡ ok text))
  IsAtomic (some e, t) =
      (t.file ≡ s.file)
      × (t.path ≡ s.path)
      × (D.read_file t.disk s.path ≡ D.read_file s.disk s.path)

  Saved-IsAtomic :
      (text : Text) (x : Option StoreError × PolicyStore D Y)
      → Y.marshal f ≡ ok text
      → Saved text x
      → IsAtomic x
  Saved-IsAtomic text (none, t) e h = (h.0, h.1, (text, e, h.2))
  Saved-IsAtomic text (some cause, t) e h = h

  -- Where the disk is reliable for the policy's path, a save ends in one of two ways, whatever fails.
  -- Without an error, the policy is the store's, and its text is what the file reads as. With an
  -- error, the store has the policy that it had, and the file reads as it did.
  pub save-IsAtomic : IsAtomic (save D Y s f)
  unfolding save
  save-IsAtomic = go (Y.marshal f) refl
    where
      go : (m : Outcome Text Text) → Y.marshal f ≡ m → IsAtomic (after_marshal D Y s f m)
      go (err cause) e = (refl, refl, refl)
      go (ok text) e =
          Saved-IsAtomic text _ e
            (after_create-Saved text (D.create_temp s.disk (dir s.path)).0 refl)

  reload :
      (x : Option StoreError × PolicyStore D Y) (t : PolicyStore D Y)
      → ((text : Text) → Y.marshal f ≡ ok text → Y.unmarshal text ≡ ok f)
      → x ≡ (none, t)
      → IsAtomic x
      → new_store D Y s.path t.disk ≡ ok t
  unfolding new_store load parse_file
  reload (some e, u) t back h atomic = cc
  reload (none, u) t back h (same, at_path, (text, e, found)) =
      let same_store = ap (λ (x : Option StoreError × PolicyStore D Y). x.1) h in
      ground (arith, same_store, found, back text e)

  -- On a disk that is reliable for the policy's path, if a save returns without an error, and the
  -- policy's text is one that is parsed as the policy, then a new store on the same path and disk is
  -- the store that the save left.
  pub new_store-save :
      (t : PolicyStore D Y)
      → ((text : Text) → Y.marshal f ≡ ok text → Y.unmarshal text ≡ ok f)
      → save D Y s f ≡ (none, t)
      → new_store D Y s.path t.disk ≡ ok t
  new_store-save t back h = reload (save D Y s f) t back h save-IsAtomic
