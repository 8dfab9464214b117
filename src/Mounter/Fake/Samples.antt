-- ===== src/Mounter/Fake/Samples.antt =====
-- The simulated mounter over files in memory.
use cardingest.Base.{
  ℕ, ◌+◌, Bool, true, false, Bool-cases, inl, inr, Option, none, some, List, [], ◌∷◌, ◌++◌, ◌≡◌,
  ◌≢◌, refl, sym, ap, ◌∙◌, arith, Outcome, ok, err, ok-injective, list_eq, nat_eq, if◌then◌else◌,
  drop, length,
}
use cardingest.Base.Maps.{Map, lookup, insert, lookup-insert}
use cardingest.Base.Strings.{
  Text, codes, slash, join_path, clean, is_rooted, clean_elements, assemble, split, has_prefix,
}
use cardingest.Mounter.{Options, Afero}
use cardingest.Mounter.Fake.{Os, fake_mount}
use cardingest.Mounter.Fake.Fixture.{is_local, IsLawful, IsSpared, fake_mount-IsSpared}

abbrev afero : Afero
afero = record {
  Fs = Text × Bool;
  at_base = λ dir. (dir, true);
  read_only = λ f. (f.0, false);
  accepts_writes = λ f. f.1;
}

abbrev Files : Type 0
Files = Map Text (List ℕ)

abbrev contents : Option (List ℕ) → List ℕ
contents none = []
contents (some b) = b

abbrev walk_on : (Files → Option Text × Files) → Option Text × Files → Option Text × Files
walk_on rest (some cause, s) = (some cause, s)
walk_on rest (none, s) = rest s

-- The files below the root, each of them a regular one.
walk_over :
    (Files → Text → Outcome Text Bool → Option Text × Files)
    → (Text → Bool)
    → Files
    → Files
    → Option Text × Files
walk_over visit below [] s = (none, s)
walk_over visit below ((p, b) ∷ files) s =
    walk_on (walk_over visit below files) (if below p then visit s p (ok false) else (none, s))

abbrev rel_of : Text → Text → Text
rel_of root path = drop (length root + 1) path

abbrev rel : Text → Text → Outcome Text Text
rel root path = if is_local (rel_of root path) then ok (rel_of root path) else err (codes "rel")

abbrev os : Os
os = record {
  State = Files;
  is_dir = λ s p. ok true;
  mkdir_temp = λ s parent pattern. (ok (codes "/tmp/m1"), s);
  mkdir_all = λ s p. (none, s);
  remove_all = λ s p. (none, s);
  walk_dir = λ s root visit. walk_over visit (λ p. has_prefix root p) s s;
  rel = rel;
  open_file = λ s p. none;
  create = λ s p. (none, insert p [] s);
  copy = λ s dst src. (none, insert dst (contents (lookup src s)) s);
  close = λ s p. (none, s);
}

-- The files with relative paths are another volume than that of the temporary directory.
abbrev read : Files → Text → Option (List ℕ)
read s q = if is_rooted q then none else lookup q s

rel-is_local : (root path r : Text) → rel root path ≡ ok r → is_local r ≡ true
rel-is_local root path r h = elim (Bool-cases (is_local (rel_of root path))) [
  | inl e ↦ rw (← ok-injective (rw e at h)) e
  | inr e ↦ absurd (err-ne-ok (rw e at h))
]
  where
    err-ne-ok : ¬ ◌≡◌ {A = Outcome Text Text} (err (codes "rel")) (ok r)
    err-ne-ok e = cc

clean_elements-is_rooted : (parts : List Text) → is_rooted (clean_elements true parts) ≡ true
unfolding clean_elements assemble is_rooted list_eq nat_eq
clean_elements-is_rooted parts = refl

join_path-is_rooted : (r : Text) → is_rooted (join_path (codes "/tmp/m1") r) ≡ true
unfolding join_path clean is_rooted nat_eq
join_path-is_rooted [] = refl
join_path-is_rooted (c ∷ r) =
    clean_elements-is_rooted (split slash (codes "/tmp/m1" ++ slash ∷ c ∷ r))

read-insert : (s : Files) (p q : Text) (b : List ℕ) → p ≢ q → read (insert p b s) q ≡ read s q
read-insert s p q b n =
    ap (λ held. if is_rooted q then none else held) (lookup-insert q p b s ∙ ground arith)

walk_over-keeps :
    (P : Files → Type 0) (root : Text)
    (visit : Files → Text → Outcome Text Bool → Option Text × Files) (below : Text → Bool)
    → ((s : Files) (path : Text) (found : Outcome Text Bool)
        → ((r : Text) → rel root path ≡ ok r → is_local r ≡ true)
        → P s
        → P (visit s path found).1)
    → (files s : Files) → P s
    → P (walk_over visit below files s).1
unfolding walk_over
walk_over-keeps P root visit below k [] s h = h
walk_over-keeps P root visit below k ((p, b) ∷ files) s h =
    visited (walk_over-keeps P root visit below k files) (below p)
  where
    went_on :
        ((t : Files) → P t → P (walk_over visit below files t).1)
        → (x : Option Text × Files) → P x.1
        → P (walk_on (walk_over visit below files) x).1
    went_on rest (some cause, t) i = i
    went_on rest (none, t) i = rest t i

    visited :
        ((t : Files) → P t → P (walk_over visit below files t).1)
        → (is_below : Bool)
        → P
            (walk_on
              (walk_over visit below files)
              (if is_below then visit s p (ok false) else (none, s))).1
    visited rest true =
        went_on rest (visit s p (ok false)) (k s p (ok false) (rel-is_local root p) h)
    visited rest false = went_on rest (none, s) h

-- A rooted path cannot be read.
rooted-unread : (s : Files) (q : Text) (b : List ℕ) → is_rooted q ≡ true → read s q ≢ some b
rooted-unread s q b rooted held = absurd (none-ne-some (rw rooted at held))
  where
    none-ne-some : ¬ ◌≡◌ {A = Option (List ℕ)} none (some b)
    none-ne-some e = cc

os-IsLawful : IsLawful os
os-IsLawful = record {
  read = read;
  fresh = λ s parent pattern tmp q b made held r local e.
      rooted-unread s q b
        (ap is_rooted (sym e ∙ ap (λ dir. join_path dir r) (sym (ok-injective made)))
          ∙ join_path-is_rooted r)
        held;
  read-mkdir_temp = λ s parent pattern q. refl;
  read-mkdir_all = λ s p q. refl;
  read-remove_all = λ s p q out. refl;
  read-create = λ s p q n. read-insert s p q [] n;
  read-copy = λ s p src q n. read-insert s p q _ n;
  read-close = λ s p q. refl;
  walk-keeps = λ P root visit k s h. walk_over-keeps P root visit (λ p. has_prefix root p) k s s h;
}

abbrev options : Options
options = record { read_only = true; no_exec = true; no_suid = true; fs_type = [] }

abbrev fixture : Files
fixture = (codes "cards/A/1.jpg", 255 ∷ 216 ∷ []) ∷ []

held : os-IsLawful.read fixture (codes "cards/A/1.jpg") ≡ some (255 ∷ 216 ∷ [])
unfolding os-IsLawful lookup is_rooted list_eq nat_eq
held = refl

fake_mount-IsSpared_example :
    IsSpared afero os os-IsLawful
      (codes "cards/A/1.jpg")
      (255 ∷ 216 ∷ [])
      fixture
      (fake_mount afero os [] (codes "cards/A") options fixture)
fake_mount-IsSpared_example =
    fake_mount-IsSpared afero os os-IsLawful (codes "cards/A/1.jpg") (255 ∷ 216 ∷ []) []
      (codes "cards/A") options fixture fixture held held
