-- ===== src/Config/Store/Samples.antt =====
-- The policy store over a disk in memory.
use cardingest.Base.{
  Option, none, some, [], ◌∷◌, ◌≡◌, refl, ap, ◌∙◌, arith, length, Outcome, ok, err, list_eq, nat_eq,
}
use cardingest.Base.Maps.{Map, lookup, insert, remove, lookup-insert, lookup-remove}
use cardingest.Base.Strings.{Text, codes, dir}
use cardingest.Config.Store.{Disk, Yaml, StoreError, PolicyStore, empty_file, new_store, save}
use cardingest.Config.Store.Atomic.{IsReliable, IsAtomic, save-IsAtomic, new_store-save}

abbrev found : Option Text → Outcome (Option Text) Text
found none = err none
found (some text) = ok text

abbrev moved : Option Text → Text → Text → Map Text Text → Option Text × Map Text Text
moved none p q s = (some (codes "missing"), s)
moved (some b) p q s = (none, insert q b (remove p s))

abbrev tmp_name : Text
tmp_name = codes "/config/.config-1.tmp"

abbrev pub disk : Disk
disk = record {
  State = Map Text Text;
  read_file = λ s p. found (lookup p s);
  create_temp = λ s d. (ok tmp_name, insert tmp_name [] s);
  write = λ s p text. (none, insert p text s);
  close = λ s p. (none, s);
  rename = λ s p q. moved (lookup p s) p q s;
  remove = λ s p. (none, remove p s);
}

abbrev pub path : Text
path = codes "/config/config.yaml"

renamed :
    (o : Option Text) (p : Text) (s : Map Text Text)
    → (moved o p path s).0 ≡ none
    → found (lookup path (moved o p path s).1) ≡ found o
renamed none p s h = absurd (ground arith)
renamed (some b) p s h =
    ap found {y = some b} (lookup-insert path path b (remove p s) ∙ ground arith)

not_renamed :
    (o : Option Text) (p cause : Text) (s : Map Text Text)
    → (moved o p path s).0 ≡ some cause
    → found (lookup path (moved o p path s).1) ≡ found (lookup path s)
not_renamed none p cause s h = refl
not_renamed (some b) p cause s h = absurd (ground arith)

pub disk-IsReliable : IsReliable disk path
disk-IsReliable = record {
  temp-ne = λ s d tmp h e. absurd (omega (arith, ap length (h_path tmp h e)));
  read-create_temp = λ s d. ap found (lookup-insert path tmp_name [] s ∙ ground arith);
  read-write_other = λ s p text n. ap found (lookup-insert path p text s ∙ ground arith);
  read-write = λ s p text h. ap found {y = some text} (lookup-insert p p text s ∙ ground arith);
  read-close = λ s p q. refl;
  read-rename = λ s p h. renamed (lookup p s) p s h;
  read-rename_failed = λ s p cause h. not_renamed (lookup p s) p cause s h;
  read-remove = λ s p n. ap found (lookup-remove path p s ∙ ground arith);
}
  where
    h_path :
        (tmp : Text)
        → ◌≡◌ {A = Outcome Text Text} (ok tmp_name) (ok tmp)
        → tmp ≡ path
        → tmp_name ≡ path
    h_path tmp h e = cc

-- A library that knows one policy and its text.
abbrev pub yaml : Yaml
yaml = record { unmarshal = λ text. ok empty_file; marshal = λ f. ok (codes "rules: []") }

abbrev pub fresh : PolicyStore disk yaml
fresh = record { path = path; file = empty_file; disk = [] }

stored : Option StoreError × PolicyStore disk yaml
unfolding save dir lookup insert remove list_eq nat_eq
stored = save disk yaml fresh empty_file

save_run : (stored.0 ≡ none) × (stored.1.disk ≡ (path, codes "rules: []") ∷ [])
unfolding stored
save_run = (refl, refl)

save-IsAtomic_example :
    IsAtomic disk yaml fresh disk-IsReliable empty_file (save disk yaml fresh empty_file)
save-IsAtomic_example = save-IsAtomic disk yaml fresh disk-IsReliable empty_file

saved_well : save disk yaml fresh empty_file ≡ (none, stored.1)
unfolding stored
saved_well = refl

new_store-save_example : new_store disk yaml path stored.1.disk ≡ ok stored.1
new_store-save_example =
    new_store-save disk yaml fresh disk-IsReliable empty_file stored.1 (λ text h. refl) saved_well
