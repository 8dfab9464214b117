-- ===== src/Config/Store.antt =====
-- The store of the policy document in internal/config/file.go. The disk and the YAML library are
-- parameters.
pub mod Atomic
pub mod Samples
use cardingest.Base.{
  ℕ, Bool, true, false, Option, none, some, List, [], ◌∷◌, Outcome, ok, err, ◌>>=◌, wrap,
}
use cardingest.Base.Strings.{Text, dir}
use cardingest.Config.{File}

-- The operations of `os` on files. A read tells a file that is not there (`none`) from other errors;
-- CreateTemp gives the name that it has chosen.
pub record Disk : Type 1 where
  pub State : Type 0
  pub read_file : State → Text → Outcome (Option Text) Text
  pub create_temp : State → Text → Outcome Text Text × State
  pub write : State → Text → Text → Option Text × State
  pub close : State → Text → Option Text × State
  pub rename : State → Text → Text → Option Text × State
  pub remove : State → Text → Option Text × State

pub record Yaml : Type 0 where
  pub unmarshal : Text → Outcome Text File
  pub marshal : File → Outcome Text Text

-- The zero value of a File.
abbrev pub empty_file : File
empty_file = record {
  destination = record { path = []; layout = []; date_source = [] };
  categories = [];
  rules = [];
  card = record { erase_ingested = false; erase_skipped = false; eject_when_done = false };
  reader = record { usb_ids = [] };
  notify = [];
}

pub data StoreError : Type 0 where
  read_config parse_config marshal_config create_temp_config : Text → StoreError
  write_temp_config close_temp_config rename_temp_config : Text → StoreError

-- ParseFile
unfoldable pub parse_file : Yaml → Text → Outcome StoreError File
parse_file Y text = wrap parse_config (Y.unmarshal text)

module _ (D : Disk) (Y : Yaml) where
  -- A Store and the disk below it.
  pub record PolicyStore : Type 0 where
    pub path : Text
    pub file : File
    pub disk : D.State

  abbrev pub loaded : PolicyStore → Outcome (Option Text) Text → Outcome StoreError PolicyStore
  loaded s (err none) = ok (record s { file = empty_file })
  loaded s (err (some cause)) = err (read_config cause)
  loaded s (ok text) = parse_file Y text >>= λ f. ok (record s { file = f })

  -- Load: a file that is not there is the zero policy, and an error leaves the store as it was.
  unfoldable pub load : PolicyStore → Outcome StoreError PolicyStore
  unfolding parse_file
  load s = loaded s (D.read_file s.disk s.path)

  -- NewStore
  unfoldable pub new_store : Text → D.State → Outcome StoreError PolicyStore
  unfolding load
  new_store path disk = load (record { path = path; file = empty_file; disk = disk })

  -- Marshal
  unfoldable pub marshal_policy : PolicyStore → Outcome Text Text
  marshal_policy s = Y.marshal s.file

  abbrev pub after_rename :
      PolicyStore → File → Option Text × D.State → Option StoreError × PolicyStore
  after_rename s f (some cause, disk) = (some (rename_temp_config cause), record s { disk = disk })
  after_rename s f (none, disk) = (none, record s { disk = disk; file = f })

  abbrev pub after_close :
      PolicyStore → File → Text → Option Text × D.State → Option StoreError × PolicyStore
  after_close s f tmp (some cause, disk) =
      (some (close_temp_config cause), record s { disk = disk })
  after_close s f tmp (none, disk) = after_rename s f (D.rename disk tmp s.path)

  -- After an error of the write the file is closed too.
  abbrev pub after_write :
      PolicyStore → File → Text → Option Text × D.State → Option StoreError × PolicyStore
  after_write s f tmp (some cause, disk) =
      (some (write_temp_config cause), record s { disk = (D.close disk tmp).1 })
  after_write s f tmp (none, disk) = after_close s f tmp (D.close disk tmp)

  -- The deferred removal of the temporary file, its error dropped.
  abbrev pub cleaned_up : Text → Option StoreError × PolicyStore → Option StoreError × PolicyStore
  cleaned_up tmp (answer, s) = (answer, record s { disk = (D.remove s.disk tmp).1 })

  abbrev pub after_create :
      PolicyStore → File → Text → Outcome Text Text × D.State → Option StoreError × PolicyStore
  after_create s f text (err cause, disk) =
      (some (create_temp_config cause), record s { disk = disk })
  after_create s f text (ok tmp, disk) =
      cleaned_up tmp (after_write s f tmp (D.write disk tmp text))

  abbrev pub after_marshal :
      PolicyStore → File → Outcome Text Text → Option StoreError × PolicyStore
  after_marshal s f (err cause) = (some (marshal_config cause), s)
  after_marshal s f (ok text) = after_create s f text (D.create_temp s.disk (dir s.path))

  -- Save: the error if there is one, and the store with its disk.
  unfoldable pub save : PolicyStore → File → Option StoreError × PolicyStore
  unfolding dir
  save s f = after_marshal s f (Y.marshal f)
