-- ===== src/Pipeline.antt =====
-- The pipeline of internal/pipeline/pipeline.go: what it uses of other parts, and its types. The
-- destination (an afero.Fs over the NAS), the card's file system, the index of verified hashes and
-- xxhash are parameters.
pub mod Category
pub mod Copy
pub mod Ingest
pub mod Erase
pub mod Frame
pub mod Landing
pub mod Noted
pub mod Safety
pub mod Ledger
pub mod Resume
pub mod Collision
pub mod Folders
pub mod Steps
pub mod TempNames
pub mod Memory
pub mod Samples
use cardingest.Base.{ℕ, Bool, List, Option, Outcome, nat_eq}
use cardingest.Base.Int.{ℤ}
use cardingest.Base.Maps.{Map}
use cardingest.Base.Strings.{Text, codes}
use cardingest.Card.{SlotName, FileEntry, Time}
use cardingest.Rules.{Glob, Engine}

abbrev pub Bytes : Type 0
Bytes = List ℕ

-- An afero.Fs that is written to. An operation returns its error, if any, and the new state; `read`
-- opens a file and reads all of it.
pub record Dest : Type 1 where
  pub State : Type 0
  pub mkdir_all : State → Text → Option Text × State
  pub create : State → Text → Option Text × State
  pub write : State → Text → Bytes → Option Text × State
  pub close : State → Text → Option Text × State
  pub read : State → Text → Outcome Text Bytes
  pub remove : State → Text → Option Text × State
  pub rename : State → Text → Text → Option Text × State

-- The store.Store interface.
pub record Index : Type 1 where
  pub State : Type 0
  pub seen : State → Text → Outcome Text Bool
  pub mark_verified : State → Text → Option Text × State

-- A call of the function that afero.Walk is given: for an entry, or for an error on the way.
pub data Visit : Type 0 where
  entry : Text → Bool → ℕ → Time → Visit
  failed : Text → Text → Visit

-- A mounted card, which is only read during an ingest. `content` is what a reader of the file
-- delivers: its bytes up to the end or up to an error.
pub record CardFs : Type 0 where
  pub walk : List Visit
  pub open_file : Text → Option Text
  pub content : Text → Bytes × Option Text

pub record Progress : Type 0 where
  pub slot : Text
  pub files_done : ℕ
  pub total_files : ℕ
  pub bytes_done : ℤ
  pub total_bytes : ℤ
  pub current_file : Text

-- What the program does not implement.
pub record Env : Type 1 where
  pub dest : Dest
  pub index : Index
  pub glob : Glob
  pub sum64 : Bytes → ℕ

-- Deps, without the parts of `Env`. The callback `OnProgress` is there or not.
pub record Deps : Type 0 where
  pub rules : Engine
  pub categories : Map Text (List Text)
  pub layout : Text
  pub date_fn : CardFs → FileEntry → Time
  pub on_progress : Bool

pub record Input : Type 0 where
  pub slot : SlotName
  pub serial : Text
  pub card_fs : CardFs

abbrev pub tmp_dir : Text
tmp_dir = codes ".cardingest-tmp"
