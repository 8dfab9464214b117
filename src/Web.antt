-- ===== src/Web.antt =====
-- The handlers of internal/web/web.go, which implement the API that is generated from
-- api/openapi.yaml. A handler's answer is one of the responses of its endpoint, or an error, which
-- the generated server reports as a failure of its own.
pub mod Policy
pub mod Dev
pub mod Stream
pub mod Samples
use cardingest.Base.{
  ℕ, Bool, true, false, Option, none, some, List, [], ◌∷◌, map, Outcome, ok, err, ◌==◌, list_eq,
  nat_eq, if◌then◌else◌,
}
use cardingest.Base.Int.{ℤ, pos}
use cardingest.Base.Maps.{Map}
use cardingest.Base.Strings.{Text, codes}
use cardingest.Card.{SlotName, Time}
use cardingest.Config.{File}
use cardingest.Config.Store.{Disk, Yaml, StoreError, PolicyStore, parse_file, save, marshal_policy}
use cardingest.Rules.{Glob, Engine}
use cardingest.Rules.Size.{Float}
use cardingest.Rules.Compile.{RuleError, compile}
use cardingest.Detect.{DetectError, slot_occupied, slot_empty}
use cardingest.Detect.Mock.{MockDetector, mock_insert, mock_remove}
use cardingest.Store.{Job, Stats, Sqlite, list_jobs, stats, status_text}
use cardingest.App.{SlotState, Activity}
use cardingest.App.Status.{status, activity_text}

-- The generated types of the answers. A pointer is there or not.
pub record ApiSlot : Type 0 where
  pub slot : Text
  pub state : Text
  pub job_id : Option ℕ

pub record ApiJob : Type 0 where
  pub id : ℕ
  pub slot : Text
  pub serial : Text
  pub status : Text
  pub started_at : ℕ
  pub copied : ℕ
  pub deduped : ℕ
  pub skipped : ℕ
  pub erased : ℕ
  pub bytes : ℤ
  pub error_text : Option Text
  pub finished_at : Option ℕ

-- toAPISlot
unfoldable pub to_api_slot : SlotState → ApiSlot
unfolding activity_text nat_eq
to_api_slot s = record {
  slot = s.slot;
  state = activity_text s.state;
  job_id = if s.job_id == 0 then none else some s.job_id;
}

-- toAPIJob
unfoldable pub to_api_job : Job → ApiJob
unfolding status_text list_eq
to_api_job j = record {
  id = j.id;
  slot = j.slot;
  serial = j.serial;
  status = status_text j.status;
  started_at = j.started_at;
  copied = j.copied;
  deduped = j.deduped;
  skipped = j.skipped;
  erased = j.erased;
  bytes = j.bytes;
  error_text = if j.err_text == [] then none else some j.err_text;
  finished_at = j.finished_at;
}

-- The zero Stats, for a server without a job history.
abbrev pub zero_stats : Stats
zero_stats = record {
  total_jobs = 0;
  complete_jobs = 0;
  error_jobs = 0;
  files_copied = 0;
  total_bytes = pos 0;
}

abbrev pub config_unavailable : Text
config_unavailable = codes "config editing unavailable"

-- The answers of PutConfig: the new text, a refusal with its reason, or an error of the save.
pub data PutAnswer : Type 0 where
  stored : Text → PutAnswer
  refused_request : Text → PutAnswer
  refused_text : StoreError → PutAnswer
  refused_rules : RuleError → PutAnswer
  save_failed : StoreError → PutAnswer

-- The answers of DevInsert and DevRemove, by their status codes.
pub data DevAnswer : Type 0 where
  accepted_202 : SlotName → DevAnswer
  bad_request_400 : Option DetectError → DevAnswer
  not_found_404 conflict_409 : DetectError → DevAnswer
  not_implemented_501 : DevAnswer

module _ (D : Disk) (Y : Yaml) where
  -- The collaborators, each of which may be missing.
  pub record Server : Type 0 where
    pub mock : Option MockDetector
    pub jobs : Option Sqlite
    pub config : Option (PolicyStore D Y)
    pub statuses : Option (Map SlotName SlotState)

  abbrev pub all_statuses : Option (Map SlotName SlotState) → List SlotState
  all_statuses none = []
  all_statuses (some m) = status m

  -- GetStatus
  unfoldable pub get_status : Server → List ApiSlot
  unfolding to_api_slot status
  get_status s = map to_api_slot (all_statuses s.statuses)

  abbrev pub limit_or_50 : Option ℤ → ℤ
  limit_or_50 none = pos 50
  limit_or_50 (some limit) = limit

  abbrev pub jobs_of : Option Sqlite → ℤ → List Job
  jobs_of none limit = []
  jobs_of (some db) limit = list_jobs db limit

  -- GetJobs
  unfoldable pub get_jobs : Server → Option ℤ → List ApiJob
  unfolding to_api_job list_jobs
  get_jobs s limit = map to_api_job (jobs_of s.jobs (limit_or_50 limit))

  -- GetStats, with toAPIStats, which copies the fields.
  unfoldable pub get_stats : Server → Stats
  unfolding stats
  get_stats s = elim s.jobs [ none ↦ zero_stats | some db ↦ stats db ]

  -- GetConfig
  unfoldable pub get_config : Server → Outcome Text Text
  unfolding marshal_policy
  get_config s = elim s.config [ none ↦ ok [] | some store ↦ marshal_policy D Y store ]

  -- The text that the answer shows: empty if the policy cannot be written out.
  abbrev pub shown : Outcome Text Text → Text
  shown (ok text) = text
  shown (err cause) = []

  abbrev pub after_save : Option StoreError × PolicyStore D Y → PutAnswer × PolicyStore D Y
  after_save (some e, store) = (save_failed e, store)
  after_save (none, store) = (stored (shown (marshal_policy D Y store)), store)

  abbrev pub after_compile :
      PolicyStore D Y → File → Outcome RuleError Engine → PutAnswer × PolicyStore D Y
  after_compile store f (err e) = (refused_rules e, store)
  after_compile store f (ok rules) = after_save (save D Y store f)

  abbrev pub after_parse :
      Glob → Float → PolicyStore D Y → Outcome StoreError File → PutAnswer × PolicyStore D Y
  after_parse G N store (err e) = (refused_text e, store)
  after_parse G N store (ok f) = after_compile store f (compile G N f.rules)

  -- PutConfig of a server with a policy store and a request with a body.
  unfoldable pub put_policy : Glob → Float → PolicyStore D Y → Text → PutAnswer × PolicyStore D Y
  unfolding parse_file compile save marshal_policy
  put_policy G N store text = after_parse G N store (parse_file Y text)

  -- PutConfig
  unfoldable pub put_config : Glob → Float → Server → Option Text → PutAnswer × Server
  unfolding put_policy
  put_config G N s none = (refused_request config_unavailable, s)
  put_config G N s (some text) = elim s.config [
    | none ↦ (refused_request config_unavailable, s)
    | some store ↦
        let (answer, store') = put_policy G N store text in
        (answer, record s { config = some store' })
  ]

  abbrev pub or_empty_dir : Option Text → Text
  or_empty_dir none = []
  or_empty_dir (some dir) = dir

  abbrev pub inserted_as : Server → SlotName → Outcome DetectError MockDetector → DevAnswer × Server
  inserted_as s slot (ok m) = (accepted_202 slot, record s { mock = some m })
  inserted_as s slot (err (slot_occupied at)) = (conflict_409 (slot_occupied at), s)
  inserted_as s slot (err e) = (bad_request_400 (some e), s)

  abbrev pub insert_by :
      Server → Option (SlotName × Option Text) → Time → Option MockDetector → DevAnswer × Server
  insert_by s body now none = (not_implemented_501, s)
  insert_by s none now (some m) = (bad_request_400 none, s)
  insert_by s (some (slot, dir)) now (some m) =
      if slot == []
      then (bad_request_400 none, s)
      else inserted_as s slot (mock_insert m slot (or_empty_dir dir) now)

  -- DevInsert; a request has a body or not, with a slot and perhaps a directory.
  unfoldable pub dev_insert : Server → Option (SlotName × Option Text) → Time → DevAnswer × Server
  unfolding mock_insert list_eq nat_eq
  dev_insert s body now = insert_by s body now s.mock

  abbrev pub removed_as : Server → SlotName → Outcome DetectError MockDetector → DevAnswer × Server
  removed_as s slot (ok m) = (accepted_202 slot, record s { mock = some m })
  removed_as s slot (err (slot_empty at)) = (not_found_404 (slot_empty at), s)
  removed_as s slot (err e) = (bad_request_400 (some e), s)

  abbrev pub remove_by : Server → Option SlotName → Time → Option MockDetector → DevAnswer × Server
  remove_by s body now none = (not_implemented_501, s)
  remove_by s none now (some m) = (bad_request_400 none, s)
  remove_by s (some slot) now (some m) =
      if slot == [] then (bad_request_400 none, s) else removed_as s slot (mock_remove m slot now)

  -- DevRemove
  unfoldable pub dev_remove : Server → Option SlotName → Time → DevAnswer × Server
  unfolding mock_remove list_eq nat_eq
  dev_remove s body now = remove_by s body now s.mock
