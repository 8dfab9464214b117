-- ===== src/Appliance.antt =====
-- The wiring of cmd/cardingest/main.go on Linux: what `run` builds before the orchestrator's loop, and
-- `New` of internal/detect/detect.go and internal/mounter/mounter.go.
pub mod Restart
mod Samples
use cardingest.Base.{
  ℕ, Bool, true, false, Option, none, some, List, [], ◌∷◌, Outcome, ok, err, ◌==◌, list_eq, nat_eq,
  if◌then◌else◌, ◌>>=◌, wrap,
}
use cardingest.Base.Strings.{Text, codes}
use cardingest.Card.{FileEntry, Time}
use cardingest.Config.{Notifier, CardPolicy}
use cardingest.Config.Boot.{BootConfig, BootError, new_config, log_level}
use cardingest.Config.Store.{Disk, Yaml, StoreError, PolicyStore, new_store}
use cardingest.Rules.{Glob, Engine}
use cardingest.Rules.Size.{Float}
use cardingest.Rules.Compile.{RuleError, compile}
use cardingest.Detect.{with_defaults}
use cardingest.Detect
use cardingest.Detect.Mock.{MockDetector, new_mock}
use cardingest.Detect.Poll.{PollDetector, new_poll_detector}
use cardingest.Detect.Linux.{LinuxEnum, new_real}
use cardingest.Store.{Sqlite}
use cardingest.Pipeline.{CardFs, Deps}
use cardingest.Pipeline.Ingest.{new_deps}
use cardingest.Exifdate.Dates.{Media, date_of}
use cardingest.Notify.{Sender, BuildError, build}
use cardingest.Notify.Pulsar.{Pulsar, new_pulsar}
use cardingest.App.{ErasePolicy, AppConfig}
use cardingest.Web.{Server}

pub data Detector : Type 0 where
  simulated : MockDetector → Detector
  polling : LinuxEnum → PollDetector → Detector

-- detect.New
unfoldable pub new_detector : Detect.Config → Detector
unfolding with_defaults new_real
new_detector cfg =
    let cfg' = with_defaults cfg in
    if cfg.mock then simulated (new_mock cfg') else polling (new_real cfg') (new_poll_detector cfg')

-- A mounter with its root.
pub data CardMounter : Type 0 where
  fake_at real_at : Text → CardMounter

-- mounter.New
abbrev pub new_mounter : Bool → Text → CardMounter
new_mounter true root = fake_at root
new_mounter false root = real_at root

-- The mock detector is the controller of the development endpoints too.
abbrev pub mock_of : Detector → Option MockDetector
mock_of (simulated m) = some m
mock_of (polling e d) = none

pub data RunError : Type 0 where
  telemetry open_state_db : Text → RunError
  load_policy_config : StoreError → RunError
  compile_rules : RuleError → RunError

pub data MainError : Type 0 where
  unknown_level : Text → MainError
  no_config : BootError → MainError
  run_failed : RunError → MainError

-- The level that is read where the variable is not set.
abbrev pub level_or_error : Text → Text
level_or_error [] = codes "error"
level_or_error (c ∷ level) = c ∷ level

-- What `run` asks of others: the telemetry's start, the database of the path, the environment's
-- variables, the formats of cards, globs and floating-point numbers.
pub record Host : Type 1 where
  pub init_telemetry : Option Text
  pub open_sqlite : Text → Outcome Text Sqlite
  pub getenv : Text → Text
  pub media : CardFs → Media
  pub glob : Glob
  pub float : Float

-- An error of the start ends it.
abbrev pub unless_failed {ℓ} : {A : Type ℓ} → Option Text → Outcome RunError A → Outcome RunError A
unless_failed (some cause) rest = err (telemetry cause)
unless_failed none rest = rest

abbrev pub dest_path : Text → Text
unfolding list_eq
dest_path path = if path == [] then codes "/data/dest" else path

abbrev pub erase_policy : CardPolicy → ErasePolicy
erase_policy card = record {
  erase_ingested = card.erase_ingested;
  erase_skipped = card.erase_skipped;
  eject_when_done = card.eject_when_done;
}

module _ (D : Disk) (Y : Yaml) where
  -- What runs: the parts that are handed to the orchestrator and the server.
  pub record Appliance : Type 0 where
    pub detector : Detector
    pub mounter : CardMounter
    pub dest : Text
    pub deps : Deps
    pub notifiers : List (Sender Pulsar) × List BuildError
    pub config : AppConfig
    pub server : Server D Y

  unfoldable pub wire : Host → BootConfig → PolicyStore D Y → Sqlite → Engine → Appliance
  unfolding new_detector new_deps build new_pulsar date_of list_eq
  wire host c store db rules =
      let policy = store.file in
      let mock = c.reader_mode == codes "mock" in
      let det = new_detector (record {
        mock = mock;
        usb_ids = policy.reader.usb_ids;
        poll_interval = c.poll_interval;
        fixture_dir = c.mock_fixture_dir;
      }) in
      record {
        detector = det;
        mounter = new_mounter mock c.mount_root;
        dest = dest_path policy.destination.path;
        deps =
            new_deps (some rules) policy.categories policy.destination.layout
              (some (λ fs e. (date_of (host.media fs) e).0)) true;
        notifiers = build (new_pulsar host.getenv) policy.notify;
        config = record {
          mount_root = c.mount_root;
          policy = erase_policy policy.card;
          has_hub = true;
          has_jobs = true;
        };
        server = record {
          mock = mock_of det;
          jobs = some db;
          config = some store;
          statuses = some [];
        };
      }

  -- run, up to the orchestrator's loop
  unfoldable pub run : Host → BootConfig → D.State → Outcome RunError Appliance
  unfolding new_store compile wire
  run host c disk = unless_failed host.init_telemetry (do
    store ← wrap load_policy_config (new_store D Y c.config_path disk)
    db ← wrap open_state_db (host.open_sqlite c.state_path)
    rules ← wrap compile_rules (compile host.glob host.float store.file.rules)
    ok (wire host c store db rules))

  -- main, of the variable LOG_LEVEL and of what the env library has parsed; an error is what the
  -- process ends with.
  unfoldable pub main :
      Host → Text → Outcome Text BootConfig → D.State → Outcome MainError Appliance
  unfolding log_level new_config run
  main host level parsed disk = do
    level ← wrap unknown_level (log_level (level_or_error level))
    c ← wrap no_config (new_config parsed)
    wrap run_failed (run host c disk)
