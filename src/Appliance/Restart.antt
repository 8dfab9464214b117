-- ===== src/Appliance/Restart.antt =====
-- What cmd/cardingest/main.go starts with after internal/web/web.go has taken a policy.
use cardingest.Base.{none, some, [], map, ◌≡◌, ◌≢◌, refl, ok, arith}
use cardingest.Base.Strings.{Text, to_lower, trim_space}
use cardingest.Config.Boot.{BootConfig}
use cardingest.Config.Store.{Disk, Yaml, PolicyStore, new_store, load, parse_file}
use cardingest.Config.Store.Atomic.{IsReliable}
use cardingest.Rules.{Engine}
use cardingest.Rules.Compile.{compile}
use cardingest.Store.{Sqlite}
use cardingest.Web.{PutAnswer, put_policy, stored}
use cardingest.Web.Policy.{Tells, IsPut, put_policy-Tells}
use cardingest.Detect.{with_defaults}
use cardingest.Detect.Poll.{PollDetector}
use cardingest.Detect.Linux.{LinuxEnum, new_real}
use cardingest.Notify.{build}
use cardingest.Notify.Pulsar.{new_pulsar}
use cardingest.Pipeline.Ingest.{new_deps}
use cardingest.Appliance.{Host, Appliance, polling, new_detector, run, wire}

module _ (D : Disk) (Y : Yaml) where
  -- A path that reads as a text of the policy gives a store of it.
  new_store-reads :
      (t : PolicyStore D Y) (text : Text)
      → D.read_file t.disk t.path ≡ ok text
      → Y.unmarshal text ≡ ok t.file
      → new_store D Y t.path t.disk ≡ ok t
  unfolding new_store load parse_file
  new_store-reads t text found parsed = rw (found, parsed) refl

  -- The appliance works by the policy of the store: its pipeline decides by rules compiled from the
  -- policy's and files by its categories and layout, to its destination, where these are not empty;
  -- what is erased and whether a card is ejected is as the policy says; a reader that is polled accepts
  -- the policy's USB ids; the notifiers are built from the policy's; and the server shows this store.
  pub record WorksBy (host : Host) (t : PolicyStore D Y) (a : Appliance D Y) : Type 1 where
    pub rules : compile host.glob host.float t.file.rules ≡ ok a.deps.rules
    pub categories : a.deps.categories ≡ t.file.categories
    pub layout : t.file.destination.layout ≢ [] → a.deps.layout ≡ t.file.destination.layout
    pub dest : t.file.destination.path ≢ [] → a.dest ≡ t.file.destination.path
    pub erases_ingested : a.config.policy.erase_ingested ≡ t.file.card.erase_ingested
    pub erases_skipped : a.config.policy.erase_skipped ≡ t.file.card.erase_skipped
    pub ejects : a.config.policy.eject_when_done ≡ t.file.card.eject_when_done
    pub accepts :
        (e : LinuxEnum) (d : PollDetector)
        → a.detector ≡ polling e d
        → e.allow ≡ map (λ id. to_lower (trim_space id)) t.file.reader.usb_ids
    pub notifiers : a.notifiers ≡ build (new_pulsar host.getenv) t.file.notify
    pub store : a.server.config ≡ some t

  wire-WorksBy :
      (host : Host) (c : BootConfig) (t : PolicyStore D Y) (db : Sqlite) (rules : Engine)
      → compile host.glob host.float t.file.rules ≡ ok rules
      → WorksBy host t (wire D Y host c t db rules)
  unfolding wire new_deps new_detector with_defaults new_real
  wire-WorksBy host c t db rules compiled = record {
    rules = compiled;
    categories = refl;
    layout = λ given. ground arith;
    dest = λ given. ground arith;
    erases_ingested = refl;
    erases_skipped = refl;
    ejects = refl;
    accepts = λ e d h. ground arith;
    notifiers = refl;
    store = refl;
  }

  run-starts :
      (host : Host) (c : BootConfig) (t : PolicyStore D Y) (db : Sqlite) (rules : Engine)
      → host.init_telemetry ≡ none
      → new_store D Y c.config_path t.disk ≡ ok t
      → host.open_sqlite c.state_path ≡ ok db
      → compile host.glob host.float t.file.rules ≡ ok rules
      → run D Y host c t.disk ≡ ok (wire D Y host c t db rules)
  unfolding run
  run-starts host c t db rules quiet loads opens compiles = rw (quiet, loads, opens, compiles) refl

  -- A policy that PutConfig has stored on a reliable disk is the one of the next start, which it does
  -- not prevent: on the disk as PutConfig left it, with the configured path of the policy and if the
  -- library reads the policy's text back, and where the telemetry starts and the database opens, `run`
  -- succeeds, and the appliance works by that policy, which is the one that the request's text parses
  -- as: by its rules, categories, layout and destination, by its flags for the card, its USB ids and
  -- its notifiers.
  pub run-put_policy :
      (host : Host) (c : BootConfig) (s t : PolicyStore D Y) (text shown : Text) (db : Sqlite)
      → IsReliable D s.path
      → s.path ≡ c.config_path
      → ((written : Text) → Y.marshal t.file ≡ ok written → Y.unmarshal written ≡ ok t.file)
      → host.init_telemetry ≡ none
      → host.open_sqlite c.state_path ≡ ok db
      → put_policy D Y host.glob host.float s text ≡ (stored shown, t)
      → (a : Appliance D Y) × (run D Y host c t.disk ≡ ok a)
        × (Y.unmarshal text ≡ ok t.file)
        × WorksBy host t a
  run-put_policy host c s t text shown db R at back quiet opens put =
      let is_put = told put (put_policy-Tells D Y host.glob host.float s text R) in
      let (parsed, (rules, compiled), at_path, (written, marshalled, found)) = is_put in
      let reads = new_store-reads t written (rw at_path found) (back written marshalled) in
      (
        wire D Y host c t db rules,
        run-starts host c t db rules quiet (rw (← at, ← at_path) reads) opens compiled,
        parsed,
        wire-WorksBy host c t db rules compiled,
      )
    where
      told :
          {x : PutAnswer × PolicyStore D Y}
          → x ≡ (stored shown, t)
          → Tells D Y host.glob host.float s text x
          → IsPut D Y host.glob host.float s text t
      told e h = rw e at h
