-- ===== src/Lib.antt =====
-- A model of cardingest, which copies memory cards to a network share when they are put into a
-- reader, verifies every copy, and only then erases what was copied from the card.
--
-- The program's parts and how they interact. A detector (internal/detect) watches the reader and
-- sends an event for each card put in or taken out. The orchestrator (internal/app) starts a worker
-- for the slot of an insert and cancels it at a removal; a worker mounts the card read-only, has the
-- pipeline (internal/pipeline) ingest it, and if that ended well remounts it, has the pipeline erase
-- what the policy lets go, and unmounts it. The pipeline asks the rules (internal/rules) for each
-- file, copies the wanted ones to a temporary file on the destination, drops those whose hash the
-- store (internal/store) has, reads back and compares the others, renames them to their final path
-- and records their hash. The orchestrator records its jobs in the store and tells the notifiers
-- (internal/notify). The web server (internal/web) shows the jobs and the slots, drives the simulated
-- reader, and reads and replaces the policy document (internal/config), from which
-- cmd/cardingest/main.go builds all parts at the start.
--
-- What models what.
--   Base: the shared names. Results is a Go pair of a value and an error, Exec a state with an
--     error, Maps a Go map as an association list (its order is one of those that Go may take, and
--     theorems hold for each), Strings the functions of `strings`, `path` and `strconv` on ASCII
--     text, Int the integers and int64. Threads is a family of programs over one state, Rely the
--     proof of such a family program by program, and Ended about those that have ended.
--   Card, Config: the types of internal/card/card.go and of the policy document of
--     internal/config/file.go. Config.Store is the document's store in that file (`new_store`, `load`,
--     `save`), with its proofs in Atomic; Config.Boot is internal/config/config.go and the level of
--     internal/logging/logging.go.
--   Rules: internal/rules. Rules.antt is match.go and rules.go (`matches`, `decide`); Size and
--     Compile are compile.go (`parse_size`, `compile`); Semantics, Entries and Criteria hold the
--     proofs.
--   Pipeline: internal/pipeline/pipeline.go. Category is `categorize`, Copy is `copyAndVerify` with
--     `streamCopy`, `hashFile` and `destPath`, Ingest and Erase are the methods of those names.
--     Frame, Landing, Noted, Safety, Resume, Ledger, Collision, Folders and TempNames hold the
--     proofs, and Memory is a destination in memory that meets what the proofs ask of one. Steps is
--     the same code for several slots at once: `Ingest` as a program of atomic steps on the shared
--     pipeline, whose steps other slots' steps may come between. Steps/Runs relates it to Ingest; Own
--     is what a slot may change and what it relies on, Rules, Copying, Placing, Deduping, Safety, Wanted, Rounds
--     and Loop prove that its steps keep to that, and Together interleaves the slots of `startWorker`.
--   Detect: internal/detect. Tracker is state.go (`reconcile`), Poll poll.go, Mock mock.go, Linux
--     detect_linux.go and bypath.go. Trace, Diff and Debounce are about the events of the tracker,
--     Refine about the automaton of one slot, and Steady about a card that stays.
--   Store: internal/store. Store.antt has the tables and the operations of sqlite.go and jobs.go,
--     Jobs their laws, and Index makes the database the index that the pipeline takes.
--   Notify: internal/notify. Notify.antt is notify.go, Pulsar is pulsar.go; Fan and Pulsar/Limits
--     hold the proofs.
--   App: internal/app/app.go. Lifecycle is `ingest` and its helpers, Protocol the order of its
--     calls, EndToEnd its calls where the pipeline is the one of Pipeline, also (Together)
--     beside other slots' ingests, and Asides what these share; History is what the calls leave
--     in the job history, Shared in it the history that several slots use at once, and Lives
--     that a card's life uses it so; Workers is `handle`, `startWorker`, `stopWorker`,
--     `finishWorker` and `shutdown` as steps in any order, where a goroutine's `finishWorker` and its
--     deferred `Done` of the wait group are two, Loop is `Run` over the events that
--     Detect's poll loop sends, and Status is `Status`, with the text order in Order and the map
--     without its order in Live.
--   Mounter: internal/mounter. Mounter.antt is mounter.go, Real is mounter_linux.go over any kernel,
--     Fake is fake.go over any system calls; Tries, Remounts and Fixture hold the proofs.
--   Web: the handlers of internal/web/web.go, on a record of the parts they are given; Policy is about
--     `PutConfig`, Dev about `DevInsert` and `DevRemove`. Stream is `sseHandler` of
--     internal/web/sse.go, and Stream/Read what a browser makes of it.
--   Appliance: `main` and `run` of cmd/cardingest/main.go, with `New` of detect.go and mounter.go;
--     Restart joins `run` to what `PutConfig` leaves on disk.
--   Events: internal/events/hub.go; a panic of the code is the value none.
--   Exifdate: the loop of `findAtom` in internal/exifdate/mp4.go. Dates is the rest of that file and
--     exifdate.go; Seconds is about the duration of the header's seconds.
--   The modules called Samples hold runs at concrete inputs.
--
-- What is taken from outside. The destination is a record of operations (Pipeline.Dest) with the
-- laws of a file system where no one else writes (Pipeline.Frame.IsLawful); the index of hashes is
-- one with the laws of a set (Pipeline.Safety.IsLawfulIndex), which Store.Index proves of the
-- database; the card is what a walk visits and what its files deliver. doublestar, float64 and
-- strconv.ParseFloat, xxhash, the kernel and its file systems, afero, the YAML and the EXIF library,
-- the environment and HTTP are parameters; what a theorem needs of one is a record of laws among its
-- hypotheses. The orchestrator's surroundings, the mounter among them, answer by the calls made before.
--
-- Atomic steps. In Pipeline.Steps a call of the destination, of the store or of the progress callback
-- and the addition to the counter of temporary files are one step each; so is the whole of io.Copy,
-- which writes to a file that no other slot touches.
--
-- Bounds and fuel. Numbers are naturals, counters among them, and sizes are int64 where the code
-- adds them (Base.Int). The temporary counter wraps at 2 ^ 64. `decimal` and `unit_exponent`
-- take their number as fuel, which their loops, dividing by 10 and by 1024, cannot use up;
-- `find_from` takes one more than the bytes of the file, which is proved enough. The climb of
-- `readUSBAttrs` has the source's own limit of 12.
--
-- What is not modelled: logging and telemetry; the interleaving of the workers' other calls (the
-- mounter, the notifiers, the hub); text beyond ASCII; contexts, except as the file at which an
-- ingest is stopped and the event at which a watch is cut off; errors of the SQLite driver; of
-- internal/web the pages and the generated server, which only write to the network; the signals
-- and the shutdown of cmd/cardingest; and the stubs for systems other than Linux.
pub mod Base
pub mod Card
pub mod Config
pub mod Rules
pub mod Pipeline
pub mod Detect
pub mod Store
pub mod Events
pub mod Notify
pub mod Exifdate
pub mod Mounter
pub mod App
pub mod Web
pub mod Appliance
