-- ===== src/App.antt =====
-- The orchestrator of internal/app/app.go: its state, and the calls that it makes of the mounter, the
-- pipeline, the recorder of jobs, the notifiers and the hub. What these answer is a parameter, which
-- may depend on the calls made so far.
pub mod Lifecycle
pub mod Asides
pub mod Protocol
pub mod EndToEnd
pub mod History
pub mod Workers
pub mod Loop
pub mod Status
pub mod Samples
use cardingest.Base.{
  ℕ, Bool, true, false, Option, none, some, List, [], ◌∷◌, ◌++◌, Outcome, ok, err, if◌then◌else◌,
  list_eq,
}
use cardingest.Base.Int.{ℤ}
use cardingest.Base.Maps.{Map, insert}
use cardingest.Base.Strings.{Text, codes}
use cardingest.Card.{SlotName}
use cardingest.Pipeline.Ingest.{Report}
use cardingest.Store.{JobStatus}
use cardingest.Notify.{Notification}
use cardingest.Mounter.{Options}

pub record ErasePolicy : Type 0 where
  pub erase_ingested : Bool
  pub erase_skipped : Bool
  pub eject_when_done : Bool

-- The two states of a slot.
pub data Activity : Type 0 where
  idle ingesting : Activity

pub record SlotState : Type 0 where
  pub slot : SlotName
  pub state : Activity
  pub job_id : ℕ

-- What FinishJob records.
pub record JobCounts : Type 0 where
  pub copied : ℕ
  pub deduped : ℕ
  pub skipped : ℕ
  pub erased : ℕ
  pub bytes : ℤ
  pub err_text : Text

-- The events of the hub, with what the code puts into their data.
pub data HubEvent : Type 0 where
  started : ℕ → Text → HubEvent
  completed : ℕ → Report → ℕ → ℤ → HubEvent
  errored : ℕ → Text → Text → HubEvent
  statuses_are : Map SlotName SlotState → HubEvent

-- A call, with its error if it returned one.
pub data Call : Type 0 where
  start_job : Text → Text → Outcome Text ℕ → Call
  finish_job : ℕ → JobStatus → JobCounts → Option Text → Call
  publish : Text → HubEvent → Call
  notify : Notification → Option Text → Call
  mount : Text → Text → Options → Option Text → Call
  unmount : Option Text → Call
  eject : Text → Option Text → Call
  ingest : Report → Option Text → Call
  remount : Options → Option Text → Call
  erase : List Text → Option Text → Call
  sync : Option Text → Call

-- What the other parts answer after the calls so far, the newest first.
pub record Outside : Type 0 where
  pub start_job : List Call → Outcome Text ℕ
  pub finish_job : List Call → Option Text
  pub notify : List Call → Option Text
  pub mount : List Call → Option Text
  pub unmount : List Call → Option Text
  pub eject : List Call → Option Text
  pub ingest : List Call → Report × Option Text
  pub remount : List Call → Option Text
  pub erase : List Call → Option Text
  pub sync : List Call → Option Text
  pub elapsed : List Call → ℤ

-- The configuration: the hub and the recorder are there or not.
pub record AppConfig : Type 0 where
  pub mount_root : Text
  pub policy : ErasePolicy
  pub has_hub : Bool
  pub has_jobs : Bool

-- The calls so far, the newest first, and the status map.
pub record World : Type 0 where
  pub calls : List Call
  pub statuses : Map SlotName SlotState
