-- ===== src/App/Lifecycle.antt =====
-- `ingest` of internal/app/app.go, the life of one card, and its helpers.
use cardingest.Base.{
  ℕ, true, false, Option, none, some, List, [], ◌∷◌, ◌++◌, Outcome, ok, err, if◌then◌else◌, list_eq,
  nat_eq, ◌==◌, length,
}
use cardingest.Base.Int.{pos}
use cardingest.Base.Maps.{insert}
use cardingest.Base.Strings.{Text, codes, join_path, decimal}
use cardingest.Card.{SlotName, DeviceInfo}
use cardingest.Pipeline.Ingest.{Report}
use cardingest.Store.{JobStatus, complete, failed}
use cardingest.Notify.{Notification, NotifyEvent, job_start, job_complete, job_error}
use cardingest.Mounter.{Options}
use cardingest.App
use cardingest.App.{
  ErasePolicy, Activity, idle, ingesting, SlotState, JobCounts, HubEvent, Call, Outside, AppConfig,
  World, started, completed, errored, statuses_are,
}

abbrev pub made : Call → World → World
made c w = record w { calls = c ∷ w.calls }

abbrev pub plain : NotifyEvent → Text → Text → Text → Notification
plain event slot message error = record {
  event = event;
  slot = slot;
  message = message;
  copied = 0;
  deduped = 0;
  skipped = 0;
  erased = 0;
  bytes_copied = pos 0;
  duration = pos 0;
  by_category = [];
  err_text = error;
}

-- What may be erased from the card.
unfoldable pub to_erase : ErasePolicy → Report → List Text
to_erase policy res =
    (if policy.erase_ingested then res.verified else [])
    ++ (if policy.erase_skipped then res.skipped_path else [])

abbrev pub read_only : Options
read_only = record { read_only = true; no_exec = true; no_suid = true; fs_type = [] }

abbrev pub writable : Options
writable = record { read_only = false; no_exec = true; no_suid = true; fs_type = [] }

unfoldable pub complete_message : Report → Text
unfolding decimal nat_eq
complete_message res =
    if res.failed == 0
    then codes "ingest complete"
    else codes "ingest complete, "
      ++ decimal res.failed
      ++ codes " file(s) failed and left on the card"

module _ (O : Outside) (a : AppConfig) where
  -- publish
  unfoldable pub publish : Text → HubEvent → World → World
  publish slot e w = if a.has_hub then made (App.Call.publish slot e) w else w

  -- setStatus
  unfoldable pub set_status : SlotName → Activity → ℕ → World → World
  unfolding publish insert list_eq
  set_status slot state id w =
      let statuses = insert slot (record { slot = slot; state = state; job_id = id }) w.statuses in
      publish slot (statuses_are statuses) (record w { statuses = statuses })

  -- emit: an error is only logged.
  unfoldable pub emit : Notification → World → World
  emit n w = made (App.Call.notify n (O.notify w.calls)) w

  -- emitError
  unfoldable pub emit_error : Text → Text → Text → World → World
  unfolding emit
  emit_error slot message cause w = emit (plain job_error slot message cause) w

  abbrev pub id_or_zero : Outcome Text ℕ → ℕ
  id_or_zero (ok id) = id
  id_or_zero (err cause) = 0

  -- startJob: 0 without a recorder, or if it fails.
  unfoldable pub start_job : Text → Text → World → ℕ × World
  start_job slot serial w =
      if a.has_jobs
      then (
        id_or_zero (O.start_job w.calls),
        made (App.Call.start_job slot serial (O.start_job w.calls)) w,
      )
      else (0, w)

  -- finishJob
  unfoldable pub finish_job : ℕ → JobStatus → JobCounts → World → World
  unfolding nat_eq
  finish_job id status j w =
      if a.has_jobs
      then if id == 0 then w else made (App.Call.finish_job id status j (O.finish_job w.calls)) w
      else w

  abbrev pub failed_counts : Text → JobCounts
  failed_counts cause = record {
    copied = 0;
    deduped = 0;
    skipped = 0;
    erased = 0;
    bytes = pos 0;
    err_text = cause;
  }

  -- failJob
  unfoldable pub fail_job : ℕ → Text → Text → Text → World → World
  unfolding finish_job emit_error publish
  fail_job id slot message cause w =
      publish slot (errored id message cause)
        (emit_error slot message cause (finish_job id failed (failed_counts cause) w))

  -- The deferred unmount, and the eject if asked for: always done, their errors only logged.
  unfoldable pub teardown : DeviceInfo → World → World
  teardown dev w =
      let w = made (App.Call.unmount (O.unmount w.calls)) w in
      if a.policy.eject_when_done then made (App.Call.eject dev.dev_path (O.eject w.calls)) w else w

  -- The job is recorded, notified and published as complete.
  unfoldable pub complete_job : ℕ → Text → Report → World → World
  unfolding to_erase complete_message finish_job emit publish
  complete_job id slot res w =
      let erased = length (to_erase a.policy res) in
      let dur = O.elapsed w.calls in
      let w =
        finish_job id complete
          (record {
            copied = res.copied;
            deduped = res.deduped;
            skipped = res.skipped;
            erased = erased;
            bytes = res.bytes_copied;
            err_text = [];
          })
          w in
      let w =
        emit
          (record {
            event = job_complete;
            slot = slot;
            message = complete_message res;
            copied = res.copied;
            deduped = res.deduped;
            skipped = res.skipped;
            erased = erased;
            bytes_copied = res.bytes_copied;
            duration = dur;
            by_category = res.by_category;
            err_text = [];
          })
          w in
      publish slot (completed id res erased dur) w

  -- An error of Erase is notified.
  abbrev pub surfaced : Text → Option Text → World → World
  surfaced slot none w = w
  surfaced slot (some cause) w = emit_error slot (codes "erase incomplete") cause w

  -- Erase and Sync, on a card that is writable now.
  unfoldable pub erase_card : Text → List Text → World → World
  unfolding emit_error
  erase_card slot paths w =
      let answer = O.erase w.calls in
      let w = surfaced slot answer (made (App.Call.erase paths answer) w) in
      made (App.Call.sync (O.sync w.calls)) w

  -- What follows the remount.
  abbrev pub after_remount : ℕ → Text → Report → Option Text → World → World
  after_remount id slot res (some cause) w = fail_job id slot (codes "remount failed") cause w
  after_remount id slot res none w =
      complete_job id slot res (erase_card slot (to_erase a.policy res) w)

  -- What follows an ingest that ended well, by what there is to erase.
  unfoldable pub settle : ℕ → Text → Report → List Text → World → World
  unfolding fail_job complete_job erase_card to_erase
  settle id slot res [] w = complete_job id slot res w
  settle id slot res (p ∷ paths) w =
      after_remount id slot res (O.remount w.calls)
        (made (App.Call.remount writable (O.remount w.calls)) w)

  abbrev pub after_ingest : ℕ → Text → Report × Option Text → World → World
  after_ingest id slot (res, some cause) w = fail_job id slot (codes "ingest failed") cause w
  after_ingest id slot (res, none) w = settle id slot res (to_erase a.policy res) w

  -- What is done with a mounted card.
  unfoldable pub process : ℕ → Text → World → World
  unfolding settle fail_job to_erase
  process id slot w =
      let answer = O.ingest w.calls in
      after_ingest id slot answer (made (App.Call.ingest answer.0 answer.1) w)

  abbrev pub after_mount : ℕ → Text → DeviceInfo → Option Text → World → World
  after_mount id slot dev (some cause) w = fail_job id slot (codes "mount failed") cause w
  after_mount id slot dev none w = teardown dev (process id slot w)

  -- ingest
  unfoldable pub ingest_card : SlotName → DeviceInfo → World → World
  unfolding start_job set_status publish emit process teardown fail_job join_path
  ingest_card slot dev w =
      let (id, w) = start_job slot dev.serial w in
      let w = set_status slot ingesting id w in
      let w = publish slot (started id dev.serial) w in
      let w = emit (plain job_start slot (codes "ingest started") []) w in
      let answer = O.mount w.calls in
      let target = join_path a.mount_root slot in
      let w = made (App.Call.mount dev.dev_path target read_only answer) w in
      set_status slot idle 0 (after_mount id slot dev answer w)
