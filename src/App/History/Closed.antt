-- ===== src/App/History/Closed.antt =====
-- Every way through `ingest` of internal/app/app.go ends the job that it has started.
use cardingest.Base.{
  ℕ, ◌+◌, true, false, Option, none, some, List, [], ◌∷◌, ◌≡◌, ◌≢◌, refl, ap, ◌∙◌, arith, ok,
  Bool-cases, inl, inr, nat_eq, ◌==◌,
}
use cardingest.Base.Strings.{Text}
use cardingest.Card.{SlotName, DeviceInfo}
use cardingest.Pipeline.Ingest.{Report}
use cardingest.Store.{JobStatus, running, complete, failed, Sqlite}
use cardingest.Store.Jobs.{IsOrdered, finish_job-start_job}
use cardingest.Notify.{Notification}
use cardingest.App
use cardingest.App.{Activity, idle, ingesting, JobCounts, HubEvent, Call, Outside, AppConfig, World}
use cardingest.App.Lifecycle.{
  made, publish, set_status, emit, emit_error, start_job, finish_job, fail_job, complete_job,
  surfaced, erase_card, settle, after_remount, after_ingest, process, after_mount, teardown,
  ingest_card, to_erase, read_only,
}
use cardingest.App.History.{JobStep, opened, closed, steps_of, row_of, replay}

module _ (O : Outside) (a : AppConfig) (recorded : a.has_jobs ≡ true)
    (finishes : (c : List Call) → O.finish_job c ≡ none) where
  publish-steps_of :
      (slot : Text) (e : HubEvent) (w : World)
      → steps_of (publish O a slot e w).calls ≡ steps_of w.calls
  unfolding publish steps_of
  publish-steps_of slot e w = elim (Bool-cases a.has_hub) [ inl q ↦ rw q refl | inr q ↦ rw q refl ]

  set_status-steps_of :
      (slot : SlotName) (s : Activity) (id : ℕ) (w : World)
      → steps_of (set_status O a slot s id w).calls ≡ steps_of w.calls
  unfolding set_status
  set_status-steps_of slot s id w = publish-steps_of slot _ _

  erase_card-steps_of :
      (slot : Text) (paths : List Text) (w : World)
      → steps_of (erase_card O a slot paths w).calls ≡ steps_of w.calls
  unfolding erase_card emit_error emit steps_of
  erase_card-steps_of slot paths w =
      answered (O.erase w.calls) (made (App.Call.erase paths (O.erase w.calls)) w)
    where
      answered :
          (answer : Option Text) (u : World)
          → steps_of (surfaced O a slot answer u).calls ≡ steps_of u.calls
      answered none u = refl
      answered (some cause) u = refl

  teardown-steps_of :
      (dev : DeviceInfo) (w : World) → steps_of (teardown O a dev w).calls ≡ steps_of w.calls
  unfolding teardown steps_of
  teardown-steps_of dev w = elim (Bool-cases a.policy.eject_when_done) [
    | inl q ↦ rw q refl
    | inr q ↦ rw q refl
  ]

  finish_job-steps_of :
      (id : ℕ) (status : JobStatus) (j : JobCounts) (w : World)
      → id ≢ 0
      → steps_of (finish_job O a id status j w).calls ≡ closed id status j ∷ steps_of w.calls
  unfolding finish_job steps_of
  finish_job-steps_of id status j w n = rw (recorded, finishes w.calls, not_zero) refl
    where
      not_zero : (id == 0) ≡ false
      not_zero = ground (arith, n)

  -- The job is open, or it is closed as complete or failed.
  abbrev IsOpen : JobStep → World → Type 0
  IsOpen start w = steps_of w.calls ≡ start ∷ []

  abbrev pub IsClosed : ℕ → JobStep → World → Type 0
  IsClosed id start w =
      (status : JobStatus) × (j : JobCounts) × (status ≢ running)
      × (steps_of w.calls ≡ closed id status j ∷ start ∷ [])

  module _ (id : ℕ) (given : id ≢ 0) (start : JobStep) where
    closes :
        (slot : Text) (status : JobStatus) (j : JobCounts) (e : HubEvent) (n : Notification)
        (w : World)
        → status ≢ running
        → IsOpen start w
        → IsClosed id start (publish O a slot e (emit O a n (finish_job O a id status j w)))
    unfolding emit steps_of
    closes slot status j e n w over h = (
      status,
      j,
      over,
      publish-steps_of slot e _
          ∙ finish_job-steps_of id status j w given
          ∙ ap (λ steps. closed id status j ∷ steps) h,
    )

    fail_job-IsClosed :
        (slot message cause : Text) (w : World)
        → IsOpen start w
        → IsClosed id start (fail_job O a id slot message cause w)
    unfolding fail_job emit_error
    fail_job-IsClosed slot message cause w h = closes slot failed _ _ _ w (λ e. cc) h

    complete_job-IsClosed :
        (slot : Text) (res : Report) (w : World)
        → IsOpen start w
        → IsClosed id start (complete_job O a id slot res w)
    unfolding complete_job
    complete_job-IsClosed slot res w h = closes slot complete _ _ _ w (λ e. cc) h

    after_remount-IsClosed :
        (slot : Text) (res : Report) (answer : Option Text) (w : World)
        → IsOpen start w
        → IsClosed id start (after_remount O a id slot res answer w)
    after_remount-IsClosed slot res (some cause) w h = fail_job-IsClosed slot _ cause w h
    after_remount-IsClosed slot res none w h =
        complete_job-IsClosed slot res _ (erase_card-steps_of slot _ w ∙ h)

    settle-IsClosed :
        (slot : Text) (res : Report) (paths : List Text) (w : World)
        → IsOpen start w
        → IsClosed id start (settle O a id slot res paths w)
    unfolding settle steps_of
    settle-IsClosed slot res [] w h = complete_job-IsClosed slot res w h
    settle-IsClosed slot res (p ∷ paths) w h =
        after_remount-IsClosed slot res (O.remount w.calls) _ h

    after_ingest-IsClosed :
        (slot : Text) (answer : Report × Option Text) (w : World)
        → IsOpen start w
        → IsClosed id start (after_ingest O a id slot answer w)
    after_ingest-IsClosed slot (res, some cause) w h = fail_job-IsClosed slot _ cause w h
    after_ingest-IsClosed slot (res, none) w h =
        settle-IsClosed slot res (to_erase a.policy res) w h

    after_mount-IsClosed :
        (slot : Text) (dev : DeviceInfo) (answer : Option Text) (w : World)
        → IsOpen start w
        → IsClosed id start (after_mount O a id slot dev answer w)
    unfolding process steps_of
    after_mount-IsClosed slot dev (some cause) w h = fail_job-IsClosed slot _ cause w h
    after_mount-IsClosed slot dev none w h =
        let (status, j, over, e) = after_ingest-IsClosed slot (O.ingest w.calls) _ h in
        (status, j, over, teardown-steps_of dev _ ∙ e)

  abbrev pub fresh : World
  fresh = record { calls = []; statuses = [] }

  start_job-steps_of :
      (slot serial : Text) (id : ℕ)
      → O.start_job [] ≡ ok id
      → ((start_job O a slot serial fresh).0 ≡ id)
        × (steps_of (start_job O a slot serial fresh).1.calls ≡ opened slot serial id ∷ [])
  unfolding start_job steps_of
  start_job-steps_of slot serial id h = rw (recorded, h) (refl, refl)

  -- What follows the start of the job.
  started-IsClosed :
      (id : ℕ) (start : JobStep) (slot : SlotName) (dev : DeviceInfo) (target : Text)
      (n : Notification) (e : HubEvent) (w : World)
      → id ≢ 0
      → IsOpen start w
      → let u = emit O a n (publish O a slot e (set_status O a slot ingesting id w)) in
        IsClosed id start (
          set_status O a slot idle 0 (
            after_mount O a id slot dev
              (O.mount u.calls)
              (made (App.Call.mount dev.dev_path target read_only (O.mount u.calls)) u)))
  unfolding emit steps_of
  started-IsClosed id start slot dev target n e w given h =
      let told = publish-steps_of slot e _ ∙ set_status-steps_of slot ingesting id w ∙ h in
      let (status, j, over, closing) = after_mount-IsClosed id given start slot dev _ _ told in
      (status, j, over, set_status-steps_of slot idle 0 _ ∙ closing)

  pub ingest_card-IsClosed :
      (slot : SlotName) (dev : DeviceInfo) (id : ℕ)
      → id ≢ 0
      → O.start_job [] ≡ ok id
      → IsClosed id (opened slot dev.serial id) (ingest_card O a slot dev fresh)
  unfolding ingest_card
  ingest_card-IsClosed slot dev id given answered =
      let (same, e) = start_job-steps_of slot dev.serial id answered in
      shift (ingest_card O a slot dev fresh) same
        (started-IsClosed _ (opened slot dev.serial id) slot dev _ _ _ _ (rw same given) e)
    where
      shift :
          {i : ℕ} {start : JobStep} (w : World) → i ≡ id → IsClosed i start w → IsClosed id start w
      shift w e h = rw e at h

  -- Let the recorder be there, give a new job the id that the database gives, and finish jobs without
  -- an error. Then the life of a card, whatever else fails in it, leaves one new job in an ordered
  -- history, the newest, with the slot and the serial of the card, which is over, as complete or
  -- failed; the other jobs are as before.
  pub replay-ingest_card :
      (slot : SlotName) (dev : DeviceInfo) (s : Sqlite) (now later : ℕ)
      → IsOrdered s
      → O.start_job [] ≡ ok (s.last_id + 1)
      → (status : JobStatus) × (j : JobCounts) × (status ≢ running)
        × ((replay s now later (steps_of (ingest_card O a slot dev fresh).calls)).jobs
            ≡ record (row_of j) {
              id = s.last_id + 1;
              slot = slot;
              serial = dev.serial;
              status = status;
              started_at = now;
              finished_at = some later;
            }
              ∷ s.jobs)
  unfolding replay
  replay-ingest_card slot dev s now later ordered answered =
      let (status, j, over, e) =
        ingest_card-IsClosed slot dev (s.last_id + 1) (omega arith) answered in
      (
        status,
        j,
        over,
        ap (λ steps. (replay s now later steps).jobs) e
            ∙ finish_job-start_job s slot dev.serial now later status (row_of j) ordered,
      )
