-- ===== src/App/Protocol.antt =====
-- In what order `ingest` of internal/app/app.go calls the mounter and the pipeline.
use cardingest.Base.{
  ℕ, Bool, true, false, Option, none, some, List, [], ◌∷◌, ◌≡◌, ◌≢◌, refl, if◌then◌else◌, nat_eq,
  list_eq,
}
use cardingest.Base.Strings.{Text}
use cardingest.Card.{SlotName, DeviceInfo}
use cardingest.Pipeline.Ingest.{Report}
use cardingest.Mounter.{Options}
use cardingest.App
use cardingest.App.{
  ErasePolicy, Activity, idle, SlotState, JobCounts, HubEvent, Call, Outside, AppConfig, World,
}
use cardingest.App.Asides.{
  IsAside, publish-Keeps, set_status-Keeps, start_job-Keeps, fail_job-Keeps, complete_job-Keeps,
  surfaced-Keeps,
}
use cardingest.App.Lifecycle.{
  read_only, writable, to_erase, emit, fail_job, teardown, complete_job, erase_card, after_remount,
  settle, after_ingest, process, after_mount, ingest_card,
}

-- Where a card is: not mounted; mounted read-only; read-only with its ingest done; or writable, after
-- a remount without the read-only option that succeeded.
pub data Phase : Type 0 where
  away readable : Phase
  copied unlocked : Report → Phase

-- Options under which a card can neither be written nor run programs.
pub record IsSealed (o : Options) : Type 0 where
  pub sealed : o.read_only ≡ true
  pub inert : (o.no_exec ≡ true) × (o.no_suid ≡ true)

-- Options under which a card can be written, and still runs no programs.
pub record IsWritable (o : Options) : Type 0 where
  pub open_for_writes : o.read_only ≡ false
  pub inert : (o.no_exec ≡ true) × (o.no_suid ≡ true)

-- The calls that are in order in a phase, and the phase after them.
pub data Step (policy : ErasePolicy) : Phase → Call → Phase → Type 0 where
  aside : {p : Phase} {c : Call} → IsAside c → Step policy p c p
  mounted :
      {dev target : Text} {o : Options}
      → IsSealed o
      → Step policy away (App.Call.mount dev target o none) readable
  not_mounted :
      {dev target cause : Text} {o : Options}
      → IsSealed o
      → Step policy away (App.Call.mount dev target o (some cause)) away
  ingested : {res : Report} → Step policy readable (App.Call.ingest res none) (copied res)
  not_ingested :
      {res : Report} {cause : Text}
      → Step policy readable (App.Call.ingest res (some cause)) readable
  reopened :
      {res : Report} {o : Options}
      → IsWritable o
      → Step policy (copied res) (App.Call.remount o none) (unlocked res)
  not_reopened :
      {res : Report} {o : Options} {cause : Text}
      → IsWritable o
      → Step policy (copied res) (App.Call.remount o (some cause)) (copied res)
  erased :
      {res : Report} {answer : Option Text}
      → Step policy (unlocked res) (App.Call.erase (to_erase policy res) answer) (unlocked res)
  synced :
      {res : Report} {answer : Option Text}
      → Step policy (unlocked res) (App.Call.sync answer) (unlocked res)
  unmounted :
      {p : Phase} {answer : Option Text} → p ≢ away → Step policy p (App.Call.unmount answer) away
  ejected : {dev : Text} {answer : Option Text} → Step policy away (App.Call.eject dev answer) away

-- The calls, the newest first, are in order and lead to a phase.
abbrev pub Obeys : ErasePolicy → Phase → List Call → Type 0
Obeys policy p [] = p ≡ away
Obeys policy p (c ∷ earlier) = (q : Phase) × Obeys policy q earlier × Step policy q c p

-- They lead to a phase in which the card is mounted.
abbrev Mounted : ErasePolicy → List Call → Type 0
Mounted policy calls = (p : Phase) × (p ≢ away) × Obeys policy p calls

read_only-IsSealed : IsSealed read_only
read_only-IsSealed = record { sealed = refl; inert = (refl, refl) }

writable-IsWritable : IsWritable writable
writable-IsWritable = record { open_for_writes = refl; inert = (refl, refl) }

module _ (O : Outside) (a : AppConfig) where
  abbrev In : Phase → World → Type 0
  In p w = Obeys a.policy p w.calls

  keeps :
      (p : Phase) (c : Call) (calls : List Call)
      → IsAside c
      → Obeys a.policy p calls
      → Obeys a.policy p (c ∷ calls)
  keeps p c calls s h = (p, h, aside s)

  fail_job-In :
      (p : Phase) (id : ℕ) (slot message cause : Text) (w : World)
      → In p w
      → In p (fail_job O a id slot message cause w)
  fail_job-In p = fail_job-Keeps O a (Obeys a.policy p) (keeps p)

  complete_job-In :
      (p : Phase) (id : ℕ) (slot : Text) (res : Report) (w : World)
      → In p w
      → In p (complete_job O a id slot res w)
  complete_job-In p = complete_job-Keeps O a (Obeys a.policy p) (keeps p)

  erase_card-In :
      (slot : Text) (res : Report) (w : World)
      → In (unlocked res) w
      → In (unlocked res) (erase_card O a slot (to_erase a.policy res) w)
  unfolding erase_card
  erase_card-In slot res w h =
      let p = unlocked res in
      (
        p,
        surfaced-Keeps O a (Obeys a.policy p) (keeps p) slot (O.erase w.calls) _ (p, h, erased),
        synced,
      )

  teardown-In :
      (dev : DeviceInfo) (w : World) → Mounted a.policy w.calls → In away (teardown O a dev w)
  unfolding teardown
  teardown-In dev w (p, n, h) =
      go a.policy.eject_when_done
        (record w { calls = App.Call.unmount (O.unmount w.calls) ∷ w.calls }) (p, h, unmounted n)
    where
      go :
          (b : Bool) (u : World)
          → In away u
          → In away (
              if b
              then record u { calls = App.Call.eject dev.dev_path (O.eject u.calls) ∷ u.calls }
              else u)
      go true u k = (away, k, ejected)
      go false u k = k

  after_remount-Mounted :
      (id : ℕ) (slot : Text) (res : Report) (answer : Option Text) (w : World)
      → In (copied res) w
      → Mounted a.policy
          (after_remount O a id slot res answer
            (record w { calls = App.Call.remount writable answer ∷ w.calls })).calls
  after_remount-Mounted id slot res (some cause) w h = (
    copied res,
    λ e. cc,
    fail_job-In (copied res) id slot _ cause _ (copied res, h, not_reopened writable-IsWritable),
  )
  after_remount-Mounted id slot res none w h = (
    unlocked res,
    λ e. cc,
    complete_job-In (unlocked res) id slot res _
        (erase_card-In slot res _ (copied res, h, reopened writable-IsWritable)),
  )

  settle-Mounted :
      (id : ℕ) (slot : Text) (res : Report) (paths : List Text) (w : World)
      → In (copied res) w
      → Mounted a.policy (settle O a id slot res paths w).calls
  unfolding settle
  settle-Mounted id slot res [] w h =
      (copied res, λ e. cc, complete_job-In (copied res) id slot res w h)
  settle-Mounted id slot res (p ∷ paths) w h =
      after_remount-Mounted id slot res (O.remount w.calls) w h

  after_ingest-Mounted :
      (id : ℕ) (slot : Text) (res : Report) (answer : Option Text) (w : World)
      → In readable w
      → Mounted a.policy
          (after_ingest O a id slot
            (res, answer)
            (record w { calls = App.Call.ingest res answer ∷ w.calls })).calls
  after_ingest-Mounted id slot res (some cause) w h =
      (readable, λ e. cc, fail_job-In readable id slot _ cause _ (readable, h, not_ingested))
  after_ingest-Mounted id slot res none w h =
      settle-Mounted id slot res (to_erase a.policy res) _ (readable, h, ingested)

  after_mount-In :
      (id : ℕ) (slot target : Text) (dev : DeviceInfo) (answer : Option Text) (w : World)
      → In away w
      → In away (
          after_mount O a id slot dev answer
            (record w { calls = App.Call.mount dev.dev_path target read_only answer ∷ w.calls }))
  unfolding process
  after_mount-In id slot target dev (some cause) w h =
      fail_job-In away id slot _ cause _ (away, h, not_mounted read_only-IsSealed)
  after_mount-In id slot target dev none w h =
      let at = record w { calls = App.Call.mount dev.dev_path target read_only none ∷ w.calls } in
      teardown-In dev _ (
        after_ingest-Mounted id slot (O.ingest at.calls).0 (O.ingest at.calls).1 at
          (away, h, mounted read_only-IsSealed))

  -- The life of a card makes its calls in order, whatever they answer: the card is mounted with the
  -- read-only option; it is remounted, without that option, only after an ingest that ended well; what
  -- is erased, and only after that remount succeeded, is exactly what the policy lets go of that
  -- ingest's report; both mounts are noexec and nosuid; and what was mounted is unmounted, on every way
  -- out, before an eject.
  pub ingest_card-Obeys :
      (slot : SlotName) (dev : DeviceInfo) (w : World)
      → Obeys a.policy away w.calls
      → Obeys a.policy away (ingest_card O a slot dev w).calls
  unfolding ingest_card emit
  ingest_card-Obeys slot dev w h =
      let Q = Obeys a.policy away in
      let recorded = start_job-Keeps O a Q (keeps away) slot dev.serial w h in
      let shown = set_status-Keeps O a Q (keeps away) slot _ _ _ recorded in
      let told = publish-Keeps O a Q (keeps away) slot _ _ shown in
      set_status-Keeps O a Q (keeps away) slot idle 0 _
        (after_mount-In _ slot _ dev _ _ (away, told, aside tt))
