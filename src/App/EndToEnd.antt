-- ===== src/App/EndToEnd.antt =====
-- The orchestrator of internal/app/app.go over the pipeline of internal/pipeline/pipeline.go: what a
-- card's life erases from the card.
pub mod Together
pub mod Samples
use cardingest.Base.{
  ℕ, Bool, true, false, Option, none, some, List, [], ◌∷◌, ◌++◌, ◌≡◌, refl, ok, Bool-cases, inl,
  inr, if◌then◌else◌, nat_eq, All, All-append,
}
use cardingest.Base.Strings.{Text}
use cardingest.Card.{SlotName, DeviceInfo, FileEntry}
use cardingest.Pipeline.{Env, Deps, Input}
use cardingest.Pipeline.Copy.{World}
use cardingest.Pipeline.Ingest.{Report, scan, ingest}
use cardingest.Pipeline.Frame.{IsLawful}
use cardingest.Pipeline.Landing.{card_hash}
use cardingest.Pipeline.Safety.{IsLawfulIndex, IndexBacked, AllFree, Backed}
use cardingest.Pipeline.Safety.Ingest.{verified-Backed}
use cardingest.App
use cardingest.App.{ErasePolicy, Activity, idle, JobCounts, HubEvent, Call, Outside, AppConfig}
use cardingest.App.Asides.{
  IsAside, publish-Keeps, set_status-Keeps, start_job-Keeps, fail_job-Keeps, complete_job-Keeps,
  surfaced-Keeps,
}
use cardingest.App.Lifecycle.{
  to_erase, emit, teardown, erase_card, after_remount, settle, after_ingest, process, after_mount,
  ingest_card,
}

-- A call that erases, erases only paths with the property.
abbrev pub ErasesOnly : (Text → Type 0) → Call → Type 0
ErasesOnly P (App.Call.erase paths answer) = All P paths
ErasesOnly P c = Unit

module _ (P : Text → Type 0) (O : Outside) (a : AppConfig) where
  abbrev Only : App.World → Type 0
  Only w = All (ErasesOnly P) w.calls

  keeps :
      (c : Call) (calls : List Call)
      → IsAside c
      → All (ErasesOnly P) calls
      → All (ErasesOnly P) (c ∷ calls)
  keeps (App.Call.start_job slot serial r) calls s h = (tt, h)
  keeps (App.Call.finish_job id status j r) calls s h = (tt, h)
  keeps (App.Call.publish slot e) calls s h = (tt, h)
  keeps (App.Call.notify n r) calls s h = (tt, h)
  keeps (App.Call.mount d t o r) calls s h = absurd s
  keeps (App.Call.unmount r) calls s h = absurd s
  keeps (App.Call.eject d r) calls s h = absurd s
  keeps (App.Call.ingest r x) calls s h = absurd s
  keeps (App.Call.remount o r) calls s h = absurd s
  keeps (App.Call.erase p r) calls s h = absurd s
  keeps (App.Call.sync r) calls s h = absurd s

  erase_card-Only :
      (slot : Text) (paths : List Text) (w : App.World)
      → All P paths
      → Only w
      → Only (erase_card O a slot paths w)
  unfolding erase_card
  erase_card-Only slot paths w p h =
      (tt, surfaced-Keeps O a (All (ErasesOnly P)) keeps slot (O.erase w.calls) _ (p, h))

  settle-Only :
      (id : ℕ) (slot : Text) (res : Report) (paths : List Text) (w : App.World)
      → All P (to_erase a.policy res)
      → Only w
      → Only (settle O a id slot res paths w)
  unfolding settle
  settle-Only id slot res [] w p h =
      complete_job-Keeps O a (All (ErasesOnly P)) keeps id slot res w h
  settle-Only id slot res (_ ∷ paths) w p h = remounted (O.remount w.calls) _ (tt, h)
    where
      remounted :
          (answer : Option Text) (u : App.World)
          → Only u
          → Only (after_remount O a id slot res answer u)
      remounted none u k =
          complete_job-Keeps O a (All (ErasesOnly P)) keeps id slot res _
            (erase_card-Only slot (to_erase a.policy res) u p k)
      remounted (some cause) u k = fail_job-Keeps O a (All (ErasesOnly P)) keeps id slot _ cause u k

  after_ingest-Only :
      (id : ℕ) (slot : Text) (answer : Report × Option Text) (w : App.World)
      → (answer.1 ≡ none → All P (to_erase a.policy answer.0))
      → Only w
      → Only (after_ingest O a id slot answer w)
  after_ingest-Only id slot (res, none) w p h =
      settle-Only id slot res (to_erase a.policy res) w (p refl) h
  after_ingest-Only id slot (res, some cause) w p h =
      fail_job-Keeps O a (All (ErasesOnly P)) keeps id slot _ cause w h

  teardown-Only : (dev : DeviceInfo) (w : App.World) → Only w → Only (teardown O a dev w)
  unfolding teardown
  teardown-Only dev w h = elim (Bool-cases a.policy.eject_when_done) [
    | inl q ↦ rw q (tt, (tt, h))
    | inr q ↦ rw q (tt, h)
  ]

  after_mount-Only :
      (id : ℕ) (slot : Text) (dev : DeviceInfo) (answer : Option Text) (w : App.World)
      → ((c : List Call) → (O.ingest c).1 ≡ none → All P (to_erase a.policy (O.ingest c).0))
      → Only w
      → Only (after_mount O a id slot dev answer w)
  unfolding process
  after_mount-Only id slot dev (some cause) w p h =
      fail_job-Keeps O a (All (ErasesOnly P)) keeps id slot _ cause w h
  after_mount-Only id slot dev none w p h =
      teardown-Only dev _ (after_ingest-Only id slot (O.ingest w.calls) _ (p w.calls) (tt, h))

  -- If the paths that the policy lets go of every ingest that ends well have the property, the life
  -- of a card erases only paths that have it.
  pub ingest_card-Only :
      (slot : SlotName) (dev : DeviceInfo) (w : App.World)
      → ((c : List Call) → (O.ingest c).1 ≡ none → All P (to_erase a.policy (O.ingest c).0))
      → Only w
      → Only (ingest_card O a slot dev w)
  unfolding ingest_card emit
  ingest_card-Only slot dev w p h =
      let recorded = start_job-Keeps O a (All (ErasesOnly P)) keeps slot dev.serial w h in
      let shown = set_status-Keeps O a (All (ErasesOnly P)) keeps slot _ _ _ recorded in
      let told = publish-Keeps O a (All (ErasesOnly P)) keeps slot _ _ shown in
      set_status-Keeps O a (All (ErasesOnly P)) keeps slot idle 0 _
        (after_mount-Only _ slot dev _ _ p (tt, (tt, told)))

-- A path of the card whose file was opened and read to its end, and bytes with the hash of what was
-- read are on the destination, at a path that is no temporary file's.
abbrev pub IsCopied : (E : Env) → Deps → Input → World E → Text → Type 0
IsCopied E deps input w p =
    (input.card_fs.open_file p ≡ none)
    × ((input.card_fs.content p).1 ≡ none)
    × Backed E deps input w.dest (card_hash E input p)

pub verified_only :
    (policy : ErasePolicy) (P : Text → Type 0) (r : Report)
    → policy.erase_skipped ≡ false
    → All P r.verified
    → All P (to_erase policy r)
unfolding to_erase
verified_only policy P r off h = go policy.erase_ingested policy.erase_skipped off
  where
    go :
        (ingested skipped : Bool)
        → skipped ≡ false
        → All P ((if ingested then r.verified else []) ++ (if skipped then r.skipped_path else []))
    go true false off = All-append P r.verified [] h tt
    go false false off = tt
    go ingested true off = cc

-- Let the orchestrator's ingests be runs of the pipeline on a card, whose wanted files go to vacant
-- paths, no two to the same, with an index of which every hash is that of a file on the destination,
-- and let the policy keep skipped files. Then the life of the card erases only files of the card that
-- were opened and read to their end, of which bytes with the hash of what was read are on the
-- destination, at a path that is no temporary file's.
pub ingest_card-IsCopied :
    (E : Env) (L : IsLawful E.dest) (I : IsLawfulIndex E.index) (deps : Deps) (input : Input)
    (stopped : ℕ → Option Text) (w : World E) (entries : List FileEntry) (O : Outside)
    (a : AppConfig) (dev : DeviceInfo)
    → scan input.card_fs.walk ≡ ok entries
    → IndexBacked E deps input w.dest w.index
    → AllFree E deps input w.dest entries
    → ((c : List Call) → (O.ingest c).0 ≡ (ingest E deps input stopped w).1)
    → a.policy.erase_skipped ≡ false
    → let w' = (ingest E deps input stopped w).2 in
      All
        (ErasesOnly (IsCopied E deps input w'))
        (ingest_card O a input.slot dev (record { calls = []; statuses = [] })).calls
ingest_card-IsCopied E L I deps input stopped w entries O a dev scanned backed free same keep =
    let w' = (ingest E deps input stopped w).2 in
    let copied = (verified-Backed E L I deps input stopped w entries scanned backed free).1 in
    let P = IsCopied E deps input w' in
    ingest_card-Only P O a input.slot dev (record { calls = []; statuses = [] })
      (λ c _. verified_only a.policy P (O.ingest c).0 keep (rw (same c) copied)) tt
