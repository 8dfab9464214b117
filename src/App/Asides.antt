-- ===== src/App/Asides.antt =====
-- The calls of internal/app/app.go that leave the card alone, and the helpers that make only such
-- calls: what these keep.
use cardingest.Base.{ℕ, Option, none, some, List, ◌∷◌, Bool-cases, inl, inr, nat_eq, ◌==◌}
use cardingest.Base.Strings.{Text}
use cardingest.Card.{SlotName}
use cardingest.Pipeline.Ingest.{Report}
use cardingest.Store.{JobStatus}
use cardingest.App
use cardingest.App.{Activity, JobCounts, HubEvent, Call, Outside, AppConfig, World}
use cardingest.App.Lifecycle.{
  publish, set_status, emit, emit_error, start_job, finish_job, fail_job, complete_job, surfaced,
}

abbrev pub IsAside : Call → Type 0
IsAside (App.Call.start_job slot serial r) = Unit
IsAside (App.Call.finish_job id status j r) = Unit
IsAside (App.Call.publish slot e) = Unit
IsAside (App.Call.notify n r) = Unit
IsAside c = ⊥

-- `Q` of the calls so far is kept by every call that leaves the card alone.
module _ (O : Outside) (a : AppConfig) (Q : List Call → Type 0)
    (aside : (c : Call) (calls : List Call) → IsAside c → Q calls → Q (c ∷ calls)) where
  pub publish-Keeps :
      (slot : Text) (e : HubEvent) (w : World) → Q w.calls → Q (publish O a slot e w).calls
  unfolding publish
  publish-Keeps slot e w h = elim (Bool-cases a.has_hub) [
    | inl q ↦ rw q (aside (App.Call.publish slot e) w.calls tt h)
    | inr q ↦ rw q h
  ]

  pub set_status-Keeps :
      (slot : SlotName) (s : Activity) (id : ℕ) (w : World)
      → Q w.calls
      → Q (set_status O a slot s id w).calls
  unfolding set_status
  set_status-Keeps slot s id w h = publish-Keeps slot _ _ h

  pub start_job-Keeps :
      (slot serial : Text) (w : World) → Q w.calls → Q (start_job O a slot serial w).1.calls
  unfolding start_job
  start_job-Keeps slot serial w h = elim (Bool-cases a.has_jobs) [
    | inl q ↦ rw q (aside (App.Call.start_job slot serial (O.start_job w.calls)) w.calls tt h)
    | inr q ↦ rw q h
  ]

  finish_job-Keeps :
      (id : ℕ) (status : JobStatus) (j : JobCounts) (w : World)
      → Q w.calls
      → Q (finish_job O a id status j w).calls
  unfolding finish_job
  finish_job-Keeps id status j w h = elim (Bool-cases a.has_jobs) [
    | inr q ↦ rw q h
    | inl q ↦ elim (Bool-cases (id == 0)) [
      | inl r ↦ rw (q, r) h
      | inr r ↦
          rw (q, r) (aside (App.Call.finish_job id status j (O.finish_job w.calls)) w.calls tt h)
    ]
  ]

  pub fail_job-Keeps :
      (id : ℕ) (slot message cause : Text) (w : World)
      → Q w.calls
      → Q (fail_job O a id slot message cause w).calls
  unfolding fail_job emit_error emit
  fail_job-Keeps id slot message cause w h =
      publish-Keeps slot _ _ (aside (App.Call.notify _ _) _ tt (finish_job-Keeps id _ _ w h))

  pub complete_job-Keeps :
      (id : ℕ) (slot : Text) (res : Report) (w : World)
      → Q w.calls
      → Q (complete_job O a id slot res w).calls
  unfolding complete_job emit
  complete_job-Keeps id slot res w h =
      publish-Keeps slot _ _ (aside (App.Call.notify _ _) _ tt (finish_job-Keeps id _ _ w h))

  pub surfaced-Keeps :
      (slot : Text) (answer : Option Text) (w : World)
      → Q w.calls
      → Q (surfaced O a slot answer w).calls
  unfolding emit_error emit
  surfaced-Keeps slot none w h = h
  surfaced-Keeps slot (some cause) w h = aside (App.Call.notify _ _) w.calls tt h
