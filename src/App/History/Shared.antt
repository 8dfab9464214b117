-- ===== src/App/History/Shared.antt =====
-- The job history while several slots use it at once: each slot's cards, one after the other, start a
-- job and finish it (`startJob` and `finishJob` of internal/app/app.go where the recorder is there and
-- returns no error), and other slots' calls come in between.
pub mod Samples
use mathlib.Core.Path.{subst}
use cardingest.Base.{
  ℕ, none, some, eq_self, ◌≤◌, ◌<◌, Bool, true, false, ◌+◌, ◌≡◌, ◌≢◌, refl, sym, ap, ◌∙◌, List, [],
  ◌∷◌, map, All, arith,
}
use cardingest.Base.{◌==◌, list_eq, nat_eq, if◌then◌else◌, Bool-cases, inl, inr, eq_true, eq_false}
use cardingest.Base.Strings.{Text}
use cardingest.Base.Threads.{Prog, return, act, Threads, interleave}
use cardingest.Base.Threads.Rely.{
  Contract, Good, Good-return, Good-act, Good-ended, interleave-Good,
}
use cardingest.Card.{SlotName}
use cardingest.Store.{Job, JobStatus, Sqlite, start_job, finish_job, update_rows, finished, running}
use cardingest.Base.Int.{pos}
use cardingest.Store.Jobs.{IsOrdered, IsDescending, IsDescending-up, start_job-IsOrdered}
use cardingest.Store.Jobs.{finish_job-IsOrdered, update_rows-above}
use cardingest.App.History.Rows.{rows_of, rows_of-IsDescending, rows_of-update_self}
use cardingest.App.History.Rows.{rows_of-update_other, newest-ids}

-- What the life of a card gives to the history: its start and its end.
pub record Life : Type 0 where
  pub serial : Text
  pub begun : ℕ
  pub status : JobStatus
  pub counts : Job
  pub ended : ℕ

-- The calls of a slot's cards on the database. The id that a start returns is the one finished.
unfoldable pub lives_steps : SlotName → List Life → Prog Sqlite Unit
lives_steps slot [] = return tt
lives_steps slot (l ∷ lives) =
    act (λ s. (start_job s slot l.serial l.begun).1)
      λ s.
        act (λ u. finish_job u (start_job s slot l.serial l.begun).0 l.status l.counts l.ended)
          λ u. lives_steps slot lives

-- A row but for its id.
abbrev pub bare : Job → Job
bare row = record row { id = 0 }

-- A slot's rows, but for their ids, after its cards.
abbrev pub lived : SlotName → List Life → List Job → List Job
lived slot [] rows = rows
lived slot (l ∷ lives) rows = lived slot lives (
    record l.counts {
      id = 0;
      slot = slot;
      serial = l.serial;
      status = l.status;
      started_at = l.begun;
      finished_at = some l.ended;
    }
    ∷ rows)

-- A slot changes no other slot's rows, and relies on the others for the same.
abbrev shared : SlotName → Contract Sqlite
shared slot = record {
  inv = IsOrdered;
  rely = λ s t. rows_of slot t.jobs ≡ rows_of slot s.jobs;
  guar = λ s t. (j : SlotName) → j ≢ slot → rows_of j t.jobs ≡ rows_of j s.jobs;
  rely_refl = λ s. refl;
  rely_trans = λ s t u h k. k ∙ h;
}

rows_of-start_job :
    (slot other : SlotName) (s : Sqlite) (l : Life)
    → other ≢ slot
    → rows_of other (start_job s slot l.serial l.begun).1.jobs ≡ rows_of other s.jobs
unfolding rows_of start_job
rows_of-start_job slot other s l apart = ground (arith, apart)

abbrev new_row : SlotName → Life → ℕ → Job
new_row slot l id = record {
  id = id;
  slot = slot;
  serial = l.serial;
  status = running;
  copied = 0;
  deduped = 0;
  skipped = 0;
  erased = 0;
  bytes = pos 0;
  err_text = [];
  started_at = l.begun;
  finished_at = none;
}

rows_of-start_self :
    (slot : SlotName) (s : Sqlite) (l : Life)
    → rows_of slot (start_job s slot l.serial l.begun).1.jobs
      ≡ new_row slot l (s.last_id + 1) ∷ rows_of slot s.jobs
unfolding rows_of start_job
rows_of-start_self slot s l = ground (arith, eq_self slot)

-- The finish of the slot's newest row: of the other slots' rows none changes, and of its own that one.
module _ (slot : SlotName) (u : Sqlite) (l : Life) (new : Job) (old : List Job)
    (ordered : IsOrdered u) (is : rows_of slot u.jobs ≡ new ∷ old) where
  abbrev closed_by : Sqlite
  closed_by = finish_job u new.id l.status l.counts l.ended

  rows_of-closed_other :
      (other : SlotName) → other ≢ slot → rows_of other closed_by.jobs ≡ rows_of other u.jobs
  unfolding finish_job
  rows_of-closed_other other apart =
      rows_of-update_other slot other new.id l.status l.counts l.ended u.jobs apart
        (newest-ids slot (u.last_id + 1) u.jobs new old ordered.rows is)

  rows_of-closed_self : rows_of slot closed_by.jobs ≡ finished l.status l.counts l.ended new ∷ old
  unfolding finish_job update_rows
  rows_of-closed_self =
      let below =
        subst (IsDescending (u.last_id + 1)) is
          (rows_of-IsDescending slot (u.last_id + 1) u.jobs ordered.rows) in
      rows_of-update_self slot new.id l.status l.counts l.ended u.jobs
      ∙ ap (update_rows new.id l.status l.counts l.ended) is
      ∙ ground (
        arith,
        update_rows-above new.id new.id l.status l.counts l.ended old (omega arith) below.1,
      )

-- A slot's cards, whatever the other slots do in between, leave in its part of the history what they
-- leave there alone.
lives-Good :
    (slot : SlotName) (lives : List Life) (rows : List Job) (s : Sqlite)
    → map bare (rows_of slot s.jobs) ≡ rows
    → Good
        (shared slot)
        (λ _ t. map bare (rows_of slot t.jobs) ≡ lived slot lives rows)
        (lives_steps slot lives)
        s
unfolding lives_steps start_job
lives-Good slot [] rows s h = Good-return (shared slot) _ tt s λ t k _. ap (map bare) k ∙ h
lives-Good slot (l ∷ lives) rows s h = Good-act (shared slot) _ _ _ s λ t k i.
    let t' = (start_job t slot l.serial l.begun).1 in
    let new = new_row slot l (t.last_id + 1) in
    let old = rows_of slot t.jobs in
    (
      start_job-IsOrdered t slot l.serial l.begun i,
      λ j apart. rows_of-start_job slot j t l apart,
      Good-act (shared slot) _ _ _ t' λ u m o.
          let is = m ∙ rows_of-start_self slot t l in
          (
            finish_job-IsOrdered u new.id l.status l.counts l.ended o,
            λ j apart. rows_of-closed_other slot u l new old o is j apart,
            lives-Good slot lives _ (closed_by slot u l new old o is) (
                ap (map bare) (rows_of-closed_self slot u l new old o is)
                ∙ ap (λ rest. bare (finished l.status l.counts l.ended new) ∷ rest)
                    (ap (map bare) k ∙ h)),
          ),
    )

-- Cards in several slots use one ordered history at once, each starting a job and finishing it under
-- the id that it was given, in an order of calls that is any. Then the history stays ordered, and a
-- slot whose cards are through has in it, but for the ids, the rows that it had and above them one
-- row for each of its cards, the last the first, with that card's serial, times, status and counts: no
-- slot finishes or changes another's job.
pub interleave-lived :
    (lives : SlotName → List Life) (s : Sqlite)
    → IsOrdered s
    → (schedule : List SlotName)
    → let (t, s') = interleave schedule ((λ slot. lives_steps slot (lives slot)), s) in
      IsOrdered s'
      × ((slot : SlotName)
          → t slot ≡ return tt
          → map bare (rows_of slot s'.jobs)
            ≡ lived slot (lives slot) (map bare (rows_of slot s.jobs)))
interleave-lived lives s ordered schedule =
    let Post : SlotName → Unit {0} → Sqlite → Type 0 = λ slot u t.
      map bare (rows_of slot t.jobs) ≡ lived slot (lives slot) (map bare (rows_of slot s.jobs)) in
    let programs : Threads SlotName Sqlite (Unit {0}) = λ slot. lives_steps slot (lives slot) in
    let all =
      interleave-Good shared (λ j k t i. i) (λ j k t t' apart g. g k (λ q. apart (sym q))) Post
        schedule programs s (λ slot. (ordered, lives-Good slot (lives slot) _ s refl)) in
    (
      (all []).0,
      λ slot is. Good-ended (shared slot) (Post slot) tt _ (all slot).0 (rw (← is) (all slot).1),
    )
