-- ===== src/App/History/Shared/Samples.antt =====
-- Two slots whose cards use one history by turns.
use cardingest.Base.{
  ℕ, Bool, true, false, ◌+◌, ◌==◌, ◌≡◌, refl, map, List, [], ◌∷◌, nat_eq, list_eq,
}
use cardingest.Base.Strings.{Text, codes}
use cardingest.Base.Threads.{interleave, update, advance, return}
use cardingest.Card.{SlotName}
use cardingest.Store.Samples.{counts, empty-IsOrdered}
use cardingest.Store.{Job, JobStatus, complete, failed, start_job, finish_job, update_rows}
use cardingest.Store.{open_sqlite}
use cardingest.Store.Jobs.{IsOrdered}
use cardingest.App.History.Rows.{rows_of}
use cardingest.App.History.Shared.{Life, lives_steps, bare, lived, interleave-lived}

abbrev a : SlotName
a = codes "1.1"

abbrev b : SlotName
b = codes "1.2"

abbrev life_of : Text → ℕ → JobStatus → Life
life_of serial begun status = record {
  serial = serial;
  begun = begun;
  status = status;
  counts = counts;
  ended = begun + 5;
}

-- Two cards in one slot, one in the other.
abbrev picked : Bool → Bool → List Life
picked true other = life_of (codes "S1") 10 complete ∷ life_of (codes "S3") 20 failed ∷ []
picked false true = life_of (codes "S2") 11 complete ∷ []
picked false false = []

abbrev lives : SlotName → List Life
lives slot = picked (slot == a) (slot == b)

-- The second slot's job is started between the start and the finish of the first's.
abbrev schedule : List SlotName
schedule = a ∷ b ∷ a ∷ a ∷ b ∷ a ∷ []

overlapped : List Job
unfolding interleave update advance lives_steps start_job finish_job update_rows nat_eq list_eq
overlapped = (interleave schedule ((λ slot. lives_steps slot (lives slot)), open_sqlite)).1.jobs

overlapped_run :
    (map (λ (j : Job). j.slot) overlapped ≡ a ∷ b ∷ a ∷ [])
    × (map (λ (j : Job). j.serial) overlapped ≡ codes "S3" ∷ codes "S2" ∷ codes "S1" ∷ [])
    × (map (λ (j : Job). j.status) overlapped ≡ failed ∷ complete ∷ complete ∷ [])
unfolding overlapped
overlapped_run = (refl, refl, refl)

interleave-lived_example :
    let (t, s') = interleave schedule ((λ slot. lives_steps slot (lives slot)), open_sqlite) in
    IsOrdered s'
    × ((slot : SlotName)
        → t slot ≡ return tt
        → map bare (rows_of slot s'.jobs)
          ≡ lived slot (lives slot) (map bare (rows_of slot open_sqlite.jobs)))
interleave-lived_example = interleave-lived lives open_sqlite empty-IsOrdered schedule
