-- ===== src/App/EndToEnd/Together.antt =====
-- The orchestrator's lives of cards in several slots, whose ingests share one pipeline.
use cardingest.Base.{list_eq, nat_eq, ℕ, ◌≡◌, ap, ◌∙◌, false, List, [], ◌++◌, Option, some, All}
use cardingest.Base.Threads.{return, Threads, interleave}
use cardingest.Base.Threads.Ended.{interleave-append, interleave-ended}
use cardingest.Base.Strings.{Text}
use cardingest.Card.{SlotName, DeviceInfo}
use cardingest.Pipeline.{Env, Deps, Input}
use cardingest.Pipeline.Copy.{World}
use cardingest.Pipeline.Frame.{IsLawful}
use cardingest.Pipeline.Safety.{IsLawfulIndex}
use cardingest.Pipeline.Steps.{Ending}
use cardingest.Pipeline.Steps.Own.{AllStored}
use cardingest.Pipeline.Steps.Together.{AreApart, IsTemp, IsKept, all_slots, verified-Stored}
use cardingest.App.{Outside, AppConfig, Call}
use cardingest.App.Lifecycle.{ingest_card}
use cardingest.App.EndToEnd.{ErasesOnly, verified_only, ingest_card-Only}

-- Several slots ingest at once through one pipeline, under the conditions of `AreApart` and with an
-- index backed by files, and the policy keeps skipped files. Let a slot's ingest have ended, and let
-- the life of its card have that ending for what the pipeline answered. Then, at that moment and at
-- any later one, whatever the other slots go on to do: every path that this life erases from the card
-- is of a file that was opened and read to its end, and the destination holds bytes with the hash of
-- what was read, at a path that is no slot's temporary one.
pub erased-IsKept :
    (E : Env) (L : IsLawful E.dest) (I : IsLawfulIndex E.index) (deps : Deps)
    (cards : SlotName → Option Input) (stopped : SlotName → ℕ → Option Text) (w : World E)
    → AllStored E (IsTemp E deps cards) w
    → AreApart E deps cards w
    → (schedule more : List SlotName) (slot : SlotName) (input : Input) (ending : Ending)
      (O : Outside) (a : AppConfig) (dev : DeviceInfo)
    → cards slot ≡ some input
    → (interleave schedule (all_slots E deps cards stopped, w)).0 slot ≡ return ending
    → ((c : List Call) → (O.ingest c).0 ≡ ending.1)
    → a.policy.erase_skipped ≡ false
    → let w' = (interleave (schedule ++ more) (all_slots E deps cards stopped, w)).1 in
      All
        (ErasesOnly (IsKept E deps cards w'.dest input))
        (ingest_card O a slot dev (record { calls = []; statuses = [] })).calls
erased-IsKept E L I deps cards stopped w stored apart schedule more slot input ending O a dev is
      ended same keep =
    let c : Threads SlotName (World E) Ending × World E = (all_slots E deps cards stopped, w) in
    let later = interleave (schedule ++ more) c in
    let still : later.0 slot ≡ return ending =
      ap (λ x. x.0 slot) (interleave-append schedule more c)
      ∙ interleave-ended more (interleave schedule c).0 (interleave schedule c).1 slot ending
          ended in
    let kept =
      (verified-Stored E L I deps cards stopped w stored apart (schedule ++ more)).1 slot input
        ending is still in
    let P = IsKept E deps cards later.1.dest input in
    ingest_card-Only P O a slot dev (record { calls = []; statuses = [] })
      (λ c _. verified_only a.policy P (O.ingest c).0 keep (rw (same c) kept)) tt
