-- ===== src/App/EndToEnd/Samples.antt =====
-- A card's life beside another slot's ingest.
use cardingest.Base.{◌≡◌, refl, none, some, [], ◌++◌, All, list_eq, nat_eq}
use cardingest.Base.Strings.{codes}
use cardingest.Base.Threads.{interleave}
use cardingest.Pipeline.Memory.{memory-IsLawful, hashes-IsLawful}
use cardingest.Pipeline.Samples.{env, deps, start}
use cardingest.Pipeline.Steps.Samples.{left, cards, turns, AllStored-start, start-AreApart}
use cardingest.Pipeline.Steps.Samples.{left_ending, left_ended}
use cardingest.Pipeline.Steps.Together.{IsKept, all_slots}
use cardingest.App.{Outside}
use cardingest.App.Lifecycle.{ingest_card}
use cardingest.App.EndToEnd.{ErasesOnly}
use cardingest.App.EndToEnd.Together.{erased-IsKept}
use cardingest.App.Samples.{outside, config, device}

-- The pipeline answers what the interleaved ingest ended with.
abbrev beside : Outside
beside = record (outside none) { ingest = λ c. (left_ending.1, none) }

held : cards (codes "A") ≡ some left
unfolding list_eq nat_eq
held = refl

erased-IsKept_example :
    let w' = (interleave (turns 14 ++ turns 3) (all_slots env deps cards (λ s n. none), start)).1 in
    All
      (ErasesOnly (IsKept env deps cards w'.dest left))
      (ingest_card beside config (codes "A") device (record { calls = []; statuses = [] })).calls
erased-IsKept_example =
    erased-IsKept env memory-IsLawful hashes-IsLawful deps cards (λ s n. none) start AllStored-start
      start-AreApart (turns 14) (turns 3) (codes "A") left left_ending beside config device held
      left_ended (λ c. refl) refl
