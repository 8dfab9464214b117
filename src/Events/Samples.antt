-- ===== src/Events/Samples.antt =====
-- Runs of the hub.
use cardingest.Base.{ℕ, Option, none, some, List, [], ◌∷◌, ◌≡◌, refl, length}
use cardingest.Base.Strings.{codes}
use cardingest.Card.{Time}
use cardingest.Events.{
  Update, Hub, Action, subscribes, cancels, receives, publishes, subscribe, cancel, send, offer,
  deliver, publish, at_number, act, act_all,
}
use cardingest.Events.Buffers.{IsFine, act_all-IsFine}

abbrev now : Time
now = record { year = 2026; month = 3; day = 7; nanos = 0 }

abbrev update : ℕ → Update ℕ
update n = record { type = codes "progress"; slot = codes "A"; payload = n; at = none }

abbrev actions : List (Action ℕ)
actions =
    subscribes
    ∷ subscribes
    ∷ publishes now (update 1)
    ∷ cancels 0
    ∷ cancels 0
    ∷ publishes now (update 2)
    ∷ receives 1
    ∷ []

sizes : Option (Hub ℕ) → List ℕ
sizes none = []
sizes (some h) = buffers h
  where
    buffers : Hub ℕ → List ℕ
    buffers [] = []
    buffers (c ∷ h) = length c.buffer ∷ buffers h

-- The cancelled subscriber gets no second update; the other has taken its first.
hub_run : sizes (act_all actions []) ≡ 1 ∷ 1 ∷ []
unfolding sizes act_all act subscribe cancel publish deliver offer send at_number
hub_run = refl

act_all-IsFine_example : IsFine (act_all actions [])
act_all-IsFine_example = act_all-IsFine actions [] tt
