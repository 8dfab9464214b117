-- ===== src/Events.antt =====
-- The hub of internal/events/hub.go: subscriptions with buffered channels. A send on a closed channel
-- and a close of a closed one panic, which is `none` here.
pub mod Buffers
mod Samples
use cardingest.Base.{
  ℕ, zero, suc, ◌+◌, Bool, true, false, Option, none, some, List, [], ◌∷◌, ◌++◌, if◌then◌else◌,
  length, drop, ltb,
}
use cardingest.Base.Strings.{Text}
use cardingest.Card.{Time}

-- An update; the data is of any type, and the zero time is `none`.
pub record Update (D : Type 0) : Type 0 where
  pub type : Text
  pub slot : Text
  pub payload : D
  pub at : Option Time

-- A channel of the hub: what is in its buffer; whether it is in the map of subscribers; whether its
-- cancel function has run; and whether it is closed.
pub record Channel (D : Type 0) : Type 0 where
  pub buffer : List (Update D)
  pub subscribed : Bool
  pub cancelled : Bool
  pub closed : Bool

abbrev pub Hub : Type 0 → Type 0
Hub D = List (Channel D)

abbrev pub capacity : ℕ
capacity = 64

abbrev pub or_now : Time → Option Time → Option Time
or_now now none = some now
or_now now (some t) = some t

module _ {D : Type 0} where
  -- Subscribe: the new channel has the next number.
  unfoldable pub subscribe : Hub D → Hub D
  subscribe h =
      h ++ record { buffer = []; subscribed = true; cancelled = false; closed = false } ∷ []

  abbrev pub close : Channel D → Option (Channel D)
  close c = if c.closed then none else some (record c { closed = true })

  -- The cancel function, whose body runs once.
  unfoldable pub cancel : Channel D → Option (Channel D)
  cancel c =
      if c.cancelled then some c else close (record c { cancelled = true; subscribed = false })

  -- A send to one subscriber, which drops the update if the buffer is full.
  unfoldable pub send : Update D → Channel D → Option (Channel D)
  send e c =
      if c.closed
      then none
      else if ltb (length c.buffer) capacity
      then some (record c { buffer = c.buffer ++ e ∷ [] })
      else some c

  unfoldable pub offer : Update D → Channel D → Option (Channel D)
  unfolding send
  offer e c = if c.subscribed then send e c else some c

  abbrev pub onto : Option (Channel D) → Option (Hub D) → Option (Hub D)
  onto (some c) (some h) = some (c ∷ h)
  onto none h = none
  onto (some c) none = none

  unfoldable pub deliver : Update D → Hub D → Option (Hub D)
  unfolding offer
  deliver e [] = some []
  deliver e (c ∷ h) = onto (offer e c) (deliver e h)

  -- Publish
  unfoldable pub publish : Time → Update D → Hub D → Option (Hub D)
  unfolding deliver
  publish now e h = deliver (record e { at = or_now now e.at }) h

  -- One channel of the hub, by its number.
  unfoldable pub at_number : (Channel D → Option (Channel D)) → ℕ → Hub D → Option (Hub D)
  at_number f n [] = some []
  at_number f zero (c ∷ h) = onto (f c) (some h)
  at_number f (suc n) (c ∷ h) = onto (some c) (at_number f n h)

  -- A subscriber takes the first update of its buffer.
  abbrev pub receive : Channel D → Option (Channel D)
  receive c = some (record c { buffer = drop 1 c.buffer })

  unfoldable pub subscribed_count : Hub D → ℕ
  subscribed_count [] = 0
  subscribed_count (c ∷ h) = (if c.subscribed then 1 else 0) + subscribed_count h

-- What the app, the subscribers and the web layer do, in any order.
pub data Action (D : Type 0) : Type 0 where
  subscribes : Action D
  cancels receives : ℕ → Action D
  publishes : Time → Update D → Action D

module _ {D : Type 0} where
  unfoldable pub act : Action D → Hub D → Option (Hub D)
  unfolding subscribe cancel publish at_number
  act subscribes h = some (subscribe h)
  act (cancels n) h = at_number cancel n h
  act (receives n) h = at_number receive n h
  act (publishes now e) h = publish now e h

  abbrev pub then_act : Option (Hub D) → (Hub D → Option (Hub D)) → Option (Hub D)
  then_act none f = none
  then_act (some h) f = f h

  unfoldable pub act_all : List (Action D) → Hub D → Option (Hub D)
  unfolding act
  act_all [] h = some h
  act_all (a ∷ actions) h = then_act (act a h) (act_all actions)
