-- ===== src/Events/Buffers.antt =====
-- The hub of internal/events/hub.go never panics, and its buffers stay within their capacity.
use cardingest.Base.{
  ℕ, zero, suc, ◌≤◌, Bool, true, false, Option, none, some, List, [], ◌∷◌, ◌++◌, ◌≡◌, refl, arith,
  if◌then◌else◌, length, length-append, drop, ltb, ltb→lt, All, All-append,
}
use cardingest.Events.{
  Update, Channel, Hub, Action, subscribes, cancels, receives, publishes, capacity, subscribe,
  cancel, send, offer, onto, deliver, publish, at_number, receive, act, then_act, act_all,
}

module _ {D : Type 0} where
  -- A closed channel is one that was cancelled, is no subscriber's, and its buffer is within bounds.
  pub record IsSound (c : Channel D) : Type 0 where
    pub closed : c.closed ≡ c.cancelled
    pub gone : c.closed ≡ true → c.subscribed ≡ false
    pub bounded : length c.buffer ≤ capacity

  -- The code did not panic, and every channel is sound.
  abbrev pub IsFine : Option (Hub D) → Type 0
  IsFine none = ⊥
  IsFine (some h) = All IsSound h

  abbrev IsFineOne : Option (Channel D) → Type 0
  IsFineOne none = ⊥
  IsFineOne (some c) = IsSound c

  onto-IsFine :
      (c : Option (Channel D)) (h : Option (Hub D)) → IsFineOne c → IsFine h → IsFine (onto c h)
  onto-IsFine (some c) (some h) p q = (p, q)
  onto-IsFine none h p q = absurd p
  onto-IsFine (some c) none p q = q

  -- The sends and the close, on the parts of a channel.
  send-IsFine :
      (e : Update D) (c : Channel D) (full : Bool)
      → IsSound c
      → c.closed ≡ false
      → ltb (length c.buffer) capacity ≡ full
      → IsFineOne (if full then some (record c { buffer = c.buffer ++ e ∷ [] }) else some c)
  send-IsFine e c true s open_now room = record {
    closed = s.closed;
    gone = s.gone;
    bounded =
        omega (arith, length-append c.buffer (e ∷ []), ltb→lt (length c.buffer) capacity room);
  }
  send-IsFine e c false s open_now room = s

  offer-IsFine : (e : Update D) (c : Channel D) → IsSound c → IsFineOne (offer e c)
  unfolding offer send
  offer-IsFine e c s = go c.subscribed c.closed refl refl
    where
      go :
          (subscribed closed : Bool)
          → c.subscribed ≡ subscribed
          → c.closed ≡ closed
          → IsFineOne (
              if subscribed
              then if closed
                then none
                else if ltb (length c.buffer) capacity
                then some (record c { buffer = c.buffer ++ e ∷ [] })
                else some c
              else some c)
      go false closed p q = s
      go true true p q = absurd (ground (arith, s.gone))
      go true false p q = send-IsFine e c (ltb (length c.buffer) capacity) s q refl

  cancel-IsFine : (c : Channel D) → IsSound c → IsFineOne (cancel c)
  unfolding cancel
  cancel-IsFine c s = go c.cancelled c.closed refl refl
    where
      go :
          (cancelled closed : Bool)
          → c.cancelled ≡ cancelled
          → c.closed ≡ closed
          → IsFineOne (
              if cancelled
              then some c
              else if closed
              then none
              else some (record c { cancelled = true; subscribed = false; closed = true }))
      go true closed p q = s
      go false true p q = absurd (ground (arith, s.closed))
      go false false p q = record { closed = refl; gone = λ h. refl; bounded = s.bounded }

  receive-IsFine : (c : Channel D) → IsSound c → IsFineOne (receive c)
  receive-IsFine c s = record {
    closed = s.closed;
    gone = s.gone;
    bounded = omega (arith, shorter c.buffer, s.bounded);
  }
    where
      shorter : (b : List (Update D)) → length (drop 1 b) ≤ length b
      shorter [] = omega arith
      shorter (e ∷ b) = omega arith

  deliver-IsFine : (e : Update D) (h : Hub D) → All IsSound h → IsFine (deliver e h)
  unfolding deliver
  deliver-IsFine e [] s = tt
  deliver-IsFine e (c ∷ h) s =
      onto-IsFine (offer e c) (deliver e h) (offer-IsFine e c s.0) (deliver-IsFine e h s.1)

  at_number-IsFine :
      (f : Channel D → Option (Channel D)) (n : ℕ) (h : Hub D)
      → ((c : Channel D) → IsSound c → IsFineOne (f c))
      → All IsSound h
      → IsFine (at_number f n h)
  unfolding at_number
  at_number-IsFine f n [] k s = tt
  at_number-IsFine f zero (c ∷ h) k s = onto-IsFine (f c) (some h) (k c s.0) s.1
  at_number-IsFine f (suc n) (c ∷ h) k s =
      onto-IsFine (some c) (at_number f n h) s.0 (at_number-IsFine f n h k s.1)

  act-IsFine : (a : Action D) (h : Hub D) → All IsSound h → IsFine (act a h)
  unfolding act subscribe publish
  act-IsFine subscribes h s =
      All-append IsSound h _ s (record { closed = refl; gone = λ p. cc; bounded = omega arith }, tt)
  act-IsFine (cancels n) h s = at_number-IsFine cancel n h cancel-IsFine s
  act-IsFine (receives n) h s = at_number-IsFine receive n h receive-IsFine s
  act-IsFine (publishes now e) h s = deliver-IsFine _ h s

  then_act-IsFine :
      (o : Option (Hub D)) (f : Hub D → Option (Hub D))
      → IsFine o
      → ((h : Hub D) → All IsSound h → IsFine (f h))
      → IsFine (then_act o f)
  then_act-IsFine none f p k = p
  then_act-IsFine (some h) f p k = k h p

  -- Whatever is subscribed, cancelled (also more than once), published and received, in any order,
  -- from sound channels on nothing panics: no update is sent to a closed channel and no channel is
  -- closed twice; and no buffer holds more than 64 updates.
  pub act_all-IsFine :
      (actions : List (Action D)) (h : Hub D) → All IsSound h → IsFine (act_all actions h)
  unfolding act_all
  act_all-IsFine [] h s = s
  act_all-IsFine (a ∷ actions) h s =
      then_act-IsFine (act a h) (act_all actions) (act-IsFine a h s) (act_all-IsFine actions)
