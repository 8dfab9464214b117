-- ===== src/Web/Stream.antt =====
-- The stream of events of internal/web/sse.go. What the handler waits for is a list of turns, each with
-- whether its write succeeds; one that fails is taken to write nothing.
pub mod Read
mod Samples
use cardingest.Base.{
  ℕ, Bool, true, false, Option, none, some, List, [], ◌∷◌, ◌++◌, Outcome, ok, err,
}
use cardingest.Base.Strings.{Text, codes}
use cardingest.Events.{Update}

abbrev pub newline : ℕ
newline = 10

-- A turn of the loop: the context ends, the ticker ticks, the channel is closed, or it has an update.
pub data Turn (D : Type 0) : Type 0 where
  ctx_done closed_channel : Turn D
  ping_due : Bool → Turn D
  update_due : Update D → Bool → Turn D

pub data StreamAnswer : Type 0 where
  unavailable_503 unsupported_500 : StreamAnswer
  streamed : Text → StreamAnswer

-- A comment of the stream, before what follows.
abbrev pub comment : Text → Text → Text
comment text rest = (codes ": " ++ text) ++ newline ∷ newline ∷ rest

-- The lines of an event, before what follows.
abbrev pub frame : Text → Text → Text → Text
frame type payload rest =
    (codes "event: " ++ type) ++ newline ∷ ((codes "data: " ++ payload) ++ newline ∷ newline ∷ rest)

module _ {D : Type 0} (marshal : Update D → Outcome Text Text) where
  -- An update that cannot be encoded is left out.
  abbrev pub framed : Update D → Bool → Outcome Text Text → Text → Text
  framed e written (err cause) rest = rest
  framed e true (ok payload) rest = frame e.type payload rest
  framed e false (ok payload) rest = []

  -- The loop
  unfoldable pub turns_text : List (Turn D) → Text
  turns_text [] = []
  turns_text (ctx_done ∷ turns) = []
  turns_text (closed_channel ∷ turns) = []
  turns_text (ping_due false ∷ turns) = []
  turns_text (ping_due true ∷ turns) = comment (codes "ping") (turns_text turns)
  turns_text (update_due e written ∷ turns) = framed e written (marshal e) (turns_text turns)

  -- sseHandler: with a hub or not, for a writer that can flush or not, and whether the first write
  -- succeeds.
  unfoldable pub sse_handler : Bool → Bool → Bool → List (Turn D) → StreamAnswer
  unfolding turns_text
  sse_handler false can_flush connected turns = unavailable_503
  sse_handler true false connected turns = unsupported_500
  sse_handler true true false turns = streamed []
  sse_handler true true true turns = streamed (comment (codes "connected") (turns_text turns))
