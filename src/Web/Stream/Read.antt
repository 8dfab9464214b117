-- ===== src/Web/Stream/Read.antt =====
-- What a browser reads of the stream of internal/web/sse.go.
use cardingest.Base.{
  All, Bool, true, false, List, [], ◌∷◌, ◌++◌, ◌≡◌, ◌≢◌, refl, sym, ap, ◌∙◌, arith, drop, Outcome,
  ok, err, ◌==◌, list_eq, nat_eq, if◌then◌else◌,
}
use mathlib.Core.List.{foldl, append_assoc, append-nil}
use cardingest.Base.Strings.{Text, codes, split, has_prefix}
use cardingest.Base.Paths.{split-append}
use cardingest.Events.{Update}
use cardingest.Web.Stream.{
  Turn, ctx_done, closed_channel, ping_due, update_due, newline, comment, frame, framed, turns_text,
  StreamAnswer, streamed, unavailable_503, unsupported_500, sse_handler,
}

-- The event so far, and the events before.
pub record Reader : Type 0 where
  pub type : Text
  pub payload : Text
  pub seen : List (Text × Text)

abbrev pub at_blank : Reader → Reader
unfolding list_eq
at_blank r = record {
  type = [];
  payload = [];
  seen = if r.payload == [] then r.seen else r.seen ++ (r.type, r.payload) ∷ [];
}

-- A line of the stream, as the standard of server-sent events has it.
unfoldable pub read_line : Reader → Text → Reader
unfolding at_blank has_prefix list_eq nat_eq
read_line r line =
    if line == []
    then at_blank r
    else if has_prefix (codes "event: ") line
    then record r { type = drop 7 line }
    else if has_prefix (codes "data: ") line
    then record r { payload = drop 6 line }
    else r

abbrev pub start : List (Text × Text) → Reader
start seen = record { type = []; payload = []; seen = seen }

unfoldable pub read_text : Reader → Text → Reader
unfolding read_line split
read_text r text = foldl read_line r (split newline text)

abbrev OneLine : Text → Type 0
OneLine = All (λ c. c ≢ newline)

read_text-line :
    (r r' : Reader) (line rest : Text)
    → OneLine line
    → read_line r line ≡ r'
    → read_text r (line ++ newline ∷ rest) ≡ read_text r' rest
unfolding read_text
read_text-line r r' line rest h e =
    ap (foldl read_line r) (split-append newline line rest h)
    ∙ ap (λ r. foldl read_line r (split newline rest)) e

read_line-comment : (r : Reader) (text : Text) → read_line r (codes ": " ++ text) ≡ r
unfolding read_line has_prefix list_eq nat_eq
read_line-comment r text = refl

read_line-event :
    (r : Reader) (type : Text) → read_line r (codes "event: " ++ type) ≡ record r { type = type }
unfolding read_line has_prefix list_eq nat_eq
read_line-event r type = refl

read_line-data :
    (r : Reader) (payload : Text)
    → read_line r (codes "data: " ++ payload) ≡ record r { payload = payload }
unfolding read_line has_prefix list_eq nat_eq
read_line-data r payload = refl

read_line-nil : (r : Reader) → read_line r [] ≡ at_blank r
unfolding read_line list_eq
read_line-nil r = refl

at_blank-start : (seen : List (Text × Text)) → at_blank (start seen) ≡ start seen
unfolding list_eq
at_blank-start seen = refl

at_blank_event :
    (type payload : Text) (seen : List (Text × Text))
    → payload ≢ []
    → at_blank (record { type = type; payload = payload; seen = seen })
      ≡ start (seen ++ (type, payload) ∷ [])
unfolding at_blank
at_blank_event type payload seen n = ap start (ground (arith, n))

read_text-comment :
    (seen : List (Text × Text)) (text rest : Text)
    → OneLine text
    → read_text (start seen) (comment text rest) ≡ read_text (start seen) rest
read_text-comment seen text rest h =
    read_text-line (start seen) (start seen) (codes ": " ++ text) (newline ∷ rest)
      (omega arith, (omega arith, h)) (read_line-comment (start seen) text)
    ∙ read_text-line (start seen) (start seen) [] rest tt
        (read_line-nil (start seen) ∙ at_blank-start seen)

read_text-frame :
    (seen : List (Text × Text)) (type payload rest : Text)
    → OneLine type
    → OneLine payload
    → payload ≢ []
    → read_text (start seen) (frame type payload rest)
      ≡ read_text (start (seen ++ (type, payload) ∷ [])) rest
read_text-frame seen type payload rest h k n =
    let typed = record (start seen) { type = type } in
    let whole = record typed { payload = payload } in
    read_text-line (start seen) typed (codes "event: " ++ type) _ (ground (arith, h))
      (read_line-event (start seen) type)
    ∙ read_text-line typed whole (codes "data: " ++ payload) _ (ground (arith, k))
        (read_line-data typed payload)
    ∙ read_text-line whole (start (seen ++ (type, payload) ∷ [])) [] rest tt
        (read_line-nil whole ∙ at_blank_event type payload seen n)

read_text-nil : (seen : List (Text × Text)) → (read_text (start seen) []).seen ≡ seen ++ []
unfolding read_text split
read_text-nil seen =
    ap (λ r. r.seen) (read_line-nil (start seen) ∙ at_blank-start seen) ∙ sym (append-nil seen)

module _ {D : Type 0} (marshal : Update D → Outcome Text Text) where
  abbrev onto_sent : Text → Bool → Outcome Text Text → List (Text × Text) → List (Text × Text)
  onto_sent type written (err cause) rest = rest
  onto_sent type true (ok payload) rest = (type, payload) ∷ rest
  onto_sent type false (ok payload) rest = []

  -- The types and the data of the updates up to the first turn that ends the stream, without those that
  -- cannot be encoded.
  unfoldable pub sent : List (Turn D) → List (Text × Text)
  sent [] = []
  sent (ctx_done ∷ turns) = []
  sent (closed_channel ∷ turns) = []
  sent (ping_due false ∷ turns) = []
  sent (ping_due true ∷ turns) = sent turns
  sent (update_due e written ∷ turns) = onto_sent e.type written (marshal e) (sent turns)

  -- The type of an update has one line.
  abbrev pub IsPlain : Turn D → Type 0
  IsPlain (update_due e written) = OneLine e.type
  IsPlain turn = Unit

  -- The encoder writes one line, which is not empty.
  pub record IsCompact : Type 0 where
    pub one_line : (e : Update D) (payload : Text) → marshal e ≡ ok payload → OneLine payload
    pub nonempty : (e : Update D) (payload : Text) → marshal e ≡ ok payload → payload ≢ []

  read_text-framed :
      (compact : IsCompact) (e : Update D) (written : Bool) (m : Outcome Text Text) (rest : Text)
      (later seen : List (Text × Text))
      → OneLine e.type
      → marshal e ≡ m
      → ((seen : List (Text × Text)) → (read_text (start seen) rest).seen ≡ seen ++ later)
      → (read_text (start seen) (framed marshal e written m rest)).seen
        ≡ seen ++ onto_sent e.type written m later
  read_text-framed compact e written (err cause) rest later seen h same k = k seen
  read_text-framed compact e false (ok payload) rest later seen h same k = read_text-nil seen
  read_text-framed compact e true (ok payload) rest later seen h same k =
      ap (λ r. r.seen)
        (read_text-frame seen e.type payload rest h (compact.one_line e payload same)
          (compact.nonempty e payload same))
      ∙ k (seen ++ (e.type, payload) ∷ [])
      ∙ append_assoc seen ((e.type, payload) ∷ []) later

  read_text-turns_text :
      (compact : IsCompact) (turns : List (Turn D)) (seen : List (Text × Text))
      → All IsPlain turns
      → (read_text (start seen) (turns_text marshal turns)).seen ≡ seen ++ sent turns
  unfolding turns_text sent
  read_text-turns_text compact [] seen h = read_text-nil seen
  read_text-turns_text compact (ctx_done ∷ turns) seen h = read_text-nil seen
  read_text-turns_text compact (closed_channel ∷ turns) seen h = read_text-nil seen
  read_text-turns_text compact (ping_due false ∷ turns) seen h = read_text-nil seen
  read_text-turns_text compact (ping_due true ∷ turns) seen h =
      ap (λ r. r.seen)
        (read_text-comment seen (codes "ping") (turns_text marshal turns) (ground arith))
      ∙ read_text-turns_text compact turns seen h.1
  read_text-turns_text compact (update_due e written ∷ turns) seen h =
      read_text-framed compact e written (marshal e) (turns_text marshal turns) (sent turns) seen
        h.0 refl (λ seen. read_text-turns_text compact turns seen h.1)

  -- What a browser reads of an answer.
  abbrev pub events_of : StreamAnswer → List (Text × Text)
  unfolding read_text
  events_of unavailable_503 = []
  events_of unsupported_500 = []
  events_of (streamed text) = (read_text (start []) text).seen

  -- Where the encoder writes one line that is not empty and no type of an update has a newline, a
  -- browser reads from the stream of a connected client exactly the updates that the handler had up to
  -- the turn that ends the stream, with their types and their data, in order and whatever pings stand
  -- between them; only those that cannot be encoded are missing.
  pub events_of-sse_handler :
      (turns : List (Turn D))
      → IsCompact
      → All IsPlain turns
      → events_of (sse_handler marshal true true true turns) ≡ sent turns
  unfolding events_of sse_handler
  events_of-sse_handler turns compact h =
      ap (λ r. r.seen)
        (read_text-comment [] (codes "connected") (turns_text marshal turns) (ground arith))
      ∙ read_text-turns_text compact turns [] h
