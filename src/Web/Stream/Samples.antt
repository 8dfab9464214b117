-- ===== src/Web/Stream/Samples.antt =====
-- A stream of two updates, of which one cannot be encoded.
use cardingest.Base.{
  All, Bool, true, false, none, List, [], ◌∷◌, ◌≡◌, ◌≢◌, refl, arith, Outcome, ok, err, list_eq,
  nat_eq, ok-injective, if◌then◌else◌,
}
use cardingest.Base.Strings.{Text, codes}
use cardingest.Events.{Update}
use cardingest.Web.Stream.{newline, Turn, ctx_done, ping_due, update_due, sse_handler}
use cardingest.Web.Stream.Read.{IsCompact, IsPlain, sent, events_of, events_of-sse_handler}

-- The data is its own encoding, if it has one.
abbrev encode : Update Bool → Outcome Text Text
encode e = if e.payload then ok (codes "{}") else err (codes "unsupported value")

encode-IsCompact : IsCompact encode
encode-IsCompact = record {
  one_line = λ e payload h. one_line e.payload payload h;
  nonempty = λ e payload h. nonempty e.payload payload h;
}
  where
    one_line :
        (b : Bool) (payload : Text)
        → (if b then ok (codes "{}") else err (codes "unsupported value")) ≡ ok payload
        → All (λ c. c ≢ newline) payload
    one_line true payload h = rw (← ok-injective h) (ground arith)
    one_line false payload h = cc

    nonempty :
        (b : Bool) (payload : Text)
        → (if b then ok (codes "{}") else err (codes "unsupported value")) ≡ ok payload
        → payload ≢ []
    nonempty true payload h = rw (← ok-injective h) (ground arith)
    nonempty false payload h = cc

abbrev update : Bool → Update Bool
update b = record { type = codes "progress"; slot = codes "1.1"; payload = b; at = none }

abbrev turns : List (Turn Bool)
turns =
    update_due (update true) true
    ∷ ping_due true
    ∷ update_due (update false) true
    ∷ ctx_done
    ∷ update_due (update true) true
    ∷ []

sent_run : sent encode turns ≡ (codes "progress", codes "{}") ∷ []
unfolding sent
sent_run = refl

turns-IsPlain : All (IsPlain encode) turns
turns-IsPlain = ground arith

events_of-sse_handler_example :
    events_of encode (sse_handler encode true true true turns) ≡ sent encode turns
events_of-sse_handler_example = events_of-sse_handler encode turns encode-IsCompact turns-IsPlain
