-- ===== src/App/Status/Order.antt =====
-- Go's order of strings, and lists of states by rising slot.
use cardingest.Base.{true, false, Option, none, some, List, [], ◌∷◌, ◌≡◌, ◌≢◌}
use cardingest.Base.{refl, ◌∙◌, arith, ◌==◌, nat_eq, list_eq, if◌then◌else◌, Bool-cases}
use cardingest.Base.{inl, inr, All, All-map, eq_true, eq_false}
use cardingest.Base.Strings.{Text}
use cardingest.Card.{SlotName}
use cardingest.App.{SlotState}
use cardingest.App.Status.{text_lt, insert_sorted, sorted}

text_lt_irrefl : (s : Text) → text_lt s s ≡ false
unfolding text_lt
text_lt_irrefl [] = refl
text_lt_irrefl (c ∷ s) = ground (arith, text_lt_irrefl s)

pub text_lt_trans : (s t u : Text) → text_lt s t ≡ true → text_lt t u ≡ true → text_lt s u ≡ true
unfolding text_lt
text_lt_trans s t [] h k = cc
text_lt_trans s [] (e ∷ u) h k = cc
text_lt_trans [] (d ∷ t) (e ∷ u) h k = refl
text_lt_trans (c ∷ s) (d ∷ t) (e ∷ u) h k = ground (arith, text_lt_trans s t u)

pub text_lt_total : (s t : Text) → text_lt s t ≡ false → s ≢ t → text_lt t s ≡ true
unfolding text_lt
text_lt_total [] [] h n = absurd (n refl)
text_lt_total (c ∷ s) [] h n = refl
text_lt_total [] (d ∷ t) h n = cc
text_lt_total (c ∷ s) (d ∷ t) h n = elim (Bool-cases (c == d)) [
  | inl q ↦
      let same = eq_true c d q in
      ground (arith, same, text_lt_total s t (ground arith) (λ k. n (cc)))
  | inr q ↦ ground (arith, eq_false c d q)
]

-- The state of a slot, in a list of states.
abbrev pub at_slot : SlotName → List SlotState → Option SlotState
at_slot k [] = none
at_slot k (s ∷ states) = if k == s.slot then some s else at_slot k states

-- Each state stands before those of greater slots alone.
abbrev pub IsRising : List SlotState → Type 0
IsRising [] = Unit
IsRising (s ∷ states) = All (λ z. text_lt s.slot z.slot ≡ true) states × IsRising states

-- No slot has two states.
abbrev pub IsSingle : List SlotState → Type 0
IsSingle [] = Unit
IsSingle (s ∷ states) = (at_slot s.slot states ≡ none) × IsSingle states

pub at_slot-below :
    (k : SlotName) (states : List SlotState)
    → All (λ z. text_lt k z.slot ≡ true) states
    → at_slot k states ≡ none
at_slot-below k [] h = refl
at_slot-below k (s ∷ states) h = ground (arith, at_slot-below k states h.1, text_lt_irrefl k, h.0)

at_slot-insert_sorted :
    (k : SlotName) (x : SlotState) (ys : List SlotState)
    → at_slot x.slot ys ≡ none
    → at_slot k (insert_sorted x ys) ≡ at_slot k (x ∷ ys)
unfolding insert_sorted
at_slot-insert_sorted k x [] h = refl
at_slot-insert_sorted k x (y ∷ ys) h = ground (arith, at_slot-insert_sorted k x ys)

pub at_slot-sorted :
    (k : SlotName) (xs : List SlotState) → IsSingle xs → at_slot k (sorted xs) ≡ at_slot k xs
unfolding sorted
at_slot-sorted k [] h = refl
at_slot-sorted k (x ∷ xs) (h, rest) = ground (
  arith,
  at_slot-insert_sorted k x (sorted xs),
  at_slot-sorted k xs rest,
  at_slot-sorted x.slot xs rest,
)

All-insert_sorted :
    (P : SlotState → Type 0) (x : SlotState) (ys : List SlotState)
    → P x
    → All P ys
    → All P (insert_sorted x ys)
unfolding insert_sorted
All-insert_sorted P x [] p h = (p, tt)
All-insert_sorted P x (y ∷ ys) p h = elim (Bool-cases (text_lt y.slot x.slot)) [
  | inl q ↦ rw q (h.0, All-insert_sorted P x ys p h.1)
  | inr q ↦ rw q (p, h)
]

insert_sorted-IsRising :
    (x : SlotState) (ys : List SlotState)
    → at_slot x.slot ys ≡ none
    → IsRising ys
    → IsRising (insert_sorted x ys)
unfolding insert_sorted
insert_sorted-IsRising x [] h r = (tt, tt)
insert_sorted-IsRising x (y ∷ ys) h (above, r) = elim (Bool-cases (text_lt y.slot x.slot)) [
  | inl q ↦ rw q (
    All-insert_sorted (λ z. text_lt y.slot z.slot ≡ true) x ys q above,
    insert_sorted-IsRising x ys (ground arith) r,
  )
  | inr q ↦
      let below = text_lt_total y.slot x.slot q (λ same. absurd (ground (arith, same))) in
      rw q (
        (below, All-map _ _ ys (λ z k. text_lt_trans x.slot y.slot z.slot below k) above),
        (above, r),
      )
]

pub sorted-IsRising : (xs : List SlotState) → IsSingle xs → IsRising (sorted xs)
unfolding sorted
sorted-IsRising [] h = tt
sorted-IsRising (x ∷ xs) (h, rest) =
    insert_sorted-IsRising x (sorted xs) (at_slot-sorted x.slot xs rest ∙ h)
      (sorted-IsRising xs rest)
