-- ===== src/App/Status.antt =====
-- `Status` of internal/app/app.go: the slots' states in the order of their names.
pub mod Order
pub mod Live
pub mod Samples
use mathlib.Core.List.{Perm}
use mathlib.Core.List.Perm
use cardingest.Base.{
  Bool, true, false, ◌&&◌, ◌||◌, List, [], ◌∷◌, ◌≡◌, refl, arith, ltb, ◌==◌, nat_eq, if◌then◌else◌,
  Bool-cases, inl, inr,
}
use cardingest.Base.Maps.{Map}
use cardingest.Base.Strings.{Text, codes}
use cardingest.Card.{SlotName}
use cardingest.App.{Activity, idle, ingesting, SlotState}

unfoldable pub activity_text : Activity → Text
activity_text idle = codes "idle"
activity_text ingesting = codes "ingesting"

-- Go's `<` on strings.
unfoldable pub text_lt : Text → Text → Bool
unfolding nat_eq
text_lt s [] = false
text_lt [] (d ∷ t) = true
text_lt (c ∷ s) (d ∷ t) = ltb c d || (c == d && text_lt s t)

unfoldable pub insert_sorted : SlotState → List SlotState → List SlotState
unfolding text_lt
insert_sorted x [] = x ∷ []
insert_sorted x (y ∷ ys) = if text_lt y.slot x.slot then y ∷ insert_sorted x ys else x ∷ y ∷ ys

-- sort.Slice by the slot
unfoldable pub sorted : List SlotState → List SlotState
unfolding insert_sorted
sorted [] = []
sorted (x ∷ xs) = insert_sorted x (sorted xs)

abbrev pub values : Map SlotName SlotState → List SlotState
values [] = []
values ((slot, s) ∷ statuses) = s ∷ values statuses

-- Status
unfoldable pub status : Map SlotName SlotState → List SlotState
unfolding sorted
status statuses = sorted (values statuses)

-- No state stands before one with a lesser slot.
abbrev pub IsAscending : List SlotState → Type 0
IsAscending [] = Unit
IsAscending (x ∷ []) = Unit
IsAscending (x ∷ y ∷ ys) = (text_lt y.slot x.slot ≡ false) × IsAscending (y ∷ ys)

text_lt_asymm : (s t : Text) → text_lt s t ≡ true → text_lt t s ≡ false
unfolding text_lt
text_lt_asymm s [] h = cc
text_lt_asymm [] (d ∷ t) h = refl
text_lt_asymm (c ∷ s) (d ∷ t) h = ground (arith, text_lt_asymm s t)

insert_sorted-IsAscending :
    (x : SlotState) (ys : List SlotState) → IsAscending ys → IsAscending (insert_sorted x ys)
unfolding insert_sorted
insert_sorted-IsAscending x [] h = tt
insert_sorted-IsAscending x (y ∷ []) h = ground (arith, text_lt_asymm y.slot x.slot)
insert_sorted-IsAscending x (y ∷ z ∷ ys) h =
    ground (arith, text_lt_asymm y.slot x.slot, insert_sorted-IsAscending x (z ∷ ys) h.1)

insert_sorted-perm : (x : SlotState) (ys : List SlotState) → Perm (insert_sorted x ys) (x ∷ ys)
unfolding insert_sorted
insert_sorted-perm x [] = Perm.refl (x ∷ [])
insert_sorted-perm x (y ∷ ys) = elim (Bool-cases (text_lt y.slot x.slot)) [
  | inl h ↦ rw h (Perm.trans (Perm.cons y (insert_sorted-perm x ys)) (Perm.swap x y ys))
  | inr h ↦ rw h (Perm.refl (x ∷ y ∷ ys))
]

sorted-IsAscending : (xs : List SlotState) → IsAscending (sorted xs)
unfolding sorted
sorted-IsAscending [] = tt
sorted-IsAscending (x ∷ xs) = insert_sorted-IsAscending x (sorted xs) (sorted-IsAscending xs)

sorted-perm : (xs : List SlotState) → Perm (sorted xs) xs
unfolding sorted
sorted-perm [] = Perm.refl []
sorted-perm (x ∷ xs) = Perm.trans (insert_sorted-perm x (sorted xs)) (Perm.cons x (sorted-perm xs))

-- The live states are those of the map, each as often, and stand by rising slot.
pub status_lem :
    (statuses : Map SlotName SlotState)
    → IsAscending (status statuses) × Perm (status statuses) (values statuses)
unfolding status
status_lem statuses = (sorted-IsAscending (values statuses), sorted-perm (values statuses))
