-- ===== src/App/Status/Live.antt =====
-- The live states as a finite map, whatever the order that Go ranges over it in, and what `Status`
-- shows of them.
use mathlib.Core.Option.{some-injective}
use mathlib.Core.Path.{subst}
use native.Mathlib.Decide.{ℕ_discrete}
use mathlib.Core.Quot
use mathlib.Core.Quot.{Quot, Quot-set}
use cardingest.Base.{ℕ, true, none, List, [], ◌∷◌, ◌≡◌, refl, sym}
use cardingest.Base.{◌∙◌, arith, ◌==◌, nat_eq, list_eq, Bool-cases, inl, inr}
use cardingest.Base.{ap, All, All-map, eq_true, eq_false, eq_self}
use cardingest.Base.Maps.{Map, lookup, insert, lookup-insert, lookup-nil}
use cardingest.Card.{SlotName}
use cardingest.App.{SlotState, Activity, Outside, AppConfig, World}
use cardingest.App.Lifecycle.{set_status, publish}
use cardingest.App.Status.{text_lt, values, sorted, status}
use cardingest.App.Status.Order.{at_slot, IsRising, IsSingle, at_slot-below, at_slot-sorted}
use cardingest.App.Status.Order.{sorted-IsRising, text_lt_total, text_lt_trans}

-- As setStatus keeps the map: each state under its slot, and no slot twice.
abbrev pub IsKeyed : Map SlotName SlotState → Type 0
IsKeyed [] = Unit
IsKeyed ((k, s) ∷ m) = (s.slot ≡ k) × (lookup k m ≡ none) × IsKeyed m

insert-IsKeyed :
    (slot : SlotName) (s : SlotState) (m : Map SlotName SlotState)
    → s.slot ≡ slot
    → IsKeyed m
    → IsKeyed (insert slot s m)
unfolding insert
insert-IsKeyed slot s [] is h = (is, lookup-nil slot, tt)
insert-IsKeyed slot s ((k, t) ∷ m) is (keyed, single, h) =
    ground (arith, insert-IsKeyed slot s m is h, lookup-insert k slot s m)

-- setStatus
set_status-IsKeyed :
    (O : Outside) (a : AppConfig) (slot : SlotName) (state : Activity) (id : ℕ) (w : World)
    → IsKeyed w.statuses
    → IsKeyed (set_status O a slot state id w).statuses
unfolding set_status publish
set_status-IsKeyed O a slot state id w h =
    let new : SlotState = record { slot = slot; state = state; job_id = id } in
    ground (arith, insert-IsKeyed slot new w.statuses refl h)

abbrev pub Statuses : Type 0
Statuses = (m : Map SlotName SlotState) × IsKeyed m

-- Two orders of one map.
abbrev pub SameMap : Statuses → Statuses → Type 0
SameMap a b = (k : SlotName) → lookup k a.0 ≡ lookup k b.0

-- a.statuses, a Go map.
abbrev pub LiveMap : Type 0
LiveMap = Quot SameMap

at_slot-values :
    (k : SlotName) (m : Map SlotName SlotState) → IsKeyed m → at_slot k (values m) ≡ lookup k m
unfolding lookup
at_slot-values k [] h = refl
at_slot-values k ((j, s) ∷ m) (slot, single, h) = ground (arith, at_slot-values k m h, slot)

values-IsSingle : (m : Map SlotName SlotState) → IsKeyed m → IsSingle (values m)
values-IsSingle [] h = tt
values-IsSingle ((j, s) ∷ m) (slot, single, h) =
    (rw slot (at_slot-values j m h ∙ single), values-IsSingle m h)

-- What Status shows has all that the map has.
at_slot-status :
    (k : SlotName) (m : Map SlotName SlotState) → IsKeyed m → at_slot k (status m) ≡ lookup k m
unfolding status
at_slot-status k m h = at_slot-sorted k (values m) (values-IsSingle m h) ∙ at_slot-values k m h

-- A slot before the first of a rising list has no state there.
at_slot-before :
    (k : SlotName) (y : SlotState) (l : List SlotState)
    → text_lt k y.slot ≡ true
    → All (λ z. text_lt y.slot z.slot ≡ true) l
    → at_slot k (y ∷ l) ≡ none
at_slot-before k y l h above =
    at_slot-below k (y ∷ l) (h, All-map _ _ l (λ z. text_lt_trans k y.slot z.slot h) above)

heads_eq :
    (x y : SlotState) (l l' : List SlotState)
    → IsRising (x ∷ l)
    → IsRising (y ∷ l')
    → ((k : SlotName) → at_slot k (x ∷ l) ≡ at_slot k (y ∷ l'))
    → x ≡ y
heads_eq x y l l' (above, r) (above', r') h = elim (Bool-cases (x.slot == y.slot)) [
  | inl q ↦ some-injective x y (ground (arith, h x.slot, eq_self x.slot))
  | inr q ↦ elim (Bool-cases (text_lt x.slot y.slot)) [
    | inl lt ↦
        absurd (ground (arith, h x.slot, eq_self x.slot, at_slot-before x.slot y l' lt above'))
    | inr ge ↦
        let lt = text_lt_total x.slot y.slot ge (eq_false x.slot y.slot q) in
        absurd (ground (arith, h y.slot, eq_self y.slot, at_slot-before y.slot x l lt above))
  ]
]

tails_same :
    (x : SlotState) (l l' : List SlotState)
    → IsRising (x ∷ l)
    → IsRising (x ∷ l')
    → ((k : SlotName) → at_slot k (x ∷ l) ≡ at_slot k (x ∷ l'))
    → (k : SlotName) → at_slot k l ≡ at_slot k l'
tails_same x l l' (above, r) (above', r') h k = elim (Bool-cases (k == x.slot)) [
  | inl q ↦
      let same = eq_true k x.slot q in
      rw same (at_slot-below x.slot l above ∙ sym (at_slot-below x.slot l' above'))
  | inr q ↦ ground (arith, h k)
]

-- Two lists by rising slot with the same states are one list.
rising_eq :
    (l l' : List SlotState)
    → IsRising l
    → IsRising l'
    → ((k : SlotName) → at_slot k l ≡ at_slot k l')
    → l ≡ l'
rising_eq [] [] r r' h = refl
rising_eq [] (y ∷ l') r r' h = absurd (ground (arith, h y.slot, eq_self y.slot))
rising_eq (x ∷ l) [] r r' h = absurd (ground (arith, h x.slot, eq_self x.slot))
rising_eq (x ∷ l) (y ∷ l') r r' h =
    let same = heads_eq x y l l' r r' h in
    let h' = subst (λ z. (k : SlotName) → at_slot k (x ∷ l) ≡ at_slot k (z ∷ l')) (sym same) h in
    let r'' = subst (λ z. IsRising (z ∷ l')) (sym same) r' in
    let rest = rising_eq l l' r.1 r'.1 (tails_same x l l' r r'' h') in (cc)

-- The order in which Go ranges over the map does not show.
status_eq : (a b : Statuses) → SameMap a b → status a.0 ≡ status b.0
unfolding status
status_eq (m, h) (n, k) same =
    rising_eq (sorted (values m)) (sorted (values n))
      (sorted-IsRising (values m) (values-IsSingle m h))
      (sorted-IsRising (values n) (values-IsSingle n k))
      λ s. at_slot-status s m h ∙ same s ∙ sym (at_slot-status s n k)

-- What Status shows tells the map.
status_tells : (a b : Statuses) → status a.0 ≡ status b.0 → SameMap a b
status_tells (m, h) (n, k) same s =
    sym (at_slot-status s m h) ∙ ap (at_slot s) same ∙ at_slot-status s n k

LiveMap-set : IsSet LiveMap
LiveMap-set = Quot-set

SlotState-discrete : Discrete SlotState
SlotState-discrete = hlevel ℕ_discrete

SlotStates-set : IsSet (List SlotState)
SlotStates-set = hlevel SlotState-discrete

-- Status, of the map itself.
pub live_status : LiveMap → List SlotState
live_status = Quot.lift SlotStates-set (λ a. status a.0) status_eq

pub live_status-mk : (a : Statuses) → live_status (Quot.mk a) ≡ status a.0
unfolding live_status
live_status-mk a = refl

-- Status is a function of the map alone, whatever the order in which it is ranged over, and shows all
-- of it: two maps of live states for which it answers the same are the same map.
pub live_status-injective : (x y : LiveMap) → live_status x ≡ live_status y → x ≡ y
unfolding live_status
live_status-injective =
    Quot.ind (λ x. hlevel LiveMap-set)
      λ a. Quot.ind (λ y. hlevel LiveMap-set) λ b same. Quot.sound (status_tells a b same)
