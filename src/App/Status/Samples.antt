-- ===== src/App/Status/Samples.antt =====
-- The live states of two slots, as the map may be ranged over in either order.
use mathlib.Core.Quot
use cardingest.Base.{[], ◌∷◌, reverse, ◌≡◌, refl, sym, ◌∙◌, list_eq, nat_eq}
use cardingest.Base.Maps.{Map, lookup}
use cardingest.Base.Strings.{Text, codes}
use cardingest.Card.{SlotName}
use cardingest.App.{SlotState, Activity, idle, ingesting}
use cardingest.App.Status.{status, sorted, insert_sorted, text_lt}
use cardingest.App.Status.Live.{Statuses, IsKeyed, LiveMap, live_status-mk, live_status-injective}

abbrev state_of : Text → Activity → SlotState
state_of slot activity = record { slot = slot; state = activity; job_id = 1 }

abbrev entries : Map SlotName SlotState
entries =
    (codes "1.1", state_of (codes "1.1") idle)
    ∷ (codes "1.2", state_of (codes "1.2") ingesting)
    ∷ []

entries-IsKeyed : IsKeyed entries × IsKeyed (reverse entries)
unfolding lookup list_eq nat_eq
entries-IsKeyed = ((refl, refl, (refl, refl, tt)), (refl, refl, (refl, refl, tt)))

abbrev one_way : Statuses
one_way = (entries, entries-IsKeyed.0)

abbrev other_way : Statuses
other_way = (reverse entries, entries-IsKeyed.1)

same_shown : status one_way.0 ≡ status other_way.0
unfolding status sorted insert_sorted text_lt nat_eq
same_shown = refl

live_status-injective_example : ◌≡◌ {A = LiveMap} (Quot.mk one_way) (Quot.mk other_way)
live_status-injective_example =
    live_status-injective (Quot.mk one_way) (Quot.mk other_way)
      (live_status-mk one_way ∙ same_shown ∙ sym (live_status-mk other_way))
