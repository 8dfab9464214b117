-- ===== src/App/History/Rows.antt =====
-- The rows of one slot in the job history, when rows are added and finished.
use mathlib.Core.Path.{subst}
use cardingest.Base.{ℕ, ◌≤◌, ◌≡◌, ◌≢◌, refl, ap, List, [], ◌∷◌, All, arith}
use cardingest.Base.{◌==◌, list_eq, nat_eq, if◌then◌else◌, Bool-cases, inl, inr, eq_true}
use cardingest.Base.Threads.Rely.{}
use cardingest.Card.{SlotName}
use cardingest.Store.{Job, JobStatus, update_rows}
use cardingest.Store.Jobs.{IsDescending, IsDescending-up}

-- The rows of a slot, the newest first.
unfoldable pub rows_of : SlotName → List Job → List Job
rows_of slot [] = []
rows_of slot (row ∷ rows) =
    let rest = rows_of slot rows in if row.slot == slot then row ∷ rest else rest

pub rows_of-IsDescending :
    (slot : SlotName) (bound : ℕ) (rows : List Job)
    → IsDescending bound rows
    → IsDescending bound (rows_of slot rows)
unfolding rows_of
rows_of-IsDescending slot bound [] h = tt
rows_of-IsDescending slot bound (row ∷ rows) h = elim (Bool-cases (row.slot == slot)) [
  | inl q ↦ rw q (h.0, rows_of-IsDescending slot row.id rows h.1)
  | inr q ↦ rw q (
      IsDescending-up row.id bound (rows_of slot rows) (omega (arith, h.0))
        (rows_of-IsDescending slot row.id rows h.1))
]

-- The slot's rows change as the whole does.
pub rows_of-update_self :
    (slot : SlotName) (id : ℕ) (status : JobStatus) (j : Job) (now : ℕ) (rows : List Job)
    → rows_of slot (update_rows id status j now rows)
      ≡ update_rows id status j now (rows_of slot rows)
unfolding rows_of update_rows
rows_of-update_self slot id status j now [] = refl
rows_of-update_self slot id status j now (row ∷ rows) =
    ground (arith, rows_of-update_self slot id status j now rows)

pub rows_of-update_other :
    (slot other : SlotName) (id : ℕ) (status : JobStatus) (j : Job) (now : ℕ) (rows : List Job)
    → other ≢ slot
    → All (λ row. row.id ≡ id → row.slot ≡ slot) rows
    → rows_of other (update_rows id status j now rows) ≡ rows_of other rows
unfolding rows_of update_rows
rows_of-update_other slot other id status j now [] apart h = refl
rows_of-update_other slot other id status j now (row ∷ rows) apart h =
    ground (arith, rows_of-update_other slot other id status j now rows apart h.1, h.0, apart)

-- Rows with lower ids are not the one.
lower-ids :
    (slot : SlotName) (bound id : ℕ) (rows : List Job)
    → bound ≤ id
    → IsDescending bound rows
    → All (λ row. row.id ≡ id → row.slot ≡ slot) rows
lower-ids slot bound id [] l h = tt
lower-ids slot bound id (row ∷ rows) l h = (
  λ q. absurd (omega (arith, h.0, q, l)),
  lower-ids slot row.id id rows (omega (arith, h.0, l)) h.1,
)

heads_eq : {r n : Job} {rest rest' : List Job} → r ∷ rest ≡ n ∷ rest' → r ≡ n
heads_eq h = cc

-- The id of a slot's newest row is no other slot's.
pub newest-ids :
    (slot : SlotName) (bound : ℕ) (rows : List Job) (new : Job) (old : List Job)
    → IsDescending bound rows
    → rows_of slot rows ≡ new ∷ old
    → All (λ row. row.id ≡ new.id → row.slot ≡ slot) rows
unfolding rows_of
newest-ids slot bound [] new old h is = cc
newest-ids slot bound (row ∷ rows) new old h is = elim (Bool-cases (row.slot == slot)) [
  | inl q ↦
      let same = heads_eq (
        subst (λ b. (if b then row ∷ rows_of slot rows else rows_of slot rows) ≡ new ∷ old) q is) in
      (
        λ e. eq_true row.slot slot q,
        lower-ids slot row.id new.id rows (omega (arith, ap (λ (r : Job). r.id) same)) h.1,
      )
  | inr q ↦
      let rest =
        subst (λ b. (if b then row ∷ rows_of slot rows else rows_of slot rows) ≡ new ∷ old) q is in
      let below = subst (IsDescending row.id) rest (rows_of-IsDescending slot row.id rows h.1) in
      (λ e. absurd (omega (arith, e, below.0)), newest-ids slot row.id rows new old h.1 rest)
]
