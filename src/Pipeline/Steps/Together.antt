-- ===== src/Pipeline/Steps/Together.antt =====
-- Several slots that ingest at once through one pipeline: each in a goroutine of its own, their steps
-- on the destination and the index in any order.
use mathlib.Core.Path.{subst}
use cardingest.Base.{ℕ, ◌≡◌, ◌≢◌, refl, sym, ◌∙◌, List, [], Option, none, some, ◌⊎◌}
use cardingest.Base.{inl, inr, All, All-map, nat_eq, list_eq}
use cardingest.Base.Paths.{NoSlash}
use cardingest.Base.Strings.{Text}
use cardingest.Base.Threads.{Prog, return, Threads, interleave}
use cardingest.Base.Threads.Rely.{Good, Good-return, Good-map, Good-ended, interleave-Good}
use cardingest.Card.{SlotName}
use cardingest.Pipeline.{Env, Deps, Input}
use cardingest.Pipeline.Copy.{World, tmp_path}
use cardingest.Pipeline.Ingest.{empty_report}
use cardingest.Pipeline.Frame.{IsLawful}
use cardingest.Pipeline.Landing.{card_hash}
use cardingest.Pipeline.Safety.{IsLawfulIndex, IsSafe}
use cardingest.Pipeline.TempNames.{tmp_path-injective}
use cardingest.Pipeline.Steps.{Ending, ingest_steps}
use cardingest.Pipeline.Steps.Own.{AllStored, Stored, Free, contract}
use cardingest.Pipeline.Steps.Safety.{Tenant}
use cardingest.Pipeline.Steps.Wanted.{Wants, Distinct, files_of}
use cardingest.Pipeline.Steps.Loop.{ingest-Good}

some-injective : {a b : Input} → ◌≡◌ {A = Option Input} (some a) (some b) → a ≡ b
some-injective h = cc

-- The ingest of a slot; a slot without a card has nothing to do.
unfoldable pub slot_steps :
    (E : Env) → Deps → (ℕ → Option Text) → Option Input → Prog (World E) Ending
slot_steps E deps stopped none = return (none, empty_report)
slot_steps E deps stopped (some input) = ingest_steps E deps input stopped

module _ (E : Env) (deps : Deps) (cards : SlotName → Option Input) where
  -- Some slot may use this path for a temporary file.
  abbrev pub IsTemp : Text → Type 0
  IsTemp p =
      (slot : SlotName) × (input : Input) × (cards slot ≡ some input)
      × (n : ℕ) × (tmp_path E input.slot n ≡ p)

  -- The slot's temporary files, and the paths that its files are to go to.
  abbrev Own : SlotName → Text → Type 0
  Own slot p =
      (input : Input) × (cards slot ≡ some input)
      × (((n : ℕ) × (tmp_path E input.slot n ≡ p)) ⊎ Wants E deps input (files_of input) p)

  -- Slots have names without a slash. The files that are wanted go to paths where nothing can be read
  -- and that no temporary file has, no two files to the same path, be they of one slot or of two.
  pub record AreApart (w : World E) : Type 0 where
    pub named : (s : SlotName) (i : Input) → cards s ≡ some i → (i.slot ≡ s) × NoSlash s
    pub free :
        (s : SlotName) (i : Input) → cards s ≡ some i → Free E (Wants E deps i (files_of i)) w
    pub distinct : (s : SlotName) (i : Input) → cards s ≡ some i → Distinct E deps i (files_of i)
    pub proper :
        (s : SlotName) (i : Input)
        → cards s ≡ some i
        → (p : Text) → Wants E deps i (files_of i) p
        → ¬ IsTemp p
    pub unshared :
        (s t : SlotName) (i j : Input)
        → cards s ≡ some i
        → cards t ≡ some j
        → s ≢ t
        → (p : Text) → Wants E deps i (files_of i) p
        → ¬ Wants E deps j (files_of j) p

  module _ (w : World E) (apart : AreApart w) where
    Own-apart : (s t : SlotName) → s ≢ t → (p : Text) → Own t p → ¬ Own s p
    Own-apart s t h p (j, jt, inl (m, b)) (i, is, inl (n, a)) =
        let (si, sp) = apart.named s i is in
        let (tj, tp) = apart.named t j jt in
        h (
          sym si
          ∙ (tmp_path-injective E i.slot j.slot (rw si sp) (rw tj tp) n m (a ∙ sym b)).0
          ∙ tj)
    Own-apart s t h p (j, jt, inl (m, b)) (i, is, inr a) = apart.proper s i is p a (t, j, jt, m, b)
    Own-apart s t h p (j, jt, inr b) (i, is, inl (n, a)) = apart.proper t j jt p b (s, i, is, n, a)
    Own-apart s t h p (j, jt, inr b) (i, is, inr a) = apart.unshared s t i j is jt h p a b

    -- What a slot's ingest ends with.
    abbrev Post : SlotName → Ending → World E → Type 0
    Post slot (x, r) v =
        (i : Input) → cards slot ≡ some i → All (IsSafe E deps i v.index) r.verified

    slot-Good :
        IsLawful E.dest
        → IsLawfulIndex E.index
        → (stopped : ℕ → Option Text) (slot : SlotName) (o : Option Input) → cards slot ≡ o
        → AllStored E IsTemp w
        → Good (contract E (Own slot) IsTemp) (Post slot) (slot_steps E deps stopped o) w
    unfolding slot_steps
    slot-Good L I stopped slot none h stored =
        Good-return _ (Post slot) (none, empty_report) w λ v k _ i is. tt
    slot-Good L I stopped slot (some input) h stored =
        let C = contract E (Own slot) IsTemp in
        let (same, plain) = apart.named slot input h in
        let t : Tenant E (Own slot) IsTemp input.slot = record {
          own = λ n. (input, h, inl (n, refl));
          temp = λ n. (slot, input, h, n, refl);
        } in
        Good-map C _ (Post slot)
          (λ (x, r) v all i is.
            subst (λ j. All (IsSafe E deps j v.index) r.verified) (some-injective (sym h ∙ is)) all)
          (ingest_steps E deps input stopped) w
          (ingest-Good E L I deps input (Own slot) IsTemp t stopped w
            (λ p k. ((input, h, inr k), apart.proper slot input h p k))
            (apart.distinct slot input h) stored (apart.free slot input h))

  -- Every slot with its ingest.
  abbrev pub all_slots : (SlotName → ℕ → Option Text) → Threads SlotName (World E) Ending
  all_slots stopped slot = slot_steps E deps (stopped slot) (cards slot)

  -- What is said of a path that a slot reports as verified: the card's file was read to its end, and
  -- the destination holds, at a path that is no slot's temporary one, bytes with the hash of what was
  -- read.
  pub record IsKept (d : E.dest.State) (input : Input) (p : Text) : Type 0 where
    pub opened : input.card_fs.open_file p ≡ none
    pub complete : (input.card_fs.content p).1 ≡ none
    pub kept : Stored E IsTemp d (card_hash E input p)

-- Several slots ingest at once, in an order of steps that is any. Where the index was backed by
-- files before, the slots are named without a slash, and their files go to paths that are free, all
-- different and no temporary file's: at any moment the index is backed by files, no temporary ones;
-- and of every path that a slot which has ended reports as verified, the card's file was read to its
-- end and the destination holds bytes with its hash.
pub verified-Stored :
    (E : Env) (L : IsLawful E.dest) (I : IsLawfulIndex E.index) (deps : Deps)
    (cards : SlotName → Option Input) (stopped : SlotName → ℕ → Option Text) (w : World E)
    → AllStored E (IsTemp E deps cards) w
    → AreApart E deps cards w
    → (schedule : List SlotName)
    → let (t', w') = interleave schedule (all_slots E deps cards stopped, w) in
      AllStored E (IsTemp E deps cards) w'
      × ((slot : SlotName) (input : Input) (ending : Ending)
          → cards slot ≡ some input
          → t' slot ≡ return ending
          → All (IsKept E deps cards w'.dest input) ending.1.verified)
verified-Stored E L I deps cards stopped w stored apart schedule =
    let C = λ (slot : SlotName). contract E (Own E deps cards slot) (IsTemp E deps cards) in
    let all =
      interleave-Good C (λ j k v i. i)
        (λ j k v v' h g. (λ p o. g.0 p (Own-apart E deps cards w apart j k h p o), g.1))
        (Post E deps cards w apart) schedule (all_slots E deps cards stopped) w
        (λ slot. (
          stored,
          slot-Good E deps cards w apart L I (stopped slot) slot (cards slot) refl stored,
        )) in
    let kept = (all []).0 in
    let w' = (interleave schedule (all_slots E deps cards stopped, w)).1 in
    (
      kept,
      λ slot input ending is ended.
          All-map (IsSafe E deps input w'.index) _ ending.1.verified
            (λ p s. record {
              opened = s.opened;
              complete = s.complete;
              kept = kept (card_hash E input p) s.seen;
            })
            (Good-ended (C slot) (Post E deps cards w apart slot) ending w' kept
              (rw (← ended) (all slot).1) input is),
    )
