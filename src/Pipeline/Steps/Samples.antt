-- ===== src/Pipeline/Steps/Samples.antt =====
-- Two cards in two slots, ingested at once over memory.
use mathlib.Core.Option.{some-injective}
use mathlib.Core.Path.{subst}
use cardingest.Base.{
  ℕ, zero, suc, map, ◌≡◌, ◌≢◌, refl, sym, ◌∙◌, Bool, true, false, List, [], ◌∷◌, ◌++◌,
}
use cardingest.Base.{Option, none, some, ok, arith, All, ◌⊎◌, inl, inr}
use cardingest.Base.{◌==◌, list_eq, nat_eq, eq_true}
use cardingest.Base.Int.{pos, int64, ◌+ℤ◌}
use cardingest.Base.Maps.{lookup, insert, remove}
use cardingest.Base.Paths.{NoSlash}
use cardingest.Base.Strings.{Text, codes, to_lower, ext, base, dir, join_path, replace_all, decimal}
use cardingest.Base.Strings.{hex}
use cardingest.Base.Threads.{Prog, act, interleave, update, advance, return, bind}
use cardingest.Card.{SlotName, FileEntry, format_date}
use cardingest.Rules.{decide}
use cardingest.Pipeline.{Input, entry}
use cardingest.Pipeline.Category.{categorize, scan_exts}
use cardingest.Pipeline.Copy.{
  World, tmp_path, dest_path, is_fatal, next_tmp, on_dest, discard, hash_of,
}
use cardingest.Pipeline.Copy.{hash_file, ask_index, record_verified, verify}
use cardingest.Pipeline.Ingest.{scan, wanted, sum_sizes, emit_progress, settle, note_landed}
use cardingest.Pipeline.Memory.{memory, memory-IsLawful, hashes-IsLawful}
use cardingest.Pipeline.Samples.{env, deps, day, start, jpeg}
use cardingest.Pipeline.TempNames.{tmp_path-ne}
use cardingest.Pipeline.Steps.{
  ingest_steps, Ending, loop_steps, copy_steps, copy_to_steps, stream_copy_steps,
}
use cardingest.Pipeline.Steps.{dedupe_steps, drop_steps, land_steps, place_steps}
use cardingest.Pipeline.Steps.Own.{AllStored}
use cardingest.Pipeline.Steps.Wanted.{Wants, Distinct, files_of}
use cardingest.Pipeline.Steps.Together.{AreApart, IsTemp, IsKept, all_slots, verified-Stored}
use cardingest.Pipeline.Steps.Together.{slot_steps}

-- A card with one picture; the bytes are the same on every card.
abbrev one_picture : Text → Text → Input
one_picture slot name = record {
  slot = slot;
  serial = codes "S" ++ slot;
  card_fs = record {
    walk = entry (codes "DCIM/" ++ name) false 3 day ∷ [];
    open_file = λ p. none;
    content = λ p. (1 ∷ 2 ∷ 3 ∷ [], none);
  };
}

abbrev picture : Text → FileEntry
picture name = record { path = codes "DCIM/" ++ name; size = 3; mod_time = day }

abbrev pub left : Input
left = one_picture (codes "A") (codes "A.JPG")

abbrev right : Input
right = one_picture (codes "B") (codes "B.JPG")

abbrev pick : Bool → Bool → Option Input
pick true b = some left
pick false true = some right
pick false false = none

abbrev pub cards : SlotName → Option Input
cards s = pick (s == codes "A") (s == codes "B")

pick-eq-some :
    (a b : Bool) (i : Input)
    → pick a b ≡ some i
    → ((a ≡ true) × (i ≡ left)) ⊎ ((b ≡ true) × (i ≡ right))
pick-eq-some true b i h = inl (refl, sym (some-injective _ _ h))
pick-eq-some false true i h = inr (refl, sym (some-injective _ _ h))
pick-eq-some false false i h = cc

-- What is known of a slot that holds a card.
abbrev Held : SlotName → Input → Type 0
Held s i = ((s ≡ codes "A") × (i ≡ left)) ⊎ ((s ≡ codes "B") × (i ≡ right))

cards-eq-some : (s : SlotName) (i : Input) → cards s ≡ some i → Held s i
cards-eq-some s i h = elim (pick-eq-some (s == codes "A") (s == codes "B") i h) [
  | inl a ↦ inl (eq_true s (codes "A") a.0, a.1)
  | inr b ↦ inr (eq_true s (codes "B") b.0, b.1)
]

left_goes : (p : Text) → Wants env deps left (files_of left) p → p ≡ codes "JPEG/2026-03-07/A.JPG"
unfolding Wants scan wanted decide categorize scan_exts to_lower ext dest_path replace_all join_path
    base format_date
left_goes p (inl (c, is, goes)) = sym (
    subst (λ k. dest_path env deps left (picture (codes "A.JPG")) k ≡ p)
      (sym (some-injective jpeg c is)) goes)
left_goes p (inr h) = absurd h

right_goes :
    (p : Text) → Wants env deps right (files_of right) p → p ≡ codes "JPEG/2026-03-07/B.JPG"
unfolding Wants scan wanted decide categorize scan_exts to_lower ext dest_path replace_all join_path
    base format_date
right_goes p (inl (c, is, goes)) = sym (
    subst (λ k. dest_path env deps right (picture (codes "B.JPG")) k ≡ p)
      (sym (some-injective jpeg c is)) goes)
right_goes p (inr h) = absurd h

pub AllStored-start : AllStored env (IsTemp env deps cards) start
AllStored-start k s = absurd (ground arith)

NoSlash-Held : (s : SlotName) (i : Input) → Held s i → (i.slot ≡ s) × NoSlash s
NoSlash-Held s i (inl (a, b)) = rw (b, a) (refl, omega arith)
NoSlash-Held s i (inr (a, b)) = rw (b, a) (refl, omega arith)

start_free : (p : Text) (c : Text) → memory.read start.dest p ≢ ok c
unfolding lookup
start_free p c h = ground arith

Wants-plain :
    (s : SlotName) (i : Input)
    → Held s i
    → (p : Text) → Wants env deps i (files_of i) p
    → (t : Text) × (p ≡ b'J' ∷ t)
Wants-plain s i (inl (a, b)) p h =
    (codes "PEG/2026-03-07/A.JPG", left_goes p (subst (λ j. Wants env deps j (files_of j) p) b h))
Wants-plain s i (inr (a, b)) p h =
    (codes "PEG/2026-03-07/B.JPG", right_goes p (subst (λ j. Wants env deps j (files_of j) p) b h))

Distinct-Held : (s : SlotName) (i : Input) → Held s i → Distinct env deps i (files_of i)
unfolding scan
Distinct-Held s i (inl (a, b)) = rw b (λ c h. tt, tt)
Distinct-Held s i (inr (a, b)) = rw b (λ c h. tt, tt)

left-right :
    (p : Text) → Wants env deps left (files_of left) p → ¬ Wants env deps right (files_of right) p
left-right p a b = let same = sym (left_goes p a) ∙ right_goes p b in absurd (ground (arith, same))

unshared_lem :
    (s t : SlotName) (i j : Input)
    → Held s i
    → Held t j
    → s ≢ t
    → (p : Text) → Wants env deps i (files_of i) p
    → ¬ Wants env deps j (files_of j) p
unshared_lem s t i j (inl (a, b)) (inl (c, d)) apart = absurd (apart (a ∙ sym c))
unshared_lem s t i j (inl (a, b)) (inr (c, d)) apart = rw (b, d) left-right
unshared_lem s t i j (inr (a, b)) (inl (c, d)) apart = rw (b, d) (λ p x y. left-right p y x)
unshared_lem s t i j (inr (a, b)) (inr (c, d)) apart = absurd (apart (a ∙ sym c))

pub start-AreApart : AreApart env deps cards start
start-AreApart = record {
  named = λ s i h. NoSlash-Held s i (cards-eq-some s i h);
  free = λ s i h p a c r. start_free p c r;
  distinct = λ s i h. Distinct-Held s i (cards-eq-some s i h);
  proper = λ s i h p a (t, j, k, n, q).
      let (u, same) = Wants-plain s i (cards-eq-some s i h) p a in
      let (named, plain) = NoSlash-Held t j (cards-eq-some t j k) in
      tmp_path-ne env j.slot b'J' u (rw named plain) (omega arith) n (q ∙ same);
  unshared = λ s t i j h k. unshared_lem s t i j (cards-eq-some s i h) (cards-eq-some t j k);
}

-- The slots take turns, step by step.
abbrev pub turns : ℕ → List SlotName
turns zero = []
turns (suc n) = codes "A" ∷ codes "B" ∷ turns n

abbrev verified_of : Prog (World env) Ending → Option (List Text)
verified_of (return (x, r)) = some r.verified
verified_of (act op next) = none

after : ℕ → (SlotName → Option (List Text)) × World env
unfolding interleave update advance bind slot_steps ingest_steps loop_steps copy_steps copy_to_steps
    stream_copy_steps dedupe_steps drop_steps land_steps place_steps scan sum_sizes emit_progress
    wanted decide categorize scan_exts to_lower ext settle note_landed is_fatal int64 ◌+ℤ◌ dest_path
    replace_all join_path base dir format_date next_tmp tmp_path on_dest discard hash_of hash_file
    ask_index record_verified verify decimal hex list_eq lookup insert remove
after n =
    let (t, w) = interleave (turns n) (all_slots env deps cards (λ s n. none), start) in
    ((λ s. verified_of (t s)), w)

-- After this many turns both copies of the bytes have been asked for, and neither is known.
both_land :
    ((after 14).0 (codes "A") ≡ some (codes "DCIM/A.JPG" ∷ []))
    × ((after 14).0 (codes "B") ≡ some (codes "DCIM/B.JPG" ∷ []))
    × (map (λ e. e.0) (after 14).1.dest
        ≡ codes "JPEG/2026-03-07/A.JPG" ∷ codes "JPEG/2026-03-07/B.JPG" ∷ [])
unfolding after
both_land = (refl, refl, refl)

-- What the first slot ends with.
abbrev pub left_ending : Ending
left_ending = (
  none,
  record {
    copied = 1;
    deduped = 0;
    skipped = 0;
    failed = 0;
    bytes_copied = pos 3;
    by_category = (codes "JPEG", 1) ∷ [];
    verified = codes "DCIM/A.JPG" ∷ [];
    skipped_path = [];
    failed_path = [];
  },
)

pub left_ended :
    (interleave (turns 14) (all_slots env deps cards (λ s n. none), start)).0 (codes "A")
    ≡ return left_ending
unfolding interleave update advance bind slot_steps ingest_steps loop_steps copy_steps copy_to_steps
    stream_copy_steps dedupe_steps drop_steps land_steps place_steps scan sum_sizes emit_progress
    wanted decide categorize scan_exts to_lower ext settle note_landed is_fatal int64 ◌+ℤ◌ dest_path
    replace_all join_path base dir format_date next_tmp tmp_path on_dest discard hash_of hash_file
    ask_index record_verified verify decimal hex list_eq lookup insert remove
left_ended = refl

verified-Stored_example :
    let (t', w') = interleave (turns 14) (all_slots env deps cards (λ s n. none), start) in
    AllStored env (IsTemp env deps cards) w'
    × ((slot : SlotName) (input : Input) (ending : Ending)
        → cards slot ≡ some input
        → t' slot ≡ return ending
        → All (IsKept env deps cards w'.dest input) ending.1.verified)
verified-Stored_example =
    verified-Stored env memory-IsLawful hashes-IsLawful deps cards (λ s n. none) start
      AllStored-start start-AreApart (turns 14)
