-- ===== src/Pipeline/Safety/Ingest.antt =====
-- A whole ingest keeps the index backed by files, and what it reports as verified is safe.
use cardingest.Base.{ℕ, ◌+◌, ◌≡◌, refl, List, [], ◌∷◌, Option, none, some, Outcome, ok}
use cardingest.Base.{err, All, All-append, All-map, true, false, Bool, arith, ok-injective}
use cardingest.Base.Int.{ℤ}
use cardingest.Base.Strings.{Text}
use cardingest.Card.{FileEntry}
use cardingest.Pipeline.{Env, Deps, Input}
use cardingest.Pipeline.Copy.{fatal, plain, World}
use cardingest.Pipeline.Ingest.{
  Report, IngestError, Fate, passed_over, tried, settle, attempt, wanted,
}
use cardingest.Pipeline.Ingest.{
  emit_progress, one_file, carry_on, ingest_from, finish, ingest, scan, note_landed,
}
use cardingest.Pipeline.Ingest.{empty_report, note_skipped, note_failed}
use cardingest.Pipeline.Frame.{IsLawful}
use cardingest.Pipeline.Landing.{card_hash}
use cardingest.Pipeline.Safety.{
  IsLawfulIndex, IndexBacked, AllFree, IsSafe, Backed, IndexBacked-copy,
}
use cardingest.Pipeline.Safety.{IsSafe-copy, copy-IsSafe, AllFree-copy}

-- What settling a file adds to the verified paths: its own, if its copy returned.
pub All-settle :
    (P : Text → Type 0) (e : FileEntry) (fate : Fate) (r : Report) {r' : Report}
    → settle e fate r ≡ ok r'
    → All P r.verified
    → ((category : Text) (b : Bool) → fate ≡ tried category (ok b) → P e.path)
    → All P r'.verified
unfolding settle note_skipped note_failed note_landed
All-settle P e passed_over r h all safe = rw (← ok-injective h) all
All-settle P e (tried c (ok true)) r h all safe =
    rw (← ok-injective h) (All-append P r.verified (e.path ∷ []) all (safe c true refl, tt))
All-settle P e (tried c (ok false)) r h all safe =
    rw (← ok-injective h) (All-append P r.verified (e.path ∷ []) all (safe c false refl, tt))
All-settle P e (tried c (err (fatal f))) r h all safe = cc
All-settle P e (tried c (err (plain f))) r h all safe = rw (← ok-injective h) all

module _ (E : Env) (L : IsLawful E.dest) (I : IsLawfulIndex E.index) (deps : Deps)
    (input : Input) where
  -- Between two files: the index is backed, the files to come have free paths, and what is
  -- reported as verified is safe.
  record IsSound (entries : List FileEntry) (r : Report) (w : World E) : Type 0 where
    backed : IndexBacked E deps input w.dest w.index
    free : AllFree E deps input w.dest entries
    safe : All (IsSafe E deps input w.index) r.verified

  pub dest-emit_progress :
      (i n : ℕ) (b t : ℤ) (c : Text) (w : World E)
      → ((emit_progress E deps input i n b t c w).dest ≡ w.dest)
        × ((emit_progress E deps input i n b t c w).index ≡ w.index)
  unfolding emit_progress
  dest-emit_progress i n b t c w = (ground arith, ground arith)

  emit_progress-IsSound :
      (i n : ℕ) (b t : ℤ) (c : Text) (entries : List FileEntry) (r : Report) (w : World E)
      → IsSound entries r w
      → IsSound entries r (emit_progress E deps input i n b t c w)
  emit_progress-IsSound i n b t c entries r w s =
      let (same_dest, same_index) = dest-emit_progress i n b t c w in
      record {
        backed = rw (same_dest, same_index) s.backed;
        free = rw same_dest s.free;
        safe = rw same_index s.safe;
      }

  -- After the attempt at the next file, with the report as it was.
  attempt-IsSound :
      (e : FileEntry) (entries : List FileEntry) (r : Report) (w : World E) (o : Option Text)
      → wanted E deps input e ≡ o
      → IsSound (e ∷ entries) r w
      → IsSound entries r (attempt E deps input e o w).1
        × ((category : Text) (b : Bool)
            → (attempt E deps input e o w).0 ≡ tried category (ok b)
            → IsSafe E deps input (attempt E deps input e o w).1.index e.path)
  unfolding attempt
  attempt-IsSound e entries r w none p s =
      (record { backed = s.backed; free = s.free.1; safe = s.safe }, λ c b h. absurd (ground arith))
  attempt-IsSound e entries r w (some category) p s =
      let (vacant, apart) = s.free.0 category p in
      (
        record {
          backed = IndexBacked-copy E L I deps input e category w vacant s.backed;
          free = AllFree-copy E L I deps input e category w entries apart s.free.1;
          safe = All-map _ _ r.verified (IsSafe-copy E L I deps input e category w) s.safe;
        },
        λ c b h. copy-IsSafe E L I deps input e category w b (ground arith),
      )

  one_file-IsSound :
      (stop : Option Text) (n : ℕ) (t : ℤ) (i : ℕ) (e : FileEntry) (entries : List FileEntry)
      (r : Report) (w : World E)
      → IsSound (e ∷ entries) r w
      → IsSound entries r (one_file E deps input stop n t i e r w).1
        × ((r' : Report)
            → (one_file E deps input stop n t i e r w).0 ≡ ok r'
            → IsSound entries r' (one_file E deps input stop n t i e r w).1)
  unfolding one_file
  one_file-IsSound (some cause) n t i e entries r w s =
      (record { backed = s.backed; free = s.free.1; safe = s.safe }, λ r' h. absurd (ground arith))
  one_file-IsSound none n t i e entries r w s =
      let w₀ = emit_progress E deps input i n r.bytes_copied t e.path w in
      let s₀ = emit_progress-IsSound i n r.bytes_copied t e.path (e ∷ entries) r w s in
      let (kept, safe) = attempt-IsSound e entries r w₀ (wanted E deps input e) refl s₀ in
      let fate = (attempt E deps input e (wanted E deps input e) w₀).0 in
      (
        kept,
        λ r' h. record {
          backed = kept.backed;
          free = kept.free;
          safe = All-settle _ e fate r h kept.safe safe;
        },
      )

  abbrev EndsSound : Option IngestError × Report × World E → Type 0
  EndsSound (x, r, w) = IsSound [] r w

  carry_on-EndsSound :
      (o : Outcome IngestError Report) (r : Report) (w : World E) (entries : List FileEntry)
      (next : Report → Option IngestError × Report × World E)
      → IsSound entries r w
      → ((r' : Report) → o ≡ ok r' → EndsSound (next r'))
      → EndsSound (carry_on E deps input o r w next)
  carry_on-EndsSound (err x) r w entries next s k = record {
    backed = s.backed;
    free = tt;
    safe = s.safe;
  }
  carry_on-EndsSound (ok r') r w entries next s k = k r' refl

  ingest_from-EndsSound :
      (stopped : ℕ → Option Text) (n : ℕ) (t : ℤ) (i : ℕ) (entries : List FileEntry) (r : Report)
      (w : World E)
      → IsSound entries r w
      → EndsSound (ingest_from E deps input stopped n t i entries r w)
  unfolding ingest_from
  ingest_from-EndsSound stopped n t i [] r w s = s
  ingest_from-EndsSound stopped n t i (e ∷ entries) r w s =
      let (kept, on) = one_file-IsSound (stopped i) n t i e entries r w s in
      carry_on-EndsSound _ r _ entries _ kept
        λ r' h. ingest_from-EndsSound stopped n t (i + 1) entries r' _ (on r' h)

  finish-EndsSound :
      (n : ℕ) (t : ℤ) (x : Option IngestError × Report × World E)
      → EndsSound x
      → EndsSound (finish E deps input n t x)
  unfolding finish
  finish-EndsSound n t (some cause, r, w) s = s
  finish-EndsSound n t (none, r, w) s = emit_progress-IsSound n n r.bytes_copied t [] [] r w s

  ingest-EndsSound :
      (stopped : ℕ → Option Text) (w : World E) (entries : List FileEntry)
      → scan input.card_fs.walk ≡ ok entries
      → IndexBacked E deps input w.dest w.index
      → AllFree E deps input w.dest entries
      → EndsSound (ingest E deps input stopped w)
  unfolding ingest
  ingest-EndsSound stopped w entries scanned backed free =
      rw (scanned, ingest)
        (finish-EndsSound _ _ _ (
          ingest_from-EndsSound stopped _ _ 0 entries empty_report w
            (record { backed = backed; free = free; safe = tt })))

-- Where the files that are wanted go to vacant paths, no two to the same, and the index was backed
-- by files before: after an ingest, whether it ends well or not, it still is; and of every path that
-- is reported as verified, the card's file was read to its end and the destination holds, at a path
-- that is no temporary one, bytes with the hash of what was read.
pub verified-Backed :
    (E : Env) (L : IsLawful E.dest) (I : IsLawfulIndex E.index) (deps : Deps) (input : Input)
    (stopped : ℕ → Option Text) (w : World E) (entries : List FileEntry)
    → scan input.card_fs.walk ≡ ok entries
    → IndexBacked E deps input w.dest w.index
    → AllFree E deps input w.dest entries
    → let (x, r, w') = ingest E deps input stopped w in
      IndexBacked E deps input w'.dest w'.index
      × All
          (λ p.
            (input.card_fs.open_file p ≡ none)
            × ((input.card_fs.content p).1 ≡ none)
            × Backed E deps input w'.dest (card_hash E input p))
          r.verified
verified-Backed E L I deps input stopped w entries scanned backed free =
    let (x, r, w') = ingest E deps input stopped w in
    let s = ingest-EndsSound E L I deps input stopped w entries scanned backed free in
    (
      s.backed,
      All-map _ _ r.verified
          (λ p safe. (safe.opened, safe.complete, s.backed (card_hash E input p) safe.seen)) s.safe,
    )
