-- ===== src/Pipeline/Steps/Loop.antt =====
-- A whole ingest, whatever the other slots do in between.
use cardingest.Base.{ℕ, ◌+◌, ◌≡◌, refl, Option, none}
use cardingest.Base.{length, some, Outcome, ok, err, inr, List, [], ◌∷◌}
use cardingest.Base.Int.{ℤ, pos}
use cardingest.Base.Strings.{Text}
use cardingest.Base.Threads.{Prog}
use cardingest.Base.Threads.Rely.{Contract, Good, Good-bind, Good-return, Good-act}
use cardingest.Card.{FileEntry}
use cardingest.Pipeline.{Env, Deps, Input}
use cardingest.Pipeline.Copy.{World}
use cardingest.Pipeline.Ingest.{Report, IngestError}
use cardingest.Pipeline.Ingest.{emit_progress, scan, sum_sizes, empty_report}
use cardingest.Pipeline.Frame.{IsLawful}
use cardingest.Pipeline.Safety.{IsLawfulIndex}
use cardingest.Pipeline.Safety.Ingest.{dest-emit_progress}
use cardingest.Pipeline.Steps.{one_file_steps}
use cardingest.Pipeline.Steps.{carry_on_steps, loop_steps, finish_steps, Ending, ingest_steps}
use cardingest.Pipeline.Steps.Own.{AllStored, Free, contract}
use cardingest.Pipeline.Steps.Safety.{Tenant}
use cardingest.Pipeline.Steps.Wanted.{Wants, Distinct, files_of, entries_of}
use cardingest.Pipeline.Steps.Rounds.{Safe, Safe-Sees, Hosts, Rounded, one_file-Good}

module _ (E : Env) (L : IsLawful E.dest) (I : IsLawfulIndex E.index) (deps : Deps) (input : Input)
    (Own IsTemp : Text → Type 0) (t : Tenant E Own IsTemp input.slot) where
  abbrev C : Contract (World E)
  C = contract E Own IsTemp

  -- What an ingest ends with: everything that it reports as verified is safe.
  abbrev pub AllSafe : Ending → World E → Type 0
  AllSafe (x, r) w = Safe E L I deps input Own IsTemp t r.verified w

  carry_on-Good :
      (entries : List FileEntry) (r : Report) (next : Report → Prog (World E) Ending)
      (o : Outcome IngestError Report) (v : World E)
      → AllStored E IsTemp v
      → Rounded E L I deps input Own IsTemp t entries r o v
      → ((r' : Report)
          → Free E (Wants E deps input entries) v × Safe E L I deps input Own IsTemp t r'.verified v
          → Good C AllSafe (next r') v)
      → Good C AllSafe (carry_on_steps E deps input r next o) v
  carry_on-Good entries r next (err x) v k q f =
      Good-return C AllSafe (some x, r) v
        λ u h _. Safe-Sees E L I deps input Own IsTemp t r.verified v u h.1 q
  carry_on-Good entries r next (ok r') v k q f = f r' q

  loop-Good :
      (stopped : ℕ → Option Text) (n : ℕ) (total : ℤ) (i : ℕ) (entries : List FileEntry)
      (r : Report) (w : World E)
      → Hosts E L I deps input Own IsTemp t entries
      → Distinct E deps input entries
      → AllStored E IsTemp w
      → Free E (Wants E deps input entries) w
      → Safe E L I deps input Own IsTemp t r.verified w
      → Good C AllSafe (loop_steps E deps input stopped n total i entries r) w
  unfolding loop_steps Wants
  loop-Good stopped n total i [] r w host distinct j free all =
      Good-return C AllSafe (none, r) w
        λ v h _. Safe-Sees E L I deps input Own IsTemp t r.verified w v h.1 all
  loop-Good stopped n total i (e ∷ entries) r w host distinct j free all =
      let next = loop_steps E deps input stopped n total (i + 1) entries in
      Good-bind C (Rounded E L I deps input Own IsTemp t entries r) AllSafe
        (one_file_steps E deps input (stopped i) n total i e r) (carry_on_steps E deps input r next)
        w j
        (one_file-Good E L I deps input Own IsTemp t (stopped i) n total i e entries r w host
          distinct j free all)
        λ o v k q. carry_on-Good entries r next o v k q λ r' (f, s).
          loop-Good stopped n total (i + 1) entries r' v (λ p a. host p (inr a)) distinct.1 k f s

  finish-Good :
      (n : ℕ) (total : ℤ) (x : Ending) (w : World E)
      → AllStored E IsTemp w
      → AllSafe x w
      → Good C AllSafe (finish_steps E deps input n total x) w
  finish-Good n total (some cause, r) w i all =
      Good-return C AllSafe (some cause, r) w
        λ v h _. Safe-Sees E L I deps input Own IsTemp t r.verified w v h.1 all
  finish-Good n total (none, r) w i all = Good-act C AllSafe _ _ w λ v h k.
      let v' = emit_progress E deps input n n r.bytes_copied total [] v in
      let (d, x) = dest-emit_progress E L I deps input n n r.bytes_copied total [] v in
      (
        rw (d, x) k,
        (λ p _. rw d refl, λ p s. rw x s),
        Good-return C AllSafe (none, r) v'
            λ u q _.
              Safe-Sees E L I deps input Own IsTemp t r.verified v' u q.1
                (rw x (Safe-Sees E L I deps input Own IsTemp t r.verified w v h.1 all)),
      )

  scanned-Good :
      (stopped : ℕ → Option Text) (o : Outcome Text (List FileEntry)) (w : World E)
      → scan input.card_fs.walk ≡ o
      → Hosts E L I deps input Own IsTemp t (entries_of o)
      → Distinct E deps input (entries_of o)
      → AllStored E IsTemp w
      → Free E (Wants E deps input (entries_of o)) w
      → Good C AllSafe (ingest_steps E deps input stopped) w
  unfolding ingest_steps
  scanned-Good stopped (err cause) w h host distinct i free =
      rw (h, ingest_steps) (Good-return C AllSafe _ w λ v k _. tt)
  scanned-Good stopped (ok entries) w h host distinct i free =
      let n = length entries in
      let total = sum_sizes (pos 0) entries in
      rw (h, ingest_steps)
        (Good-bind C AllSafe AllSafe
          (loop_steps E deps input stopped n total 0 entries empty_report)
          (finish_steps E deps input n total) w i
          (loop-Good stopped n total 0 entries empty_report w host distinct i free tt)
          λ x v k all. finish-Good n total x v k all)

  -- An ingest whose files go to free paths, no two to the same, all its own: whatever the others do
  -- in between, every hash of the index stays that of a file, and what is reported as verified is safe.
  pub ingest-Good :
      (stopped : ℕ → Option Text) (w : World E)
      → Hosts E L I deps input Own IsTemp t (files_of input)
      → Distinct E deps input (files_of input)
      → AllStored E IsTemp w
      → Free E (Wants E deps input (files_of input)) w
      → Good C AllSafe (ingest_steps E deps input stopped) w
  ingest-Good stopped w = scanned-Good stopped (scan input.card_fs.walk) w refl
