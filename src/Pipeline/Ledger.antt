-- ===== src/Pipeline/Ledger.antt =====
-- What becomes of every file: the report accounts for each file once.
use mathlib.Core.List.{Perm, perm_middle, append_assoc, append-nil}
use mathlib.Core.List.Perm
use cardingest.Base.{
  ℕ, ◌+◌, ◌≡◌, refl, List, [], ◌∷◌, ◌++◌, map, Option, none, some, Outcome, ok, err,
}
use cardingest.Base.{true, false, arith, length, length-append, ok-injective}
use cardingest.Base.Int.{ℤ, pos}
use cardingest.Base.Strings.{Text}
use cardingest.Card.{FileEntry}
use cardingest.Pipeline.{Env, Deps, Input}
use cardingest.Pipeline.Copy.{World, fatal, plain}
use cardingest.Pipeline.Ingest.{Report, IngestError, Fate, passed_over, tried, settle}
use cardingest.Pipeline.Ingest.{
  one_file, carry_on, ingest_from, finish, ingest, scan, sum_sizes, note_landed,
}
use cardingest.Pipeline.Ingest.{empty_report, note_skipped, note_failed}

-- The paths of the report.
abbrev pub paths : Report → List Text
paths r = r.verified ++ (r.skipped_path ++ r.failed_path)

-- The counters agree with the lists.
pub record IsCounted (r : Report) : Type 0 where
  pub landed : r.copied + r.deduped ≡ length r.verified
  pub skipped : r.skipped ≡ length r.skipped_path
  pub failed : r.failed ≡ length r.failed_path

settle-IsCounted :
    (e : FileEntry) (fate : Fate) (r : Report) {r' : Report}
    → settle e fate r ≡ ok r'
    → IsCounted r
    → IsCounted r'
unfolding settle note_skipped note_failed note_landed
settle-IsCounted e passed_over r h c =
    rw (← ok-injective h) (omega (arith, length-append {0} r.skipped_path (e.path ∷ [])))
settle-IsCounted e (tried k (ok true)) r h c =
    rw (← ok-injective h) (omega (arith, length-append {0} r.verified (e.path ∷ [])))
settle-IsCounted e (tried k (ok false)) r h c =
    rw (← ok-injective h) (omega (arith, length-append {0} r.verified (e.path ∷ [])))
settle-IsCounted e (tried k (err (fatal f))) r h c = cc
settle-IsCounted e (tried k (err (plain f))) r h c =
    rw (← ok-injective h) (omega (arith, length-append {0} r.failed_path (e.path ∷ [])))

perm_inner : (v s f : List Text) (p : Text) → Perm (v ++ ((s ++ p ∷ []) ++ f)) (p ∷ (v ++ (s ++ f)))
perm_inner v s f p =
    rw append_assoc
      (Perm.trans (Perm.append (Perm.refl v) (perm_middle s f)) (perm_middle v (s ++ f)))

perm_outer : (v u : List Text) (p : Text) → Perm ((v ++ p ∷ []) ++ u) (p ∷ (v ++ u))
perm_outer v u p = rw append_assoc (perm_middle v u)

perm_last : (v s f : List Text) (p : Text) → Perm (v ++ (s ++ (f ++ p ∷ []))) (p ∷ (v ++ (s ++ f)))
perm_last v s f p =
    rw (← append_assoc s f (p ∷ []), ← append_assoc v (s ++ f) (p ∷ []))
      (rw append-nil at (perm_middle {a = p} (v ++ (s ++ f)) []))

settle-paths :
    (e : FileEntry) (fate : Fate) (r : Report) {r' : Report}
    → settle e fate r ≡ ok r'
    → Perm (paths r') (e.path ∷ paths r)
unfolding settle note_skipped note_failed note_landed
settle-paths e passed_over r h =
    rw (← ok-injective h) (perm_inner r.verified r.skipped_path r.failed_path e.path)
settle-paths e (tried k (ok true)) r h = rw (← ok-injective h) (perm_outer r.verified _ e.path)
settle-paths e (tried k (ok false)) r h = rw (← ok-injective h) (perm_outer r.verified _ e.path)
settle-paths e (tried k (err (fatal f))) r h = cc
settle-paths e (tried k (err (plain f))) r h =
    rw (← ok-injective h) (perm_last r.verified r.skipped_path r.failed_path e.path)

module _ (E : Env) (deps : Deps) (input : Input) where
  one_file-settle :
      (stop : Option Text) (n : ℕ) (t : ℤ) (i : ℕ) (e : FileEntry) (r : Report) (w : World E)
      {r' : Report}
      → (one_file E deps input stop n t i e r w).0 ≡ ok r'
      → (fate : Fate) × (settle e fate r ≡ ok r')
  unfolding one_file
  one_file-settle (some cause) n t i e r w h = absurd (ground arith)
  one_file-settle none n t i e r w h = (_, h)

  -- Where the loop ends, over the entries that it had before it.
  abbrev Accounts : List FileEntry → Report → Option IngestError × Report × World E → Type 0
  Accounts entries r (x, r', w) =
      IsCounted r' × (x ≡ none → Perm (paths r') (map (λ e. e.path) entries ++ paths r))

  carry_on-Accounts :
      (o : Outcome IngestError Report) (e : FileEntry) (entries : List FileEntry) (r : Report)
      (w : World E) (next : Report → Option IngestError × Report × World E)
      → IsCounted r
      → ((r' : Report) → o ≡ ok r' → (fate : Fate) × (settle e fate r ≡ ok r'))
      → ((r' : Report) → IsCounted r' → Accounts entries r' (next r'))
      → Accounts (e ∷ entries) r (carry_on E deps input o r w next)
  carry_on-Accounts (err x) e entries r w next c settled k = (c, λ h. absurd (ground arith))
  carry_on-Accounts (ok r') e entries r w next c settled k =
      let (fate, s) = settled r' refl in
      let (c', all) = k r' (settle-IsCounted e fate r s c) in
      (
        c',
        λ h. Perm.trans (all h) (
            Perm.trans
              (Perm.append_left (map (λ (f : FileEntry). f.path) entries) (settle-paths e fate r s))
              (perm_middle (map (λ (f : FileEntry). f.path) entries) (paths r))),
      )

  ingest_from-Accounts :
      (stopped : ℕ → Option Text) (n : ℕ) (t : ℤ) (i : ℕ) (entries : List FileEntry) (r : Report)
      (w : World E)
      → IsCounted r
      → Accounts entries r (ingest_from E deps input stopped n t i entries r w)
  unfolding ingest_from
  ingest_from-Accounts stopped n t i [] r w c = (c, λ h. Perm.refl (paths r))
  ingest_from-Accounts stopped n t i (e ∷ entries) r w c =
      carry_on-Accounts _ e entries r _ _ c (λ r' h. one_file-settle (stopped i) n t i e r w h)
        (λ r' c'. ingest_from-Accounts stopped n t (i + 1) entries r' _ c')

  finish-Accounts :
      (n : ℕ) (t : ℤ) (entries : List FileEntry) (r : Report)
      (x : Option IngestError × Report × World E)
      → Accounts entries r x
      → Accounts entries r (finish E deps input n t x)
  unfolding finish
  finish-Accounts n t entries r (some cause, r', w) a = a
  finish-Accounts n t entries r (none, r', w) a = a

  -- After an ingest, whether it ends well or not, the counters agree with the lists of paths; and
  -- after one that ends well, the verified, skipped and failed paths together are the paths of the
  -- scanned files, each as often.
  pub report_accounts :
      (stopped : ℕ → Option Text) (w : World E) (entries : List FileEntry)
      → scan input.card_fs.walk ≡ ok entries
      → let (x, r, w') = ingest E deps input stopped w in
        IsCounted r × (x ≡ none → Perm (paths r) (map (λ e. e.path) entries))
  unfolding ingest
  report_accounts stopped w entries scanned =
      let n = length entries in
      let t = sum_sizes (pos 0) entries in
      let loop = ingest_from-Accounts stopped n t 0 entries empty_report w (omega arith) in
      let (counted, all) = finish-Accounts n t entries empty_report _ loop in
      rw (scanned, ingest) (counted, λ h. rw append-nil at (all h))
