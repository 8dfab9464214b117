-- ===== src/Pipeline/Resume.antt =====
-- A card that is put in again: what the index of verified hashes saves an ingest, as the comment of
-- internal/store/store.go promises.
mod Known
pub mod New
mod Samples
use cardingest.Base.{
  ℕ, ◌+◌, ◌%◌, ◌^◌, ◌≤◌, ◌≡◌, ◌≢◌, refl, ap, ◌∙◌, List, [], ◌∷◌, Option, none, some, Outcome, ok,
  err, Bool, true, false, not, All, arith, ok-injective, if◌then◌else◌, inl, inr, Bool-cases,
  list_eq, nat_eq,
}
use cardingest.Base.Exec.{◌>>=◌}
use cardingest.Base.Int.{ℤ}
use cardingest.Base.Strings.{Text}
use cardingest.Card.{FileEntry}
use cardingest.Pipeline.{Bytes, Env, Deps, Input, tmp_dir}
use cardingest.Pipeline.Copy.{
  World, Failure, fatal, plain, tmp_path, next_tmp, on_dest, on_error, discard, or_discard,
  stream_copy, ask_index, drop_copy, dedupe_or_land, copy_to, copy_and_verify, dest_path,
}
use cardingest.Pipeline.Ingest.{
  Report, IngestError, Fate, passed_over, tried, settle, attempt, wanted, one_file, carry_on,
  ingest_from, finish, ingest, scan, note_landed, empty_report, note_skipped, note_failed,
  emit_progress,
}
use cardingest.Pipeline.Frame.{
  IsLawful, read-copy_and_verify, Holds-or_discard, Holds-stream_copy, Holds-drop_copy,
}
use cardingest.Pipeline.Landing.{card_hash}
use cardingest.Pipeline.Noted.{index-stream_copy, hash-stream_copy}
use cardingest.Pipeline.Safety.{IsLawfulIndex, IsFinal, GoesElsewhere, seen-copy}
use cardingest.Pipeline.Resume.New.{
  is_copy, one_if, bounded, settle-copied, is_new, count_new, Avoided, Extends, SparesAll,
  attempt_lem,
}
use cardingest.Pipeline.Safety.Ingest.{dest-emit_progress}

module _ (E : Env) (deps : Deps) (input : Input) (i : E.index.State) (L : IsLawful E.dest)
    (I : IsLawfulIndex E.index) where
  one_file_lem :
      (stop : Option Text) (n : ℕ) (t : ℤ) (k : ℕ) (e : FileEntry) (r : Report) (w : World E)
      → Extends E deps input i w.index
      → let (o, w') = one_file E deps input stop n t k e r w in
        Extends E deps input i w'.index
        × ((r' : Report) → o ≡ ok r' → r'.copied ≤ r.copied + one_if (is_new E deps input i e))
        × SparesAll E deps input i w w' (e ∷ [])
  unfolding one_file
  one_file_lem (some cause) n t k e r w x = (x, λ r' h. cc, λ q f a. refl)
  one_file_lem none n t k e r w x =
      let w₀ = emit_progress E deps input k n r.bytes_copied t e.path w in
      let (same_dest, same_index) =
        dest-emit_progress E L I deps input k n r.bytes_copied t e.path w in
      let (kept, only_new, spared) =
        attempt_lem E deps input i L I e (wanted E deps input e) w₀ refl (rw same_index x) in
      let fate = (attempt E deps input e (wanted E deps input e) w₀).0 in
      (
        kept,
        λ r' h.
            bounded (is_copy fate) (is_new E deps input i e) _ _ (settle-copied e fate r h)
              only_new,
        λ q f a. spared q f a ∙ ap (λ (d : E.dest.State). E.dest.read d q) same_dest,
      )

  -- The loop from a file on.
  abbrev Resumes : World E → ℕ → List FileEntry → Option IngestError × Report × World E → Type 0
  Resumes w bound entries (x, r, w') = (r.copied ≤ bound) × SparesAll E deps input i w w' entries

  carry_on-Resumes :
      (o : Outcome IngestError Report) (e : FileEntry) (entries : List FileEntry) (r : Report)
      (w w' : World E) (next : Report → Option IngestError × Report × World E)
      → ((r' : Report) → o ≡ ok r' → r'.copied ≤ r.copied + one_if (is_new E deps input i e))
      → SparesAll E deps input i w w' (e ∷ [])
      → ((r' : Report)
          → Resumes w' (r'.copied + count_new E deps input i entries) entries (next r'))
      → Resumes w
          (r.copied + count_new E deps input i (e ∷ entries))
          (e ∷ entries)
          (carry_on E deps input o r w' next)
  carry_on-Resumes (err cause) e entries r w w' next step spared later =
      (omega arith, λ q f a. spared q f (a.0, tt))
  carry_on-Resumes (ok r') e entries r w w' next step spared later = (
    omega (arith, step r' refl, (later r').0),
    λ q f a. (later r').1 q f a.1 ∙ spared q f (a.0, tt),
  )

  ingest_from-Resumes :
      (stopped : ℕ → Option Text) (n : ℕ) (t : ℤ) (k : ℕ) (entries : List FileEntry) (r : Report)
      (w : World E)
      → Extends E deps input i w.index
      → Resumes w
          (r.copied + count_new E deps input i entries)
          entries
          (ingest_from E deps input stopped n t k entries r w)
  unfolding ingest_from
  ingest_from-Resumes stopped n t k [] r w x = (omega arith, λ q f a. refl)
  ingest_from-Resumes stopped n t k (e ∷ entries) r w x =
      let (kept, step, spared) = one_file_lem (stopped k) n t k e r w x in
      carry_on-Resumes _ e entries r w _ _ step spared
        λ r'. ingest_from-Resumes stopped n t (k + 1) entries r' _ kept

  finish-Resumes :
      (n : ℕ) (t : ℤ) (w : World E) (bound : ℕ) (entries : List FileEntry)
      (x : Option IngestError × Report × World E)
      → Resumes w bound entries x
      → Resumes w bound entries (finish E deps input n t x)
  unfolding finish
  finish-Resumes n t w bound entries (some cause, r, w') h = h
  finish-Resumes n t w bound entries (none, r, w') h = (
    h.0,
    λ q f a.
        ap (λ (d : E.dest.State). E.dest.read d q)
          (dest-emit_progress E L I deps input n n r.bytes_copied t [] w').0
        ∙ h.1 q f a,
  )

  ingest-Resumes :
      (stopped : ℕ → Option Text) (w : World E) (entries : List FileEntry)
      → Extends E deps input i w.index
      → scan input.card_fs.walk ≡ ok entries
      → Resumes w
          (empty_report.copied + count_new E deps input i entries)
          entries
          (ingest E deps input stopped w)
  unfolding ingest
  ingest-Resumes stopped w entries x scanned =
      rw (scanned, ingest)
        (finish-Resumes _ _ w _ entries _
          (ingest_from-Resumes stopped _ _ 0 entries empty_report w x))

-- An ingest, whether it ends well or with an error, copies no more files than the wanted ones of which
-- the index did not say at its start that it has the hash. And every path of the destination to which
-- none of those goes, and which is no temporary file's of the slot, reads as it did: known content is
-- neither copied again nor put over anything.
pub ingest_resumes :
    (E : Env) (L : IsLawful E.dest) (I : IsLawfulIndex E.index) (deps : Deps) (input : Input)
    (stopped : ℕ → Option Text) (w : World E) (entries : List FileEntry)
    → scan input.card_fs.walk ≡ ok entries
    → let (x, r, w') = ingest E deps input stopped w in
      (r.copied ≤ count_new E deps input w.index entries)
      × ((q : Text)
          → IsFinal E deps input q
          → Avoided E deps input w.index q entries
          → E.dest.read w'.dest q ≡ E.dest.read w.dest q)
ingest_resumes E L I deps input stopped w entries scanned =
    let h = ingest-Resumes E deps input w.index L I stopped w entries (λ k s. s) scanned in
    (omega (arith, h.0), h.1)
