-- ===== src/Pipeline/Copy.antt =====
-- `copyAndVerify`, `streamCopy`, `hashFile` and `destPath` of internal/pipeline/pipeline.go.
use cardingest.Base.{ℕ, ◌+◌, ◌%◌, ◌^◌, Bool, true, false, List, ◌∷◌, ◌++◌, Option, none, some}
use cardingest.Base.{Outcome, ok, err, wrap, ◌==◌, list_eq, nat_eq, if◌then◌else◌}
use cardingest.Base.Exec.{Exec, pure, lift, ◌>>=◌, ◌>>◌}
use cardingest.Base.Strings.{Text, codes, join_path, decimal, replace_all, dir, base, hex}
use cardingest.Card.{FileEntry, format_date}
use cardingest.Pipeline.{Bytes, Env, Deps, Input, CardFs, Progress, tmp_dir}

-- Where a copy failed, with the error of the file system or the index.
pub data Cause : Type 0 where
  prepare_temp_dir open_card_file create_dest_temp copy flush_dest_temp : Text → Cause
  hash_index read_back create_dest_dir place_file record_hash : Text → Cause
  verify_mismatch : Text → Text → Cause

-- An error, wrapped by `fatal` or not.
pub data Failure : Type 0 where
  fatal : Cause → Failure
  plain : Cause → Failure

unfoldable pub is_fatal : Failure → Bool
is_fatal (fatal c) = true
is_fatal (plain c) = false

-- The pipeline's counter of temporary files, and the states of the parts that it writes to.
pub record World (E : Env) : Type 0 where
  pub dest : E.dest.State
  pub index : E.index.State
  pub seq : ℕ
  pub progress : List Progress

module _ (E : Env) where
  abbrev pub Run : Type 0 → Type 0
  Run A = Exec (World E) Failure A

  abbrev pub returned : Option Text → (Text → Failure) → Outcome Failure (Unit {0})
  returned none f = ok tt
  returned (some cause) f = err (f cause)

  -- One operation on the destination.
  unfoldable pub on_dest :
      (E.dest.State → Option Text × E.dest.State) → (Text → Failure) → Run (Unit {0})
  on_dest op f w = (returned (op w.dest).0 f, record w { dest = (op w.dest).1 })

  -- Dest.Remove, with its error dropped.
  unfoldable pub discard : Text → Run (Unit {0})
  discard p w = (ok tt, record w { dest = (E.dest.remove w.dest p).1 })

  abbrev pub cleaned :
      {A : Type 0}
      → (E.dest.State → Option Text × E.dest.State)
      → Outcome Failure A
      → World E
      → Outcome Failure A × World E
  cleaned op (ok a) w = (ok a, w)
  cleaned op (err e) w = (err e, record w { dest = (op w.dest).1 })

  -- On an error one more operation is made, its own error dropped, and the error returned.
  unfoldable pub on_error :
      {A : Type 0} → (E.dest.State → Option Text × E.dest.State) → Run A → Run A
  on_error op m w = cleaned op (m w).0 (m w).1

  abbrev pub or_discard : {A : Type 0} → Text → Run A → Run A
  or_discard p = on_error (λ d. E.dest.remove d p)

  -- fmt.Sprintf("%016x", h.Sum64())
  unfoldable pub hash_of : Bytes → Text
  hash_of b = hex 16 (E.sum64 b)

  unfoldable pub hash_file : Text → E.dest.State → Outcome Text Text
  hash_file p d = elim (E.dest.read d p) [ ok b ↦ ok (hash_of b) | err cause ↦ err cause ]

  -- io.Copy: what the reader delivers is written, and an error of either side is returned.
  unfoldable pub copy_bytes : Text → Bytes → Option Text → Run (Unit {0})
  copy_bytes dst bytes read_error = do
    on_dest (λ d. E.dest.write d dst bytes) (λ c. plain (copy c))
    lift (returned read_error (λ c. plain (copy c)))

  unfoldable pub stream_copy : CardFs → Text → Text → Run Text
  stream_copy card src dst = do
    lift (returned (card.open_file src) (λ c. plain (open_card_file c)))
    on_dest (λ d. E.dest.create d dst) (λ c. fatal (create_dest_temp c))
    on_error (λ d. E.dest.close d dst) (copy_bytes dst (card.content src).0 (card.content src).1)
    on_dest (λ d. E.dest.close d dst) (λ c. fatal (flush_dest_temp c))
    pure (hash_of (card.content src).0)

  -- The name of the n-th temporary file.
  unfoldable pub tmp_path : Text → ℕ → Text
  tmp_path slot n = join_path tmp_dir (codes "ingest-" ++ slot ++ b'-' ∷ decimal n)

  -- p.seq.Add(1), a uint64, and the name made from it.
  unfoldable pub next_tmp : Text → Run Text
  next_tmp slot w = let n = (w.seq + 1) % 2 ^ 64 in (ok (tmp_path slot n), record w { seq = n })

  -- Dest.Rename is preceded by the creation of the directory; nothing looks at the final path.
  unfoldable pub place : Text → Text → Run (Unit {0})
  place tmp final = do
    or_discard tmp (on_dest (λ d. E.dest.mkdir_all d (dir final)) (λ c. fatal (create_dest_dir c)))
    or_discard tmp (on_dest (λ d. E.dest.rename d tmp final) (λ c. fatal (place_file c)))

  -- Store.Seen
  unfoldable pub ask_index : Text → Run Bool
  ask_index hash w = (wrap (λ c. fatal (hash_index c)) (E.index.seen w.index hash), w)

  -- Store.MarkVerified
  unfoldable pub record_verified : Text → Run (Unit {0})
  record_verified hash w = (
    returned (E.index.mark_verified w.index hash).0 (λ c. fatal (record_hash c)),
    record w { index = (E.index.mark_verified w.index hash).1 },
  )

  -- The read-back: the landed bytes are hashed and the two hashes compared.
  unfoldable pub verify : Text → Text → Run (Unit {0})
  verify tmp hash w = (
    elim (hash_file tmp w.dest) [
      | err cause ↦ err (fatal (read_back cause))
      | ok landed ↦ if landed == hash then ok tt else err (plain (verify_mismatch hash landed))
    ],
    w,
  )

  -- What follows the dedupe test for content that is new: verify, place and record.
  unfoldable pub land : Text → Text → Text → Run Bool
  land tmp hash final = do
    or_discard tmp (verify tmp hash)
    place tmp final
    record_verified hash
    pure true

  -- Content that is known is not landed again.
  unfoldable pub drop_copy : Text → Run Bool
  drop_copy tmp = do discard tmp; pure false

  -- What follows the copy: the dedupe test and its two branches.
  unfoldable pub dedupe_or_land : Text → Text → Text → Run Bool
  dedupe_or_land tmp hash final = do
    known ← or_discard tmp (ask_index hash)
    if known then drop_copy tmp else land tmp hash final

module _ (E : Env) (deps : Deps) (input : Input) where
  unfoldable pub dest_path : FileEntry → Text → Text
  dest_path e category =
      let rel = replace_all deps.layout (codes "{category}") category in
      let date = format_date (deps.date_fn input.card_fs e) in
      join_path (replace_all rel (codes "{date}") date) (base e.path)

  unfoldable pub copy_to : FileEntry → Text → Text → Run E Bool
  copy_to e category tmp = do
    hash ← or_discard E tmp (stream_copy E input.card_fs e.path tmp)
    dedupe_or_land E tmp hash (dest_path e category)

  unfoldable pub copy_and_verify : FileEntry → Text → Run E Bool
  copy_and_verify e category = do
    on_dest E (λ d. E.dest.mkdir_all d tmp_dir) (λ c. fatal (prepare_temp_dir c))
    tmp ← next_tmp E input.slot
    copy_to e category tmp
