-- ===== src/Pipeline/Steps.antt =====
-- `Ingest` of internal/pipeline/pipeline.go as the steps that it makes on what the slots share: the
-- destination, the index, the counter of temporary files and the progress reports. Each call of the
-- destination or of the store is one step, and the goroutines of other slots may step in between.
pub mod Runs
pub mod Own
pub mod Rules
pub mod Copying
pub mod Placing
pub mod Deduping
pub mod Safety
pub mod Wanted
pub mod Rounds
pub mod Loop
pub mod Together
pub mod Samples
use cardingest.Base.{ℕ, ◌+◌, Bool, true, false, List, [], ◌∷◌, Option, none, some, Outcome, ok, err}
use cardingest.Base.{if◌then◌else◌, length}
use cardingest.Base.Int.{ℤ, pos}
use cardingest.Base.Strings.{Text, dir}
use cardingest.Base.Threads.{Prog, return, act, atom, bind, ◌>>=◌, ◌>>◌}
use cardingest.Card.{FileEntry}
use cardingest.Pipeline.{Env, Deps, Input, CardFs, tmp_dir}
use cardingest.Pipeline.Copy.{Failure, fatal, plain, World, returned, on_dest, discard, hash_of}
use cardingest.Pipeline.Copy.{open_card_file, create_dest_temp, copy, flush_dest_temp}
use cardingest.Pipeline.Copy.{create_dest_dir, place_file, prepare_temp_dir}
use cardingest.Pipeline.Copy.{next_tmp, ask_index, record_verified, verify, dest_path}
use cardingest.Pipeline.Ingest.{Report, IngestError, Fate, passed_over, tried, settle, wanted}
use cardingest.Pipeline.Ingest.{scan_card, cancelled, empty_report, emit_progress, scan, sum_sizes}

-- What Ingest returns: the report comes beside an error too.
abbrev pub Ending : Type 0
Ending = Option IngestError × Report

module _ (E : Env) where
  abbrev pub Steps : Type 0 → Type 0
  Steps A = Prog (World E) (Outcome Failure A)

  abbrev pub cleaned_steps :
      {A : Type 0} → (E.dest.State → Option Text × E.dest.State) → Outcome Failure A → Steps A
  cleaned_steps op (ok a) = return (ok a)
  cleaned_steps op (err e) = act (λ w. record w { dest = (op w.dest).1 }) λ w. return (err e)

  -- `on_error`: the operation after an error is a step of its own.
  abbrev pub on_error_steps :
      {A : Type 0} → (E.dest.State → Option Text × E.dest.State) → Steps A → Steps A
  on_error_steps op p = bind p (cleaned_steps op)

  abbrev pub or_discard_steps : {A : Type 0} → Text → Steps A → Steps A
  or_discard_steps p = on_error_steps λ d. E.dest.remove d p

  -- streamCopy: io.Copy writes the temporary file in one step, since no one else touches it.
  unfoldable pub stream_copy_steps : CardFs → Text → Text → Steps Text
  stream_copy_steps card src dst = do
    return (returned E (card.open_file src) (λ c. plain (open_card_file c)))
    atom (on_dest E (λ d. E.dest.create d dst) (λ c. fatal (create_dest_temp c)))
    on_error_steps (λ d. E.dest.close d dst)
        do
          atom (on_dest E (λ d. E.dest.write d dst (card.content src).0) (λ c. plain (copy c)))
          return (returned E (card.content src).1 (λ c. plain (copy c)))
    atom (on_dest E (λ d. E.dest.close d dst) (λ c. fatal (flush_dest_temp c)))
    return (ok (hash_of E (card.content src).0))

  unfoldable pub place_steps : Text → Text → Steps (Unit {0})
  place_steps tmp final = do
    or_discard_steps tmp
        (atom (on_dest E (λ d. E.dest.mkdir_all d (dir final)) (λ c. fatal (create_dest_dir c))))
    or_discard_steps tmp
        (atom (on_dest E (λ d. E.dest.rename d tmp final) (λ c. fatal (place_file c))))

  unfoldable pub land_steps : Text → Text → Text → Steps Bool
  land_steps tmp hash final = do
    or_discard_steps tmp (atom (verify E tmp hash))
    place_steps tmp final
    atom (record_verified E hash)
    return (ok true)

  unfoldable pub drop_steps : Text → Steps Bool
  drop_steps tmp = do atom (discard E tmp); return (ok false)

  unfoldable pub dedupe_steps : Text → Text → Text → Steps Bool
  dedupe_steps tmp hash final = do
    known ← or_discard_steps tmp (atom (ask_index E hash))
    if known then drop_steps tmp else land_steps tmp hash final

module _ (E : Env) (deps : Deps) (input : Input) where
  unfoldable pub copy_to_steps : FileEntry → Text → Text → Steps E Bool
  copy_to_steps e category tmp = do
    hash ← or_discard_steps E tmp (stream_copy_steps E input.card_fs e.path tmp)
    dedupe_steps E tmp hash (dest_path E deps input e category)

  -- copyAndVerify
  unfoldable pub copy_steps : FileEntry → Text → Steps E Bool
  copy_steps e category = do
    atom (on_dest E (λ d. E.dest.mkdir_all d tmp_dir) (λ c. fatal (prepare_temp_dir c)))
    tmp ← atom (next_tmp E input.slot)
    copy_to_steps e category tmp

  abbrev pub attempt_steps : FileEntry → Option Text → Prog (World E) Fate
  attempt_steps e none = return passed_over
  attempt_steps e (some category) = bind (copy_steps e category) λ r. return (tried category r)

  -- One round of the loop.
  abbrev pub one_file_steps :
      Option Text → ℕ → ℤ → ℕ → FileEntry → Report → Prog (World E) (Outcome IngestError Report)
  one_file_steps (some cause) total_files total_bytes i e r = return (err (cancelled cause))
  one_file_steps none total_files total_bytes i e r =
      act (emit_progress E deps input i total_files r.bytes_copied total_bytes e.path)
        λ w. bind (attempt_steps e (wanted E deps input e)) λ fate. return (settle e fate r)

  abbrev pub carry_on_steps :
      Report → (Report → Prog (World E) Ending) → Outcome IngestError Report → Prog (World E) Ending
  carry_on_steps r next (err cause) = return (some cause, r)
  carry_on_steps r next (ok r') = next r'

  unfoldable pub loop_steps :
      (ℕ → Option Text) → ℕ → ℤ → ℕ → List FileEntry → Report → Prog (World E) Ending
  loop_steps stopped total_files total_bytes i [] r = return (none, r)
  loop_steps stopped total_files total_bytes i (e ∷ entries) r =
      bind (one_file_steps (stopped i) total_files total_bytes i e r)
        (carry_on_steps r (loop_steps stopped total_files total_bytes (i + 1) entries))

  abbrev pub finish_steps : ℕ → ℤ → Ending → Prog (World E) Ending
  finish_steps total_files total_bytes (some cause, r) = return (some cause, r)
  finish_steps total_files total_bytes (none, r) =
      act (emit_progress E deps input total_files total_files r.bytes_copied total_bytes [])
        λ w. return (none, r)

  -- Ingest
  unfoldable pub ingest_steps : (ℕ → Option Text) → Prog (World E) Ending
  unfolding scan sum_sizes
  ingest_steps stopped = elim (scan input.card_fs.walk) [
    | err cause ↦ return (some (scan_card cause), empty_report)
    | ok entries ↦
        let total_files = length entries in
        let total_bytes = sum_sizes (pos 0) entries in
        bind (loop_steps stopped total_files total_bytes 0 entries empty_report)
          (finish_steps total_files total_bytes)
  ]
