-- ===== src/Pipeline/Resume/Samples.antt =====
-- A card that is ingested twice.
use cardingest.Base.{◌≡◌, ◌≤◌, refl, none, [], ◌∷◌, list_eq, nat_eq}
use cardingest.Base.Exec.{◌>>=◌}
use cardingest.Base.Int.{int64, ◌+ℤ◌}
use cardingest.Base.Maps.{lookup, insert, remove}
use cardingest.Base.Strings.{Text, to_lower, ext, base, dir, join_path, replace_all, decimal, hex}
use cardingest.Card.{format_date}
use cardingest.Rules.{decide}
use cardingest.Pipeline.Category.{categorize, scan_exts}
use cardingest.Pipeline.Copy.{
  World, tmp_path, dest_path, copy_and_verify, hash_of, copy_to, dedupe_or_land, land, verify,
  hash_file, place, record_verified, drop_copy, discard, ask_index, next_tmp, stream_copy,
  copy_bytes, on_dest, on_error,
}
use cardingest.Pipeline.Ingest.{ingest, ingest_from, one_file, settle, wanted}
use cardingest.Pipeline.Memory.{memory-IsLawful, hashes-IsLawful}
use cardingest.Pipeline.Resume.{ingest_resumes}
use cardingest.Pipeline.Resume.New.{count_new, Avoided}
use cardingest.Pipeline.Safety.{IsFinal}
use cardingest.Pipeline.Samples.{env, deps, small, start, first, thumbnail, small_scan}

-- What the first ingest leaves.
abbrev again : World env
again = (ingest env deps small (λ i. none) start).2

-- The picture of the card is new at first, and known after the ingest.
known_run :
    (count_new env deps small start.index (first ∷ thumbnail ∷ []) ≡ 1)
    × (count_new env deps small again.index (first ∷ thumbnail ∷ []) ≡ 0)
unfolding copy_and_verify copy_to dedupe_or_land land verify hash_file hash_of place record_verified
    drop_copy discard ask_index next_tmp tmp_path stream_copy copy_bytes on_dest on_error ◌>>=◌
    dest_path replace_all join_path base dir format_date decimal hex list_eq nat_eq lookup insert
    remove ingest ingest_from one_file wanted settle decide categorize scan_exts to_lower ext int64
    ◌+ℤ◌
known_run = (refl, refl)

ingest_resumes_example :
    let (x, r, w') = ingest env deps small (λ i. none) again in
    (r.copied ≤ count_new env deps small again.index (first ∷ thumbnail ∷ []))
    × ((q : Text)
        → IsFinal env deps small q
        → Avoided env deps small again.index q (first ∷ thumbnail ∷ [])
        → env.dest.read w'.dest q ≡ env.dest.read again.dest q)
ingest_resumes_example =
    ingest_resumes env memory-IsLawful hashes-IsLawful deps small (λ i. none) again
      (first ∷ thumbnail ∷ []) small_scan
