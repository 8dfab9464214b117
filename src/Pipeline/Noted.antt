-- ===== src/Pipeline/Noted.antt =====
-- What a copy does to the index, on every path through it, the error paths included.
use cardingest.Base.{◌+◌, ◌%◌, ◌^◌, ◌≡◌, refl, ◌∙◌, none}
use cardingest.Base.{Outcome, ok, err, arith, list_eq, nat_eq, ◌⊎◌}
use cardingest.Base.Exec.{◌>>=◌}
use cardingest.Base.Strings.{Text, dir}
use cardingest.Card.{FileEntry}
use cardingest.Pipeline.{Bytes, Env, Deps, Input, CardFs, tmp_dir}
use cardingest.Pipeline.Copy.{Failure, World, on_dest, on_error, or_discard, discard, copy_bytes}
use cardingest.Pipeline.Copy.{stream_copy, tmp_path, next_tmp, place, ask_index, record_verified}
use cardingest.Pipeline.Copy.{verify, land, drop_copy, dest_path, copy_and_verify, copy_to, hash_of}
use cardingest.Pipeline.Copy.{dedupe_or_land, hash_file}
use cardingest.Pipeline.Frame.{IsLawful}
use cardingest.Pipeline.Landing.{Holds, card_hash}

module _ (E : Env) where
  -- The index is as it was, or the hash was entered after a file with that hash was placed.
  abbrev pub Noted : E.index.State → World E → Text → Text → Type 0
  Noted i w' final hash =
      (w'.index ≡ i) ⊎ (Holds E w'.dest final hash × (w'.index ≡ (E.index.mark_verified i hash).1))

  hash_file-eq-ok :
      (p hash : Text) (d : E.dest.State)
      → hash_file E p d ≡ ok hash
      → (b : Bytes) × (E.dest.read d p ≡ ok b) × (hash_of E b ≡ hash)
  unfolding hash_file
  hash_file-eq-ok p hash d h = go (E.dest.read d p) refl
    where
      go :
          (r : Outcome Text Bytes)
          → E.dest.read d p ≡ r
          → (b : Bytes) × (E.dest.read d p ≡ ok b) × (hash_of E b ≡ hash)
      go (ok b) e = (b, e, ground arith)
      go (err c) e = absurd (ground arith)

  Holds-placed :
      IsLawful E.dest
      → (tmp hash final : Text) (d : E.dest.State) → hash_file E tmp d ≡ ok hash
      → (E.dest.rename (E.dest.mkdir_all d (dir final)).1 tmp final).0 ≡ none
      → Holds E (E.dest.rename (E.dest.mkdir_all d (dir final)).1 tmp final).1 final hash
  Holds-placed L tmp hash final d h r =
      let (b, there, same) = hash_file-eq-ok tmp hash d h in
      record {
        landed = b;
        stored = L.read-rename _ tmp final r ∙ L.read-mkdir_all d (dir final) tmp ∙ there;
        hashed = same;
      }

  Noted-land :
      IsLawful E.dest
      → (tmp hash final : Text) (w : World E) → Noted w.index (land E tmp hash final w).1 final hash
  unfolding land verify place record_verified on_dest on_error ◌>>=◌
  Noted-land L tmp hash final w = ground (arith, Holds-placed L tmp hash final w.dest)

  Noted-dedupe_or_land :
      IsLawful E.dest
      → (tmp hash final : Text) (w : World E)
      → Noted w.index (dedupe_or_land E tmp hash final w).1 final hash
  unfolding dedupe_or_land ask_index drop_copy discard on_error ◌>>=◌
  Noted-dedupe_or_land L tmp hash final w = ground (arith, Noted-land L tmp hash final w)

  pub index-stream_copy :
      (card : CardFs) (src tmp : Text) (w : World E)
      → (or_discard E tmp (stream_copy E card src tmp) w).1.index ≡ w.index
  unfolding stream_copy copy_bytes on_dest on_error ◌>>=◌
  index-stream_copy card src tmp w = ground arith

  pub hash-stream_copy :
      (card : CardFs) (src tmp hash : Text) (w : World E)
      → (or_discard E tmp (stream_copy E card src tmp) w).0 ≡ ok hash
      → hash ≡ hash_of E (card.content src).0
  unfolding stream_copy copy_bytes on_dest on_error ◌>>=◌
  hash-stream_copy card src tmp hash w h = ground arith

  module _ (L : IsLawful E.dest) (deps : Deps) (input : Input) where
    Noted-copy_to :
        (e : FileEntry) (category tmp : Text) (w : World E)
        → Noted w.index
            (copy_to E deps input e category tmp w).1
            (dest_path E deps input e category)
            (card_hash E input e.path)
    unfolding copy_to ◌>>=◌
    Noted-copy_to e category tmp w =
        go (or_discard E tmp (stream_copy E input.card_fs e.path tmp) w).0 refl
      where
        go :
            (r : Outcome Failure Text)
            → (or_discard E tmp (stream_copy E input.card_fs e.path tmp) w).0 ≡ r
            → Noted w.index
                (copy_to E deps input e category tmp w).1
                (dest_path E deps input e category)
                (card_hash E input e.path)
        go (err f) p = ground (arith, index-stream_copy input.card_fs e.path tmp w)
        go (ok hash) p = ground (
          arith,
          index-stream_copy input.card_fs e.path tmp w,
          hash-stream_copy input.card_fs e.path tmp hash w p,
          Noted-dedupe_or_land L tmp hash (dest_path E deps input e category)
              (or_discard E tmp (stream_copy E input.card_fs e.path tmp) w).1,
        )

    -- Whatever becomes of a copy, the index is as it was, or the hash of the card's bytes was
    -- entered after bytes with that hash were placed at the final path.
    pub Noted-copy_and_verify :
        (e : FileEntry) (category : Text) (w : World E)
        → Noted w.index
            (copy_and_verify E deps input e category w).1
            (dest_path E deps input e category)
            (card_hash E input e.path)
    unfolding copy_and_verify next_tmp on_dest ◌>>=◌
    Noted-copy_and_verify e category w = ground (
      arith,
      Noted-copy_to e category (tmp_path E input.slot ((w.seq + 1) % 2 ^ 64))
          (record w { dest = (E.dest.mkdir_all w.dest tmp_dir).1; seq = (w.seq + 1) % 2 ^ 64 }),
    )
