-- ===== src/Pipeline/Landing.antt =====
-- What a successful copy means: the inversion of each stage.
use cardingest.Base.{sym, [], ap, ◌+◌, ◌%◌, ◌^◌, Bool, true, false, ◌≡◌, refl, ◌∙◌, Option, none}
use cardingest.Base.{Outcome, ok, err, arith, list_eq, nat_eq}
use mathlib.Core.Path.{subst}
use cardingest.Base.Exec.{bind-eq-ok, ◌>>=◌}
use cardingest.Base.Strings.{Text, dir}
use cardingest.Card.{FileEntry}
use cardingest.Pipeline.{Bytes, Env, Deps, Input, CardFs, tmp_dir}
use cardingest.Pipeline.Copy.{Failure, World, Run, on_dest, on_error, or_discard, discard}
use cardingest.Pipeline.Copy.{
  copy_bytes, stream_copy, tmp_path, next_tmp, place, ask_index, cleaned,
}
use cardingest.Pipeline.Copy.{
  record_verified, verify, land, drop_copy, dest_path, copy_and_verify, copy_to,
}
use cardingest.Pipeline.Copy.{dedupe_or_land}
use cardingest.Pipeline.Copy.{hash_of, hash_file}
use cardingest.Pipeline.Frame.{IsLawful}

abbrev bytes_of : Outcome Text Bytes → Bytes
bytes_of (ok b) = b
bytes_of (err e) = []

-- The hash of what the card delivers for a file.
abbrev pub card_hash : Env → Input → Text → Text
card_hash E input p = hash_of E (input.card_fs.content p).0

module _ (E : Env) where
  cleaned-eq-ok :
      {A : Type 0} (op : E.dest.State → Option Text × E.dest.State) (r : Outcome Failure A)
      (w : World E) {a : A}
      → (cleaned E op r w).0 ≡ ok a
      → (r ≡ ok a) × ((cleaned E op r w).1 ≡ w)
  cleaned-eq-ok op (ok a) w h = (h, refl)
  cleaned-eq-ok op (err e) w h = cc

  on_error-eq-ok :
      {A : Type 0} (op : E.dest.State → Option Text × E.dest.State) (m : Run E A) (w : World E)
      {a : A}
      → (on_error E op m w).0 ≡ ok a
      → ((m w).0 ≡ ok a) × ((on_error E op m w).1 ≡ (m w).1)
  unfolding on_error
  on_error-eq-ok op m w h = cleaned-eq-ok op (m w).0 (m w).1 h

  -- The file was opened and read to its end, and the hash is that of its bytes.
  pub record WasRead (card : CardFs) (src hash : Text) : Type 0 where
    pub opened : card.open_file src ≡ none
    pub complete : (card.content src).1 ≡ none
    pub hashed : hash ≡ hash_of E (card.content src).0

  pub stream_copy-eq-ok :
      (card : CardFs) (src tmp : Text) (w : World E) {hash : Text}
      → (stream_copy E card src tmp w).0 ≡ ok hash
      → WasRead card src hash × ((stream_copy E card src tmp w).1.index ≡ w.index)
  unfolding stream_copy copy_bytes on_dest on_error ◌>>=◌
  stream_copy-eq-ok card src tmp w h = (ground arith, ground arith)

  -- The destination holds, at the path, bytes with the hash.
  pub record Holds (d : E.dest.State) (final hash : Text) : Type 0 where
    pub landed : Bytes
    pub stored : E.dest.read d final ≡ ok landed
    pub hashed : hash_of E landed ≡ hash

  -- New content was verified, placed and entered in the index.
  pub record WasLanded (i : E.index.State) (w' : World E) (final hash : Text) : Type 0 where
    pub placed : Holds w'.dest final hash
    pub marked : (E.index.mark_verified i hash).0 ≡ none
    pub entered : w'.index ≡ (E.index.mark_verified i hash).1

  -- A read-back that returned has found bytes with the hash.
  pub verify-eq-ok :
      (tmp hash : Text) (w : World E) {u : Unit {0}}
      → (verify E tmp hash w).0 ≡ ok u
      → Holds w.dest tmp hash
  unfolding verify hash_file
  verify-eq-ok tmp hash w h = record {
    landed = bytes_of (E.dest.read w.dest tmp);
    stored = ground arith;
    hashed = ground arith;
  }

  land-eq-ok :
      IsLawful E.dest
      → (tmp hash final : Text) (w : World E) {b : Bool} → (land E tmp hash final w).0 ≡ ok b
      → (b ≡ true) × WasLanded w.index (land E tmp hash final w).1 final hash
  unfolding land verify hash_file place record_verified on_dest on_error ◌>>=◌
  land-eq-ok L tmp hash final w h =
      let d = (E.dest.mkdir_all w.dest (dir final)).1 in
      (
        ground arith,
        record {
          placed = record {
            landed = bytes_of (E.dest.read w.dest tmp);
            stored =
                ground (arith, L.read-mkdir_all w.dest (dir final) tmp, L.read-rename d tmp final);
            hashed = ground arith;
          };
          marked = ground arith;
          entered = ground arith;
        },
      )

  -- A copy that returned: new content has landed, or known content was left where it is.
  abbrev pub Settled : E.index.State → World E → Text → Text → Bool → Type 0
  Settled i w' final hash true = WasLanded i w' final hash
  Settled i w' final hash false = (E.index.seen i hash ≡ ok true) × (w'.index ≡ i)

  dedupe_or_land-eq-ok :
      IsLawful E.dest
      → (tmp hash final : Text) (w : World E) (b : Bool)
      → (dedupe_or_land E tmp hash final w).0 ≡ ok b
      → Settled w.index (dedupe_or_land E tmp hash final w).1 final hash b
  unfolding dedupe_or_land ask_index drop_copy discard on_error ◌>>=◌
  dedupe_or_land-eq-ok L tmp hash final w true h =
      ground (arith, land-eq-ok L tmp hash final w {b = true})
  dedupe_or_land-eq-ok L tmp hash final w false h =
      ground (arith, land-eq-ok L tmp hash final w {b = false})

  module _ (L : IsLawful E.dest) (deps : Deps) (input : Input) where
    copy_to-eq-ok :
        (e : FileEntry) (category tmp : Text) (w : World E) (b : Bool)
        → (copy_to E deps input e category tmp w).0 ≡ ok b
        → (hash : Text) × WasRead input.card_fs e.path hash
          × Settled w.index
              (copy_to E deps input e category tmp w).1
              (dest_path E deps input e category)
              hash
              b
    unfolding copy_to
    copy_to-eq-ok e category tmp w b h =
        let (hash, p, q, final_state) = bind-eq-ok _ _ w h in
        let (r, same) = on_error-eq-ok _ _ w p in
        let (read, index) = stream_copy-eq-ok input.card_fs e.path tmp w r in
        let start = (or_discard E tmp (stream_copy E input.card_fs e.path tmp) w).1 in
        let final = dest_path E deps input e category in
        (
          hash,
          read,
          rw final_state (
              subst (λ i. Settled i (dedupe_or_land E tmp hash final start).1 final hash b)
                (ap (λ v. v.index) same ∙ index) (dedupe_or_land-eq-ok L tmp hash final start b q)),
        )

    -- The world in which the copy starts, once the temporary directory is there.
    abbrev started : World E → World E
    started w = record w { dest = (E.dest.mkdir_all w.dest tmp_dir).1; seq = (w.seq + 1) % 2 ^ 64 }

    copy_and_verify-copy_to :
        (e : FileEntry) (category : Text) (w : World E) (b : Bool)
        → (copy_and_verify E deps input e category w).0 ≡ ok b
        → copy_and_verify E deps input e category w
          ≡ copy_to E deps input e category (tmp_path E input.slot (started w).seq) (started w)
    unfolding copy_and_verify next_tmp on_dest ◌>>=◌
    copy_and_verify-copy_to e category w b h = ground arith

    -- A copy that returns has read its file to the end, without an error. If it reports a new
    -- copy, the final path holds bytes with the hash of the card's bytes, and that hash has been
    -- entered in the index; if not, the index had that hash already and is as it was.
    pub copy_and_verify-eq-ok :
        (e : FileEntry) (category : Text) (w : World E) (b : Bool)
        → (copy_and_verify E deps input e category w).0 ≡ ok b
        → (input.card_fs.open_file e.path ≡ none)
          × ((input.card_fs.content e.path).1 ≡ none)
          × Settled w.index
              (copy_and_verify E deps input e category w).1
              (dest_path E deps input e category)
              (card_hash E input e.path)
              b
    copy_and_verify-eq-ok e category w b h =
        let run = copy_and_verify-copy_to e category w b h in
        let final = dest_path E deps input e category in
        let (hash, read, settled) =
          copy_to-eq-ok e category (tmp_path E input.slot (started w).seq) (started w) b
            (sym (ap (λ r. r.0) run) ∙ h) in
        (
          read.opened,
          read.complete,
          rw run (
              subst
                (λ k.
                  Settled w.index
                    (copy_to E deps input e category (tmp_path E input.slot (started w).seq)
                      (started w)).1
                    final k b)
                read.hashed settled),
        )
