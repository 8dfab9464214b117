-- ===== src/Pipeline/Resume/Known.antt =====
-- The copy of content whose hash the index has, in internal/pipeline/pipeline.go.
use cardingest.Base.{
  ◌+◌, ◌%◌, ◌^◌, ◌≡◌, ◌≢◌, refl, ◌∙◌, Outcome, ok, err, Bool, true, arith, list_eq, nat_eq,
}
use cardingest.Base.Exec.{◌>>=◌}
use cardingest.Base.Strings.{Text}
use cardingest.Card.{FileEntry}
use cardingest.Pipeline.{Env, Deps, Input, tmp_dir}
use cardingest.Pipeline.Copy.{
  World, Failure, tmp_path, next_tmp, on_dest, on_error, discard, or_discard, stream_copy,
  ask_index, drop_copy, dedupe_or_land, copy_to, copy_and_verify, dest_path,
}
use cardingest.Pipeline.Frame.{IsLawful, Holds-or_discard, Holds-stream_copy, Holds-drop_copy}
use cardingest.Pipeline.Landing.{card_hash}
use cardingest.Pipeline.Noted.{index-stream_copy, hash-stream_copy}
use cardingest.Pipeline.Safety.{IsFinal}

module _ (E : Env) where
  -- Known content is dropped.
  dedupe_known :
      (tmp hash final : Text) (w : World E)
      → E.index.seen w.index hash ≡ ok true
      → dedupe_or_land E tmp hash final w ≡ drop_copy E tmp w
  unfolding dedupe_or_land ask_index on_error ◌>>=◌
  dedupe_known tmp hash final w h = rw h refl

  drop_copy-ne-true : (tmp : Text) (w : World E) → (drop_copy E tmp w).0 ≢ ok true
  unfolding drop_copy discard ◌>>=◌
  drop_copy-ne-true tmp w h = cc

  -- The copy of known content copies nothing, and leaves every file alone but its temporary one.
  abbrev IsSpared : World E → Text → Outcome Failure Bool × World E → Type 0
  IsSpared w tmp (o, w') =
      (o ≢ ok true) × ((q : Text) → tmp ≢ q → E.dest.read w'.dest q ≡ E.dest.read w.dest q)

  IsSpared-drop_copy :
      IsLawful E.dest → (tmp : Text) (w : World E) → IsSpared w tmp (drop_copy E tmp w)
  IsSpared-drop_copy L tmp w = (
    drop_copy-ne-true tmp w,
    λ q apart. (Holds-drop_copy E L q (E.dest.read w.dest q) tmp apart).at w refl,
  )

  module _ (L : IsLawful E.dest) (deps : Deps) (input : Input) (e : FileEntry) where
    IsSpared-copy_to :
        (category tmp : Text) (w : World E)
        → E.index.seen w.index (card_hash E input e.path) ≡ ok true
        → IsSpared w tmp (copy_to E deps input e category tmp w)
    unfolding copy_to ◌>>=◌
    IsSpared-copy_to category tmp w known = go copied.0 refl
      where
        copied : Outcome Failure Text × World E
        copied = or_discard E tmp (stream_copy E input.card_fs e.path tmp) w

        left : (q : Text) → tmp ≢ q → E.dest.read copied.1.dest q ≡ E.dest.read w.dest q
        left q apart =
            (Holds-or_discard E L q (E.dest.read w.dest q) tmp apart _
                (Holds-stream_copy E L q (E.dest.read w.dest q) tmp apart input.card_fs e.path)).at
              w refl

        go :
            (r : Outcome Failure Text)
            → copied.0 ≡ r
            → IsSpared w tmp (copy_to E deps input e category tmp w)
        go (err f) is = rw is ((λ h. cc), left)
        go (ok hash) is =
            let at_card = hash-stream_copy E input.card_fs e.path tmp hash w is in
            let same = index-stream_copy E input.card_fs e.path tmp w in
            let final = dest_path E deps input e category in
            let dropped = dedupe_known tmp hash final copied.1 (rw (same, at_card) known) in
            let (none_new, spared) = IsSpared-drop_copy L tmp copied.1 in
            rw (is, dropped) (none_new, λ q apart. spared q apart ∙ left q apart)

    pub IsSpared-copy_and_verify :
        (category : Text) (w : World E)
        → E.index.seen w.index (card_hash E input e.path) ≡ ok true
        → ((copy_and_verify E deps input e category w).0 ≢ ok true)
          × ((q : Text)
              → IsFinal E deps input q
              → E.dest.read (copy_and_verify E deps input e category w).1.dest q
                ≡ E.dest.read w.dest q)
    unfolding copy_and_verify next_tmp on_dest ◌>>=◌
    IsSpared-copy_and_verify category w known =
        let n = (w.seq + 1) % 2 ^ 64 in
        let tmp = tmp_path E input.slot n in
        let w₀ = record w { dest = (E.dest.mkdir_all w.dest tmp_dir).1; seq = n } in
        let (none_new, spared) = IsSpared-copy_to category tmp w₀ known in
        (
          λ h. ground (arith, none_new, h),
          λ q final. ground (arith, spared q (final n), L.read-mkdir_all w.dest tmp_dir q),
        )
