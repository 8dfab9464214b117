-- ===== src/Pipeline/Collision.antt =====
-- Two files of one card with the same final path: nothing looks at that path before the rename.
use cardingest.Base.{◌≡◌, ◌≢◌, ◌∙◌, sym, ap, true, ok, ok-injective}
use cardingest.Card.{FileEntry}
use cardingest.Base.Strings.{Text}
use cardingest.Pipeline.{Env, Deps, Input}
use cardingest.Pipeline.Copy.{World, dest_path, copy_and_verify, hash_of}
use cardingest.Pipeline.Frame.{IsLawful}
use cardingest.Pipeline.Landing.{Holds, card_hash, copy_and_verify-eq-ok}
use cardingest.Pipeline.Safety.{IsLawfulIndex, IsSafe, copy-IsSafe, IsSafe-copy}

module _ (E : Env) where
  Holds-unique : (d : E.dest.State) (p h k : Text) → Holds E d p h → Holds E d p k → h ≡ k
  Holds-unique d p h k a b =
      sym a.hashed ∙ ap (hash_of E) (ok-injective (sym a.stored ∙ b.stored)) ∙ b.hashed

-- Two files of a card whose final path is the same and whose hashes differ are copied one after the
-- other, and both copies report success: then both are on record as safe to erase, and the final
-- path no longer holds the content of the first.
pub collision_loses :
    (E : Env) (L : IsLawful E.dest) (I : IsLawfulIndex E.index) (deps : Deps) (input : Input)
    (e f : FileEntry) (c k : Text) (w : World E)
    → let w₁ = (copy_and_verify E deps input e c w).1 in
      let w₂ = (copy_and_verify E deps input f k w₁).1 in
      dest_path E deps input f k ≡ dest_path E deps input e c
      → card_hash E input e.path ≢ card_hash E input f.path
      → (copy_and_verify E deps input e c w).0 ≡ ok true
      → (copy_and_verify E deps input f k w₁).0 ≡ ok true
      → IsSafe E deps input w₂.index e.path
        × IsSafe E deps input w₂.index f.path
        × ¬ Holds E w₂.dest (dest_path E deps input e c) (card_hash E input e.path)
collision_loses E L I deps input e f c k w same differ first second =
    let w₁ = (copy_and_verify E deps input e c w).1 in
    let (opened, complete, landed) = copy_and_verify-eq-ok E L deps input f k w₁ true second in
    (
      IsSafe-copy E L I deps input f k w₁ e.path (copy-IsSafe E L I deps input e c w true first),
      copy-IsSafe E L I deps input f k w₁ true second,
      λ held. differ (Holds-unique E _ _ _ _ held (rw (← same) landed.placed)),
    )
