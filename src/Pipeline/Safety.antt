-- ===== src/Pipeline/Safety.antt =====
-- Nothing is reported as verified that the destination does not hold: the invariant of the index
-- over a copy, and over a whole ingest.
pub mod Ingest
use cardingest.Base.{ℕ, ◌≡◌, ◌≢◌, sym, ◌∙◌, List, [], ◌∷◌, Option, none, some, Outcome, ok, err}
use cardingest.Base.{All, ◌⊎◌, inl, inr, true, false, Bool}
use mathlib.Core.Path.{subst}
use cardingest.Base.Strings.{Text}
use cardingest.Card.{FileEntry}
use cardingest.Pipeline.{Bytes, Index, Env, Deps, Input}
use cardingest.Pipeline.Copy.{World, tmp_path, dest_path, copy_and_verify}
use cardingest.Pipeline.Ingest.{wanted}
use cardingest.Pipeline.Frame.{IsLawful, read-copy_and_verify}
use cardingest.Pipeline.Landing.{Holds, card_hash, Settled, copy_and_verify-eq-ok}
use cardingest.Pipeline.Noted.{Noted, Noted-copy_and_verify}

-- What is relied on of the index: a hash that was entered without an error is seen, what was seen
-- stays so, and nothing else is seen than what was entered.
pub record IsLawfulIndex (S : Index) : Type 0 where
  pub seen-mark_self :
      (s : S.State) (h : Text)
      → (S.mark_verified s h).0 ≡ none
      → S.seen (S.mark_verified s h).1 h ≡ ok true
  pub seen-mark_keeps :
      (s : S.State) (h k : Text) → S.seen s k ≡ ok true → S.seen (S.mark_verified s h).1 k ≡ ok true
  pub seen-mark_sound :
      (s : S.State) (h k : Text)
      → S.seen (S.mark_verified s h).1 k ≡ ok true
      → (k ≡ h) ⊎ (S.seen s k ≡ ok true)

module _ (E : Env) (deps : Deps) (input : Input) where
  -- No temporary file of the slot has this path.
  abbrev pub IsFinal : Text → Type 0
  IsFinal p = (n : ℕ) → tmp_path E input.slot n ≢ p

  -- Some file, not a temporary one, holds bytes with the hash.
  pub record Backed (d : E.dest.State) (hash : Text) : Type 0 where
    pub path : Text
    pub final : IsFinal path
    pub holds : Holds E d path hash

  abbrev pub IndexBacked : E.dest.State → E.index.State → Type 0
  IndexBacked d i = (k : Text) → E.index.seen i k ≡ ok true → Backed d k

  -- A path at which nothing can be read.
  pub record IsVacant (d : E.dest.State) (p : Text) : Type 0 where
    pub final : IsFinal p
    pub unread : (b : Bytes) → E.dest.read d p ≢ ok b

  -- A file that is wanted goes elsewhere than to this path.
  abbrev pub GoesElsewhere : Text → FileEntry → Type 0
  GoesElsewhere p e =
      (category : Text)
      → wanted E deps input e ≡ some category
      → dest_path E deps input e category ≢ p

  -- Each file that is wanted goes to a vacant path, and no two go to the same.
  abbrev pub AllFree : E.dest.State → List FileEntry → Type 0
  AllFree d [] = Unit
  AllFree d (e ∷ entries) =
      ((category : Text)
        → wanted E deps input e ≡ some category
        → IsVacant d (dest_path E deps input e category)
          × All (GoesElsewhere (dest_path E deps input e category)) entries)
      × AllFree d entries

  -- The card's file was read to its end, and the index has the hash of its bytes.
  pub record IsSafe (i : E.index.State) (p : Text) : Type 0 where
    pub opened : input.card_fs.open_file p ≡ none
    pub complete : (input.card_fs.content p).1 ≡ none
    pub seen : E.index.seen i (card_hash E input p) ≡ ok true

module _ (E : Env) (L : IsLawful E.dest) (I : IsLawfulIndex E.index) (deps : Deps) (input : Input)
    (e : FileEntry) (category : Text) (w : World E) where
  abbrev after : World E
  after = (copy_and_verify E deps input e category w).1

  abbrev final : Text
  final = dest_path E deps input e category

  Backed-after :
      (hash : Text)
      → IsVacant E deps input w.dest final
      → Backed E deps input w.dest hash
      → Backed E deps input after.dest hash
  Backed-after hash vacant b = record {
    path = b.path;
    final = b.final;
    holds = record {
      landed = b.holds.landed;
      stored =
          read-copy_and_verify E L deps input e category b.path w b.final
            (λ same. vacant.unread b.holds.landed (rw same b.holds.stored))
          ∙ b.holds.stored;
      hashed = b.holds.hashed;
    };
  }

  -- A copy to a vacant path keeps the index backed by files, whether it succeeds or fails.
  pub IndexBacked-copy :
      IsVacant E deps input w.dest final
      → IndexBacked E deps input w.dest w.index
      → IndexBacked E deps input after.dest after.index
  IndexBacked-copy vacant backed k s = go (Noted-copy_and_verify E L deps input e category w)
    where
      go : Noted E w.index after final (card_hash E input e.path) → Backed E deps input after.dest k
      go (inl same) =
          Backed-after k vacant (backed k (subst (λ i. E.index.seen i k ≡ ok true) same s))
      go (inr (held, entered)) =
          elim (I.seen-mark_sound w.index (card_hash E input e.path) k
            (subst (λ i. E.index.seen i k ≡ ok true) entered s)) [
              | inl new ↦ record { path = final; final = vacant.final; holds = rw new held }
              | inr old ↦ Backed-after k vacant (backed k old)
            ]

  pub seen-copy :
      (k : Text) → E.index.seen w.index k ≡ ok true → E.index.seen after.index k ≡ ok true
  seen-copy k s = go (Noted-copy_and_verify E L deps input e category w)
    where
      go :
          Noted E w.index after final (card_hash E input e.path)
          → E.index.seen after.index k ≡ ok true
      go (inl same) = rw same s
      go (inr (held, entered)) = rw entered (I.seen-mark_keeps w.index _ k s)

  pub IsSafe-copy : (p : Text) → IsSafe E deps input w.index p → IsSafe E deps input after.index p
  IsSafe-copy p s = record {
    opened = s.opened;
    complete = s.complete;
    seen = seen-copy (card_hash E input p) s.seen;
  }

  seen-Settled :
      (b : Bool)
      → Settled E w.index after final (card_hash E input e.path) b
      → E.index.seen after.index (card_hash E input e.path) ≡ ok true
  seen-Settled true s = rw s.entered (I.seen-mark_self w.index _ s.marked)
  seen-Settled false s = rw (s.1) s.0

  -- A file whose copy returned is safe.
  pub copy-IsSafe :
      (b : Bool)
      → (copy_and_verify E deps input e category w).0 ≡ ok b
      → IsSafe E deps input after.index e.path
  copy-IsSafe b h =
      let (opened, complete, settled) = copy_and_verify-eq-ok E L deps input e category w b h in
      record { opened = opened; complete = complete; seen = seen-Settled b settled }

  pub IsVacant-copy :
      (p : Text) → final ≢ p → IsVacant E deps input w.dest p → IsVacant E deps input after.dest p
  IsVacant-copy p apart v = record {
    final = v.final;
    unread = λ b r.
        v.unread b (sym (read-copy_and_verify E L deps input e category p w v.final apart) ∙ r);
  }

  -- The paths of the files to come stay free.
  pub AllFree-copy :
      (entries : List FileEntry)
      → All (GoesElsewhere E deps input final) entries
      → AllFree E deps input w.dest entries
      → AllFree E deps input after.dest entries
  AllFree-copy [] apart free = tt
  AllFree-copy (f ∷ entries) apart free = (
    λ c is_wanted.
        let (vacant, later) = free.0 c is_wanted in
        (
          IsVacant-copy (dest_path E deps input f c) (λ same. apart.0 c is_wanted (sym same))
              vacant,
          later,
        ),
    AllFree-copy entries apart.1 free.1,
  )
