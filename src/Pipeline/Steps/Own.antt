-- ===== src/Pipeline/Steps/Own.antt =====
-- What a slot owns while the others run: its temporary files and the paths that its files go to; and
-- the contract under which it runs.
use mathlib.Core.Path.{subst}
use cardingest.Base.{true, ◌≡◌, ◌≢◌, refl, sym, ◌∙◌, ok}
use cardingest.Base.Strings.{Text}
use cardingest.Base.Threads.Rely.{Contract}
use cardingest.Pipeline.{Bytes, Env}
use cardingest.Pipeline.Copy.{World}
use cardingest.Pipeline.Landing.{Holds}

module _ (E : Env) where
  -- Some file, which is no slot's temporary file, holds bytes with the hash.
  pub record Stored (IsTemp : Text → Type 0) (d : E.dest.State) (hash : Text) : Type 0 where
    pub path : Text
    pub final : ¬ IsTemp path
    pub holds : Holds E d path hash

  abbrev pub Sees : E.index.State → Text → Type 0
  Sees i k = E.index.seen i k ≡ ok true

  abbrev pub AllStored : (Text → Type 0) → World E → Type 0
  AllStored IsTemp w = (k : Text) → Sees w.index k → Stored IsTemp w.dest k

  -- The index forgets nothing, and the files at these paths are as they were.
  abbrev pub Spares : (Text → Type 0) → World E → World E → Type 0
  Spares At v w =
      ((p : Text) → At p → E.dest.read w.dest p ≡ E.dest.read v.dest p)
      × ((k : Text) → Sees v.index k → Sees w.index k)

  -- A slot changes nothing but what it owns, and relies on the others to leave that alone. Between
  -- any two steps, every hash of the index is that of a file.
  abbrev pub contract : (Text → Type 0) → (Text → Type 0) → Contract (World E)
  contract Own IsTemp = record {
    inv = AllStored IsTemp;
    rely = Spares Own;
    guar = Spares (λ p. ¬ Own p);
    rely_refl = λ w. (λ p h. refl, λ k h. h);
    rely_trans = λ u v w g h. (λ p o. h.0 p o ∙ g.0 p o, λ k s. h.1 k (g.1 k s));
  }

  -- Nothing can be read at these paths.
  abbrev pub Free : (Text → Type 0) → World E → Type 0
  Free At w = (p : Text) → At p → (b : Bytes) → E.dest.read w.dest p ≢ ok b

  -- Only the file at this path may have changed.
  abbrev pub Touches : Text → E.dest.State → E.dest.State → Type 0
  Touches p d d' = (q : Text) → p ≢ q → E.dest.read d' q ≡ E.dest.read d q

  pub Holds-same :
      (d d' : E.dest.State) (p hash : Text)
      → E.dest.read d' p ≡ E.dest.read d p
      → Holds E d p hash
      → Holds E d' p hash
  Holds-same d d' p hash same h = record {
    landed = h.landed;
    stored = same ∙ h.stored;
    hashed = h.hashed;
  }

  module _ (Own IsTemp : Text → Type 0) where
    pub Free-rely :
        (At : Text → Type 0)
        → ((p : Text) → At p → Own p)
        → (v w : World E) → Spares Own v w
        → Free At v
        → Free At w
    Free-rely At owns v w h free p a b r = free p a b (sym (h.0 p (owns p a)) ∙ r)

    -- A change of the temporary file alone.
    module _ (tmp : Text) (own : Own tmp) (temp : IsTemp tmp) where
      pub Touches-AllStored :
          (w : World E) (d : E.dest.State)
          → Touches tmp w.dest d
          → AllStored IsTemp w
          → AllStored IsTemp (record w { dest = d })
      Touches-AllStored w d h all k s =
          let old = all k s in
          record {
            path = old.path;
            final = old.final;
            holds =
                Holds-same w.dest d old.path k (h old.path (λ q. old.final (subst IsTemp q temp)))
                  old.holds;
          }

      pub Touches-Spares :
          (w : World E) (d : E.dest.State)
          → Touches tmp w.dest d
          → Spares (λ p. ¬ Own p) w (record w { dest = d })
      Touches-Spares w d h = (λ p n. h p (λ q. n (subst Own q own)), λ k s. s)

      pub Touches-Free :
          (At : Text → Type 0)
          → ((p : Text) → At p → ¬ IsTemp p)
          → (w : World E) (d : E.dest.State) → Touches tmp w.dest d
          → Free At w
          → Free At (record w { dest = d })
      Touches-Free At apart w d h free p a b r =
          free p a b (sym (h p (λ q. apart p a (subst IsTemp q temp))) ∙ r)
