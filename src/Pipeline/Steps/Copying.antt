-- ===== src/Pipeline/Steps/Copying.antt =====
-- The steps of one copy, whatever the other slots do in between.
use mathlib.Core.Path.{subst}
use cardingest.Base.{◌≡◌, refl, sym, Option, none, some, Outcome}
use cardingest.Base.{ok, err, ◌⊎◌, inl, inr}
use cardingest.Base.Strings.{Text}
use cardingest.Base.Threads.{return, atom}
use cardingest.Pipeline.{Env, CardFs}
use cardingest.Pipeline.Copy.{Failure, World, returned, on_dest}
use cardingest.Pipeline.Copy.{verify}
use cardingest.Pipeline.Frame.{IsLawful}
use cardingest.Pipeline.Landing.{Holds, WasRead, verify-eq-ok}
use cardingest.Pipeline.Steps.{stream_copy_steps}
use cardingest.Pipeline.Steps.Own.{Free, Touches, Free-rely, Touches-Free}
use cardingest.Pipeline.Steps.Own.{Holds-same}
use cardingest.Pipeline.Steps.Rules.{Copying, Ends, Does, Stable, Does-bind, Does-return}
use cardingest.Pipeline.Steps.Rules.{Does-look, Does-on_dest, Does-on_error}

module _ (E : Env) (L : IsLawful E.dest) (Own IsTemp Left : Text → Type 0) (tmp : Text)
    (c : Copying Own IsTemp Left tmp) where
  -- The paths of the files to come and that of this one.
  abbrev pub Todo : Text → Type 0
  Todo p = Left p ⊎ (c.final ≡ p)

  Todo-owns : (p : Text) → Todo p → Own p
  Todo-owns p (inl h) = c.owns p h
  Todo-owns p (inr h) = subst Own h c.final_own

  Todo-apart : (p : Text) → Todo p → ¬ IsTemp p
  Todo-apart p (inl h) t = c.apart p h t
  Todo-apart p (inr h) t = c.final_apart (subst IsTemp (sym h) t)

  -- What is known of the card, before the file is placed.
  abbrev pub Clear : Type 0 → World E → Type 0
  Clear X w = X × Free E Todo w

  pub Stable-Clear : (X : Type 0) → Stable E Own IsTemp Left (Clear X)
  Stable-Clear X v w h (x, free) = (x, Free-rely E Own IsTemp Todo Todo-owns v w h free)

  pub Clear-Left : (X : Type 0) (w : World E) → Clear X w → Free E Left w
  Clear-Left X w (x, free) p h = free p (inl h)

  pub Clear-touched :
      (X : Type 0) (w : World E) (d : E.dest.State)
      → Touches E tmp w.dest d
      → Clear X w
      → Clear X (record w { dest = d })
  Clear-touched X w d h (x, free) =
      (x, Touches-Free E Own IsTemp tmp c.own c.temp Todo Todo-apart w d h free)

  pub Does-tmp :
      (X : Type 0) (op : E.dest.State → Option Text × E.dest.State) (f : Text → Failure)
      → ((d : E.dest.State) → Touches E tmp d (op d).1)
      → Does E Own IsTemp Left (Clear X) (atom (on_dest E op f)) (λ _. Clear X)
  Does-tmp X op f h =
      Does-on_dest E Own IsTemp Left tmp c op f h (Stable-Clear X)
        (λ w k. Clear-touched X w (op w.dest).1 (h w.dest) k) (Clear-Left X)

  -- What the card has been asked.
  Does-asked :
      (X : Type 0) (o : Option Text) (f : Text → Failure)
      → Does E Own IsTemp Left (Clear X) (return (returned E o f)) (λ _. Clear (X × (o ≡ none)))
  Does-asked X o f = Does-return E Own IsTemp Left tmp c _ (Stable-Clear X) (go o)
    where
      go :
          (o : Option Text) (w : World E)
          → Clear X w
          → Ends E Own IsTemp Left (λ _. Clear (X × (o ≡ none))) (returned E o f) w
      go none w (x, free) = ((x, refl), free)
      go (some cause) w k = Clear-Left X w k

  pub Does-stream :
      (card : CardFs) (src : Text)
      → Does E Own IsTemp Left
          (Clear Unit)
          (stream_copy_steps E card src tmp)
          (λ hash. Clear (WasRead E card src hash))
  unfolding stream_copy_steps
  Does-stream card src = Does-bind E Own IsTemp Left tmp c _ _ _ (Does-asked Unit _ _) λ _.
      Does-bind E Own IsTemp Left tmp c _ _ _ (Does-tmp _ _ _ (λ d q. L.read-create d tmp q)) λ _.
        Does-bind E Own IsTemp Left tmp c _ _ _
          (Does-on_error E Own IsTemp Left tmp c _ (λ d. E.dest.close d tmp) _
            (λ d q. L.read-close d tmp q) (λ _. Stable-Clear _)
            (Does-bind E Own IsTemp Left tmp c _ _ _
              (Does-tmp _ _ _ (λ d q. L.read-write d tmp _ q)) λ _. Does-asked _ _ _))
          λ _.
            Does-bind E Own IsTemp Left tmp c _ _ _ (Does-tmp _ _ _ (λ d q. L.read-close d tmp q))
              λ _.
                Does-return E Own IsTemp Left tmp c _ (Stable-Clear _)
                  λ w (((u, opened), complete), free).
                    (record { opened = opened; complete = complete; hashed = refl }, free)

  pub discards : (d : E.dest.State) → Touches E tmp d (E.dest.remove d tmp).1
  discards d q = L.read-remove d tmp q

  -- The copy has been hashed with what the card delivered.
  abbrev pub Landed : Type 0 → Text → World E → Type 0
  Landed X hash w = Clear X w × Holds E w.dest tmp hash

  pub Stable-Landed : (X : Type 0) (hash : Text) → Stable E Own IsTemp Left (Landed X hash)
  Stable-Landed X hash v w h (k, held) =
      (Stable-Clear X v w h k, Holds-same E v.dest w.dest tmp hash (h.0 tmp c.own) held)

  verify_same :
      (hash : Text) (w : World E)
      → ((verify E tmp hash w).1.dest ≡ w.dest) × ((verify E tmp hash w).1.index ≡ w.index)
  unfolding verify
  verify_same hash w = (refl, refl)

  pub Does-verify :
      (X : Type 0) (hash : Text)
      → Does E Own IsTemp Left (Clear X) (atom (verify E tmp hash)) (λ _. Landed X hash)
  unfolding verify
  Does-verify X hash =
      Does-look E Own IsTemp Left tmp c _ _ (Stable-Clear X) (λ _. Stable-Landed X hash)
        (verify_same hash) λ w k. go w k (verify E tmp hash w).0 refl
    where
      go :
          (w : World E)
          → Clear X w
          → (r : Outcome Failure (Unit {0})) → (verify E tmp hash w).0 ≡ r
          → Ends E Own IsTemp Left (λ _. Landed X hash) r w
      go w k (ok u) h = (k, verify-eq-ok E tmp hash w h)
      go w k (err x) h = Clear-Left X w k
