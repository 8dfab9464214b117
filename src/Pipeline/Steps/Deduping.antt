-- ===== src/Pipeline/Steps/Deduping.antt =====
-- What follows the copy to a temporary file: the dedupe test and its two branches, whatever the other slots do in between.
use cardingest.Base.{ap, ◌≡◌, refl, ◌∙◌, Bool, true, Option, none, some, Outcome}
use cardingest.Base.{wrap, ok, err, inl, inr}
use cardingest.Base.Strings.{Text}
use cardingest.Base.Threads.{atom}
use cardingest.Pipeline.{Env}
use cardingest.Pipeline.Copy.{Failure, World, returned, on_dest, discard}
use cardingest.Pipeline.Copy.{ask_index, record_verified}
use cardingest.Pipeline.Frame.{IsLawful}
use cardingest.Pipeline.Safety.{IsLawfulIndex}
use cardingest.Pipeline.Steps.{place_steps, land_steps, drop_steps}
use cardingest.Pipeline.Steps.{dedupe_steps}
use cardingest.Pipeline.Steps.Own.{AllStored, Free, Free-rely, Sees}
use cardingest.Pipeline.Steps.Own.{Holds-same}
use cardingest.Pipeline.Steps.Rules.{Copying, Ends, Does, Stable, Does-bind, Does-return, Does-atom}
use cardingest.Pipeline.Steps.Rules.{Does-look, Does-on_dest, Does-on_error, Does-if, Does-weaken}
use cardingest.Pipeline.Steps.Copying.{Clear, Stable-Clear, Clear-Left}
use cardingest.Pipeline.Steps.Copying.{Does-verify, discards, Landed, Stable-Landed, Clear-touched}
use cardingest.Pipeline.Steps.Placing.{Placed, Stable-Placed, Does-rename}
use cardingest.Pipeline.Steps.Own.{Touches-AllStored, Touches-Spares}

module _ (E : Env) (L : IsLawful E.dest) (I : IsLawfulIndex E.index)
    (Own IsTemp Left : Text → Type 0) (tmp : Text) (c : Copying Own IsTemp Left tmp) where
  -- The index has the hash, and the paths of the files to come are free.
  abbrev pub Noted : Type 0 → Text → World E → Type 0
  Noted X hash w = X × Free E Left w × Sees E w.index hash

  Stable-Noted : (X : Type 0) (hash : Text) → Stable E Own IsTemp Left (Noted X hash)
  Stable-Noted X hash v w h (x, free, s) =
      (x, Free-rely E Own IsTemp Left c.owns v w h free, h.1 hash s)

  Does-mkdir :
      (X : Type 0) (hash path : Text) (f : Text → Failure)
      → Does E Own IsTemp Left
          (Landed E L Own IsTemp Left tmp c X hash)
          (atom (on_dest E (λ d. E.dest.mkdir_all d path) f))
          (λ _. Landed E L Own IsTemp Left tmp c X hash)
  Does-mkdir X hash path f =
      Does-on_dest E Own IsTemp Left tmp c (λ d. E.dest.mkdir_all d path) f
        (λ d q _. L.read-mkdir_all d path q) (Stable-Landed E L Own IsTemp Left tmp c X hash)
        (λ w (k, held).
          let d = (E.dest.mkdir_all w.dest path).1 in
          (
            Clear-touched E L Own IsTemp Left tmp c X w d (λ q _. L.read-mkdir_all w.dest path q) k,
            Holds-same E w.dest d tmp hash (L.read-mkdir_all w.dest path tmp) held,
          ))
        (λ w (k, held). Clear-Left E L Own IsTemp Left tmp c X w k)

  Does-place :
      (X : Type 0) (hash : Text)
      → Does E Own IsTemp Left
          (Landed E L Own IsTemp Left tmp c X hash)
          (place_steps E tmp c.final)
          (λ _. Placed E L Own IsTemp Left tmp c X hash)
  unfolding place_steps
  Does-place X hash =
      let discards = discards E L Own IsTemp Left tmp c in
      Does-bind E Own IsTemp Left tmp c _ _ _
        (Does-on_error E Own IsTemp Left tmp c _ (λ d. E.dest.remove d tmp) _ discards
          (λ _. Stable-Landed E L Own IsTemp Left tmp c X hash) (Does-mkdir X hash _ _))
        λ _.
          Does-on_error E Own IsTemp Left tmp c _ (λ d. E.dest.remove d tmp) _ discards
            (λ _. Stable-Placed E L Own IsTemp Left tmp c X hash)
            (Does-rename E L Own IsTemp Left tmp c X hash _)

  AllStored-marked :
      (X : Type 0) (hash : Text) (w : World E)
      → AllStored E IsTemp w
      → Placed E L Own IsTemp Left tmp c X hash w
      → AllStored E IsTemp (record w { index = (E.index.mark_verified w.index hash).1 })
  AllStored-marked X hash w i (x, free, held) k s = elim (I.seen-mark_sound w.index hash k s) [
    | inl new ↦ record { path = c.final; final = c.final_apart; holds = rw new held }
    | inr old ↦ i k old
  ]

  Ends-marked :
      (X : Type 0) (hash : Text) (f : Text → Failure) (w : World E) (r : Option Text)
      → (E.index.mark_verified w.index hash).0 ≡ r
      → Placed E L Own IsTemp Left tmp c X hash w
      → Ends E Own IsTemp Left
          (λ _. Noted X hash)
          (returned E r f)
          (record w { index = (E.index.mark_verified w.index hash).1 })
  Ends-marked X hash f w none h (x, free, held) = (x, free, I.seen-mark_self w.index hash h)
  Ends-marked X hash f w (some cause) h (x, free, held) = free

  Does-record :
      (X : Type 0) (hash : Text)
      → Does E Own IsTemp Left
          (Placed E L Own IsTemp Left tmp c X hash)
          (atom (record_verified E hash))
          (λ _. Noted X hash)
  unfolding record_verified
  Does-record X hash =
      Does-atom E Own IsTemp Left tmp c _ _ (Stable-Placed E L Own IsTemp Left tmp c X hash)
        (λ _. Stable-Noted X hash)
        λ w i k. (
          AllStored-marked X hash w i k,
          (λ p _. refl, λ j s. I.seen-mark_keeps w.index hash j s),
          Ends-marked X hash _ w (E.index.mark_verified w.index hash).0 refl k,
        )

  Does-land :
      (X : Type 0) (hash : Text)
      → Does E Own IsTemp Left
          (Clear E L Own IsTemp Left tmp c X)
          (land_steps E tmp hash c.final)
          (λ _. Noted X hash)
  unfolding land_steps
  Does-land X hash =
      Does-bind E Own IsTemp Left tmp c _ _ _
        (Does-on_error E Own IsTemp Left tmp c _ (λ d. E.dest.remove d tmp) _
          (discards E L Own IsTemp Left tmp c) (λ _. Stable-Landed E L Own IsTemp Left tmp c X hash)
          (Does-verify E L Own IsTemp Left tmp c X hash))
        λ _. Does-bind E Own IsTemp Left tmp c _ _ _ (Does-place X hash) λ _.
          Does-bind E Own IsTemp Left tmp c _ _ _ (Does-record X hash)
            λ _. Does-return E Own IsTemp Left tmp c _ (Stable-Noted X hash) λ w k. k

  -- The answer of the index: what it has seen is known for good.
  abbrev Asked : Type 0 → Text → Bool → World E → Type 0
  Asked X hash known w = Clear E L Own IsTemp Left tmp c X w × (known ≡ true → Sees E w.index hash)

  Stable-Asked :
      (X : Type 0) (hash : Text) (known : Bool) → Stable E Own IsTemp Left (Asked X hash known)
  Stable-Asked X hash known v w h (k, s) =
      (Stable-Clear E L Own IsTemp Left tmp c X v w h k, λ q. h.1 hash (s q))

  Ends-Asked :
      (X : Type 0) (hash : Text) (f : Text → Failure) (w : World E) (r : Outcome Text Bool)
      → E.index.seen w.index hash ≡ r
      → Clear E L Own IsTemp Left tmp c X w
      → Ends E Own IsTemp Left (Asked X hash) (wrap f r) w
  Ends-Asked X hash f w (ok known) h k = (k, λ q. h ∙ ap ok q)
  Ends-Asked X hash f w (err cause) h k = Clear-Left E L Own IsTemp Left tmp c X w k

  Does-ask :
      (X : Type 0) (hash : Text)
      → Does E Own IsTemp Left
          (Clear E L Own IsTemp Left tmp c X)
          (atom (ask_index E hash))
          (Asked X hash)
  unfolding ask_index
  Does-ask X hash =
      Does-look E Own IsTemp Left tmp c _ _ (Stable-Clear E L Own IsTemp Left tmp c X)
        (Stable-Asked X hash) (λ w. (refl, refl))
        λ w k. Ends-Asked X hash _ w (E.index.seen w.index hash) refl k

  Does-drop :
      (X : Type 0) (hash : Text)
      → Does E Own IsTemp Left (Asked X hash true) (drop_steps E tmp) (λ _. Noted X hash)
  unfolding drop_steps discard
  Does-drop X hash =
      let discards = discards E L Own IsTemp Left tmp c in
      Does-bind E Own IsTemp Left tmp c (λ _. Asked X hash true) _ _
        (Does-atom E Own IsTemp Left tmp c _ _ (Stable-Asked X hash true)
          (λ _. Stable-Asked X hash true)
          λ w i (k, s).
            let d = (E.dest.remove w.dest tmp).1 in
            (
              Touches-AllStored E Own IsTemp tmp c.own c.temp w d (discards w.dest) i,
              Touches-Spares E Own IsTemp tmp c.own c.temp w d (discards w.dest),
              (Clear-touched E L Own IsTemp Left tmp c X w d (discards w.dest) k, s),
            ))
        λ _.
          Does-return E Own IsTemp Left tmp c _ (Stable-Asked X hash true)
            λ w (k, s). (k.0, Clear-Left E L Own IsTemp Left tmp c X w k, s refl)

  pub Does-dedupe :
      (X : Type 0) (hash : Text)
      → Does E Own IsTemp Left
          (Clear E L Own IsTemp Left tmp c X)
          (dedupe_steps E tmp hash c.final)
          (λ _. Noted X hash)
  unfolding dedupe_steps
  Does-dedupe X hash =
      Does-bind E Own IsTemp Left tmp c _ _ _
        (Does-on_error E Own IsTemp Left tmp c _ (λ d. E.dest.remove d tmp) _
          (discards E L Own IsTemp Left tmp c) (Stable-Asked X hash) (Does-ask X hash))
        (λ known.
          Does-if E Own IsTemp Left tmp c (Asked X hash) known _ _ (Does-drop X hash)
            (Does-weaken E Own IsTemp Left tmp c _ _ (λ w k. k.0) (Does-land X hash)))
