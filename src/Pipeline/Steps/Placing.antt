-- ===== src/Pipeline/Steps/Placing.antt =====
-- The rename of a copy to its final path, whatever the other slots do in between.
use mathlib.Core.Path.{subst}
use cardingest.Base.{ap, ◌≡◌, ◌≢◌, refl, sym, ◌∙◌, Option, none, some}
use cardingest.Base.{inl, inr}
use cardingest.Base.Strings.{Text}
use cardingest.Base.Threads.{atom}
use cardingest.Pipeline.{Env}
use cardingest.Pipeline.Copy.{Failure, World, returned, on_dest}
use cardingest.Pipeline.Frame.{IsLawful}
use cardingest.Pipeline.Landing.{Holds}
use cardingest.Pipeline.Steps.Own.{AllStored, Free, Free-rely}
use cardingest.Pipeline.Steps.Own.{Holds-same}
use cardingest.Pipeline.Steps.Rules.{Copying, Ends, Does, Stable, Does-atom}
use cardingest.Pipeline.Steps.Copying.{Todo}
use cardingest.Pipeline.Steps.Copying.{Landed, Stable-Landed}

module _ (E : Env) (L : IsLawful E.dest) (Own IsTemp Left : Text → Type 0) (tmp : Text)
    (c : Copying Own IsTemp Left tmp) where
  -- The file is in its place.
  abbrev pub Placed : Type 0 → Text → World E → Type 0
  Placed X hash w = X × Free E Left w × Holds E w.dest c.final hash

  pub Stable-Placed : (X : Type 0) (hash : Text) → Stable E Own IsTemp Left (Placed X hash)
  Stable-Placed X hash v w h (x, free, held) = (
    x,
    Free-rely E Own IsTemp Left c.owns v w h free,
    Holds-same E v.dest w.dest c.final hash (h.0 c.final c.final_own) held,
  )

  abbrev renamed : World E → E.dest.State
  renamed w = (E.dest.rename w.dest tmp c.final).1

  read-renamed :
      (w : World E) (p : Text)
      → tmp ≢ p
      → c.final ≢ p
      → E.dest.read (renamed w) p ≡ E.dest.read w.dest p
  read-renamed w p a b = L.read-rename_other w.dest tmp c.final p a b

  -- No file that was there is lost, since there was none at the final path.
  AllStored-renamed :
      (w : World E)
      → Free E (Todo E L Own IsTemp Left tmp c) w
      → AllStored E IsTemp w
      → AllStored E IsTemp (record w { dest = renamed w })
  AllStored-renamed w free i k s =
      let old = i k s in
      record {
        path = old.path;
        final = old.final;
        holds =
            Holds-same E w.dest (renamed w) old.path k
              (read-renamed w old.path (λ q. old.final (subst IsTemp q c.temp))
                (λ q.
                  free c.final (inr refl) old.holds.landed
                    (ap (E.dest.read w.dest) q ∙ old.holds.stored)))
              old.holds;
      }

  Free-renamed :
      (w : World E)
      → Free E (Todo E L Own IsTemp Left tmp c) w
      → Free E Left (record w { dest = renamed w })
  Free-renamed w free p a b r =
      free p (inl a) b
        (sym (read-renamed w p (λ q. c.apart p a (subst IsTemp q c.temp)) (c.away p a)) ∙ r)

  Ends-renamed :
      (X : Type 0) (hash : Text) (f : Text → Failure) (w : World E) (r : Option Text)
      → (E.dest.rename w.dest tmp c.final).0 ≡ r
      → Landed E L Own IsTemp Left tmp c X hash w
      → Ends E Own IsTemp Left (λ _. Placed X hash) (returned E r f) (record w { dest = renamed w })
  Ends-renamed X hash f w none h ((x, free), held) = (
    x,
    Free-renamed w free,
    record {
      landed = held.landed;
      stored = L.read-rename w.dest tmp c.final h ∙ held.stored;
      hashed = held.hashed;
    },
  )
  Ends-renamed X hash f w (some cause) h ((x, free), held) = Free-renamed w free

  pub Does-rename :
      (X : Type 0) (hash : Text) (f : Text → Failure)
      → Does E Own IsTemp Left
          (Landed E L Own IsTemp Left tmp c X hash)
          (atom (on_dest E (λ d. E.dest.rename d tmp c.final) f))
          (λ _. Placed X hash)
  unfolding on_dest
  Does-rename X hash f =
      Does-atom E Own IsTemp Left tmp c _ _ (Stable-Landed E L Own IsTemp Left tmp c X hash)
        (λ _. Stable-Placed X hash)
        λ w i k. (
          AllStored-renamed w k.0.1 i,
          (
            λ p n. read-renamed w p (λ q. n (subst Own q c.own)) (λ q. n (subst Own q c.final_own)),
            λ k s. s,
          ),
          Ends-renamed X hash f w (E.dest.rename w.dest tmp c.final).0 refl k,
        )
