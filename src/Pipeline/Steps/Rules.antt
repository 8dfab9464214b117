-- ===== src/Pipeline/Steps/Rules.antt =====
-- The rules by which a slot's steps are proved, one for each way the steps are put together.
use cardingest.Base.{◌≡◌, ◌≢◌, refl, Bool, true, false, Option, none, some, Outcome, ok, err}
use cardingest.Base.{if◌then◌else◌}
use cardingest.Base.Strings.{Text}
use cardingest.Base.Threads.{return, atom, go_on, ◌>>=◌}
use cardingest.Base.Threads.Rely.{Good, Good-bind, Good-return, Good-act, Good-atom}
use cardingest.Base.Threads.Rely.{Good-map}
use cardingest.Pipeline.{Env}
use cardingest.Pipeline.Copy.{Failure, World, returned, on_dest}
use cardingest.Pipeline.Steps.{Steps, cleaned_steps, on_error_steps}
use cardingest.Pipeline.Steps.Own.{AllStored, Spares, contract, Free, Touches}
use cardingest.Pipeline.Steps.Own.{Free-rely, Touches-AllStored, Touches-Spares, Touches-Free}

-- The slot's copy of one file: what it may change are the temporary file and the file at the final
-- path; the paths of the files that are left to come are others.
pub record Copying (Own IsTemp : Text → Type 0) (Left : Text → Type 0) (tmp : Text) : Type 0 where
  pub own : Own tmp
  pub temp : IsTemp tmp
  pub owns : (p : Text) → Left p → Own p
  pub apart : (p : Text) → Left p → ¬ IsTemp p
  pub final : Text
  pub final_own : Own final
  pub final_apart : ¬ IsTemp final
  pub away : (p : Text) → Left p → final ≢ p

module _ (E : Env) (Own IsTemp Left : Text → Type 0) where
  -- After an error the paths of the files to come are free; a value has its property.
  abbrev pub Ends : {A : Type 0} → (A → World E → Type 0) → Outcome Failure A → World E → Type 0
  Ends Q (ok a) w = Q a w
  Ends Q (err f) w = Free E Left w

  pub record Does {A : Type 0} (P : World E → Type 0) (p : Steps E A) (Q : A → World E → Type 0)
      : Type 0 where
    pub at : (w : World E) → AllStored E IsTemp w → P w → Good (contract E Own IsTemp) (Ends Q) p w

  -- The others do not make it false.
  abbrev pub Stable : (World E → Type 0) → Type 0
  Stable P = (v w : World E) → Spares E Own v w → P v → P w

  module _ (tmp : Text) (c : Copying Own IsTemp Left tmp) where
    Stable-Ends :
        {A : Type 0} (Q : A → World E → Type 0)
        → ((a : A) → Stable (Q a))
        → (r : Outcome Failure A) → Stable (Ends Q r)
    Stable-Ends Q stable (ok a) v w h q = stable a v w h q
    Stable-Ends Q stable (err f) v w h q = Free-rely E Own IsTemp Left c.owns v w h q

    pub Does-bind :
        {A B : Type 0} {P : World E → Type 0} {R : B → World E → Type 0} (Q : A → World E → Type 0)
        (p : Steps E A) (f : A → Steps E B)
        → Does P p Q
        → ((a : A) → Does (Q a) (f a) R)
        → Does P (p >>= f) R
    Does-bind {A = A} {R = R} Q p f first all = record {
      at = λ w i h.
          Good-bind (contract E Own IsTemp) (Ends Q) (Ends R) p (go_on f) w i (first.at w i h) go;
    }
      where
        go :
            (r : Outcome Failure A) (v : World E)
            → AllStored E IsTemp v
            → Ends Q r v
            → Good (contract E Own IsTemp) (Ends R) (go_on f r) v
        go (ok a) v j q = (all a).at v j q
        go (err x) v j q =
            Good-return (contract E Own IsTemp) (Ends R) (err x) v
              λ u k _. Free-rely E Own IsTemp Left c.owns v u k q

    pub Does-return :
        {A : Type 0} {P : World E → Type 0} {Q : A → World E → Type 0} (r : Outcome Failure A)
        → Stable P
        → ((w : World E) → P w → Ends Q r w)
        → Does P (return r) Q
    Does-return {Q = Q} r stable f = record {
      at =
          λ w i h. Good-return (contract E Own IsTemp) (Ends Q) r w (λ v k _. f v (stable w v k h));
    }

    pub Does-atom :
        {A : Type 0} {P : World E → Type 0} (Q : A → World E → Type 0)
        (m : World E → Outcome Failure A × World E)
        → Stable P
        → ((a : A) → Stable (Q a))
        → ((w : World E)
            → AllStored E IsTemp w
            → P w
            → let (r, w') = m w in
              AllStored E IsTemp w' × Spares E (λ p. ¬ Own p) w w' × Ends Q r w')
        → Does P (atom m) Q
    Does-atom Q m before after step = record {
      at = λ w i h. Good-atom (contract E Own IsTemp) (Ends Q) m w λ v k j.
          let (kept, given, done) = step v j (before w v k h) in
          (kept, given, λ u l _. Stable-Ends Q after (m v).0 (m v).1 u l done);
    }

    -- A step that only reads, or that changes what nobody relies on.
    pub Does-look :
        {A : Type 0} {P : World E → Type 0} (Q : A → World E → Type 0)
        (m : World E → Outcome Failure A × World E)
        → Stable P
        → ((a : A) → Stable (Q a))
        → ((w : World E) → ((m w).1.dest ≡ w.dest) × ((m w).1.index ≡ w.index))
        → ((w : World E) → P w → Ends Q (m w).0 (m w).1)
        → Does P (atom m) Q
    Does-look Q m before after same f =
        Does-atom Q m before after
          λ w i h. let (d, x) = same w in (rw (d, x) i, (λ p _. rw d refl, λ k s. rw x s), f w h)

    -- An operation on the temporary file alone, after which what was known still is.
    pub Does-on_dest :
        {P : World E → Type 0} (op : E.dest.State → Option Text × E.dest.State) (f : Text → Failure)
        → ((d : E.dest.State) → Touches E tmp d (op d).1)
        → Stable P
        → ((w : World E) → P w → P (record w { dest = (op w.dest).1 }))
        → ((w : World E) → P w → Free E Left w)
        → Does P (atom (on_dest E op f)) (λ _. P)
    unfolding on_dest
    Does-on_dest {P = P} op f touches stable known free =
        Does-atom (λ _. P) _ stable (λ _. stable)
          λ w i h. (
            Touches-AllStored E Own IsTemp tmp c.own c.temp w _ (touches w.dest) i,
            Touches-Spares E Own IsTemp tmp c.own c.temp w _ (touches w.dest),
            ends (op w.dest).0 _ (known w h),
          )
      where
        ends : (r : Option Text) (w : World E) → P w → Ends (λ _. P) (returned E r f) w
        ends none w h = h
        ends (some cause) w h = free w h

    pub Does-on_error :
        {A : Type 0} {P : World E → Type 0} (Q : A → World E → Type 0)
        (op : E.dest.State → Option Text × E.dest.State) (p : Steps E A)
        → ((d : E.dest.State) → Touches E tmp d (op d).1)
        → ((a : A) → Stable (Q a))
        → Does P p Q
        → Does P (on_error_steps E op p) Q
    Does-on_error {A = A} Q op p touches after does = record {
      at = λ w i h.
          Good-bind (contract E Own IsTemp) (Ends Q) (Ends Q) p (cleaned_steps E op) w i
            (does.at w i h) go;
    }
      where
        free : Stable (Free E Left)
        free = Free-rely E Own IsTemp Left c.owns

        go :
            (r : Outcome Failure A) (v : World E)
            → AllStored E IsTemp v
            → Ends Q r v
            → Good (contract E Own IsTemp) (Ends Q) (cleaned_steps E op r) v
        go (ok a) v j q =
            Good-return (contract E Own IsTemp) (Ends Q) (ok a) v λ u k _. after a v u k q
        go (err x) v j q = Good-act (contract E Own IsTemp) (Ends Q) _ _ v λ u k l. (
          Touches-AllStored E Own IsTemp tmp c.own c.temp u _ (touches u.dest) l,
          Touches-Spares E Own IsTemp tmp c.own c.temp u _ (touches u.dest),
          Good-return (contract E Own IsTemp) (Ends Q) (err x) _ λ t m _.
              free (record u { dest = (op u.dest).1 }) t m
                (Touches-Free E Own IsTemp tmp c.own c.temp Left c.apart u _ (touches u.dest)
                  (free v u k q)),
        )

    pub Does-weaken :
        {A : Type 0} {P : World E → Type 0} (P' : World E → Type 0) {Q : A → World E → Type 0}
        (p : Steps E A)
        → ((w : World E) → P w → P' w)
        → Does P' p Q
        → Does P p Q
    Does-weaken P' p f does = record { at = λ w i h. does.at w i (f w h) }

    pub Does-if :
        {A : Type 0} (P : Bool → World E → Type 0) {Q : A → World E → Type 0} (b : Bool)
        (p q : Steps E A)
        → Does (P true) p Q
        → Does (P false) q Q
        → Does (P b) (if b then p else q) Q
    Does-if P true p q first second = first
    Does-if P false p q first second = second

    Ends-map :
        {A : Type 0} (Q Q' : A → World E → Type 0)
        → ((a : A) (w : World E) → Q a w → Q' a w)
        → (r : Outcome Failure A) (w : World E) → Ends Q r w
        → Ends Q' r w
    Ends-map Q Q' f (ok a) w q = f a w q
    Ends-map Q Q' f (err x) w q = q

    pub Does-map :
        {A : Type 0} {P : World E → Type 0} (Q : A → World E → Type 0) {Q' : A → World E → Type 0}
        (p : Steps E A)
        → ((a : A) (w : World E) → Q a w → Q' a w)
        → Does P p Q
        → Does P p Q'
    Does-map Q {Q' = Q'} p f does = record {
      at = λ w i h.
          Good-map (contract E Own IsTemp) (Ends Q) (Ends Q') (Ends-map Q Q' f) p w (does.at w i h);
    }
