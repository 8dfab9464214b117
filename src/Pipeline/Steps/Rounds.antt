-- ===== src/Pipeline/Steps/Rounds.antt =====
-- A round of the loop over the files, whatever the other slots do in between.
use cardingest.Base.{ℕ, ◌≡◌, refl, Bool, Option, none}
use cardingest.Base.{arith, some, Outcome, ok, err, inl, inr, List, [], ◌∷◌, All, All-map}
use cardingest.Base.Int.{ℤ}
use cardingest.Base.Strings.{Text}
use cardingest.Base.Threads.Rely.{Contract, Good, Good-bind, Good-return, Good-act}
use cardingest.Card.{FileEntry}
use cardingest.Pipeline.{Env, Deps, Input}
use cardingest.Pipeline.Copy.{Failure, World, dest_path}
use cardingest.Pipeline.Ingest.{Report, IngestError, Fate, passed_over, tried, settle, wanted}
use cardingest.Pipeline.Ingest.{emit_progress, cancelled}
use cardingest.Pipeline.Frame.{IsLawful}
use cardingest.Pipeline.Safety.{IsLawfulIndex, IsSafe}
use cardingest.Pipeline.Safety.Ingest.{All-settle, dest-emit_progress}
use cardingest.Pipeline.Steps.{copy_steps, attempt_steps, one_file_steps}
use cardingest.Pipeline.Steps.Own.{AllStored, Sees, Spares, Free, Free-rely, contract}
use cardingest.Pipeline.Steps.Rules.{Ends}
use cardingest.Pipeline.Steps.Safety.{Tenant, Place, Does-copy}
use cardingest.Base.Threads.Rely.{Good-frame}
use cardingest.Pipeline.Steps.Wanted.{Wants, Distinct, Wants-elsewhere}

module _ (E : Env) (L : IsLawful E.dest) (I : IsLawfulIndex E.index) (deps : Deps) (input : Input)
    (Own IsTemp : Text → Type 0) (t : Tenant E Own IsTemp input.slot) where
  abbrev C : Contract (World E)
  C = contract E Own IsTemp

  abbrev pub Safe : List Text → World E → Type 0
  Safe paths w = All (IsSafe E deps input w.index) paths

  pub Safe-Sees :
      (paths : List Text) (v w : World E)
      → ((k : Text) → Sees E v.index k → Sees E w.index k)
      → Safe paths v
      → Safe paths w
  Safe-Sees paths v w h all =
      All-map _ _ paths
        (λ p s. record { opened = s.opened; complete = s.complete; seen = h _ s.seen }) all

  -- The paths that the files are to go to are the slot's, and no temporary file's.
  abbrev pub Hosts : List FileEntry → Type 0
  Hosts entries = (p : Text) → Wants E deps input entries p → Own p × (¬ IsTemp p)

  Place-of :
      (e : FileEntry) (entries : List FileEntry) (category : Text)
      → Hosts (e ∷ entries)
      → Distinct E deps input (e ∷ entries)
      → wanted E deps input e ≡ some category
      → Place Own IsTemp (Wants E deps input entries) (dest_path E deps input e category)
  unfolding Wants
  Place-of e entries category host distinct w =
      let (own, apart) = host (dest_path E deps input e category) (inl (category, w, refl)) in
      record {
        owns = λ p h. (host p (inr h)).0;
        apart = λ p h. (host p (inr h)).1;
        final_own = own;
        final_apart = apart;
        away = λ p. Wants-elsewhere E deps input _ p entries (distinct.0 category w);
      }

  -- After a file: the paths of those to come are free, and a copy that returned made its file safe.
  abbrev Tried : FileEntry → List FileEntry → Fate → World E → Type 0
  Tried e entries fate w =
      Free E (Wants E deps input entries) w
      × ((category : Text) (b : Bool)
          → fate ≡ tried category (ok b)
          → IsSafe E deps input w.index e.path)

  Tried-Ends :
      (e : FileEntry) (entries : List FileEntry) (category : Text)
      → Hosts (e ∷ entries)
      → (r : Outcome Failure Bool) (v u : World E) → Spares E Own v u
      → Ends E Own IsTemp
          (Wants E deps input entries)
          (λ b w. Free E (Wants E deps input entries) w × IsSafe E deps input w.index e.path)
          r
          v
      → Tried e entries (tried category r) u
  unfolding Wants
  Tried-Ends e entries category host (ok b) v u h (free, safe) = (
    Free-rely E Own IsTemp _ (λ p k. (host p (inr k)).0) v u h free,
    λ c b' q. (Safe-Sees (e.path ∷ []) v u h.1 (safe, tt)).0,
  )
  Tried-Ends e entries category host (err x) v u h free = (
    Free-rely E Own IsTemp _ (λ p k. (host p (inr k)).0) v u h free,
    λ c b' q. absurd (ground arith),
  )

  attempt-Good :
      (e : FileEntry) (entries : List FileEntry) (o : Option Text) (w : World E)
      → Hosts (e ∷ entries)
      → Distinct E deps input (e ∷ entries)
      → wanted E deps input e ≡ o
      → AllStored E IsTemp w
      → Free E (Wants E deps input (e ∷ entries)) w
      → Good C (Tried e entries) (attempt_steps E deps input e o) w
  unfolding Wants
  attempt-Good e entries none w host distinct is i free =
      Good-return C (Tried e entries) passed_over w λ v h _. (
        Free-rely E Own IsTemp _ (λ p k. (host p (inr k)).0) w v h (λ p k. free p (inr k)),
        λ c b q. absurd (ground arith),
      )
  attempt-Good e entries (some category) w host distinct is i free =
      let place = Place-of e entries category host distinct is in
      Good-bind C _ (Tried e entries) (copy_steps E deps input e category) _ w i
        ((Does-copy E L I deps input Own IsTemp t _ e category place).at w i
          (tt, λ p h. free p (elim h [ inl k ↦ inr k | inr q ↦ inl (category, is, q) ])))
        λ r v _ ends.
          Good-return C (Tried e entries) (tried category r) v
            λ u h _. Tried-Ends e entries category host r v u h ends

  -- After a round: an error leaves the report as it was; else the files to come are as before.
  abbrev pub Rounded : List FileEntry → Report → Outcome IngestError Report → World E → Type 0
  Rounded entries r (err x) w = Safe r.verified w
  Rounded entries r (ok r') w = Free E (Wants E deps input entries) w × Safe r'.verified w

  Rounded-rely :
      (entries : List FileEntry) (r : Report) (o : Outcome IngestError Report) (v w : World E)
      → ((p : Text) → Wants E deps input entries p → Own p)
      → Spares E Own v w
      → Rounded entries r o v
      → Rounded entries r o w
  Rounded-rely entries r (err x) v w owns h all = Safe-Sees r.verified v w h.1 all
  Rounded-rely entries r (ok r') v w owns h (free, all) =
      (Free-rely E Own IsTemp _ owns v w h free, Safe-Sees r'.verified v w h.1 all)

  settle-Rounded :
      (e : FileEntry) (entries : List FileEntry) (fate : Fate) (r : Report) (w : World E)
      (o : Outcome IngestError Report)
      → settle e fate r ≡ o
      → Tried e entries fate w
      → Safe r.verified w
      → Rounded entries r o w
  settle-Rounded e entries fate r w (err x) h (free, safe) all = all
  settle-Rounded e entries fate r w (ok r') h (free, safe) all =
      (free, All-settle (IsSafe E deps input w.index) e fate r h all safe)

  pub one_file-Good :
      (stop : Option Text) (n : ℕ) (total : ℤ) (i : ℕ) (e : FileEntry) (entries : List FileEntry)
      (r : Report) (w : World E)
      → Hosts (e ∷ entries)
      → Distinct E deps input (e ∷ entries)
      → AllStored E IsTemp w
      → Free E (Wants E deps input (e ∷ entries)) w
      → Safe r.verified w
      → Good C (Rounded entries r) (one_file_steps E deps input stop n total i e r) w
  unfolding Wants
  one_file-Good (some cause) n total i e entries r w host distinct j free all =
      Good-return C (Rounded entries r) (err (cancelled cause)) w
        λ v h _. Safe-Sees r.verified w v h.1 all
  one_file-Good none n total i e entries r w host distinct j free all =
      Good-act C (Rounded entries r) _ _ w λ v h k.
        let v' = emit_progress E deps input i n r.bytes_copied total e.path v in
        let (d, x) = dest-emit_progress E L I deps input i n r.bytes_copied total e.path v in
        let kept : AllStored E IsTemp v' = rw (d, x) k in
        let free' : Free E (Wants E deps input (e ∷ entries)) v' =
          rw d (Free-rely E Own IsTemp _ (λ p q. (host p q).0) w v h free) in
        (
          kept,
          (λ p _. rw d refl, λ p s. rw x s),
          Good-bind C _ (Rounded entries r) (attempt_steps E deps input e (wanted E deps input e)) _
              v' kept
              (Good-frame C _ (Safe r.verified) (λ s u q. Safe-Sees r.verified s u q.1)
                (λ s u q. Safe-Sees r.verified s u q.1) _ v'
                (rw x (Safe-Sees r.verified w v h.1 all))
                (attempt-Good e entries (wanted E deps input e) v' host distinct refl kept free'))
              λ fate u _ (ends, safe).
                Good-return C (Rounded entries r) (settle e fate r) u λ z q _.
                  Rounded-rely entries r (settle e fate r) u z (λ p a. (host p (inr a)).0) q
                    (settle-Rounded e entries fate r u (settle e fate r) refl ends safe),
        )
