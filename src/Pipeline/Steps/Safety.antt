-- ===== src/Pipeline/Steps/Safety.antt =====
-- A copy from its beginning to its end, whatever the other slots do in between.
use mathlib.Core.Path.{subst}
use cardingest.Base.{ℕ, ◌+◌, ◌%◌, ◌^◌, ◌≡◌, ◌≢◌, refl, sym, Bool}
use cardingest.Base.Strings.{Text}
use cardingest.Base.Threads.{atom}
use cardingest.Card.{FileEntry}
use cardingest.Pipeline.{Env, Deps, Input, tmp_dir}
use cardingest.Pipeline.Copy.{World, tmp_path, next_tmp, dest_path}
use cardingest.Pipeline.Frame.{IsLawful}
use cardingest.Pipeline.Landing.{WasRead}
use cardingest.Pipeline.Safety.{IsLawfulIndex, IsSafe}
use cardingest.Pipeline.Steps.{copy_steps, copy_to_steps}
use cardingest.Pipeline.Steps.Own.{Free}
use cardingest.Pipeline.Steps.Rules.{Copying, Does, Does-bind, Does-look}
use cardingest.Pipeline.Steps.Rules.{Does-on_error, Does-map}
use cardingest.Pipeline.Steps.Copying.{Clear, Stable-Clear, Does-tmp, Does-stream, discards}
use cardingest.Pipeline.Steps.Deduping.{Does-dedupe}

-- What a slot owns: its temporary files.
pub record Tenant (E : Env) (Own IsTemp : Text → Type 0) (slot : Text) : Type 0 where
  pub own : (n : ℕ) → Own (tmp_path E slot n)
  pub temp : (n : ℕ) → IsTemp (tmp_path E slot n)

-- The place that a file is to go to, and the places of the files after it.
pub record Place (Own IsTemp Left : Text → Type 0) (final : Text) : Type 0 where
  pub owns : (p : Text) → Left p → Own p
  pub apart : (p : Text) → Left p → ¬ IsTemp p
  pub final_own : Own final
  pub final_apart : ¬ IsTemp final
  pub away : (p : Text) → Left p → final ≢ p

module _ (E : Env) (L : IsLawful E.dest) (I : IsLawfulIndex E.index) (deps : Deps) (input : Input)
    (Own IsTemp : Text → Type 0) (t : Tenant E Own IsTemp input.slot) where
  module _ (Left : Text → Type 0) (e : FileEntry) (category : Text)
      (place : Place Own IsTemp Left (dest_path E deps input e category)) where
    abbrev copying : (n : ℕ) → Copying Own IsTemp Left (tmp_path E input.slot n)
    copying n = record {
      own = t.own n;
      temp = t.temp n;
      owns = place.owns;
      apart = place.apart;
      final = dest_path E deps input e category;
      final_own = place.final_own;
      final_apart = place.final_apart;
      away = place.away;
    }

    abbrev Ready : Type 0 → World E → Type 0
    Ready X = Clear E L Own IsTemp Left (tmp_path E input.slot 0) (copying 0) X

    -- The copy returned: what the card delivered is what the index has, by its hash.
    abbrev Copied : Bool → World E → Type 0
    Copied b w = Free E Left w × IsSafe E deps input w.index e.path

    Does-next :
        Does E Own IsTemp Left
          (Ready Unit)
          (atom (next_tmp E input.slot))
          (λ tmp. Ready ((n : ℕ) × (tmp ≡ tmp_path E input.slot n)))
    unfolding next_tmp
    Does-next =
        let tmp = tmp_path E input.slot 0 in
        Does-look E Own IsTemp Left tmp (copying 0) _ _
          (Stable-Clear E L Own IsTemp Left tmp (copying 0) Unit)
          (λ _. Stable-Clear E L Own IsTemp Left tmp (copying 0) _) (λ w. (refl, refl))
          λ w (x, free). (((w.seq + 1) % 2 ^ 64, refl), free)

    Does-copy_to :
        (n : ℕ)
        → Does E Own IsTemp Left
            (Ready Unit)
            (copy_to_steps E deps input e category (tmp_path E input.slot n))
            Copied
    unfolding copy_to_steps
    Does-copy_to n =
        let tmp = tmp_path E input.slot n in
        let c = copying n in
        Does-bind E Own IsTemp Left tmp c _ _ _
          (Does-on_error E Own IsTemp Left tmp c _ (λ d. E.dest.remove d tmp) _
            (discards E L Own IsTemp Left tmp c) (λ _. Stable-Clear E L Own IsTemp Left tmp c _)
            (Does-stream E L Own IsTemp Left tmp c input.card_fs e.path))
          λ hash.
            Does-map E Own IsTemp Left tmp c _ _
              (λ _ w (read, free, s). (
                free,
                record {
                  opened = read.opened;
                  complete = read.complete;
                  seen = rw (← read.hashed) s;
                },
              ))
              (Does-dedupe E L I Own IsTemp Left tmp c (WasRead E input.card_fs e.path hash) hash)

    Does-named :
        (tmp : Text)
        → Does E Own IsTemp Left
            (Ready ((n : ℕ) × (tmp ≡ tmp_path E input.slot n)))
            (copy_to_steps E deps input e category tmp)
            Copied
    Does-named tmp = record {
      at = λ w i ((n, q), free).
          (subst
              (λ s.
                Does E Own IsTemp Left (Ready Unit) (copy_to_steps E deps input e category s)
                  Copied)
              (sym q) (Does-copy_to n)).at
            w i (tt, free);
    }

    pub Does-copy : Does E Own IsTemp Left (Ready Unit) (copy_steps E deps input e category) Copied
    unfolding copy_steps
    Does-copy =
        let tmp = tmp_path E input.slot 0 in
        let c = copying 0 in
        Does-bind E Own IsTemp Left tmp c _ _ _
          (Does-tmp E L Own IsTemp Left tmp c Unit (λ d. E.dest.mkdir_all d tmp_dir) _
            (λ d q _. L.read-mkdir_all d tmp_dir q))
          λ _. Does-bind E Own IsTemp Left tmp c _ _ _ Does-next λ tmp'. Does-named tmp'
