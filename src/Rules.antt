-- ===== src/Rules.antt =====
-- The keep/skip engine of internal/rules/rules.go and internal/rules/match.go. Globs are matched by
-- github.com/bmatcuk/doublestar, which is a parameter.
pub mod Size
pub mod Compile
pub mod Semantics
pub mod Entries
pub mod Criteria
mod Samples
use cardingest.Base.{Bool, true, false, ◌&&◌, List, [], ◌∷◌, Outcome, ok, err, contains, ◌==◌}
use cardingest.Base.{list_eq, nat_eq, if◌then◌else◌, not}
use cardingest.Base.Int.{ℤ, pos, ltb_ℤ}
use cardingest.Base.Strings.{Text, to_lower, ext}
use cardingest.Card.{FileEntry}

-- doublestar.ValidatePattern and doublestar.Match.
pub record Glob : Type 0 where
  pub validate : Text → Bool
  pub match : Text → Text → Outcome Text Bool

pub data Action : Type 0 where
  keep skip : Action

-- The lowercased extensions are a set; an empty set is any extension, an empty glob any path.
pub record Matcher : Type 0 where
  pub exts : List Text
  pub glob : Text
  pub max_size : ℤ
  pub has_max : Bool
  pub min_size : ℤ
  pub has_min : Bool

pub record CompiledRule : Type 0 where
  pub match : Matcher
  pub action : Action

-- KeepAll, or the ordered rules with the default action.
pub data Engine : Type 0 where
  keep_all : Engine
  engine : List CompiledRule → Action → Engine

-- On the separator `/` of the appliance nothing is replaced.
abbrev pub normalize_slash : Text → Text
normalize_slash p = p

pub is_nil {ℓ} : {A : Type ℓ} → List A → Bool
is_nil [] = true
is_nil (x ∷ xs) = false

abbrev pub accepted : Outcome Text Bool → Bool
accepted (ok b) = b
accepted (err e) = false

module _ (G : Glob) where
  unfoldable pub matches : Matcher → FileEntry → Bool
  unfolding is_nil
  matches m f =
      if not (is_nil m.exts) && not (contains m.exts (to_lower (ext f.path)))
      then false
      else if not (m.glob == []) && not (accepted (G.match m.glob (normalize_slash f.path)))
      then false
      else if m.has_max && ltb_ℤ m.max_size (pos f.size)
      then false
      else if m.has_min && ltb_ℤ (pos f.size) m.min_size
      then false
      else true

  unfoldable pub decide_rules : List CompiledRule → Action → FileEntry → Action
  decide_rules [] default_act f = default_act
  decide_rules (r ∷ rules) default_act f =
      if matches r.match f then r.action else decide_rules rules default_act f

  -- Engine.Decide
  unfoldable pub decide : Engine → FileEntry → Action
  unfolding decide_rules
  decide keep_all f = keep
  decide (engine rules default_act) f = decide_rules rules default_act f
