-- ===== src/Rules/Compile.antt =====
-- `Compile`, `parseAction` and `compileMatch` of internal/rules/compile.go.
use cardingest.Base.{ℕ, ◌+◌, true, false, List, [], ◌∷◌, ◌++◌, map, Option, none, some}
use cardingest.Base.{Outcome, ok, err, wrap, ◌>>=◌, ◌==◌, list_eq, nat_eq, if◌then◌else◌}
use cardingest.Base.Int.{pos}
use cardingest.Base.Strings.{Text, codes, to_lower, trim_space}
use cardingest.Config.{Rule, RuleMatch}
use cardingest.Rules.{Glob, Action, keep, skip, Matcher, CompiledRule, Engine, keep_all, engine}
use cardingest.Rules.Size.{Float, SizeError, parse_size}

pub data Cause : Type 0 where
  unknown_action : Text → Cause
  invalid_path_glob : Text → Cause
  size_error : SizeError → Cause

-- The position of the refused entry, with its name where it is not a default entry.
pub data RuleError : Type 0 where
  in_default : ℕ → Cause → RuleError
  in_rule : ℕ → Text → Cause → RuleError

unfoldable pub parse_action : Text → Outcome Cause Action
unfolding list_eq nat_eq
parse_action s =
    let word = to_lower (trim_space s) in
    if word == codes "keep"
    then ok keep
    else if word == codes "skip"
    then ok skip
    else err (unknown_action s)

abbrev pub match_all : Matcher
match_all = record {
  exts = [];
  glob = [];
  max_size = pos 0;
  has_max = false;
  min_size = pos 0;
  has_min = false;
}

module _ (G : Glob) (N : Float) where
  set_glob : Text → Matcher → Outcome Cause Matcher
  set_glob g m =
      if g == []
      then ok m
      else if G.validate g
      then ok (record m { glob = g })
      else err (invalid_path_glob g)

  set_max : Text → Matcher → Outcome Cause Matcher
  set_max s m =
      if s == []
      then ok m
      else do n ← wrap size_error (parse_size N s); ok (record m { max_size = n; has_max = true })

  set_min : Text → Matcher → Outcome Cause Matcher
  set_min s m =
      if s == []
      then ok m
      else do n ← wrap size_error (parse_size N s); ok (record m { min_size = n; has_min = true })

  unfoldable pub compile_match : Option RuleMatch → Outcome Cause Matcher
  unfolding set_glob set_max set_min
  compile_match none = ok match_all
  compile_match (some rm) = do
    let exts : List Text = map (λ e. to_lower (trim_space e)) rm.ext
    m ← set_glob rm.path_glob (record match_all { exts = exts })
    m ← set_max rm.max_size m
    set_min rm.min_size m

  -- An entry with an action: its compiled rule.
  unfoldable pub compile_rule : Rule → Outcome Cause CompiledRule
  compile_rule r = do
    act ← parse_action r.action
    m ← compile_match r.match
    ok (record { match = m; action = act })

  -- The loop, from entry i on, over the engine built so far.
  unfoldable pub compile_from :
      ℕ → List CompiledRule → Action → List Rule → Outcome RuleError Engine
  compile_from i rules act [] = ok (engine rules act)
  compile_from i rules act (r ∷ rest) =
      let as_rule =
        wrap (in_rule i r.name) (compile_rule r)
        >>= (λ c. compile_from (i + 1) (rules ++ c ∷ []) act rest) in
      let as_default =
        wrap (in_default i) (parse_action r.default) >>= (λ a. compile_from (i + 1) rules a rest) in
      if r.default == [] then as_rule else as_default

  unfoldable pub compile : List Rule → Outcome RuleError Engine
  unfolding compile_from
  compile [] = ok keep_all
  compile (r ∷ rest) = compile_from 0 [] skip (r ∷ rest)
