-- ===== src/Rules/Semantics.antt =====
-- What a compiled policy decides, against a description that reads the policy's entries directly.
use cardingest.Base.{ℕ, ◌+◌, ◌≡◌, refl, ◌∙◌, List, [], ◌∷◌, ◌++◌, Option, none}
use cardingest.Base.{
  some, Outcome, ok, err, ◌==◌, list_eq, nat_eq, if◌then◌else◌, arith, wrap, wrap-eq-ok,
  ok-injective,
}
use cardingest.Base.{>>=-eq-ok, Bool-cases, inl, inr}
use cardingest.Card.{FileEntry}
use cardingest.Config.{Rule}
use cardingest.Rules.{Glob, Action, keep, skip, CompiledRule, Engine, matches, decide_rules}
use cardingest.Rules.{decide, is_nil}
use cardingest.Rules.Size.{Float}
use cardingest.Rules.Compile.{in_default, in_rule, Cause, parse_action, compile_rule}
use cardingest.Rules.Compile.{compile_from, compile}

-- The action of the last default entry, or the given one.
pub last_default : Action → List Rule → Action
last_default act [] = act
last_default act (r ∷ rest) =
    let here : Action = elim (parse_action r.default) [ ok a ↦ a | err e ↦ act ] in
    last_default (if r.default == [] then act else here) rest

-- First match wins, else the default.
abbrev pub choose : Option Action → Action → Action
choose none act = act
choose (some a) act = a

module _ (G : Glob) (N : Float) (f : FileEntry) where
  -- The action of one entry on a file, if it has one and matches.
  abbrev verdict : Outcome Cause CompiledRule → Option Action
  verdict (ok c) = if matches G c.match f then some c.action else none
  verdict (err e) = none

  abbrev or_later : Option Action → Option Action → Option Action
  or_later none later = later
  or_later (some a) later = some a

  -- The action of the first entry with an action that matches the file.
  pub first_match : List Rule → Option Action
  first_match [] = none
  first_match (r ∷ rest) =
      or_later (if r.default == [] then verdict (compile_rule G N r) else none) (first_match rest)

  decide_rules-append :
      (rules : List CompiledRule) (c : CompiledRule) (act : Action)
      → decide_rules G (rules ++ c ∷ []) act f
        ≡ decide_rules G rules (if matches G c.match f then c.action else act) f
  unfolding decide_rules
  decide_rules-append [] c act = refl
  decide_rules-append (r ∷ rules) c act = rw (decide_rules-append rules c act)

  choose-rule :
      (c : CompiledRule) (later : Option Action) (act : Action)
      → choose (or_later (verdict (ok c)) later) act
        ≡ (if matches G c.match f then c.action else choose later act)
  choose-rule c later act = ground arith

  -- Under the rules compiled so far, the loop leaves the choice to the entries that follow.
  decide-compile_from :
      (i : ℕ) (rules : List CompiledRule) (act : Action) (cfg : List Rule) {e : Engine}
      → compile_from G N i rules act cfg ≡ ok e
      → decide G e f ≡ decide_rules G rules (choose (first_match cfg) (last_default act cfg)) f
  unfolding compile_from decide first_match last_default
  decide-compile_from i rules act [] {e} h = rw (← ok-injective h)
  decide-compile_from i rules act (r ∷ rest) {e} h = elim (Bool-cases (r.default == [])) [
    | inl bare ↦
        let (c, p, q) = >>=-eq-ok (wrap (in_rule i r.name) (compile_rule G N r)) _ (rw bare at h) in
        rw (bare, wrap-eq-ok (in_rule i r.name) (compile_rule G N r) p, choose-rule)
          (decide-compile_from (i + 1) (rules ++ c ∷ []) act rest q ∙ decide_rules-append rules c _)
    | inr given ↦
        let (a, p, q) =
          >>=-eq-ok (wrap (in_default i) (parse_action r.default)) _ (rw given at h) in
        rw (given, wrap-eq-ok (in_default i) (parse_action r.default) p)
          (decide-compile_from (i + 1) rules a rest q)
  ]

-- A policy with entries that compiles decides by the first entry with an action that matches the
-- file, else by the last default entry, else it skips; an empty policy keeps every file.
pub decide-compile :
    (G : Glob) (N : Float) (cfg : List Rule) (f : FileEntry) {e : Engine}
    → compile G N cfg ≡ ok e
    → decide G e f
      ≡ (if is_nil cfg then keep else choose (first_match G N f cfg) (last_default skip cfg))
unfolding compile decide is_nil
decide-compile G N [] f {e} h = rw (← ok-injective h)
decide-compile G N (r ∷ rest) f {e} h =
    decide-compile_from G N f 0 [] skip (r ∷ rest) h ∙ unfold decide_rules in refl
