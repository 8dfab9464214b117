-- ===== src/Rules/Criteria.antt =====
-- When a compiled rule matches a file, and when a policy compiles.
use cardingest.Base.{
  ℕ, ◌+◌, ◌≡◌, ◌↔◌, ◌⊎◌, Bool, true, false, List, [], ◌∷◌, ◌++◌, Outcome, ok, err,
}
use cardingest.Base.{
  inl, inr, contains, eq_true, list_eq, nat_eq, arith, ◌==◌, All, All-map, Bool-cases, wrap, refl,
}
use cardingest.Base.{wrap-eq-ok, >>=-eq-ok}
use cardingest.Base.Int.{pos, ◌≤ℤ◌}
use cardingest.Base.Strings.{Text, to_lower, ext}
use cardingest.Card.{FileEntry}
use cardingest.Config.{Rule}
use cardingest.Rules.{
  accepted, engine, keep_all, Glob, Matcher, matches, is_nil, Action, CompiledRule, Engine, skip,
}
use cardingest.Rules.Size.{Float}
use cardingest.Rules.Entries.{IsTaken, IsTaken-iff, IsWellFormed}
use cardingest.Rules.Compile.{
  parse_action, compile_rule, compile_from, compile, in_rule, in_default,
}

is_nil-true : {A : Type 0} (xs : List A) → is_nil xs ≡ true → xs ≡ []
unfolding is_nil
is_nil-true [] h = refl
is_nil-true (x ∷ xs) h = cc

accepted-true : (o : Outcome Text Bool) → accepted o ≡ true → o ≡ ok true
accepted-true (ok true) h = refl
accepted-true (ok false) h = cc
accepted-true (err e) h = cc

module _ (G : Glob) (m : Matcher) (f : FileEntry) where
  -- The four criteria, each of which an absent bound, extension list or glob satisfies.
  pub record MeetsAll : Type 0 where
    pub in_exts : (m.exts ≡ []) ⊎ (contains m.exts (to_lower (ext f.path)) ≡ true)
    pub in_glob : (m.glob ≡ []) ⊎ (G.match m.glob f.path ≡ ok true)
    pub below_max : m.has_max ≡ true → pos f.size ≤ℤ m.max_size
    pub above_min : m.has_min ≡ true → m.min_size ≤ℤ pos f.size

  -- A rule matches a file exactly when the file meets every one of its criteria.
  pub matches_iff : (matches G m f ≡ true) ↔ MeetsAll
  unfolding matches is_nil
  matches_iff = (
    λ h. record {
      in_exts = ground (arith, is_nil-true m.exts);
      in_glob = ground (arith, accepted-true (G.match m.glob f.path));
      below_max = ground arith;
      above_min = ground arith;
    },
    λ c. ground (arith, c.in_exts, c.in_glob, is_nil-true m.exts),
  )

module _ (G : Glob) (N : Float) where
  abbrev Compiles : ℕ → List CompiledRule → Action → List Rule → Type 0
  Compiles i rules act cfg = (e : Engine) × (compile_from G N i rules act cfg ≡ ok e)

  compile_from-IsTaken :
      (i : ℕ) (rules : List CompiledRule) (act : Action) (cfg : List Rule)
      → Compiles i rules act cfg
      → All (IsTaken G N) cfg
  unfolding compile_from
  compile_from-IsTaken i rules act [] h = tt
  compile_from-IsTaken i rules act (r ∷ rest) (e, h) = elim (Bool-cases (r.default == [])) [
    | inl bare ↦
        let (c, p, q) = >>=-eq-ok (wrap (in_rule i r.name) (compile_rule G N r)) _ (rw bare at h) in
        (
          inl (eq_true _ _ bare, (c, wrap-eq-ok (in_rule i r.name) (compile_rule G N r) p)),
          compile_from-IsTaken (i + 1) (rules ++ c ∷ []) act rest (e, q),
        )
    | inr given ↦
        let (a, p, q) =
          >>=-eq-ok (wrap (in_default i) (parse_action r.default)) _ (rw given at h) in
        (
          inr (ground arith, (a, wrap-eq-ok (in_default i) (parse_action r.default) p)),
          compile_from-IsTaken (i + 1) rules a rest (e, q),
        )
  ]

  compile_from_total :
      (i : ℕ) (rules : List CompiledRule) (act : Action) (cfg : List Rule)
      → All (IsTaken G N) cfg
      → Compiles i rules act cfg
  unfolding compile_from
  compile_from_total i rules act [] h = (engine rules act, refl)
  compile_from_total i rules act (r ∷ rest) (inl (bare, (c, p)), h) =
      let (e, q) = compile_from_total (i + 1) (rules ++ c ∷ []) act rest h in
      (e, ground (arith, p, q))
  compile_from_total i rules act (r ∷ rest) (inr (given, (a, p)), h) =
      let (e, q) = compile_from_total (i + 1) rules a rest h in (e, ground (arith, p, q))

  -- A policy compiles exactly when each of its entries by itself is well formed: it has a default,
  -- which is the word of an action; or it has none, its action is such a word, and if it has a match,
  -- then its glob is left out or valid, and each of its two sizes is left out or is a number that the
  -- library parses with one of the known units after it.
  pub compile_iff :
      (cfg : List Rule) → ((e : Engine) × (compile G N cfg ≡ ok e)) ↔ All (IsWellFormed G N) cfg
  unfolding compile
  compile_iff [] = (λ h. tt, λ h. (keep_all, refl))
  compile_iff (r ∷ rest) = (
    λ h.
        All-map (IsTaken G N) (IsWellFormed G N) (r ∷ rest) (λ e. (IsTaken-iff G N e).0)
          (compile_from-IsTaken 0 [] skip (r ∷ rest) h),
    λ h.
        compile_from_total 0 [] skip (r ∷ rest)
          (All-map (IsWellFormed G N) (IsTaken G N) (r ∷ rest) (λ e. (IsTaken-iff G N e).1) h),
  )
