-- ===== src/Rules/Entries.antt =====
-- What internal/rules/compile.go accepts in one entry of a policy, said of its texts: the sizes that
-- `parseSize` parses, the words of `parseAction`, and the entries that `compileMatch` takes.
use cardingest.Base.{
  ◌≡◌, ◌≢◌, ◌↔◌, ◌⊎◌, inl, inr, refl, ap, arith, ℕ, ◌≤◌, true, Option, none, some, List, [], ◌∷◌,
  ◌++◌, Outcome, ok, err, >>=-eq-ok,
}
use cardingest.Base.{contains, All, ◌==◌, list_eq, nat_eq, eq_true, Bool-cases}
use cardingest.Base.Int.{ℤ}
use cardingest.Base.Strings.{Text, codes, to_lower, to_upper, trim_space}
use cardingest.Config.{Rule, RuleMatch}
use cardingest.Rules.{Glob, Action, Matcher, CompiledRule}
use cardingest.Rules.Size.{Float, SizeError, numeric, span_number, multiplier, parse_size}
use cardingest.Rules.Compile.{parse_action, compile_match, compile_rule}

-- A character of a number.
abbrev pub IsNumeric : ℕ → Type 0
IsNumeric c = (c ≡ b'.') ⊎ ((b'0' ≤ c) × (c ≤ b'9'))

-- A text that does not go on with a number.
abbrev pub Stops : Text → Type 0
Stops [] = Unit
Stops (c ∷ s) = ¬ IsNumeric c

-- The units that a size may have, in upper case.
abbrev pub size_units : List Text
size_units =
    []
    ∷ codes "B"
    ∷ codes "K"
    ∷ codes "KB"
    ∷ codes "M"
    ∷ codes "MB"
    ∷ codes "G"
    ∷ codes "GB"
    ∷ codes "T"
    ∷ codes "TB"
    ∷ codes "KIB"
    ∷ codes "MIB"
    ∷ codes "GIB"
    ∷ codes "TIB"
    ∷ []

-- A size is, between spaces, a number that is parsed and after it, up to case and spaces, a unit.
pub record IsSize (N : Float) (s number unit : Text) : Type 0 where
  pub whole : trim_space s ≡ number ++ unit
  pub present : trim_space s ≢ []
  pub digits : All IsNumeric number
  pub rest : Stops unit
  pub parsed : (x : N.F) × (N.parse number ≡ ok x)
  pub known : contains size_units (to_upper (trim_space unit)) ≡ true

abbrev pub Size : Float → Text → Type 0
Size N s = (number : Text) × (unit : Text) × IsSize N s number unit

numeric_iff : (c : ℕ) → (numeric c ≡ true) ↔ IsNumeric c
unfolding numeric
numeric_iff c = (λ h. ground arith, λ h. ground arith)

-- The scan stops where the number does.
span_number-of :
    (number unit : Text)
    → All IsNumeric number
    → Stops unit
    → span_number (number ++ unit) ≡ (number, unit)
unfolding span_number
span_number-of [] [] all stops = refl
span_number-of [] (c ∷ unit) all stops = ground (arith, (numeric_iff c).0)
span_number-of (c ∷ number) unit all stops =
    ground (arith, (numeric_iff c).1 all.0, span_number-of number unit all.1 stops)

span_number-splits :
    (s : Text)
    → (s ≡ (span_number s).0 ++ (span_number s).1)
      × All IsNumeric (span_number s).0
      × Stops (span_number s).1
unfolding span_number
span_number-splits [] = (refl, tt, tt)
span_number-splits (c ∷ s) = elim (Bool-cases (numeric c)) [
  | inl digit ↦
      let (whole, all, stops) = span_number-splits s in
      rw digit (ap (λ (t : Text). c ∷ t) whole, ((numeric_iff c).0 digit, all), stops)
  | inr other ↦ rw other (refl, tt, λ h. cc ((numeric_iff c).1 h))
]

returns_of : {E A : Type 0} (o : Outcome E A) → ((e : E) → o ≢ err e) → (a : A) × (o ≡ ok a)
returns_of (err e) h = absurd (h e refl)
returns_of (ok a) h = (a, refl)

some_of : (o : Option ℕ) → o ≢ none → (n : ℕ) × (o ≡ some n)
some_of none h = absurd (h refl)
some_of (some n) h = (n, refl)

multiplier_iff : (u : Text) → ((n : ℕ) × (multiplier u ≡ some n)) ↔ (contains size_units u ≡ true)
unfolding multiplier
multiplier_iff u = (λ (n, h). ground arith, λ h. some_of (multiplier u) (λ e. ground arith))

module _ (N : Float) where
  parse_size-IsSize : (s : Text) (n : ℤ) → parse_size N s ≡ ok n → Size N s
  unfolding parse_size
  parse_size-IsSize s n h =
      let (whole, all, stops) = span_number-splits (trim_space s) in
      (
        _,
        _,
        record {
          whole = whole;
          present = ground arith;
          digits = all;
          rest = stops;
          parsed = returns_of (N.parse _) (λ e k. ground (arith, h, k));
          known = (multiplier_iff _).0 (some_of (multiplier _) (λ k. ground (arith, h, k)));
        },
      )

  parse_size_total : (s : Text) → Size N s → (n : ℤ) × (parse_size N s ≡ ok n)
  unfolding parse_size
  parse_size_total s (number, unit, h) =
      let (x, parsed) = h.parsed in
      let (mult, known) = (multiplier_iff (to_upper (trim_space unit))).1 h.known in
      let split = span_number-of number unit h.digits h.rest in
      (
        N.to_int64 (N.times x (N.of_int mult)),
        ground (arith, h.whole, h.present, parsed, known, split),
      )

-- The words of an action, up to case and spaces.
abbrev pub IsAction : Text → Type 0
IsAction s = (to_lower (trim_space s) ≡ codes "keep") ⊎ (to_lower (trim_space s) ≡ codes "skip")

-- A glob that is left out or valid, and sizes that are left out or sizes.
pub record IsMatch (G : Glob) (N : Float) (m : RuleMatch) : Type 0 where
  pub glob : (m.path_glob ≡ []) ⊎ (G.validate m.path_glob ≡ true)
  pub max_size : (m.max_size ≡ []) ⊎ Size N m.max_size
  pub min_size : (m.min_size ≡ []) ⊎ Size N m.min_size

abbrev pub IsMatchIf : Glob → Float → Option RuleMatch → Type 0
IsMatchIf G N none = Unit
IsMatchIf G N (some m) = IsMatch G N m

-- An entry has the word of an action for a default, and nothing else is asked of it; or it has no
-- default, the word of an action, and a match to which the above applies if it has one.
abbrev pub IsWellFormed : Glob → Float → Rule → Type 0
IsWellFormed G N r =
    ((r.default ≡ []) × IsAction r.action × IsMatchIf G N r.match)
    ⊎ ((r.default ≢ []) × IsAction r.default)

parse_action_iff : (s : Text) → ((a : Action) × (parse_action s ≡ ok a)) ↔ IsAction s
unfolding parse_action
parse_action_iff s =
    (λ (a, h). ground arith, λ h. returns_of (parse_action s) (λ e k. ground arith))

module _ (G : Glob) (N : Float) where
  Size-total : (s : Text) → (s ≡ []) ⊎ Size N s → (s ≡ []) ⊎ ((n : ℤ) × (parse_size N s ≡ ok n))
  Size-total s (inl none_given) = inl none_given
  Size-total s (inr size) = inr (parse_size_total N s size)

  Size-if : (s : Text) → (s ≢ [] → (e : SizeError) → parse_size N s ≢ err e) → (s ≡ []) ⊎ Size N s
  Size-if s h = elim (Bool-cases (s == [])) [
    | inl none_given ↦ inl (eq_true _ _ none_given)
    | inr given ↦
        let (n, p) = returns_of (parse_size N s) (h (ground arith)) in
        inr (parse_size-IsSize N s n p)
  ]

  compile_match-IsMatch :
      (o : Option RuleMatch) (m : Matcher) → compile_match G N o ≡ ok m → IsMatchIf G N o
  unfolding compile_match
  compile_match-IsMatch none m h = tt
  compile_match-IsMatch (some rm) m h = record {
    glob = ground arith;
    max_size = Size-if rm.max_size (λ given e k. ground arith);
    min_size = Size-if rm.min_size (λ given e k. ground arith);
  }

  compile_match_total :
      (o : Option RuleMatch) → IsMatchIf G N o → (m : Matcher) × (compile_match G N o ≡ ok m)
  unfolding compile_match
  compile_match_total none h = (_, refl)
  compile_match_total (some rm) h =
      let upper = Size-total rm.max_size h.max_size in
      let lower = Size-total rm.min_size h.min_size in
      returns_of (compile_match G N (some rm)) (λ e k. ground arith)

  compile_rule_iff :
      (r : Rule)
      → ((c : CompiledRule) × (compile_rule G N r ≡ ok c))
        ↔ (IsAction r.action × IsMatchIf G N r.match)
  unfolding compile_rule
  compile_rule_iff r = (
    λ (c, h).
        let (act, p, rest) = >>=-eq-ok (parse_action r.action) _ h in
        let (m, q, done) = >>=-eq-ok (compile_match G N r.match) _ rest in
        ((parse_action_iff r.action).0 (act, p), compile_match-IsMatch r.match m q),
    λ (word, match).
        let (act, p) = (parse_action_iff r.action).1 word in
        let (m, q) = compile_match_total r.match match in
        returns_of (compile_rule G N r) (λ e k. ground (arith, p, q)),
  )

  -- One entry: it compiles to a rule, or its default is an action.
  abbrev pub IsTaken : Rule → Type 0
  IsTaken r =
      ((r.default ≡ []) × ((c : CompiledRule) × (compile_rule G N r ≡ ok c)))
      ⊎ ((r.default ≢ []) × ((a : Action) × (parse_action r.default ≡ ok a)))

  pub IsTaken-iff : (r : Rule) → IsTaken r ↔ IsWellFormed G N r
  IsTaken-iff r = (
    λ h. elim h [
      | inl (bare, rule) ↦
          let (word, match) = (compile_rule_iff r).0 rule in inl (bare, word, match)
      | inr (given, act) ↦ inr (given, (parse_action_iff r.default).0 act)
    ],
    λ h. elim h [
      | inl (bare, word, match) ↦ inl (bare, (compile_rule_iff r).1 (word, match))
      | inr (given, act) ↦ inr (given, (parse_action_iff r.default).1 act)
    ],
  )
