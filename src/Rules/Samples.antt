-- ===== src/Rules/Samples.antt =====
-- The theorems about rules at a concrete policy.
use cardingest.Base.{ℕ, ◌*◌, ◌≡◌, ◌↔◌, refl, true, List, [], ◌∷◌, none, some}
use cardingest.Base.{ok, err, All, list_eq, ◌==◌, nat_eq, if◌then◌else◌}
use cardingest.Base.Int.{pos}
use cardingest.Base.Strings.{codes, to_lower, to_upper, ext, trim_space}
use cardingest.Card.{FileEntry}
use cardingest.Config.{Rule, RuleMatch}
use cardingest.Rules.{Glob, keep, skip, Matcher, Engine, engine, matches, decide, is_nil}
use cardingest.Rules.Size.{Float, parse_size, span_number, multiplier}
use cardingest.Rules.Compile.{compile, compile_rule, compile_match, parse_action, match_all}
use cardingest.Rules.Semantics.{decide-compile, choose, first_match, last_default}
use cardingest.Rules.Criteria.{MeetsAll, matches_iff, compile_iff}
use cardingest.Rules.Entries.{IsWellFormed}

abbrev any_glob : Glob
any_glob = record { validate = λ p. true; match = λ p q. ok true }

-- Whole numbers of one size.
abbrev hundreds : Float
hundreds = record {
  F = ℕ;
  parse = λ s. if s == [] then err s else ok 100;
  of_int = λ n. n;
  times = λ x y. x * y;
  to_int64 = pos;
}

abbrev tiny : RuleMatch
tiny = record { ext = []; path_glob = []; max_size = codes "100KB"; min_size = [] }

abbrev media : RuleMatch
media = record { ext = codes ".ARW" ∷ []; path_glob = []; max_size = []; min_size = [] }

abbrev policy : List Rule
policy =
    record { name = codes "tiny"; match = some tiny; action = codes "skip"; default = [] }
    ∷ record { name = codes "media"; match = some media; action = codes "Keep "; default = [] }
    ∷ record { name = []; match = none; action = []; default = codes "skip" }
    ∷ []

abbrev only_raw : Matcher
only_raw = record match_all { exts = codes ".arw" ∷ [] }

abbrev below_100kb : Matcher
below_100kb = record match_all { max_size = pos 100000; has_max = true }

abbrev compiled : Engine
compiled =
    engine
      (record { match = below_100kb; action = skip }
        ∷ record { match = only_raw; action = keep }
        ∷ [])
      skip

policy_compiles : compile any_glob hundreds policy ≡ ok compiled
unfolding compile compile_rule compile_match parse_action parse_size span_number multiplier to_lower
    to_upper trim_space list_eq
policy_compiles = refl

abbrev picture : FileEntry
picture = record {
  path = codes "DCIM/a.ARW";
  size = 204800;
  mod_time = record { year = 2026; month = 1; day = 1; nanos = 0 };
}

picture_kept : decide any_glob compiled picture ≡ keep
unfolding decide matches to_lower ext list_eq
picture_kept = refl

decide-compile_example :
    decide any_glob compiled picture
    ≡ choose (first_match any_glob hundreds picture policy) (last_default skip policy)
unfolding is_nil
decide-compile_example = decide-compile any_glob hundreds policy picture policy_compiles

matches_iff_example :
    (matches any_glob only_raw picture ≡ true) ↔ MeetsAll any_glob only_raw picture
matches_iff_example = matches_iff any_glob only_raw picture

compile_iff_example :
    ((e : Engine) × (compile any_glob hundreds policy ≡ ok e))
    ↔ All (IsWellFormed any_glob hundreds) policy
compile_iff_example = compile_iff any_glob hundreds policy
