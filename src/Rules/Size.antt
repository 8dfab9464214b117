-- ===== src/Rules/Size.antt =====
-- `parseSize` of internal/rules/compile.go. There are no floats here: float64 and
-- strconv.ParseFloat are a parameter.
use cardingest.Base.{ℕ, ◌*◌, ◌^◌, Bool, ◌&&◌, ◌||◌, [], ◌∷◌, Option, none, some, Outcome, ok, err}
use cardingest.Base.{◌==◌, nat_eq, list_eq, leb, if◌then◌else◌}
use cardingest.Base.Int.{ℤ}
use cardingest.Base.Strings.{Text, codes, trim_space, to_upper}

-- `parse` is strconv.ParseFloat at 64 bits, `to_int64` the conversion int64(x).
pub record Float : Type 1 where
  pub F : Type 0
  pub parse : Text → Outcome Text F
  pub of_int : ℕ → F
  pub times : F → F → F
  pub to_int64 : F → ℤ

pub data SizeError : Type 0 where
  empty_size : SizeError
  bad_size : Text → Text → SizeError
  unknown_unit : Text → SizeError

-- A character of the number: a dot or a digit.
unfoldable pub numeric : ℕ → Bool
unfolding nat_eq
numeric c = c == b'.' || (leb b'0' c && leb c b'9')

-- s[:i] and s[i:], for the first i at which the scan stops.
unfoldable pub span_number : Text → Text × Text
unfolding numeric
span_number [] = ([], [])
span_number (c ∷ s) =
    let (number, unit) = span_number s in if numeric c then (c ∷ number, unit) else ([], c ∷ s)

-- The factor of a unit.
unfoldable pub multiplier : Text → Option ℕ
multiplier u =
    if u == [] || u == codes "B"
    then some 1
    else if u == codes "K" || u == codes "KB"
    then some 1000
    else if u == codes "M" || u == codes "MB"
    then some (1000 * 1000)
    else if u == codes "G" || u == codes "GB"
    then some (1000 * 1000 * 1000)
    else if u == codes "T" || u == codes "TB"
    then some (1000 * 1000 * 1000 * 1000)
    else if u == codes "KIB"
    then some (2 ^ 10)
    else if u == codes "MIB"
    then some (2 ^ 20)
    else if u == codes "GIB"
    then some (2 ^ 30)
    else if u == codes "TIB"
    then some (2 ^ 40)
    else none

module _ (N : Float) where
  scale : Text → N.F → Option ℕ → Outcome SizeError ℤ
  scale s num none = err (unknown_unit s)
  scale s num (some mult) = ok (N.to_int64 (N.times num (N.of_int mult)))

  with_number : Text → Text → Outcome Text N.F → Outcome SizeError ℤ
  unfolding scale
  with_number s unit (err cause) = err (bad_size s cause)
  with_number s unit (ok num) = scale s num (multiplier (to_upper (trim_space unit)))

  sized : Text → Outcome SizeError ℤ
  unfolding with_number
  sized s =
      let (number, unit) = span_number s in
      if s == [] then err empty_size else with_number s unit (N.parse number)

  unfoldable pub parse_size : Text → Outcome SizeError ℤ
  unfolding sized
  parse_size s = sized (trim_space s)
