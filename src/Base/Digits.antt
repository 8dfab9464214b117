-- ===== src/Base/Digits.antt =====
-- The decimal digits of a number determine it.
use Prim.Native.Nat.{ℕ, zero, suc, ◌+◌, ◌-◌, ◌*◌, ◌/◌, ◌%◌, ◌≤◌, ◌<◌}
use mathlib.Core.Path.{◌≡◌, sym, ap, ◌∙◌}
use mathlib.Core.List.{[], ◌∷◌}
use native.Mathlib.Omega.{arith}
use cardingest.Base.Equality.{nat_eq}
use cardingest.Base.Lists.{All}
use cardingest.Base.Strings.{Text, decimal_from, decimal}

-- The number that digits stand for, after the number so far.
value_from : ℕ → Text → ℕ
value_from n [] = n
value_from n (c ∷ s) = value_from (n * 10 + (c - b'0')) s

value_from-decimal_from :
    (fuel n : ℕ) (rest : Text)
    → n < fuel
    → value_from 0 (decimal_from fuel n rest) ≡ value_from n rest
unfolding decimal_from value_from
value_from-decimal_from zero n rest h = elim h [ ]
value_from-decimal_from (suc fuel) n rest h =
    ground (arith, value_from-decimal_from fuel (n / 10) ((b'0' + n % 10) ∷ rest))

value_from-decimal : (n : ℕ) → value_from 0 (decimal n) ≡ n
unfolding decimal value_from
value_from-decimal n = value_from-decimal_from (suc n) n [] (omega arith)

pub decimal-injective : (n m : ℕ) → decimal n ≡ decimal m → n ≡ m
decimal-injective n m h = sym (value_from-decimal n) ∙ ap (value_from 0) h ∙ value_from-decimal m

digits_from :
    (fuel n : ℕ) (rest : Text)
    → All (λ c. b'0' ≤ c) rest
    → All (λ c. b'0' ≤ c) (decimal_from fuel n rest)
unfolding decimal_from
digits_from zero n rest h = h
digits_from (suc fuel) n rest h = ground (arith, digits_from fuel (n / 10) ((b'0' + n % 10) ∷ rest))

-- Every character of a decimal is a digit or beyond.
pub decimal-digits : (n : ℕ) → All (λ c. b'0' ≤ c) (decimal n)
unfolding decimal
decimal-digits n = digits_from (suc n) n [] tt
