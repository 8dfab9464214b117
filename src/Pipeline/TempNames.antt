-- ===== src/Pipeline/TempNames.antt =====
-- The names of the temporary files.
use mathlib.Core.Path.{subst}
use cardingest.Base.{ℕ, refl, All, ◌≡◌, ◌≢◌, sym, ap, ◌∙◌, [], ◌∷◌, ◌++◌, All-append, All-map}
use cardingest.Base.{arith, nat_eq, length}
use cardingest.Base.Digits.{decimal-digits, decimal-injective}
use cardingest.Base.Paths.{NoSlash, IsName, join_path-IsName}
use cardingest.Base.Strings.{Text, codes, slash, decimal}
use cardingest.Pipeline.{Env, tmp_dir}
use cardingest.Pipeline.Copy.{tmp_path}

abbrev file_name : Text → ℕ → Text
file_name slot n = codes "ingest-" ++ slot ++ b'-' ∷ decimal n

tmp_dir-IsName : IsName tmp_dir
tmp_dir-IsName = record {
  plain = omega arith;
  nonempty = λ h. cc;
  not_dot = λ h. absurd (omega (arith, ap length h));
  not_dots = λ h. absurd (omega (arith, ap length h));
}

decimal-NoSlash : (n : ℕ) → NoSlash (decimal n)
decimal-NoSlash n = All-map _ _ (decimal n) (λ c h. omega arith) (decimal-digits n)

append-injective : (s t u : Text) → s ++ t ≡ s ++ u → t ≡ u
append-injective [] t u h = h
append-injective (c ∷ s) t u h = append-injective s t u (cc)

tail_eq : {c d : ℕ} {s t : Text} → ◌≡◌ {A = Text} (c ∷ s) (d ∷ t) → s ≡ t
tail_eq h = cc

file_name-IsName : (slot : Text) (n : ℕ) → NoSlash slot → IsName (file_name slot n)
file_name-IsName slot n h = record {
  plain =
      All-append (λ c. c ≢ slash) (codes "ingest-") (slot ++ b'-' ∷ decimal n) (omega arith)
        (All-append (λ c. c ≢ slash) slot (b'-' ∷ decimal n) h (omega arith, decimal-NoSlash n));
  nonempty = λ p. cc;
  not_dot = λ p. absurd (omega (arith, ap length p));
  not_dots = λ p. absurd (omega (arith, ap length p));
}

abbrev NoDash : Text → Type 0
NoDash = All (λ c. c ≢ b'-')

decimal-NoDash : (n : ℕ) → NoDash (decimal n)
decimal-NoDash n = All-map _ _ (decimal n) (λ c h. omega arith) (decimal-digits n)

-- A text with a dash before its tail has one.
dash_inside : (s u : Text) → ¬ NoDash (s ++ b'-' ∷ u)
dash_inside [] u h = h.0 refl
dash_inside (c ∷ s) u h = dash_inside s u h.1

-- What stands before and after the last dash.
last_dash :
    (s t u v : Text) → NoDash u → NoDash v → s ++ b'-' ∷ u ≡ t ++ b'-' ∷ v → (s ≡ t) × (u ≡ v)
last_dash [] [] u v a b h = (refl, cc)
last_dash [] (c ∷ t) u v a b h = absurd (dash_inside t v (subst NoDash (tail_eq h) a))
last_dash (c ∷ s) [] u v a b h = absurd (dash_inside s u (subst NoDash (sym (tail_eq h)) b))
last_dash (c ∷ s) (d ∷ t) u v a b h =
    let (same, rest) = last_dash s t u v a b (tail_eq h) in (cc, rest)

module _ (E : Env) (slot : Text) (plain : NoSlash slot) where
  -- A temporary file stands directly in the temporary directory.
  pub tmp_path_lem : (n : ℕ) → tmp_path E slot n ≡ tmp_dir ++ slash ∷ file_name slot n
  unfolding tmp_path
  tmp_path_lem n =
      join_path-IsName tmp_dir (file_name slot n) tmp_dir-IsName (file_name-IsName slot n plain)

-- The name of a temporary file tells its slot and the value of the counter, where the names of slots
-- have no slash: two slots never use the same name, nor does one slot at two values.
pub tmp_path-injective :
    (E : Env) (s t : Text)
    → NoSlash s
    → NoSlash t
    → (n m : ℕ) → tmp_path E s n ≡ tmp_path E t m
    → (s ≡ t) × (n ≡ m)
tmp_path-injective E s t a b n m h =
    let same = sym (tmp_path_lem E s a n) ∙ h ∙ tmp_path_lem E t b m in
    let (slots, numbers) =
      last_dash s t (decimal n) (decimal m) (decimal-NoDash n) (decimal-NoDash m)
        (append-injective (codes ".cardingest-tmp/ingest-") _ _ same) in
    (slots, decimal-injective n m numbers)

-- A path that begins with another character than a dot is that of no temporary file.
pub tmp_path-ne :
    (E : Env) (slot : Text) (c : ℕ) (s : Text)
    → NoSlash slot
    → c ≢ b'.'
    → (n : ℕ) → tmp_path E slot n ≢ c ∷ s
tmp_path-ne E slot c s plain h n p = h (head_eq (sym p ∙ tmp_path_lem E slot plain n))
  where
    head_eq : {t : Text} → ◌≡◌ {A = Text} (c ∷ s) (b'.' ∷ t) → c ≡ b'.'
    head_eq q = cc
