-- ===== src/Base/Strings.antt =====
-- The functions of Go's `strings`, `path`, `path/filepath` and `strconv` that the program calls, on
-- ASCII text. A text is the list of its bytes; letters and spaces beyond ASCII are left alone.
use Prim.Native.Nat.{ℕ, zero, suc, ◌+◌, ◌-◌, ◌/◌, ◌%◌}
use Prim.Native.Char.{code}
use Prim.Native.String.{String}
use mathlib.Core.Bool.{Bool, true, false, ◌&&◌, ◌||◌}
use mathlib.Core.Option.{Option, none, some}
use mathlib.Core.List.{List, [], ◌∷◌, ◌++◌, map, reverse, foldl}
use cardingest.Base.Equality.{◌==◌, nat_eq, list_eq, if◌then◌else◌}
use cardingest.Base.Numbers.{leb}
use cardingest.Base.Lists.{length, drop}

abbrev pub Text : Type 0
Text = List ℕ

-- The bytes of a literal. `String` has its own `[]` and `∷`.
abbrev pub codes : String → Text
codes String.[] = []
codes (String.◌∷◌ c s) = code c ∷ codes s

abbrev pub slash : ℕ
slash = b'/'

lower : ℕ → ℕ
lower c = if leb b'A' c && leb c b'Z' then c + 32 else c

upper : ℕ → ℕ
upper c = if leb b'a' c && leb c b'z' then c - 32 else c

-- strings.ToLower
unfoldable pub to_lower : Text → Text
unfolding lower
to_lower s = map lower s

-- strings.ToUpper
unfoldable pub to_upper : Text → Text
unfolding upper
to_upper s = map upper s

is_space : ℕ → Bool
unfolding nat_eq
is_space c = c == b' ' || (leb 9 c && leb c 13)

-- The text without its leading characters that pass the test.
trim_left : (ℕ → Bool) → Text → Text
trim_left p [] = []
trim_left p (c ∷ s) = let rest = trim_left p s in if p c then rest else c ∷ s

trim_right : (ℕ → Bool) → Text → Text
unfolding trim_left
trim_right p s = reverse (trim_left p (reverse s))

-- strings.TrimSpace
unfoldable pub trim_space : Text → Text
unfolding is_space trim_right
trim_space s = trim_right is_space (trim_left is_space s)

-- strings.TrimRight with a cutset of one slash
unfoldable pub trim_right_slash : Text → Text
unfolding trim_right nat_eq
trim_right_slash s = trim_right (λ c. c == slash) s

unfoldable pub has_prefix : Text → Text → Bool
unfolding nat_eq
has_prefix [] s = true
has_prefix (p ∷ ps) [] = false
has_prefix (p ∷ ps) (c ∷ s) = p == c && has_prefix ps s

-- strings.Contains
unfoldable pub contains_text : Text → Text → Bool
unfolding has_prefix
contains_text [] part = has_prefix part []
contains_text (c ∷ s) part = has_prefix part (c ∷ s) || contains_text s part

-- strings.Cut: the text before and after the first occurrence of the separator.
unfoldable pub cut : Text → Text → Option (Text × Text)
unfolding has_prefix
cut [] sep = if has_prefix sep [] then some ([], []) else none
cut (c ∷ s) sep =
    let later = cut s sep in
    if has_prefix sep (c ∷ s)
    then some ([], drop (length sep) (c ∷ s))
    else elim later [ none ↦ none | some (before, after) ↦ some (c ∷ before, after) ]

-- The text before the first occurrence of a byte, or all of it.
unfoldable pub before_byte : ℕ → Text → Text
unfolding nat_eq
before_byte b [] = []
before_byte b (c ∷ s) = let rest = before_byte b s in if c == b then [] else c ∷ rest

onto_first : ℕ → List Text → List Text
onto_first c [] = (c ∷ []) ∷ []
onto_first c (part ∷ parts) = (c ∷ part) ∷ parts

-- strings.Split at one byte. There is always at least one part.
unfoldable pub split : ℕ → Text → List Text
unfolding onto_first nat_eq
split b [] = [] ∷ []
split b (c ∷ s) = let rest = split b s in if c == b then [] ∷ rest else onto_first c rest

-- The parts with the separator between them.
unfoldable pub join : ℕ → List Text → Text
join b [] = []
join b (part ∷ []) = part
join b (part ∷ next ∷ parts) = part ++ b ∷ join b (next ∷ parts)

-- The first argument counts the characters of an occurrence that are still to be skipped.
replace_from : Text → Text → ℕ → Text → Text
unfolding has_prefix
replace_from old new n [] = []
replace_from old new (suc n) (c ∷ s) = replace_from old new n s
replace_from old new zero (c ∷ s) =
    let hit = new ++ replace_from old new (length old - 1) s in
    let miss = c ∷ replace_from old new zero s in if has_prefix old (c ∷ s) then hit else miss

-- strings.ReplaceAll, of a text that is not empty
unfoldable pub replace_all : Text → Text → Text → Text
unfolding replace_from
replace_all s old new = replace_from old new 0 s

-- The second argument is what follows the last dot of the element so far.
ext_from : Text → Text → Text
unfolding nat_eq
ext_from [] found = found
ext_from (c ∷ s) found = ext_from s (if c == slash then [] else if c == b'.' then c ∷ s else found)

-- filepath.Ext: from the last dot of the last element on.
unfoldable pub ext : Text → Text
unfolding ext_from
ext p = ext_from p []

last_from : Text → Text → Text
unfolding nat_eq
last_from [] found = found
last_from (c ∷ s) found = last_from s (if c == slash then s else found)

-- filepath.Base
unfoldable pub base : Text → Text
unfolding last_from trim_right_slash list_eq nat_eq
base [] = codes "."
base (c ∷ s) =
    let stripped = trim_right_slash (c ∷ s) in
    if stripped == [] then codes "/" else last_from stripped stripped

-- One element of a path, onto the elements kept so far, the last first.
unfoldable pub push_element : Bool → List Text → Text → List Text
unfolding list_eq nat_eq
push_element rooted kept part =
    if part == [] || part == codes "."
    then kept
    else if part == codes ".."
    then elim kept [
      | [] ↦ if rooted then [] else part ∷ []
      | last ∷ rest ↦ if last == codes ".." then part ∷ last ∷ rest else rest
    ]
    else part ∷ kept

unfoldable pub is_rooted : Text → Bool
unfolding nat_eq
is_rooted [] = false
is_rooted (c ∷ s) = c == slash

-- The path of the kept elements, the last first.
unfoldable pub assemble : Bool → List Text → Text
unfolding join list_eq nat_eq
assemble rooted kept =
    let cleaned = (if rooted then slash ∷ [] else []) ++ join slash (reverse kept) in
    if cleaned == [] then codes "." else cleaned

unfoldable pub clean_elements : Bool → List Text → Text
unfolding push_element assemble
clean_elements rooted parts = assemble rooted (foldl (push_element rooted) [] parts)

-- path.Clean
unfoldable pub clean : Text → Text
unfolding is_rooted split clean_elements
clean p = clean_elements (is_rooted p) (split slash p)

-- path.Join of two elements: empty ones are left out.
unfoldable pub join_path : Text → Text → Text
unfolding clean list_eq nat_eq
join_path [] [] = []
join_path [] (c ∷ s) = clean (c ∷ s)
join_path (c ∷ s) [] = clean (c ∷ s)
join_path (c ∷ s) (d ∷ t) = clean ((c ∷ s) ++ slash ∷ d ∷ t)

-- The text up to its last slash.
up_to_slash : Text → Text
unfolding trim_left nat_eq
up_to_slash p = reverse (trim_left (λ c. if c == slash then false else true) (reverse p))

-- path.Dir
unfoldable pub dir : Text → Text
unfolding clean up_to_slash
dir p = clean (up_to_slash p)

-- The decimal digits of a number, before the text so far. The fuel is the number itself.
unfoldable pub decimal_from : ℕ → ℕ → Text → Text
unfolding nat_eq
decimal_from zero n rest = rest
decimal_from (suc fuel) n rest =
    let more = decimal_from fuel (n / 10) ((b'0' + n % 10) ∷ rest) in
    let done = (b'0' + n % 10) ∷ rest in if n / 10 == 0 then done else more

-- fmt's %d, of a number that is not negative
unfoldable pub decimal : ℕ → Text
unfolding decimal_from
decimal n = decimal_from (suc n) n []

-- The last w decimal digits of a number: fmt's %0wd where it has no more than w.
unfoldable pub padded : ℕ → ℕ → Text
unfolding decimal
padded zero n = []
padded (suc w) n = padded w (n / 10) ++ (b'0' + n % 10) ∷ []

hex_digit : ℕ → ℕ
hex_digit d = if leb d 9 then b'0' + d else b'a' + (d - 10)

-- The last w hexadecimal digits of a number: fmt's %0wx where it has no more than w.
unfoldable pub hex : ℕ → ℕ → Text
unfolding hex_digit
hex zero n = []
hex (suc w) n = hex w (n / 16) ++ hex_digit (n % 16) ∷ []
