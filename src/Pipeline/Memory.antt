-- ===== src/Pipeline/Memory.antt =====
-- A destination and an index in memory, which meet what is relied on: the instances of the
-- parameters that the tests run over.
use mathlib.Core.Option.{get_or}
use cardingest.Base.{◌≡◌, ◌≢◌, refl, ◌∙◌}
use cardingest.Base.{List, [], ◌∷◌, ◌++◌, Option, none, some, Outcome, ok, err, arith, ap}
use cardingest.Base.{contains, list_eq, nat_eq}
use cardingest.Base.Maps.{Map, lookup, insert, remove, lookup-insert, lookup-remove}
use cardingest.Base.Strings.{Text, codes}
use cardingest.Pipeline.{Bytes, Dest, Index}
use cardingest.Pipeline.Frame.{IsLawful}
use cardingest.Pipeline.Safety.{IsLawfulIndex}

abbrev Files : Type 0
Files = Map Text Bytes

abbrev found : Option Bytes → Outcome Text Bytes
found none = err (codes "no such file")
found (some b) = ok b

-- A rename moves what the source has, and fails where there is none.
abbrev moved : Option Bytes → Text → Text → Files → Option Text × Files
moved none p r d = (some (codes "no such file"), d)
moved (some b) p r d = (none, insert r b (remove p d))

abbrev pub memory : Dest
memory = record {
  State = Files;
  mkdir_all = λ d p. (none, d);
  create = λ d p. (none, insert p [] d);
  write = λ d p b. (none, insert p (get_or (lookup p d) [] ++ b) d);
  close = λ d p. (none, d);
  read = λ d p. found (lookup p d);
  remove = λ d p. (none, remove p d);
  rename = λ d p r. moved (lookup p d) p r d;
}

moved_other :
    (o : Option Bytes) (p r q : Text) (d : Files)
    → p ≢ q
    → r ≢ q
    → lookup q (moved o p r d).1 ≡ lookup q d
moved_other none p r q d a b = refl
moved_other (some c) p r q d a b =
    lookup-insert q r c (remove p d) ∙ ground (arith, lookup-remove q p d)

moved_to :
    (o : Option Bytes) (p r : Text) (d : Files)
    → (moved o p r d).0 ≡ none
    → found (lookup r (moved o p r d).1) ≡ found o
moved_to none p r d h = absurd (ground arith)
moved_to (some b) p r d h = ap found {y = some b} (lookup-insert r r b (remove p d) ∙ ground arith)

moved_failed :
    (o : Option Bytes) (p r c : Text) (d : Files)
    → (moved o p r d).0 ≡ some c
    → lookup r (moved o p r d).1 ≡ lookup r d
moved_failed none p r c d h = refl
moved_failed (some b) p r c d h = absurd (ground arith)

pub memory-IsLawful : IsLawful memory
memory-IsLawful = record {
  read-mkdir_all = λ d p q. refl;
  read-create = λ d p q h. ap found (lookup-insert q p [] d ∙ ground arith);
  read-write = λ d p b q h. ap found (lookup-insert q p _ d ∙ ground arith);
  read-close = λ d p q h. refl;
  read-remove = λ d p q h. ap found (lookup-remove q p d ∙ ground arith);
  read-rename_other = λ d p r q a b. ap found (moved_other (lookup p d) p r q d a b);
  read-rename = λ d p r h. moved_to (lookup p d) p r d h;
  read-rename_failed = λ d p r c h. ap found (moved_failed (lookup p d) p r c d h);
}

abbrev pub hashes : Index
hashes = record {
  State = List Text;
  seen = λ s h. ok (contains s h);
  mark_verified = λ s h. (none, h ∷ s);
}

pub hashes-IsLawful : IsLawfulIndex hashes
hashes-IsLawful = record {
  seen-mark_self = λ s h e. ground arith;
  seen-mark_keeps = λ s h k e. ground arith;
  seen-mark_sound = λ s h k e. ground arith;
}
