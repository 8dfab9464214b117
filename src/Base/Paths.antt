-- ===== src/Base/Paths.antt =====
-- Splitting at a byte, and joining two elements that need no cleaning.
use Prim.Native.Nat.{ℕ}
use mathlib.Core.Path.{◌≡◌, refl, ap, ◌∙◌}
use mathlib.Core.Logic.{◌≢◌}
use mathlib.Core.Bool.{false}
use mathlib.Core.List.{List, [], ◌∷◌, ◌++◌}
use native.Mathlib.Omega.{arith}
use cardingest.Base.Equality.{nat_eq, list_eq}
use cardingest.Base.Lists.{All}
use cardingest.Base.Strings.{
  Text, codes, slash, split, join, push_element, is_rooted, clean_elements, join_path, assemble,
}

abbrev pub NoSlash : Text → Type 0
NoSlash = All (λ c. c ≢ slash)

-- A name of a directory entry.
pub record IsName (s : Text) : Type 0 where
  pub plain : NoSlash s
  pub nonempty : s ≢ []
  pub not_dot : s ≢ codes "."
  pub not_dots : s ≢ codes ".."

split-NoSlash : (s : Text) → NoSlash s → split slash s ≡ s ∷ []
unfolding split
split-NoSlash [] h = refl
split-NoSlash (c ∷ s) h = rw (split-NoSlash s h.1) (ground (arith, h.0))

-- The text before a byte that does not occur in it is the first part.
pub split-append : (b : ℕ) (s t : Text) → All (λ c. c ≢ b) s → split b (s ++ b ∷ t) ≡ s ∷ split b t
unfolding split
split-append b [] t h = ground arith
split-append b (c ∷ s) t h = rw (split-append b s t h.1) (ground (arith, h.0))

push_element-IsName :
    (kept : List Text) (s : Text) → IsName s → push_element false kept s ≡ s ∷ kept
unfolding push_element
push_element-IsName kept s h = ground (arith, h.nonempty, h.not_dot, h.not_dots)

assemble_two : (s t : Text) → s ≢ [] → assemble false (t ∷ s ∷ []) ≡ s ++ slash ∷ t
unfolding assemble join
assemble_two [] t h = absurd (h refl)
assemble_two (c ∷ s) t h = ground arith

clean_elements-IsName :
    (s t : Text) → IsName s → IsName t → clean_elements false (s ∷ t ∷ []) ≡ s ++ slash ∷ t
clean_elements-IsName s t h k =
    unfold clean_elements in
    ap (assemble false) (
      ap (λ (kept : List Text). push_element false kept t) (push_element-IsName [] s h)
      ∙ push_element-IsName (s ∷ []) t k)
    ∙ assemble_two s t h.nonempty

is_rooted-NoSlash : (c : ℕ) (s : Text) → c ≢ slash → is_rooted (c ∷ s) ≡ false
unfolding is_rooted
is_rooted-NoSlash c s h = ground arith

-- The join of two names is the two with a slash between them.
pub join_path-IsName : (s t : Text) → IsName s → IsName t → join_path s t ≡ s ++ slash ∷ t
unfolding join_path
join_path-IsName [] t h k = absurd (h.nonempty refl)
join_path-IsName (c ∷ s) [] h k = absurd (k.nonempty refl)
join_path-IsName (c ∷ s) (d ∷ t) h k =
    ap (λ b. clean_elements b (split slash ((c ∷ s) ++ slash ∷ d ∷ t)))
      (is_rooted-NoSlash c (s ++ slash ∷ d ∷ t) h.plain.0)
    ∙ ap (clean_elements false) (
        split-append slash (c ∷ s) (d ∷ t) h.plain
        ∙ ap (λ parts. (c ∷ s) ∷ parts) (split-NoSlash (d ∷ t) k.plain))
    ∙ clean_elements-IsName (c ∷ s) (d ∷ t) h k
