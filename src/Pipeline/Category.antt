-- ===== src/Pipeline/Category.antt =====
-- `categorize` of internal/pipeline/pipeline.go.
use cardingest.Base.{Bool, true, false, List, [], ◌∷◌, Option, none, some, ◌==◌, list_eq, nat_eq}
use cardingest.Base.{if◌then◌else◌}
use cardingest.Base.Maps.{Map}
use cardingest.Base.Strings.{Text, codes, to_lower, ext}

-- What the loop over one category's extensions finds: a match, or whether it lists "*".
pub data Listing : Type 0 where
  explicit : Listing
  listed : Bool → Listing

-- The inner loop, with whether "*" was met so far.
unfoldable pub scan_exts : Text → Bool → List Text → Listing
scan_exts ext starred [] = listed starred
scan_exts ext starred (e ∷ exts) =
    let past_star = scan_exts ext true exts in
    let past = scan_exts ext starred exts in
    if e == codes "*" then past_star else if to_lower e == ext then explicit else past

-- The end of the function: the catch-all, unless its name is empty.
unfoldable pub fall_back : Text → Option Text
fall_back catch_all = if catch_all == [] then none else some catch_all

-- The outer loop, with the catch-all so far.
unfoldable pub scan_categories : Text → Text → Map Text (List Text) → Option Text
unfolding fall_back
scan_categories ext catch_all [] = fall_back catch_all
scan_categories ext catch_all ((cat, exts) ∷ cats) = elim (scan_exts ext false exts) [
  | explicit ↦ some cat
  | listed starred ↦ scan_categories ext (if starred then cat else catch_all) cats
]

-- `none` is the result ("", false).
unfoldable pub categorize : Text → Map Text (List Text) → Option Text
unfolding scan_categories
categorize p cats = scan_categories (to_lower (ext p)) [] cats
