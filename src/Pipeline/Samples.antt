-- ===== src/Pipeline/Samples.antt =====
-- Runs of the pipeline over memory, and the theorems at concrete cards.
use mathlib.Core.Option.{some-injective}
use mathlib.Core.Path.{subst}
use mathlib.Core.List.{Perm, foldl}
use cardingest.Base.{
  ℕ, ◌+◌, ◌*◌, ◌%◌, ◌^◌, ◌≡◌, refl, sym, ◌∙◌, eq_false, Bool, true, false, [], ◌∷◌, ◌++◌,
}
use cardingest.Base.{List, reverse, ◌↔◌}
use cardingest.Base.{Option, none, some, Outcome, ok, arith, All, inl, inr, ap, length}
use cardingest.Base.{◌==◌, list_eq, nat_eq, if◌then◌else◌}
use cardingest.Base.Exec.{◌>>=◌}
use cardingest.Base.Int.{pos, int64, ◌+ℤ◌}
use cardingest.Base.Maps.{Map, lookup, insert, remove}
use cardingest.Base.Strings.{
  Text, codes, to_lower, ext, base, dir, join_path, replace_all, decimal, hex,
}
use cardingest.Card.{FileEntry, Time, format_date}
use cardingest.Rules.{Glob, keep_all, decide}
use cardingest.Pipeline.{Env, Deps, Input, CardFs, entry}
use cardingest.Pipeline.Category.{categorize, scan_exts}
use cardingest.Pipeline.Copy.{
  World, Failure, tmp_path, dest_path, copy_and_verify, hash_of, copy_to,
}
use cardingest.Pipeline.Copy.{
  dedupe_or_land, land, verify, hash_file, place, record_verified, drop_copy,
}
use cardingest.Pipeline.Copy.{
  discard, ask_index, next_tmp, stream_copy, copy_bytes, on_dest, on_error,
}
use cardingest.Pipeline.Ingest.{
  Report, IngestError, ingest_from, one_file, settle, ingest, scan, wanted,
}
use cardingest.Pipeline.Landing.{Holds, card_hash, Settled, copy_and_verify-eq-ok}
use cardingest.Pipeline.Safety.{IndexBacked, AllFree, IsSafe, Backed, IsVacant}
use cardingest.Pipeline.Safety.Ingest.{verified-Backed}
use cardingest.Pipeline.Ledger.{IsCounted, paths, report_accounts}
use cardingest.Pipeline.Collision.{collision_loses}
use cardingest.Pipeline.Folders.{ListsExt, categorize_explicit}
use cardingest.Pipeline.Folders.Orders.{InSomeOrder, MayTake, categorize_iff}
use cardingest.Pipeline.TempNames.{tmp_path-ne}
use cardingest.Pipeline.Memory.{memory, memory-IsLawful, hashes, hashes-IsLawful}

abbrev any_glob : Glob
any_glob = record { validate = λ p. true; match = λ p q. ok true }

abbrev pub env : Env
env = record {
  dest = memory;
  index = hashes;
  glob = any_glob;
  sum64 = λ b. foldl (λ (n c : ℕ). (n * 31 + c + 1) % 2 ^ 64) 0 b;
}

abbrev pub day : Time
day = record { year = 2026; month = 3; day = 7; nanos = 0 }

-- Two pictures with one name, in two folders, and a thumbnail.
abbrev card : CardFs
card = record {
  walk =
      entry (codes "DCIM") true 0 day
      ∷ entry (codes "DCIM/100/A.JPG") false 3 day
      ∷ entry (codes "DCIM/101/A.JPG") false 2 day
      ∷ entry (codes "DCIM/x.THM") false 1 day
      ∷ [];
  open_file = λ p. none;
  content = λ p. (if p == codes "DCIM/100/A.JPG" then 1 ∷ 2 ∷ 3 ∷ [] else 4 ∷ 5 ∷ [], none);
}

abbrev pub deps : Deps
deps = record {
  rules = keep_all;
  categories = (codes "JPEG", codes ".jpg" ∷ []) ∷ [];
  layout = codes "{category}/{date}";
  date_fn = λ fs e. e.mod_time;
  on_progress = true;
}

abbrev input : Input
input = record { slot = codes "A"; serial = codes "S1"; card_fs = card }

abbrev pub start : World env
start = record { dest = []; index = []; seq = 0; progress = [] }

abbrev picture : Text → ℕ → FileEntry
picture p n = record { path = codes "DCIM/" ++ p; size = n; mod_time = day }

-- The layout of the first picture.
dest_path_run :
    dest_path env deps input (picture (codes "100/A.JPG") 3) (codes "JPEG")
    ≡ codes "JPEG/2026-03-07/A.JPG"
unfolding dest_path replace_all join_path base format_date
dest_path_run = refl

copy : FileEntry → World env → Outcome Failure Bool × World env
unfolding copy_and_verify copy_to dedupe_or_land land verify hash_file hash_of place record_verified
    drop_copy discard ask_index next_tmp tmp_path stream_copy copy_bytes on_dest on_error ◌>>=◌
    dest_path replace_all join_path base dir format_date decimal hex list_eq lookup insert remove
copy e = copy_and_verify env deps input e (codes "JPEG")

run : World env → Option IngestError × Report × World env
unfolding copy ingest ingest_from one_file settle decide categorize scan_exts to_lower ext int64
    ◌+ℤ◌
run = ingest env deps input (λ i. none)

-- What the whole run reports as verified and as skipped.
ingest_run :
    ((run start).1.verified ≡ codes "DCIM/100/A.JPG" ∷ codes "DCIM/101/A.JPG" ∷ [])
    × ((run start).1.skipped_path ≡ codes "DCIM/x.THM" ∷ [])
    × ((run start).1.bytes_copied ≡ pos 5)
unfolding run
ingest_run = (refl, refl, refl)

-- The second picture has replaced the first.
destination_run : (run start).2.dest ≡ (codes "JPEG/2026-03-07/A.JPG", 4 ∷ 5 ∷ []) ∷ []
unfolding run
destination_run = refl

abbrev pub first : FileEntry
first = picture (codes "100/A.JPG") 3

abbrev second : FileEntry
second = picture (codes "101/A.JPG") 2

abbrev pub thumbnail : FileEntry
thumbnail = picture (codes "x.THM") 1

abbrev pub jpeg : Text
jpeg = codes "JPEG"

first_copied : (copy_and_verify env deps input first jpeg start).0 ≡ ok true
unfolding copy
first_copied = refl

copy_and_verify-eq-ok_example :
    (input.card_fs.open_file first.path ≡ none)
    × ((input.card_fs.content first.path).1 ≡ none)
    × Settled env start.index
        (copy_and_verify env deps input first jpeg start).1
        (dest_path env deps input first jpeg)
        (card_hash env input first.path)
        true
copy_and_verify-eq-ok_example =
    copy_and_verify-eq-ok env memory-IsLawful deps input first jpeg start true first_copied

abbrev after_first : World env
after_first = (copy_and_verify env deps input first jpeg start).1

second_copied : (copy_and_verify env deps input second jpeg after_first).0 ≡ ok true
unfolding copy
second_copied = refl

same_path : dest_path env deps input second jpeg ≡ dest_path env deps input first jpeg
unfolding copy
same_path = refl

hashes_differ : (card_hash env input first.path == card_hash env input second.path) ≡ false
unfolding copy
hashes_differ = refl

collision_loses_example :
    let w₂ = (copy_and_verify env deps input second jpeg after_first).1 in
    IsSafe env deps input w₂.index first.path
    × IsSafe env deps input w₂.index second.path
    × ¬ Holds env w₂.dest (dest_path env deps input first jpeg) (card_hash env input first.path)
collision_loses_example =
    collision_loses env memory-IsLawful hashes-IsLawful deps input first second jpeg jpeg start
      same_path (eq_false _ _ hashes_differ) first_copied second_copied

-- A card with one picture and a thumbnail.
abbrev small_card : CardFs
small_card = record {
  walk = entry (codes "DCIM/100/A.JPG") false 3 day ∷ entry (codes "DCIM/x.THM") false 1 day ∷ [];
  open_file = λ p. none;
  content = λ p. (1 ∷ 2 ∷ 3 ∷ [], none);
}

abbrev pub small : Input
small = record { slot = codes "A"; serial = codes "S1"; card_fs = small_card }

pub small_scan : scan small_card.walk ≡ ok (first ∷ thumbnail ∷ [])
unfolding scan
small_scan = refl

pub start-IndexBacked : IndexBacked env deps small start.dest start.index
start-IndexBacked k s = absurd (ground arith)

first-wanted : wanted env deps small first ≡ some jpeg
unfolding run wanted
first-wanted = refl

thumbnail_unwanted : wanted env deps small thumbnail ≡ none
unfolding run wanted
thumbnail_unwanted = refl

first-IsVacant : IsVacant env deps small start.dest (dest_path env deps small first jpeg)
unfolding dest_path
first-IsVacant = record {
  final = λ n p.
      tmp_path-ne env small.slot b'J' (codes "PEG/2026-03-07/A.JPG") (omega arith, tt) (omega arith)
        n (p ∙ dest_path_run);
  unread = λ b h. absurd (unfold lookup in ground arith);
}

pub small-AllFree : AllFree env deps small start.dest (first ∷ thumbnail ∷ [])
small-AllFree = (
  λ c h. (
    subst (λ k. IsVacant env deps small start.dest (dest_path env deps small first k))
        (some-injective _ _ (sym first-wanted ∙ h)) first-IsVacant,
    (λ k h'. absurd (ground (arith, thumbnail_unwanted)), tt),
  ),
  (λ c h. absurd (ground (arith, thumbnail_unwanted)), tt),
)

verified-Backed_example :
    let (x, r, w') = ingest env deps small (λ i. none) start in
    IndexBacked env deps small w'.dest w'.index
    × All
        (λ p.
          (small.card_fs.open_file p ≡ none)
          × ((small.card_fs.content p).1 ≡ none)
          × Backed env deps small w'.dest (card_hash env small p))
        r.verified
verified-Backed_example =
    verified-Backed env memory-IsLawful hashes-IsLawful deps small (λ i. none) start
      (first ∷ thumbnail ∷ []) small_scan start-IndexBacked small-AllFree

report_accounts_example :
    let (x, r, w') = ingest env deps small (λ i. none) start in
    IsCounted r × (x ≡ none → Perm (paths r) (codes "DCIM/100/A.JPG" ∷ codes "DCIM/x.THM" ∷ []))
report_accounts_example =
    report_accounts env deps small (λ i. none) start (first ∷ thumbnail ∷ []) small_scan

-- ".ARW" is listed, whatever the case of the file's extension; "*" is not a listing of it.
raw_listed : ListsExt (to_lower (ext (codes "x/a.arw"))) (codes ".ARW" ∷ [])
unfolding to_lower ext
raw_listed = inl (λ q. absurd (omega (arith, ap length q)), refl)

star_passes : ¬ ListsExt (to_lower (ext (codes "x/a.arw"))) (codes "*" ∷ [])
star_passes h = elim h [ inl q ↦ q.0 refl | inr f ↦ f ]

categorize_explicit_example :
    categorize
      (codes "x/a.arw")
      ((codes "ALL", codes "*" ∷ []) ∷ (codes "RAW", codes ".ARW" ∷ []) ∷ [])
    ≡ some (codes "RAW")
categorize_explicit_example =
    categorize_explicit (codes "x/a.arw") ((codes "ALL", codes "*" ∷ []) ∷ []) [] (codes "RAW")
      (codes ".ARW" ∷ []) (star_passes, tt) raw_listed

-- Two categories that list the extension, and one with the asterisk.
abbrev ambiguous : Map Text (List Text)
ambiguous =
    (codes "ALL", codes "*" ∷ [])
    ∷ (codes "RAW", codes ".ARW" ∷ [])
    ∷ (codes "B", codes ".ARW" ∷ [])
    ∷ []

-- The later of the two takes the file where the map is ranged over from its end.
categorize_run :
    (categorize (codes "x/a.arw") ambiguous ≡ some (codes "RAW"))
    × (categorize (codes "x/a.arw") (reverse ambiguous) ≡ some (codes "B"))
unfolding categorize scan_exts to_lower ext list_eq nat_eq
categorize_run = (refl, refl)

categorize_iff_example :
    InSomeOrder (codes "x/a.arw") ambiguous (codes "B")
    ↔ MayTake (to_lower (ext (codes "x/a.arw"))) ambiguous (codes "B")
categorize_iff_example = categorize_iff (codes "x/a.arw") ambiguous (codes "B")
