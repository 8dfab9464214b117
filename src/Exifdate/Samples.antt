-- ===== src/Exifdate/Samples.antt =====
-- A run of the scan.
use cardingest.Base.{
  ℕ, ◌+◌, ◌*◌, ◌^◌, ◌≤◌, ◌↔◌, Option, none, some, List, [], ◌∷◌, ◌++◌, ◌≡◌, refl, arith, take, drop,
  leb, nat_eq, list_eq, if◌then◌else◌,
}
use cardingest.Base.Int.{ℤ, pos, negsuc, ◌+ℤ◌, ◌-ℤ◌, int64}
use cardingest.Base.Strings.{codes}
use cardingest.Exifdate.{ReaderAt, Found, big_endian, past, round, find_from}
use cardingest.Exifdate.Dates.{duration_of}
use cardingest.Exifdate.Dates.Seconds.{duration_of_exact_iff}
use cardingest.Exifdate.Progress.{IsFile, find_from_total}

-- An atom to pass over, and the one wanted.
abbrev movie : List ℕ
movie = 0 ∷ 0 ∷ 0 ∷ 8 ∷ codes "free" ++ 0 ∷ 0 ∷ 0 ∷ 12 ∷ codes "moov" ++ 1 ∷ 2 ∷ 3 ∷ 4 ∷ []

abbrev read_in : ℤ → ℕ → Option (List ℕ)
read_in (pos o) k = if leb (o + k) 20 then some (take k (drop o movie)) else none
read_in (negsuc n) k = none

abbrev file : ReaderAt
file = record { read_at = read_in }

file-IsFile : IsFile file 20
file-IsFile = record { small = omega arith; before = λ n k. refl; within = λ o k h. ground arith }

find_run : find_from file 21 (pos 0) (pos 20) (codes "moov") ≡ some (some (pos 16, pos 20))
unfolding find_from round past big_endian int64 ◌+ℤ◌ ◌-ℤ◌ list_eq nat_eq
find_run = refl

find_from_total_example :
    (found : Found) × (find_from file 21 (pos 0) (pos 20) (codes "moov") ≡ some found)
find_from_total_example = find_from_total file 20 file-IsFile (pos 0) (pos 20) (codes "moov")

-- A date in 1999, and the last second that a duration can hold.
duration_of_exact_iff_example :
    (duration_of 3000000000 ≡ pos (3000000000 * 10 ^ 9)) ↔ (3000000000 ≤ 9223372036)
duration_of_exact_iff_example = duration_of_exact_iff 3000000000 (omega arith)
