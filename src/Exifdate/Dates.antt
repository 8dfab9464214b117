-- ===== src/Exifdate/Dates.antt =====
-- The dates of files: mp4.go after the scan, and exifdate.go, of internal/exifdate. The EXIF library
-- and the calendar of `time` are parameters.
pub mod Seconds
use cardingest.Base.{
  ℕ, ◌+◌, ◌^◌, Bool, true, false, Option, none, some, List, [], ◌∷◌, Outcome, ok, err, ◌==◌,
  contains, list_eq, nat_eq, if◌then◌else◌, take, map, ◌%◌,
}
use cardingest.Base.Int.{ℤ, pos, ◌+ℤ◌, ◌*ℤ◌, int64}
use cardingest.Base.Strings.{Text, codes, to_lower, ext}
use cardingest.Card.{FileEntry, Time}
use cardingest.Exifdate.{ReaderAt, Found, big_endian, find_from}

pub data Source : Type 0 where
  source_mtime source_exif source_mp4 : Source

-- Source.String
unfoldable pub source_text : Source → Text
source_text source_exif = codes "exif"
source_text source_mp4 = codes "mp4"
source_text source_mtime = codes "mtime"

-- A file that is open, with its size if Stat gives one.
pub record MediaFile : Type 0 where
  pub reader : ReaderAt
  pub size : Option ℕ

-- What the package asks of others: to open a file, to decode its EXIF data, with what DateTime answers
-- of them, and the time so many nanoseconds after the start of 1904.
pub record Media : Type 0 where
  pub open_media : Text → Option MediaFile
  pub decode : MediaFile → Outcome Text (Outcome Text Time)
  pub after_1904 : ℤ → Time

-- findAtom: the fuel is one more than the bytes of the file.
unfoldable pub find_atom : ReaderAt → ℕ → ℤ → ℤ → Text → Found
unfolding find_from
find_atom r size start end want = elim (find_from r (size + 1) start end want) [
  | none ↦ none
  | some found ↦ found
]

-- time.Duration(secs) * time.Second, both int64.
unfoldable pub duration_of : ℕ → ℤ
unfolding int64 ◌*ℤ◌
duration_of secs = int64 (int64 (pos secs) *ℤ pos (10 ^ 9))

abbrev pub seconds_in : ℕ → Option (List ℕ) → Option ℕ
seconds_in bits none = none
seconds_in bits (some b) = some (big_endian 0 b % 2 ^ bits)

-- The seconds of an mvhd payload, whose first byte is its version.
abbrev pub seconds_at : ReaderAt → ℤ → Option (List ℕ) → Option ℕ
unfolding nat_eq big_endian int64 ◌+ℤ◌
seconds_at r off none = none
seconds_at r off (some head) =
    if take 1 head == 1 ∷ []
    then seconds_in 64 (r.read_at (int64 (off +ℤ pos 4)) 8)
    else seconds_in 32 (r.read_at (int64 (off +ℤ pos 4)) 4)

module _ (M : Media) where
  abbrev pub dated : Option ℕ → Option Time
  unfolding nat_eq duration_of
  dated none = none
  dated (some secs) = if secs == 0 then none else some (M.after_1904 (duration_of secs))

  -- readMvhd
  unfoldable pub read_mvhd : ReaderAt → ℤ → Option Time
  unfolding dated seconds_at
  read_mvhd r off = dated (seconds_at r off (r.read_at off 4))

  abbrev pub in_movie : ReaderAt → Found → Option Time
  unfolding read_mvhd
  in_movie r none = none
  in_movie r (some (start, end)) = read_mvhd r start

  abbrev pub in_file : ReaderAt → ℕ → Found → Option Time
  unfolding in_movie find_atom
  in_file r size none = none
  in_file r size (some (start, end)) = in_movie r (find_atom r size start end (codes "mvhd"))

  abbrev pub in_media : Option MediaFile → Option Time
  unfolding in_file
  in_media none = none
  in_media (some f) = elim f.size [
    | none ↦ none
    | some size ↦ in_file f.reader size (find_atom f.reader size (pos 0) (pos size) (codes "moov"))
  ]

  -- mp4CreationDate
  unfoldable pub mp4_creation_date : Text → Option Time
  unfolding in_media
  mp4_creation_date path = in_media (M.open_media path)

  abbrev pub still_exts : List Text
  still_exts =
      codes ".jpg"
      ∷ codes ".jpeg"
      ∷ codes ".arw"
      ∷ codes ".dng"
      ∷ codes ".tif"
      ∷ codes ".tiff"
      ∷ codes ".cr2"
      ∷ codes ".cr3"
      ∷ codes ".nef"
      ∷ []

  abbrev pub video_exts : List Text
  video_exts = codes ".mp4" ∷ codes ".mov" ∷ codes ".m4v" ∷ []

  abbrev decoded : Outcome Text (Outcome Text Time) → Option Time
  decoded (err cause) = none
  decoded (ok (err cause)) = none
  decoded (ok (ok t)) = some t

  -- exifDate
  abbrev pub exif_date : Text → Option Time
  exif_date path = elim (M.open_media path) [ none ↦ none | some f ↦ decoded (M.decode f) ]

  abbrev pub or_mtime : FileEntry → Source → Option Time → Time × Source
  or_mtime e source none = (e.mod_time, source_mtime)
  or_mtime e source (some t) = (t, source)

  -- DateOf
  unfoldable pub date_of : FileEntry → Time × Source
  unfolding to_lower ext list_eq mp4_creation_date
  date_of e =
      let extension = to_lower (ext e.path) in
      if contains still_exts extension
      then or_mtime e source_exif (exif_date e.path)
      else if contains video_exts extension
      then or_mtime e source_mp4 (mp4_creation_date e.path)
      else (e.mod_time, source_mtime)
